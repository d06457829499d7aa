-- ===== src/Server/Main.antt =====
-- server.c: `checkArgs`, the loop of the parent in `server_FSM`, and `main`. The run that is followed is
-- that of one process: what `fork` returns in it is a script.
pub mod Laws
mod Tests
use cpe464_program.Common.{
  List, M, Option, Run, [], and_then, blocked, exit, get_or, if◌then◌else◌, length, ltb, none, ok,
  out_of_fuel, return, some, suc, zero, ℕ, ◌++◌, ◌==◌, ◌>>◌, ◌||◌, ◌∷◌,
}
use cpe464_program.Buffer.{Memory}
use cpe464_program.Floats.{Floats, is_bad_rate}
use cpe464_program.Net.{Net}
use cpe464_program.Networks.{udp_server_setup}
use cpe464_program.Numbers.{atoi}
use cpe464_program.Poll.{PollSet, add_to_poll_set, remove_from_poll_set, setup_poll_set}
use cpe464_program.Server.{child}
use cpe464_program.Server.Request.{Request, process_filename_ack}
use cpe464_program.Socket.{Kernel, close}

pub data Fork : Type 0 where
  in_child in_parent fork_failed : Fork

-- `net` is what this process receives and sends. `open_files` are the files that `processFilenameAck`
-- has opened and this process has not closed; `children` are the requests that children were started
-- for.
pub record Parent : Type 0 where
  pub net : Net
  pub kernel : Kernel
  pub forks : List Fork
  pub open_files : List (List ℕ)
  pub children : List Request

-- The port; 0 leaves the choice to the kernel.
unfoldable pub check_args : Floats → List (List ℕ) → Run ℕ
check_args f argv =
    if ltb (length argv) 2 || ltb 3 (length argv)
    then exit 1
    else if is_bad_rate f (get_or argv 1 [])
    then exit 1
    else ok (if length argv == 3 then atoi (get_or argv 2 []) else 0)

-- `opens` is the directory that the files are read from.
module _ (memory : Memory) (child_fuel inner : ℕ) (stack : ℕ → ℕ) (opens : List ℕ → Option (List ℕ))
    (socket_num : ℕ) where
  -- The branch of `server_FSM` where `fork` returns 0. It ends the process.
  unfoldable pub run_child : Request → M Parent (Unit {0})
  unfolding child udp_server_setup close
  run_child q s = and_then (close socket_num s.kernel) λ c.
      and_then (remove_from_poll_set socket_num s.net.poll_set) λ left.
        and_then (udp_server_setup 0 c.1) λ u. and_then (add_to_poll_set u.0 left) λ watched.
          and_then
            (child memory child_fuel inner stack u.0 q.window_size q.buffer_size q.export_file
              (record s.net { poll_set = watched }))
            λ end. and_then (close u.0 u.1) λ closed. exit 0

  unfoldable pub after_fork : Request → List Fork → M Parent (Unit {0})
  unfolding run_child
  after_fork q [] s = blocked
  after_fork q (in_child ∷ rest) s = run_child q (record s { forks = rest })
  after_fork q (in_parent ∷ rest) s =
      ok (tt, record s { forks = rest; children = s.children ++ (q ∷ []) })
  after_fork q (fork_failed ∷ rest) s = ok (tt, record s { forks = rest })

  -- A file that was opened is never closed by the parent.
  unfoldable pub on_request : Option Request → M Parent (Unit {0})
  unfolding after_fork
  on_request none s = ok (tt, s)
  on_request (some q) s =
      after_fork q s.forks (record s { open_files = s.open_files ++ (q.export_file ∷ []) })

  -- The body of the loop of `server_FSM`.
  unfoldable pub serve_request : M Parent (Unit {0})
  unfolding process_filename_ack on_request
  serve_request s =
      and_then (process_filename_ack opens stack s.net) λ r. on_request r.0 (record s { net = r.1 })

  -- As many rounds of `while (1)`.
  unfoldable pub serve_requests : ℕ → M Parent (Unit {0})
  unfolding serve_request
  serve_requests zero = return tt
  serve_requests (suc rounds) = serve_request >> serve_requests rounds

  -- The loop does not end by itself: after `fuel` rounds the model stops.
  unfoldable pub server_fsm : ℕ → M Parent (Unit {0})
  unfolding serve_requests
  server_fsm fuel = serve_requests fuel >> λ s. out_of_fuel

module _ (f : Floats) (memory : Memory) (child_fuel inner : ℕ) (stack : ℕ → ℕ)
    (opens : List ℕ → Option (List ℕ)) where
  -- The state of a process that has just begun.
  abbrev pub started : Kernel → List Fork → Net → PollSet → Parent
  started k forks net watched = record {
    net = record net { poll_set = watched };
    kernel = k;
    forks = forks;
    open_files = [];
    children = [];
  }

  unfoldable pub main : ℕ → List (List ℕ) → Kernel → List Fork → Net → Run (Unit {0} × Parent)
  unfolding check_args udp_server_setup server_fsm
  main fuel argv k forks net = and_then (check_args f argv) λ port_number.
      and_then (udp_server_setup port_number k) λ u.
        and_then (add_to_poll_set u.0 (setup_poll_set net.poll_set)) λ watched.
          and_then
            (server_fsm memory child_fuel inner stack opens u.0 fuel
              (started u.1 forks net watched))
            λ end. and_then (close u.0 end.1.kernel) λ closed. ok (tt, end.1)

-- ===== src/Rcopy/Main.antt =====
-- rcopy.c: `checkArgs` and `main`. The texts of `argv` are without their NUL.
pub mod Laws
pub mod Delivery
mod Tests
use cpe464_program.Common.{
  Bool, List, Run, [], and_then, exit, get_or, if◌then◌else◌, is_empty, leb, length, not, ok, slt,
  ℕ, ◌-◌, ◌==◌, ◌^◌, ◌||◌,
}
use cpe464_program.Buffer.{Memory}
use cpe464_program.Floats.{Floats, is_bad_rate}
use cpe464_program.Net.{Net}
use cpe464_program.Networks.{setup_udp_client_to_server}
use cpe464_program.Numbers.{atoi, strtol, to_int}
use cpe464_program.Rcopy.{Rcopy}
use cpe464_program.Rcopy.Exchange.{Args}
use cpe464_program.Rcopy.Machine.{rcopy_fsm}
use cpe464_program.Socket.{Kernel, close}

-- argv[i]
abbrev pub arg : List (List ℕ) → ℕ → List ℕ
arg argv i = get_or argv i []

abbrev pub max_window : ℕ
max_window = 2 ^ 30

abbrev pub max_buffer : ℕ
max_buffer = 1400

abbrev pub max_port : ℕ
max_port = 65535

-- The test of a number between 1 and `last`: `true` if it is refused.
unfoldable pub is_bad_number : ℕ → List ℕ → Bool
unfolding strtol
is_bad_number last text =
    let r = strtol text in not (is_empty r.1) || (not (slt 0 (to_int r.0)) || slt last (to_int r.0))

abbrev pub is_bad_name : List ℕ → List ℕ → Bool
is_bad_name from_file to_file = (length from_file == 0) || (length to_file == 0)

abbrev pub is_long_name : List ℕ → List ℕ → Bool
is_long_name from_file to_file = leb 100 (length from_file) || leb 100 (length to_file)

-- An empty name of the remote machine, `argv[6]`, is only reported.
unfoldable pub check_args : Floats → List (List ℕ) → Run ℕ
check_args f argv =
    if not (length argv == 8)
    then exit 1
    else if is_bad_name (arg argv 1) (arg argv 2)
    then exit 1
    else if is_long_name (arg argv 1) (arg argv 2)
    then exit 1
    else if is_bad_number (max_window - 1) (arg argv 3)
    then exit 1
    else if is_bad_number max_buffer (arg argv 4)
    then exit 1
    else if is_bad_rate f (arg argv 5)
    then exit 1
    else if is_bad_number max_port (arg argv 7)
    then exit 1
    else ok (to_int (strtol (arg argv 7)).0)

-- What `rcopy_FSM` and `filename_exchange` read of `argv`.
abbrev pub args_of : List (List ℕ) → Args
args_of argv = record {
  from_file = arg argv 1;
  window_size = atoi (arg argv 3);
  buffer_size = atoi (arg argv 4);
}

-- `opens` is whether the file of that name can be opened for writing.
module _ (f : Floats) (inet_ntop : ℕ → List ℕ → List ℕ) (opens : List ℕ → Bool) where
  unfoldable pub main : Memory → (ℕ → ℕ) → ℕ → List (List ℕ) → Kernel → Net → Run (Kernel × Rcopy)
  unfolding check_args setup_udp_client_to_server rcopy_fsm close
  main memory stack fuel argv k net = and_then (check_args f argv) λ port_number.
      and_then (setup_udp_client_to_server inet_ntop (arg argv 6) port_number k) λ r.
        and_then (rcopy_fsm memory stack (opens (arg argv 2)) fuel r.0.0 (args_of argv) net)
          λ end. and_then (close r.0.0 r.1) λ q. ok (q.1, end.1)

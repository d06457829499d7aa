-- ===== src/Server/Main/Laws.antt =====
-- server.c: the parent serves every request in turn, for ever.
use cpe464_program.Common.{
  All, List, Option, [], ap, append-nil, append_assoc, arith, length, map, ok, refl, replicate,
  some, ℕ, ◌++◌, ◌<◌, ◌^◌, ◌∙◌, ◌∷◌, ◌≡◌, ◌≤◌,
}
use cpe464_program.Buffer.{Memory}
use cpe464_program.Net.{Arrival, datagram}
use cpe464_program.Packet.{build_packet, filename_packet, flag_filename_ack}
use cpe464_program.Server.Main.{
  Fork, Parent, after_fork, in_parent, on_request, serve_request, serve_requests,
}
use cpe464_program.Server.Request.{Request, max_filename_size}
use cpe464_program.Server.Request.Fields.{IsName}
use cpe464_program.Server.Request.Laws.{process_filename_ack_lem}

-- Requests as clients send them: the two sizes and the name, and the file of that name.
pub record Wish : Type 0 where
  pub window_size : ℕ
  pub buffer_size : ℕ
  pub name : List ℕ
  pub content : List ℕ

abbrev pub IsGranted : (List ℕ → Option (List ℕ)) → Wish → Type 0
IsGranted opens w =
    (w.window_size < 2 ^ 32)
    × (w.buffer_size < 2 ^ 32)
    × IsName w.name
    × (length w.name ≤ max_filename_size)
    × (opens w.name ≡ some w.content)

abbrev pub wish_arrivals : List Wish → List Arrival → List Arrival
wish_arrivals [] rest = rest
wish_arrivals (w ∷ ws) rest =
    datagram (filename_packet w.window_size w.buffer_size w.name) ∷ wish_arrivals ws rest

abbrev pub wish_request : Wish → Request
wish_request w = record {
  export_file = w.content;
  window_size = w.window_size;
  buffer_size = w.buffer_size;
}

abbrev pub parents : List Wish → List Fork → List Fork
parents [] rest = rest
parents (w ∷ ws) rest = in_parent ∷ parents ws rest

-- The state after one more request has been served.
abbrev pub served : Wish → List Arrival → List Fork → Parent → Parent
served w arrivals forks s = record s {
  net = record s.net {
    arrivals = arrivals;
    sent = s.net.sent ++ (build_packet 0 flag_filename_ack [] ∷ []);
  };
  forks = forks;
  open_files = s.open_files ++ (w.content ∷ []);
  children = s.children ++ (wish_request w ∷ []);
}

-- The state after all of them: an acknowledgement, an open file and a child for each.
abbrev pub all_served : List Wish → List Arrival → List Fork → Parent → Parent
all_served ws arrivals forks s = record s {
  net = record s.net {
    arrivals = arrivals;
    sent = s.net.sent ++ replicate (length ws) (build_packet 0 flag_filename_ack []);
  };
  forks = forks;
  open_files = s.open_files ++ map (λ (w : Wish). w.content) ws;
  children = s.children ++ map wish_request ws;
}

all_served-nil :
    (s : Parent) (arrivals : List Arrival) (forks : List Fork)
    → s.net.arrivals ≡ arrivals
    → s.forks ≡ forks
    → s ≡ all_served [] arrivals forks s
all_served-nil s arrivals forks a fk =
    ground (arith, append-nil s.net.sent, append-nil s.open_files, append-nil s.children)

all_served-served :
    (w : Wish) (ws : List Wish) (rest arrivals : List Arrival) (more forks : List Fork) (s : Parent)
    → all_served ws arrivals forks (served w rest more s) ≡ all_served (w ∷ ws) arrivals forks s
all_served-served w ws rest arrivals more forks s = simp (append_assoc)

module _ (memory : Memory) (child_fuel inner : ℕ) (stack : ℕ → ℕ) (opens : List ℕ → Option (List ℕ))
    (socket_num : ℕ) where
  serve_request_lem :
      (w : Wish) (arrivals : List Arrival) (forks : List Fork) (s : Parent)
      → IsGranted opens w
      → s.net.arrivals ≡ datagram (filename_packet w.window_size w.buffer_size w.name) ∷ arrivals
      → s.forks ≡ in_parent ∷ forks
      → serve_request memory child_fuel inner stack opens socket_num s
        ≡ ok (tt, served w arrivals forks s)
  unfolding serve_request on_request after_fork
  serve_request_lem w arrivals forks s g a fk =
      rw
        (
          process_filename_ack_lem [] w.window_size w.buffer_size w.name opens stack s.net arrivals
              (omega arith) tt g.0 g.1 g.2 g.3 a,
          g.4,
          fk,
        )
        refl

  -- If the next datagrams are requests of clients for files that exist, with sizes of 32 bits and
  -- names of at most 100 bytes other than NUL, and this process is the parent at their forks, then
  -- as many rounds of the loop of server_FSM serve them in their order: in the state after these
  -- rounds an acknowledgement was sent for each, and each has its open file and its child, with the
  -- sizes that it asked for, in addition to those that were there before; no file was closed.
  pub serve_requests_lem :
      (ws : List Wish) (arrivals : List Arrival) (forks : List Fork) (s : Parent)
      → All (IsGranted opens) ws
      → s.net.arrivals ≡ wish_arrivals ws arrivals
      → s.forks ≡ parents ws forks
      → serve_requests memory child_fuel inner stack opens socket_num (length ws) s
        ≡ ok (tt, all_served ws arrivals forks s)
  unfolding serve_requests
  serve_requests_lem [] arrivals forks s g a fk =
      ap (λ t. ok (tt, t)) (all_served-nil s arrivals forks a fk)
  serve_requests_lem (w ∷ ws) arrivals forks s g a fk =
      let now = served w (wish_arrivals ws arrivals) (parents ws forks) s in
      rw (serve_request_lem w (wish_arrivals ws arrivals) (parents ws forks) s g.0 a fk) (
        serve_requests_lem ws arrivals forks now g.1 refl refl
        ∙ ap (λ t. ok (tt, t))
            (all_served-served w ws (wish_arrivals ws arrivals) arrivals (parents ws forks) forks
              s))

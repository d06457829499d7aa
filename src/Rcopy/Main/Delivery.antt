-- ===== src/Rcopy/Main/Delivery.antt =====
-- rcopy.c: what a whole run of the program leaves in the output file.
mod Tests
use cpe464_program.Common.{
  Bool, Bool-cases, Ensures, Ensures-Returns, Ensures-and_then, Ensures-and_then_eq, Ensures-mono,
  Ensures→Returns, List, [], ap, arith, inl, inr, length, ok, replicate, subst, sym, ℕ, ◌*◌, ◌++◌,
  ◌+◌, ◌<◌, ◌^◌, ◌∙◌, ◌≡◌, ◌≤◌, ◌⊎◌,
}
use cpe464_program.Buffer.{CircularBuffer, Memory, buffer_init}
use cpe464_program.Buffer.Init.{IsInitial, buffer_init-IsInitial}
use cpe464_program.Floats.{Floats}
use cpe464_program.Net.{Net}
use cpe464_program.Networks.{setup_udp_client_to_server}
use cpe464_program.Networks.Laws.{close_safe, setup_udp_client_to_server_safe}
use cpe464_program.Packet.{filename_packet}
use cpe464_program.Poll.{poll_set_size}
use cpe464_program.Rcopy.{Rcopy, inorder}
use cpe464_program.Rcopy.Delivery.File.{block_of, receive_loop_delivers, start}
use cpe464_program.Rcopy.Delivery.Transfer.{RunIsAdmissible}
use cpe464_program.Rcopy.Exchange.{
  Args, RcopyState, done, file_ok, filename_exchange, receive_data, send_name,
}
use cpe464_program.Rcopy.Exchange.Frame.{OnlyNet, filename_exchange-OnlyNet}
use cpe464_program.Rcopy.Exchange.Laws.{filename_exchange_lem}
use cpe464_program.Rcopy.Exchange.Response.{HaveNuls}
use cpe464_program.Rcopy.Machine.{after_exchange, rcopy_fsm, receive_loop}
use cpe464_program.Rcopy.Main.{arg, args_of, check_args, main}
use cpe464_program.Rcopy.Main.Laws.{check_args_bounds}
use cpe464_program.Socket.{Kernel, SockAddr, close}

-- The file was transferred, or the server did not answer any of ten requests and nothing was written.
abbrev pub Transferred : List ℕ → Args → Net → Rcopy → Type 0
Transferred file a net s =
    (s.out_file ≡ file)
    ⊎ (s.out_file ≡ [])
      × (s.net.sent
          ≡ net.sent ++ replicate 10 (filename_packet a.window_size a.buffer_size a.from_file))

-- What arrives after the exchange is damaged or belongs to the file.
abbrev pub ExchangeIsHonest :
    (file : List ℕ) (last : ℕ) → last + 1 < 2 ^ 31 → Memory → (ℕ → ℕ) → ℕ → ℕ → Args → Net → Type 0
ExchangeIsHonest file last room memory stack fuel sock_num a net =
    (b : CircularBuffer) (t : Rcopy)
    → buffer_init memory a.window_size a.buffer_size 0 ≡ ok b
    → filename_exchange stack sock_num a (start b net) ≡ ok (receive_data, t)
    → RunIsAdmissible (block_of a.buffer_size file) last room sock_num fuel inorder t

-- What the exchange ensures.
abbrev Exchanged : Args → Rcopy → RcopyState × Rcopy → Type 0
Exchanged a s r =
    OnlyNet s r.1
    × ((k : ℕ) × (k ≤ 10)
        × (r.1.net.sent
            ≡ s.net.sent ++ replicate k (filename_packet a.window_size a.buffer_size a.from_file))
        × (((r.0 ≡ done) × (k ≡ 10)) ⊎ ((r.0 ≡ receive_data) × (0 < k))))

module _ (file : List ℕ) (last : ℕ) (room : last + 1 < 2 ^ 31) (memory : Memory) (stack : ℕ → ℕ)
    (fuel sock_num : ℕ) (a : Args) (net : Net) where
  abbrev asked : List (List ℕ) → ℕ → List (List ℕ)
  asked sent k = sent ++ replicate k (filename_packet a.window_size a.buffer_size a.from_file)

  filename_exchange-Exchanged :
      (s : Rcopy)
      → s.net.poll_set.max_descriptor ≤ poll_set_size
      → HaveNuls 10 s.net.arrivals
      → Ensures (Exchanged a s) (filename_exchange stack sock_num a s)
  filename_exchange-Exchanged s few nuls =
      Ensures-Returns (λ r. OnlyNet s r.1) _ (filename_exchange stack sock_num a s)
        (filename_exchange-OnlyNet stack sock_num a s few nuls)
        (Ensures→Returns _ (filename_exchange stack sock_num a s)
          (filename_exchange_lem stack sock_num a s few nuls))

  after_exchange_lem :
      (b : CircularBuffer) (state : RcopyState) (t : Rcopy)
      → length file ≤ last * a.buffer_size
      → 0 < a.window_size
      → 2 * length net.answers < fuel
      → buffer_init memory a.window_size a.buffer_size 0 ≡ ok b
      → filename_exchange stack sock_num a (start b net) ≡ ok (state, t)
      → ExchangeIsHonest file last room memory stack fuel sock_num a net
      → Exchanged a (start b net) (state, t)
      → Ensures (λ r. Transferred file a net r.1) (after_exchange fuel sock_num state t)
  unfolding after_exchange
  after_exchange_lem b done t fits pos enough made e honest (only, (k, few, sent, outcome)) = inr (
    ap (λ (s : Rcopy). s.out_file) only.0,
    elim outcome [
      | inl gave_up ↦ sent ∙ ap (asked net.sent) gave_up.1
      | inr accepted ↦ absurd (cc)
    ],
  )
  after_exchange_lem b receive_data t fits pos enough made e honest (only, counted) =
      subst (λ s. Ensures (λ r. Transferred file a net r.1) (receive_loop fuel sock_num inorder s))
        (sym only.0)
        (Ensures-mono (λ r. r.1.out_file ≡ file) (λ r. Transferred file a net r.1)
          (receive_loop fuel sock_num inorder (start b t.net)) (λ r h. inl h)
          (receive_loop_delivers file a.buffer_size last a.window_size sock_num fuel memory b t.net
            room fits pos made (omega (arith, only.1))
            (subst
              (λ s. RunIsAdmissible (block_of a.buffer_size file) last room sock_num fuel inorder s)
              only.0 (honest b t made e))))
  after_exchange_lem b send_name t fits pos enough made e honest (only, (k, few, sent, outcome)) =
      absurd (elim outcome [ inl gave_up ↦ cc | inr accepted ↦ cc ])
  after_exchange_lem b file_ok t fits pos enough made e honest (only, (k, few, sent, outcome)) =
      absurd (elim outcome [ inl gave_up ↦ cc | inr accepted ↦ cc ])

  pub rcopy_fsm_lem :
      (opens : Bool)
      → length file ≤ last * a.buffer_size
      → 0 < a.window_size
      → net.poll_set.max_descriptor ≤ poll_set_size
      → HaveNuls 10 net.arrivals
      → 2 * length net.answers < fuel
      → ExchangeIsHonest file last room memory stack fuel sock_num a net
      → Ensures (λ r. Transferred file a net r.1) (rcopy_fsm memory stack opens fuel sock_num a net)
  unfolding rcopy_fsm
  rcopy_fsm_lem opens fits pos few nuls enough honest =
      Ensures-and_then_eq (IsInitial a.window_size a.buffer_size 0)
        (λ r. Transferred file a net r.1) (buffer_init memory a.window_size a.buffer_size 0) _
        (buffer_init-IsInitial memory a.window_size a.buffer_size 0)
        λ b made v. elim (Bool-cases opens) [
          | inr refused ↦ rw refused tt
          | inl given ↦ rw given (
              Ensures-and_then_eq (Exchanged a (start b net)) (λ r. Transferred file a net r.1)
                (filename_exchange stack sock_num a (start b net)) _
                (filename_exchange-Exchanged (start b net) few nuls)
                λ r e h. after_exchange_lem b r.0 r.1 fits pos enough made e honest h)
        ]

-- If checkArgs accepts the command line, the file has at most `last` blocks of the buffer size of
-- the command line, there is fuel for more than twice the polls, each datagram among the first ten
-- arrivals has a NUL among its first 1407 bytes, and every datagram that arrives after a request was
-- answered is damaged or is a block of the file within the window, and while the client is buffering
-- no older than its newest buffered packet, then main of rcopy, whatever the kernel does, does
-- nothing undefined and ends, and if it returns the output file is the file, or it is empty and the
-- request was sent ten times; it may instead exit or wait for input. The poll set has been used for
-- no descriptor past its first ten.
pub main_delivers :
    (f : Floats) (inet_ntop : ℕ → List ℕ → List ℕ) (opens : List ℕ → Bool) (memory : Memory)
    (stack : ℕ → ℕ) (fuel : ℕ) (argv : List (List ℕ)) (port : ℕ) (k : Kernel) (net : Net)
    (file : List ℕ) (last : ℕ) (room : last + 1 < 2 ^ 31)
    → check_args f argv ≡ ok port
    → length file ≤ last * (args_of argv).buffer_size
    → net.poll_set.max_descriptor ≤ poll_set_size
    → HaveNuls 10 net.arrivals
    → 2 * length net.answers < fuel
    → ((r : (ℕ × SockAddr) × Kernel)
        → setup_udp_client_to_server inet_ntop (arg argv 6) port k ≡ ok r
        → ExchangeIsHonest file last room memory stack fuel r.0.0 (args_of argv) net)
    → Ensures
        (λ r. Transferred file (args_of argv) net r.1)
        (main f inet_ntop opens memory stack fuel argv k net)
unfolding main
main_delivers f inet_ntop opens memory stack fuel argv port k net file last room accepted fits few
      nuls enough honest =
    let a = args_of argv in
    let (ported, eight, names, sizes) = check_args_bounds f argv port accepted in
    rw accepted (
      Ensures-and_then_eq (λ r. Unit {0}) (λ r. Transferred file a net r.1)
        (setup_udp_client_to_server inet_ntop (arg argv 6) port k) _
        (setup_udp_client_to_server_safe inet_ntop (arg argv 6) port k)
        λ r e u.
          Ensures-and_then (λ (q : Unit {0} × Rcopy). Transferred file a net q.1)
            (λ q. Transferred file a net q.1)
            (rcopy_fsm memory stack (opens (arg argv 2)) fuel r.0.0 a net) _
            (rcopy_fsm_lem file last room memory stack fuel r.0.0 a net (opens (arg argv 2)) fits
              sizes.0.0 few nuls enough (honest r e))
            λ end done_well.
              Ensures-and_then (λ q. Unit {0}) (λ q. Transferred file a net q.1) (close r.0.0 r.1) _
                (close_safe r.0.0 r.1) λ q v. done_well)

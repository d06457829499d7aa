-- ===== src/Rcopy/Delivery/Transfer.antt =====
-- One call of `receive_data_fsm` of rcopy.c, and the loop of such calls.
use cpe464_program.Common.{
  Bool-cases, Ensures, Ensures-Returns, Ensures-and_then_eq, List, M, Option, Run, [], and_then, ap,
  arith, blocked, exit, fault, if◌then◌else◌, inl, inr, none, ok, ok-injective, out_of_fuel, refl,
  return, some, subst, suc, sym, take, zero, ℕ, ◌+◌, ◌<◌, ◌==◌, ◌>>=◌, ◌^◌, ◌∙◌, ◌∷◌, ◌≡◌, ◌≢◌,
}
use cpe464_program.Net.{Arrival, Net, datagram, poll, safe_recvfrom}
use cpe464_program.Net.Laws.{IsPolled, IsReceived, poll_lem, safe_recvfrom_lem}
use cpe464_program.Packet.{max_pdu}
use cpe464_program.Rcopy.{
  Rcopy, RecvState, buffering, finished, flush, inorder, is_finished, on_net, on_ready,
  receive_buffering, receive_data_fsm, receive_inorder,
}
use cpe464_program.Rcopy.Delivery.{Holds, IsAdmissible, IsFaithful, written}
use cpe464_program.Rcopy.Delivery.Buffering.{receive_buffering_lem}
use cpe464_program.Rcopy.Delivery.Flush.{handle_flush_lem}
use cpe464_program.Rcopy.Delivery.Inorder.{receive_inorder_lem}
use cpe464_program.Rcopy.Machine.{receive_loop}
use cpe464_program.Rcopy.Progress.{measure, receive_data_fsm_progress}

module _ {ℓ} {A : Type ℓ} where
  -- A call on the socket or the poll set, and what follows it.
  pub Ensures-on_net {κ μ} :
      {B : Type κ} (P : A × Net → Type 0) (Q : B × Rcopy → Type μ) (m : M Net A) (s : Rcopy)
      (f : A → M Rcopy B)
      → Ensures P (m s.net)
      → ((a : A) (n : Net) → P (a, n) → Ensures Q (f a (record s { net = n })))
      → Ensures Q ((on_net m >>= f) s)
  Ensures-on_net P Q m s f h k = go (m s.net) h
    where
      go :
          (r : Run (A × Net))
          → Ensures P r
          → Ensures Q (
              and_then
                (and_then {B = A × Rcopy} r λ x. ok (x.0, record s { net = x.1 }))
                λ x. f x.0 x.1)
      go (ok x) h = k x.0 x.1 h
      go (exit n) h = tt
      go fault h = λ u. absurd (h tt)
      go blocked h = tt
      go out_of_fuel h = λ u. absurd (h tt)

module _ (payload : ℕ → List ℕ) (last : ℕ) (room : last + 1 < 2 ^ 31) (sock_num : ℕ) where
  -- The next datagram, if there is one, is admissible where the client stands.
  abbrev pub NextIsAdmissible : RecvState → Rcopy → Type 0
  NextIsAdmissible state s =
      (bytes : List ℕ) (rest : List Arrival)
      → s.net.arrivals ≡ datagram bytes ∷ rest
      → IsAdmissible payload last state s.buffer (take max_pdu bytes)

  on_ready_lem :
      (state : RecvState) (receive : List ℕ → M Rcopy RecvState) (s : Rcopy)
      → IsFaithful payload last state s.buffer s.out_file
      → NextIsAdmissible state s
      → ((packet : List ℕ) (t : Rcopy)
          → IsFaithful payload last state t.buffer t.out_file
          → IsAdmissible payload last state t.buffer packet
          → Ensures (Holds payload last) (receive packet t))
      → Ensures (Holds payload last) ((on_net poll >>= on_ready sock_num state receive) s)
  on_ready_lem state receive s v next received =
      Ensures-on_net (λ r. IsPolled s.net r.1) (Holds payload last) poll s
        (on_ready sock_num state receive) (poll_lem s.net) answered_poll
    where
      received_one :
          (n : Net)
          → IsPolled s.net n
          → (packet : List ℕ) (n' : Net) → IsReceived max_pdu n (packet, n')
          → Ensures (Holds payload last) (receive packet (record s { net = n' }))
      received_one n p packet n' r =
          received packet (record s { net = n' }) v
            (rw r.3 (next r.0 r.1 (sym p.same_arrivals ∙ r.2)))

      answered_poll :
          (ready : Option ℕ) (n : Net)
          → IsPolled s.net n
          → Ensures
              (Holds payload last)
              (on_ready sock_num state receive ready (record s { net = n }))
      answered_poll none n p = tt
      answered_poll (some fd) n p = elim (Bool-cases (fd == sock_num)) [
        | inr other ↦ rw other v
        | inl ours ↦ rw ours (
            Ensures-on_net (IsReceived max_pdu n) (Holds payload last) (safe_recvfrom max_pdu)
              (record s { net = n }) receive (safe_recvfrom_lem max_pdu n) (received_one n p))
      ]

  -- In every state but EXIT, if the next datagram is admissible, one call of receive_data_fsm does
  -- nothing undefined and keeps the invariant: the output file is what the packets below `current`
  -- carry, in order, and the buffer holds only packets that are still to be written.
  pub receive_data_fsm-IsFaithful :
      (state : RecvState) (s : Rcopy)
      → state ≢ finished
      → IsFaithful payload last state s.buffer s.out_file
      → NextIsAdmissible state s
      → Ensures (Holds payload last) (receive_data_fsm sock_num state s)
  unfolding receive_data_fsm
  receive_data_fsm-IsFaithful inorder s going v next =
      on_ready_lem inorder receive_inorder s v next
        (λ packet t w a. receive_inorder_lem payload last room packet t w a)
  receive_data_fsm-IsFaithful buffering s going v next =
      on_ready_lem buffering receive_buffering s v next
        (λ packet t w a. receive_buffering_lem payload last room packet t w a)
  receive_data_fsm-IsFaithful flush s going v next = handle_flush_lem payload last room s v
  receive_data_fsm-IsFaithful finished s going v next = absurd (going refl)

  -- The datagrams that arrive during the next `fuel` rounds are admissible where the client then stands.
  abbrev pub RunIsAdmissible : ℕ → RecvState → Rcopy → Type 0
  RunIsAdmissible zero state s = Unit {0}
  RunIsAdmissible (suc fuel) state s =
      NextIsAdmissible state s
      × ((state' : RecvState) (s' : Rcopy)
          → receive_data_fsm sock_num state s ≡ ok (state', s')
          → RunIsAdmissible fuel state' s')

  abbrev pub IsComplete : Unit {0} × Rcopy → Type 0
  IsComplete r = r.1.out_file ≡ written payload (last + 1)

  -- What follows a call that returned: the loop ends, or goes on with less input.
  next_round :
      (fuel : ℕ) (state : RecvState) (t : Rcopy)
      → ((next : RecvState) (u : Rcopy)
          → measure (next, u) < fuel
          → next ≢ finished
          → IsFaithful payload last next u.buffer u.out_file
          → RunIsAdmissible fuel next u
          → Ensures IsComplete (receive_loop fuel sock_num next u))
      → measure (state, t) < fuel
      → IsFaithful payload last state t.buffer t.out_file
      → RunIsAdmissible fuel state t
      → Ensures IsComplete
          ((if is_finished state then return tt else receive_loop fuel sock_num state) t)
  next_round fuel inorder t loop less v honest = loop inorder t less (λ e. cc) v honest
  next_round fuel buffering t loop less v honest = loop buffering t less (λ e. cc) v honest
  next_round fuel flush t loop less v honest = loop flush t less (λ e. cc) v honest
  next_round fuel finished t loop less v honest = v.file ∙ ap (written payload) (v.complete refl)

  pub receive_loop_lem :
      (fuel : ℕ) (state : RecvState) (s : Rcopy)
      → measure (state, s) < fuel
      → state ≢ finished
      → IsFaithful payload last state s.buffer s.out_file
      → RunIsAdmissible fuel state s
      → Ensures IsComplete (receive_loop fuel sock_num state s)
  unfolding receive_loop
  receive_loop_lem zero state s enough going v honest = absurd (omega arith)
  receive_loop_lem (suc fuel) state s enough going v honest =
      Ensures-and_then_eq (λ q. Holds payload last q × (measure q < measure (state, s))) IsComplete
        (receive_data_fsm sock_num state s) _
        (Ensures-Returns (Holds payload last) (λ r. measure r < measure (state, s))
          (receive_data_fsm sock_num state s) (receive_data_fsm-IsFaithful state s going v honest.0)
          (receive_data_fsm_progress sock_num state s))
        (λ q e h.
          next_round fuel q.0 q.1 (receive_loop_lem fuel) (omega (arith, h.1)) h.0
            (honest.1 q.0 q.1 e))

  -- To show a run admissible, follow it round by round.
  pub RunIsAdmissible-step :
      (fuel : ℕ) (state next : RecvState) (s t : Rcopy)
      → NextIsAdmissible state s
      → receive_data_fsm sock_num state s ≡ ok (next, t)
      → RunIsAdmissible fuel next t
      → RunIsAdmissible (suc fuel) state s
  RunIsAdmissible-step fuel state next s t first e rest = (
    first,
    λ state' s' e'.
        let same : (next, t) ≡ (state', s') = ok-injective (sym e ∙ e') in
        subst (λ (r : RecvState × Rcopy). RunIsAdmissible fuel r.0 r.1) same rest,
  )

  pub RunIsAdmissible-stop :
      (fuel : ℕ) (s : Rcopy) → s.net.arrivals ≡ [] → RunIsAdmissible fuel finished s
  unfolding receive_data_fsm
  RunIsAdmissible-stop zero s e = tt
  RunIsAdmissible-stop (suc fuel) s e = (λ bytes rest e'. absurd (cc), λ state' s' e'. absurd (cc))

  pub NextIsAdmissible-of_arrival :
      (state : RecvState) (s : Rcopy) (bytes : List ℕ) (rest : List Arrival)
      → s.net.arrivals ≡ datagram bytes ∷ rest
      → IsAdmissible payload last state s.buffer (take max_pdu bytes)
      → NextIsAdmissible state s
  NextIsAdmissible-of_arrival state s bytes rest e a bytes' rest' e' =
      let same : bytes ≡ bytes' = cc in
      subst (λ l. IsAdmissible payload last state s.buffer (take max_pdu l)) same a

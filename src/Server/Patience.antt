-- ===== src/Server/Patience.antt =====
-- server.c: how long `handle_wait_EOF_ack` waits.
use cpe464_program.Common.{
  Bool-cases, Ends, Ends-and_then, Ends-mono, Ensures→Ends, Option, [], ap, arith, if◌then◌else◌,
  inl, inr, length, ltb, ltb→lt, none, refl, return, some, suc, sym, zero, ℕ, ◌*◌, ◌++◌, ◌+◌, ◌-◌,
  ◌<◌, ◌>>=◌, ◌∙◌, ◌∷◌, ◌≡◌,
}
use cpe464_program.Net.{Net, poll, safe_recvfrom, safe_sendto}
use cpe464_program.Net.Laws.{IsPolled, IsReceived, poll_lem, safe_recvfrom_lem}
use cpe464_program.Packet.{build_packet, flag_eof, max_pdu}
use cpe464_program.Server.{
  Server, done, eof_loop, handle_wait_eof_ack, is_timeout, on_net, process_packet,
  process_rr_srej_eof, returned, send_eof,
}
use cpe464_program.Server.Fuel.{process_packet-Leaves}

-- A packet is taken from those that arrive, and no other.
process_rr_srej_eof-takes :
    (stack : ℕ → ℕ) (s : Server)
    → Ends
        (λ r. length s.net.arrivals ≡ suc (length r.1.net.arrivals))
        (process_rr_srej_eof stack s)
unfolding process_rr_srej_eof
process_rr_srej_eof-takes stack s =
    Ends-and_then (λ r. length s.net.arrivals ≡ suc (length r.1.net.arrivals))
      (λ r. length s.net.arrivals ≡ suc (length r.1.net.arrivals))
      (on_net (safe_recvfrom max_pdu) s) _
      (Ends-and_then (IsReceived max_pdu s.net)
        (λ r. length s.net.arrivals ≡ suc (length r.1.net.arrivals)) (safe_recvfrom max_pdu s.net) _
        (Ensures→Ends (IsReceived max_pdu s.net) (safe_recvfrom max_pdu s.net)
          (safe_recvfrom_lem max_pdu s.net))
        (λ r (bytes, rest, arrived, cut, after).
          ap length arrived ∙ ap (λ (n : Net). suc (length n.arrivals)) (sym after)))
      (λ r h.
        Ends-mono (λ q. q.1.net.arrivals ≡ r.1.net.arrivals)
          (λ q. length s.net.arrivals ≡ suc (length q.1.net.arrivals))
          (process_packet stack r.0 r.1) (λ q e. h ∙ ap (λ l. suc (length l)) (sym e))
          (process_packet-Leaves (λ s. s.net.arrivals) (λ s sent window. refl) stack r.0 r.1))

-- What one round does after its poll, given that the rest of the loop ends.
after_poll :
    (fuel : ℕ) (stack : ℕ → ℕ) (attempt : ℕ) (ready : Option ℕ) (t : Server)
    → attempt < 10
    → 10 * length t.net.arrivals + (10 - attempt) < suc fuel
    → ((a : ℕ) (u : Server)
        → 10 * length u.net.arrivals + (10 - a) < fuel
        → Ends (λ r. r.0 ≡ done) (eof_loop fuel stack a u))
    → Ends
        (λ r. r.0 ≡ done)
        ((if is_timeout ready
            then eof_loop fuel stack (attempt + 1)
            else (process_rr_srej_eof stack >>= λ flag.
                if returned flag_eof flag then return done else eof_loop fuel stack 0))
          t)
after_poll fuel stack attempt none t trying enough again = again (attempt + 1) t (omega arith)
after_poll fuel stack attempt (some fd) t trying enough again =
    Ends-and_then (λ r. length t.net.arrivals ≡ suc (length r.1.net.arrivals)) (λ r. r.0 ≡ done)
      (process_rr_srej_eof stack t) _ (process_rr_srej_eof-takes stack t)
      (λ r e. elim (Bool-cases (returned flag_eof r.0)) [
        | inl acknowledged ↦ rw acknowledged refl
        | inr other ↦ rw other (again 0 r.1 (omega (arith, e)))
      ])

eof_loop-Ends :
    (fuel : ℕ) (stack : ℕ → ℕ) (attempt : ℕ) (s : Server)
    → 10 * length s.net.arrivals + (10 - attempt) < fuel
    → Ends (λ r. r.0 ≡ done) (eof_loop fuel stack attempt s)
unfolding eof_loop send_eof safe_sendto
eof_loop-Ends zero stack attempt s enough = absurd (omega arith)
eof_loop-Ends (suc fuel) stack attempt s enough = elim (Bool-cases (ltb attempt 10)) [
  | inr over ↦ rw over refl
  | inl trying ↦ rw trying (
      let asked : Server = record s {
        net = record s.net {
          sent = s.net.sent ++ (build_packet s.window.current flag_eof [] ∷ []);
        };
      } in
      Ends-and_then (λ r. r.1.net.arrivals ≡ s.net.arrivals) (λ r. r.0 ≡ done) (on_net poll asked) _
        (Ends-and_then (λ r. IsPolled asked.net r.1) (λ r. r.1.net.arrivals ≡ s.net.arrivals)
          (poll asked.net) _
          (Ensures→Ends (λ r. IsPolled asked.net r.1) (poll asked.net) (poll_lem asked.net))
          (λ r p. p.same_arrivals))
        (λ r e.
          after_poll fuel stack attempt r.0 r.1 (ltb→lt attempt 10 trying)
            (omega (arith, enough, ap length e)) (eof_loop-Ends fuel stack)))
]

-- With more than ten rounds for each datagram that is to come and ten more, handle_wait_EOF_ack does
-- not run out of rounds, however many of its polls time out and whatever arrives, and if it returns,
-- it returns DONE.
pub handle_wait_eof_ack-Ends :
    (fuel : ℕ) (stack : ℕ → ℕ) (s : Server)
    → 10 * length s.net.arrivals + 10 < fuel
    → Ends (λ r. r.0 ≡ done) (handle_wait_eof_ack fuel stack s)
unfolding handle_wait_eof_ack
handle_wait_eof_ack-Ends fuel stack s enough = eof_loop-Ends fuel stack 0 s enough

-- ===== src/Server/Persistence.antt =====
-- server.c: how long `handle_send_data` goes on.
use cpe464_program.Common.{
  Bool-cases, Ends, Ends-and_then, Ends-mono, arith, eq→==, inl, inr, leb, length, refl, slt, suc,
  true, zero, ℕ, ◌+◌, ◌-◌, ◌<◌, ◌==◌, ◌≡◌, ◌≢◌, ◌≤◌, ◌⊎◌,
}
use cpe464_program.Net.{poll}
use cpe464_program.Packet.{flag_resent_timeout}
use cpe464_program.Server.{
  Server, drain_loop, filename_ack, handle_send_data, on_net, process_rr_srej_eof,
  read_file_to_buffer, resend_packet, send_loop, send_read, wait_loop,
}
use cpe464_program.Server.Fuel.{resend_packet-Leaves}
use cpe464_program.Server.Heard.{
  IsHeard, IsOnward, IsOnward-polled, IsOnward-taken, IsOnward-trans, IsPolledOurs, IsTaken,
  poll-IsPolledOurs, process_rr_srej_eof-IsTaken,
}
use cpe464_program.Server.Reading.{
  IsOnward-input, IsRead, drain_loop-IsOnward, input, read_file_to_buffer-IsRead,
  send_read-IsOnward,
}

send_loop-IsOnward :
    (fuel : ℕ) (stack : ℕ → ℕ) (socket_num : ℕ) (s : Server)
    → length s.net.arrivals + length s.export_file < fuel
    → IsHeard socket_num s
    → Ends (λ r. IsOnward socket_num s r.1) (send_loop fuel stack socket_num s)
unfolding send_loop
send_loop-IsOnward zero stack socket_num s enough h = absurd (omega arith)
send_loop-IsOnward (suc fuel) stack socket_num s enough h =
    elim (Bool-cases (slt s.window.current s.window.highest)) [
      | inr closed ↦ rw closed (IsOnward-input socket_num s s h refl)
      | inl open_window ↦ rw open_window (
          Ends-and_then (IsRead s) (λ r. IsOnward socket_num s r.1) (read_file_to_buffer s) _
            (read_file_to_buffer-IsRead s)
            λ r read.
              Ends-and_then
                (λ q.
                  IsOnward socket_num s q.1
                  × ((q.0 ≡ true) ⊎ (length q.1.export_file < length s.export_file)))
                (λ q. IsOnward socket_num s q.1) (send_read r.0 r.1) _
                (send_read-IsOnward socket_num s r.0 r.1 h read)
                λ q (on, outcome). elim (Bool-cases q.0) [
                  | inl over ↦ rw over on
                  | inr more ↦ rw more (
                      let less : length q.1.export_file < length s.export_file = elim outcome [
                        | inl over ↦ absurd (cc)
                        | inr fewer ↦ fewer
                      ] in
                      Ends-and_then (λ x. IsOnward socket_num q.1 x.1)
                        (λ x. IsOnward socket_num s x.1)
                        (drain_loop (suc fuel) stack socket_num q.1) _
                        (drain_loop-IsOnward (suc fuel) stack socket_num q.1
                          (omega (arith, on.arrivals)) on.heard)
                        λ x k.
                          Ends-mono (λ y. IsOnward socket_num x.1 y.1)
                            (λ y. IsOnward socket_num s y.1) (send_loop fuel stack socket_num x.1)
                            (λ y l.
                              IsOnward-trans socket_num s x.1 y.1
                                (IsOnward-trans socket_num s q.1 x.1 on k) l)
                            (send_loop-IsOnward fuel stack socket_num x.1
                              (omega (arith, on.arrivals, k.arrivals, k.content, less)) k.heard))
                ])
    ]

wait_loop-IsOnward :
    (fuel : ℕ) (stack : ℕ → ℕ) (socket_num attempts : ℕ) (s : Server)
    → attempts < 10
    → length s.net.arrivals + (10 - attempts) < suc fuel
    → IsHeard socket_num s
    → Ends (λ r. IsOnward socket_num s r.1) (wait_loop fuel stack socket_num attempts s)
unfolding wait_loop
wait_loop-IsOnward zero stack socket_num attempts s trying enough h = absurd (omega arith)
wait_loop-IsOnward (suc fuel) stack socket_num attempts s trying enough h =
    elim (Bool-cases (s.window.current == s.window.highest)) [
      | inr opened ↦ rw opened (IsOnward-input socket_num s s h refl)
      | inl full ↦ rw full (
          Ends-and_then (IsPolledOurs socket_num s) (λ r. IsOnward socket_num s r.1) (on_net poll s)
            _ (poll-IsPolledOurs socket_num s h)
            λ r p.
              let polled = IsOnward-polled socket_num s r p in
              let again : (a : ℕ) (t : Server)
                  → a < 10
                  → length t.net.arrivals + (10 - a) < suc fuel
                  → IsOnward socket_num s t
                  → Ends (λ x. IsOnward socket_num s x.1) (wait_loop fuel stack socket_num a t) =
                λ a t few left on.
                  Ends-mono (λ x. IsOnward socket_num t x.1) (λ x. IsOnward socket_num s x.1)
                    (wait_loop fuel stack socket_num a t)
                    (λ x k. IsOnward-trans socket_num s t x.1 on k)
                    (wait_loop-IsOnward fuel stack socket_num a t few left on.heard) in
              elim p.0 [
                | inl timed_out ↦ elim (Bool-cases (leb 10 (attempts + 1))) [
                  | inl last ↦ rw (timed_out, last) polled
                  | inr more ↦
                      rw (timed_out, more)
                        (Ends-and_then (λ q. input q.1 ≡ input r.1) (λ q. IsOnward socket_num s q.1)
                          (resend_packet s.window.lowest flag_resent_timeout r.1) _
                          (resend_packet-Leaves input (λ t sent window. refl) s.window.lowest
                            flag_resent_timeout r.1)
                          λ q e.
                            let on = IsOnward-input socket_num r.1 q.1 polled.heard e in
                            again (attempts + 1) q.1 (ground (arith, more))
                              (omega (arith, on.arrivals, polled.arrivals))
                              (IsOnward-trans socket_num s r.1 q.1 polled on))
                ]
                | inr ours ↦
                    rw (ours, eq→== socket_num socket_num refl)
                      (Ends-and_then (λ q. IsTaken r.1 q.1) (λ q. IsOnward socket_num s q.1)
                        (process_rr_srej_eof stack r.1) _ (process_rr_srej_eof-IsTaken stack r.1)
                        λ q t.
                          let taken = IsOnward-taken socket_num r.1 q.1 polled.heard t in
                          again attempts q.1 trying (omega (arith, t.0, polled.arrivals))
                            (IsOnward-trans socket_num s r.1 q.1 polled taken))
              ])
    ]

-- If every poll to come fails, times out or reports the socket, then handle_send_data, with more
-- rounds than datagrams to come, bytes left of the file and ten together, does not run out of rounds
-- in either of its loops or in the loop that takes the replies, however many polls time out and
-- whatever arrives; if it returns, the state is not FILENAME_ACK, no more datagrams and no more of
-- the file are left than there were, and the same holds of the polls then to come.
pub handle_send_data_bounded :
    (fuel : ℕ) (stack : ℕ → ℕ) (socket_num : ℕ) (s : Server)
    → length s.net.arrivals + length s.export_file + 10 < fuel
    → IsHeard socket_num s
    → Ends
        (λ r.
          (r.0 ≢ filename_ack)
          × (IsHeard socket_num r.1)
          × (length r.1.net.arrivals ≤ length s.net.arrivals)
          × (length r.1.export_file ≤ length s.export_file))
        (handle_send_data fuel stack socket_num s)
unfolding handle_send_data
handle_send_data_bounded fuel stack socket_num s enough h =
    Ends-and_then (λ r. IsOnward socket_num s r.1) _ (send_loop fuel stack socket_num s) _
      (send_loop-IsOnward fuel stack socket_num s (omega arith) h)
      λ r on. elim (Bool-cases r.0) [
        | inl at_end ↦ rw at_end ((λ e. absurd (cc)), on.heard, on.arrivals, on.content)
        | inr more ↦ rw more (
            Ends-and_then (λ q. IsOnward socket_num r.1 q.1) _
              (wait_loop fuel stack socket_num 0 r.1) _
              (wait_loop-IsOnward fuel stack socket_num 0 r.1 (omega arith)
                (omega (arith, on.arrivals)) on.heard)
              λ q k.
                let all = IsOnward-trans socket_num s r.1 q.1 on k in
                elim (Bool-cases q.0) [
                  | inl gave_up ↦
                      rw gave_up ((λ e. absurd (cc)), all.heard, all.arrivals, all.content)
                  | inr opened ↦
                      rw opened ((λ e. absurd (cc)), all.heard, all.arrivals, all.content)
                ])
      ]

-- ===== src/Server/Rounds.antt =====
-- server.c: the input that the loops of `handle_send_data` use up.
use cpe464_program.Common.{
  Bool-cases, Ends, Ends-and_then, Ends-mono, Ends-or_undefined, List, Option, ap, arith, get_elem?,
  inl, inr, leb, length, none, or_undefined, refl, slt, some, suc, take, zero, ℕ, ◌&&◌, ◌+◌, ◌<◌,
  ◌==◌, ◌∙◌, ◌≡◌, ◌≢◌, ◌≤◌,
}
use cpe464_program.Buffer.{CircularBuffer, buffer_add, rem_int}
use cpe464_program.Net.{poll, safe_sendto}
use cpe464_program.Packet.{flag_resent_timeout}
use cpe464_program.Server.{
  Server, drain_loop, entry_payload, filename_ack, handle_send_data, is_timeout, on_net,
  process_rr_srej_eof, read_file_to_buffer, resend_packet, returned, send_data, send_loop,
  send_read, set_data_len, wait_loop,
}
use cpe464_program.Server.Fuel.{
  IsApart, Keeps, Leaves, Leaves-bind, entry_payload-Ends, poll-Ends, process_rr_srej_eof-Keeps,
  resend_packet-Keeps,
}

pub buffer_add-Ends :
    (b : CircularBuffer) (n : ℕ) (bytes : List ℕ) → Ends (λ c. Unit {0}) (buffer_add b n bytes)
unfolding buffer_add
buffer_add-Ends b n bytes =
    Ends-and_then (λ i. Unit {0}) (λ c. Unit {0}) (or_undefined (rem_int n b.size)) _
      (Ends-or_undefined (rem_int n b.size))
      λ i u.
        Ends-and_then (λ e. Unit {0}) (λ c. Unit {0}) (or_undefined (get_elem? b.entries i)) _
          (Ends-or_undefined (get_elem? b.entries i))
          λ e u'.
            elim (Bool-cases
              (leb b.buffer_size (length e.bytes) && leb (length bytes) (length e.bytes))) [
                | inl fits ↦ rw fits tt
                | inr long ↦ rw long tt
              ]

pub set_data_len-Ends :
    (index n : ℕ) (b : CircularBuffer) → Ends (λ c. Unit {0}) (set_data_len index n b)
set_data_len-Ends index n b =
    Ends-and_then (λ e. Unit {0}) (λ c. Unit {0}) (or_undefined (get_elem? b.entries index)) _
      (Ends-or_undefined (get_elem? b.entries index)) λ e u. tt

read_file_to_buffer-Keeps : Keeps read_file_to_buffer
unfolding read_file_to_buffer
read_file_to_buffer-Keeps s =
    let current = s.window.current in
    let bytes_read = take s.window.buffer_size s.export_file in
    Ends-and_then (λ i. Unit {0}) (λ r. r.1.net.answers ≡ s.net.answers)
      (or_undefined (rem_int current s.window.size)) _
      (Ends-or_undefined (rem_int current s.window.size))
      λ index u. elim (Bool-cases (length bytes_read == 0)) [
        | inl over ↦ rw over refl
        | inr more ↦ rw more (
            Ends-and_then (λ c. Unit {0}) (λ r. r.1.net.answers ≡ s.net.answers)
              (buffer_add s.window current bytes_read) _
              (buffer_add-Ends s.window current bytes_read)
              λ added u'.
                Ends-and_then (λ c. Unit {0}) (λ r. r.1.net.answers ≡ s.net.answers)
                  (set_data_len index (length bytes_read) added) _
                  (set_data_len-Ends index (length bytes_read) added) λ window u''. refl)
      ]

module _ {κ} {P : Type κ} (part : Server → P) (apart : IsApart part) where
  send_data-Leaves : (n : ℕ) → Leaves part (send_data n)
  unfolding send_data safe_sendto
  send_data-Leaves n s =
      Ends-and_then (λ i. Unit {0}) (λ r. part r.1 ≡ part s)
        (or_undefined (rem_int s.window.current s.window.size)) _
        (Ends-or_undefined (rem_int s.window.current s.window.size))
        λ index u.
          Ends-and_then (λ e. Unit {0}) (λ r. part r.1 ≡ part s)
            (or_undefined (get_elem? s.window.entries index)) _
            (Ends-or_undefined (get_elem? s.window.entries index))
            λ e u'.
              Ends-and_then (λ p. Unit {0}) (λ r. part r.1 ≡ part s) (entry_payload e n) _
                (entry_payload-Ends e n) λ p u''. apart s _ _

  pub send_read-Leaves : (read_bytes : Option ℕ) → Leaves part (send_read read_bytes)
  send_read-Leaves none = λ s. refl
  send_read-Leaves (some n) = Leaves-bind part (send_data n) _ (send_data-Leaves n) λ u t. refl

send_read-Keeps : (read_bytes : Option ℕ) → Keeps (send_read read_bytes)
send_read-Keeps = send_read-Leaves (λ s. s.net.answers) λ s sent window. refl

-- No more of the script is left than there was.
abbrev Shrinks {ℓ} : {A : Type ℓ} → Server → A × Server → Type 0
Shrinks s r = length r.1.net.answers ≤ length s.net.answers

drain_loop-Ends :
    (fuel : ℕ) (stack : ℕ → ℕ) (socket_num : ℕ) (s : Server)
    → length s.net.answers < fuel
    → Ends (λ r. length r.1.net.answers < length s.net.answers) (drain_loop fuel stack socket_num s)
unfolding drain_loop
drain_loop-Ends zero stack socket_num s enough = absurd (omega arith)
drain_loop-Ends (suc fuel) stack socket_num s enough =
    Ends-and_then (λ r. length s.net.answers ≡ suc (length r.1.net.answers))
      (λ r. length r.1.net.answers < length s.net.answers) (on_net poll s) _ (poll-Ends s)
      λ r h. elim (Bool-cases (returned socket_num r.0)) [
        | inr other ↦ rw other (omega (arith, h))
        | inl ours ↦ rw ours (
            Ends-and_then (λ q. q.1.net.answers ≡ r.1.net.answers)
              (λ q. length q.1.net.answers < length s.net.answers) (process_rr_srej_eof stack r.1) _
              (process_rr_srej_eof-Keeps stack r.1)
              λ q e.
                let same = ap length e in
                Ends-mono (λ x. length x.1.net.answers < length q.1.net.answers)
                  (λ x. length x.1.net.answers < length s.net.answers)
                  (drain_loop fuel stack socket_num q.1) (λ x k. omega (arith, k, h, same))
                  (drain_loop-Ends fuel stack socket_num q.1 (omega (arith, h, same))))
      ]

send_loop-Ends :
    (fuel : ℕ) (stack : ℕ → ℕ) (socket_num : ℕ) (s : Server)
    → length s.net.answers < fuel
    → Ends (Shrinks s) (send_loop fuel stack socket_num s)
unfolding send_loop
send_loop-Ends zero stack socket_num s enough = absurd (omega arith)
send_loop-Ends (suc fuel) stack socket_num s enough =
    elim (Bool-cases (slt s.window.current s.window.highest)) [
      | inr closed ↦ rw closed (omega arith)
      | inl open_window ↦ rw open_window (
          Ends-and_then (λ r. r.1.net.answers ≡ s.net.answers) (Shrinks s) (read_file_to_buffer s) _
            (read_file_to_buffer-Keeps s)
            λ r e.
              Ends-and_then (λ q. q.1.net.answers ≡ r.1.net.answers) (Shrinks s) (send_read r.0 r.1)
                _ (send_read-Keeps r.0 r.1)
                λ q e'.
                  let same : length q.1.net.answers ≡ length s.net.answers =
                    ap length e' ∙ ap length e in
                  elim (Bool-cases q.0) [
                    | inl over ↦ rw over (omega (arith, same))
                    | inr more ↦ rw more (
                        Ends-and_then (λ x. length x.1.net.answers < length q.1.net.answers)
                          (Shrinks s) (drain_loop (suc fuel) stack socket_num q.1) _
                          (drain_loop-Ends (suc fuel) stack socket_num q.1 (omega (arith, same)))
                          λ x k.
                            Ends-mono (Shrinks x.1) (Shrinks s)
                              (send_loop fuel stack socket_num x.1)
                              (λ y l. omega (arith, l, k, same))
                              (send_loop-Ends fuel stack socket_num x.1 (omega (arith, k, same))))
                  ])
    ]

wait_loop-Ends :
    (fuel : ℕ) (stack : ℕ → ℕ) (socket_num attempts : ℕ) (s : Server)
    → length s.net.answers < fuel
    → Ends (Shrinks s) (wait_loop fuel stack socket_num attempts s)
unfolding wait_loop
wait_loop-Ends zero stack socket_num attempts s enough = absurd (omega arith)
wait_loop-Ends (suc fuel) stack socket_num attempts s enough =
    let round : (a : ℕ) (t : Server)
        → length t.net.answers < length s.net.answers
        → Ends (Shrinks s) (wait_loop fuel stack socket_num a t) =
      λ a t less.
        Ends-mono (Shrinks t) (Shrinks s) (wait_loop fuel stack socket_num a t)
          (λ r h. omega (arith, h, less))
          (wait_loop-Ends fuel stack socket_num a t (omega (arith, less))) in
    elim (Bool-cases (s.window.current == s.window.highest)) [
      | inr opened ↦ rw opened (omega arith)
      | inl full ↦ rw full (
          Ends-and_then (λ r. length s.net.answers ≡ suc (length r.1.net.answers)) (Shrinks s)
            (on_net poll s) _ (poll-Ends s)
            λ r h. elim (Bool-cases (is_timeout r.0)) [
              | inl timed_out ↦ elim (Bool-cases (leb 10 (attempts + 1))) [
                | inl last ↦ rw (timed_out, last) (omega (arith, h))
                | inr again ↦
                    rw (timed_out, again)
                      (Ends-and_then (λ q. q.1.net.answers ≡ r.1.net.answers) (Shrinks s)
                        (resend_packet s.window.lowest flag_resent_timeout r.1) _
                        (resend_packet-Keeps s.window.lowest flag_resent_timeout r.1)
                        λ q e. round (attempts + 1) q.1 (omega (arith, h, ap length e)))
              ]
              | inr ready ↦ elim (Bool-cases (returned socket_num r.0)) [
                | inl ours ↦
                    rw (ready, ours)
                      (Ends-and_then (λ q. q.1.net.answers ≡ r.1.net.answers) (Shrinks s)
                        (process_rr_srej_eof stack r.1) _ (process_rr_srej_eof-Keeps stack r.1)
                        λ q e. round attempts q.1 (omega (arith, h, ap length e)))
                | inr other ↦ rw (ready, other) (round attempts r.1 (omega (arith, h)))
              ]
            ])
    ]

-- With more rounds than there are answers of the poll left, handle_send_data does not run out of
-- rounds in either of its loops or in the loop that takes the replies, whatever arrives and whatever
-- its window is; if it returns, the state is not FILENAME_ACK, and no more answers are left than
-- there were.
pub handle_send_data-Ends :
    (fuel : ℕ) (stack : ℕ → ℕ) (socket_num : ℕ) (s : Server)
    → length s.net.answers < fuel
    → Ends
        (λ r. (length r.1.net.answers ≤ length s.net.answers) × (r.0 ≢ filename_ack))
        (handle_send_data fuel stack socket_num s)
unfolding handle_send_data
handle_send_data-Ends fuel stack socket_num s enough =
    Ends-and_then (Shrinks s)
      (λ r. (length r.1.net.answers ≤ length s.net.answers) × (r.0 ≢ filename_ack))
      (send_loop fuel stack socket_num s) _ (send_loop-Ends fuel stack socket_num s enough)
      λ r h. elim (Bool-cases r.0) [
        | inl at_end ↦ rw at_end (h, λ e. absurd (cc))
        | inr more ↦ rw more (
            Ends-and_then (Shrinks r.1)
              (λ q. (length q.1.net.answers ≤ length s.net.answers) × (q.0 ≢ filename_ack))
              (wait_loop fuel stack socket_num 0 r.1) _
              (wait_loop-Ends fuel stack socket_num 0 r.1 (omega (arith, h)))
              λ q k. elim (Bool-cases q.0) [
                | inl timed_out ↦ rw timed_out (omega (arith, h, k), λ e. absurd (cc))
                | inr go_on ↦ rw go_on (omega (arith, h, k), λ e. absurd (cc))
              ])
      ]

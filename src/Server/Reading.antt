-- ===== src/Server/Reading.antt =====
-- server.c: one round of the first loop of `handle_send_data`.
use cpe464_program.Common.{
  All, Bool-cases, Ends, Ends-and_then, Ends-mono, Ends-or_undefined, List, Option, [], ap, arith,
  drop, false, inl, inr, length, length-drop, none, or_undefined, refl, some, subst, suc, sym, take,
  true, zero, ℕ, ◌<◌, ◌==◌, ◌∷◌, ◌≡◌, ◌≤◌, ◌⊎◌,
}
use cpe464_program.Buffer.{buffer_add, rem_int}
use cpe464_program.Net.{Arrival, Net, poll}
use cpe464_program.Server.{
  Server, drain_loop, on_net, process_rr_srej_eof, read_file_to_buffer, returned, send_read,
  set_data_len,
}
use cpe464_program.Server.Heard.{
  IsHeard, IsOnward, IsOnward-polled, IsOnward-same, IsOnward-taken, IsOnward-trans, IsOurs,
  IsPolledOurs, IsTaken, Outlook, outlook, poll-IsPolledOurs, process_rr_srej_eof-IsTaken,
}
use cpe464_program.Server.Rounds.{buffer_add-Ends, send_read-Leaves, set_data_len-Ends}

pub drain_loop-IsOnward :
    (fuel : ℕ) (stack : ℕ → ℕ) (socket_num : ℕ) (s : Server)
    → length s.net.arrivals < fuel
    → IsHeard socket_num s
    → Ends (λ r. IsOnward socket_num s r.1) (drain_loop fuel stack socket_num s)
unfolding drain_loop
drain_loop-IsOnward zero stack socket_num s enough h = absurd (omega arith)
drain_loop-IsOnward (suc fuel) stack socket_num s enough h =
    Ends-and_then (IsPolledOurs socket_num s) (λ r. IsOnward socket_num s r.1) (on_net poll s) _
      (poll-IsPolledOurs socket_num s h)
      λ r p.
        let polled = IsOnward-polled socket_num s r p in
        elim (Bool-cases (returned socket_num r.0)) [
          | inr other ↦ rw other polled
          | inl ours ↦ rw ours (
              Ends-and_then (λ q. IsTaken r.1 q.1) (λ q. IsOnward socket_num s q.1)
                (process_rr_srej_eof stack r.1) _ (process_rr_srej_eof-IsTaken stack r.1)
                λ q t.
                  let taken = IsOnward-taken socket_num r.1 q.1 polled.heard t in
                  Ends-mono (λ x. IsOnward socket_num q.1 x.1) (λ x. IsOnward socket_num s x.1)
                    (drain_loop fuel stack socket_num q.1)
                    (λ x k.
                      IsOnward-trans socket_num s q.1 x.1
                        (IsOnward-trans socket_num s r.1 q.1 polled taken) k)
                    (drain_loop-IsOnward fuel stack socket_num q.1
                      (omega (arith, polled.arrivals, t.0)) taken.heard))
        ]

-- A block was read, or the file is at its end.
abbrev pub IsRead : Server → Option ℕ × Server → Type 0
IsRead s r =
    (r.1.net ≡ s.net)
    × ((r.0 ≡ none) × (length r.1.export_file ≤ length s.export_file)
        ⊎ (length r.1.export_file < length s.export_file))

pub read_file_to_buffer-IsRead : (s : Server) → Ends (IsRead s) (read_file_to_buffer s)
unfolding read_file_to_buffer
read_file_to_buffer-IsRead s =
    let current = s.window.current in
    let bytes_read = take s.window.buffer_size s.export_file in
    Ends-and_then (λ i. Unit {0}) (IsRead s) (or_undefined (rem_int current s.window.size)) _
      (Ends-or_undefined (rem_int current s.window.size))
      λ index u. elim (Bool-cases (length bytes_read == 0)) [
        | inl over ↦
            rw over
              (refl, inl (refl, omega (arith, length-drop s.window.buffer_size s.export_file)))
        | inr more ↦ rw more (
            Ends-and_then (λ c. Unit {0}) (IsRead s) (buffer_add s.window current bytes_read) _
              (buffer_add-Ends s.window current bytes_read)
              λ added u'.
                Ends-and_then (λ c. Unit {0}) (IsRead s)
                  (set_data_len index (length bytes_read) added) _
                  (set_data_len-Ends index (length bytes_read) added)
                  λ window u''. (refl, inr (drop-shorter s.window.buffer_size s.export_file more)))
      ]
  where
    drop-shorter :
        (n : ℕ) (l : List ℕ) → (length (take n l) == 0) ≡ false → length (drop n l) < length l
    drop-shorter zero l e = absurd (cc)
    drop-shorter (suc n) [] e = absurd (cc)
    drop-shorter (suc n) (x ∷ l) e = omega (arith, length-drop n l)

-- What comes and what is left of the file.
abbrev pub input : Server → Outlook × List Arrival
input s = (outlook s, s.net.arrivals)

send_read-input :
    (read_bytes : Option ℕ) (s : Server) → Ends (λ r. input r.1 ≡ input s) (send_read read_bytes s)
send_read-input = send_read-Leaves input λ s sent window. refl

pub IsOnward-input :
    (socket_num : ℕ) (s t : Server)
    → IsHeard socket_num s
    → input t ≡ input s
    → IsOnward socket_num s t
IsOnward-input socket_num s t h e =
    IsOnward-same socket_num s t h (ap (λ (p : Outlook × List Arrival). p.0) e)
      (ap (λ (p : Outlook × List Arrival). p.1) e)

-- After a block was read and sent, less of the file is left.
pub send_read-IsOnward :
    (socket_num : ℕ) (s : Server) (read_bytes : Option ℕ) (t : Server)
    → IsHeard socket_num s
    → IsRead s (read_bytes, t)
    → Ends
        (λ r.
          IsOnward socket_num s r.1
          × ((r.0 ≡ true) ⊎ (length r.1.export_file < length s.export_file)))
        (send_read read_bytes t)
send_read-IsOnward socket_num s none t h (same, outcome) = (
  record {
    heard = subst (λ (n : Net). All (IsOurs socket_num n.poll_set) n.answers) (sym same) h;
    arrivals = omega (arith, ap (λ (n : Net). length n.arrivals) same);
    content = elim outcome [ inl over ↦ omega (arith, over.1) | inr less ↦ omega (arith, less) ];
  },
  inl refl,
)
send_read-IsOnward socket_num s (some n) t h (same, outcome) =
    let heard : IsHeard socket_num t =
      subst (λ (n : Net). All (IsOurs socket_num n.poll_set) n.answers) (sym same) h in
    let less : length t.export_file < length s.export_file = elim outcome [
      | inl over ↦ absurd (cc)
      | inr less ↦ less
    ] in
    Ends-mono (λ r. input r.1 ≡ input t)
      (λ r.
        IsOnward socket_num s r.1
        × ((r.0 ≡ true) ⊎ (length r.1.export_file < length s.export_file)))
      (send_read (some n) t)
      (λ r e.
        let on = IsOnward-input socket_num t r.1 heard e in
        (
          record {
            heard = on.heard;
            arrivals = omega (arith, on.arrivals, ap (λ (n : Net). length n.arrivals) same);
            content = omega (arith, on.content, less);
          },
          inr (omega (arith, on.content, less)),
        ))
      (send_read-input (some n) t)

-- ===== src/Rcopy/Acks/Flush.antt =====
-- What the client of rcopy.c sends during a flush.
use cpe464_program.Common.{
  Bool-cases, Option-cases, Returns, Returns-and_then, Returns-mono, [], append_assoc, arith, incr,
  inl, inr, leb, length, refl, slt, suc, zero, ℕ, ◌+◌, ◌<◌, ◌^◌, ◌∷◌, ◌≡◌,
}
use cpe464_program.Buffer.{BufferEntry}
use cpe464_program.Net.{safe_sendto}
use cpe464_program.Packet.{rr_packet, srej_packet}
use cpe464_program.Rcopy.{Rcopy, after_flush, current_entry, flush_entry, flush_loop, handle_flush}
use cpe464_program.Rcopy.Acks.{
  IsAnswer, IsHonest, IsHonest-still, IsHonest-trans, one_reply, rr, srej,
}

flush_entry-IsHonest :
    (index : ℕ) (e : BufferEntry) (s : Rcopy)
    → s.buffer.current + 1 < 2 ^ 32
    → Returns
        (λ r. IsHonest ⊥ s r.1 × (r.1.buffer.current ≡ s.buffer.current + 1))
        (flush_entry index e s)
unfolding flush_entry safe_sendto
flush_entry-IsHonest index e s room = elim (Bool-cases (leb e.data_len (length e.bytes))) [
  | inr long ↦ rw long tt
  | inl fits ↦ rw fits (
    one_reply s _ (rr_packet (incr s.buffer.current)) refl (refl, refl)
        (rr (incr s.buffer.current) (omega arith)) (omega arith),
    omega arith,
  )
]

flush_loop-IsHonest :
    (fuel : ℕ) (s : Rcopy)
    → s.buffer.current + fuel < 2 ^ 32
    → Returns (λ r. IsHonest ⊥ s r.1) (flush_loop fuel s)
unfolding flush_loop flush_entry
flush_loop-IsHonest zero s room = tt
flush_loop-IsHonest (suc fuel) s room = elim (Option-cases (current_entry s.buffer)) [
  | inl missing ↦ rw missing tt
  | inr (at_current, found) ↦ elim (Bool-cases at_current.1.valid_flag) [
    | inr empty ↦ rw (found, empty) (IsHonest-still s s refl refl (refl, refl))
    | inl valid ↦
        rw (found, valid)
          (Returns-and_then (λ r. IsHonest ⊥ s r.1 × (r.1.buffer.current ≡ s.buffer.current + 1))
            (λ r. IsHonest ⊥ s r.1) (flush_entry at_current.0 at_current.1 s) _
            (flush_entry-IsHonest at_current.0 at_current.1 s (omega arith))
            (λ r h.
              Returns-mono (λ q. IsHonest ⊥ r.1 q.1) (λ q. IsHonest ⊥ s q.1) (flush_loop fuel r.1)
                (λ q k. IsHonest-trans s r.1 q.1 (λ e. e) h.0 k)
                (flush_loop-IsHonest fuel r.1 (omega (arith, h.1)))))
  ]
]

after_flush-IsHonest : (s : Rcopy) → Returns (IsAnswer s) (after_flush s)
unfolding after_flush safe_sendto
after_flush-IsHonest s =
    let here = s.buffer.current in
    elim (Bool-cases (slt here s.buffer.highest)) [
      | inr reached ↦ rw reached (IsHonest-still s s refl refl (refl, refl))
      | inl below ↦ elim (Option-cases (current_entry s.buffer)) [
        | inl missing ↦ rw (below, missing) tt
        | inr (at_current, found) ↦ elim (Bool-cases at_current.1.valid_flag) [
          | inl valid ↦ rw (below, found, valid) (IsHonest-still s s refl refl (refl, refl))
          | inr empty ↦
              rw (below, found, empty)
                (record {
                  replies = srej_packet here ∷ rr_packet here ∷ [];
                  sent = append_assoc s.net.sent (srej_packet here ∷ []) (rr_packet here ∷ []);
                  each = (srej here (omega arith), (rr here (omega arith), tt));
                  forward = omega arith;
                  sizes = (refl, refl);
                })
        ]
      ]
    ]

pub handle_flush-IsHonest :
    (s : Rcopy)
    → s.buffer.current + length s.buffer.entries + 1 < 2 ^ 32
    → Returns (IsAnswer s) (handle_flush s)
unfolding handle_flush
handle_flush-IsHonest s room =
    Returns-and_then (λ r. IsHonest ⊥ s r.1) (IsAnswer s)
      (flush_loop (suc (length s.buffer.entries)) s) (λ r. after_flush r.1)
      (flush_loop-IsHonest (suc (length s.buffer.entries)) s (omega arith))
      (λ r h.
        Returns-mono (IsAnswer r.1) (IsAnswer s) (after_flush r.1)
          (λ q k. IsHonest-trans s r.1 q.1 (λ e. absurd e) h k) (after_flush-IsHonest r.1))

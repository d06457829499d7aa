-- ===== src/Rcopy/Acks/Packets.antt =====
-- What the client of rcopy.c sends when a packet arrives.
use cpe464_program.Common.{
  Bool, Bool-cases, List, Returns, Returns-and_then, Returns-mono, Returns-trivial, [], ap,
  append-nil, arith, drop, false, get, get_elem?, incr, inl, inr, leb, length, ltb, or_undefined,
  put, refl, return, slt, sym, true, ℕ, ◌&&◌, ◌++◌, ◌+◌, ◌<◌, ◌==◌, ◌>>=◌, ◌>>◌, ◌^◌, ◌∷◌, ◌≡◌,
}
use cpe464_program.Buffer.{CircularBuffer, buffer_add, rem_int}
use cpe464_program.Checksum.{in_cksum}
use cpe464_program.Net.{Net, safe_sendto}
use cpe464_program.Packet.{
  build_packet, byte_at, flag_eof, header_size, load_net32, rr_packet, srej_packet,
}
use cpe464_program.Rcopy.{
  Rcopy, RecvState, buffer_payload, buffering, next_buffering, next_inorder, receive_buffering,
  receive_inorder, set_highest, zeroed,
}
use cpe464_program.Rcopy.Acks.{
  IsAnswer, IsHonest, IsHonest-still, IsHonest-trans, eof, one_reply, rr, srej,
}

-- The counters and the sizes that matter here.
abbrev Keeps : CircularBuffer → CircularBuffer → Type 0
Keeps b b' = (b'.current ≡ b.current) × (b'.size ≡ b.size) × (b'.buffer_size ≡ b.buffer_size)

buffer_add_current :
    (b : CircularBuffer) (n : ℕ) (bytes : List ℕ) → Returns (Keeps b) (buffer_add b n bytes)
unfolding buffer_add
buffer_add_current b n bytes =
    Returns-and_then (λ i. Unit {0}) (Keeps b) (or_undefined (rem_int n b.size)) _
      (Returns-trivial (or_undefined (rem_int n b.size)))
      (λ i u.
        Returns-and_then (λ e. Unit {0}) (Keeps b) (or_undefined (get_elem? b.entries i)) _
          (Returns-trivial (or_undefined (get_elem? b.entries i)))
          (λ e u'.
            elim (Bool-cases
              (leb b.buffer_size (length e.bytes) && leb (length bytes) (length e.bytes))) [
                | inl fits ↦ rw fits (refl, refl, refl)
                | inr long ↦ rw long tt
              ]))

buffer_payload_still :
    (n : ℕ) (packet : List ℕ) (s : Rcopy)
    → Returns (λ r. (r.1.net ≡ s.net) × Keeps s.buffer r.1.buffer) (buffer_payload n packet s)
buffer_payload_still n packet s = elim (Bool-cases (leb header_size (length packet))) [
  | inr short ↦ rw short tt
  | inl long ↦ rw long (
      Returns-and_then (Keeps s.buffer) (λ r. (r.1.net ≡ s.net) × Keeps s.buffer r.1.buffer)
        (buffer_add s.buffer n (drop header_size packet)) _
        (buffer_add_current s.buffer n (drop header_size packet)) (λ b e. (refl, e)))
]

-- A packet is buffered, after `s0` became `s` by sending at most one reply.
buffer_packet-IsHonest :
    (s0 s : Rcopy) (n : ℕ) (packet : List ℕ)
    → IsHonest ⊥ s0 s
    → Returns (IsAnswer s0) (
        (buffer_payload n packet
            >> (get >>= λ t. put (set_highest n t) >> return {A = RecvState} buffering))
          s)
buffer_packet-IsHonest s0 s n packet a =
    Returns-and_then (λ r. (r.1.net ≡ s.net) × Keeps s.buffer r.1.buffer) (IsAnswer s0)
      (buffer_payload n packet s) _ (buffer_payload_still n packet s)
      (λ r h.
        IsHonest-trans s0 s (set_highest n r.1) (λ e. absurd e) a
          (IsHonest-still s (set_highest n r.1) (ap (λ (m : Net). m.sent) h.0) h.1.0
            (h.1.1, h.1.2)))

next_inorder-IsHonest :
    (is_eof : Bool) (n : ℕ) (packet : List ℕ) (s : Rcopy)
    → s.buffer.current + 1 < 2 ^ 32
    → Returns (IsAnswer s) (next_inorder is_eof n packet s)
unfolding next_inorder safe_sendto
next_inorder-IsHonest is_eof n packet s room =
    let here = s.buffer.current in
    elim (Bool-cases (is_eof && slt s.eof_seq_num here)) [
      | inl over ↦
          rw over
            (one_reply s _ (build_packet 0 flag_eof []) refl (refl, refl) (eof refl) (omega arith))
      | inr going ↦ elim (Bool-cases (n == here)) [
        | inl now ↦ elim (Bool-cases (leb header_size (length packet))) [
          | inr short ↦ rw (going, now, short) tt
          | inl long ↦
              rw (going, now, long)
                (one_reply s _ (rr_packet (incr here)) refl (refl, refl)
                  (rr (incr here) (omega arith)) (omega arith))
        ]
        | inr other ↦ elim (Bool-cases (ltb here n)) [
          | inr earlier ↦
              rw (going, other, earlier)
                (one_reply s _ (rr_packet here) refl (refl, refl) (rr here (omega arith))
                  (omega arith))
          | inl later ↦
              rw (going, other, later)
                (buffer_packet-IsHonest s
                  (record s { net = record s.net { sent = s.net.sent ++ (srej_packet here ∷ []) } })
                  n packet
                  (one_reply s _ (srej_packet here) refl (refl, refl) (srej here (omega arith))
                    (omega arith)))
        ]
      ]
    ]

next_buffering-IsHonest :
    (is_eof : Bool) (n : ℕ) (packet : List ℕ) (s : Rcopy)
    → s.buffer.current + 1 < 2 ^ 32
    → Returns (IsAnswer s) (next_buffering is_eof n packet s)
unfolding next_buffering safe_sendto
next_buffering-IsHonest is_eof n packet s room =
    let here = s.buffer.current in
    elim (Bool-cases (is_eof && slt s.eof_seq_num here)) [
      | inl over ↦
          rw over
            (one_reply s _ (build_packet 0 flag_eof []) refl (refl, refl) (eof refl) (omega arith))
      | inr going ↦ elim (Bool-cases (n == here)) [
        | inl now ↦ elim (Bool-cases (leb header_size (length packet))) [
          | inr short ↦ rw (going, now, short) tt
          | inl long ↦
              rw (going, now, long)
                (record {
                  replies = [];
                  sent = sym (append-nil s.net.sent);
                  each = tt;
                  forward = omega arith;
                  sizes = (refl, refl);
                })
        ]
        | inr other ↦ elim (Bool-cases (ltb here n)) [
          | inr earlier ↦
              rw (going, other, earlier)
                (one_reply s _ (rr_packet here) refl (refl, refl) (rr here (omega arith))
                  (omega arith))
          | inl later ↦
              rw (going, other, later)
                (buffer_packet-IsHonest s s n packet (IsHonest-still s s refl refl (refl, refl)))
        ]
      ]
    ]

pub receive_inorder-IsHonest :
    (packet : List ℕ) (s : Rcopy)
    → s.buffer.current + 1 < 2 ^ 32
    → Returns (IsAnswer s) (receive_inorder packet s)
unfolding receive_inorder
receive_inorder-IsHonest packet s room =
    let n = load_net32 zeroed packet 0 in
    let marked : Rcopy = record s { eof_seq_num = n } in
    elim (Bool-cases (in_cksum packet == 0)) [
      | inr bad ↦ rw bad (IsHonest-still s s refl refl (refl, refl))
      | inl good ↦ elim (Bool-cases (byte_at zeroed packet 6 == flag_eof)) [
        | inr plain ↦ rw (good, plain) (next_inorder-IsHonest false n packet s room)
        | inl is_eof ↦
            rw (good, is_eof)
              (Returns-mono (IsAnswer marked) (IsAnswer s) (next_inorder true n packet marked)
                (λ r h.
                  IsHonest-trans {E = ⊥} s marked r.1 (λ e. absurd e)
                    (IsHonest-still s marked refl refl (refl, refl)) h)
                (next_inorder-IsHonest true n packet marked room))
      ]
    ]

pub receive_buffering-IsHonest :
    (packet : List ℕ) (s : Rcopy)
    → s.buffer.current + 1 < 2 ^ 32
    → Returns (IsAnswer s) (receive_buffering packet s)
unfolding receive_buffering
receive_buffering-IsHonest packet s room =
    let n = load_net32 zeroed packet 0 in
    let marked : Rcopy = record s { eof_seq_num = n } in
    elim (Bool-cases (in_cksum packet == 0)) [
      | inr bad ↦ rw bad (IsHonest-still s s refl refl (refl, refl))
      | inl good ↦ elim (Bool-cases (byte_at zeroed packet 6 == flag_eof)) [
        | inr plain ↦ rw (good, plain) (next_buffering-IsHonest false n packet s room)
        | inl is_eof ↦
            rw (good, is_eof)
              (Returns-mono (IsAnswer marked) (IsAnswer s) (next_buffering true n packet marked)
                (λ r h.
                  IsHonest-trans {E = ⊥} s marked r.1 (λ e. absurd e)
                    (IsHonest-still s marked refl refl (refl, refl)) h)
                (next_buffering-IsHonest true n packet marked room))
      ]
    ]

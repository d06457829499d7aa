-- ===== src/Rcopy/Delivery/Buffering.antt =====
-- A packet that arrives in the state BUFFER of rcopy.c.
use native.Mathlib.Nat.{le_trans}
use cpe464_program.Common.{
  ==→eq, Bool, Bool-cases, Ensures, List, Order-cases, arith, eq→==, false, inl, inr, length,
  le→leb, le→ltb, lt→ltb, ne→==, refl, slt, slt_of_lt, true, ℕ, ◌&&◌, ◌+◌, ◌<◌, ◌==◌, ◌^◌, ◌≡◌,
}
use cpe464_program.Checksum.{in_cksum}
use cpe464_program.Net.{safe_sendto}
use cpe464_program.Packet.{byte_at, flag_eof, header_size, load_net32}
use cpe464_program.Rcopy.{Rcopy, buffering, next_buffering, receive_buffering, zeroed}
use cpe464_program.Rcopy.Delivery.{Carries, Holds, IsAdmissible, IsFaithful}
use cpe464_program.Rcopy.Delivery.Entries.{
  IsFaithful-state, IsFaithful-store, IsFaithful-write, not_eof,
}

module _ (payload : ℕ → List ℕ) (last : ℕ) (room : last + 1 < 2 ^ 31) where
  abbrev IsKept : Rcopy → Type 0
  IsKept s = IsFaithful payload last buffering s.buffer s.out_file

  next_buffering_lem :
      (is_eof : Bool) (k : ℕ) (packet : List ℕ) (s : Rcopy)
      → (is_eof ≡ true → (s.eof_seq_num ≡ k) × (k ≡ last))
      → IsKept s
      → Carries payload last buffering s.buffer packet k
      → Ensures (Holds payload last) (next_buffering is_eof k packet s)
  unfolding next_buffering safe_sendto
  next_buffering_lem is_eof k packet s eof v c = elim (Order-cases k s.buffer.current) [
    | inr (inl same) ↦
        let going : (is_eof && slt s.eof_seq_num s.buffer.current) ≡ false =
          not_eof is_eof k s.eof_seq_num s.buffer.current (λ e. (eof e).0) (omega arith)
            (omega arith) in
        rw (going, eq→== k s.buffer.current same, le→leb header_size (length packet) c.long)
          (IsFaithful-write payload last room s.buffer.highest v c.content c.in_file same
            (omega arith) (λ e. cc) (λ n w h. (omega arith, h)))
    | inr (inr later) ↦
        let going : (is_eof && slt s.eof_seq_num s.buffer.current) ≡ false =
          not_eof is_eof k s.eof_seq_num s.buffer.current (λ e. (eof e).0) (omega arith)
            (omega arith) in
        let (b', stored, w) =
          IsFaithful-store payload last room {state = buffering} {k = k} v c.content c.in_file later
            c.near c.small (λ n w h. (w, le_trans h (c.ordered refl later))) in
        rw
          (
            going,
            ne→== k s.buffer.current (λ e. omega arith),
            lt→ltb s.buffer.current k later,
            le→leb header_size (length packet) c.long,
            stored,
          )
          w
    | inl earlier ↦ elim (Bool-cases is_eof) [
      | inl marked ↦
          rw
            (
              marked,
              slt_of_lt s.eof_seq_num s.buffer.current (omega arith) (omega (arith, eof marked)),
            )
            (IsFaithful-state payload last room v (λ n w h. tt) (λ e. omega (arith, eof marked)))
      | inr plain ↦
          rw
            (
              plain,
              ne→== k s.buffer.current (λ e. omega arith),
              le→ltb s.buffer.current k (omega arith),
            )
            v
    ]
  ]

  -- A packet of the file, or a damaged one, that arrives while buffering keeps the invariant.
  pub receive_buffering_lem :
      (packet : List ℕ) (s : Rcopy)
      → IsKept s
      → IsAdmissible payload last buffering s.buffer packet
      → Ensures (Holds payload last) (receive_buffering packet s)
  unfolding receive_buffering
  receive_buffering_lem packet s v (inl damaged) = rw (ne→== (in_cksum packet) 0 damaged) v
  receive_buffering_lem packet s v (inr (k, c)) =
      let at_number : Carries payload last buffering s.buffer packet (load_net32 zeroed packet 0) =
        rw c.number c in
      elim (Bool-cases (in_cksum packet == 0)) [
        | inr bad ↦ rw bad v
        | inl good ↦ elim (Bool-cases (byte_at zeroed packet 6 == flag_eof)) [
          | inl marked ↦
              rw (good, marked)
                (next_buffering_lem true (load_net32 zeroed packet 0) packet
                  (record s { eof_seq_num = load_net32 zeroed packet 0 })
                  (λ e. (refl, at_number.eof (==→eq _ _ marked))) v at_number)
          | inr plain ↦
              rw (good, plain)
                (next_buffering_lem false (load_net32 zeroed packet 0) packet s (λ e. absurd (cc)) v
                  at_number)
        ]
      ]

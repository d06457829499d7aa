-- ===== src/Checksum/Detect.antt =====
-- `in_cksum` and the damage that the error generator does: one byte of a packet turned over.
use cpe464_program.Common.{
  ℕ, zero, suc, ◌+◌, ◌-◌, ◌*◌, ◌≤◌, ◌<◌, ◌≡◌, ◌≢◌, ◌⊎◌, inl, inr, List, [], ◌∷◌, arith, length,
  get_or, set, length-set,
}
use cpe464_program.Checksum.{in_cksum}
use cpe464_program.Checksum.Sum.{weight, IsBytes, max_length, in_cksum-eq-zero}

-- `byte ^= 0xFF` at index `i`.
abbrev pub flip_byte : List ℕ → ℕ → List ℕ
flip_byte bytes i = set bytes i (255 - get_or bytes i 0)

-- Turning over a byte moves the sum by an odd number below 256, or by 256 times that.
abbrev Moved : ℕ → ℕ → ℕ → Type 0
Moved before after x =
    (x < 256) × ((after + x ≡ before + (255 - x)) ⊎ (after + 256 * x ≡ before + 256 * (255 - x)))

weight-flip_byte :
    (bytes : List ℕ) (i : ℕ)
    → IsBytes bytes
    → i < length bytes
    → Moved (weight bytes) (weight (flip_byte bytes i)) (get_or bytes i 0)
weight-flip_byte [] i v h = absurd (omega arith)
weight-flip_byte (b ∷ []) zero v h = (omega arith, inl (omega arith))
weight-flip_byte (b ∷ []) (suc i) v h = absurd (omega arith)
weight-flip_byte (a ∷ b ∷ rest) zero v h = (v.0, inl (omega arith))
weight-flip_byte (a ∷ b ∷ rest) (suc zero) v h = (v.1.0, inr (omega arith))
weight-flip_byte (a ∷ b ∷ rest) (suc (suc i)) v h =
    let moved = weight-flip_byte rest i v.1.1 (omega arith) in (moved.0, omega arith)

IsBytes-set : (bytes : List ℕ) (i x : ℕ) → IsBytes bytes → x < 256 → IsBytes (set bytes i x)
IsBytes-set [] i x v h = tt
IsBytes-set (b ∷ bytes) zero x v h = (h, v.1)
IsBytes-set (b ∷ bytes) (suc i) x v h = (v.0, IsBytes-set bytes i x v.1 h)

-- A block of at most 65535 bytes that verifies no longer verifies once any one of its bytes is
-- turned over.
pub in_cksum-flip_byte :
    (bytes : List ℕ) (i : ℕ)
    → IsBytes bytes
    → length bytes ≤ max_length
    → in_cksum bytes ≡ 0
    → i < length bytes
    → in_cksum (flip_byte bytes i) ≢ 0
in_cksum-flip_byte bytes i v short good h bad =
    let moved = weight-flip_byte bytes i v h in
    let before = (in_cksum-eq-zero bytes v short).0 good in
    let whole = IsBytes-set bytes i (255 - get_or bytes i 0) v (omega arith) in
    let same = length-set bytes i (255 - get_or bytes i 0) in
    let after = (in_cksum-eq-zero (flip_byte bytes i) whole (omega arith)).0 bad in omega arith

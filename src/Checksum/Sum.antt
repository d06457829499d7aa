-- ===== src/Checksum/Sum.antt =====
-- `in_cksum` against the sum of the words, taken without a limit on its size.
use cpe464_program.Common.{
  ◌∙◌, ap, ℕ, ◌+◌, ◌*◌, ◌%◌, ◌^◌, ◌≤◌, ◌<◌, ◌≡◌, ◌↔◌, List, [], ◌∷◌, arith, length, All, ◌/◌,
}
use cpe464_program.Checksum.{sum_words, fold_carries, in_cksum}

-- The sum of the little-endian words; an odd byte at the end is a word of its own.
abbrev pub weight : List ℕ → ℕ
weight [] = 0
weight (b ∷ []) = b
weight (a ∷ b ∷ rest) = a + 256 * b + weight rest

abbrev pub IsBytes : List ℕ → Type 0
IsBytes bytes = All (λ b. b < 256) bytes

pub weight-le : (bytes : List ℕ) → IsBytes bytes → weight bytes ≤ 32768 * length bytes
weight-le [] v = omega arith
weight-le (b ∷ []) v = omega arith
weight-le (a ∷ b ∷ rest) v = omega (arith, weight-le rest v.1.1)

-- The longest block of which no sum leaves the positive `int`s.
abbrev pub max_length : ℕ
max_length = 65535

pub weight-lt : (bytes : List ℕ) → IsBytes bytes → length bytes ≤ max_length → weight bytes < 2 ^ 31
weight-lt bytes v h = omega (arith, weight-le bytes v)

sum_words-weight :
    (sum : ℕ) (bytes : List ℕ)
    → sum + weight bytes < 2 ^ 32
    → sum_words sum bytes ≡ sum + weight bytes
unfolding sum_words
sum_words-weight sum [] h = omega arith
sum_words-weight sum (b ∷ []) h = omega arith
sum_words-weight sum (a ∷ b ∷ rest) h =
    omega (arith, sum_words-weight ((sum + (a + 256 * b)) % 2 ^ 32) rest (omega arith))

fold_carries-eq-zero :
    (sum : ℕ) → sum < 2 ^ 31 → (fold_carries sum ≡ 0) ↔ ((0 < sum) × (sum % 65535 ≡ 0))
unfolding fold_carries
fold_carries-eq-zero sum h = ground arith

fold_carries_completes :
    (sum : ℕ)
    → sum < 2 ^ 31
    → (fold_carries sum < 2 ^ 16)
      × (0 < sum + fold_carries sum)
      × ((sum + fold_carries sum) % 65535 ≡ 0)
unfolding fold_carries
fold_carries_completes sum h = ground arith

module _ (bytes : List ℕ) (v : IsBytes bytes) (short : length bytes ≤ max_length) where
  in_cksum-weight : in_cksum bytes ≡ fold_carries (weight bytes)
  unfolding in_cksum
  in_cksum-weight =
      ap fold_carries
        (sum_words-weight 0 bytes (omega (arith, weight-lt bytes v short)) ∙ omega arith)

  -- A block of at most 65535 bytes has the checksum 0 exactly when its little-endian words, summed
  -- without a limit, come to a positive multiple of 65535.
  pub in_cksum-eq-zero : (in_cksum bytes ≡ 0) ↔ ((0 < weight bytes) × (weight bytes % 65535 ≡ 0))
  in_cksum-eq-zero =
      rw in_cksum-weight (fold_carries-eq-zero (weight bytes) (weight-lt bytes v short))

  -- The checksum of a block is the word that completes its sum.
  pub in_cksum_completes :
      (in_cksum bytes < 2 ^ 16)
      × (0 < weight bytes + in_cksum bytes)
      × ((weight bytes + in_cksum bytes) % 65535 ≡ 0)
  in_cksum_completes =
      rw in_cksum-weight (fold_carries_completes (weight bytes) (weight-lt bytes v short))

-- A header whose checksum field is zero when the checksum is taken, and holds it afterwards, makes
-- the whole block verify, whatever follows the field.
pub in_cksum-sealed :
    (a b c d : ℕ) (rest : List ℕ)
    → IsBytes (a ∷ b ∷ c ∷ d ∷ 0 ∷ 0 ∷ rest)
    → 6 + length rest ≤ max_length
    → let k = in_cksum (a ∷ b ∷ c ∷ d ∷ 0 ∷ 0 ∷ rest) in
      in_cksum (a ∷ b ∷ c ∷ d ∷ (k % 256) ∷ (k / 256 % 256) ∷ rest) ≡ 0
in_cksum-sealed a b c d rest v short =
    let blank : List ℕ = a ∷ b ∷ c ∷ d ∷ 0 ∷ 0 ∷ rest in
    let k : ℕ = in_cksum blank in
    let whole : List ℕ = a ∷ b ∷ c ∷ d ∷ (k % 256) ∷ (k / 256 % 256) ∷ rest in
    let done = in_cksum_completes blank v (omega arith) in
    let bytes : IsBytes whole =
      (v.0, (v.1.0, (v.1.1.0, (v.1.1.1.0, (omega arith, (omega arith, v.1.1.1.1.1.1)))))) in
    (in_cksum-eq-zero whole bytes (omega arith)).1 (omega arith)

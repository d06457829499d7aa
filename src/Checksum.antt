-- ===== src/Checksum.antt =====
-- libcpe464/checksum.c: the Internet checksum of a block of bytes, read as little-endian words.
pub mod Sum
pub mod Detect
mod Tests
use cpe464_program.Common.{ℕ, ◌+◌, ◌-◌, ◌*◌, ◌/◌, ◌%◌, ◌^◌, List, [], ◌∷◌, ltb, if◌then◌else◌}

-- The loop of `in_cksum` over the bytes at `w`, `nleft` of them, and the odd byte at the end. `sum` is
-- 32 bits wide.
pub sum_words : ℕ → List ℕ → ℕ
sum_words sum [] = sum
sum_words sum (b ∷ []) = (sum + b) % 2 ^ 32
sum_words sum (a ∷ b ∷ rest) = sum_words ((sum + (a + 256 * b)) % 2 ^ 32) rest

-- `sum >> 16` for an `int`: the sign bit comes in from the left.
pub shift_16 : ℕ → ℕ
shift_16 sum = if ltb sum (2 ^ 31) then sum / 2 ^ 16 else sum / 2 ^ 16 + (2 ^ 32 - 2 ^ 16)

-- The carries are added back twice; the answer is the complement, cut to 16 bits.
pub fold_carries : ℕ → ℕ
unfolding shift_16
fold_carries sum =
    let once = (shift_16 sum + sum % 2 ^ 16) % 2 ^ 32 in
    let twice = (once + shift_16 once) % 2 ^ 32 in 2 ^ 16 - 1 - twice % 2 ^ 16

unfoldable pub in_cksum : List ℕ → ℕ
unfolding sum_words fold_carries
in_cksum bytes = fold_carries (sum_words 0 bytes)

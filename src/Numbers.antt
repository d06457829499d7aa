-- ===== src/Numbers.antt =====
-- `strtol` with base 10 and `atoi`, of the C library, as `checkArgs` of both programs and the socket
-- set-up use them. A text is its bytes before the NUL, a `long` its 64-bit pattern, an `int` its 32-bit one.
pub mod Laws
mod Tests
use cpe464_program.Common.{
  Bool, List, [], false, if◌then◌else◌, leb, ltb, true, ℕ, ◌%◌, ◌&&◌, ◌*◌, ◌+◌, ◌-◌, ◌==◌, ◌^◌,
  ◌||◌, ◌∷◌,
}

abbrev pub is_space : ℕ → Bool
is_space c = (c == 32) || (leb 9 c && leb c 13)

abbrev pub is_digit : ℕ → Bool
is_digit c = leb b'0' c && leb c b'9'

unfoldable pub skip_spaces : List ℕ → List ℕ
skip_spaces [] = []
skip_spaces (c ∷ s) = let rest = skip_spaces s in if is_space c then rest else c ∷ s

-- Whether there is a minus sign, and what follows the sign if there is one.
unfoldable pub take_sign : List ℕ → Bool × List ℕ
take_sign [] = (false, [])
take_sign (c ∷ s) =
    if c == b'-' then (true, s) else if c == b'+' then (false, s) else (false, c ∷ s)

-- The number that the digits at the front spell behind `n`, and what follows them.
unfoldable pub scan_digits : ℕ → List ℕ → ℕ × List ℕ
scan_digits n [] = (n, [])
scan_digits n (c ∷ s) =
    let rest = scan_digits (n * 10 + (c - b'0')) s in if is_digit c then rest else (n, c ∷ s)

abbrev pub starts_with_digit : List ℕ → Bool
starts_with_digit [] = false
starts_with_digit (c ∷ s) = is_digit c

-- The nearest `long`.
unfoldable pub clamp_long : Bool → ℕ → ℕ
clamp_long false n = if ltb n (2 ^ 63) then n else 2 ^ 63 - 1
clamp_long true n = if ltb n (2 ^ 63) then (2 ^ 64 - n) % 2 ^ 64 else 2 ^ 63

-- The value and where `endptr` points: at the start of the text, if no number stands there.
unfoldable pub strtol : List ℕ → ℕ × List ℕ
unfolding skip_spaces take_sign scan_digits clamp_long
strtol s =
    let signed = take_sign (skip_spaces s) in
    let scanned = scan_digits 0 signed.1 in
    if starts_with_digit signed.1 then (clamp_long signed.0 scanned.0, scanned.1) else (0, s)

-- A `long` becomes an `int` by its low 32 bits.
abbrev pub to_int : ℕ → ℕ
to_int n = n % 2 ^ 32

unfoldable pub atoi : List ℕ → ℕ
unfolding strtol
atoi s = to_int (strtol s).0

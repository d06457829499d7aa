-- ===== src/Numbers/Laws.antt =====
-- The C library's reading of a number, against its decimal print.
use cpe464_program.Common.{
  List, [], ap, arith, false, if◌then◌else◌, lt→ltb, refl, suc, true, zero, ℕ, ◌%◌, ◌+◌, ◌/◌, ◌<◌,
  ◌==◌, ◌^◌, ◌∙◌, ◌∷◌, ◌≡◌, ◌≤◌,
}
use cpe464_program.Numbers.{
  atoi, clamp_long, scan_digits, skip_spaces, starts_with_digit, strtol, take_sign,
}

-- The digits of `n` in front of `out`; `n` rounds are more than enough.
emit : ℕ → ℕ → List ℕ → List ℕ
emit zero n out = out
emit (suc left) n out =
    let rest = emit left (n / 10) ((b'0' + n % 10) ∷ out) in if n == 0 then out else rest

-- `%d` of a number that is not negative.
unfoldable pub decimal : ℕ → List ℕ
unfolding emit
decimal n = if n == 0 then b'0' ∷ [] else emit n n []

scan_digits-emit :
    (left n : ℕ) (out : List ℕ) → n ≤ left → scan_digits 0 (emit left n out) ≡ scan_digits n out
unfolding emit scan_digits
scan_digits-emit zero n out h = ap (λ k. scan_digits k out) (omega arith)
scan_digits-emit (suc left) n out h =
    ground (arith, scan_digits-emit left (n / 10) ((b'0' + n % 10) ∷ out))

starts_with_digit-emit :
    (left n : ℕ) (out : List ℕ)
    → starts_with_digit out ≡ true
    → starts_with_digit (emit left n out) ≡ true
unfolding emit
starts_with_digit-emit zero n out h = h
starts_with_digit-emit (suc left) n out h =
    ground (arith, starts_with_digit-emit left (n / 10) ((b'0' + n % 10) ∷ out))

starts_with_digit-decimal : (n : ℕ) → starts_with_digit (decimal n) ≡ true
unfolding decimal
starts_with_digit-decimal zero = refl
starts_with_digit-decimal (suc n) =
    ground (arith, starts_with_digit-emit n (suc n / 10) ((b'0' + suc n % 10) ∷ []))

scan_digits-decimal : (n : ℕ) → scan_digits 0 (decimal n) ≡ (n, [])
unfolding decimal scan_digits
scan_digits-decimal n = ground (arith, scan_digits-emit n n [])

-- A text that begins with a digit has neither spaces nor a sign.
strtol_of_digits :
    (s : List ℕ)
    → starts_with_digit s ≡ true
    → strtol s ≡ (clamp_long false (scan_digits 0 s).0, (scan_digits 0 s).1)
unfolding strtol skip_spaces take_sign
strtol_of_digits [] h = cc
strtol_of_digits (c ∷ s) h = ground arith

pub strtol-decimal : (n : ℕ) → n < 2 ^ 63 → strtol (decimal n) ≡ (n, [])
unfolding clamp_long
strtol-decimal n h =
    strtol_of_digits (decimal n) (starts_with_digit-decimal n)
    ∙ rw (scan_digits-decimal n, lt→ltb n (2 ^ 63) h)

pub atoi-decimal : (n : ℕ) → n < 2 ^ 32 → atoi (decimal n) ≡ n
unfolding atoi
atoi-decimal n h = rw (strtol-decimal n (omega arith)) (omega arith)

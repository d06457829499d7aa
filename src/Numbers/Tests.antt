-- ===== src/Numbers/Tests.antt =====
-- Texts that strtol and atoi read.
use cpe464_program.Common.{[], codes, refl, ◌-◌, ◌^◌, ◌≡◌}
use cpe464_program.Numbers.{atoi, strtol}
use cpe464_program.Numbers.Laws.{decimal}

spaces_and_sign : strtol (codes "  -12x") ≡ (2 ^ 64 - 12, codes "x")
unfolding strtol
spaces_and_sign = refl

-- Nothing is read of a text without a digit.
no_number : (strtol (codes " +a") ≡ (0, codes " +a")) × (strtol [] ≡ (0, []))
unfolding strtol
no_number = (refl, refl)

-- The nearest `long`, which as an `int` is -1.
too_large :
    (strtol (codes "9223372036854775808") ≡ (2 ^ 63 - 1, []))
    × (atoi (codes "9223372036854775808") ≡ 2 ^ 32 - 1)
unfolding strtol atoi
too_large = (refl, refl)

printed : decimal 65535 ≡ codes "65535"
unfolding decimal
printed = refl

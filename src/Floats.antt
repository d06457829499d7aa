-- ===== src/Floats.antt =====
-- What the programs use of `float`: reading one by `strtof`, and comparing it.
use cpe464_program.Common.{Bool, List, is_empty, ltb, not, ℕ, ◌||◌}
use cpe464_program.Numbers.{scan_digits}

-- `strtof` gives the number and what follows it in the text.
pub record Floats : Type 1 where
  pub Float : Type 0
  pub strtof : List ℕ → Float × List ℕ
  pub float_lt : Float → Float → Bool
  pub float_zero : Float
  pub float_one : Float

-- The test of an error rate, in `checkArgs` of both programs: `true` if it is refused.
module _ (f : Floats) where
  open f use {strtof, float_lt, float_zero, float_one}

  abbrev pub is_bad_rate : List ℕ → Bool
  is_bad_rate text =
      let r = strtof text in
      not (is_empty r.1) || (float_lt r.0 float_zero || float_lt float_one r.0)

-- The whole numbers, with no fraction and no sign.
abbrev pub whole_floats : Floats
whole_floats = record {
  Float = ℕ;
  strtof = scan_digits 0;
  float_lt = ltb;
  float_zero = 0;
  float_one = 1;
}

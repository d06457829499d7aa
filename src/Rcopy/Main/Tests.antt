-- ===== src/Rcopy/Main/Tests.antt =====
-- Command lines of rcopy.
use cpe464_program.Common.{
  List, [], arith, codes, exit, false, if◌then◌else◌, length, ok, refl, ℕ, ◌&&◌, ◌+◌, ◌-◌, ◌<◌, ◌^◌,
  ◌∷◌, ◌≡◌, ◌≤◌,
}
use cpe464_program.Floats.{is_bad_rate, whole_floats}
use cpe464_program.Numbers.{scan_digits, strtol, to_int}
use cpe464_program.Numbers.Laws.{decimal}
use cpe464_program.Rcopy.Main.{
  arg, args_of, check_args, is_bad_number, max_buffer, max_port, max_window,
}
use cpe464_program.Rcopy.Main.Laws.{
  AreSizes, check_args_bounds, check_args_decimal, command_line, in_range,
}

abbrev line : ℕ → List (List ℕ)
line window =
    command_line (codes "rcopy") (codes "a") (codes "b") window 1000 (codes "0") (codes "host") 5000

decimals : decimal 5000 ≡ codes "5000"
unfolding decimal
decimals = refl

accepts_rate : is_bad_rate whole_floats (codes "0") ≡ false
unfolding scan_digits
accepts_rate = refl

check_args_decimal_example : check_args whole_floats (line (2 ^ 32 + 10)) ≡ (
    if in_range (max_window - 1) (to_int (2 ^ 32 + 10))
      && (in_range max_buffer (to_int 1000) && in_range max_port (to_int 5000))
    then ok (to_int 5000)
    else exit 1)
check_args_decimal_example =
    check_args_decimal whole_floats (codes "rcopy") (codes "a") (codes "b") (codes "0")
      (codes "host") (2 ^ 32 + 10) 1000 5000 (omega arith) (omega arith) accepts_rate (omega arith)
      (omega arith) (omega arith)

accepted : check_args whole_floats (line 10) ≡ ok 5000
unfolding check_args is_bad_number strtol decimal scan_digits
accepted = refl

check_args_bounds_example :
    ((0 < 5000) × (5000 ≤ max_port))
    × (length (line 10) ≡ 8)
    × ((0 < length (arg (line 10) 1)) × (length (arg (line 10) 1) < 100))
    × AreSizes (args_of (line 10))
check_args_bounds_example = check_args_bounds whole_floats (line 10) 5000 accepted

-- Too few arguments, and a window of 0.
refused :
    (check_args whole_floats (codes "rcopy" ∷ []) ≡ exit 1)
    × (check_args whole_floats (line 0) ≡ exit 1)
unfolding check_args is_bad_number strtol decimal scan_digits
refused = (refl, refl)

-- The name of the remote machine is empty.
no_machine :
    check_args whole_floats
      (command_line (codes "rcopy") (codes "a") (codes "b") 5 1000 (codes "0") [] 5000)
    ≡ ok 5000
unfolding check_args is_bad_number strtol decimal scan_digits
no_machine = refl

-- ===== src/Rcopy/Main/Laws.antt =====
-- rcopy.c: what `checkArgs` accepts, and what the program then asks the server for.
use cpe464_program.Common.{
  Bool, List, Run, [], arith, exit, false, if◌then◌else◌, leb, length, ltb, not, ok, refl, true, ℕ,
  ◌&&◌, ◌-◌, ◌<◌, ◌==◌, ◌^◌, ◌∷◌, ◌≡◌, ◌≤◌,
}
use cpe464_program.Floats.{Floats, is_bad_rate}
use cpe464_program.Numbers.{atoi, strtol, to_int}
use cpe464_program.Numbers.Laws.{decimal, strtol-decimal}
use cpe464_program.Rcopy.Exchange.{Args}
use cpe464_program.Rcopy.Main.{
  arg, args_of, check_args, is_bad_name, is_bad_number, is_long_name, max_buffer, max_port,
  max_window,
}

-- The sizes are 32-bit patterns of positive `int`s, below the limits.
abbrev pub AreSizes : Args → Type 0
AreSizes a =
    ((0 < a.window_size) × (a.window_size < max_window))
    × ((0 < a.buffer_size) × (a.buffer_size ≤ max_buffer))

is_bad_number_sound :
    (last : ℕ) (text : List ℕ)
    → last < 2 ^ 31
    → is_bad_number last text ≡ false
    → (0 < to_int (strtol text).0) × (to_int (strtol text).0 ≤ last)
unfolding is_bad_number
is_bad_number_sound last text small h = ground arith

-- A guard that did not end the process.
guard_passed :
    (b : Bool) {A : Type 0} (r : Run A) (a : A)
    → (if b then exit 1 else r) ≡ ok a
    → (b ≡ false) × (r ≡ ok a)
guard_passed true r a h = cc
guard_passed false r a h = (refl, h)

-- If checkArgs of rcopy accepts a command line, it has eight arguments, the port is between 1 and
-- 65535, the name of the file has 1 to 99 bytes, and the sizes that rcopy_FSM then reads by atoi are
-- positive, the window below 2^30 and the buffer at most 1400.
pub check_args_bounds :
    (f : Floats) (argv : List (List ℕ)) (port : ℕ)
    → check_args f argv ≡ ok port
    → ((0 < port) × (port ≤ max_port))
      × (length argv ≡ 8)
      × ((0 < length (arg argv 1)) × (length (arg argv 1) < 100))
      × AreSizes (args_of argv)
unfolding check_args atoi
check_args_bounds f argv port h =
    let (eight, h1) = guard_passed (not (length argv == 8)) _ port h in
    let (named, h2) = guard_passed (is_bad_name (arg argv 1) (arg argv 2)) _ port h1 in
    let (short, h3) = guard_passed (is_long_name (arg argv 1) (arg argv 2)) _ port h2 in
    let (window, h4) = guard_passed (is_bad_number (max_window - 1) (arg argv 3)) _ port h3 in
    let (buffer, h5) = guard_passed (is_bad_number max_buffer (arg argv 4)) _ port h4 in
    let (rate, h6) = guard_passed (is_bad_rate f (arg argv 5)) _ port h5 in
    let (ported, h7) =
      guard_passed (is_bad_number max_port (arg argv 7)) (ok (to_int (strtol (arg argv 7)).0)) port
        h6 in
    let w = is_bad_number_sound (max_window - 1) (arg argv 3) (omega arith) window in
    let b = is_bad_number_sound max_buffer (arg argv 4) (omega arith) buffer in
    let p = is_bad_number_sound max_port (arg argv 7) (omega arith) ported in
    (ground arith, ground arith, ground arith, ((w.0, omega arith), b))

-- The command line `rcopy from to window buffer rate host port`, with numbers in decimal.
abbrev pub command_line : List ℕ → List ℕ → List ℕ → ℕ → ℕ → List ℕ → List ℕ → ℕ → List (List ℕ)
command_line program from_file to_file window buffer rate host port =
    program
    ∷ from_file
    ∷ to_file
    ∷ decimal window
    ∷ decimal buffer
    ∷ rate
    ∷ host
    ∷ decimal port
    ∷ []

abbrev pub in_range : ℕ → ℕ → Bool
in_range last n = ltb 0 n && leb n last

is_bad_number-decimal :
    (last n : ℕ)
    → last < 2 ^ 31
    → n < 2 ^ 63
    → is_bad_number last (decimal n) ≡ not (in_range last (to_int n))
unfolding is_bad_number
is_bad_number-decimal last n small h = rw (strtol-decimal n h) (ground arith)

abbrev pub IsShortName : List ℕ → Type 0
IsShortName name = (0 < length name) × (length name < 100)

names_pass :
    (from_file to_file : List ℕ)
    → IsShortName from_file
    → IsShortName to_file
    → (is_bad_name from_file to_file ≡ false) × (is_long_name from_file to_file ≡ false)
names_pass from_file to_file h k = (ground arith, ground arith)

guards :
    (w b p : Bool) (r : Run ℕ)
    → (if not w then exit 1 else if not b then exit 1 else if not p then exit 1 else r)
      ≡ (if w && (b && p) then r else exit 1)
guards true true true r = refl
guards true true false r = refl
guards true false p r = refl
guards false b p r = refl

-- With names of 1 to 99 bytes, an error rate that is accepted, and numbers below 2^63 in decimal,
-- checkArgs of rcopy accepts exactly when the low 32 bits of the window size, of the buffer size and
-- of the port lie in their ranges, and then returns the low 32 bits of the port; otherwise it exits
-- with 1. So 2^32 is added to a number without being noticed.
pub check_args_decimal :
    (f : Floats) (program from_file to_file rate host : List ℕ) (window buffer port : ℕ)
    → IsShortName from_file
    → IsShortName to_file
    → is_bad_rate f rate ≡ false
    → window < 2 ^ 63
    → buffer < 2 ^ 63
    → port < 2 ^ 63
    → check_args f (command_line program from_file to_file window buffer rate host port) ≡ (
        if in_range (max_window - 1) (to_int window)
          && (in_range max_buffer (to_int buffer) && in_range max_port (to_int port))
        then ok (to_int port)
        else exit 1)
unfolding check_args
check_args_decimal f program from_file to_file rate host window buffer port nf nt good w b p =
    let (named, short) = names_pass from_file to_file nf nt in
    rw (named, short)
      (rw (is_bad_number-decimal (max_window - 1) window (omega arith) w) (
        rw (is_bad_number-decimal max_buffer buffer (omega arith) b) (
          rw good (
            rw (is_bad_number-decimal max_port port (omega arith) p) (
              rw (strtol-decimal port p) (
                guards (in_range (max_window - 1) (to_int window))
                  (in_range max_buffer (to_int buffer)) (in_range max_port (to_int port)) _))))))

-- ===== src/Common/Outcome.antt =====
-- What a piece of the program does when it runs: it returns, ends the process by `exit`, does
-- something that C leaves undefined, waits for input that the environment does not give, or uses up
-- the fuel of a loop. A program text is a function of the state that it reads and changes.
use Prim.Native.Nat.{ℕ}
use mathlib.Core.Bool.{Bool, true, false}
use mathlib.Core.Option.{Option, none, some}
use mathlib.Core.Path.{◌≡◌, refl}

pub data Run {ℓ} (A : Type ℓ) : Type ℓ where
  ok : A → Run A
  exit : ℕ → Run A
  fault blocked out_of_fuel : Run A

-- What comes after a run that returns; one that does not is passed on.
abbrev pub and_then {ℓ κ} : {A : Type ℓ} {B : Type κ} → Run A → (A → Run B) → Run B
and_then (ok a) f = f a
and_then (exit n) f = exit n
and_then fault f = fault
and_then blocked f = blocked
and_then out_of_fuel f = out_of_fuel

abbrev pub M {ℓ κ} : Type ℓ → Type κ → Type (ℓ ⊔ κ)
M S A = S → Run (A × S)

infixl 5 ◌>>=◌ ◌>>◌
abbrev pub ◌>>=◌ {ℓ κ μ} : {S : Type ℓ} {A : Type κ} {B : Type μ} → M S A → (A → M S B) → M S B
m >>= f = λ s. and_then (m s) λ r. f r.0 r.1

abbrev pub ◌>>◌ {ℓ μ} : {S : Type ℓ} {B : Type μ} → M S (Unit {0}) → M S B → M S B
m >> k = m >>= λ _. k

abbrev pub return {ℓ κ} : {S : Type ℓ} {A : Type κ} → A → M S A
return a s = ok (a, s)

abbrev pub get {ℓ} : {S : Type ℓ} → M S S
get s = ok (s, s)

abbrev pub put {ℓ} : {S : Type ℓ} → S → M S (Unit {0})
put s' s = ok (tt, s')

-- What C leaves undefined unless the test holds: an index or a length out of bounds.
abbrev pub check {ℓ} : {S : Type ℓ} → Bool → M S (Unit {0})
check true s = ok (tt, s)
check false s = fault

abbrev pub or_undefined {ℓ} : {A : Type ℓ} → Option A → Run A
or_undefined none = fault
or_undefined (some a) = ok a

abbrev pub or_fault {ℓ κ} : {S : Type ℓ} {A : Type κ} → Option A → M S A
or_fault none s = fault
or_fault (some a) s = ok (a, s)

-- The run does nothing undefined and has fuel enough, and what it returns is as stated. It may also
-- end the process or wait for input.
abbrev pub Ensures {ℓ κ} : {A : Type ℓ} → (A → Type κ) → Run A → Type κ
Ensures P (ok a) = P a
Ensures P (exit n) = Unit
Ensures P fault = Unit → ⊥
Ensures P blocked = Unit
Ensures P out_of_fuel = Unit → ⊥

-- What comes after a run may rely on what the run ensures.
pub Ensures-and_then {ℓ κ μ ν} :
    {A : Type ℓ} {B : Type κ} (P : A → Type μ) (Q : B → Type ν) (r : Run A) (f : A → Run B)
    → Ensures P r
    → ((a : A) → P a → Ensures Q (f a))
    → Ensures Q (and_then r f)
Ensures-and_then P Q (ok a) f h k = k a h
Ensures-and_then P Q (exit n) f h k = tt
Ensures-and_then P Q fault f h k = λ u. absurd (h tt)
Ensures-and_then P Q blocked f h k = tt
Ensures-and_then P Q out_of_fuel f h k = λ u. absurd (h tt)

-- If the run returns, what it returns is as stated.
abbrev pub Returns {ℓ κ} : {A : Type ℓ} → (A → Type κ) → Run A → Type κ
Returns P (ok a) = P a
Returns P (exit n) = Unit
Returns P fault = Unit
Returns P blocked = Unit
Returns P out_of_fuel = Unit

pub Returns-and_then {ℓ κ μ ν} :
    {A : Type ℓ} {B : Type κ} (P : A → Type μ) (Q : B → Type ν) (r : Run A) (f : A → Run B)
    → Returns P r
    → ((a : A) → P a → Returns Q (f a))
    → Returns Q (and_then r f)
Returns-and_then P Q (ok a) f h k = k a h
Returns-and_then P Q (exit n) f h k = tt
Returns-and_then P Q fault f h k = tt
Returns-and_then P Q blocked f h k = tt
Returns-and_then P Q out_of_fuel f h k = tt

pub Ensures-Returns {ℓ κ μ} :
    {A : Type ℓ} (P : A → Type κ) (Q : A → Type μ) (r : Run A)
    → Ensures P r
    → Returns Q r
    → Ensures (λ a. P a × Q a) r
Ensures-Returns P Q (ok a) h k = (h, k)
Ensures-Returns P Q (exit n) h k = tt
Ensures-Returns P Q fault h k = λ u. absurd (h tt)
Ensures-Returns P Q blocked h k = tt
Ensures-Returns P Q out_of_fuel h k = λ u. absurd (h tt)

pub Ensures-mono {ℓ κ μ} :
    {A : Type ℓ} (P : A → Type κ) (Q : A → Type μ) (r : Run A)
    → ((a : A) → P a → Q a)
    → Ensures P r
    → Ensures Q r
Ensures-mono P Q (ok a) f h = f a h
Ensures-mono P Q (exit n) f h = tt
Ensures-mono P Q fault f h = λ u. absurd (h tt)
Ensures-mono P Q blocked f h = tt
Ensures-mono P Q out_of_fuel f h = λ u. absurd (h tt)

-- A run that ensures something and is known to return.
pub Ensures-ok {ℓ κ} :
    {A : Type ℓ} (P : A → Type κ) (r : Run A) (a : A) → r ≡ ok a → Ensures P r → P a
Ensures-ok P r a e h = rw e at h

pub Ensures→Returns {ℓ κ} : {A : Type ℓ} (P : A → Type κ) (r : Run A) → Ensures P r → Returns P r
Ensures→Returns P (ok a) h = h
Ensures→Returns P (exit n) h = tt
Ensures→Returns P fault h = tt
Ensures→Returns P blocked h = tt
Ensures→Returns P out_of_fuel h = tt

pub Returns-mono {ℓ κ μ} :
    {A : Type ℓ} (P : A → Type κ) (Q : A → Type μ) (r : Run A)
    → ((a : A) → P a → Q a)
    → Returns P r
    → Returns Q r
Returns-mono P Q (ok a) f h = f a h
Returns-mono P Q (exit n) f h = tt
Returns-mono P Q fault f h = tt
Returns-mono P Q blocked f h = tt
Returns-mono P Q out_of_fuel f h = tt

pub Returns-trivial {ℓ} : {A : Type ℓ} (r : Run A) → Returns (λ a. Unit {0}) r
Returns-trivial (ok a) = tt
Returns-trivial (exit n) = tt
Returns-trivial fault = tt
Returns-trivial blocked = tt
Returns-trivial out_of_fuel = tt

-- The same, where what comes after may also rely on what the run returned.
pub Ensures-and_then_eq {ℓ κ μ ν} :
    {A : Type ℓ} {B : Type κ} (P : A → Type μ) (Q : B → Type ν) (r : Run A) (f : A → Run B)
    → Ensures P r
    → ((a : A) → r ≡ ok a → P a → Ensures Q (f a))
    → Ensures Q (and_then r f)
Ensures-and_then_eq P Q (ok a) f h k = k a refl h
Ensures-and_then_eq P Q (exit n) f h k = tt
Ensures-and_then_eq P Q fault f h k = λ u. absurd (h tt)
Ensures-and_then_eq P Q blocked f h k = tt
Ensures-and_then_eq P Q out_of_fuel f h k = λ u. absurd (h tt)

pub ok-injective {ℓ} : {A : Type ℓ} {a b : A} → ok a ≡ ok b → a ≡ b
ok-injective e = cc

pub and_then_assoc {ℓ κ μ} :
    {A : Type ℓ} {B : Type κ} {C : Type μ} (r : Run A) (f : A → Run B) (g : B → Run C)
    → and_then r (λ a. and_then (f a) g) ≡ and_then (and_then r f) g
and_then_assoc (ok a) f g = refl
and_then_assoc (exit n) f g = refl
and_then_assoc fault f g = refl
and_then_assoc blocked f g = refl
and_then_assoc out_of_fuel f g = refl

-- The run has fuel enough, and if it returns, what it returns is as stated.
abbrev pub Ends {ℓ κ} : {A : Type ℓ} → (A → Type κ) → Run A → Type κ
Ends P (ok a) = P a
Ends P (exit n) = Unit
Ends P fault = Unit
Ends P blocked = Unit
Ends P out_of_fuel = Unit → ⊥

pub Ends-and_then {ℓ κ μ ν} :
    {A : Type ℓ} {B : Type κ} (P : A → Type μ) (Q : B → Type ν) (r : Run A) (f : A → Run B)
    → Ends P r
    → ((a : A) → P a → Ends Q (f a))
    → Ends Q (and_then r f)
Ends-and_then P Q (ok a) f h k = k a h
Ends-and_then P Q (exit n) f h k = tt
Ends-and_then P Q fault f h k = tt
Ends-and_then P Q blocked f h k = tt
Ends-and_then P Q out_of_fuel f h k = λ u. absurd (h tt)

pub Ensures→Ends {ℓ κ} : {A : Type ℓ} (P : A → Type κ) (r : Run A) → Ensures P r → Ends P r
Ensures→Ends P (ok a) h = h
Ensures→Ends P (exit n) h = tt
Ensures→Ends P fault h = tt
Ensures→Ends P blocked h = tt
Ensures→Ends P out_of_fuel h = h

pub Ends-or_undefined {ℓ} : {A : Type ℓ} (o : Option A) → Ends (λ a. Unit {0}) (or_undefined o)
Ends-or_undefined none = tt
Ends-or_undefined (some a) = tt

pub Ends-mono {ℓ κ μ} :
    {A : Type ℓ} (P : A → Type κ) (Q : A → Type μ) (r : Run A)
    → ((a : A) → P a → Q a)
    → Ends P r
    → Ends Q r
Ends-mono P Q (ok a) f h = f a h
Ends-mono P Q (exit n) f h = tt
Ends-mono P Q fault f h = tt
Ends-mono P Q blocked f h = tt
Ends-mono P Q out_of_fuel f h = λ u. absurd (h tt)

-- A run that is known to return.
pub Returns-ok {ℓ κ} :
    {A : Type ℓ} (P : A → Type κ) (r : Run A) (a : A) → r ≡ ok a → Returns P r → P a
Returns-ok P r a e h = rw e at h

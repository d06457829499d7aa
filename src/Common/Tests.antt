-- ===== src/Common/Tests.antt =====
-- Tests on the numbers of C: `uint32_t` and `int` are both 32-bit patterns, numbers below 2 ^ 32, so
-- a conversion between the two leaves the pattern as it is. Only comparison and remainder differ.
use Prim.Native.Nat.{ℕ, ◌+◌, ◌%◌, ◌^◌, ◌≤◌, ◌<◌, compare, Ordering}
use mathlib.Core.Path.{◌≡◌, refl}
use mathlib.Core.Logic.{◌⊎◌, inl, inr}
use mathlib.Core.Bool.{Bool, true, false}
use mathlib.Core.Option.{Option, none, some}
use native.Mathlib.Omega.{arith}
use native.Mathlib.Decide.{ℕ_discrete, dec_lt}

abbrev pub ltb : ℕ → ℕ → Bool
ltb a b = elim (compare a b) [ Ordering.lt ↦ true | _ ↦ false ]

abbrev pub leb : ℕ → ℕ → Bool
leb a b = elim (compare a b) [ Ordering.gt ↦ false | _ ↦ true ]

infix 50 ◌==◌
abbrev pub ◌==◌ : ℕ → ℕ → Bool
a == b = elim (compare a b) [ Ordering.eq ↦ true | _ ↦ false ]

infix 1 if◌then◌else◌
abbrev pub if◌then◌else◌ {ℓ} : {A : Type ℓ} → Bool → A → A → A
if true then x else y = x
if false then x else y = y

-- `a < b` for two `int`s: the order of the patterns with the sign bit turned over.
abbrev pub slt : ℕ → ℕ → Bool
slt a b = ltb ((a + 2 ^ 31) % 2 ^ 32) ((b + 2 ^ 31) % 2 ^ 32)

-- `n++` on 32 bits.
abbrev pub incr : ℕ → ℕ
incr n = (n + 1) % 2 ^ 32

pub Bool-cases : (b : Bool) → (b ≡ true) ⊎ (b ≡ false)
Bool-cases true = inl refl
Bool-cases false = inr refl

pub Option-cases {ℓ} : {A : Type ℓ} (o : Option A) → (o ≡ none) ⊎ ((a : A) × (o ≡ some a))
Option-cases none = inl refl
Option-cases (some a) = inr (a, refl)

pub ltb→lt : (a b : ℕ) → ltb a b ≡ true → a < b
ltb→lt a b h = ground arith

pub ltb→le : (a b : ℕ) → ltb a b ≡ false → b ≤ a
ltb→le a b h = ground arith

pub lt→ltb : (a b : ℕ) → a < b → ltb a b ≡ true
lt→ltb a b h = ground arith

pub le→ltb : (a b : ℕ) → b ≤ a → ltb a b ≡ false
le→ltb a b h = ground arith

pub le→leb : (a b : ℕ) → a ≤ b → leb a b ≡ true
le→leb a b h = ground arith

pub lt→leb : (a b : ℕ) → b < a → leb a b ≡ false
lt→leb a b h = ground arith

pub leb→le : (a b : ℕ) → leb a b ≡ true → a ≤ b
leb→le a b h = ground arith

pub le-or-lt : (a b : ℕ) → (a ≤ b) ⊎ (b < a)
le-or-lt a b = elim (Bool-cases (leb a b)) [
  | inl low ↦ inl (leb→le a b low)
  | inr high ↦ inr (ground arith)
]

pub ==→eq : (a b : ℕ) → (a == b) ≡ true → a ≡ b
==→eq a b h = ground arith

pub ==→ne : (a b : ℕ) → (a == b) ≡ false → a ≡ b → ⊥
==→ne a b h = ground arith

pub eq→== : (a b : ℕ) → a ≡ b → (a == b) ≡ true
eq→== a b h = ground arith

pub ne→== : (a b : ℕ) → (a ≡ b → ⊥) → (a == b) ≡ false
ne→== a b h = ground arith

-- On patterns with the sign bit clear the signed order is the order of the numbers.
pub slt-eq-ltb : (a b : ℕ) → a < 2 ^ 31 → b < 2 ^ 31 → slt a b ≡ ltb a b
slt-eq-ltb a b ha hb = ground arith

-- Below the largest `int` an increment does not wrap.
pub incr-lt : (n : ℕ) → n < 2 ^ 31 → incr n ≡ n + 1
incr-lt n h = omega arith

pub Order-cases : (a b : ℕ) → (a < b) ⊎ ((a ≡ b) ⊎ (b < a))
Order-cases a b = elim (dec_lt a b) [
  | yes p ↦ inl p
  | no p ↦ elim (ℕ_discrete a b) [ yes e ↦ inr (inl e) | no ne ↦ inr (inr (omega arith)) ]
]

pub slt_of_lt : (a b : ℕ) → b < 2 ^ 31 → a < b → slt a b ≡ true
slt_of_lt a b h p = ground arith

pub slt_of_le : (a b : ℕ) → a < 2 ^ 31 → b ≤ a → slt a b ≡ false
slt_of_le a b h p = ground arith

pub ruleset tests = (arith, ltb→lt, ltb→le, lt→ltb, le→ltb, ==→eq, ==→ne, eq→==, ne→==)

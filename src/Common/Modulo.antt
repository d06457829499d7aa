-- ===== src/Common/Modulo.antt =====
-- Indices in a circular buffer.
use Prim.Native.Nat.{ℕ, ◌+◌, ◌-◌, ◌%◌, ◌≤◌, ◌<◌}
use mathlib.Core.Path.{◌≡◌, ap, sym}
use native.Mathlib.Decide.{dec_lt}
use native.Mathlib.Nat.{mod-add-mod, mod-eq_of_lt, mod-eq-sub-mod}
use native.Mathlib.Omega.{arith}

-- Of the numbers in one window, only one stands at an index.
pub mod_window : (m a n : ℕ) → 0 < m → a ≤ n → n < a + m → n % m ≡ a % m → n ≡ a
mod_window m a n pos low high same = elim (dec_lt (a % m + (n - a)) m) [
  | yes p ↦ omega (arith, shifted, mod-eq_of_lt p)
  | no p ↦ omega (
    arith,
    shifted,
    mod-eq-sub-mod {n = a % m + (n - a)} {m = m} (omega arith),
    mod-eq_of_lt {n = a % m + (n - a) - m} {m = m} (omega arith),
  )
]
  where
    shifted : (a % m + (n - a)) % m ≡ n % m
    shifted = rw mod-add-mod (ap (λ k. k % m) (omega arith))

-- A number one window ahead stands at the same index.
pub mod_ahead : (m n : ℕ) → 0 < m → m ≤ n → (n - m) % m ≡ n % m
mod_ahead m n pos h = sym (mod-eq-sub-mod {n = n} {m = m} (omega arith))

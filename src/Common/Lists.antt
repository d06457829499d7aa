-- ===== src/Common/Lists.antt =====
-- Memory as lists of bytes, measured and indexed by native numbers.
use Prim.Native.Nat.{ℕ, zero, suc, ◌+◌, ◌-◌, ◌≤◌, ◌<◌, min}
use mathlib.Core.Path.{◌≡◌, refl, ap, sym, ◌∙◌}
use mathlib.Core.Logic.{◌≢◌}
use mathlib.Core.List.{List, [], ◌∷◌, ◌++◌}
use mathlib.Core.Bool.{Bool, true, false}
use mathlib.Core.Option.{Option, none, some}
use native.Mathlib.Omega.{arith}

module _ {ℓ} {A : Type ℓ} where
  abbrev pub length : List A → ℕ
  length [] = 0
  length (x ∷ xs) = suc (length xs)

  abbrev pub get_elem? : List A → ℕ → Option A
  get_elem? [] i = none
  get_elem? (x ∷ xs) zero = some x
  get_elem? (x ∷ xs) (suc i) = get_elem? xs i

  abbrev pub get_or : List A → ℕ → A → A
  get_or [] i d = d
  get_or (x ∷ xs) zero d = x
  get_or (x ∷ xs) (suc i) d = get_or xs i d

  -- A write out of bounds changes nothing; the model tests the bounds before it writes.
  abbrev pub set : List A → ℕ → A → List A
  set [] i v = []
  set (x ∷ xs) zero v = v ∷ xs
  set (x ∷ xs) (suc i) v = x ∷ set xs i v

  abbrev pub take : ℕ → List A → List A
  take zero xs = []
  take (suc n) [] = []
  take (suc n) (x ∷ xs) = x ∷ take n xs

  abbrev pub drop : ℕ → List A → List A
  drop zero xs = xs
  drop (suc n) [] = []
  drop (suc n) (x ∷ xs) = drop n xs

  abbrev pub replicate : ℕ → A → List A
  replicate zero a = []
  replicate (suc n) a = a ∷ replicate n a

  -- `memcpy(dst + offset, src, n)`, with what falls outside `dst` left out.
  abbrev pub write_at : ℕ → List A → List A → List A
  write_at zero [] dst = dst
  write_at zero (v ∷ src) [] = []
  write_at zero (v ∷ src) (d ∷ dst) = v ∷ write_at zero src dst
  write_at (suc o) src [] = []
  write_at (suc o) src (d ∷ dst) = d ∷ write_at o src dst

-- Every element has the property.
abbrev pub All {ℓ κ} : {A : Type ℓ} → (A → Type κ) → List A → Type κ
All P [] = Unit
All P (x ∷ xs) = P x × All P xs

module _ {ℓ} {A : Type ℓ} where
  pub length-append : (xs ys : List A) → length (xs ++ ys) ≡ length xs + length ys
  length-append [] ys = omega arith
  length-append (x ∷ xs) ys = omega (arith, length-append xs ys)

  pub length-set : (xs : List A) (i : ℕ) (v : A) → length (set xs i v) ≡ length xs
  length-set [] i v = refl
  length-set (x ∷ xs) zero v = refl
  length-set (x ∷ xs) (suc i) v = ap suc (length-set xs i v)

  pub length-take : (n : ℕ) (xs : List A) → length (take n xs) ≡ min n (length xs)
  length-take zero xs = omega arith
  length-take (suc n) [] = omega arith
  length-take (suc n) (x ∷ xs) = omega (arith, length-take n xs)

  pub length-drop : (n : ℕ) (xs : List A) → length (drop n xs) ≡ length xs - n
  length-drop zero xs = omega arith
  length-drop (suc n) [] = omega arith
  length-drop (suc n) (x ∷ xs) = omega (arith, length-drop n xs)

  pub length-replicate : (n : ℕ) (a : A) → length (replicate n a) ≡ n
  length-replicate zero a = refl
  length-replicate (suc n) a = ap suc (length-replicate n a)

  pub length-write_at : (o : ℕ) (src dst : List A) → length (write_at o src dst) ≡ length dst
  length-write_at zero [] dst = refl
  length-write_at zero (v ∷ src) [] = refl
  length-write_at zero (v ∷ src) (d ∷ dst) = ap suc (length-write_at zero src dst)
  length-write_at (suc o) src [] = refl
  length-write_at (suc o) src (d ∷ dst) = ap suc (length-write_at o src dst)

  -- A copy over a region of its own length replaces the region.
  pub write_at-replicate : (src : List A) (a : A) → write_at 0 src (replicate (length src) a) ≡ src
  write_at-replicate [] a = refl
  write_at-replicate (x ∷ xs) a = ap (◌∷◌ x) (write_at-replicate xs a)

  -- Reading back as many elements as were copied gives them.
  pub take-write_at :
      (src dst : List A) → length src ≤ length dst → take (length src) (write_at 0 src dst) ≡ src
  take-write_at [] dst h = refl
  take-write_at (x ∷ xs) [] h = absurd (omega arith)
  take-write_at (x ∷ xs) (d ∷ dst) h = ap (◌∷◌ x) (take-write_at xs dst (omega arith))

  pub take-nil : (n : ℕ) → take {A = A} n [] ≡ []
  take-nil zero = refl
  take-nil (suc n) = refl

  pub take_of_length_le : (n : ℕ) (xs : List A) → length xs ≤ n → take n xs ≡ xs
  take_of_length_le zero [] h = refl
  take_of_length_le zero (x ∷ xs) h = absurd (omega arith)
  take_of_length_le (suc n) [] h = refl
  take_of_length_le (suc n) (x ∷ xs) h = ap (◌∷◌ x) (take_of_length_le n xs (omega arith))

  pub get_elem?-set_self :
      (xs : List A) (i : ℕ) (v : A) → i < length xs → get_elem? (set xs i v) i ≡ some v
  get_elem?-set_self [] i v h = elim h [ ]
  get_elem?-set_self (x ∷ xs) zero v h = refl
  get_elem?-set_self (x ∷ xs) (suc i) v h = get_elem?-set_self xs i v (omega arith)

  pub get_elem?-set_ne :
      (xs : List A) (i j : ℕ) (v : A) → i ≢ j → get_elem? (set xs i v) j ≡ get_elem? xs j
  get_elem?-set_ne [] i j v h = refl
  get_elem?-set_ne (x ∷ xs) zero zero v h = absurd (h refl)
  get_elem?-set_ne (x ∷ xs) zero (suc j) v h = refl
  get_elem?-set_ne (x ∷ xs) (suc i) zero v h = refl
  get_elem?-set_ne (x ∷ xs) (suc i) (suc j) v h = get_elem?-set_ne xs i j v (λ e. h (ap suc e))

  -- A position in range holds something, and one that holds something is in range.
  pub get_elem?_of_lt : (xs : List A) (i : ℕ) → i < length xs → (x : A) × (get_elem? xs i ≡ some x)
  get_elem?_of_lt [] i h = absurd (omega arith)
  get_elem?_of_lt (x ∷ xs) zero h = (x, refl)
  get_elem?_of_lt (x ∷ xs) (suc i) h = get_elem?_of_lt xs i (omega arith)

  pub lt_of_get_elem? : (xs : List A) (i : ℕ) (x : A) → get_elem? xs i ≡ some x → i < length xs
  lt_of_get_elem? [] i x e = cc
  lt_of_get_elem? (y ∷ xs) zero x e = omega arith
  lt_of_get_elem? (y ∷ xs) (suc i) x e = omega (arith, lt_of_get_elem? xs i x e)

  pub take-append_drop-take :
      (a b : ℕ) (xs : List A) → take (a + b) xs ≡ take a xs ++ take b (drop a xs)
  take-append_drop-take zero b xs = let e : 0 + b ≡ b = omega arith in ap (λ k. take k xs) e
  take-append_drop-take (suc a) b [] = take-nil (suc a + b) ∙ sym (take-nil b)
  take-append_drop-take (suc a) b (x ∷ xs) =
      let e : suc a + b ≡ suc (a + b) = omega arith in
      ap (λ k. take k (x ∷ xs)) e ∙ ap (◌∷◌ x) (take-append_drop-take a b xs)

  pub drop_of_length_le : (n : ℕ) (xs : List A) → length xs ≤ n → drop n xs ≡ []
  drop_of_length_le zero [] h = refl
  drop_of_length_le zero (x ∷ xs) h = absurd (omega arith)
  drop_of_length_le (suc n) [] h = refl
  drop_of_length_le (suc n) (x ∷ xs) h = drop_of_length_le n xs (omega arith)

  -- The second of two writes at one position counts.
  pub set-set : (xs : List A) (i : ℕ) (v w : A) → set (set xs i v) i w ≡ set xs i w
  set-set [] i v w = refl
  set-set (x ∷ xs) zero v w = refl
  set-set (x ∷ xs) (suc i) v w = ap (◌∷◌ x) (set-set xs i v w)

  pub drop-nil : (n : ℕ) → drop {A = A} n [] ≡ []
  drop-nil zero = refl
  drop-nil (suc n) = refl

  pub drop-drop : (a b : ℕ) (xs : List A) → drop b (drop a xs) ≡ drop (a + b) xs
  drop-drop zero b xs = let e : 0 + b ≡ b = omega arith in ap (λ k. drop k xs) (sym e)
  drop-drop (suc a) b [] = drop-nil b ∙ sym (drop-nil (suc a + b))
  drop-drop (suc a) b (x ∷ xs) =
      let e : suc a + b ≡ suc (a + b) = omega arith in
      drop-drop a b xs ∙ ap (λ k. drop k (x ∷ xs)) (sym e)

  pub get_elem?-append :
      (xs ys : List A) (i : ℕ) → i < length xs → get_elem? (xs ++ ys) i ≡ get_elem? xs i
  get_elem?-append [] ys i h = elim h [ ]
  get_elem?-append (x ∷ xs) ys zero h = refl
  get_elem?-append (x ∷ xs) ys (suc i) h = get_elem?-append xs ys i (omega arith)

abbrev pub is_empty {ℓ} : {A : Type ℓ} → List A → Bool
is_empty [] = true
is_empty (x ∷ xs) = false

module _ {ℓ} {A : Type ℓ} where
  -- A copy over the whole of a region.
  pub write_at_of_length : (src dst : List A) → length src ≡ length dst → write_at 0 src dst ≡ src
  write_at_of_length [] [] h = refl
  write_at_of_length [] (d ∷ dst) h = absurd (omega (arith, h))
  write_at_of_length (x ∷ src) [] h = absurd (omega (arith, h))
  write_at_of_length (x ∷ src) (d ∷ dst) h =
      ap (◌∷◌ x) (write_at_of_length src dst (omega (arith, h)))

  pub write_at-nil : (o : ℕ) (dst : List A) → write_at o [] dst ≡ dst
  write_at-nil zero dst = refl
  write_at-nil (suc o) [] = refl
  write_at-nil (suc o) (d ∷ dst) = ap (◌∷◌ d) (write_at-nil o dst)

  -- One element after the other.
  pub write_at-set :
      (o : ℕ) (v : A) (src dst : List A)
      → write_at (suc o) src (set dst o v) ≡ write_at o (v ∷ src) dst
  write_at-set zero v src [] = refl
  write_at-set zero v src (d ∷ dst) = refl
  write_at-set (suc o) v src [] = refl
  write_at-set (suc o) v src (d ∷ dst) = ap (◌∷◌ d) (write_at-set o v src dst)

  pub set-write_at :
      (src dst : List A) (v : A)
      → length src < length dst
      → set (write_at 0 src dst) (length src) v ≡ write_at 0 (src ++ (v ∷ [])) dst
  set-write_at [] [] v h = absurd (omega arith)
  set-write_at [] (d ∷ dst) v h = refl
  set-write_at (x ∷ src) [] v h = absurd (omega arith)
  set-write_at (x ∷ src) (d ∷ dst) v h = ap (◌∷◌ x) (set-write_at src dst v (omega arith))

pub All-append-one {ℓ κ} :
    {A : Type ℓ} (P : A → Type κ) (xs : List A) (y : A) → All P xs → P y → All P (xs ++ (y ∷ []))
All-append-one P [] y a b = (b, tt)
All-append-one P (x ∷ xs) y a b = (a.0, All-append-one P xs y a.1 b)

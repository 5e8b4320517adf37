-- ===== src/Prelude/Lists.antt =====
-- Lists over the native numbers, and the loops that Go's `slices` package runs over a slice.
use Prim.Native.Nat.{ℕ, zero, suc, ◌+◌}
use mathlib.Core.Path.{◌≡◌, refl, sym, ◌∙◌}
use mathlib.Core.Logic.{◌↔◌, ◌⊎◌, inl, inr}
use mathlib.Core.Bool.{Bool, true, false, ◌||◌, false≢true}
use mathlib.Core.Option.{Option, none, some}
use mathlib.Core.List.{List, [], ◌∷◌, ◌++◌}
use native.Mathlib.Omega.{arith}

module _ {ℓ} {A : Type ℓ} where
  abbrev pub length : List A → ℕ
  length [] = 0
  length (x ∷ xs) = suc (length xs)

  -- slices.ContainsFunc
  abbrev pub contains_func : (A → Bool) → List A → Bool
  contains_func p [] = false
  contains_func p (x ∷ xs) = p x || contains_func p xs

  -- `xs[i]` with a test that `i` is in range before it.
  abbrev pub get_elem? : List A → ℕ → Option A
  get_elem? [] i = none
  get_elem? (x ∷ xs) zero = some x
  get_elem? (x ∷ xs) (suc i) = get_elem? xs i

  -- `xs[i] = v`; a write out of range changes nothing.
  abbrev pub set : List A → ℕ → A → List A
  set [] i v = []
  set (x ∷ xs) zero v = v ∷ xs
  set (x ∷ xs) (suc i) v = x ∷ set xs i v

  pub length-append : (xs ys : List A) → length (xs ++ ys) ≡ length xs + length ys
  length-append [] ys = omega arith
  length-append (x ∷ xs) ys = omega (arith, length-append xs ys)

  pub length-set : (xs : List A) (i : ℕ) (v : A) → length (set xs i v) ≡ length xs
  length-set [] i v = refl
  length-set (x ∷ xs) zero v = refl
  length-set (x ∷ xs) (suc i) v = omega (arith, length-set xs i v)

  abbrev pub All {κ} : (A → Type κ) → List A → Type κ
  All P [] = Unit
  All P (x ∷ xs) = P x × All P xs

module _ {A : Type 0} where
  -- `x` is an element of the list.
  abbrev pub In : A → List A → Type 0
  In x [] = ⊥
  In x (y ∷ ys) = (x ≡ y) ⊎ In x ys

  pub contains_func-none :
      (p : A → Bool) (xs : List A) → contains_func p xs ≡ false → (x : A) → In x xs → p x ≡ false
  contains_func-none p [] h x m = absurd m
  contains_func-none p (y ∷ ys) h x (inl e) = rw e (ground arith)
  contains_func-none p (y ∷ ys) h x (inr m) = contains_func-none p ys (ground arith) x m

  pub contains_func-find :
      (p : A → Bool) (xs : List A) → contains_func p xs ≡ true → (x : A) × In x xs × (p x ≡ true)
  contains_func-find p [] h = absurd (false≢true h)
  contains_func-find p (y ∷ ys) h = go (p y) refl (contains_func-find p ys)
    where
      go :
          (b : Bool)
          → p y ≡ b
          → (contains_func p ys ≡ true → (x : A) × In x ys × (p x ≡ true))
          → (x : A) × In x (y ∷ ys) × (p x ≡ true)
      go true e rest = (y, inl refl, e)
      go false e rest = let (x, m, q) = rest (rw e at h) in (x, inr m, q)

  -- No element passes the test exactly when `contains_func` finds none.
  pub contains_func_iff :
      (p : A → Bool) (xs : List A)
      → (contains_func p xs ≡ false) ↔ ((x : A) → In x xs → p x ≡ false)
  contains_func_iff p xs = (contains_func-none p xs, back (contains_func p xs) refl)
    where
      back :
          (b : Bool)
          → contains_func p xs ≡ b
          → ((x : A) → In x xs → p x ≡ false)
          → contains_func p xs ≡ false
      back false e h = e
      back true e h =
          let (x, m, q) = contains_func-find p xs e in absurd (false≢true (sym (h x m) ∙ q))

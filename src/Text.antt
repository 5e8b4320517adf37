-- ===== src/Text.antt =====
-- Go strings as lists of code points, with the functions of `strings`, `strconv` and `slices` that
-- the sources call. The ids, labels and keys of the program are ASCII.
pub mod Split
pub mod Decimal
pub mod Escape
pub mod Regex
use Prim.Native.Char.{code}
use Prim.Native.String
use mathlib.Core.Bool.{false≢true}
use forge_wingman.Prelude.{
  ℕ, ◌+◌, ◌-◌, ◌≡◌, refl, ap, sym, ◌∙◌, ◌↔◌, Bool, true, false, ◌&&◌, String, List, [], ◌∷◌, map,
  arith, ◌==◌, ==_iff, leb, if◌then◌else◌, contains_func, In, Bool-cases, inl, inr,
}

abbrev pub Text : Type 0
Text = List ℕ

abbrev pub codes : String → Text
codes String.[] = []
codes (String.◌∷◌ c s) = code c ∷ codes s

-- a == b
unfoldable pub text_eq : Text → Text → Bool
text_eq [] [] = true
text_eq (a ∷ s) (b ∷ t) = a == b && text_eq s t
text_eq _ _ = false

text_eq_sound : (s t : Text) → text_eq s t ≡ true → s ≡ t
unfolding text_eq
text_eq_sound [] [] h = refl
text_eq_sound (a ∷ s) (b ∷ t) h = ground (arith, text_eq_sound s t)
text_eq_sound [] (b ∷ t) h = ground arith
text_eq_sound (a ∷ s) [] h = ground arith

pub text_eq_self : (s : Text) → text_eq s s ≡ true
unfolding text_eq
text_eq_self [] = refl
text_eq_self (a ∷ s) = ground (arith, text_eq_self s)

pub text_eq_iff : (s t : Text) → (text_eq s t ≡ true) ↔ (s ≡ t)
text_eq_iff s t = (text_eq_sound s t, λ e. rw (← e) (text_eq_self s))

-- s == ""
abbrev pub is_empty : Text → Bool
is_empty [] = true
is_empty (c ∷ s) = false

-- slices.Equal
unfoldable pub texts_eq : List Text → List Text → Bool
unfolding text_eq
texts_eq [] [] = true
texts_eq (s ∷ ss) (t ∷ ts) = text_eq s t && texts_eq ss ts
texts_eq _ _ = false

-- unicode.ToLower on ASCII
unfoldable pub lower_code : ℕ → ℕ
lower_code c = if leb b'A' c && leb c b'Z' then c + 32 else c

-- strings.EqualFold
unfoldable pub equal_fold : Text → Text → Bool
unfolding lower_code text_eq
equal_fold s t = text_eq (map lower_code s) (map lower_code t)

pub equal_fold_self : (s : Text) → equal_fold s s ≡ true
unfolding equal_fold
equal_fold_self s = text_eq_self (map lower_code s)

-- slices.Contains
unfoldable pub contains : List Text → Text → Bool
unfolding text_eq
contains xs s = contains_func (text_eq s) xs

contains_sound : (xs : List Text) (s : Text) → contains xs s ≡ true → In s xs
unfolding contains
contains_sound [] s h = absurd (false≢true h)
contains_sound (x ∷ xs) s h = go (text_eq s x) refl (contains_sound xs s)
  where
    go :
        (b : Bool)
        → text_eq s x ≡ b
        → (contains_func (text_eq s) xs ≡ true → In s xs)
        → In s (x ∷ xs)
    go true e rest = inl (text_eq_sound s x e)
    go false e rest = inr (rest (rw e at h))

contains_complete : (xs : List Text) (s : Text) → In s xs → contains xs s ≡ true
unfolding contains
contains_complete [] s m = absurd m
contains_complete (x ∷ xs) s (inl e) = ground (arith, text_eq_iff s x)
contains_complete (x ∷ xs) s (inr m) = ground (arith, contains_complete xs s m)

pub contains_iff : (xs : List Text) (s : Text) → (contains xs s ≡ true) ↔ In s xs
contains_iff xs s = (contains_sound xs s, contains_complete xs s)

pub not-contains_iff : (xs : List Text) (s : Text) → (contains xs s ≡ false) ↔ (¬ In s xs)
not-contains_iff xs s =
    ((λ h m. false≢true (sym h ∙ contains_complete xs s m)), go (contains xs s) refl)
  where
    go : (b : Bool) → contains xs s ≡ b → ¬ In s xs → contains xs s ≡ false
    go false e n = e
    go true e n = absurd (n (contains_sound xs s e))

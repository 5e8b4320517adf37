-- ===== src/Text/Decimal.antt =====
-- strconv.Itoa of a number that is not negative.
use mathlib.Core.List.{foldl, foldl-append}
use forge_wingman.Prelude.{
  ℕ, zero, suc, ◌+◌, ◌-◌, ◌*◌, ◌/◌, ◌%◌, ◌<◌, ◌≡◌, ◌≢◌, refl, ap, ◌∙◌, sym, [], ◌∷◌, ◌++◌, arith,
  ltb, if◌then◌else◌, All, Bool-cases, inl, inr,
}
use forge_wingman.Text.{Text, codes}
use forge_wingman.Text.Split.{Lacks}

-- The digits of `n`, most significant first; the fuel is more than their number.
digits : ℕ → ℕ → Text
digits zero n = []
digits (suc f) n =
    let rest = digits f (n / 10) ++ (b'0' + n % 10) ∷ [] in
    if ltb n 10 then (b'0' + n) ∷ [] else rest

unfoldable pub itoa : ℕ → Text
unfolding digits
itoa n = digits (suc n) n

-- The number that a text of digits stands for.
abbrev add_digit : ℕ → ℕ → ℕ
add_digit n c = n * 10 + (c - b'0')

value : Text → ℕ
value s = foldl add_digit 0 s

value-digits : (f n : ℕ) → n < f → value (digits f n) ≡ n
unfolding digits value
value-digits zero n h = absurd (omega arith)
value-digits (suc f) n h = elim (Bool-cases (ltb n 10)) [
  | inl small ↦ rw small (omega arith)
  | inr big ↦ rw big (rw foldl-append (rw (value-digits f (n / 10) (ground arith)) (omega arith)))
]

-- Two numbers with the same decimal digits are the same number.
pub itoa-injective : (m n : ℕ) → itoa m ≡ itoa n → m ≡ n
unfolding itoa
itoa-injective m n e =
    sym (value-digits (suc m) m (omega arith)) ∙ ap value e ∙ value-digits (suc n) n (omega arith)

All-append : (P : ℕ → Type 0) (s t : Text) → All P s → All P t → All P (s ++ t)
All-append P [] t hs ht = ht
All-append P (c ∷ s) t hs ht = (hs.0, All-append P s t hs.1 ht)

digits-Lacks : (h : ℕ) (f n : ℕ) → h < b'0' → Lacks h (digits f n)
unfolding digits
digits-Lacks h zero n low = tt
digits-Lacks h (suc f) n low = elim (Bool-cases (ltb n 10)) [
  | inl small ↦ rw small ((λ e. omega arith), tt)
  | inr big ↦ rw big (
      All-append (λ c. c ≢ h) (digits f (n / 10)) ((b'0' + n % 10) ∷ [])
        (digits-Lacks h f (n / 10) low) ((λ e. omega arith), tt))
]

-- A decimal holds no character below the digits.
pub itoa-Lacks : (h n : ℕ) → h < b'0' → Lacks h (itoa n)
unfolding itoa
itoa-Lacks h n low = digits-Lacks h (suc n) n low

itoa_small : itoa 7 ≡ codes "7"
unfolding itoa
itoa_small = refl

itoa_large : itoa 1903 ≡ codes "1903"
unfolding itoa
itoa_large = refl

-- ===== src/Text/Split.antt =====
-- strings.Cut and strings.CutSuffix, and what they find in a text whose first part lacks the
-- first character of what is looked for.
use forge_wingman.Prelude.{
  ℕ, ◌≡◌, ◌≢◌, refl, Bool, true, false, Option, none, some, List, [], ◌∷◌, ◌++◌, arith, ◌==◌, ◌&&◌,
  if◌then◌else◌, All,
}
use forge_wingman.Text.{Text, text_eq}

-- strings.HasPrefix(s, prefix)
abbrev pub starts_with : Text → Text → Bool
starts_with [] s = true
starts_with (p ∷ ps) [] = false
starts_with (p ∷ ps) (c ∷ s) = p == c && starts_with ps s

-- before, _, _ := strings.Cut(s, sep): what stands before the first `sep`, all of `s` if none does.
unfoldable pub before : Text → Text → Text
before sep [] = []
before sep (c ∷ s) = if starts_with sep (c ∷ s) then [] else c ∷ before sep s

-- s, _ := strings.CutSuffix(s, suffix), for a suffix that is not empty.
unfoldable pub cut_suffix : Text → Text → Text
unfolding text_eq
cut_suffix suffix [] = []
cut_suffix suffix (c ∷ s) = if text_eq (c ∷ s) suffix then [] else c ∷ cut_suffix suffix s

-- No character of the text is `h`.
abbrev pub Lacks : ℕ → Text → Type 0
Lacks h = All (λ c. c ≢ h)

pub before-append :
    (h : ℕ) (sep : Text) (s t : Text)
    → Lacks h s
    → starts_with (h ∷ sep) t ≡ true
    → before (h ∷ sep) (s ++ t) ≡ s
unfolding before
before-append h sep [] [] n e = refl
before-append h sep [] (d ∷ t) n e = ground arith
before-append h sep (c ∷ s) t n e = ground (arith, n.0, before-append h sep s t n.1)

pub before_none : (h : ℕ) (sep s : Text) → Lacks h s → before (h ∷ sep) s ≡ s
unfolding before
before_none h sep [] n = refl
before_none h sep (c ∷ s) n = ground (arith, n.0, before_none h sep s n.1)

-- A suffix is looked for at every position; one that starts with `h` is at none of `s`.
pub cut_suffix-append :
    (h : ℕ) (suffix s t : Text)
    → Lacks h s
    → cut_suffix (h ∷ suffix) (s ++ t) ≡ s ++ cut_suffix (h ∷ suffix) t
unfolding cut_suffix
cut_suffix-append h suffix [] t n = refl
cut_suffix-append h suffix (c ∷ s) t n = ground (arith, n.0, cut_suffix-append h suffix s t n.1)

-- Two texts that lack `h` and are each followed by an `h`, or by nothing, agree before it if the
-- whole texts agree.
pub Lacks-split :
    (h : ℕ) (s s' t t' : Text)
    → Lacks h s
    → Lacks h s'
    → s ++ (h ∷ t) ≡ s' ++ (h ∷ t')
    → (s ≡ s') × (t ≡ t')
Lacks-split h [] [] t t' n n' e = ground arith
Lacks-split h [] (c ∷ s') t t' n n' e = ground (arith, n'.0)
Lacks-split h (c ∷ s) [] t t' n n' e = ground (arith, n.0)
Lacks-split h (c ∷ s) (c' ∷ s') t t' n n' e = ground (arith, Lacks-split h s s' t t' n.1 n'.1)

pub Lacks-end : (h : ℕ) (s s' t : Text) → Lacks h s → Lacks h s' → s ≡ s' ++ (h ∷ t) → ⊥
Lacks-end h [] [] t n n' e = ground arith
Lacks-end h [] (c ∷ s') t n n' e = ground arith
Lacks-end h (c ∷ s) [] t n n' e = ground (arith, n.0)
Lacks-end h (c ∷ s) (c' ∷ s') t n n' e = Lacks-end h s s' t n.1 n'.1 (ground arith)

-- The character ahead of the first part.
abbrev ahead : ℕ → List Text → List Text
ahead c [] = (c ∷ []) ∷ []
ahead c (s ∷ ss) = (c ∷ s) ∷ ss

-- strings.Split(s, sep), for a separator of one character
unfoldable pub split : ℕ → Text → List Text
split sep [] = [] ∷ []
split sep (c ∷ s) = let rest = split sep s in if c == sep then [] ∷ rest else ahead c rest

-- value, ok := strings.CutPrefix(s, prefix)
unfoldable pub cut_prefix : Text → Text → Option Text
cut_prefix [] s = some s
cut_prefix (p ∷ ps) [] = none
cut_prefix (p ∷ ps) (c ∷ s) = let rest = cut_prefix ps s in if p == c then rest else none

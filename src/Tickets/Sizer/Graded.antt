-- ===== src/Tickets/Sizer/Graded.antt =====
-- The sizer's answer for the criteria that it counts: how it grows with them and with the doubts, and what gives the
-- smallest size.
use mathlib.Core.Option.{none-ne-some}
use forge_wingman.Prelude.{
  ℕ, ◌≤◌, ◌<◌, ◌≡◌, ◌≢◌, ◌↔◌, inl, inr, refl, sym, ap, ◌∙◌, false, Option, none, some, [], ◌∷◌,
  arith, ltb, ◌==◌, Bool-cases, Option-cases, length, if◌then◌else◌,
}
use forge_wingman.Text.{Text, codes}
use forge_wingman.Text.Split.{split}
use forge_wingman.Text.Regex.{count_matches}
use forge_wingman.Tickets.Signals.{ac_item}
use forge_wingman.Tickets.Sizer.{
  small_acs, max_acs, criteria_of, graded, Doubts, doubts_of, count_doubts, size_by, signal_size,
}

-- The rank of a size, by its letter.
abbrev pub rank : Text → ℕ
rank [] = 0
rank (c ∷ s) = if c == b'S' then 1 else if c == b'M' then 2 else if c == b'L' then 3 else 4

abbrev pub size_of : Text → Text → Text
size_of title body = (signal_size title body).0

graded-monotone : (n n' d d' : ℕ) → n ≤ n' → d ≤ d' → rank (graded n d) ≤ rank (graded n' d')
unfolding graded
graded-monotone n n' d d' h k = ground arith

rank_graded : (n d : ℕ) → rank (graded n d) ≤ 3
unfolding graded
rank_graded n d = ground arith

sized : ℕ → ℕ → Text
unfolding graded
sized n d = if n == 0 then codes "L" else if ltb max_acs n then codes "XL" else graded n d

size_by-sized :
    (title criteria : Text)
    → (size_by title (some criteria)).0
      ≡ sized (count_matches none ac_item criteria) (count_doubts (doubts_of title criteria))
unfolding size_by sized
size_by-sized title criteria = elim (Bool-cases (count_matches none ac_item criteria == 0)) [
  | inl zero ↦ rw (zero, size_by, sized) refl
  | inr more ↦ elim (Bool-cases (ltb max_acs (count_matches none ac_item criteria))) [
    | inl over ↦ rw (more, over, size_by, sized) refl
    | inr under ↦ rw (more, under, size_by, sized) refl
  ]
]

sized-monotone : (n n' d d' : ℕ) → 0 < n → n ≤ n' → d ≤ d' → rank (sized n d) ≤ rank (sized n' d')
unfolding sized
sized-monotone n n' d d' pos h k = ground (arith, graded-monotone n n' d d' h k, rank_graded n d)

-- What the sizer reads of a ticket: how many criteria it counts, and how many doubts.
abbrev pub count_of : Text → ℕ
count_of criteria = count_matches none ac_item criteria

size_of-sized :
    (title body criteria : Text)
    → criteria_of (split b'\n' body) ≡ some criteria
    → size_of title body ≡ sized (count_of criteria) (count_doubts (doubts_of title criteria))
unfolding signal_size
size_of-sized title body criteria e =
    ap (λ (o : Option Text). (size_by title o).0) e ∙ size_by-sized title criteria

-- Of two tickets whose descriptions both have an acceptance-criteria section, in the first of which the sizer counts
-- at least one criterion, the one with no fewer criteria and no fewer doubts is given no smaller a size.
pub signal_size-monotone :
    (title title' body body' criteria criteria' : Text)
    → criteria_of (split b'\n' body) ≡ some criteria
    → criteria_of (split b'\n' body') ≡ some criteria'
    → 0 < count_of criteria
    → count_of criteria ≤ count_of criteria'
    → count_doubts (doubts_of title criteria) ≤ count_doubts (doubts_of title' criteria')
    → rank (size_of title body) ≤ rank (size_of title' body')
signal_size-monotone title title' body body' criteria criteria' e e' pos more doubt = omega (
  arith,
  ap rank (size_of-sized title body criteria e),
  ap rank (size_of-sized title' body' criteria' e'),
  sized-monotone (count_of criteria) (count_of criteria') (count_doubts (doubts_of title criteria))
      (count_doubts (doubts_of title' criteria')) pos more doubt,
)

-- What keeps a ticket with these criteria at the smallest size.
pub record IsSmall (title criteria : Text) : Type 0 where
  pub counted : 0 < count_of criteria
  pub few : count_of criteria ≤ small_acs
  pub one_lane : (doubts_of title criteria).laneless ≡ false
  pub no_risk : length (doubts_of title criteria).risks ≡ 0
  pub one_module : length (doubts_of title criteria).modules < 2

graded_small : (n d : ℕ) → (sized n d ≡ codes "S") ↔ ((0 < n) × (n ≤ small_acs) × (d ≡ 0))
unfolding sized graded
graded_small n d = ground arith

no_doubts :
    (d : Doubts)
    → (count_doubts d ≡ 0) ↔ ((d.laneless ≡ false) × (length d.risks ≡ 0) × (length d.modules < 2))
unfolding count_doubts
no_doubts d = ground arith

IsSmall-iff :
    (title criteria : Text)
    → (sized (count_of criteria) (count_doubts (doubts_of title criteria)) ≡ codes "S")
      ↔ IsSmall title criteria
IsSmall-iff title criteria =
    let n = count_of criteria in
    let d = doubts_of title criteria in
    (
      λ h.
          let (pos, few, none_of) = (graded_small n (count_doubts d)).0 h in
          let (lane, risks, modules) = (no_doubts d).0 none_of in
          record {
            counted = pos;
            few = few;
            one_lane = lane;
            no_risk = risks;
            one_module = modules;
          },
      λ s.
          (graded_small n (count_doubts d)).1
            (s.counted, s.few, (no_doubts d).1 (s.one_lane, s.no_risk, s.one_module)),
    )

-- The sizer gives a ticket size S exactly when its description has an acceptance-criteria section that it
-- counts one to four criteria in, its title names one layer, and neither names a risk, nor do its criteria
-- name two modules.
pub signal_size-IsSmall_iff :
    (title body : Text)
    → (size_of title body ≡ codes "S") ↔ (
        (criteria : Text) × (criteria_of (split b'\n' body) ≡ some criteria)
        × IsSmall title criteria)
unfolding signal_size size_by
signal_size-IsSmall_iff title body = elim (Option-cases (criteria_of (split b'\n' body))) [
  | inl missing ↦ (
    (λ h.
        absurd (large_ne_small (sym (ap (λ (o : Option Text). (size_by title o).0) missing) ∙ h))),
    (λ (criteria, found, small). absurd (none-ne-some criteria (sym missing ∙ found))),
  )
  | inr (criteria, found) ↦ (
    (λ h. (
      criteria,
      found,
      (IsSmall-iff title criteria).0 (sym (size_of-sized title body criteria found) ∙ h),
    )),
    (λ (criteria', found', small).
        size_of-sized title body criteria' found' ∙ (IsSmall-iff title criteria').1 small),
  )
]
  where
    large_ne_small : codes "L" ≢ codes "S"
    large_ne_small e = ground arith

-- ===== src/Providers/Peak/Spans.antt =====
-- The walk over whole hours finds exactly the spans that touch a peak.
use mathlib.Core.Bool.{false≢true}
use forge_wingman.Prelude.{
  ℕ, zero, suc, ◌+◌, ◌-◌, ◌*◌, ◌/◌, ◌%◌, ◌≤◌, ◌<◌, ◌≡◌, ◌⊎◌, ◌↔◌, inl, inr, refl, sym, ap, ◌∙◌,
  true, false, arith, ltb, ltb→lt, Bool-cases,
}
use forge_wingman.Time.{Time, is_zero}
use forge_wingman.Int64.{Int64, NonNegative}
use forge_wingman.Providers.Peak.{Peak, hour, covers, forward, spans_from, rounds, spans}

-- What a peak covers depends on the whole hour alone.
covers-hour : (p : Peak) (s t : Time) → s / hour ≡ t / hour → covers p s ≡ covers p t
unfolding covers
covers-hour p s t e = let day : s / (24 * hour) ≡ t / (24 * hour) = omega arith in rw (e, day) refl

-- An hour of the walk that is covered.
abbrev IsTouched : Peak → Time → Time → ℕ → Type 0
IsTouched p at end k = (at + k * hour ≤ end) × (covers p (at + k * hour) ≡ true)

spans_from_complete :
    (fuel : ℕ) (p : Peak) (at end : Time) (k : ℕ)
    → k < fuel
    → IsTouched p at end k
    → spans_from fuel p at end ≡ true
unfolding spans_from
spans_from_complete zero p at end k h t = elim h [ ]
spans_from_complete (suc fuel) p at end zero h t =
    let e : at + 0 * hour ≡ at = omega arith in
    let c : covers p at ≡ true = ap (covers p) (sym e) ∙ t.1 in ground arith
spans_from_complete (suc fuel) p at end (suc k) h t =
    let e : at + hour + k * hour ≡ at + suc k * hour = omega arith in
    let rest : spans_from fuel p (at + hour) end ≡ true =
      spans_from_complete fuel p (at + hour) end k (omega arith)
        (omega (arith, e, t.0), ap (covers p) e ∙ t.1) in
    let within : at ≤ end = omega (arith, t.0) in ground arith

spans_from_sound :
    (fuel : ℕ) (p : Peak) (at end : Time)
    → spans_from fuel p at end ≡ true
    → (k : ℕ) × IsTouched p at end k
unfolding spans_from
spans_from_sound zero p at end h = absurd (false≢true h)
spans_from_sound (suc fuel) p at end h = elim (Bool-cases (covers p at)) [
  | inl c ↦ (0, (ground arith, ap (covers p) (omega arith) ∙ c))
  | inr n ↦
      let (k, (within, c)) = spans_from_sound fuel p (at + hour) end (ground arith) in
      let e : at + hour + k * hour ≡ at + suc k * hour = omega arith in
      (suc k, (omega (arith, e, within), ap (covers p) (sym e) ∙ c))
]

-- Some moment of the span from `from` to `end` is a peak moment.
abbrev pub Touches : Peak → Time → Time → Type 0
Touches p from end = (t : Time) × (from ≤ t) × (t ≤ end) × (covers p t ≡ true)

abbrev first_hour : Time → Time
first_hour from = from - from % hour

spans_known :
    (p : Peak) (from : Time) (d : Int64)
    → NonNegative d
    → is_zero from ≡ false
    → spans p from d
      ≡ spans_from (rounds (first_hour from) (from + d)) p (first_hour from) (from + d)
unfolding spans forward
spans_known p from d pos known = ground arith

IsTouched-Touches :
    (p : Peak) (from end : Time) (k : ℕ)
    → from ≤ end
    → IsTouched p (first_hour from) end k
    → Touches p from end
IsTouched-Touches p from end k order (within, c) =
    elim (Bool-cases (ltb (first_hour from + k * hour) from)) [
      | inl before ↦
          let early : first_hour from + k * hour < from = ltb→lt _ _ before in
          (
            from,
            omega arith,
            order,
            covers-hour p from (first_hour from + k * hour) (omega (arith, early)) ∙ c,
          )
      | inr after ↦ (first_hour from + k * hour, ground arith, within, c)
    ]

Touches-IsTouched :
    (p : Peak) (from end : Time)
    → Touches p from end
    → (k : ℕ) × (k < rounds (first_hour from) end) × IsTouched p (first_hour from) end k
unfolding rounds
Touches-IsTouched p from end (t, late, early, c) =
    let k : ℕ = (t - first_hour from) / hour in
    (
      k,
      omega (arith, late, early),
      (
        omega (arith, late, early),
        covers-hour p (first_hour from + k * hour) t (omega (arith, late, early)) ∙ c,
      ),
    )

-- A run's span is found to touch the peak exactly when some moment of it, its last one included, is a
-- peak moment, or its start is not known. Its length is not negative.
pub spans_iff :
    (p : Peak) (from : Time) (d : Int64)
    → NonNegative d
    → (spans p from d ≡ true) ↔ ((is_zero from ≡ true) ⊎ Touches p from (from + d))
unfolding spans
spans_iff p from d pos = elim (Bool-cases (is_zero from)) [
  | inl unknown ↦ ((λ h. inl unknown), (λ h. rw (unknown, spans) refl))
  | inr known ↦ (
    (λ h.
        let (k, t) =
          spans_from_sound _ p (first_hour from) (from + d)
            (sym (spans_known p from d pos known) ∙ h) in
        inr (IsTouched-Touches p from (from + d) k (omega arith) t)),
    (λ h. elim h [
      | inl unknown ↦ absurd (false≢true (sym known ∙ unknown))
      | inr t ↦
          let (k, below, touched) = Touches-IsTouched p from (from + d) t in
          spans_known p from d pos known
          ∙ spans_from_complete _ p (first_hour from) (from + d) k below touched
    ]),
  )
]

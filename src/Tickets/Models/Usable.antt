-- ===== src/Tickets/Models/Usable.antt =====
-- The plans of a ticket's models, one after another.
use mathlib.Core.Bool.{false≢true}
use mathlib.Core.Option.{none-ne-some, some-injective}
use mathlib.Core.Path.{subst}
use forge_wingman.Prelude.{
  ◌≡◌, ◌⊎◌, ◌↔◌, refl, sym, ap, ◌∙◌, inl, inr, Bool, true, false, not, ◌&&◌, ◌||◌, Option, none,
  some, List, [], ◌∷◌, In, arith, Option-cases, Bool-cases,
}
use forge_wingman.Text.{Text, is_empty, contains, contains_iff, not-contains_iff}
use forge_wingman.Runner.{provider}
use forge_wingman.Tickets.{Checked, passed, refused}
use forge_wingman.Tickets.Models.{
  PlanRecord, PlanReads, configured, is_per_token, plan_allows, plan_refusal, check_plans,
}

-- The owner's record of the provider's plan was read, tells its billing, and has the owner's consent to a
-- billing by tokens.
pub record IsUsable (plans : PlanReads) (p : Text) : Type 0 where
  pub plan : PlanRecord
  pub read : plans p ≡ some (some plan)
  pub billed : configured plan.billing ≡ true
  pub consented : is_per_token plan.billing && not plan.opted_in ≡ false

unfoldable pub is_passed : Option (Checked Unit) → Bool
is_passed none = false
is_passed (some (refused why detail)) = false
is_passed (some (passed u)) = true

allows_iff :
    (p : Text) (plan : PlanRecord)
    → (is_passed (some (plan_allows p plan)) ≡ true) ↔ (
        (configured plan.billing ≡ true) × (is_per_token plan.billing && not plan.opted_in ≡ false))
unfolding plan_allows is_passed
allows_iff p plan = elim (Bool-cases (configured plan.billing)) [
  | inr unset ↦
      rw (unset, plan_allows) ((λ h. absurd (false≢true h)), (λ h. absurd (false≢true h.0)))
  | inl set ↦ elim (Bool-cases (is_per_token plan.billing && not plan.opted_in)) [
    | inl closed ↦
        rw (set, closed, plan_allows)
          ((λ h. absurd (false≢true h)), (λ h. absurd (false≢true (sym h.1))))
    | inr open_plan ↦ rw (set, open_plan, plan_allows) ((λ h. (refl, refl)), (λ h. refl))
  ]
]

refusal_iff :
    (plans : PlanReads) (p : Text) → (is_passed (plan_refusal plans p) ≡ true) ↔ IsUsable plans p
unfolding plan_refusal is_passed
refusal_iff plans p = elim (Option-cases (plans p)) [
  | inl unread ↦
      rw (unread, plan_refusal)
        ((λ h. absurd (false≢true h)), (λ u. absurd (none-ne-some _ (sym unread ∙ u.read))))
  | inr (found, was_read) ↦ elim (Option-cases found) [
    | inl missing ↦
        let e : plans p ≡ some none = was_read ∙ ap some missing in
        rw (e, plan_refusal)
          (
            (λ h. absurd (false≢true h)),
            (λ u. absurd (none-ne-some _ (some-injective _ _ (sym e ∙ u.read)))),
          )
    | inr (plan, present) ↦
        let e : plans p ≡ some (some plan) = was_read ∙ ap some present in
        (
          (λ h.
              let a = (allows_iff p plan).0 (rw (e, plan_refusal) at h) in
              record { plan = plan; read = e; billed = a.0; consented = a.1 }),
          (λ u.
              let same : plan ≡ u.plan = some-injective _ _ (some-injective _ _ (sym e ∙ u.read)) in
              rw (e, plan_refusal)
                ((allows_iff p plan).1 (
                  subst
                    (λ (q : PlanRecord).
                      (configured q.billing ≡ true)
                      × (is_per_token q.billing && not q.opted_in ≡ false))
                    (sym same) (u.billed, u.consented)))),
        )
  ]
]

unfoldable pub AllPlans : PlanReads → List Text → List Text → Type 0
AllPlans plans seen models =
    (m : Text)
    → In m models
    → is_empty m ≡ false
    → In (provider m) seen ⊎ IsUsable plans (provider m)

skips : List Text → Text → Bool
skips seen m = is_empty m || contains seen (provider m)

skipped_fine :
    (plans : PlanReads) (seen : List Text) (m : Text)
    → skips seen m ≡ true
    → is_empty m ≡ false
    → In (provider m) seen ⊎ IsUsable plans (provider m)
unfolding skips
skipped_fine plans seen m h named = inl ((contains_iff seen (provider m)).0 (ground arith))

refused_or_passed : (o : Option (Checked Unit)) → (is_passed o ≡ false) ⊎ (o ≡ some (passed tt))
unfolding is_passed
refused_or_passed none = inl refl
refused_or_passed (some (refused why detail)) = inl refl
refused_or_passed (some (passed u)) = inr refl

first_refused :
    (o rest : Option (Checked Unit))
    → is_passed o ≡ false
    → is_passed (elim o [
      | none ↦ none
      | some (refused why detail) ↦ some (refused why detail)
      | some (passed u) ↦ rest
    ])
      ≡ false
unfolding is_passed
first_refused none rest h = refl
first_refused (some (refused why detail)) rest h = refl
first_refused (some (passed u)) rest h = absurd (false≢true (sym h))

kept_named :
    (seen : List Text) (m : Text)
    → skips seen m ≡ false
    → (is_empty m ≡ false) × (¬ In (provider m) seen)
unfolding skips
kept_named seen m kept = (ground arith, (not-contains_iff seen (provider m)).0 (ground arith))

IsUsable-or_seen :
    (plans : PlanReads) (seen : List Text) (p m : Text)
    → IsUsable plans p
    → In (provider m) (p ∷ seen) ⊎ IsUsable plans (provider m)
    → In (provider m) seen ⊎ IsUsable plans (provider m)
IsUsable-or_seen plans seen p m u (inl (inl e)) = inr (subst (IsUsable plans) (sym e) u)
IsUsable-or_seen plans seen p m u (inl (inr among)) = inl among
IsUsable-or_seen plans seen p m u (inr v) = inr v

pub check_plans_iff :
    (plans : PlanReads) (seen models : List Text)
    → (is_passed (check_plans plans seen models) ≡ true) ↔ AllPlans plans seen models
unfolding check_plans is_passed AllPlans skips
check_plans_iff plans seen [] = ((λ h m among. absurd among), (λ a. refl))
check_plans_iff plans seen (model ∷ models) = elim (Bool-cases (skips seen model)) [
  | inl skip ↦
      rw (skip, check_plans)
        (
          (λ h m among named. elim among [
            | inl e ↦ skipped_fine plans seen m (ap (skips seen) e ∙ skip) named
            | inr later ↦ (check_plans_iff plans seen models).0 h m later named
          ]),
          (λ a. (check_plans_iff plans seen models).1 (λ m among. a m (inr among))),
        )
  | inr kept ↦ elim (refused_or_passed (plan_refusal plans (provider model))) [
    | inl no_plan ↦
        rw (kept, check_plans)
          (
            (λ h. absurd (
                false≢true (
                  sym (
                    first_refused (plan_refusal plans (provider model))
                      (check_plans plans (provider model ∷ seen) models) no_plan)
                  ∙ h))),
            (λ a.
                let (named, unseen) = kept_named seen model kept in
                elim (a model (inl refl) named) [
                  | inl among ↦ absurd (unseen among)
                  | inr u ↦
                      absurd (false≢true (sym no_plan ∙ (refusal_iff plans (provider model)).1 u))
                ]),
          )
    | inr fine ↦
        let usable = (refusal_iff plans (provider model)).0 (ap is_passed fine) in
        let rest = check_plans_iff plans (provider model ∷ seen) models in
        rw (kept, fine, check_plans)
          (
            (λ h m among named. elim among [
              | inl e ↦ inr (subst (λ (t : Text). IsUsable plans (provider t)) (sym e) usable)
              | inr later ↦
                  IsUsable-or_seen plans seen (provider model) m usable (rest.0 h m later named)
            ]),
            (λ a. rest.1 (λ m among named. elim (a m (inr among) named) [
              | inl seen_before ↦ inl (inr seen_before)
              | inr u ↦ inr u
            ])),
          )
  ]
]

pub passed_iff : (o : Option (Checked Unit)) → (is_passed o ≡ true) ↔ (o ≡ some (passed tt))
unfolding is_passed
passed_iff o = (
  (λ h. elim (refused_or_passed o) [ inl n ↦ absurd (false≢true (sym n ∙ h)) | inr p ↦ p ]),
  ap is_passed,
)

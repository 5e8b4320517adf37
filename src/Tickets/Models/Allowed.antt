-- ===== src/Tickets/Models/Allowed.antt =====
-- What lets a ticket's models run.
use mathlib.Core.Bool.{false≢true}
use mathlib.Core.Option.{none-ne-some}
use forge_wingman.Prelude.{
  ◌≡◌, ◌↔◌, sym, ap, ◌∙◌, inl, inr, false, none, some, [], ◌∷◌, In, Option-cases, Bool-cases,
}
use forge_wingman.Text.{Text, is_empty, contains, contains_iff, not-contains_iff}
use forge_wingman.Runner.{ModelLabels, provider}
use forge_wingman.Poll.Tier.{first_of}
use forge_wingman.Tickets.{passed}
use forge_wingman.Tickets.Models.{
  malformed_model, PlanReads, check_plans, review_models, check_models,
}
use forge_wingman.Tickets.Models.Usable.{IsUsable, is_passed, AllPlans, check_plans_iff, passed_iff}

-- What a ticket's named models have to be.
pub record MayRun (plans : PlanReads) (m : ModelLabels) (default_model : Text) : Type 0 where
  pub well_formed : malformed_model m ≡ none
  pub unreviewed : ¬ In (first_of m.build default_model) (review_models m)
  pub usable :
      (model : Text)
      → In model (m.build ∷ m.review ∷ m.plan)
      → is_empty model ≡ false
      → IsUsable plans (provider model)

-- The models that a ticket names draw no refusal, with every plan record that was asked for read, exactly
-- when they are well formed, the build model is none of the review models, and the owner's plan record of
-- the provider of each was read, tells its billing, and has the owner's opt-in where it bills per token.
pub check_models_iff :
    (plans : PlanReads) (m : ModelLabels) (default_model : Text)
    → (check_models plans m default_model ≡ some (passed tt)) ↔ MayRun plans m default_model
unfolding check_models is_passed AllPlans
check_models_iff plans m default_model = elim (Option-cases (malformed_model m)) [
  | inr (detail, bad) ↦
      rw (bad, check_models)
        (
          (λ h. absurd (false≢true (ap is_passed h))),
          (λ r. absurd (none-ne-some detail (sym r.well_formed ∙ bad))),
        )
  | inl good ↦ elim (Bool-cases (contains (review_models m) (first_of m.build default_model))) [
    | inl same ↦
        rw (good, same, check_models)
          (
            (λ h. absurd (false≢true (ap is_passed h))),
            (λ r. absurd (
                r.unreviewed
                  ((contains_iff (review_models m) (first_of m.build default_model)).0 same))),
          )
    | inr apart ↦
        let plans_iff = check_plans_iff plans [] (m.build ∷ m.review ∷ m.plan) in
        let passes = passed_iff (check_plans plans [] (m.build ∷ m.review ∷ m.plan)) in
        rw (good, apart, check_models)
          (
            (λ h. record {
              well_formed = good;
              unreviewed =
                  (not-contains_iff (review_models m) (first_of m.build default_model)).0 apart;
              usable = λ model among named. elim (plans_iff.0 (passes.1 h) model among named) [
                | inl nowhere ↦ absurd nowhere
                | inr u ↦ u
              ];
            }),
            (λ r. passes.0 (plans_iff.1 (λ model among named. inr (r.usable model among named)))),
          )
  ]
]

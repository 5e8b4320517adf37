-- ===== src/Poll/Claims/Preparing.antt =====
-- What stands ahead of a claim in the walk, case by case.
use forge_wingman.Prelude.{inl, inr, Option-cases, Bool-cases}
use forge_wingman.Text.{contains}
use forge_wingman.Poll.{Candidate, Config, Estimate}
use forge_wingman.Poll.Tier.{claim_stage}
use forge_wingman.Dispatcher.Budget.{BudgetConfig}
use forge_wingman.Text.{Text}
use forge_wingman.Poll.Claims.{
  Sight, Prepared, unchecked_models, early, asking, asked_for, prepare, estimate_for, needs_opt_in,
}

pub prepare_cases {ℓ} :
    (P : Prepared → Type ℓ) (c : Config) (s : Sight) (cand : Candidate)
    → P unchecked_models
    → ((why : Text) (budget : BudgetConfig) → P (early why budget))
    → ((est : Estimate) → P (asking (asked_for c s cand (claim_stage cand c.two_stage) est)))
    → P (prepare c s cand)
unfolding prepare
prepare_cases P c s cand u e a = elim (Bool-cases (contains s.unchecked cand.run_id)) [
  | inl unchecked ↦ rw (unchecked, prepare) u
  | inr checked ↦ elim (Option-cases (estimate_for s.reads cand (claim_stage cand c.two_stage))) [
    | inl failed ↦ rw (checked, failed, prepare) (e _ _)
    | inr (est, read) ↦ elim (Bool-cases (needs_opt_in c s.reads cand)) [
      | inl closed ↦ rw (checked, read, closed, prepare) (e _ _)
      | inr consented ↦ rw (checked, read, consented, prepare) (a est)
    ]
  ]
]

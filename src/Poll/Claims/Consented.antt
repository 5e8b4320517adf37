-- ===== src/Poll/Claims/Consented.antt =====
-- The owner's consent to a free model on a private repository, before the queue is asked.
use mathlib.Core.Bool.{false≢true}
use forge_wingman.Prelude.{
  ◌≡◌, ap, ◌∙◌, inl, inr, Bool, true, false, not, some, In, arith, Option-cases, Bool-cases,
  contains_func, contains_func-none,
}
use forge_wingman.Text.{Text, contains}
use forge_wingman.Runner.{provider}
use forge_wingman.Poll.{Candidate, Config}
use forge_wingman.Poll.Tier.{claim_stage, named_free_models}
use forge_wingman.Poll.Facts.{Reads, private_opt_in}
use forge_wingman.Poll.Claims.{
  Sight, Asked, Prepared, unchecked_models, early, asking, prepare, estimate_for, needs_opt_in,
}

is_asking : Prepared → Bool
is_asking unchecked_models = false
is_asking (early why budget) = false
is_asking (asking a) = true

asking_consented :
    (c : Config) (s : Sight) (cand : Candidate)
    → is_asking (prepare c s cand) ≡ true
    → needs_opt_in c s.reads cand ≡ false
unfolding prepare is_asking
asking_consented c s cand h = elim (Bool-cases (contains s.unchecked cand.run_id)) [
  | inl unchecked ↦ absurd (false≢true (rw (unchecked, prepare) at h))
  | inr checked ↦ elim (Option-cases (estimate_for s.reads cand (claim_stage cand c.two_stage))) [
    | inl failed ↦ absurd (false≢true (rw (checked, failed, prepare) at h))
    | inr (est, read) ↦ elim (Bool-cases (needs_opt_in c s.reads cand)) [
      | inl closed ↦ absurd (false≢true (rw (checked, read, closed, prepare) at h))
      | inr consented ↦ consented
    ]
  ]
]

opted_in :
    (c : Config) (r : Reads) (cand : Candidate)
    → needs_opt_in c r cand ≡ false
    → cand.private ≡ true
    → (m : Text) → In m (named_free_models c cand)
    → private_opt_in r (provider m) ≡ true
unfolding needs_opt_in
opted_in c r cand h private m among =
    let none_closed : contains_func (λ k. not (private_opt_in r (provider k)))
          (named_free_models c cand)
        ≡ false =
      ground arith in
    let open_plan =
      contains_func-none (λ k. not (private_opt_in r (provider k))) (named_free_models c cand)
        none_closed m among in
    ground arith

-- A run of a private repository reaches the queue's claim only when the owner's opt-in for private
-- repositories was read as given for the plan of every free model that its ticket names.
pub prepare-consented :
    (c : Config) (s : Sight) (cand : Candidate) (a : Asked) (m : Text)
    → prepare c s cand ≡ asking a
    → cand.private ≡ true
    → In m (named_free_models c cand)
    → s.reads.opted_in (provider m) ≡ some true
unfolding private_opt_in is_asking
prepare-consented c s cand a m h private among =
    let read =
      opted_in c s.reads cand (asking_consented c s cand (ap is_asking h)) private m among in
    elim (Option-cases (s.reads.opted_in (provider m))) [
      | inl failed ↦ absurd (false≢true (rw (failed, private_opt_in) at read))
      | inr (b, got) ↦ got ∙ ap some (rw (got, private_opt_in) at read)
    ]

-- ===== src/Poll/Tier.antt =====
-- The stage, the plan and the model that a claim is judged on.
use forge_wingman.Prelude.{
  Bool, true, false, not, ◌||◌, Option, none, some, List, [], ◌∷◌, ◌++◌, if◌then◌else◌,
  contains_func,
}
use forge_wingman.Text.{Text, codes, text_eq, is_empty, contains}
use forge_wingman.Runner.{provider, default_model}
use forge_wingman.Dispatcher.{Stage, single, plan, build, is_build}
use forge_wingman.Dispatcher.Budget.{BudgetConfig, last_resort}
use forge_wingman.Poll.{Candidate, Config, PaidPlan}

-- claimStage
unfoldable pub claim_stage : Candidate → Bool → Stage
unfolding is_build text_eq
claim_stage cand two_stage =
    if not two_stage
    then single
    else if is_build cand.stage
    then build
    else if text_eq cand.size (codes "S")
    then single
    else plan

-- The default plan and review models of models.json.
abbrev pub default_plan_model : Text
default_plan_model = default_model

abbrev pub default_review_models : List Text
default_review_models = codes "command-code/meta/muse-spark-1.3-contributor" ∷ []

-- isFree
unfoldable pub is_free : Config → Text → Bool
unfolding contains
is_free c model = contains_func (λ models. contains models model) c.last_resort_plans

abbrev no_texts : List Text → Bool
no_texts [] = true
no_texts (s ∷ ss) = false

-- The models that the candidate's run will use.
unfoldable pub used_models : Candidate → List Text
unfolding text_eq
used_models cand =
    cand.model
      ∷ (if is_empty cand.review_model then default_review_models else cand.review_model ∷ [])
    ++ (if text_eq cand.size (codes "S")
        then []
        else if no_texts cand.plan_models
        then default_plan_model ∷ []
        else cand.plan_models)

-- namedFree
unfoldable pub named_free : Config → Candidate → Bool
unfolding is_free used_models
named_free c cand =
    if is_empty cand.model
    then false
    else not (contains_func (λ m. not (is_free c m)) (used_models cand))

free_among : Config → List Text → List Text
unfolding is_free
free_among c [] = []
free_among c (m ∷ ms) =
    let rest = free_among c ms in if is_empty m || not (is_free c m) then rest else m ∷ rest

-- namedFreeModels
unfoldable pub named_free_models : Config → Candidate → List Text
unfolding free_among
named_free_models c cand = free_among c (cand.model ∷ cand.review_model ∷ cand.plan_models)

-- claimTier
pub record ClaimTier : Type 0 where
  pub budget : BudgetConfig
  pub plan : Text
  pub model : Text

-- cmp.Or
abbrev pub first_of : Text → Text → Text
first_of s t = if is_empty s then t else s

unfoldable pub paid_tier : Candidate → List PaidPlan → Option ClaimTier
unfolding text_eq
paid_tier cand [] = none
paid_tier cand (p ∷ ps) =
    let rest = paid_tier cand ps in
    if text_eq p.plan cand.plan
    then some
        (record { budget = p.budget; plan = p.plan; model = first_of cand.model p.models.build })
    else rest

unfoldable pub default_tier : Config → Candidate → ClaimTier
unfolding provider
default_tier c cand = record {
  budget = c.budget;
  plan = provider c.model;
  model = first_of cand.model c.model;
}

-- tierOf
unfoldable pub tier_of : Config → Candidate → Stage → ClaimTier
unfolding named_free provider is_build paid_tier default_tier last_resort
tier_of c cand stage =
    if named_free c cand
    then record { budget = last_resort c.budget; plan = provider cand.model; model = cand.model }
    else if is_build stage
    then elim (paid_tier cand c.plan_budgets) [ none ↦ default_tier c cand | some t ↦ t ]
    else default_tier c cand

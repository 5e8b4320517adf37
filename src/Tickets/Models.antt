-- ===== src/Tickets/Models.antt =====
-- internal/dispatcher/models.go: the refusal that a ticket's named models draw, with ValidModel and
-- ValidatePlanModels of internal/runner/build.go. The owner's plan records are an argument.
pub mod Usable
pub mod Allowed
use forge_wingman.Prelude.{
  ℕ, ◌&&◌, ◌||◌, Bool, true, false, not, Option, none, some, List, [], ◌∷◌, ◌++◌, leb, ◌==◌,
  if◌then◌else◌, length, contains_func,
}
use forge_wingman.Text.{Text, codes, is_empty, contains, text_eq}
use forge_wingman.Runner.{ModelLabels, provider}
use forge_wingman.Runner.Ticket.{is_alphanumeric}
use forge_wingman.Text.Regex.{is_digit}
use forge_wingman.Poll.Tier.{default_review_models, first_of}
use forge_wingman.Tickets.{
  Refusal, Checked, passed, refused, model_malformed, review_is_build, model_unconfigured,
  model_not_opted_in,
}

is_lower : ℕ → Bool
is_lower c = leb b'a' c && leb c b'z' || is_digit c

-- Where modelPattern is: ahead of the provider, within it, ahead of a segment after a slash, within one.
pub data Place : Type 0 where
  start in_provider at_slash in_segment : Place

-- The place after a character, none where the pattern fails.
moved : Place → ℕ → Option Place
unfolding is_lower
moved start c = if is_lower c then some in_provider else none
moved in_provider c =
    if is_lower c || c == b'-' then some in_provider else if c == b'/' then some at_slash else none
moved at_slash c = if is_alphanumeric c then some in_segment else none
moved in_segment c =
    if is_alphanumeric c || contains_func (λ d. c == d) (codes "._:-")
    then some in_segment
    else if c == b'/'
    then some at_slash
    else none

is_last : Place → Bool
is_last in_segment = true
is_last _ = false

follows : Place → Text → Bool
unfolding moved is_last
follows p [] = is_last p
follows p (c ∷ s) = elim (moved p c) [ none ↦ false | some q ↦ follows q s ]

-- ValidModel
unfoldable pub valid_model : Text → Bool
unfolding follows
valid_model model = leb (length model) 200 && follows start model

-- The first fault of validateModelList beyond its first entries, as its error reads.
list_fault : List Text → List Text → Option Text
unfolding valid_model contains
list_fault seen [] = none
list_fault seen (m ∷ ms) =
    let rest = list_fault (m ∷ seen) ms in
    if not (valid_model m)
    then some (codes "plan model \"" ++ m ++ codes "\" is not provider/model")
    else if contains seen m
    then some (codes "plan model \"" ++ m ++ codes "\" is listed twice")
    else rest

malformed_named : Text → Bool
unfolding valid_model
malformed_named model = not (is_empty model) && not (valid_model model)

-- malformedModel; an entry of the plan list is quoted as it is
unfoldable pub malformed_model : ModelLabels → Option Text
unfolding malformed_named list_fault
malformed_model m =
    if malformed_named m.build
    then some (codes "model:" ++ m.build ++ codes " is not provider/model")
    else if malformed_named m.review
    then some (codes "review-model:" ++ m.review ++ codes " is not provider/model")
    else list_fault [] m.plan

-- What a plan record says of a provider's billing, none where no record names it.
pub data Billing : Type 0 where
  unrecorded free allowance per_token : Billing

pub record PlanRecord : Type 0 where
  pub billing : Billing
  pub opted_in : Bool

abbrev pub configured : Billing → Bool
configured unrecorded = false
configured _ = true

abbrev pub is_per_token : Billing → Bool
is_per_token per_token = true
is_per_token _ = false

-- The owner's plan record of a provider: none where it could not be read.
abbrev pub PlanReads : Type 0
PlanReads = Text → Option (Option PlanRecord)

abbrev unconfigured : Text → Checked Unit
unconfigured provider =
    refused model_unconfigured
      (codes "provider " ++ provider ++ codes " has no plan record with its billing recorded")

unfoldable pub plan_allows : Text → PlanRecord → Checked Unit
plan_allows provider plan =
    if not (configured plan.billing)
    then unconfigured provider
    else if is_per_token plan.billing && not plan.opted_in
    then refused model_not_opted_in (
        codes "provider "
        ++ provider
        ++ codes " bills per token and is not opted in (runner plan-optin)")
    else passed tt

-- planRefusal: none where the read fails
unfoldable pub plan_refusal : PlanReads → Text → Option (Checked Unit)
unfolding plan_allows
plan_refusal plans provider = elim (plans provider) [
  | none ↦ none
  | some none ↦ some (unconfigured provider)
  | some (some plan) ↦ some (plan_allows provider plan)
]

-- The loop over the named models, each provider's plan read once.
unfoldable pub check_plans : PlanReads → List Text → List Text → Option (Checked Unit)
unfolding provider contains plan_refusal
check_plans plans seen [] = some (passed tt)
check_plans plans seen (model ∷ models) =
    let skipped = check_plans plans seen models in
    let rest = check_plans plans (provider model ∷ seen) models in
    if is_empty model || contains seen (provider model)
    then skipped
    else elim (plan_refusal plans (provider model)) [
      | none ↦ none
      | some (refused why detail) ↦ some (refused why detail)
      | some (passed u) ↦ rest
    ]

unfoldable pub review_models : ModelLabels → List Text
review_models m = if is_empty m.review then default_review_models else m.review ∷ []

-- checkModels: none where a plan could not be read
unfoldable pub check_models : PlanReads → ModelLabels → Text → Option (Checked Unit)
unfolding malformed_model review_models contains check_plans
check_models plans m default_model =
    let build = first_of m.build default_model in
    elim (malformed_model m) [
      | some detail ↦ some (refused model_malformed detail)
      | none ↦
          if contains (review_models m) build
          then some (
              refused review_is_build
                (codes "review model " ++ build ++ codes " is the build model"))
          else check_plans plans [] (m.build ∷ m.review ∷ m.plan)
    ]

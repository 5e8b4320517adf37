-- ===== src/Dispatcher/Holds.antt =====
-- internal/dispatcher/holds.go: the reason that a held run's row records, and the ranking of the reasons.
-- The day of a hold, which the zone database gives, is an argument of what records one.
pub mod Ranked
use forge_wingman.Prelude.{
  ℕ, Bool, true, false, ◌||◌, Option, none, some, List, [], ◌∷◌, ltb, if◌then◌else◌,
}
use forge_wingman.Text.{Text, codes, text_eq}
use forge_wingman.Dispatcher.Budget.{
  BudgetConfig, ceiling_cash, ceiling_runner_minutes, ceiling_provider_halted,
}
use forge_wingman.Dispatcher.Budget.Standing.{is_provider_ceiling}
use forge_wingman.Dispatcher.Admit.{
  condition_platform_cap, condition_concurrency, condition_large_cap, condition_repo_cap,
  condition_repo_overlap, condition_blocked, condition_review_wip, condition_circuit_breaker,
  condition_owner_paused, condition_peak_hours,
}

abbrev pub condition_estimate_failed : Text
condition_estimate_failed = codes "estimate-failed"

abbrev pub condition_private_opt_in : Text
condition_private_opt_in = codes "private-opt-in"

abbrev pub condition_models_unchecked : Text
condition_models_unchecked = codes "models-unchecked"

-- The reasons, which the rows hold as texts.
pub data Hold : Type 0 where
  concurrency repo_busy review_wip large_cap blocked budget job_limit : Hold
  breaker paused peak_hours provider_down no_estimate private_opt_in : Hold

-- The order in which HoldReasons lists them.
unfoldable pub hold_reasons : List Hold
hold_reasons =
    concurrency ∷ repo_busy ∷ review_wip ∷ large_cap ∷ blocked ∷ budget ∷ job_limit ∷ breaker
    ∷ paused ∷ peak_hours ∷ provider_down ∷ no_estimate ∷ private_opt_in ∷ []

-- The switch of holdReason, in its order.
unfoldable pub hold_reason : Text → BudgetConfig → Option Hold
unfolding text_eq is_provider_ceiling
hold_reason binding cfg =
    if text_eq binding condition_concurrency
    then some concurrency
    else if text_eq binding condition_repo_cap || text_eq binding condition_repo_overlap
    then some repo_busy
    else if text_eq binding condition_review_wip
    then some review_wip
    else if text_eq binding condition_large_cap
    then some large_cap
    else if text_eq binding condition_blocked
    then some blocked
    else if text_eq binding ceiling_cash || text_eq binding ceiling_runner_minutes
    then some budget
    else if text_eq binding condition_platform_cap
    then some job_limit
    else if text_eq binding condition_circuit_breaker
    then some breaker
    else if text_eq binding condition_owner_paused
    then some paused
    else if text_eq binding condition_peak_hours
    then some peak_hours
    else if text_eq binding ceiling_provider_halted
    then some provider_down
    else if text_eq binding condition_estimate_failed
    then some no_estimate
    else if text_eq binding condition_private_opt_in
    then some private_opt_in
    else if is_provider_ceiling cfg binding
    then some budget
    else none

-- A reason as the rows hold it.
unfoldable pub hold_text : Hold → Text
hold_text concurrency = codes "concurrency"
hold_text repo_busy = codes "repo-busy"
hold_text review_wip = codes "review-wip"
hold_text large_cap = codes "large-cap"
hold_text blocked = codes "blocked"
hold_text budget = codes "budget"
hold_text job_limit = codes "job-limit"
hold_text breaker = codes "breaker"
hold_text paused = codes "paused"
hold_text peak_hours = codes "peak-hours"
hold_text provider_down = codes "provider-down"
hold_text no_estimate = codes "no-estimate"
hold_text private_opt_in = codes "private-opt-in"

pub record HeldCount : Type 0 where
  pub reason : Hold
  pub count : ℕ

unfoldable pub counted_holds : (Hold → ℕ) → List Hold → List HeldCount
counted_holds counts [] = []
counted_holds counts (r ∷ rs) =
    let rest = counted_holds counts rs in
    if ltb 0 (counts r) then record { reason = r; count = counts r } ∷ rest else rest

-- slices.SortStableFunc by descending count: each goes ahead of the first that is not greater.
unfoldable pub rank_into : HeldCount → List HeldCount → List HeldCount
rank_into h [] = h ∷ []
rank_into h (g ∷ gs) =
    let rest = rank_into h gs in if ltb h.count g.count then g ∷ rest else h ∷ g ∷ gs

unfoldable pub sort_holds : List HeldCount → List HeldCount
unfolding rank_into
sort_holds [] = []
sort_holds (h ∷ hs) = rank_into h (sort_holds hs)

-- RankHolds
unfoldable pub rank_holds : (Hold → ℕ) → List HeldCount
unfolding counted_holds sort_holds hold_reasons
rank_holds counts = sort_holds (counted_holds counts hold_reasons)

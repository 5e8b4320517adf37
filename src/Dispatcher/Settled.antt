-- ===== src/Dispatcher/Settled.antt =====
-- internal/dispatcher/settled.go: a poll's snapshot of the settled runs, and the spend that the
-- ceilings measure in it.
pub mod Snapshot
use forge_wingman.Prelude.{
  ℕ, ◌+◌, Bool, true, false, not, ◌&&◌, ◌||◌, Option, none, some, List, [], ◌∷◌, ltb, ◌==◌,
  if◌then◌else◌, map,
}
use forge_wingman.Text.{Text, text_eq, is_empty}
use forge_wingman.Time.{Time, is_zero, is_before}
use forge_wingman.Int64.{Int64, add64}
use forge_wingman.GoMap.{GoMap, lookup}
use forge_wingman.Runner.{provider, default_model}
use forge_wingman.Dispatcher.Budget.{Window, since, BudgetConfig, Settled, last_resort}

pub record Settlement : Type 0 where
  pub settled_at : Time
  pub plan_settled_at : Time
  pub plan : Text
  pub cost : Int64
  pub minutes : Int64
  pub plan_cost : Int64
  pub plan_minutes : Int64

abbrev pub SettledHistory : Type 0
SettledHistory = List Settlement

-- s.onPlan(plan), over the plan that a row records
unfoldable pub on_plan : Text → Text → Bool
unfolding text_eq provider
on_plan [] row_plan = true
on_plan (c ∷ plan) [] = text_eq (c ∷ plan) (provider default_model)
on_plan (c ∷ plan) (d ∷ row_plan) = text_eq (d ∷ row_plan) (c ∷ plan)

-- The loops skip a run with no such stamp, one stamped before the window and one on another plan.
unfoldable pub counted : Time → Time → Text → Text → Bool
unfolding on_plan
counted from stamp plan row_plan =
    not (is_zero stamp || is_before stamp from || not (on_plan plan row_plan))

-- h.settledSince(from, plan), its two sums the first arguments
unfoldable pub settled_since : Int64 → Int64 → Time → Text → SettledHistory → Int64 × Int64
unfolding counted
settled_since cost minutes from plan [] = (cost, minutes)
settled_since cost minutes from plan (s ∷ h) =
    let c = counted from s.settled_at plan s.plan in
    settled_since (if c then add64 cost s.cost else cost)
      (if c then add64 minutes s.minutes else minutes) from plan h

-- h.planSince(from, plan)
unfoldable pub plan_since : Int64 → Int64 → Time → Text → SettledHistory → Int64 × Int64
unfolding counted
plan_since cost minutes from plan [] = (cost, minutes)
plan_since cost minutes from plan (s ∷ h) =
    let c = counted from s.plan_settled_at plan s.plan in
    plan_since (if c then add64 cost s.plan_cost else cost)
      (if c then add64 minutes s.plan_minutes else minutes) from plan h

-- h.windowSpend(w, plan, at), over the window's start
unfoldable pub window_spend : SettledHistory → Time → Text → Int64
unfolding settled_since plan_since
window_spend h from plan = add64 (settled_since 0 0 from plan h).0 (plan_since 0 0 from plan h).0

window_spends : SettledHistory → Text → Time → List Window → List Int64
unfolding window_spend since
window_spends h plan at [] = []
window_spends h plan at (w ∷ ws) = window_spend h (since w at) plan ∷ window_spends h plan at ws

cap_spend : SettledHistory → Text → Time → Option Window → Int64
unfolding window_spend since
cap_spend h plan at none = 0
cap_spend h plan at (some cap) = window_spend h (since cap at) plan

-- h.Sums(cfg, model, at)
unfoldable pub sums : SettledHistory → BudgetConfig → Text → Time → Settled
unfolding settled_since plan_since window_spends cap_spend since provider lookup
sums h cfg model at =
    let from = since cfg.cash at in
    let (cost, minutes) = settled_since 0 0 from [] h in
    let (plan_cost, plan_minutes) = plan_since 0 0 from [] h in
    record {
      windows = window_spends h (provider model) at cfg.provider_windows;
      model_cap = cap_spend h (provider model) at (lookup model cfg.model_caps);
      cash_cost = add64 cost plan_cost;
      cash_minutes = add64 minutes plan_minutes;
    }

abbrev earlier : Time → Time → Time
earlier s at = if is_before s at then s else at

earliest_window : Time → Time → List Window → Time
unfolding since
earliest_window at from [] = from
earliest_window at from (w ∷ ws) = earliest_window at (earlier (since w at) from) ws

earliest_cap : Time → Time → GoMap Window → Time
unfolding since
earliest_cap at from [] = from
earliest_cap at from ((m, w) ∷ caps) = earliest_cap at (earlier (since w at) from) caps

budget_since : Time → Time → BudgetConfig → Time
unfolding earliest_window earliest_cap since
budget_since at from b =
    earlier (since b.cash at)
      (earliest_cap at (earliest_window at from b.provider_windows) b.model_caps)

budgets_since : Time → Time → List BudgetConfig → Time
unfolding budget_since
budgets_since at from [] = from
budgets_since at from (b ∷ bs) = budgets_since at (budget_since at from b) bs

-- c.historySince(at), over the configuration's own budget and those of its paid plans
unfoldable pub history_since : BudgetConfig → List BudgetConfig → Time → Time
unfolding budgets_since last_resort
history_since budget plan_budgets at =
    budgets_since at (budgets_since at at (budget ∷ plan_budgets)) (last_resort budget ∷ [])

-- The rows that `SettledHistory` of the queue reads: those whose settlement, or whose plan stage's
-- settlement, is stamped no earlier than `from`.
unfoldable pub snapshot : Time → SettledHistory → SettledHistory
snapshot from [] = []
snapshot from (s ∷ h) =
    let rest = snapshot from h in
    if not (is_before s.settled_at from) || not (is_before s.plan_settled_at from)
    then s ∷ rest
    else rest

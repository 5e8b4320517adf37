-- ===== src/Dispatcher/Budget.antt =====
-- internal/dispatcher/budget.go: the budget ceilings and the check of a reservation against them.
pub mod Ceilings
pub mod Standing
use forge_wingman.Prelude.{
  ℕ, Bool, true, false, not, ◌&&◌, Option, none, some, List, [], ◌∷◌, if◌then◌else◌,
}
use forge_wingman.Text.{Text, codes, text_eq}
use forge_wingman.Time.{Time, Duration, back}
use forge_wingman.Time.Month.{month_start}
use forge_wingman.Int64.{Int64, add64, sub64, mul64, gt64}
use forge_wingman.GoMap.{GoMap, lookup}
use forge_wingman.Dispatcher.{Stage}

abbrev pub ceiling_runner_minutes : Text
ceiling_runner_minutes = codes "runner-minutes"

abbrev pub ceiling_cash : Text
ceiling_cash = codes "cash"

abbrev pub ceiling_provider_halted : Text
ceiling_provider_halted = codes "provider-halted"

pub record Window : Type 0 where
  pub name : Text
  pub period : Duration
  pub calendar : Bool
  pub limit : Int64

-- w.Since(now)
unfoldable pub since : Window → Time → Time
unfolding month_start
since w now = if w.calendar then month_start now else back now w.period

pub record RunnerMinutes : Type 0 where
  pub free_minutes : Int64
  pub rate_per_minute : Int64

pub record BudgetConfig : Type 0 where
  pub provider_windows : List Window
  pub model_caps : GoMap Window
  pub cash : Window
  pub runner : RunnerMinutes
  pub provider_free : Bool

pub record Reservation : Type 0 where
  pub provider_cost : Int64
  pub runner_minutes : Int64
  pub stage : Stage
  pub files : List Text

pub record Totals : Type 0 where
  pub provider_cost : Int64
  pub runner_minutes : Int64

-- dispatcher.Settled, of admit.go
pub record Settled : Type 0 where
  pub windows : List Int64
  pub model_cap : Int64
  pub cash_cost : Int64
  pub cash_minutes : Int64

-- reserved + settled + estimate
abbrev pub sum_of : Int64 → Int64 → Int64 → Int64
sum_of reserved settled estimate = add64 (add64 reserved settled) estimate

-- The loop over the provider windows; a window past the settled list has settled nothing.
unfoldable pub window_breach : Int64 → Int64 → List Window → List Int64 → Option Text
window_breach reserved estimate [] ss = none
window_breach reserved estimate (w ∷ ws) [] =
    let rest = window_breach reserved estimate ws [] in
    if gt64 (sum_of reserved 0 estimate) w.limit then some w.name else rest
window_breach reserved estimate (w ∷ ws) (s ∷ ss) =
    let rest = window_breach reserved estimate ws ss in
    if gt64 (sum_of reserved s estimate) w.limit then some w.name else rest

-- The model's own cap, where it carries one.
unfoldable pub cap_breach : Int64 → Int64 → Int64 → Option Window → Option Text
cap_breach reserved settled estimate none = none
cap_breach reserved settled estimate (some cap) =
    if gt64 (sum_of reserved settled estimate) cap.limit then some cap.name else none

-- The cash that the runner minutes past the free ones cost; `none` where they may not be bought.
unfoldable pub runner_cost : RunnerMinutes → Int64 → Int64 → Int64 → Option Int64
runner_cost r reserved settled estimate =
    let over = sub64 (sum_of reserved settled estimate) r.free_minutes in
    if gt64 estimate 0 && gt64 over 0
    then (if not (gt64 r.rate_per_minute 0) then none else some (mul64 over r.rate_per_minute))
    else some 0

abbrev no_windows : List Window → Bool
no_windows [] = true
no_windows (w ∷ ws) = false

-- The provider cost that cash bounds.
unfoldable pub provider_cash : BudgetConfig → Int64 → Int64 → Int64 → Int64
provider_cash cfg reserved settled estimate =
    if no_windows cfg.provider_windows && not cfg.provider_free
    then sum_of reserved settled estimate
    else 0

cash_breach : Window → Int64 → Option Int64 → Bool × Text
cash_breach cash provider_cost none = (false, ceiling_runner_minutes)
cash_breach cash provider_cost (some runner_cost) =
    if gt64 (add64 provider_cost runner_cost) cash.limit then (false, ceiling_cash) else (true, [])

refuse_or : Option Text → Bool × Text → Bool × Text
refuse_or (some name) rest = (false, name)
refuse_or none rest = rest

-- Decide reports whether the estimate fits every ceiling, and otherwise the first it would breach.
unfoldable pub decide : BudgetConfig → Text → Totals → Settled → Reservation → Bool × Text
unfolding window_breach cap_breach runner_cost provider_cash cash_breach refuse_or lookup
decide cfg model reserved settled estimate =
    refuse_or
      (window_breach reserved.provider_cost estimate.provider_cost cfg.provider_windows
        settled.windows)
      (refuse_or
        (cap_breach reserved.provider_cost settled.model_cap estimate.provider_cost
          (lookup model cfg.model_caps))
        (cash_breach cfg.cash
          (provider_cash cfg reserved.provider_cost settled.cash_cost estimate.provider_cost)
          (runner_cost cfg.runner reserved.runner_minutes settled.cash_minutes
            estimate.runner_minutes)))

-- cfg.lastResort()
unfoldable pub last_resort : BudgetConfig → BudgetConfig
last_resort cfg = record {
  provider_windows = [];
  model_caps = [];
  cash = cfg.cash;
  runner = cfg.runner;
  provider_free = true;
}

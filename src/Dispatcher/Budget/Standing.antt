-- ===== src/Dispatcher/Budget/Standing.antt =====
-- What stands on a ceiling's name in internal/dispatcher/budget.go: whether it is the plan's own, when its
-- window started, and whether it still binds.
use forge_wingman.Prelude.{
  ◌-◌, ◌%◌, Bool, not, ◌&&◌, ◌||◌, Option, none, some, List, [], ◌∷◌, ◌++◌, map, ◌==◌,
  if◌then◌else◌, contains_func,
}
use forge_wingman.Text.{Text, text_eq}
use forge_wingman.Time.{Time}
use forge_wingman.Dispatcher.Budget.{
  Window, BudgetConfig, Totals, Settled, Reservation, since, decide, ceiling_cash,
  ceiling_runner_minutes,
}

-- The windows of the configuration, those of its model caps among them.
abbrev pub own_windows : BudgetConfig → List Window
own_windows cfg = cfg.provider_windows ++ map (λ c. c.1) cfg.model_caps

-- isProviderCeiling
unfoldable pub is_provider_ceiling : BudgetConfig → Text → Bool
unfolding text_eq
is_provider_ceiling cfg binding = contains_func (λ w. text_eq w.name binding) (own_windows cfg)

-- stillBinds
unfoldable pub still_binds : BudgetConfig → Text → Totals → Settled → Reservation → Text → Bool
unfolding decide text_eq
still_binds cfg model reserved settled estimate ceiling =
    let decision = decide cfg model reserved settled estimate in
    not decision.0 && text_eq decision.1 ceiling

-- t.Truncate(d), which leaves the time where the duration is zero
abbrev pub truncate : Time → Time → Time
truncate t d = if d == 0 then t else t - t % d

-- The first window of the name, and where it started.
unfoldable pub window_start : List Window → Text → Time → Option Time
unfolding text_eq since
window_start [] ceiling at = none
window_start (w ∷ ws) ceiling at =
    let rest = window_start ws ceiling at in
    if not (text_eq w.name ceiling)
    then rest
    else if w.calendar
    then some (since w at)
    else some (truncate at w.period)

-- ceilingStart
unfoldable pub ceiling_start : BudgetConfig → Text → Time → Option Time
unfolding text_eq since window_start
ceiling_start cfg ceiling at =
    if text_eq ceiling ceiling_cash || text_eq ceiling ceiling_runner_minutes
    then some (since cfg.cash at)
    else window_start (own_windows cfg) ceiling at

-- ===== src/Dispatcher/Settled/Snapshot.antt =====
-- The one read of a poll covers every window that any of its budgets measures.
use forge_wingman.Prelude.{
  ◌≤◌, ◌<◌, ◌≡◌, refl, false, List, [], ◌∷◌, arith, In, inl, inr, if◌then◌else◌, ltb,
}
use forge_wingman.Text.{Text}
use forge_wingman.Time.{Time}
use forge_wingman.Int64.{Int64, add64}
use forge_wingman.GoMap.{GoMap, lookup}
use forge_wingman.Runner.{provider}
use forge_wingman.Dispatcher.Budget.{Window, since, BudgetConfig, last_resort}
use forge_wingman.Dispatcher.Settled.{
  SettledHistory, counted, settled_since, plan_since, window_spend, window_spends, cap_spend, sums,
  earliest_window, earliest_cap, budget_since, budgets_since, history_since, snapshot,
}

counted_early :
    (from stamp : Time) (plan row_plan : Text)
    → stamp < from
    → counted from stamp plan row_plan ≡ false
unfolding counted
counted_early from stamp plan row_plan h = ground arith

settled_since-snapshot :
    (read from : Time) (plan : Text) (cost minutes : Int64) (h : SettledHistory)
    → read ≤ from
    → settled_since cost minutes from plan (snapshot read h)
      ≡ settled_since cost minutes from plan h
unfolding settled_since snapshot
settled_since-snapshot read from plan cost minutes [] le = refl
settled_since-snapshot read from plan cost minutes (s ∷ h) le =
    let c = counted from s.settled_at plan s.plan in
    ground (
      arith,
      counted_early from s.settled_at plan s.plan,
      settled_since-snapshot read from plan (if c then add64 cost s.cost else cost)
          (if c then add64 minutes s.minutes else minutes) h le,
    )

plan_since-snapshot :
    (read from : Time) (plan : Text) (cost minutes : Int64) (h : SettledHistory)
    → read ≤ from
    → plan_since cost minutes from plan (snapshot read h) ≡ plan_since cost minutes from plan h
unfolding plan_since snapshot
plan_since-snapshot read from plan cost minutes [] le = refl
plan_since-snapshot read from plan cost minutes (s ∷ h) le =
    let c = counted from s.plan_settled_at plan s.plan in
    ground (
      arith,
      counted_early from s.plan_settled_at plan s.plan,
      plan_since-snapshot read from plan (if c then add64 cost s.plan_cost else cost)
          (if c then add64 minutes s.plan_minutes else minutes) h le,
    )

window_spend-snapshot :
    (read from : Time) (plan : Text) (h : SettledHistory)
    → read ≤ from
    → window_spend (snapshot read h) from plan ≡ window_spend h from plan
unfolding window_spend
window_spend-snapshot read from plan h le =
    rw (settled_since-snapshot read from plan 0 0 h le, plan_since-snapshot read from plan 0 0 h le)

-- The read reaches back to the start of each of the windows.
abbrev Covers : Time → Time → List Window → Type 0
Covers read at [] = Unit
Covers read at (w ∷ ws) = (read ≤ since w at) × Covers read at ws

abbrev CoversCaps : Time → Time → GoMap Window → Type 0
CoversCaps read at [] = Unit
CoversCaps read at ((m, w) ∷ caps) = (read ≤ since w at) × CoversCaps read at caps

record CoversBudget (read at : Time) (b : BudgetConfig) : Type 0 where
  windows : Covers read at b.provider_windows
  caps : CoversCaps read at b.model_caps
  cash : read ≤ since b.cash at

window_spends-snapshot :
    (read : Time) (plan : Text) (at : Time) (h : SettledHistory) (ws : List Window)
    → Covers read at ws
    → window_spends (snapshot read h) plan at ws ≡ window_spends h plan at ws
unfolding window_spends
window_spends-snapshot read plan at h [] c = refl
window_spends-snapshot read plan at h (w ∷ ws) c = rw (
  window_spend-snapshot read (since w at) plan h c.0,
  window_spends-snapshot read plan at h ws c.1,
)

cap_spend-snapshot :
    (read : Time) (plan model : Text) (at : Time) (h : SettledHistory) (caps : GoMap Window)
    → CoversCaps read at caps
    → cap_spend (snapshot read h) plan at (lookup model caps)
      ≡ cap_spend h plan at (lookup model caps)
unfolding cap_spend lookup
cap_spend-snapshot read plan model at h [] c = refl
cap_spend-snapshot read plan model at h ((m, w) ∷ caps) c = ground (
  arith,
  window_spend-snapshot read (since w at) plan h,
  cap_spend-snapshot read plan model at h caps,
)

sums-snapshot :
    (read : Time) (h : SettledHistory) (b : BudgetConfig) (model : Text) (at : Time)
    → CoversBudget read at b
    → sums (snapshot read h) b model at ≡ sums h b model at
unfolding sums
sums-snapshot read h b model at c = rw (
  window_spends-snapshot read (provider model) at h b.provider_windows c.windows,
  cap_spend-snapshot read (provider model) model at h b.model_caps c.caps,
  settled_since-snapshot read (since b.cash at) [] 0 0 h c.cash,
  plan_since-snapshot read (since b.cash at) [] 0 0 h c.cash,
)

Covers-down : (r r' at : Time) (ws : List Window) → r' ≤ r → Covers r at ws → Covers r' at ws
Covers-down r r' at [] le c = tt
Covers-down r r' at (w ∷ ws) le c = (omega arith, Covers-down r r' at ws le c.1)

CoversCaps-down :
    (r r' at : Time) (caps : GoMap Window) → r' ≤ r → CoversCaps r at caps → CoversCaps r' at caps
CoversCaps-down r r' at [] le c = tt
CoversCaps-down r r' at ((m, w) ∷ caps) le c = (omega arith, CoversCaps-down r r' at caps le c.1)

CoversBudget-down :
    (r r' at : Time) (b : BudgetConfig) → r' ≤ r → CoversBudget r at b → CoversBudget r' at b
CoversBudget-down r r' at b le c = record {
  windows = Covers-down r r' at b.provider_windows le c.windows;
  caps = CoversCaps-down r r' at b.model_caps le c.caps;
  cash = omega (arith, c.cash);
}

earliest_window-Covers :
    (at from : Time) (ws : List Window)
    → (earliest_window at from ws ≤ from) × Covers (earliest_window at from ws) at ws
unfolding earliest_window
earliest_window-Covers at from [] = (omega arith, tt)
earliest_window-Covers at from (w ∷ ws) =
    let next = (if ltb (since w at) from then since w at else from) in
    let (below, covered) = earliest_window-Covers at next ws in
    (ground (arith, below), (ground (arith, below), covered))

earliest_cap-CoversCaps :
    (at from : Time) (caps : GoMap Window)
    → (earliest_cap at from caps ≤ from) × CoversCaps (earliest_cap at from caps) at caps
unfolding earliest_cap
earliest_cap-CoversCaps at from [] = (omega arith, tt)
earliest_cap-CoversCaps at from ((m, w) ∷ caps) =
    let next = (if ltb (since w at) from then since w at else from) in
    let (below, covered) = earliest_cap-CoversCaps at next caps in
    (ground (arith, below), (ground (arith, below), covered))

budget_since-CoversBudget :
    (at from : Time) (b : BudgetConfig)
    → (budget_since at from b ≤ from) × CoversBudget (budget_since at from b) at b
unfolding budget_since
budget_since-CoversBudget at from b =
    let mid = earliest_window at from b.provider_windows in
    let (window_le, windows) = earliest_window-Covers at from b.provider_windows in
    let (cap_le, caps) = earliest_cap-CoversCaps at mid b.model_caps in
    let low = earliest_cap at mid b.model_caps in
    let last = (if ltb (since b.cash at) low then since b.cash at else low) in
    let last_le : last ≤ low = ground arith in
    (
      omega (arith, last_le, cap_le, window_le),
      record {
        windows =
            Covers-down mid last at b.provider_windows (omega (arith, last_le, cap_le)) windows;
        caps = CoversCaps-down low last at b.model_caps last_le caps;
        cash = ground arith;
      },
    )

budgets_since-le : (at from : Time) (bs : List BudgetConfig) → budgets_since at from bs ≤ from
unfolding budgets_since
budgets_since-le at from [] = omega arith
budgets_since-le at from (b ∷ bs) = omega (
  arith,
  budgets_since-le at (budget_since at from b) bs,
  (budget_since-CoversBudget at from b).0,
)

budgets_since-CoversBudget :
    (at from : Time) (bs : List BudgetConfig) (b : BudgetConfig)
    → In b bs
    → CoversBudget (budgets_since at from bs) at b
unfolding budgets_since
budgets_since-CoversBudget at from [] b m = absurd m
budgets_since-CoversBudget at from (c ∷ bs) b (inl e) = rw e (
    CoversBudget-down (budget_since at from c) (budgets_since at (budget_since at from c) bs) at c
      (budgets_since-le at (budget_since at from c) bs) (budget_since-CoversBudget at from c).1)
budgets_since-CoversBudget at from (c ∷ bs) b (inr m) =
    budgets_since-CoversBudget at (budget_since at from c) bs b m

history_since-CoversBudget :
    (budget : BudgetConfig) (plans : List BudgetConfig) (at : Time) (b : BudgetConfig)
    → In b (last_resort budget ∷ budget ∷ plans)
    → CoversBudget (history_since budget plans at) at b
unfolding history_since
history_since-CoversBudget budget plans at b (inl e) =
    budgets_since-CoversBudget at _ (last_resort budget ∷ []) b (inl e)
history_since-CoversBudget budget plans at b (inr m) =
    let from = budgets_since at at (budget ∷ plans) in
    CoversBudget-down from (budgets_since at from (last_resort budget ∷ [])) at b
      (budgets_since-le at from (last_resort budget ∷ []))
      (budgets_since-CoversBudget at at (budget ∷ plans) b m)

-- The settled history read from `history_since` on gives every budget that a poll admits against (its
-- own, each paid plan's and the free tier's) the sums that the whole history gives it.
pub sums-history_since :
    (budget : BudgetConfig) (plans : List BudgetConfig) (at : Time) (b : BudgetConfig)
    (h : SettledHistory) (model : Text)
    → In b (last_resort budget ∷ budget ∷ plans)
    → sums (snapshot (history_since budget plans at) h) b model at ≡ sums h b model at
sums-history_since budget plans at b h model m =
    sums-snapshot (history_since budget plans at) h b model at
      (history_since-CoversBudget budget plans at b m)

-- ===== src/Dispatcher/Budget/Ceilings.antt =====
-- `decide` against the ceilings as plain inequalities between numbers.
use forge_wingman.Prelude.{
  ℕ, zero, suc, ◌+◌, ◌-◌, ◌*◌, ◌^◌, ◌≤◌, ◌<◌, ◌≡◌, ◌↔◌, refl, Bool, true, Option, none, some, List,
  [], ◌∷◌, arith, ltb, ◌==◌, if◌then◌else◌,
}
use forge_wingman.Text.{Text}
use forge_wingman.Int64.{Int64, sub64, mul64, gt64}
use forge_wingman.Int64.Laws.{mul64_exact, add64_exact, gt64_exact}
use forge_wingman.GoMap.{lookup}
use forge_wingman.Dispatcher.Budget.{
  Window, RunnerMinutes, BudgetConfig, Reservation, Totals, Settled, window_breach, cap_breach,
  runner_cost, provider_cash, cash_breach, refuse_or, no_windows, decide, sum_of,
}

-- An amount for which no sum of a few overflows.
abbrev pub Small : Int64 → Type 0
Small a = a < 2 ^ 60

-- What is reserved, settled in the window and estimated is within the limit, for each window.
abbrev pub WindowsFit : Int64 → Int64 → List Window → List Int64 → Type 0
WindowsFit r e [] ss = Unit
WindowsFit r e (w ∷ ws) [] = (r + e ≤ w.limit) × WindowsFit r e ws []
WindowsFit r e (w ∷ ws) (s ∷ ss) = (r + s + e ≤ w.limit) × WindowsFit r e ws ss

abbrev pub WindowsSmall : List Window → List Int64 → Type 0
WindowsSmall [] ss = Unit
WindowsSmall (w ∷ ws) [] = Small w.limit × WindowsSmall ws []
WindowsSmall (w ∷ ws) (s ∷ ss) = Small w.limit × Small s × WindowsSmall ws ss

abbrev pub CapFits : Int64 → Int64 → Int64 → Option Window → Type 0
CapFits r s e none = Unit
CapFits r s e (some cap) = r + s + e ≤ cap.limit

abbrev pub CapSmall : Option Window → Type 0
CapSmall none = Unit
CapSmall (some cap) = Small cap.limit

-- The minutes past the free ones that a run which spends minutes brings about.
abbrev pub overage : RunnerMinutes → Int64 → Int64 → Int64 → ℕ
overage m r s e = if e == 0 then 0 else r + s + e - m.free_minutes

-- What buying so many minutes costs; `none` where the rate sells none.
abbrev bought : ℕ → ℕ → Option ℕ
bought over rate = if ltb 0 over then (if rate == 0 then none else some (over * rate)) else some 0

abbrev pub cash_spend : BudgetConfig → Totals → Settled → Reservation → ℕ
cash_spend cfg r s e =
    if no_windows cfg.provider_windows
    then (if cfg.provider_free then 0 else r.provider_cost + s.cash_cost + e.provider_cost)
    else 0

pub record WithinCeilings (cfg : BudgetConfig) (model : Text) (r : Totals) (s : Settled)
    (e : Reservation) : Type 0 where
  pub windows : WindowsFit r.provider_cost e.provider_cost cfg.provider_windows s.windows
  pub cap : CapFits r.provider_cost s.model_cap e.provider_cost (lookup model cfg.model_caps)
  pub minutes :
      0 < overage cfg.runner r.runner_minutes s.cash_minutes e.runner_minutes
      → 0 < cfg.runner.rate_per_minute
  pub cash :
      cash_spend cfg r s e
        + overage cfg.runner r.runner_minutes s.cash_minutes e.runner_minutes
          * cfg.runner.rate_per_minute
      ≤ cfg.cash.limit

pub record AmountsSmall (cfg : BudgetConfig) (model : Text) (r : Totals) (s : Settled)
    (e : Reservation) : Type 0 where
  pub reserved : Small r.provider_cost × Small r.runner_minutes
  pub settled : Small s.model_cap × Small s.cash_cost × Small s.cash_minutes
  pub estimate : Small e.provider_cost × Small e.runner_minutes
  pub windows : WindowsSmall cfg.provider_windows s.windows
  pub cap : CapSmall (lookup model cfg.model_caps)
  pub rates :
      Small cfg.runner.free_minutes × Small cfg.runner.rate_per_minute × Small cfg.cash.limit
  pub bought : Small (
      overage cfg.runner r.runner_minutes s.cash_minutes e.runner_minutes
      * cfg.runner.rate_per_minute)

gt64_sum :
    (r s e limit : Int64)
    → Small r
    → Small s
    → Small e
    → Small limit
    → gt64 (sum_of r s e) limit ≡ ltb limit (r + s + e)
gt64_sum r s e limit hr hs he hl = ground arith

window_exact :
    (r e : Int64) (ws : List Window) (ss : List Int64)
    → Small r
    → Small e
    → WindowsSmall ws ss
    → (window_breach r e ws ss ≡ none) ↔ WindowsFit r e ws ss
unfolding window_breach
window_exact r e [] ss hr he small = ((λ _. tt), (λ _. refl))
window_exact r e (w ∷ ws) [] hr he small =
    ground (arith, gt64_sum r 0 e w.limit, window_exact r e ws [] hr he small.1)
window_exact r e (w ∷ ws) (s ∷ ss) hr he small =
    ground (arith, gt64_sum r s e w.limit, window_exact r e ws ss hr he small.2)

cap_exact :
    (r s e : Int64) (cap : Option Window)
    → Small r
    → Small s
    → Small e
    → CapSmall cap
    → (cap_breach r s e cap ≡ none) ↔ CapFits r s e cap
unfolding cap_breach
cap_exact r s e none hr hs he small = ((λ _. tt), (λ _. refl))
cap_exact r s e (some cap) hr hs he small = ground (arith, gt64_sum r s e cap.limit)

-- over > 0, over the number of minutes past the free ones.
over_exact :
    (r s e free : Int64)
    → Small r
    → Small s
    → Small e
    → Small free
    → gt64 (sub64 (sum_of r s e) free) 0 ≡ ltb free (r + s + e)
over_exact r s e free hr hs he hf = ground arith

over_value :
    (r s e free : Int64)
    → Small r
    → Small s
    → Small e
    → free ≤ r + s + e
    → sub64 (sum_of r s e) free ≡ r + s + e - free
over_value r s e free hr hs he hf = omega arith

bought_value :
    (r s e free rate : Int64)
    → Small r
    → Small s
    → Small e
    → free ≤ r + s + e
    → Small ((r + s + e - free) * rate)
    → mul64 (sub64 (sum_of r s e) free) rate ≡ (r + s + e - free) * rate
bought_value r s e free rate hr hs he hf small =
    rw (over_value r s e free hr hs he hf) (mul64_exact (r + s + e - free) rate (omega arith))

-- The minutes that are bought cost their number times the rate.
runner_cost_exact :
    (m : RunnerMinutes) (r s e : Int64)
    → Small r
    → Small s
    → Small e
    → Small m.free_minutes
    → Small m.rate_per_minute
    → Small (overage m r s e * m.rate_per_minute)
    → runner_cost m r s e ≡ bought (overage m r s e) m.rate_per_minute
unfolding runner_cost
runner_cost_exact m r s e hr hs he hf hp hm =
    ground
      (arith, over_exact r s e m.free_minutes, bought_value r s e m.free_minutes m.rate_per_minute)

cash_exact :
    (cash : Window) (p over rate : Int64)
    → Small cash.limit
    → p < 2 ^ 62
    → Small (over * rate)
    → ((cash_breach cash p (bought over rate)).0 ≡ true)
      ↔ ((0 < over → 0 < rate) × (p + over * rate ≤ cash.limit))
unfolding cash_breach
cash_exact cash p zero rate hl hp hm = ground arith
cash_exact cash p (suc over) zero hl hp hm = ground arith
cash_exact cash p (suc over) (suc rate) hl hp hm =
    ground
      (arith, add64_exact p (suc over * suc rate), gt64_exact (p + suc over * suc rate) cash.limit)

refuse_or_iff :
    (o : Option Text) (rest : Bool × Text)
    → ((refuse_or o rest).0 ≡ true) ↔ ((o ≡ none) × (rest.0 ≡ true))
unfolding refuse_or
refuse_or_iff none rest = ((λ h. (refl, h)), (λ h. h.1))
refuse_or_iff (some name) rest = ((λ h. cc), (λ h. cc h.0))

module _ (cfg : BudgetConfig) (model : Text) (r : Totals) (s : Settled) (e : Reservation)
    (small : AmountsSmall cfg model r s e) where
  spend_exact : provider_cash cfg r.provider_cost s.cash_cost e.provider_cost ≡ cash_spend cfg r s e
  unfolding provider_cash
  spend_exact = ground (arith, small.reserved, small.settled, small.estimate)

  spend_bound : cash_spend cfg r s e < 2 ^ 62
  spend_bound = ground (arith, small.reserved, small.settled, small.estimate)

  over : ℕ
  over = overage cfg.runner r.runner_minutes s.cash_minutes e.runner_minutes

  cost :
      runner_cost cfg.runner r.runner_minutes s.cash_minutes e.runner_minutes
      ≡ bought over cfg.runner.rate_per_minute
  unfolding over
  cost =
      runner_cost_exact cfg.runner r.runner_minutes s.cash_minutes e.runner_minutes small.reserved.1
        small.settled.2 small.estimate.1 small.rates.0 small.rates.1 small.bought

  on_windows :
      (window_breach r.provider_cost e.provider_cost cfg.provider_windows s.windows ≡ none)
      ↔ WindowsFit r.provider_cost e.provider_cost cfg.provider_windows s.windows
  on_windows =
      window_exact r.provider_cost e.provider_cost cfg.provider_windows s.windows small.reserved.0
        small.estimate.0 small.windows

  on_cap :
      (cap_breach r.provider_cost s.model_cap e.provider_cost (lookup model cfg.model_caps) ≡ none)
      ↔ CapFits r.provider_cost s.model_cap e.provider_cost (lookup model cfg.model_caps)
  on_cap =
      cap_exact r.provider_cost s.model_cap e.provider_cost (lookup model cfg.model_caps)
        small.reserved.0 small.settled.0 small.estimate.0 small.cap

  on_cash :
      ((cash_breach cfg.cash (cash_spend cfg r s e) (bought over cfg.runner.rate_per_minute)).0
        ≡ true)
      ↔ ((0 < over → 0 < cfg.runner.rate_per_minute)
          × (cash_spend cfg r s e + over * cfg.runner.rate_per_minute ≤ cfg.cash.limit))
  unfolding over
  on_cash =
      cash_exact cfg.cash (cash_spend cfg r s e) over cfg.runner.rate_per_minute small.rates.2
        spend_bound small.bought

-- Where no sum of the amounts overflows, `decide` lets a run start exactly when what is reserved,
-- settled and estimated is within every provider window, within the model's own cap, within the cash
-- ceiling with the runner minutes past the free ones paid for, and no such minute is unpriced.
pub decide_exact :
    (cfg : BudgetConfig) (model : Text) (r : Totals) (s : Settled) (e : Reservation)
    → AmountsSmall cfg model r s e
    → ((decide cfg model r s e).0 ≡ true) ↔ WithinCeilings cfg model r s e
unfolding decide over
decide_exact cfg model r s e small = (
  (λ h.
      let (windows, rest) = (refuse_or_iff _ _).0 h in
      let (cap, cash) = (refuse_or_iff _ _).0 rest in
      let (minutes, fits) =
        (on_cash cfg model r s e small).0
          (rw (spend_exact cfg model r s e small, cost cfg model r s e small) at cash) in
      record {
        windows = (on_windows cfg model r s e small).0 windows;
        cap = (on_cap cfg model r s e small).0 cap;
        minutes = minutes;
        cash = fits;
      }),
  (λ w. (refuse_or_iff _ _).1 (
    (on_windows cfg model r s e small).1 w.windows,
    (refuse_or_iff _ _).1 (
      (on_cap cfg model r s e small).1 w.cap,
      rw (spend_exact cfg model r s e small, cost cfg model r s e small)
          ((on_cash cfg model r s e small).1 (w.minutes, w.cash)),
    ),
  )),
)

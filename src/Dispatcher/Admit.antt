-- ===== src/Dispatcher/Admit.antt =====
-- internal/dispatcher/admit.go: whether a candidate may start now, and what withholds it.
pub mod Admissible
use forge_wingman.Prelude.{
  ℕ, ◌+◌, Bool, true, false, not, ◌&&◌, ◌||◌, List, [], ◌∷◌, ltb, leb, ◌==◌, if◌then◌else◌, max,
  length, contains_func,
}
use forge_wingman.Text.{Text, codes, text_eq, equal_fold, contains}
use forge_wingman.Runner.{DecisionMode}
use forge_wingman.Dispatcher.{Stage, is_plan}
use forge_wingman.Dispatcher.Budget.{
  BudgetConfig, Reservation, Totals, Settled, decide, ceiling_provider_halted,
}

abbrev pub condition_platform_cap : Text
condition_platform_cap = codes "platform-cap"

abbrev pub condition_concurrency : Text
condition_concurrency = codes "concurrency-limit"

abbrev pub condition_large_cap : Text
condition_large_cap = codes "large-cap"

abbrev pub condition_repo_cap : Text
condition_repo_cap = codes "repo-cap"

abbrev pub condition_repo_overlap : Text
condition_repo_overlap = codes "repo-overlap"

abbrev pub condition_blocked : Text
condition_blocked = codes "blocked"

abbrev pub condition_review_wip : Text
condition_review_wip = codes "review-wip"

abbrev pub condition_circuit_breaker : Text
condition_circuit_breaker = codes "circuit-breaker"

abbrev pub condition_owner_paused : Text
condition_owner_paused = codes "owner-paused"

abbrev pub condition_peak_hours : Text
condition_peak_hours = codes "peak-hours"

abbrev pub large_size : Text
large_size = codes "L"

pub record Limits : Type 0 where
  pub platform_cap : ℕ
  pub large_cap : ℕ
  pub review_wip : ℕ
  pub repo_cap : ℕ

abbrev pub default_limits : Limits
default_limits = record { platform_cap = 20; large_cap = 1; review_wip = 3; repo_cap = 5 }

-- cmp.Or(n, d)
abbrev pub or_else : ℕ → ℕ → ℕ
or_else n d = if n == 0 then d else n

-- l.OrDefault()
unfoldable pub or_default : Limits → Limits
or_default l = record {
  platform_cap = or_else l.platform_cap default_limits.platform_cap;
  large_cap = or_else l.large_cap default_limits.large_cap;
  review_wip = or_else l.review_wip default_limits.review_wip;
  repo_cap = or_else l.repo_cap default_limits.repo_cap;
}

pub record InFlight : Type 0 where
  pub ticket : Text
  pub repo : Text
  pub size : Text
  pub files : List Text
  pub stage : Stage

pub record Subject : Type 0 where
  pub ticket : Text
  pub repo : Text
  pub size : Text
  pub blocked_by : List Text
  pub blocks : List Text
  pub blocked_by_open : List Text
  pub files : List Text
  pub stage : Stage

pub record Relations : Type 0 where
  pub known : Bool
  pub blocked_by : List Text
  pub blocks : List Text
  pub blocked_by_open : List Text

-- The numbers of the concurrency rule; its two ratios are the bit patterns of float64 values.
pub record Tuning : Type 0 where
  pub stable_runs : ℕ
  pub rise_within : ℕ
  pub halve_beyond : ℕ

-- What admission learns outside the ledger. The snapshot of the settled history is an argument of the
-- functions that read it.
pub record Facts : Type 0 where
  pub limits : Limits
  pub tuning : Tuning
  pub relations : Relations
  pub provider_halted : Bool
  pub breaker_tripped : Bool
  pub owner_paused : Bool
  pub peak_held : Bool
  pub model : Text
  pub open_prs : ℕ
  pub open_prs_known : Bool
  pub decision_mode : DecisionMode

pub record AdmitInput : Type 0 where
  pub facts : Facts
  pub n : ℕ
  pub in_flight : List InFlight
  pub candidate : Subject
  pub budget : BudgetConfig
  pub reserved : Totals
  pub settled : Settled
  pub reservation : Reservation

unfoldable pub count_size : Text → List InFlight → ℕ
unfolding text_eq
count_size size [] = 0
count_size size (r ∷ rs) = (if text_eq r.size size then 1 else 0) + count_size size rs

unfoldable pub in_flight_in_repo : Text → List InFlight → ℕ
unfolding equal_fold
in_flight_in_repo repo [] = 0
in_flight_in_repo repo (r ∷ rs) =
    (if equal_fold r.repo repo then 1 else 0) + in_flight_in_repo repo rs

unfoldable pub write_sets_overlap : InFlight → Subject → Bool
unfolding is_plan contains
write_sets_overlap f c =
    if is_plan f.stage || is_plan c.stage
    then false
    else contains_func (λ name. contains c.files name) f.files

abbrev some_text : List Text → Bool
some_text [] = false
some_text (s ∷ ss) = true

unfoldable pub blocked : Subject → List InFlight → Bool
unfolding contains
blocked c runs =
    if some_text c.blocked_by_open
    then true
    else contains_func (λ r. contains c.blocked_by r.ticket || contains c.blocks r.ticket) runs

unfoldable pub repo_overlap : Subject → List InFlight → Bool
unfolding write_sets_overlap equal_fold
repo_overlap c runs = contains_func (λ f. equal_fold f.repo c.repo && write_sets_overlap f c) runs

-- A `switch` with no tag: the result of the first case that holds.
unfoldable pub switch : List (Bool × Text) → Text
switch [] = []
switch ((holds, name) ∷ cases) = let rest = switch cases in if holds then name else rest

-- The cases of the `switch`, in its order.
unfoldable pub conditions : AdmitInput → List (Bool × Text)
unfolding count_size in_flight_in_repo repo_overlap blocked
conditions i =
    let running = length i.in_flight in
    (i.facts.breaker_tripped, condition_circuit_breaker)
    ∷ (i.facts.owner_paused, condition_owner_paused)
    ∷ (i.facts.provider_halted, ceiling_provider_halted)
    ∷ (i.facts.peak_held, condition_peak_hours)
    ∷ (leb i.facts.limits.platform_cap running, condition_platform_cap)
    ∷ (leb (max i.n 1) running, condition_concurrency)
    ∷ (
      text_eq i.candidate.size large_size
          && leb i.facts.limits.large_cap (count_size large_size i.in_flight),
      condition_large_cap,
    )
    ∷ (
      leb i.facts.limits.repo_cap (in_flight_in_repo i.candidate.repo i.in_flight),
      condition_repo_cap,
    )
    ∷ (repo_overlap i.candidate i.in_flight, condition_repo_overlap)
    ∷ (blocked i.candidate i.in_flight, condition_blocked)
    ∷ (
      (i.facts.open_prs_known && leb i.facts.limits.review_wip i.facts.open_prs)
          || (not i.facts.open_prs_known && ltb 0 running),
      condition_review_wip,
    )
    ∷ []

-- HeldBeforeBudget is the first condition that withholds a candidate ahead of its budget ceilings,
-- and the empty text when it reaches them.
unfoldable pub held_before_budget : AdmitInput → Text
unfolding switch conditions
held_before_budget i = switch (conditions i)

admit_budget : Text → Bool × Text → Bool × Text
admit_budget [] (true, why) = (true, [])
admit_budget [] (false, why) = (false, why)
admit_budget (c ∷ name) fits = (false, c ∷ name)

-- Admit reports whether the candidate may start now, and otherwise the first condition against it.
unfoldable pub admit : AdmitInput → Bool × Text
unfolding held_before_budget admit_budget decide
admit i =
    admit_budget (held_before_budget i)
      (decide i.budget i.facts.model i.reserved i.settled i.reservation)

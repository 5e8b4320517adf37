-- ===== src/Poll.antt =====
-- internal/dispatcher/dispatcher.go: what a poll reads and does. What it reads of Linear, GitHub, the clock
-- and the owner's settings is an argument; what it does to the queue is the transactions of the store.
pub mod Tier
pub mod Facts
pub mod Deferrals
pub mod Claims
pub mod Dispatch
pub mod Requeues
pub mod Whole
pub mod Decide
pub mod Sweeps
use forge_wingman.Prelude.{ℕ, ◌+◌, Bool, true, false, Option, none, some, List, [], ◌∷◌}
use forge_wingman.Text.{Text, is_empty}
use forge_wingman.Time.{Time}
use forge_wingman.Int64.{Int64}
use forge_wingman.GoMap.{GoMap}
use forge_wingman.Runner.{ModelLabels, DecisionMode}
use forge_wingman.Dispatcher.{Stage, single, build}
use forge_wingman.Dispatcher.Budget.{BudgetConfig}
use forge_wingman.Dispatcher.Admit.{Limits, Tuning}
use forge_wingman.Store.Row.{Row, RunState, planned}
use forge_wingman.Store.Db.{Db}

pub record Candidate : Type 0 where
  pub run_id : Text
  pub repo : Text
  pub size : Text
  pub private : Bool
  pub priority : ℕ
  pub model : Text
  pub review_model : Text
  pub plan_models : List Text
  pub plan : Text
  pub stage : Stage
  pub plan_files : List Text
  pub attempt : ℕ
  pub superseded_pr : ℕ
  pub held : GoMap (List Text)

abbrev or_true : Option Bool → Bool
or_true none = true
or_true (some b) = b

abbrev or_zero : Option ℕ → ℕ
or_zero none = 0
or_zero (some n) = n

-- The stage that a row is ready for.
unfoldable pub ready_stage : RunState → Stage
ready_stage planned = build
ready_stage _ = single

-- The candidate that Candidates reads from a row.
unfoldable pub listed : Text → Row → Candidate
unfolding ready_stage
listed run_id row = record {
  run_id = run_id;
  repo = row.repo;
  size = row.size;
  private = or_true row.private;
  priority = or_zero row.linear_priority;
  model = row.model_labels.build;
  review_model = row.model_labels.review;
  plan_models = row.model_labels.plan;
  plan = row.plan;
  stage = ready_stage row.state;
  plan_files = row.plan_files;
  attempt = row.attempt;
  superseded_pr = row.superseded_pr;
  held = row.held_on;
}

-- Candidates, of the rows whose ids its query found, in the query's order.
unfoldable pub candidates : List Text → Db → List Candidate
unfolding listed
candidates [] db = []
candidates (id ∷ ids) db =
    let rest = candidates ids db in
    elim (db.runs id) [ none ↦ rest | some row ↦ listed id row ∷ rest ]

pub record Estimate : Type 0 where
  pub provider_cost : Int64
  pub minutes : Int64

pub record PaidPlan : Type 0 where
  pub plan : Text
  pub budget : BudgetConfig
  pub models : ModelLabels

pub record Config : Type 0 where
  pub repos : List Text
  pub budget : BudgetConfig
  pub model : Text
  pub plan_budgets : List PaidPlan
  pub limits : Limits
  pub tuning : Tuning
  pub last_resort_plans : List (List Text)
  pub two_stage : Bool
  pub decision_mode : DecisionMode

-- The run that a poll took off the queue; its verdict, which informs the owner alone, is left out.
pub record Claim : Type 0 where
  pub run_id : Text
  pub repo : Text
  pub priority : ℕ
  pub stage : Stage
  pub attempt : ℕ

pub record Deferral : Type 0 where
  pub run_id : Text
  pub ceiling : Text
  pub at : Time

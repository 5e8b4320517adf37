-- ===== src/Examples.antt =====
-- The concrete runs, budgets and facts of the tests, and, in the children, each theorem at work on them.
mod Polls
mod Queue
mod Requeues
mod Sweeps
mod Deliveries
mod Cancels
mod Walks
mod Peaks
mod Admissions
mod Waits
use forge_wingman.Prelude.{
  ℕ, Bool, true, false, Option, none, some, List, [], ◌∷◌, ◌*◌, leb, ltb, ◌/◌,
}
use forge_wingman.Text.{Text, codes}
use forge_wingman.Time.{Time, second}
use forge_wingman.Runner.{guided}
use forge_wingman.Dispatcher.{Stage, single}
use forge_wingman.Dispatcher.Budget.{Window, BudgetConfig, Reservation, Totals, Settled}
use forge_wingman.Dispatcher.Settled.{Settlement, SettledHistory}
use forge_wingman.Dispatcher.Admit.{Facts, AdmitInput, Subject, InFlight, default_limits, Tuning}
use forge_wingman.Dispatcher.Concurrency.{FloatOps}
use forge_wingman.Store.Db.{Db, ok, Result}
use forge_wingman.Store.Queue.Enqueue.{Queued}

abbrev pub fw_1 : Text
fw_1 = codes "FW-1"

abbrev pub fw_2 : Text
fw_2 = codes "FW-2"

-- Whole numbers stand in for the floating-point ones.
abbrev pub whole_numbers : FloatOps
whole_numbers = record {
  of_int = λ n. 100 * n;
  divide = λ a b. 100 * a / b;
  above = λ a b. ltb b a;
  at_most = leb;
}

abbrev pub cash_window : Window
cash_window = record { name = codes "cash"; period = 0; calendar = true; limit = 5000 }

abbrev pub budget : BudgetConfig
budget = record {
  provider_windows =
      (record { name = codes "5h"; period = 18000 * second; calendar = false; limit = 1000 }) ∷ [];
  model_caps = [];
  cash = cash_window;
  runner = record { free_minutes = 100; rate_per_minute = 2 };
  provider_free = false;
}

abbrev pub estimate : Reservation
estimate = record { provider_cost = 300; runner_minutes = 20; stage = single; files = [] }

abbrev pub stable_tuning : Tuning
stable_tuning = record { stable_runs = 2; rise_within = 120; halve_beyond = 150 }

abbrev pub facts : Facts
facts = record {
  limits = default_limits;
  tuning = stable_tuning;
  relations = record { known = true; blocked_by = []; blocks = []; blocked_by_open = [] };
  provider_halted = false;
  breaker_tripped = false;
  owner_paused = false;
  peak_held = false;
  model = codes "zai/glm";
  open_prs = 1;
  open_prs_known = true;
  decision_mode = guided;
}

abbrev pub now : Time
now = 100000 * second

abbrev pub settled_run : Settlement
settled_run = record {
  settled_at = 99000 * second;
  plan_settled_at = 98000 * second;
  plan = codes "zai";
  cost = 200;
  minutes = 10;
  plan_cost = 50;
  plan_minutes = 1;
}

abbrev pub history : SettledHistory
history = settled_run ∷ []

abbrev pub ticket_run : Text → Queued
ticket_run id = record {
  run_id = id;
  title = codes "[BE] Add a field";
  body = codes "body";
  size = codes "M";
  sized_by = codes "linear-label";
  front_end = false;
  repo = codes "owner/app";
  private = false;
  priority = 2;
  blocked_by = [];
  blocks = [];
  models = record { build = []; review = []; plan = [] };
  at = 90000 * second;
}

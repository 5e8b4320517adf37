-- ===== src/Examples/Admissions.antt =====
-- The theorems about the admission of tickets and about a whole poll, on one delegated issue.
use forge_wingman.Text.{Text, codes, lower_code}
use forge_wingman.Text.Split.{split}
use forge_wingman.Prelude.{
  ◌≡◌, ◌↔◌, ◌≤◌, refl, arith, true, false, Option, none, some, List, [], ◌∷◌, All,
}
use forge_wingman.Runner.{ModelLabels}
use forge_wingman.Dispatcher.Admit.{or_default}
use forge_wingman.Store.Db.{ok}
use forge_wingman.Store.Queue.Enqueue.{Queued}
use forge_wingman.Store.Accounting.Operations.{Balanced}
use forge_wingman.Store.Trace.{initial}
use forge_wingman.Store.Trace.Balance.{initial-Balanced}
use forge_wingman.Store.Trace.Cap.{booked}
use forge_wingman.Tickets.{Issue, Wording, passed, build}
use forge_wingman.Tickets.Sizer.{criteria_of, doubts_of, count_doubts, signal_size, size_by}
use forge_wingman.Tickets.Sizer.Graded.{
  rank, size_of, count_of, IsSmall, signal_size-monotone, signal_size-IsSmall_iff,
}
use forge_wingman.Tickets.Built.{IsBuilt, build-IsBuilt}
use forge_wingman.Tickets.Models.{PlanReads, per_token, check_models}
use forge_wingman.Tickets.Models.Allowed.{MayRun, check_models_iff}
use forge_wingman.Tickets.Admission.{Admission, admit_issues}
use forge_wingman.Tickets.Admission.Enqueued.{NewOf, nothing_yet, admit_issues-enqueued}
use forge_wingman.Poll.Whole.{World, Polled, after_admission, admit_phase}
use forge_wingman.Poll.Whole.Booked.{FindsTickets}
use forge_wingman.Poll.Sweeps.{poll_and_sweep}
use forge_wingman.Poll.Sweeps.Books.{poll_and_sweep-Balanced}
use forge_wingman.Poll.Dispatch.{Dispatched}
use forge_wingman.Examples.{fw_1, now, history}
use forge_wingman.Examples.Queue.{fw_1-IsRunId}
use forge_wingman.Examples.Walks.{no_faults, config, reads, outside}

abbrev small_body : Text
small_body = codes "Why.\n## Acceptance criteria\n1. A field is shown\n## Notes\nNone."

abbrev small_criteria : Text
small_criteria = codes "1. A field is shown"

abbrev larger_body : Text
larger_body = codes "Acceptance criteria:\n- The schema gains a field\n- The web page shows it"

abbrev larger_criteria : Text
larger_criteria = codes "- The schema gains a field\n- The web page shows it"

abbrev title : Text
title = codes "[BE] Add a field"

small_found : criteria_of (split b'\n' small_body) ≡ some small_criteria
unfolding criteria_of split lower_code
small_found = refl

larger_found : criteria_of (split b'\n' larger_body) ≡ some larger_criteria
unfolding criteria_of split lower_code
larger_found = refl

small_size : size_of title small_body ≡ codes "S"
unfolding signal_size lower_code
small_size = refl

larger_size : size_of (codes "Add a field") larger_body ≡ codes "L"
unfolding signal_size lower_code
larger_size = refl

one_counted : count_of small_criteria ≡ 1
unfolding size_by
one_counted = refl

two_counted : count_of larger_criteria ≡ 2
unfolding size_by
two_counted = refl

no_doubts_yet : count_doubts (doubts_of title small_criteria) ≡ 0
unfolding doubts_of count_doubts lower_code
no_doubts_yet = refl

signal_size-monotone_example :
    rank (size_of title small_body) ≤ rank (size_of (codes "Add a field") larger_body)
signal_size-monotone_example =
    signal_size-monotone title (codes "Add a field") small_body larger_body small_criteria
      larger_criteria small_found larger_found (omega (arith, one_counted))
      (omega (arith, one_counted, two_counted)) (omega (arith, no_doubts_yet))

signal_size-IsSmall_iff_example : (size_of title small_body ≡ codes "S") ↔ (
    (criteria : Text) × (criteria_of (split b'\n' small_body) ≡ some criteria)
    × IsSmall title criteria)
signal_size-IsSmall_iff_example = signal_size-IsSmall_iff title small_body

abbrev issue : Issue
issue = record {
  id = fw_1;
  url = codes "https://linear.app/FW-1";
  title = title;
  body = small_body;
  priority = 2;
  labels = codes "repo:OWNER/app" ∷ codes "model:zai/glm" ∷ [];
  blocked_by = [];
  blocks = [];
  blocked_by_open = [];
}

abbrev wording : Wording
wording = record {
  fault = λ t fault. codes "ticket is invalid";
  rank = λ p. codes "priority is not 0 to 4";
}

abbrev plans : PlanReads
plans = λ provider. some (some (record { billing = per_token; opted_in = true }))

abbrev built : Queued
built = record {
  run_id = fw_1;
  title = title;
  body = small_body;
  size = codes "S";
  sized_by = codes "deterministic";
  front_end = false;
  repo = codes "owner/app";
  private = false;
  priority = 2;
  blocked_by = [];
  blocks = [];
  models = record { build = []; review = []; plan = [] };
  at = now;
}

build_result : build wording config.repos issue now ≡ passed built
unfolding build
build_result = refl

build-IsBuilt_example : IsBuilt config.repos issue built
build-IsBuilt_example = build-IsBuilt wording config.repos issue now built build_result

abbrev named : ModelLabels
named = record {
  build = codes "zai/glm";
  review = [];
  plan = codes "zai/glm" ∷ codes "kimi/k2" ∷ [];
}

check_models_iff_example :
    (check_models plans named (codes "zai/glm") ≡ some (passed tt))
    ↔ MayRun plans named (codes "zai/glm")
check_models_iff_example = check_models_iff plans named (codes "zai/glm")

models_pass : check_models plans named (codes "zai/glm") ≡ some (passed tt)
unfolding check_models
models_pass = refl

abbrev admission : Admission
admission = record {
  allow = config.repos;
  model = codes "zai/glm";
  wording = wording;
  plans = plans;
  private = λ repo. some false;
  now = λ id. now;
}

admitted_once : (admit_issues admission (issue ∷ []) (nothing_yet initial)).0.enqueued ≡ fw_1 ∷ []
unfolding admit_issues
admitted_once = refl

admit_issues-enqueued_example :
    All
      (NewOf admission (issue ∷ []))
      (admit_issues admission (issue ∷ []) (nothing_yet initial)).0.enqueued
admit_issues-enqueued_example = admit_issues-enqueued admission (issue ∷ []) initial

abbrev world : World
world = record {
  delegated = some (issue ∷ []);
  wording = wording;
  plans = plans;
  private = λ repo. some false;
  reads = reads;
  outside = outside;
  candidate_ids = λ db. fw_1 ∷ [];
  stopped_ids = λ db. [];
  history = λ db. ok history;
  faults = λ id. no_faults;
  now = now;
}

finds_fw_1 : FindsTickets world
finds_fw_1 db = (fw_1-IsRunId, tt)

abbrev polled : Polled
polled =
    after_admission true config world (issue ∷ [])
      (admit_phase true config world (issue ∷ []) initial)

abbrev dispatched_of : Option Dispatched → List Text
dispatched_of none = []
dispatched_of (some d) = d.dispatched

poll_dispatches : dispatched_of polled.dispatches ≡ fw_1 ∷ []
unfolding after_admission admit_phase
poll_dispatches = refl

nothing_booked : booked initial ≤ (or_default config.limits).platform_cap
unfolding or_default
nothing_booked = omega arith

poll_and_sweep-Balanced_example :
    Balanced (poll_and_sweep config world (λ db. fw_1 ∷ []) now initial).1.1
    × (booked (poll_and_sweep config world (λ db. fw_1 ∷ []) now initial).1.1
        ≤ (or_default config.limits).platform_cap)
poll_and_sweep-Balanced_example =
    poll_and_sweep-Balanced config world (λ db. fw_1 ∷ []) now initial finds_fw_1 initial-Balanced
      nothing_booked

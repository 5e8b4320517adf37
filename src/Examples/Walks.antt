-- ===== src/Examples/Walks.antt =====
-- The theorems about a poll's walk over the queue, on one queued run.
use forge_wingman.Text.{Text, codes}
use forge_wingman.Prelude.{
  ℕ, ◌≡◌, ◌⊎◌, ◌↔◌, refl, inl, true, false, none, some, List, [], ◌∷◌, All, In,
}
use forge_wingman.Runner.{guided, provider}
use forge_wingman.Dispatcher.{single}
use forge_wingman.Dispatcher.Admit.{default_limits}
use forge_wingman.Dispatcher.Holds.{Hold, budget, paused, rank_holds}
use forge_wingman.Dispatcher.Settled.{SettledHistory}
use forge_wingman.Store.Db.{Result, ok, err, history_unread, store_failed}
use forge_wingman.Store.Effects.Fails.{Fails, attempt_claim-Fails_iff}
use forge_wingman.Store.Queue.Claim.{Faults, attempt_claim, try_claim}
use forge_wingman.Store.Trace.{run}
use forge_wingman.Poll.{Candidate, Config, Claim, candidates}
use forge_wingman.Poll.Tier.{claim_stage, named_free_models}
use forge_wingman.Poll.Facts.{Reads}
use forge_wingman.Poll.Claims.{Sight, Walked, Asked, asking, asked_for, prepare, admit_claims}
use forge_wingman.Poll.Claims.Kept.{HeldByRun}
use forge_wingman.Poll.Claims.Open.{Allowed, admit_claims-Allowed}
use forge_wingman.Poll.Claims.Consented.{prepare-consented}
use forge_wingman.Poll.Dispatch.{Outside, dispatch_all}
use forge_wingman.Poll.Dispatch.Started.{Unreleased, dispatch_all-started}
use forge_wingman.Examples.{
  estimate, facts, fw_1, whole_numbers, stable_tuning, now, history, ticket_run,
}
use forge_wingman.Examples.Queue.{queued_db}

abbrev pub no_faults : Faults
no_faults = record { row_read = none; ledger_read = none; commit = none }

abbrev free_model : Text
free_model = codes "oss/free"

abbrev pub config : Config
config = record {
  repos = codes "owner/app" ∷ [];
  budget = forge_wingman.Examples.budget;
  model = codes "zai/glm";
  plan_budgets = [];
  limits = default_limits;
  tuning = stable_tuning;
  last_resort_plans = (free_model ∷ []) ∷ [];
  two_stage = false;
  decision_mode = guided;
}

abbrev pub reads : Reads
reads = record {
  now = λ id. now;
  day = λ at. codes "2026-01-05";
  estimate = λ size. some (record { provider_cost = 300; minutes = 20 });
  plan_estimate = λ size. some (record { provider_cost = 50; minutes = 5 });
  halted = λ plan. some false;
  tripped = some false;
  paused = some [];
  peak_mode = none;
  peak_of = λ model. none;
  open_prs = λ repo. some 1;
  pull_open = λ repo number. some false;
  opted_in = λ plan. some true;
}

abbrev sight : Sight
sight = record {
  reads = reads;
  history = ok history;
  faults = λ id. no_faults;
  relations =
      (fw_1, record { known = true; blocked_by = []; blocks = []; blocked_by_open = [] }) ∷ [];
  links = [];
  prs = some 1;
  unchecked = [];
}

abbrev listing : List Candidate
listing = candidates (fw_1 ∷ []) queued_db

abbrev walked : Walked
walked = admit_claims config sight listing queued_db

abbrev claim_1 : Claim
claim_1 = record {
  run_id = fw_1;
  repo = codes "owner/app";
  priority = 2;
  stage = single;
  attempt = 0;
}

walk_claims : walked.claims ≡ claim_1 ∷ []
unfolding admit_claims candidates run attempt_claim
walk_claims = refl

admit_claims-Allowed_example : All (Allowed sight walked.db) walked.claims
admit_claims-Allowed_example = admit_claims-Allowed config sight listing queued_db

abbrev pub outside : Outside
outside = record {
  starts = λ id. some (codes "Todo");
  accepts = λ cl. true;
  releases = λ cl. true;
  now = λ id. now;
}

still_claimed : HeldByRun (dispatch_all outside (claim_1 ∷ []) walked.db).db fw_1
unfolding dispatch_all admit_claims candidates run attempt_claim
still_claimed = (_, refl, refl)

dispatch_all-started_example :
    In fw_1 (dispatch_all outside (claim_1 ∷ []) walked.db).dispatched
    ⊎ Unreleased fw_1 (dispatch_all outside (claim_1 ∷ []) walked.db)
dispatch_all-started_example =
    dispatch_all-started outside (claim_1 ∷ []) claim_1 walked.db (inl refl) still_claimed

abbrev free_candidate : Candidate
free_candidate = record {
  run_id = fw_1;
  repo = codes "owner/app";
  size = codes "S";
  private = true;
  priority = 2;
  model = free_model;
  review_model = free_model;
  plan_models = [];
  plan = [];
  stage = single;
  plan_files = [];
  attempt = 1;
  superseded_pr = 0;
  held = [];
}

abbrev free_asked : Asked
free_asked =
    asked_for config sight free_candidate (claim_stage free_candidate false)
      (record { provider_cost = 300; minutes = 20 })

free_asking : prepare config sight free_candidate ≡ asking free_asked
unfolding prepare
free_asking = refl

free_named : In free_model (named_free_models config free_candidate)
unfolding named_free_models
free_named = inl refl

prepare-consented_example : reads.opted_in (provider free_model) ≡ some true
prepare-consented_example =
    prepare-consented config sight free_candidate free_asked free_model free_asking refl free_named

-- Two runs are held on a paused project and four on the budget.
abbrev held_runs : Hold → ℕ
held_runs paused = 2
held_runs budget = 4
held_runs h = 0

ranked :
    rank_holds held_runs
    ≡ (record { reason = budget; count = 4 }) ∷ (record { reason = paused; count = 2 }) ∷ []
unfolding rank_holds
ranked = refl

-- A history that cannot be read, and a ledger that cannot.
abbrev unread : Result SettledHistory
unread = err history_unread

abbrev no_ledger : Faults
no_ledger = record { row_read = none; ledger_read = some store_failed; commit = none }

unread_results :
    (try_claim fw_1 now config.budget facts unread estimate queued_db ≡ err history_unread)
    × (attempt_claim no_ledger fw_1 now config.budget facts unread estimate queued_db
        ≡ err store_failed)
unfolding run try_claim attempt_claim
unread_results = (refl, refl)

attempt_claim-Fails_iff_example :
    (attempt_claim no_ledger fw_1 now config.budget facts unread estimate queued_db
      ≡ err store_failed)
    ↔ Fails no_ledger fw_1 config.budget facts unread estimate queued_db store_failed
attempt_claim-Fails_iff_example =
    attempt_claim-Fails_iff no_ledger fw_1 now config.budget facts unread estimate queued_db
      store_failed

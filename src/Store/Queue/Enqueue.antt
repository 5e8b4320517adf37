-- ===== src/Store/Queue/Enqueue.antt =====
-- Enqueue and the refreshes of a row that still waits to be claimed.
use forge_wingman.Prelude.{
  ℕ, Bool, true, false, not, ◌==◌, Option, none, some, List, [], if◌then◌else◌,
}
use forge_wingman.Text.{Text}
use forge_wingman.Time.{Time, is_zero}
use forge_wingman.Runner.{ModelLabels}
use forge_wingman.Store.Row.{Row, queued, is_candidate}
use forge_wingman.Store.Db.{
  Db, already_queued, not_found, Result, ok, err, or_err, ◌>>=◌, Rejection, put_run, update,
}

-- dispatcher.Queued, with the fields of its ticket
pub record Queued : Type 0 where
  pub run_id : Text
  pub title : Text
  pub body : Text
  pub size : Text
  pub sized_by : Text
  pub front_end : Bool
  pub repo : Text
  pub private : Bool
  pub priority : ℕ
  pub blocked_by : List Text
  pub blocks : List Text
  pub models : ModelLabels
  pub at : Time

-- The record of a new run with the queue's fields beside it.
unfoldable pub new_row : Queued → Row
new_row run = record {
  state = queued;
  ticket_id = run.run_id;
  ticket_title = run.title;
  ticket_body = run.body;
  repo = run.repo;
  size = run.size;
  sized_by = run.sized_by;
  front_end = run.front_end;
  private = some run.private;
  model_labels = run.models;
  linear_priority = some run.priority;
  queued_at = some run.at;
  started_at = run.at;
  updated_at = run.at;
  claimed_at = 0;
  waiting_on = [];
  claim_concurrency = 0;
  held_on = [];
  held_at = 0;
  attempt = 0;
  ticket_state = [];
  blocked_by = run.blocked_by;
  blocks = run.blocks;
  plan = [];
  plan_files = [];
  plan_settled_at = 0;
  plan_spend_micros = 0;
  plan_spend_minutes = 0;
  decision_mode = none;
  decisions = [];
  provisional_unposted = false;
  provisional_replied = false;
  run_url = [];
  outcome = none;
  build_outcome = none;
  stop_reason = none;
  stop_detail = [];
  transient = none;
  transient_requeues = [];
  settled_at = 0;
  settled_cost = 0;
  settled_minutes = 0;
  prior_settled_cost = 0;
  prior_settled_minutes = 0;
  retried_at = 0;
  abandoned_reason = [];
  abandoned_at = 0;
  cancelled_by_owner_at = 0;
  cancelled_by = [];
  ticket_closed_at = 0;
  merged_by_owner_at = 0;
  merged_sha = [];
  rewrite_merged_at = none;
  pr_url = [];
  pr_head_sha = [];
  checks_result = [];
  operator_note = [];
  operator_assisted = false;
  retried_by = [];
  superseded_pr = 0;
  superseded_attempt = none;
  superseded_by_retry = false;
}

-- Enqueue creates the row and clears an earlier refusal of the same ticket.
unfoldable pub enqueue : Queued → Db → Result Db
unfolding new_row put_run
enqueue run db = elim (db.runs run.run_id) [
  | some row ↦ err already_queued
  | none ↦ ok (record (put_run run.run_id (new_row run) db) {
    rejections = update db.rejections run.run_id none;
  })
]

-- Reject replaces an earlier refusal.
unfoldable pub reject : Text → Rejection → Db → Db
reject ticket r db = record db { rejections = update db.rejections ticket (some r) }

-- RecordTicketState
unfoldable pub record_ticket_state : Text → Text → Db → Result Db
unfolding put_run
record_ticket_state run_id state_id db = do
  row ← or_err (db.runs run_id) not_found
  ok (put_run run_id (record row { ticket_state = state_id }) db)

unfoldable pub same_rank : Option ℕ → ℕ → Bool
same_rank none rank = false
same_rank (some stored) rank = stored == rank

-- UpdateQueuedPriority reports whether the run holds the rank afterwards.
unfoldable pub update_queued_priority : Text → ℕ → Db → Bool × Db
unfolding is_candidate same_rank put_run
update_queued_priority run_id rank db = elim (db.runs run_id) [
  | none ↦ (false, db)
  | some row ↦
      if not (is_candidate row.state)
      then (false, db)
      else if same_rank row.linear_priority rank
      then (true, db)
      else (true, put_run run_id (record row { linear_priority = some rank }) db)
]

-- queuedAtSource
unfoldable pub queued_at_source : Row → Option Time
queued_at_source row =
    if not (is_zero row.started_at)
    then some row.started_at
    else if not (is_zero row.updated_at)
    then some row.updated_at
    else none

unfoldable pub stamp : Text → Row → Option Time → Option Time → Bool → Db → Bool × Db
unfolding put_run
stamp run_id row (some has) at dry_run db = (false, db)
stamp run_id row none none dry_run db = (false, db)
stamp run_id row none (some at) dry_run db =
    if not (is_candidate row.state)
    then (false, db)
    else if dry_run
    then (true, db)
    else (true, put_run run_id (record row { queued_at = some at }) db)

-- stampQueuedAt, one row of BackfillQueuedAt
unfoldable pub stamp_queued_at : Text → Bool → Db → Bool × Db
unfolding stamp queued_at_source
stamp_queued_at run_id dry_run db = elim (db.runs run_id) [
  | none ↦ (false, db)
  | some row ↦ stamp run_id row row.queued_at (queued_at_source row) dry_run db
]

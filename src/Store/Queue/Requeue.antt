-- ===== src/Store/Queue/Requeue.antt =====
-- The requeues: the transaction that they share, and what each decides in it.
use forge_wingman.Prelude.{
  ℕ, ◌+◌, Bool, true, false, ◌&&◌, ◌==◌, Option, none, some, List, [], ◌∷◌, ◌++◌, ltb, leb, length,
  if◌then◌else◌,
}
use forge_wingman.Text.{Text}
use forge_wingman.Time.{Time}
use forge_wingman.Runner.{TransientClass}
use forge_wingman.Store.Row.{
  Row, RunState, queued, planned, claimed, waiting, stopped, abandoned, other, has_ended,
  plan_stamped, is_abandoned,
}
use forge_wingman.Store.Ledger.{drop_reservations}
use forge_wingman.Store.Db.{
  Db, Error, not_found, dispatchable, waiting_on_decision, in_flight_still, abandoned_run,
  retries_exhausted, unrequeueable, Result, ok, err, or_err, ◌>>=◌, update, put_run, put_ledger,
}

abbrev pub holds_files : List Text → Bool
holds_files [] = false
holds_files (f ∷ fs) = true

-- A settled plan sends the run to planned, and every other run returns to queued.
unfoldable pub returned_state : Row → RunState
unfolding plan_stamped
returned_state row = if holds_files row.plan_files && plan_stamped row then planned else queued

unfoldable pub refusal : RunState → Bool → Option Error
refusal queued ended = if ended then none else some dispatchable
refusal planned ended = if ended then none else some dispatchable
refusal waiting ended = some waiting_on_decision
refusal claimed ended = if ended then none else some in_flight_still
refusal stopped ended = none
refusal abandoned ended = none
refusal (other s) ended = some unrequeueable

-- requeueState
unfoldable pub requeue_state : Row → Result RunState
unfolding refusal returned_state has_ended
requeue_state row = elim (refusal row.state (has_ended row)) [
  | none ↦ ok (returned_state row)
  | some e ↦ err e
]

pub record RequeueOptions : Type 0 where
  pub keep_note : Bool
  pub archive : Bool

pub record RequeueResult : Type 0 where
  pub state : RunState
  pub attempt : ℕ
  pub ticket_state : Text

-- An operator's requeue drops the note, and an automatic one keeps it.
abbrev pub plain : RequeueOptions
plain = record { keep_note = false; archive = false }

abbrev pub automatic : RequeueOptions
automatic = record { keep_note = true; archive = false }

-- clearNote
unfoldable pub clear_note : Row → Row
clear_note row = record row { operator_note = []; operator_assisted = false; retried_by = [] }

-- The updates that every requeue makes.
unfoldable pub requeued_row : Row → RunState → Time → Row
requeued_row row state at = record row {
  state = state;
  updated_at = at;
  claimed_at = 0;
  waiting_on = [];
  outcome = none;
  build_outcome = none;
  stop_reason = none;
  stop_detail = [];
  transient = none;
  cancelled_by_owner_at = 0;
  cancelled_by = [];
  ticket_closed_at = 0;
  retried_at = at;
  abandoned_reason = [];
  abandoned_at = 0;
  ticket_state = [];
  queued_at = some at;
  attempt = row.attempt + 1;
  decision_mode = none;
  pr_head_sha = [];
  checks_result = [];
}

abbrev pub noted : Bool → Row → Row
noted true row = row
noted false row = clear_note row

abbrev pub archived : Bool → Text → Row → Time → Db → Db
archived false run_id row at db = db
archived true run_id row at db = record db {
  archive = update db.archive run_id (λ n.
      if n == row.attempt
      then some (record { row = row; superseded_by_attempt = row.attempt + 1; archived_at = at })
      else db.archive run_id n);
}

-- What a requeue decides from the row: the state the run returns to and the updates beside the common
-- ones, or the refusal.
abbrev pub Decide : Type 0
Decide = Row → Result (RunState × (Row → Row))

unfoldable pub requeue : Text → Time → RequeueOptions → Decide → Db → Result (RequeueResult × Db)
unfolding requeued_row clear_note drop_reservations put_run put_ledger
requeue run_id at opts decide db = do
  row ← or_err (db.runs run_id) not_found
  decided ← decide row
  let (state, extra) = decided
  ok (
    record { state = state; attempt = row.attempt + 1; ticket_state = row.ticket_state },
    put_run run_id (extra (noted opts.keep_note (requeued_row row state at))) (
        put_ledger (drop_reservations db.ledger run_id row.attempt)
          (archived opts.archive run_id row at db)),
  )

abbrev pub unchanged : Row → Row
unchanged row = row

-- Requeue, an operator's
unfoldable pub decide_operator : Decide
unfolding requeue_state
decide_operator row = do state ← requeue_state row; ok (state, unchanged)

unfoldable pub requeue_operator : Text → Time → Db → Result (RequeueResult × Db)
unfolding requeue decide_operator
requeue_operator run_id at db = requeue run_id at plain decide_operator db

-- What the failed attempt settled is carried for the next record to add to its own.
unfoldable pub carry_settled : Row → Row → Row
carry_settled old row = record row {
  prior_settled_cost = old.settled_cost;
  prior_settled_minutes = old.settled_minutes;
}

-- RequeueAfterConflict
unfoldable pub decide_conflict : ℕ → Decide
unfolding requeue_state carry_settled is_abandoned
decide_conflict max_attempts row = if is_abandoned row.state then err abandoned_run else do
  state ← requeue_state row
  (if ltb max_attempts (row.attempt + 1)
      then err retries_exhausted
      else ok (queued, carry_settled row))

unfoldable pub requeue_after_conflict : Text → Time → ℕ → Db → Result (RequeueResult × Db)
unfolding requeue decide_conflict
requeue_after_conflict run_id at max_attempts db =
    requeue run_id at automatic (decide_conflict max_attempts) db

unfoldable pub with_transient : TransientClass → Time → Row → Row → Row
with_transient class at old row = record row {
  transient_requeues = old.transient_requeues ++ (class, at) ∷ [];
}

-- RequeueTransient
unfoldable pub decide_transient : TransientClass → ℕ → Time → Decide
unfolding requeue_state with_transient
decide_transient class limit at row = do
  state ← requeue_state row
  (if leb limit (length row.transient_requeues)
      then err retries_exhausted
      else ok (state, with_transient class at row))

unfoldable pub requeue_transient :
    Text → Time → TransientClass → ℕ → Db → Result (RequeueResult × Db)
unfolding requeue decide_transient
requeue_transient run_id at class limit db =
    requeue run_id at automatic (decide_transient class limit at) db

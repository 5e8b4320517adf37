-- ===== src/Store/Retry.antt =====
-- internal/store/retry.go: the owner's retry of a run with a note, and the changes of a retried run that
-- waits for its claim. ValidNote of internal/runner/ticket.go, over ASCII notes, which are valid UTF-8.
use forge_wingman.Prelude.{
  ℕ, ◌+◌, ◌*◌, ◌^◌, Bool, true, false, not, ◌&&◌, ◌||◌, ◌==◌, Option, none, some, leb,
  if◌then◌else◌, length, contains_func,
}
use forge_wingman.Text.{Text, text_eq, texts_eq, is_empty}
use forge_wingman.Time.{Time}
use forge_wingman.Runner.{Outcome, no_changes, StopReason, ModelLabels}
use forge_wingman.Store.Row.{Row, queued, is_candidate, is_abandoned, merged_row, cancelled_row}
use forge_wingman.Store.Db.{
  Db, Error, note_invalid, actor_missing, retry_applied, attempt_moved, run_merged, run_cancelled,
  run_no_changes, abandoned_run, Result, ok, err, ◌>>=◌,
}
use forge_wingman.Store.Queue.Release.{stopped_row}
use forge_wingman.Store.Queue.Requeue.{
  RequeueOptions, RequeueResult, Decide, requeue, requeue_state,
}
use forge_wingman.Store.Decisions.{is_blank, update_row}
use forge_wingman.Store.Decisions.Provisional.{supersede_updates}

pub record RetryRequest : Type 0 where
  pub note : Text
  pub actor : Text
  pub expected_attempt : ℕ
  pub supersede_pr : ℕ

-- What a retry reports: the attempt that the run is back as, and whether the request had been applied.
pub record RetryResult : Type 0 where
  pub attempt : ℕ
  pub already : Bool

abbrev pub max_note_bytes : ℕ
max_note_bytes = 4 * 2 ^ 10

unfoldable pub valid_note : Text → Bool
valid_note note = leb (length note) max_note_bytes && not (contains_func (λ c. c == 0) note)

abbrev is_no_changes : Option Outcome → Bool
is_no_changes (some no_changes) = true
is_no_changes _ = false

-- The checks ahead of requeueState, in their order.
unfoldable pub retry_refusal : RetryRequest → Row → Option Error
unfolding text_eq merged_row cancelled_row is_abandoned
retry_refusal req row =
    if row.attempt == req.expected_attempt + 1
      && text_eq row.operator_note req.note
      && text_eq row.retried_by req.actor
    then some retry_applied
    else if not (row.attempt == req.expected_attempt)
    then some attempt_moved
    else if merged_row row
    then some run_merged
    else if cancelled_row row
    then some run_cancelled
    else if is_no_changes row.outcome
    then some run_no_changes
    else if is_abandoned row.state
    then some abandoned_run
    else none

unfoldable pub retried_row : RetryRequest → Row → Row → Row
unfolding supersede_updates
retried_row req old row = record (supersede_updates old req.supersede_pr true row) {
  operator_note = req.note;
  operator_assisted = true;
  retried_by = req.actor;
}

unfoldable pub decide_retry : RetryRequest → Decide
unfolding retry_refusal retried_row requeue_state
decide_retry req row = elim (retry_refusal req row) [
  | some e ↦ err e
  | none ↦ do state ← requeue_state row; ok (queued, retried_row req row)
]

unfoldable pub retry_result :
    RetryRequest → Db → Result (RequeueResult × Db) → Result (RetryResult × Db)
retry_result req db (ok (r, db')) = ok (record { attempt = r.attempt; already = false }, db')
retry_result req db (err retry_applied) =
    ok (record { attempt = req.expected_attempt + 1; already = true }, db)
retry_result req db (err e) = err e

abbrev pub retry_options : RequeueOptions
retry_options = record { keep_note = true; archive = true }

-- RetryWithNote
unfoldable pub retry_with_note : Text → RetryRequest → Time → Db → Result (RetryResult × Db)
unfolding is_blank valid_note retry_result requeue decide_retry
retry_with_note run_id req at db =
    if is_blank req.note || not (valid_note req.note)
    then err note_invalid
    else if is_blank req.actor
    then err actor_missing
    else retry_result req db (requeue run_id at retry_options (decide_retry req) db)

-- retriedAwaitingClaim
unfoldable pub retried_awaiting_claim : Row → Bool
unfolding is_candidate
retried_awaiting_claim row = not (is_empty row.retried_by) && is_candidate row.state

-- updateRetried
unfoldable pub update_retried : Text → (Row → Option Row) → Db → Bool × Db
unfolding update_row retried_awaiting_claim
update_retried run_id decide db =
    update_row run_id (λ row. if retried_awaiting_claim row then decide row else none) db

-- sameModels
unfoldable pub same_models : ModelLabels → ModelLabels → Bool
unfolding texts_eq text_eq
same_models a b = text_eq a.build b.build && text_eq a.review b.review && texts_eq a.plan b.plan

unfoldable pub refresh_retried_models : Text → ModelLabels → Db → Bool × Db
unfolding update_retried same_models
refresh_retried_models run_id m db =
    update_retried run_id
      (λ row.
        if same_models row.model_labels m then none else some (record row { model_labels = m }))
      db

unfoldable pub stop_retried : Text → StopReason → Text → Time → Db → Bool × Db
unfolding update_retried stopped_row
stop_retried run_id reason detail at db =
    update_retried run_id (λ row. some (stopped_row row reason detail at)) db

-- ===== src/Store/Inbox.antt =====
-- The owner's marks on a run's row: RecordMerge and RecordCancel of internal/store/firestore.go, with the
-- tests on a row of internal/store/inbox.go, stuck.go and history.go that they read.
use forge_wingman.Prelude.{
  Bool, true, false, not, ◌&&◌, Option, none, some, ltb, if◌then◌else◌, length,
}
use forge_wingman.Text.{Text, is_empty}
use forge_wingman.Time.{Time}
use forge_wingman.Runner.{
  Outcome, built, pr_opened, no_changes, stopped, agent_failed, infra_failure, budget_stop,
}
use forge_wingman.Store.Row.{Row, RunState, is_claimed, merged_row, cancelled_row, is_recorded}
use forge_wingman.Store.Db.{
  Db, Error, not_found, run_merged, run_cancelled, run_not_waiting, Result, ok, err, or_err, ◌>>=◌,
  put_run,
}

-- slices.Contains(noPROutcomes, outcome)
unfoldable pub is_no_pr : Option Outcome → Bool
is_no_pr (some built) = true
is_no_pr (some no_changes) = true
is_no_pr (some stopped) = true
is_no_pr (some agent_failed) = true
is_no_pr (some infra_failure) = true
is_no_pr (some budget_stop) = true
is_no_pr _ = false

unfoldable pub is_pr_opened : Option Outcome → Bool
is_pr_opened (some pr_opened) = true
is_pr_opened _ = false

unfoldable pub made_no_changes : Option Outcome → Bool
made_no_changes (some no_changes) = true
made_no_changes _ = false

unfoldable pub is_stopped : RunState → Bool
is_stopped RunState.stopped = true
is_stopped _ = false

-- Whether finishedClaim reports a claim: it does not when the claim is later than the settle.
unfoldable pub finished_claim : Row → Bool
unfolding is_claimed is_no_pr
finished_claim row =
    is_claimed row.state
    && is_empty row.pr_url
    && is_no_pr row.outcome
    && not (ltb row.settled_at row.claimed_at)

-- requeueDue: below dispatcher.DefaultTransientRequeues
unfoldable pub requeue_due : Row → Bool
requeue_due row = is_recorded row.transient && ltb (length row.transient_requeues) 2

unfoldable pub stopped_run : Row → Bool
unfolding finished_claim is_stopped made_no_changes merged_row requeue_due
stopped_run row =
    if not (finished_claim row) && not (is_stopped row.state)
    then false
    else not (made_no_changes row.outcome) && not (merged_row row) && not (requeue_due row)

-- The row that a recorded cancel leaves.
unfoldable pub cancelled_by_owner : Text → Time → Row → Row
cancelled_by_owner by at row = record row { cancelled_by_owner_at = at; cancelled_by = by }

-- The checks of RecordCancel, in their order.
unfoldable pub cancel_refusal : Row → Option Error
unfolding merged_row cancelled_row is_pr_opened stopped_run
cancel_refusal row =
    if merged_row row
    then some run_merged
    else if cancelled_row row
    then some run_cancelled
    else if not (is_pr_opened row.outcome) && not (stopped_run row)
    then some run_not_waiting
    else none

-- RecordCancel
unfoldable pub record_cancel : Text → Text → Time → Db → Result Db
unfolding cancel_refusal cancelled_by_owner put_run
record_cancel id by at db = elim (db.runs id) [
  | none ↦ err not_found
  | some row ↦ elim (cancel_refusal row) [
    | some e ↦ err e
    | none ↦ ok (put_run id (cancelled_by_owner by at row) db)
  ]
]

-- RecordMerge, whose update fails on a run that is missing
unfoldable pub record_merge : Text → Text → Time → Db → Result Db
unfolding put_run
record_merge id sha at db = do
  row ← or_err (db.runs id) not_found
  ok (put_run id (record row { merged_by_owner_at = at; merged_sha = sha }) db)

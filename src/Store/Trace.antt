-- ===== src/Store/Trace.antt =====
-- Sequences of the queue's transactions, as the dispatcher's polls, the record jobs, the webhook and
-- the operator interleave them. Firestore serialises them, and one that fails writes nothing.
pub mod Steps
pub mod Balance
pub mod Cap
pub mod Traced
use forge_wingman.Prelude.{ℕ, ◌≡◌, ◌≢◌, ◌≤◌, Bool, Option, none, some, List, [], ◌∷◌}
use forge_wingman.Text.{Text}
use forge_wingman.Time.{Time}
use forge_wingman.Runner.{StopReason, TransientClass, Decision, ModelLabels}
use forge_wingman.Dispatcher.{Stage}
use forge_wingman.Dispatcher.Budget.{BudgetConfig, Reservation}
use forge_wingman.Dispatcher.Settled.{SettledHistory}
use forge_wingman.Dispatcher.Admit.{Facts}
use forge_wingman.Dispatcher.Concurrency.{FloatOps}
use forge_wingman.Store.Keys.Distinct.{IsRunId}
use forge_wingman.Store.Row.{Row, claimed}
use forge_wingman.Store.Ledger.{empty_ledger}
use forge_wingman.Store.Db.{Db, Notice, Result, ok, err, Rejection}
use forge_wingman.Store.Queue.Enqueue.{
  Queued, enqueue, reject, record_ticket_state, update_queued_priority, stamp_queued_at,
}
use forge_wingman.Store.Queue.Refresh.{refresh_queued_ticket}
use forge_wingman.Store.Queue.Claim.{try_claim}
use forge_wingman.Store.Queue.Release.{release, stop}
use forge_wingman.Store.Queue.Requeue.{requeue_operator, requeue_after_conflict, requeue_transient}
use forge_wingman.Store.Queue.Settle.{RecentDurations, settle, adopt_runs_at_once}
use forge_wingman.Store.Decisions.{suspend, take_recommendation, posted, answer, stop_waiting}
use forge_wingman.Store.Decisions.Provisional.{
  reply, posted_provisional, confirm_provisional, clear_provisional_reply, supersede,
}
use forge_wingman.Store.Sweep.{AbandonWindows, abandon, release_if_settled, raise}
use forge_wingman.Store.Holds.{record_hold}
use forge_wingman.Store.Inbox.{record_cancel, record_merge}
use forge_wingman.Store.Retry.{RetryRequest, retry_with_note, refresh_retried_models, stop_retried}

-- One transaction, with what its caller passes.
pub data Op : Type 0 where
  op_enqueue : Queued → Op
  op_reject : Text → Rejection → Op
  op_ticket_state : Text → Text → Op
  op_priority : Text → ℕ → Op
  op_stamp : Text → Bool → Op
  op_refresh : Queued → Op
  op_claim : Text → Time → BudgetConfig → Facts → Result SettledHistory → Reservation → Op
  op_release : Text → Time → Op
  op_stop : Text → StopReason → Text → Time → Op
  op_requeue : Text → Time → Op
  op_requeue_conflict : Text → Time → ℕ → Op
  op_requeue_transient : Text → Time → TransientClass → ℕ → Op
  op_settle : RecentDurations → Text → Option ℕ → Stage → Op
  op_adopt : ℕ → Op
  op_suspend : Text → Decision → Text → Time → Op
  op_take : Text → Decision → Text → Time → Op
  op_posted : Text → Text → Time → Op
  op_reply : Text → Text → Text → Time → Op
  op_answer : Text → Text → Time → Op
  op_stop_waiting : Text → Decision → Time → Op
  op_posted_provisional : Text → Text → Time → Op
  op_confirm : Text → ℕ → Time → Time → Op
  op_clear_reply : Text → Time → Op
  op_supersede : Text → ℕ → Time → Text → Time → Op
  op_retry : Text → RetryRequest → Time → Op
  op_refresh_models : Text → ModelLabels → Op
  op_stop_retried : Text → StopReason → Text → Time → Op
  op_abandon : Text → Time → AbandonWindows → Op
  op_release_settled : Text → Time → AbandonWindows → Op
  op_cancel : Text → Text → Time → Op
  op_merge : Text → Text → Time → Op
  op_hold : Text → Text → Text → Time → Op
  op_raise : Text × Notice → Op

-- The state that a transaction leaves: its own where it commits, the one before where it fails.
abbrev pub left {ℓ} : {A : Type ℓ} → (A → Db) → Db → Result A → Db
left f db (ok a) = f a
left f db (err e) = db

abbrev itself : Db → Db
itself db = db

unfoldable pub apply : FloatOps → Op → Db → Db
unfolding enqueue reject record_ticket_state update_queued_priority stamp_queued_at
    refresh_queued_ticket try_claim release stop requeue_operator requeue_after_conflict
    requeue_transient settle adopt_runs_at_once suspend take_recommendation posted reply answer
    stop_waiting posted_provisional confirm_provisional clear_provisional_reply supersede
    retry_with_note refresh_retried_models stop_retried abandon release_if_settled record_cancel
    record_merge record_hold raise
apply ops (op_enqueue run) db = left itself db (enqueue run db)
apply ops (op_reject ticket r) db = reject ticket r db
apply ops (op_ticket_state id state) db = left itself db (record_ticket_state id state db)
apply ops (op_priority id rank) db = (update_queued_priority id rank db).1
apply ops (op_stamp id dry) db = (stamp_queued_at id dry db).1
apply ops (op_refresh run) db = (refresh_queued_ticket run db).1
apply ops (op_claim id at cfg facts history res) db =
    left (λ r. r.1) db (try_claim id at cfg facts history res db)
apply ops (op_release id at) db = left itself db (release id at db)
apply ops (op_stop id reason detail at) db = left itself db (stop id reason detail at db)
apply ops (op_requeue id at) db = left (λ r. r.1) db (requeue_operator id at db)
apply ops (op_requeue_conflict id at most) db =
    left (λ r. r.1) db (requeue_after_conflict id at most db)
apply ops (op_requeue_transient id at class limit) db =
    left (λ r. r.1) db (requeue_transient id at class limit db)
apply ops (op_settle recent id attempt stage) db =
    left itself db (settle ops recent id attempt stage db)
apply ops (op_adopt n) db = adopt_runs_at_once n db
apply ops (op_suspend id d url at) db = left itself db (suspend id d url at db)
apply ops (op_take id d url at) db = left itself db (take_recommendation id d url at db)
apply ops (op_posted id session at) db = posted id session at db
apply ops (op_reply id session text at) db = (reply id session text at db).1
apply ops (op_answer id choice at) db = answer id choice at db
apply ops (op_stop_waiting id d at) db = left itself db (stop_waiting id d at db)
apply ops (op_posted_provisional id session at) db = posted_provisional id session at db
apply ops (op_confirm id index replied at) db = confirm_provisional id index replied at db
apply ops (op_clear_reply id replied) db = clear_provisional_reply id replied db
apply ops (op_supersede id index replied choice at) db =
    left (λ r. r.1) db (supersede id index replied choice at db)
apply ops (op_retry id req at) db = left (λ r. r.1) db (retry_with_note id req at db)
apply ops (op_refresh_models id m) db = (refresh_retried_models id m db).1
apply ops (op_stop_retried id reason detail at) db = (stop_retried id reason detail at db).1
apply ops (op_abandon id now w) db = (abandon id now w db).1
apply ops (op_release_settled key now w) db = (release_if_settled key now w db).1
apply ops (op_cancel id by at) db = left itself db (record_cancel id by at db)
apply ops (op_merge id sha at) db = left itself db (record_merge id sha at db)
apply ops (op_hold id reason day at) db = record_hold id reason day at db
apply ops (op_raise notice) db = raise notice db

unfoldable pub run : FloatOps → List Op → Db → Db
unfolding apply
run ops [] db = db
run ops (o ∷ os) db = run ops os (apply ops o db)

-- The store before the first poll.
abbrev pub initial : Db
initial = record {
  runs = λ id. none;
  ledger = empty_ledger;
  rejections = λ id. none;
  notices = λ id. none;
  archive = λ id n. none;
}

-- The run that a transaction is about, where it reads or books a reservation, has a ticket id; and a
-- wait is stopped only of a run that is not claimed.
abbrev pub IsSound : Db → Op → Type 0
IsSound db (op_claim id at cfg facts history res) = IsRunId id
IsSound db (op_release id at) = IsRunId id
IsSound db (op_stop id reason detail at) = IsRunId id
IsSound db (op_settle recent id attempt stage) = IsRunId id
IsSound db (op_suspend id d url at) = IsRunId id
IsSound db (op_take id d url at) = IsRunId id
IsSound db (op_stop_waiting id d at) = (row : Row) → db.runs id ≡ some row → row.state ≢ claimed
IsSound db o = Unit

unfoldable pub AreSound : FloatOps → List Op → Db → Type 0
unfolding apply
AreSound ops [] db = Unit
AreSound ops (o ∷ os) db = IsSound db o × AreSound ops os (apply ops o db)

-- ===== src/Store/Trace/Balance.antt =====
-- The books through every sequence of the queue's transactions.
use mathlib.Core.Option.{none-ne-some}
use forge_wingman.Prelude.{List, [], ◌∷◌}
use forge_wingman.GoMap.{lookup}
use forge_wingman.Dispatcher.Concurrency.{FloatOps}
use forge_wingman.Store.Db.{Db}
use forge_wingman.Store.Queue.Requeue.{
  plain, automatic, decide_operator, decide_conflict, decide_transient,
}
use forge_wingman.Store.Decisions.{answered_row, posted_at_row}
use forge_wingman.Store.Decisions.Provisional.{
  posted_provisional_row, confirmed_row, cleared_row, decide_supersede,
}
use forge_wingman.Store.Accounting.Operations.{
  Balanced, release-Balanced, stop-Balanced, enqueue-Balanced, requeue-Balanced,
}
use forge_wingman.Store.Accounting.Claims.{try_claim-Balanced, settle-Balanced, adopt-Balanced}
use forge_wingman.Store.Accounting.Waits.{
  raise-Balanced, update_row-Balanced, take_recommendation-Balanced, answered-IsHarmless,
  abandon-Balanced, release_if_settled-Balanced, retry_with_note-Balanced, update_retried-Balanced,
  suspend-Balanced, waiting_stopped-Balanced,
}
use forge_wingman.Store.Trace.{
  Op, op_enqueue, op_reject, op_ticket_state, op_priority, op_stamp, op_refresh, op_claim,
  op_release, op_stop, op_requeue, op_requeue_conflict, op_requeue_transient, op_settle, op_adopt,
  op_suspend, op_take, op_posted, op_reply, op_answer, op_stop_waiting, op_posted_provisional,
  op_confirm, op_clear_reply, op_supersede, op_retry, op_refresh_models, op_stop_retried,
  op_abandon, op_release_settled, op_cancel, op_merge, op_hold, op_raise, apply, run, initial,
  IsSound, AreSound,
}
use forge_wingman.Store.Trace.Steps.{
  hold-Balanced, left-Balanced, posted-IsHarmless, posted_provisional-IsHarmless,
  confirmed-IsHarmless, cleared-IsHarmless, ticket_state-Balanced, cancel-Balanced, merge-Balanced,
  priority-Balanced, stamp-Balanced, refresh-Balanced, reply-Balanced,
}

apply-Balanced :
    (ops : FloatOps) (o : Op) (db : Db) → Balanced db → IsSound db o → Balanced (apply ops o db)
unfolding apply
apply-Balanced ops (op_enqueue q) db bal sound =
    left-Balanced _ db _ bal (enqueue-Balanced q db bal)
apply-Balanced ops (op_reject ticket r) db bal sound = bal
apply-Balanced ops (op_ticket_state id state) db bal sound =
    left-Balanced _ db _ bal (ticket_state-Balanced id state db bal)
apply-Balanced ops (op_cancel id by at) db bal sound =
    left-Balanced _ db _ bal (cancel-Balanced id by at db bal)
apply-Balanced ops (op_merge id sha at) db bal sound =
    left-Balanced _ db _ bal (merge-Balanced id sha at db bal)
apply-Balanced ops (op_hold id reason day at) db bal sound = hold-Balanced id reason day at db bal
apply-Balanced ops (op_raise notice) db bal sound = raise-Balanced notice db bal
apply-Balanced ops (op_priority id rank) db bal sound = priority-Balanced id rank db bal
apply-Balanced ops (op_stamp id dry) db bal sound = stamp-Balanced id dry db bal
apply-Balanced ops (op_refresh q) db bal sound = refresh-Balanced q db bal
apply-Balanced ops (op_claim id at cfg facts history res) db bal sound =
    left-Balanced _ db _ bal (try_claim-Balanced id at cfg facts history res db bal sound)
apply-Balanced ops (op_release id at) db bal sound =
    left-Balanced _ db _ bal (release-Balanced id at db bal sound)
apply-Balanced ops (op_stop id reason detail at) db bal sound =
    left-Balanced _ db _ bal (stop-Balanced id reason detail at db bal sound)
apply-Balanced ops (op_requeue id at) db bal sound =
    left-Balanced _ db _ bal (requeue-Balanced id at plain decide_operator db bal)
apply-Balanced ops (op_requeue_conflict id at most) db bal sound =
    left-Balanced _ db _ bal (requeue-Balanced id at automatic (decide_conflict most) db bal)
apply-Balanced ops (op_requeue_transient id at class limit) db bal sound =
    left-Balanced _ db _ bal
      (requeue-Balanced id at automatic (decide_transient class limit at) db bal)
apply-Balanced ops (op_settle recent id attempt stage) db bal sound =
    left-Balanced _ db _ bal (settle-Balanced ops recent id attempt stage db bal sound)
apply-Balanced ops (op_adopt n) db bal sound = adopt-Balanced n db bal
apply-Balanced ops (op_suspend id d url at) db bal sound =
    left-Balanced _ db _ bal (suspend-Balanced id d url at db bal sound)
apply-Balanced ops (op_take id d url at) db bal sound =
    left-Balanced _ db _ bal (take_recommendation-Balanced id d url at db bal sound)
apply-Balanced ops (op_posted id session at) db bal sound =
    update_row-Balanced id (posted_at_row session at) db (posted-IsHarmless session at) bal
apply-Balanced ops (op_reply id session text at) db bal sound =
    reply-Balanced id session text at db bal
apply-Balanced ops (op_answer id choice at) db bal sound =
    update_row-Balanced id (answered_row choice at) db (answered-IsHarmless choice at) bal
apply-Balanced ops (op_stop_waiting id d at) db bal sound =
    left-Balanced _ db _ bal (waiting_stopped-Balanced id d at db bal sound)
apply-Balanced ops (op_posted_provisional id session at) db bal sound =
    update_row-Balanced id (posted_provisional_row session at) db
      (posted_provisional-IsHarmless session at) bal
apply-Balanced ops (op_confirm id index replied at) db bal sound =
    update_row-Balanced id (confirmed_row index replied at) db
      (confirmed-IsHarmless index replied at) bal
apply-Balanced ops (op_clear_reply id replied) db bal sound =
    update_row-Balanced id (cleared_row replied) db (cleared-IsHarmless replied) bal
apply-Balanced ops (op_supersede id index replied choice at) db bal sound =
    left-Balanced _ db _ bal
      (requeue-Balanced id at plain (decide_supersede index replied choice) db bal)
apply-Balanced ops (op_retry id req at) db bal sound =
    left-Balanced _ db _ bal (retry_with_note-Balanced id req at db bal)
apply-Balanced ops (op_refresh_models id m) db bal sound = update_retried-Balanced id _ db bal
apply-Balanced ops (op_stop_retried id reason detail at) db bal sound =
    update_retried-Balanced id _ db bal
apply-Balanced ops (op_abandon id now w) db bal sound = abandon-Balanced id now w db bal
apply-Balanced ops (op_release_settled key now w) db bal sound =
    release_if_settled-Balanced key now w db bal

pub initial-Balanced : Balanced initial
unfolding lookup
initial-Balanced = record {
  booked = λ k e h. absurd (none-ne-some e h);
  single = λ j k d e h i p. absurd (none-ne-some d h);
}

-- Through a sequence of the queue's transactions in which StopWaiting, which writes without a read, meets no run that
-- is claimed, the ledger's books stay balanced if they were: every reservation is that of a run that is claimed, under the key of its
-- row's attempt and of the stage booked, and no run holds two. The runs that transactions claim, release, settle,
-- suspend or stop have ticket ids.
pub run-Balanced :
    (ops : FloatOps) (os : List Op) (db : Db)
    → Balanced db
    → AreSound ops os db
    → Balanced (run ops os db)
unfolding run AreSound
run-Balanced ops [] db bal sound = bal
run-Balanced ops (o ∷ os) db bal sound =
    run-Balanced ops os (apply ops o db) (apply-Balanced ops o db bal sound.0) sound.1

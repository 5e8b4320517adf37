-- ===== src/Examples/Requeues.antt =====
-- The theorems about the requeues, on a run that a poll's dispatch stopped.
use forge_wingman.Prelude.{
  ◌+◌, ◌<◌, ◌≤◌, ◌≡◌, refl, arith, true, false, some, List, [], ◌∷◌, ◌++◌, length,
}
use forge_wingman.Text.{codes}
use forge_wingman.Runner.{lost_runner, setup}
use forge_wingman.Store.Row.{Row, queued}
use forge_wingman.Store.Db.{Db, ok}
use forge_wingman.Store.Queue.Requeue.{
  RequeueResult, requeue_operator, requeue_transient, requeue_after_conflict,
}
use forge_wingman.Store.Retry.{RetryRequest, RetryResult, retry_with_note}
use forge_wingman.Store.Keys.Distinct.{IsRunId}
use forge_wingman.Store.Accounting.Operations.{Balanced}
use forge_wingman.Store.Trace.{Op, op_enqueue, op_claim, op_stop, run, initial, left, AreSound}
use forge_wingman.Store.Trace.Balance.{run-Balanced, initial-Balanced}
use forge_wingman.Store.Effects.Requeue.{Returned}
use forge_wingman.Store.Effects.Requeue.Operator.{requeue_operator-Returned}
use forge_wingman.Store.Effects.Requeue.Automatic.{
  requeue_transient-counted, requeue_after_conflict-carried,
}
use forge_wingman.Store.Effects.Requeue.Retry.{Retried, retry_with_note-once}
use forge_wingman.Examples.{fw_1, whole_numbers, budget, estimate, facts, now, history, ticket_run}

fw_1-IsRunId : IsRunId fw_1
fw_1-IsRunId = ground arith

abbrev stopping : List Op
stopping =
    op_enqueue (ticket_run fw_1)
    ∷ op_claim fw_1 now budget facts (ok history) estimate
    ∷ op_stop fw_1 setup (codes "no image") now
    ∷ []

abbrev stopped_db : Db
stopped_db = run whole_numbers stopping initial

stopping_sound : AreSound whole_numbers stopping initial
unfolding AreSound
stopping_sound = (tt, (fw_1-IsRunId, (fw_1-IsRunId, tt)))

stopped_db-Balanced : Balanced stopped_db
stopped_db-Balanced = run-Balanced whole_numbers stopping initial initial-Balanced stopping_sound

abbrev back_in_queue : RequeueResult
back_in_queue = record { state = queued; attempt = 1; ticket_state = [] }

abbrev requeued_1 : Db
requeued_1 = left (λ r. r.1) stopped_db (requeue_operator fw_1 now stopped_db)

requeue_result : requeue_operator fw_1 now stopped_db ≡ ok (back_in_queue, requeued_1)
unfolding run requeue_operator
requeue_result = refl

requeue_operator-Returned_example : Returned fw_1 stopped_db back_in_queue requeued_1
requeue_operator-Returned_example =
    requeue_operator-Returned fw_1 now stopped_db back_in_queue requeued_1 stopped_db-Balanced
      requeue_result

abbrev transient_1 : Db
transient_1 = left (λ r. r.1) stopped_db (requeue_transient fw_1 now lost_runner 2 stopped_db)

transient_result :
    requeue_transient fw_1 now lost_runner 2 stopped_db ≡ ok (back_in_queue, transient_1)
unfolding run requeue_transient
transient_result = refl

requeue_transient-counted_example :
    Returned fw_1 stopped_db back_in_queue transient_1
    × ((old : Row) × (row : Row) × (stopped_db.runs fw_1 ≡ some old)
        × (transient_1.runs fw_1 ≡ some row)
        × (length old.transient_requeues < 2)
        × (row.transient_requeues ≡ old.transient_requeues ++ (lost_runner, now) ∷ []))
requeue_transient-counted_example =
    requeue_transient-counted fw_1 now lost_runner 2 stopped_db back_in_queue transient_1
      stopped_db-Balanced transient_result

abbrev conflict_1 : Db
conflict_1 = left (λ r. r.1) stopped_db (requeue_after_conflict fw_1 now 3 stopped_db)

conflict_result : requeue_after_conflict fw_1 now 3 stopped_db ≡ ok (back_in_queue, conflict_1)
unfolding run requeue_after_conflict
conflict_result = refl

requeue_after_conflict-carried_example :
    Returned fw_1 stopped_db back_in_queue conflict_1
    × (queued ≡ queued)
    × (back_in_queue.attempt ≤ 3)
    × ((old : Row) × (row : Row) × (stopped_db.runs fw_1 ≡ some old)
        × (conflict_1.runs fw_1 ≡ some row)
        × (row.prior_settled_cost ≡ old.settled_cost)
        × (row.prior_settled_minutes ≡ old.settled_minutes))
requeue_after_conflict-carried_example =
    requeue_after_conflict-carried fw_1 now 3 stopped_db back_in_queue conflict_1
      stopped_db-Balanced conflict_result

abbrev pub request : RetryRequest
request = record {
  note = codes "use the flag";
  actor = codes "owner";
  expected_attempt = 0;
  supersede_pr = 0;
}

abbrev applied : RetryResult
applied = record { attempt = 1; already = false }

abbrev retried_1 : Db
retried_1 = left (λ r. r.1) stopped_db (retry_with_note fw_1 request now stopped_db)

retry_done : retry_with_note fw_1 request now stopped_db ≡ ok (applied, retried_1)
unfolding run retry_with_note
retry_done = refl

retry_with_note-once_example :
    Retried fw_1 request now stopped_db retried_1
    × (retry_with_note fw_1 request now retried_1
        ≡ ok (record { attempt = 0 + 1; already = true }, retried_1))
retry_with_note-once_example =
    retry_with_note-once fw_1 request now now stopped_db applied retried_1 retry_done refl

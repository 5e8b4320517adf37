-- ===== src/Poll/Requeues/Kept.antt =====
-- The requeue of the stopped runs is single transactions, one after another.
use mathlib.Core.Path.{subst}
use forge_wingman.Prelude.{◌≡◌, refl, sym, inl, inr, List, [], ◌∷◌, leb, Bool-cases}
use forge_wingman.Text.{is_empty}
use forge_wingman.Time.{Time}
use forge_wingman.Dispatcher.Concurrency.{FloatOps}
use forge_wingman.Store.Db.{Db, Result, ok, err}
use forge_wingman.Store.Queue.Requeue.{RequeueResult, requeue_transient}
use forge_wingman.Store.Sweep.{raise}
use forge_wingman.Store.Trace.{Op, left, op_requeue_transient, op_raise, apply}
use forge_wingman.Store.Trace.Traced.{Traced, Traced-refl, Traced-trans, one_step}
use forge_wingman.Poll.Requeues.{
  TransientStop, default_transient_requeues, exhausted_notice, Requeued, requeued, requeue_stopped,
}

requeued_db :
    (s : TransientStop) (db : Db) (r : Result (RequeueResult × Db)) (rest : Db → Requeued)
    → (requeued s db r rest).db ≡ (rest (left (λ r. r.1) db r)).db
unfolding requeued
requeued_db s db (err e) rest = refl
requeued_db s db (ok (res, after)) rest = elim (Bool-cases (is_empty res.ticket_state)) [
  | inl none_held ↦ rw (none_held, requeued) refl
  | inr held ↦ rw (held, requeued) refl
]

-- The transactions of the requeue phase.
abbrev pub OfRequeue : Op → Type 0
OfRequeue (op_requeue_transient id at class limit) = Unit
OfRequeue (op_raise notice) = Unit
OfRequeue o = ⊥

-- What the requeue of the stopped runs makes of the store is what single transactions make of it.
pub requeue_stopped-Traced :
    (ops : FloatOps) (now : Time) (stops : List TransientStop) (db : Db)
    → Traced ops OfRequeue db (requeue_stopped now stops db).db
unfolding requeue_stopped apply
requeue_stopped-Traced ops now [] db = Traced-refl ops OfRequeue db
requeue_stopped-Traced ops now (s ∷ stops) db =
    elim (Bool-cases (leb default_transient_requeues s.attempts)) [
      | inl exhausted ↦
          rw (exhausted, requeue_stopped)
            (Traced-trans ops OfRequeue db _ _
              (one_step ops OfRequeue (op_raise (exhausted_notice s now)) db tt tt)
              (requeue_stopped-Traced ops now stops (raise (exhausted_notice s now) db)))
      | inr under ↦
          let mid =
            left (λ r. r.1) db
              (requeue_transient s.run_id now s.class default_transient_requeues db) in
          rw (under, requeue_stopped)
            (subst (Traced ops OfRequeue db) (sym (requeued_db s db _ (requeue_stopped now stops)))
              (Traced-trans ops OfRequeue db mid _
                (one_step ops OfRequeue
                  (op_requeue_transient s.run_id now s.class default_transient_requeues) db tt tt)
                (requeue_stopped-Traced ops now stops mid)))
    ]

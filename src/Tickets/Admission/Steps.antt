-- ===== src/Tickets/Admission/Steps.antt =====
-- The steps of an admission, each single transactions.
use forge_wingman.Prelude.{
  ◌≡◌, ◌⊎◌, refl, sym, ap, ◌∙◌, inl, inr, Bool, true, false, some, [], ◌∷◌, ◌++◌, Option-cases,
  Bool-cases,
}
use forge_wingman.Text.{Text, codes}
use forge_wingman.Runner.{model_refused}
use forge_wingman.Dispatcher.Concurrency.{FloatOps}
use forge_wingman.Store.Db.{Db, already_queued, Rejection, Result, ok, err, ok-injective, err-ne-ok}
use forge_wingman.Store.Queue.Enqueue.{Queued, update_queued_priority}
use forge_wingman.Store.Trace.{
  Op, op_enqueue, apply, op_reject, op_priority, op_refresh, op_stop_retried, op_refresh_models,
}
use forge_wingman.Store.Trace.Traced.{Traced, Traced-refl, Traced-trans, one_step}
use forge_wingman.Tickets.{Issue, Refusal, Checked, passed, refused, refusal_text, overrides}
use forge_wingman.Tickets.Models.{check_models}
use forge_wingman.Tickets.Admission.{
  Admission, Admitted, refuse, is_retried, stopped_retry, refresh_models, refreshed, enqueued_as,
}

pub Checked-cases :
    {A : Type 0} (c : Checked A)
    → ((a : A) × (c ≡ passed a)) ⊎ ((why : Refusal) × (detail : Text) × (c ≡ refused why detail))
Checked-cases (passed a) = inl (a, refl)
Checked-cases (refused why detail) = inr (why, detail, refl)

pub enqueued_as_ok :
    (run_id : Text) (st after : Admitted) (r : Result Db)
    → enqueued_as run_id st r ≡ ok after
    → (after ≡ st)
      ⊎ ((db : Db) × (r ≡ ok db)
          × (after ≡ record st { enqueued = st.enqueued ++ run_id ∷ []; db = db }))
unfolding enqueued_as
enqueued_as_ok run_id st after (ok db) h = inr (db, refl, sym (ok-injective _ after h))
enqueued_as_ok run_id st after (err already_queued) h = inl (sym (ok-injective st after h))
enqueued_as_ok run_id st after (err e) h = absurd (err-ne-ok e after h)

-- The transactions of an admission.
abbrev pub OfAdmission : Op → Type 0
OfAdmission (op_enqueue run) = Unit
OfAdmission (op_reject ticket r) = Unit
OfAdmission (op_priority id rank) = Unit
OfAdmission (op_refresh run) = Unit
OfAdmission (op_refresh_models id m) = Unit
OfAdmission (op_stop_retried id reason detail at) = Unit
OfAdmission o = ⊥

module _ (ops : FloatOps) where
  pub refuse-Traced :
      (ticket : Text) (r : Rejection) (st : Admitted)
      → Traced ops OfAdmission st.db (refuse ticket r st).db
  unfolding refuse apply
  refuse-Traced ticket r st = one_step ops OfAdmission (op_reject ticket r) st.db tt tt

  pub refreshed-Traced :
      (q : Queued) (st : Admitted) → Traced ops OfAdmission st.db (refreshed q st).db
  unfolding refreshed apply
  refreshed-Traced q st =
      let mid = (update_queued_priority q.run_id q.priority st.db).1 in
      Traced-trans ops OfAdmission st.db mid _
        (one_step ops OfAdmission (op_priority q.run_id q.priority) st.db tt tt)
        (one_step ops OfAdmission (op_refresh q) mid tt tt)

  stopped_retry-Traced :
      (id : Text) (r : Rejection) (st : Admitted) (x : Bool × Db)
      → Traced ops OfAdmission st.db x.1
      → Traced ops OfAdmission st.db (stopped_retry id r st x).db
  unfolding stopped_retry
  stopped_retry-Traced id r st (true, db) t =
      Traced-trans ops OfAdmission st.db db _ t (refuse-Traced id r (record st { db = db }))
  stopped_retry-Traced id r st (false, db) t = t

  pub refresh_models-Traced :
      (s : Admission) (issue : Issue) (id : Text) (st : Admitted)
      → Traced ops OfAdmission st.db (refresh_models s issue id st).db
  unfolding refresh_models apply
  refresh_models-Traced s issue id st = elim (Bool-cases (is_retried id st.db)) [
    | inr other ↦ rw (other, refresh_models) (Traced-refl ops OfAdmission st.db)
    | inl waits ↦ elim (Option-cases (check_models s.plans (overrides issue) s.model)) [
      | inl unread ↦ rw (waits, unread, refresh_models) (Traced-refl ops OfAdmission st.db)
      | inr (c, checked) ↦ elim (Checked-cases c) [
        | inl (u, fine) ↦
            rw (waits, checked ∙ ap some fine, refresh_models)
              (one_step ops OfAdmission (op_refresh_models id (overrides issue)) st.db tt tt)
        | inr (why, detail, bad) ↦
            rw (waits, checked ∙ ap some bad, refresh_models)
              (stopped_retry-Traced id _ st _ (
                one_step ops OfAdmission
                  (op_stop_retried id model_refused (refusal_text why ++ codes ": " ++ detail)
                    (s.now issue.id))
                  st.db tt tt))
      ]
    ]
  ]

  stopped_retry_enqueued :
      (id : Text) (r : Rejection) (st : Admitted) (x : Bool × Db)
      → (stopped_retry id r st x).enqueued ≡ st.enqueued
  unfolding stopped_retry refuse
  stopped_retry_enqueued id r st (true, db) = refl
  stopped_retry_enqueued id r st (false, db) = refl

  pub refresh_models_enqueued :
      (s : Admission) (issue : Issue) (id : Text) (st : Admitted)
      → (refresh_models s issue id st).enqueued ≡ st.enqueued
  unfolding refresh_models
  refresh_models_enqueued s issue id st = elim (Bool-cases (is_retried id st.db)) [
    | inr other ↦ rw (other, refresh_models) refl
    | inl waits ↦ elim (Option-cases (check_models s.plans (overrides issue) s.model)) [
      | inl unread ↦ rw (waits, unread, refresh_models) refl
      | inr (c, checked) ↦ elim (Checked-cases c) [
        | inl (u, fine) ↦ rw (waits, checked ∙ ap some fine, refresh_models) refl
        | inr (why, detail, bad) ↦
            rw (waits, checked ∙ ap some bad, refresh_models) (stopped_retry_enqueued id _ st _)
      ]
    ]
  ]

-- ===== src/Tickets/Admission/Kept.antt =====
-- The admission of a poll's issues is single transactions, one after another.
use mathlib.Core.Path.{subst}
use forge_wingman.Prelude.{
  ◌≡◌, ◌⊎◌, refl, sym, ap, ◌∙◌, inl, inr, some, List, [], ◌∷◌, ◌++◌, Option-cases, Bool-cases,
}
use forge_wingman.Dispatcher.Concurrency.{FloatOps}
use forge_wingman.Store.Db.{ok, ok-injective, Result-cases}
use forge_wingman.Store.Queue.Enqueue.{Queued, enqueue}
use forge_wingman.Store.Trace.{left, apply, op_enqueue}
use forge_wingman.Store.Trace.Traced.{Traced, Traced-refl, Traced-trans, one_step}
use forge_wingman.Tickets.{Issue, overrides, build, rejection}
use forge_wingman.Tickets.Models.{check_models}
use forge_wingman.Tickets.Models.Allowed.{MayRun, check_models_iff}
use forge_wingman.Tickets.Built.{IsBuilt, build-IsBuilt}
use forge_wingman.Tickets.Admission.{
  Admission, Admitted, refuse, refreshed, enqueued_as, admit_new, is_present, with_models,
  admit_built, admit_issue, admit_issues,
}
use forge_wingman.Tickets.Admission.Steps.{
  OfAdmission, Checked-cases, enqueued_as_ok, refuse-Traced, refreshed-Traced,
  refresh_models-Traced, refresh_models_enqueued,
}

-- What a poll requires of an issue that it makes a new run of.
pub record IsNew (s : Admission) (issue : Issue) (q : Queued) : Type 0 where
  pub built : IsBuilt s.allow issue q
  pub models : MayRun s.plans (overrides issue) s.model

-- What one issue makes of the admission so far.
pub record Progress (ops : FloatOps) (s : Admission) (issue : Issue) (st after : Admitted)
    : Type 0 where
  pub traced : Traced ops OfAdmission st.db after.db
  pub reported :
      (after.enqueued ≡ st.enqueued)
      ⊎ ((q : Queued) × (after.enqueued ≡ st.enqueued ++ q.run_id ∷ []) × IsNew s issue q)

module _ (ops : FloatOps) where
  progress :
      (s : Admission) (issue : Issue) (st made after : Admitted)
      → ok made ≡ ok after
      → Progress ops s issue st made
      → Progress ops s issue st after
  progress s issue st made after h p = subst (Progress ops s issue st) (ok-injective made after h) p

  enqueued-Progress :
      (s : Admission) (issue : Issue) (q run : Queued) (st after : Admitted)
      → IsNew s issue q
      → enqueued_as q.run_id st (enqueue run st.db) ≡ ok after
      → Progress ops s issue st after
  unfolding apply
  enqueued-Progress s issue q run st after new h =
      elim (enqueued_as_ok q.run_id st after (enqueue run st.db) h) [
        | inl same ↦
            subst (Progress ops s issue st) (sym same)
              (record { traced = Traced-refl ops OfAdmission st.db; reported = inl refl })
        | inr (db, made, same) ↦ subst (Progress ops s issue st) (sym same) (record {
          traced =
              subst (Traced ops OfAdmission st.db) (ap (left (λ d. d) st.db) made)
                (one_step ops OfAdmission (op_enqueue run) st.db tt tt);
          reported = inr (q, refl, new);
        })
      ]

  admit_new-Progress :
      (s : Admission) (issue : Issue) (q : Queued) (st after : Admitted)
      → IsBuilt s.allow issue q
      → admit_new s issue q st ≡ ok after
      → Progress ops s issue st after
  unfolding admit_new refuse
  admit_new-Progress s issue q st after built h =
      let checks = check_models s.plans (overrides issue) s.model in
      elim (Option-cases checks) [
        | inl unread ↦
            progress s issue st st after (rw (unread, admit_new) at h)
              (record { traced = Traced-refl ops OfAdmission st.db; reported = inl refl })
        | inr (c, checked) ↦ elim (Checked-cases c) [
          | inr (why, detail, bad) ↦
              progress s issue st _ after (rw (checked ∙ ap some bad, admit_new) at h) (record {
                traced = refuse-Traced ops issue.id (rejection why detail (s.now issue.id)) st;
                reported = inl refl;
              })
          | inl (u, fine) ↦ elim (Option-cases (s.private q.repo)) [
            | inl unseen ↦
                progress s issue st st after (rw (checked ∙ ap some fine, unseen, admit_new) at h)
                  (record { traced = Traced-refl ops OfAdmission st.db; reported = inl refl })
            | inr (p, seen) ↦
                enqueued-Progress s issue q (with_models q (overrides issue) p) st after
                  (record {
                    built = built;
                    models =
                        (check_models_iff s.plans (overrides issue) s.model).0
                          (checked ∙ ap some fine);
                  })
                  (rw (checked ∙ ap some fine, seen, admit_new) at h)
          ]
        ]
      ]

  admit_built-Progress :
      (s : Admission) (issue : Issue) (q : Queued) (st after : Admitted)
      → IsBuilt s.allow issue q
      → admit_built s issue q st ≡ ok after
      → Progress ops s issue st after
  unfolding admit_built refreshed
  admit_built-Progress s issue q st after built h =
      elim (Bool-cases (is_present (st.db.runs q.run_id))) [
        | inr absent ↦ admit_new-Progress s issue q st after built (rw (absent, admit_built) at h)
        | inl present ↦ progress s issue st _ after (rw (present, admit_built) at h) (record {
          traced =
              Traced-trans ops OfAdmission st.db (refreshed q st).db _ (refreshed-Traced ops q st)
                (refresh_models-Traced ops s issue q.run_id (refreshed q st));
          reported = inl (refresh_models_enqueued ops s issue q.run_id (refreshed q st));
        })
      ]

  pub admit_issue-Progress :
      (s : Admission) (issue : Issue) (st after : Admitted)
      → admit_issue s issue st ≡ ok after
      → Progress ops s issue st after
  unfolding admit_issue refuse
  admit_issue-Progress s issue st after h =
      elim (Checked-cases (build s.wording s.allow issue (s.now issue.id))) [
        | inr (why, detail, bad) ↦
            progress s issue st _ after (rw (bad, admit_issue) at h) (record {
              traced = refuse-Traced ops issue.id (rejection why detail (s.now issue.id)) st;
              reported = inl refl;
            })
        | inl (q, made) ↦
            admit_built-Progress s issue q st after
              (build-IsBuilt s.wording s.allow issue (s.now issue.id) q made)
              (rw (made, admit_issue) at h)
      ]

  -- What the admission of the issues makes of the store is what single transactions make of it.
  pub admit_issues-Traced :
      (s : Admission) (issues : List Issue) (st : Admitted)
      → Traced ops OfAdmission st.db (admit_issues s issues st).0.db
  unfolding admit_issues
  admit_issues-Traced s [] st = Traced-refl ops OfAdmission st.db
  admit_issues-Traced s (issue ∷ issues) st = elim (Result-cases (admit_issue s issue st)) [
    | inl (e, failed) ↦ rw (failed, admit_issues) (Traced-refl ops OfAdmission st.db)
    | inr (after, admitted) ↦
        rw (admitted, admit_issues)
          (Traced-trans ops OfAdmission st.db after.db _
            (admit_issue-Progress s issue st after admitted).traced
            (admit_issues-Traced s issues after))
  ]

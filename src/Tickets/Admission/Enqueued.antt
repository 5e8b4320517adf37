-- ===== src/Tickets/Admission/Enqueued.antt =====
-- What a poll reports as enqueued.
use mathlib.Core.Path.{subst}
use forge_wingman.Prelude.{◌≡◌, refl, sym, inl, inr, List, [], ◌∷◌, ◌++◌, All, In}
use forge_wingman.Text.{Text}
use forge_wingman.Store.Db.{Db, Result-cases}
use forge_wingman.Store.Queue.Enqueue.{Queued}
use forge_wingman.Dispatcher.Concurrency.{FloatOps}
use forge_wingman.Store.Trace.Traced.{any_numbers}
use forge_wingman.Tickets.{Issue}
use forge_wingman.Tickets.Admission.{Admission, Admitted, admit_issue, admit_issues}
use forge_wingman.Tickets.Admission.Kept.{IsNew, Progress, admit_issue-Progress}

-- The run is a new one that admission made of one of the issues.
abbrev pub NewOf : Admission → List Issue → Text → Type 0
NewOf s issues id =
    (issue : Issue) × In issue issues × ((q : Queued) × (q.run_id ≡ id) × IsNew s issue q)

All-last :
    (P : Text → Type 0) (ids : List Text) (id : Text) → All P ids → P id → All P (ids ++ id ∷ [])
All-last P [] id a p = (p, tt)
All-last P (j ∷ ids) id a p = (a.0, All-last P ids id a.1 p)

Progress-enqueued :
    (ops : FloatOps) (s : Admission) (all : List Issue) (issue : Issue) (st after : Admitted)
    → In issue all
    → All (NewOf s all) st.enqueued
    → Progress ops s issue st after
    → All (NewOf s all) after.enqueued
Progress-enqueued ops s all issue st after among a p = elim p.reported [
  | inl same ↦ subst (All (NewOf s all)) (sym same) a
  | inr (q, added, new) ↦
      subst (All (NewOf s all)) (sym added)
        (All-last (NewOf s all) st.enqueued q.run_id a (issue, among, (q, refl, new)))
]

issues-enqueued :
    (ops : FloatOps) (s : Admission) (all issues : List Issue) (st : Admitted)
    → ((issue : Issue) → In issue issues → In issue all)
    → All (NewOf s all) st.enqueued
    → All (NewOf s all) (admit_issues s issues st).0.enqueued
unfolding admit_issues
issues-enqueued ops s all [] st among a = a
issues-enqueued ops s all (issue ∷ issues) st among a =
    elim (Result-cases (admit_issue s issue st)) [
      | inl (e, failed) ↦ rw (failed, admit_issues) a
      | inr (after, admitted) ↦
          rw (admitted, admit_issues)
            (issues-enqueued ops s all issues after (λ i m. among i (inr m))
              (Progress-enqueued ops s all issue st after (among issue (inl refl)) a
                (admit_issue-Progress ops s issue st after admitted)))
    ]

abbrev pub nothing_yet : Db → Admitted
nothing_yet db = record { enqueued = []; rejections = []; unchecked = []; db = db }

-- Each run that the admission of a poll reports as enqueued, whether or not it then fails, was made of a
-- delegated issue: of a repository of the allowlist that its label names, of size S, M or L, and with
-- models that may run by the owner's plan records.
pub admit_issues-enqueued :
    (s : Admission) (issues : List Issue) (db : Db)
    → All (NewOf s issues) (admit_issues s issues (nothing_yet db)).0.enqueued
admit_issues-enqueued s issues db =
    issues-enqueued any_numbers s issues issues (nothing_yet db) (λ i m. m) tt

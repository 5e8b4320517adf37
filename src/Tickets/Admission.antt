-- ===== src/Tickets/Admission.antt =====
-- admit, refreshRetriedModels and refuse of internal/dispatcher/dispatcher.go: what a poll makes of the
-- delegated issues. What it reads of the plans and of GitHub is an argument.
pub mod Steps
pub mod Kept
pub mod Enqueued
use forge_wingman.Prelude.{
  ℕ, Bool, true, false, not, Option, none, some, List, [], ◌∷◌, ◌++◌, if◌then◌else◌,
}
use forge_wingman.Text.{Text, codes}
use forge_wingman.Time.{Time}
use forge_wingman.Runner.{ModelLabels, StopReason, model_refused}
use forge_wingman.Store.Db.{Db, Error, already_queued, Rejection, Result, ok, err}
use forge_wingman.Store.Queue.Enqueue.{Queued, enqueue, reject, update_queued_priority}
use forge_wingman.Store.Queue.Refresh.{refresh_queued_ticket}
use forge_wingman.Store.Retry.{retried_awaiting_claim, refresh_retried_models, stop_retried}
use forge_wingman.Tickets.{
  Issue, Refusal, refusal_text, Checked, passed, refused, Wording, build, overrides, rejection,
}
use forge_wingman.Tickets.Models.{PlanReads, check_models}

-- What admission reads: the repositories and the default model of the configuration, the plan records,
-- and whether a repository is private, none where that fails.
pub record Admission : Type 0 where
  pub allow : List Text
  pub model : Text
  pub wording : Wording
  pub plans : PlanReads
  pub private : Text → Option Bool
  pub now : Text → Time

-- What admission has done so far: res of the source, as far as admission writes it.
pub record Admitted : Type 0 where
  pub enqueued : List Text
  pub rejections : List (Text × Rejection)
  pub unchecked : List Text
  pub db : Db

-- refuse
unfoldable pub refuse : Text → Rejection → Admitted → Admitted
unfolding reject
refuse ticket r st = record st {
  rejections = st.rejections ++ (ticket, r) ∷ [];
  db = reject ticket r st.db;
}

unfoldable pub is_retried : Text → Db → Bool
unfolding retried_awaiting_claim
is_retried run_id db = elim (db.runs run_id) [
  | none ↦ false
  | some row ↦ retried_awaiting_claim row
]

-- An attempt that a refused model ends is refused too, unless it no longer waits.
unfoldable pub stopped_retry : Text → Rejection → Admitted → Bool × Db → Admitted
unfolding refuse
stopped_retry run_id r st (true, db) = refuse run_id r (record st { db = db })
stopped_retry run_id r st (false, db) = record st { db = db }

-- refreshRetriedModels
unfoldable pub refresh_models : Admission → Issue → Text → Admitted → Admitted
unfolding is_retried overrides check_models stopped_retry refusal_text rejection stop_retried
    refresh_retried_models
refresh_models s issue run_id st =
    let models = overrides issue in
    if not (is_retried run_id st.db) then st else elim (check_models s.plans models s.model) [
      | none ↦ record st { unchecked = run_id ∷ st.unchecked }
      | some (refused why detail) ↦
          stopped_retry run_id (rejection why detail (s.now issue.id)) st (
            stop_retried run_id model_refused (refusal_text why ++ codes ": " ++ detail)
              (s.now issue.id) st.db)
      | some (passed u) ↦ record st { db = (refresh_retried_models run_id models st.db).1 }
    ]

-- A ticket that is queued has its rank and its text refreshed.
unfoldable pub refreshed : Queued → Admitted → Admitted
unfolding update_queued_priority refresh_queued_ticket
refreshed q st = record st {
  db = (refresh_queued_ticket q (update_queued_priority q.run_id q.priority st.db).1).1;
}

unfoldable pub enqueued_as : Text → Admitted → Result Db → Result Admitted
enqueued_as run_id st (ok db) = ok (record st { enqueued = st.enqueued ++ run_id ∷ []; db = db })
enqueued_as run_id st (err already_queued) = ok st
enqueued_as run_id st (err e) = err e

abbrev with_models : Queued → ModelLabels → Bool → Queued
with_models q models private = record q { models = models; private = private }

-- A ticket that is not queued yet.
unfoldable pub admit_new : Admission → Issue → Queued → Admitted → Result Admitted
unfolding overrides check_models refuse rejection enqueue enqueued_as
admit_new s issue q st =
    let models = overrides issue in
    elim (check_models s.plans models s.model) [
      | none ↦ ok st
      | some (refused why detail) ↦ ok (refuse issue.id (rejection why detail (s.now issue.id)) st)
      | some (passed u) ↦ elim (s.private q.repo) [
        | none ↦ ok st
        | some private ↦ enqueued_as q.run_id st (enqueue (with_models q models private) st.db)
      ]
    ]

abbrev is_present {ℓ} : {A : Type ℓ} → Option A → Bool
is_present none = false
is_present (some a) = true

unfoldable pub admit_built : Admission → Issue → Queued → Admitted → Result Admitted
unfolding refreshed refresh_models admit_new
admit_built s issue q st =
    if is_present (st.db.runs q.run_id)
    then ok (refresh_models s issue q.run_id (refreshed q st))
    else admit_new s issue q st

-- admit
unfoldable pub admit_issue : Admission → Issue → Admitted → Result Admitted
unfolding build refuse rejection admit_built
admit_issue s issue st = elim (build s.wording s.allow issue (s.now issue.id)) [
  | refused why detail ↦ ok (refuse issue.id (rejection why detail (s.now issue.id)) st)
  | passed q ↦ admit_built s issue q st
]

-- The loop over the delegated issues, which a failed transaction ends.
unfoldable pub admit_issues : Admission → List Issue → Admitted → Admitted × Option Error
unfolding admit_issue
admit_issues s [] st = (st, none)
admit_issues s (issue ∷ issues) st = elim (admit_issue s issue st) [
  | err e ↦ (st, some e)
  | ok after ↦ admit_issues s issues after
]

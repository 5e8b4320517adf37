-- ===== src/Poll/Whole/Booked.antt =====
-- A whole poll is single transactions of its phases, one after another.
use mathlib.Core.Path.{subst}
use mathlib.Core.Option.{none-ne-some, some-injective}
use forge_wingman.Prelude.{
  ◌≡◌, refl, sym, ap, ◌∙◌, inl, inr, Bool, true, false, Option, none, some, List, [], ◌∷◌, All,
  Option-cases, Bool-cases,
}
use forge_wingman.Text.{Text, is_empty}
use forge_wingman.Dispatcher.Admit.{or_default}
use forge_wingman.Dispatcher.Concurrency.{FloatOps}
use forge_wingman.Store.Keys.Distinct.{IsRunId}
use forge_wingman.Store.Db.{Db, Error, ok, Result-cases, ok-injective, err-ne-ok}
use forge_wingman.Store.Queue.Claim.{Claimed, attempt_claim}
use forge_wingman.Store.Trace.Traced.{Traced}
use forge_wingman.Tickets.Admission.Steps.{OfAdmission}
use forge_wingman.Poll.Dispatch.{Dispatched, dispatch_all}
use forge_wingman.Tickets.{Issue}
use forge_wingman.Tickets.Admission.{Admitted}
use forge_wingman.Tickets.Admission.Kept.{admit_issues-Traced}
use forge_wingman.Poll.{Candidate, Config, Claim, candidates, listed}
use forge_wingman.Poll.Claims.{
  Sight, Asked, Prepared, unchecked_models, early, asking, prepare, claim_of, Step, Walked,
  answered, step, walk, admit_claims, with_one,
}
use forge_wingman.Poll.Claims.Refines.{OfWalk, admit_claims-Traced}
use forge_wingman.Poll.Requeues.{transient_stops}
use forge_wingman.Poll.Requeues.Kept.{OfRequeue, requeue_stopped-Traced}
use forge_wingman.Poll.Dispatch.Traced.{OfDispatch, dispatch_all-Traced}
use forge_wingman.Poll.Whole.{
  World, allowlist_read, admission_for, start_admission, Polled, sight_for, requeue_phase,
  claim_phase, phases, after_admission, admit_phase, poll,
}

answered_id :
    (c : Config) (s : Sight) (cand : Candidate) (a : Asked) (noticed : List Text)
    (reply : Claimed × Db) (cl : Claim)
    → (answered c s cand a noticed reply).claim ≡ some cl
    → cl.run_id ≡ cand.run_id
unfolding answered claim_of
answered_id c s cand a noticed (reply, db) cl h = elim (Bool-cases reply.ok?) [
  | inl won ↦ ap (λ (k : Claim). k.run_id) (sym (some-injective _ cl (rw (won, answered) at h)))
  | inr lost ↦ elim (Bool-cases (is_empty reply.binding)) [
    | inl gone ↦ absurd (none-ne-some cl (rw (lost, gone, answered) at h))
    | inr bound ↦ absurd (none-ne-some cl (rw (lost, bound, answered) at h))
  ]
]

step_id :
    (c : Config) (s : Sight) (cand : Candidate) (noticed : List Text) (p : Prepared) (db : Db)
    (st : Step) (cl : Claim)
    → step c s cand noticed p db ≡ ok st
    → st.claim ≡ some cl
    → cl.run_id ≡ cand.run_id
unfolding step
step_id c s cand noticed unchecked_models db st cl h e =
    absurd (none-ne-some cl (ap (λ (t : Step). t.claim) (ok-injective _ st h) ∙ e))
step_id c s cand noticed (early why budget) db st cl h e =
    absurd (none-ne-some cl (ap (λ (t : Step). t.claim) (ok-injective _ st h) ∙ e))
step_id c s cand noticed (asking a) db st cl h e =
    elim (Result-cases (
      attempt_claim (s.faults cand.run_id) cand.run_id (s.reads.now cand.run_id) a.tier.budget
        a.facts s.history a.reservation db)) [
          | inl (why, failed) ↦ absurd (err-ne-ok why st (rw (failed, step) at h))
          | inr (reply, replied) ↦ answered_id c s cand a noticed reply cl (
              ap (λ (t : Step). t.claim)
                (ok-injective (answered c s cand a noticed reply) st (rw (replied, step) at h))
              ∙ e)
        ]

All-with_one :
    (o : Option Claim) (cls : List Claim)
    → ((cl : Claim) → o ≡ some cl → IsRunId cl.run_id)
    → All (λ (cl : Claim). IsRunId cl.run_id) cls
    → All (λ (cl : Claim). IsRunId cl.run_id) (with_one o cls)
All-with_one none cls one rest = rest
All-with_one (some cl) cls one rest = (one cl refl, rest)

walk_ids :
    (c : Config) (s : Sight) (cands : List Candidate) (noticed : List Text) (db : Db)
    → All (λ (cand : Candidate). IsRunId cand.run_id) cands
    → All (λ (cl : Claim). IsRunId cl.run_id) (walk c s cands noticed db).claims
unfolding walk
walk_ids c s [] noticed db ids = tt
walk_ids c s (cand ∷ cands) noticed db (is_id, ids) =
    elim (Result-cases (step c s cand noticed (prepare c s cand) db)) [
      | inl (e, failed) ↦ rw (failed, walk) tt
      | inr (st, stepped) ↦
          rw (stepped, walk)
            (All-with_one st.claim (walk c s cands st.noticed st.db).claims
              (λ cl e.
                subst IsRunId (sym (step_id c s cand noticed (prepare c s cand) db st cl stepped e))
                  is_id)
              (walk_ids c s cands st.noticed st.db ids))
    ]

candidates_ids :
    (ids : List Text) (db : Db)
    → All IsRunId ids
    → All (λ (cand : Candidate). IsRunId cand.run_id) (candidates ids db)
unfolding candidates listed
candidates_ids [] db ids = tt
candidates_ids (id ∷ ids) db (is_id, rest) = elim (Option-cases (db.runs id)) [
  | inl missing ↦ rw (missing, candidates) (candidates_ids ids db rest)
  | inr (row, present) ↦ rw (present, candidates) (is_id, candidates_ids ids db rest)
]

-- The ids that the query for candidates finds are tickets' ids.
abbrev pub FindsTickets : World → Type 0
FindsTickets w = (db : Db) → All IsRunId (w.candidate_ids db)

-- What single transactions, phase after phase, make of the store in a poll: either the admission fails and the poll
-- ends with it; or the allowlist is empty and the poll only requeues; or it admits, requeues, walks the queue and
-- dispatches the claims of the walk.
pub data Phased (ops : FloatOps) (c : Config) (w : World) (db : Db) (p : Polled) : Type 0 where
  stopped_early :
      (e : Error)
      → allowlist_read c.repos ≡ true
      → p.refused ≡ some e
      → p.db ≡ p.admitted.db
      → Traced ops OfAdmission db p.db
      → Phased ops c w db p
  unlisted :
      allowlist_read c.repos ≡ false
      → p.refused ≡ none
      → p.walked ≡ none
      → Traced ops OfRequeue db p.db
      → Phased ops c w db p
  whole :
      (requeued : Db) (walked : Walked) (sent : Dispatched)
      → allowlist_read c.repos ≡ true
      → (p.refused ≡ none) × (p.walked ≡ some walked) × (p.dispatches ≡ some sent)
      → Traced ops OfAdmission db p.admitted.db
      → Traced ops OfRequeue p.admitted.db requeued
      → Traced ops (OfWalk (or_default c.limits).platform_cap) requeued walked.db
      → Traced ops (OfDispatch w.outside walked.claims) walked.db p.db
      → Phased ops c w db p

module _ (ops : FloatOps) (c : Config) (w : World) (finds : FindsTickets w) where
  requeue_phase-Traced : (db : Db) → Traced ops OfRequeue db (requeue_phase w db).db
  unfolding requeue_phase
  requeue_phase-Traced db =
      requeue_stopped-Traced ops w.now (transient_stops (w.stopped_ids db) db) db

  admitted-Traced :
      (issues : List Issue) (db : Db) (a : Admitted × Option Error)
      → admit_phase true c w issues db ≡ a
      → Traced ops OfAdmission db a.0.db
  unfolding admit_phase start_admission
  admitted-Traced issues db a h =
      subst (λ (x : Admitted × Option Error). Traced ops OfAdmission db x.0.db) h
        (admit_issues-Traced ops (admission_for c w) issues (start_admission db))

  phases-Phased :
      (issues : List Issue) (db : Db) (admitted : Admitted)
      → allowlist_read c.repos ≡ true
      → Traced ops OfAdmission db admitted.db
      → Phased ops c w db (phases true c w issues admitted)
  unfolding phases claim_phase admit_claims
  phases-Phased issues start admitted listed t =
      let db = (requeue_phase w admitted.db).db in
      let s = sight_for c w issues admitted db in
      let cands = candidates (w.candidate_ids db) db in
      let walked = admit_claims c s cands db in
      let ids = candidates_ids (w.candidate_ids db) db (finds db) in
      whole db walked (dispatch_all w.outside walked.claims walked.db) listed (refl, refl, refl) t
        (requeue_phase-Traced admitted.db) (admit_claims-Traced ops c s cands db ids)
        (dispatch_all-Traced ops w.outside walked.claims walked.claims walked.db (λ cl m. m)
          (walk_ids c s cands [] db ids))

  after_admission-Phased :
      (listed : Bool) (issues : List Issue) (db : Db) (a : Admitted × Option Error)
      → allowlist_read c.repos ≡ listed
      → admit_phase listed c w issues db ≡ a
      → Phased ops c w db (after_admission listed c w issues a)
  unfolding after_admission admit_phase phases start_admission
  after_admission-Phased true issues db (admitted, some e) listed h =
      stopped_early e listed refl refl (admitted-Traced issues db (admitted, some e) h)
  after_admission-Phased false issues db (admitted, some e) listed h =
      absurd (none-ne-some e (ap (λ (x : Admitted × Option Error). x.1) h))
  after_admission-Phased true issues db (admitted, none) listed h =
      phases-Phased issues db admitted listed (admitted-Traced issues db (admitted, none) h)
  after_admission-Phased false issues db (admitted, none) listed h = unlisted listed refl refl (
      subst (λ (d : Db). Traced ops OfRequeue d (requeue_phase w admitted.db).db)
        (sym (ap (λ (x : Admitted × Option Error). x.0.db) h)) (requeue_phase-Traced admitted.db))

  Phased-poll : (db : Db) (p : Polled) → poll c w db ≡ some p → Phased ops c w db p
  unfolding poll
  Phased-poll db p h = elim (Option-cases w.delegated) [
    | inl failed ↦ absurd (none-ne-some p (rw (failed, poll) at h))
    | inr (issues, found) ↦
        let listed = allowlist_read c.repos in
        subst (Phased ops c w db) (some-injective _ p (rw (found, poll) at h))
          (after_admission-Phased listed issues db (admit_phase listed c w issues db) refl refl)
  ]

pub poll-Phased :
    (ops : FloatOps) (c : Config) (w : World) (db : Db) (p : Polled)
    → FindsTickets w
    → poll c w db ≡ some p
    → Phased ops c w db p
poll-Phased ops c w db p finds h = Phased-poll ops c w finds db p h

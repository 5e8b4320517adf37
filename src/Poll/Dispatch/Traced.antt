-- ===== src/Poll/Dispatch/Traced.antt =====
-- The dispatch of the claims is single transactions, one after another.
use mathlib.Core.Path.{subst}
use forge_wingman.Prelude.{
  ◌≡◌, false, some, In, refl, sym, inl, inr, List, [], ◌∷◌, All, Option-cases, Bool-cases,
}
use forge_wingman.Text.{is_empty}
use forge_wingman.Dispatcher.Concurrency.{FloatOps}
use forge_wingman.Store.Keys.Distinct.{IsRunId}
use forge_wingman.Store.Db.{Db, Result, ok, err}
use forge_wingman.Store.Queue.Release.{release}
use forge_wingman.Store.Trace.{Op, left, apply, op_release, op_ticket_state}
use forge_wingman.Store.Trace.Traced.{Traced, Traced-refl, Traced-trans, one_step}
use forge_wingman.Poll.{Claim}
use forge_wingman.Poll.Dispatch.{Outside, released, start_ticket, dispatch, dispatch_all}
use forge_wingman.Poll.Dispatch.Started.{add_sent_db}

released-left : (db : Db) (r : Result Db) → (released db r).1 ≡ left (λ d. d) db r
unfolding released
released-left db (ok after) = refl
released-left db (err e) = refl

-- The transactions of the dispatches: the state that a claimed run's ticket was moved from is recorded, and a
-- claim whose start GitHub refuses is released.
abbrev pub OfDispatch : Outside → List Claim → Op → Type 0
OfDispatch o cls (op_ticket_state id prior) =
    (cl : Claim) × In cl cls × (cl.run_id ≡ id) × (o.starts id ≡ some prior)
OfDispatch o cls (op_release id at) =
    (cl : Claim) × In cl cls × (cl.run_id ≡ id) × (o.accepts cl ≡ false)
OfDispatch o cls op = ⊥

module _ (ops : FloatOps) (o : Outside) (all : List Claim) where
  start_ticket-Traced :
      (cl : Claim) (db : Db)
      → In cl all
      → Traced ops (OfDispatch o all) db (start_ticket o cl.run_id db)
  unfolding start_ticket apply
  start_ticket-Traced cl db m = elim (Option-cases (o.starts cl.run_id)) [
    | inl failed ↦ rw (failed, start_ticket) (Traced-refl ops (OfDispatch o all) db)
    | inr (prior, moved) ↦ elim (Bool-cases (is_empty prior)) [
      | inl nothing ↦ rw (moved, nothing, start_ticket) (Traced-refl ops (OfDispatch o all) db)
      | inr state ↦
          let step =
            one_step ops (OfDispatch o all) (op_ticket_state cl.run_id prior) db tt
              (cl, m, refl, moved) in
          rw (moved, state, start_ticket) step
    ]
  ]

  dispatch-Traced :
      (cl : Claim) (db : Db)
      → In cl all
      → IsRunId cl.run_id
      → Traced ops (OfDispatch o all) db (dispatch o cl db).1
  unfolding dispatch apply
  dispatch-Traced cl db m is_id = elim (Bool-cases (o.accepts cl)) [
    | inl accepted ↦ rw (accepted, dispatch) (Traced-refl ops (OfDispatch o all) db)
    | inr turned ↦ elim (Bool-cases (o.releases cl)) [
      | inr lost ↦ rw (turned, lost, dispatch) (Traced-refl ops (OfDispatch o all) db)
      | inl taken ↦
          let at = o.now cl.run_id in
          let step =
            one_step ops (OfDispatch o all) (op_release cl.run_id at) db is_id
              (cl, m, refl, turned) in
          rw (turned, taken, dispatch)
            (subst (Traced ops (OfDispatch o all) db)
              (sym (released-left db (release cl.run_id at db))) step)
    ]
  ]

  pub dispatch_all-Traced :
      (cls : List Claim) (db : Db)
      → ((cl : Claim) → In cl cls → In cl all)
      → All (λ (cl : Claim). IsRunId cl.run_id) cls
      → Traced ops (OfDispatch o all) db (dispatch_all o cls db).db
  unfolding dispatch_all
  dispatch_all-Traced [] db among ids = Traced-refl ops (OfDispatch o all) db
  dispatch_all-Traced (cl ∷ cls) db among (is_id, ids) =
      let m = among cl (inl refl) in
      let started = start_ticket o cl.run_id db in
      let sent = dispatch o cl started in
      subst (Traced ops (OfDispatch o all) db)
        (sym (add_sent_db cl.run_id sent.0 (dispatch_all o cls sent.1)))
        (Traced-trans ops (OfDispatch o all) db sent.1 _
          (Traced-trans ops (OfDispatch o all) db started sent.1 (start_ticket-Traced cl db m)
            (dispatch-Traced cl started m is_id))
          (dispatch_all-Traced cls sent.1 (λ k n. among k (inr n)) ids))

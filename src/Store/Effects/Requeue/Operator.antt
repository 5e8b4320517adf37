-- ===== src/Store/Effects/Requeue/Operator.antt =====
-- An operator's requeue.
use mathlib.Core.Path.{subst}
use forge_wingman.Prelude.{◌≡◌, refl, sym, ap, ◌∙◌, inl, inr}
use forge_wingman.Text.{Text}
use forge_wingman.Time.{Time}
use forge_wingman.Store.Row.{is_candidate}
use forge_wingman.Store.Db.{Result-cases, ok-injective, err-ne-ok, Db, ok}
use forge_wingman.Store.Queue.Requeue.{
  unchanged, requeue_state, RequeueResult, plain, decide_operator, requeue_operator,
}
use forge_wingman.Store.Accounting.Operations.{Balanced}
use forge_wingman.Store.Effects.Requeue.{
  IsExtra, IsCareful, Returned, requeue_state-ok, returned_candidate, requeue-Returned,
}

unchanged-IsExtra : IsExtra unchanged
unchanged-IsExtra = record { state = λ row. refl; attempt = λ row. refl; ended = λ row. refl }

operator-IsCareful : IsCareful decide_operator
unfolding decide_operator
operator-IsCareful = record {
  only = λ old s extra h. elim (Result-cases (requeue_state old)) [
    | inl (e, refused) ↦ absurd (err-ne-ok e (s, extra) (rw refused at h))
    | inr (t, given) ↦
        let same = ok-injective (t, unchanged) (s, extra) (rw given at h) in
        let (allowed, is_returned) = requeue_state-ok old t given in
        (
          allowed,
          ap is_candidate (sym (ap (λ p. p.0) same) ∙ is_returned) ∙ returned_candidate old,
          subst IsExtra (ap (λ p. p.1) same) unchanged-IsExtra,
        )
  ];
}

-- An operator's requeue that succeeds found a run that ended, was stopped or was abandoned, and no wait;
-- it leaves that run, as its next attempt, queued or planned with no outcome and no reservation, reports
-- that attempt and state, and changes no other run. The books balance before it.
pub requeue_operator-Returned :
    (id : Text) (at : Time) (db : Db) (r : RequeueResult) (db' : Db)
    → Balanced db
    → requeue_operator id at db ≡ ok (r, db')
    → Returned id db r db'
unfolding requeue_operator
requeue_operator-Returned id at db r db' bal h =
    requeue-Returned id at plain decide_operator db r db' operator-IsCareful bal h

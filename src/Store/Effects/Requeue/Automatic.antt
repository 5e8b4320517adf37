-- ===== src/Store/Effects/Requeue/Automatic.antt =====
-- The requeues that a poll makes of a run that a transient failure or a conflict stopped.
use mathlib.Core.Path.{subst}
use forge_wingman.Prelude.{
  ℕ, ◌+◌, ◌≤◌, ◌<◌, ◌≡◌, refl, sym, ap, ◌∙◌, inl, inr, true, false, some, [], ◌∷◌, ◌++◌, arith,
  Bool-cases, length, ltb, leb,
}
use forge_wingman.Text.{Text}
use forge_wingman.Time.{Time}
use forge_wingman.Runner.{TransientClass}
use forge_wingman.Store.Row.{Row, RunState, queued, has_ended, is_candidate, is_abandoned}
use forge_wingman.Store.Db.{
  Result-cases, ok-injective, err-ne-ok, Db, retries_exhausted, abandoned_run, ok,
}
use forge_wingman.Store.Queue.Requeue.{
  requeue_state, requeued_row, noted, RequeueResult, automatic, decide_conflict,
  requeue_after_conflict, carry_settled, with_transient, decide_transient, requeue_transient,
}
use forge_wingman.Store.Accounting.Operations.{Balanced}
use forge_wingman.Store.Effects.Requeue.{
  IsExtra, IsCareful, Returned, requeue_state-ok, returned_candidate, requeue-inverted,
  requeue-Returned, requeued-row,
}

with_transient-IsExtra :
    (class : TransientClass) (at : Time) (old : Row) → IsExtra (with_transient class at old)
unfolding with_transient has_ended
with_transient-IsExtra class at old = record {
  state = λ row. refl;
  attempt = λ row. refl;
  ended = λ row. refl;
}

transient-decided :
    (class : TransientClass) (limit : ℕ) (at : Time) (old : Row) (s : RunState) (extra : Row → Row)
    → decide_transient class limit at old ≡ ok (s, extra)
    → (requeue_state old ≡ ok s)
      × (length old.transient_requeues < limit)
      × (with_transient class at old ≡ extra)
unfolding decide_transient
transient-decided class limit at old s extra h = elim (Result-cases (requeue_state old)) [
  | inl (e, refused) ↦ absurd (err-ne-ok e (s, extra) (rw refused at h))
  | inr (t, given) ↦ elim (Bool-cases (leb limit (length old.transient_requeues))) [
    | inl spent ↦ absurd (err-ne-ok retries_exhausted (s, extra) (rw (given, spent) at h))
    | inr left_over ↦
        let same =
          ok-injective (t, with_transient class at old) (s, extra) (rw (given, left_over) at h) in
        (given ∙ ap (λ p. ok p.0) same, ground arith, ap (λ p. p.1) same)
  ]
]

transient-IsCareful :
    (class : TransientClass) (limit : ℕ) (at : Time) → IsCareful (decide_transient class limit at)
transient-IsCareful class limit at = record {
  only = λ old s extra h.
      let (given, room, same) = transient-decided class limit at old s extra h in
      let (allowed, is_returned) = requeue_state-ok old s given in
      (
        allowed,
        ap is_candidate is_returned ∙ returned_candidate old,
        subst IsExtra same (with_transient-IsExtra class at old),
      );
}

-- A run's own requeue that succeeds returns the run as an operator's does, and counts: fewer of them than
-- the limit stood on the row, and the row holds one more afterwards, of this class and time. The books
-- balance before it.
pub requeue_transient-counted :
    (id : Text) (at : Time) (class : TransientClass) (limit : ℕ) (db : Db) (r : RequeueResult)
    (db' : Db)
    → Balanced db
    → requeue_transient id at class limit db ≡ ok (r, db')
    → Returned id db r db'
      × ((old : Row) × (row : Row) × (db.runs id ≡ some old)
          × (db'.runs id ≡ some row)
          × (length old.transient_requeues < limit)
          × (row.transient_requeues ≡ old.transient_requeues ++ (class, at) ∷ []))
unfolding requeue_transient with_transient
requeue_transient-counted id at class limit db r db' bal h =
    let (old, s, extra, present, d, same) =
      requeue-inverted id at automatic (decide_transient class limit at) db r db' h in
    let (given, room, is_extra) = transient-decided class limit at old s extra d in
    (
      requeue-Returned id at automatic (decide_transient class limit at) db r db'
          (transient-IsCareful class limit at) bal h,
      (
        old,
        extra (noted true (requeued_row old s at)),
        present,
        ap (λ p. p.1.runs id) (sym same) ∙ requeued-row id at automatic old s extra db,
        room,
        ap (λ f. (f (noted true (requeued_row old s at))).transient_requeues) (sym is_extra),
      ),
    )

conflict-decided :
    (most : ℕ) (old : Row) (s : RunState) (extra : Row → Row)
    → decide_conflict most old ≡ ok (s, extra)
    → (t : RunState) × (requeue_state old ≡ ok t)
      × (queued ≡ s)
      × (old.attempt + 1 ≤ most)
      × (is_abandoned old.state ≡ false)
      × (carry_settled old ≡ extra)
unfolding decide_conflict
conflict-decided most old s extra h = elim (Bool-cases (is_abandoned old.state)) [
  | inl gone ↦ absurd (err-ne-ok abandoned_run (s, extra) (rw gone at h))
  | inr stands ↦ elim (Result-cases (requeue_state old)) [
    | inl (e, refused) ↦ absurd (err-ne-ok e (s, extra) (rw (stands, refused) at h))
    | inr (t, given) ↦ elim (Bool-cases (ltb most (old.attempt + 1))) [
      | inl spent ↦ absurd (err-ne-ok retries_exhausted (s, extra) (rw (stands, given, spent) at h))
      | inr left_over ↦
          let same =
            ok-injective (queued, carry_settled old) (s, extra)
              (rw (stands, given, left_over) at h) in
          (t, given, ap (λ p. p.0) same, ground arith, stands, ap (λ p. p.1) same)
    ]
  ]
]

carried-IsExtra : (old : Row) → IsExtra (carry_settled old)
unfolding carry_settled has_ended
carried-IsExtra old = record { state = λ row. refl; attempt = λ row. refl; ended = λ row. refl }

queued_candidate : is_candidate queued ≡ true
unfolding is_candidate
queued_candidate = refl

conflict-IsCareful : (most : ℕ) → IsCareful (decide_conflict most)
conflict-IsCareful most = record {
  only = λ old s extra h.
      let (t, given, is_queued, room, stands, same) = conflict-decided most old s extra h in
      (
        (requeue_state-ok old t given).0,
        ap is_candidate (sym is_queued) ∙ queued_candidate,
        subst IsExtra same (carried-IsExtra old),
      );
}

-- A requeue after a conflict that succeeds returns the run as an operator's does, queued so that its plan
-- is made again, within the attempts allowed, and carries what the ended attempt had settled. The books
-- balance before it.
pub requeue_after_conflict-carried :
    (id : Text) (at : Time) (most : ℕ) (db : Db) (r : RequeueResult) (db' : Db)
    → Balanced db
    → requeue_after_conflict id at most db ≡ ok (r, db')
    → Returned id db r db'
      × (r.state ≡ queued)
      × (r.attempt ≤ most)
      × ((old : Row) × (row : Row) × (db.runs id ≡ some old)
          × (db'.runs id ≡ some row)
          × (row.prior_settled_cost ≡ old.settled_cost)
          × (row.prior_settled_minutes ≡ old.settled_minutes))
unfolding requeue_after_conflict carry_settled
requeue_after_conflict-carried id at most db r db' bal h =
    let (old, s, extra, present, d, same) =
      requeue-inverted id at automatic (decide_conflict most) db r db' h in
    let (t, given, is_queued, room, stands, is_extra) = conflict-decided most old s extra d in
    let fresh = noted true (requeued_row old s at) in
    (
      requeue-Returned id at automatic (decide_conflict most) db r db' (conflict-IsCareful most) bal
          h,
      ap (λ p. p.0.state) (sym same) ∙ sym is_queued,
      rw (ap (λ p. p.0.attempt) (sym same)) room,
      (
        old,
        extra (noted true (requeued_row old s at)),
        present,
        ap (λ p. p.1.runs id) (sym same) ∙ requeued-row id at automatic old s extra db,
        ap (λ f. (f (noted true (requeued_row old s at))).prior_settled_cost) (sym is_extra),
        ap (λ f. (f (noted true (requeued_row old s at))).prior_settled_minutes) (sym is_extra),
      ),
    )

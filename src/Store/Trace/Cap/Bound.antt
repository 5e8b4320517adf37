-- ===== src/Store/Trace/Cap/Bound.antt =====
-- How many reservations the ledger can hold through every sequence of transactions.
use mathlib.Core.Bool.{false≢true}
use forge_wingman.Prelude.{
  ℕ, ◌+◌, ◌≤◌, ◌<◌, ◌≡◌, sym, inl, inr, Bool, true, false, not, List, [], ◌∷◌, arith, Option-cases,
  Bool-cases, All,
}
use forge_wingman.Text.{Text, is_empty}
use forge_wingman.Time.{Time}
use forge_wingman.GoMap.{length-assign-le}
use forge_wingman.Dispatcher.Budget.{BudgetConfig, Reservation}
use forge_wingman.Dispatcher.Settled.{SettledHistory, sums}
use forge_wingman.Dispatcher.Admit.{Facts, held_before_budget, admit}
use forge_wingman.Dispatcher.Admit.Admissible.{admit_iff}
use forge_wingman.Dispatcher.Concurrency.{FloatOps}
use forge_wingman.Store.Row.{Row, is_candidate, has_ended}
use forge_wingman.Store.Db.{Db, Result, ok, err, ◌>>=◌, put_run, put_ledger}
use forge_wingman.Store.Queue.Requeue.{
  plain, automatic, decide_operator, decide_conflict, decide_transient,
}
use forge_wingman.Store.Queue.Claim.{
  admit_input, nothing_settled, withhold, book, decide_claim, claim_waiting, try_claim,
}
use forge_wingman.Store.Decisions.{suspended, posted_at_row, answered_row}
use forge_wingman.Store.Decisions.Provisional.{
  posted_provisional_row, confirmed_row, cleared_row, decide_supersede,
}
use forge_wingman.Store.Effects.Claim.{reports_claim, try_claim-made, claimed_db, candidate_claim}
use forge_wingman.Store.Trace.{
  Op, op_enqueue, op_reject, op_ticket_state, op_priority, op_stamp, op_refresh, op_claim,
  op_release, op_stop, op_requeue, op_requeue_conflict, op_requeue_transient, op_settle, op_adopt,
  op_suspend, op_take, op_posted, op_reply, op_answer, op_stop_waiting, op_posted_provisional,
  op_confirm, op_clear_reply, op_supersede, op_retry, op_refresh_models, op_stop_retried,
  op_abandon, op_release_settled, op_cancel, op_merge, op_hold, op_raise, left, apply, run,
}
use forge_wingman.Store.Trace.Cap.{
  booked, NoMore, length-in_flight, ok-NoMore, err-NoMore, left-NoMore, release-NoMore, stop-NoMore,
  settle_decision-NoMore, take_recommendation-NoMore, stop_waiting-NoMore,
}
use forge_wingman.Store.Trace.Cap.Moves.{
  hold-booked, raise-booked, ticket_state-NoMore, cancel-NoMore, merge-NoMore, enqueue-NoMore,
  requeue-NoMore, settle-NoMore, update_row-booked, adopt-booked, priority-booked, stamp-booked,
  refresh-booked, reply-booked, release_if_settled-booked, abandon-booked, retry_with_note-NoMore,
}

decided-booked :
    (id : Text) (row : Row) (at : Time) (facts : Facts) (res : Reservation) (verdict : Bool × Text)
    (db : Db)
    → (decide_claim id row at facts res verdict db).0.ok? ≡ false
    → booked (decide_claim id row at facts res verdict db).1 ≤ booked db
unfolding decide_claim withhold put_run
decided-booked id row at facts res (false, why) db h = omega arith
decided-booked id row at facts res (true, why) db h = absurd (false≢true (sym h))

-- A claim attempt that claims nothing books nothing.
unclaimed-NoMore :
    (id : Text) (row : Row) (at : Time) (cfg : BudgetConfig) (facts : Facts)
    (history : Result SettledHistory) (res : Reservation) (db : Db)
    → reports_claim (claim_waiting id row at cfg facts history res db) ≡ false
    → NoMore (λ r. r.1) db (claim_waiting id row at cfg facts history res db)
unfolding claim_waiting withhold put_run
unclaimed-NoMore id row at cfg facts history res db h =
    elim (Bool-cases (
      not (
        is_empty (held_before_budget (admit_input row db.ledger cfg facts res nothing_settled))))) [
          | inl held ↦ rw (held, claim_waiting) (ok-NoMore (λ r. r.1) db _ (omega arith))
          | inr reached ↦
              rw (reached, claim_waiting) (summed history (rw (reached, claim_waiting) at h))
        ]
  where
    summed :
        (history : Result SettledHistory)
        → reports_claim (
            history >>= λ h. ok (
              decide_claim id row at facts res
                (admit (admit_input row db.ledger cfg facts res (sums h cfg facts.model at)))
                db))
          ≡ false
        → NoMore
            (λ r. r.1)
            db
            (history >>= λ h. ok (
              decide_claim id row at facts res
                (admit (admit_input row db.ledger cfg facts res (sums h cfg facts.model at)))
                db))
    summed (ok h) r =
        ok-NoMore (λ r. r.1) db _
          (decided-booked id row at facts res
            (admit (admit_input row db.ledger cfg facts res (sums h cfg facts.model at))) db r)
    summed (err e) r = err-NoMore (λ r. r.1) db e

refused-NoMore :
    (id : Text) (at : Time) (cfg : BudgetConfig) (facts : Facts) (history : Result SettledHistory)
    (res : Reservation) (db : Db)
    → reports_claim (try_claim id at cfg facts history res db) ≡ false
    → NoMore (λ r. r.1) db (try_claim id at cfg facts history res db)
unfolding try_claim put_run
refused-NoMore id at cfg facts history res db h = elim (Option-cases (db.runs id)) [
  | inl missing ↦ rw (missing, try_claim) (ok-NoMore (λ r. r.1) db _ (omega arith))
  | inr (row, present) ↦ elim (Bool-cases (is_candidate row.state)) [
    | inr other ↦ rw (present, other, try_claim) (ok-NoMore (λ r. r.1) db _ (omega arith))
    | inl c ↦ elim (Bool-cases (has_ended row)) [
      | inl ended ↦ rw (present, c, ended, try_claim) (ok-NoMore (λ r. r.1) db _ (omega arith))
      | inr going ↦
          let e = candidate_claim id row at cfg facts history res db present c going in
          rw e (unclaimed-NoMore id row at cfg facts history res db (rw e at h))
    ]
  ]
]

claimed-booked :
    (id : Text) (row : Row) (at : Time) (facts : Facts) (res : Reservation) (db : Db)
    → booked (claimed_db id row at facts res db) ≤ booked db + 1
unfolding put_run put_ledger book
claimed-booked id row at facts res db = length-assign-le _ _ db.ledger.reservations

below_cap :
    (row : Row) (cfg : BudgetConfig) (facts : Facts) (res : Reservation) (db : Db)
    (h : SettledHistory) (at : Time)
    → (admit (admit_input row db.ledger cfg facts res (sums h cfg facts.model at))).0 ≡ true
    → booked db < facts.limits.platform_cap
unfolding admit_input
below_cap row cfg facts res db h at admits = omega (
  arith,
  length-in_flight db.ledger.reservations,
  ((admit_iff (admit_input row db.ledger cfg facts res (sums h cfg facts.model at))).0
      admits).below_platform,
)

claim-booked :
    (id : Text) (at : Time) (cfg : BudgetConfig) (facts : Facts) (history : Result SettledHistory)
    (res : Reservation) (db : Db) (b : ℕ)
    → facts.limits.platform_cap ≤ b
    → booked db ≤ b
    → booked (left (λ r. r.1) db (try_claim id at cfg facts history res db)) ≤ b
claim-booked id at cfg facts history res db b cap h =
    elim (Bool-cases (reports_claim (try_claim id at cfg facts history res db))) [
      | inl claimed ↦
          let made = try_claim-made id at cfg facts history res db claimed in
          rw made.result (
            omega (
              arith,
              claimed-booked id made.row at facts res db,
              below_cap made.row cfg facts res db made.settled at made.admits,
            ))
      | inr refused ↦ omega (
        arith,
        left-NoMore (λ r. r.1) db (try_claim id at cfg facts history res db)
            (refused-NoMore id at cfg facts history res db refused),
      )
    ]

-- A claim is asked for under a platform cap of at most `b`.
abbrev pub IsCapped : ℕ → Op → Type 0
IsCapped b (op_claim id at cfg facts history res) = facts.limits.platform_cap ≤ b
IsCapped b o = Unit

-- Every transaction but a claim books nothing.
abbrev IsClaim : Op → Type 0
IsClaim (op_claim id at cfg facts history res) = Unit
IsClaim o = ⊥

apply-booked :
    (ops : FloatOps) (o : Op) (db : Db) → ¬ IsClaim o → booked (apply ops o db) ≤ booked db
unfolding apply
apply-booked ops (op_enqueue q) db n = left-NoMore (λ d. d) db _ (enqueue-NoMore q db)
apply-booked ops (op_reject ticket r) db n = omega arith
apply-booked ops (op_ticket_state id state) db n =
    left-NoMore (λ d. d) db _ (ticket_state-NoMore id state db)
apply-booked ops (op_cancel id by at) db n = left-NoMore (λ d. d) db _ (cancel-NoMore id by at db)
apply-booked ops (op_merge id sha at) db n = left-NoMore (λ d. d) db _ (merge-NoMore id sha at db)
apply-booked ops (op_hold id reason day at) db n = hold-booked id reason day at db
apply-booked ops (op_raise notice) db n = omega (arith, raise-booked notice db)
apply-booked ops (op_priority id rank) db n = priority-booked id rank db
apply-booked ops (op_stamp id dry) db n = stamp-booked id dry db
apply-booked ops (op_refresh q) db n = refresh-booked q db
apply-booked ops (op_release id at) db n = left-NoMore (λ d. d) db _ (release-NoMore id at db)
apply-booked ops (op_stop id reason detail at) db n =
    left-NoMore (λ d. d) db _ (stop-NoMore id reason detail at db)
apply-booked ops (op_requeue id at) db n =
    left-NoMore (λ r. r.1) db _ (requeue-NoMore id at plain decide_operator db)
apply-booked ops (op_requeue_conflict id at most) db n =
    left-NoMore (λ r. r.1) db _ (requeue-NoMore id at automatic (decide_conflict most) db)
apply-booked ops (op_requeue_transient id at class limit) db n =
    left-NoMore (λ r. r.1) db _
      (requeue-NoMore id at automatic (decide_transient class limit at) db)
apply-booked ops (op_settle recent id attempt stage) db n =
    left-NoMore (λ d. d) db _ (settle-NoMore ops recent id attempt stage db)
apply-booked ops (op_adopt count) db n = adopt-booked count db
apply-booked ops (op_suspend id d url at) db n =
    left-NoMore (λ d. d) db _ (settle_decision-NoMore id url at (suspended d at) db)
apply-booked ops (op_take id d url at) db n =
    left-NoMore (λ d. d) db _ (take_recommendation-NoMore id d url at db)
apply-booked ops (op_posted id session at) db n = update_row-booked id (posted_at_row session at) db
apply-booked ops (op_reply id session text at) db n = reply-booked id session text at db
apply-booked ops (op_answer id choice at) db n = update_row-booked id (answered_row choice at) db
apply-booked ops (op_stop_waiting id d at) db n =
    left-NoMore (λ d. d) db _ (stop_waiting-NoMore id d at db)
apply-booked ops (op_posted_provisional id session at) db n =
    update_row-booked id (posted_provisional_row session at) db
apply-booked ops (op_confirm id index replied at) db n =
    update_row-booked id (confirmed_row index replied at) db
apply-booked ops (op_clear_reply id replied) db n = update_row-booked id (cleared_row replied) db
apply-booked ops (op_supersede id index replied choice at) db n =
    left-NoMore (λ r. r.1) db _
      (requeue-NoMore id at plain (decide_supersede index replied choice) db)
apply-booked ops (op_retry id req at) db n =
    left-NoMore (λ r. r.1) db _ (retry_with_note-NoMore id req at db)
apply-booked ops (op_refresh_models id m) db n = update_row-booked id _ db
apply-booked ops (op_stop_retried id reason detail at) db n = update_row-booked id _ db
apply-booked ops (op_abandon id now w) db n = abandon-booked id now w db
apply-booked ops (op_release_settled key now w) db n = release_if_settled-booked key now w db
apply-booked ops (op_claim id at cfg facts history res) db n = absurd (n tt)

capped-booked :
    (ops : FloatOps) (o : Op) (db : Db) (b : ℕ)
    → IsCapped b o
    → booked db ≤ b
    → booked (apply ops o db) ≤ b
unfolding apply
capped-booked ops (op_claim id at cfg facts history res) db b cap h =
    claim-booked id at cfg facts history res db b cap h
capped-booked ops o db b cap h = omega (arith, h, apply-booked ops o db (λ n. n))

-- Through every sequence of the queue's transactions from a store that holds at most `b` reservations,
-- where each claim is asked for under a platform cap of at most `b`, the ledger holds at most `b`
-- reservations, whatever N is adopted and whatever fails in between.
pub run-booked :
    (ops : FloatOps) (os : List Op) (db : Db) (b : ℕ)
    → All (IsCapped b) os
    → booked db ≤ b
    → booked (run ops os db) ≤ b
unfolding run
run-booked ops [] db b caps h = h
run-booked ops (o ∷ os) db b caps h =
    run-booked ops os (apply ops o db) b caps.1 (capped-booked ops o db b caps.0 h)

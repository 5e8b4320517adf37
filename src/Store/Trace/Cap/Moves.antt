-- ===== src/Store/Trace/Cap/Moves.antt =====
-- The transactions that book no stage.
use forge_wingman.Prelude.{
  ℕ, ◌≤◌, ◌≡◌, refl, inl, inr, Bool, not, ◌||◌, Option, none, some, arith, Option-cases, Bool-cases,
}
use forge_wingman.Text.{Text}
use forge_wingman.Time.{Time}
use forge_wingman.GoMap.{length-delete-le}
use forge_wingman.Dispatcher.{Stage, is_plan}
use forge_wingman.Dispatcher.Concurrency.{FloatOps}
use forge_wingman.Store.Holds.{record_hold}
use forge_wingman.Store.Inbox.{record_cancel, record_merge, cancel_refusal}
use forge_wingman.Store.Row.{Row}
use forge_wingman.Store.Ledger.{Entry, reservation, reserved_keys, drop_reservations, delete_key}
use forge_wingman.Store.Db.{Db, Notice, Result, ok, err, or_err, not_found, put_run, put_ledger}
use forge_wingman.Store.Queue.Enqueue.{
  Queued, enqueue, record_ticket_state, update_queued_priority, stamp, stamp_queued_at,
}
use forge_wingman.Store.Queue.Refresh.{refresh_queued_ticket, write}
use forge_wingman.Store.Queue.Requeue.{RequeueOptions, RequeueResult, Decide, archived, requeue}
use forge_wingman.Store.Decisions.{is_blank, update_row}
use forge_wingman.Store.Decisions.Provisional.{reply, replied_row}
use forge_wingman.Store.Sweep.{
  AbandonWindows, abandon, abandoned_row, abandoned_notice, found_abandoned, is_overdue, raise,
  release_if_settled,
}
use forge_wingman.Store.Retry.{
  RetryRequest, retry_options, valid_note, decide_retry, retry_result, retry_with_note,
}
use forge_wingman.Store.Queue.Settle.{
  RecentDurations, settle, settle_key, settle_entry, recommended_ledger, adopt_runs_at_once,
}
use forge_wingman.Store.Trace.Cap.{
  booked, NoMore, length-delete_all-le, ok-NoMore, err-NoMore, bind-NoMore,
}

pub ticket_state-NoMore :
    (id state : Text) (db : Db) → NoMore (λ d. d) db (record_ticket_state id state db)
unfolding record_ticket_state put_run
ticket_state-NoMore id state db =
    bind-NoMore (λ d. d) db (or_err (db.runs id) not_found) _
      (λ row. ok-NoMore (λ d. d) db _ (omega arith))

pub cancel-NoMore :
    (id by : Text) (at : Time) (db : Db) → NoMore (λ d. d) db (record_cancel id by at db)
unfolding record_cancel put_run
cancel-NoMore id by at db = elim (Option-cases (db.runs id)) [
  | inl missing ↦ rw (missing, record_cancel) (err-NoMore (λ d. d) db _)
  | inr (row, present) ↦ elim (Option-cases (cancel_refusal row)) [
    | inl allowed ↦ rw (present, allowed, record_cancel) (ok-NoMore (λ d. d) db _ (omega arith))
    | inr (e, refused) ↦ rw (present, refused, record_cancel) (err-NoMore (λ d. d) db _)
  ]
]

pub merge-NoMore :
    (id sha : Text) (at : Time) (db : Db) → NoMore (λ d. d) db (record_merge id sha at db)
unfolding record_merge put_run
merge-NoMore id sha at db =
    bind-NoMore (λ d. d) db (or_err (db.runs id) not_found) _
      (λ row. ok-NoMore (λ d. d) db _ (omega arith))

pub enqueue-NoMore : (q : Queued) (db : Db) → NoMore (λ d. d) db (enqueue q db)
unfolding enqueue put_run
enqueue-NoMore q db = elim (Option-cases (db.runs q.run_id)) [
  | inl fresh ↦ rw (fresh, enqueue) (ok-NoMore (λ d. d) db _ (omega arith))
  | inr (row, present) ↦ rw (present, enqueue) (err-NoMore (λ d. d) db _)
]

requeued-le :
    (id : Text) (at : Time) (archive : Bool) (old row : Row) (db : Db)
    → booked (
        put_run id row
          (put_ledger (drop_reservations db.ledger id old.attempt) (archived archive id old at db)))
      ≤ booked db
unfolding put_run put_ledger drop_reservations
requeued-le id at archive old row db =
    length-delete_all-le (reserved_keys db.ledger.reservations id old.attempt)
      db.ledger.reservations

pub requeue-NoMore :
    (id : Text) (at : Time) (opts : RequeueOptions) (decide : Decide) (db : Db)
    → NoMore (λ r. r.1) db (requeue id at opts decide db)
unfolding requeue
requeue-NoMore id at opts decide db =
    bind-NoMore (λ r. r.1) db (or_err (db.runs id) not_found) _
      (λ row.
        bind-NoMore (λ r. r.1) db (decide row) _
          (λ decided. ok-NoMore (λ r. r.1) db _ (requeued-le id at opts.archive row row db)))

settle_entry-NoMore :
    (ops : FloatOps) (recent : RecentDurations) (id k : Text) (found : Option Entry) (db : Db)
    → NoMore (λ d. d) db (settle_entry ops recent id k found db)
unfolding settle_entry put_run put_ledger delete_key recommended_ledger
settle_entry-NoMore ops recent id k none db = ok-NoMore (λ d. d) db _ (omega arith)
settle_entry-NoMore ops recent id k (some e) db = elim (Bool-cases (is_plan e.stage)) [
  | inl p ↦
      rw (p, settle_entry)
        (bind-NoMore (λ d. d) db (or_err (db.runs id) not_found) _
          (λ row. ok-NoMore (λ d. d) db _ (length-delete-le k db.ledger.reservations)))
  | inr b ↦
      rw (b, settle_entry) (ok-NoMore (λ d. d) db _ (length-delete-le k db.ledger.reservations))
]

pub settle-NoMore :
    (ops : FloatOps) (recent : RecentDurations) (id : Text) (attempt : Option ℕ) (stage : Stage)
    (db : Db)
    → NoMore (λ d. d) db (settle ops recent id attempt stage db)
unfolding settle
settle-NoMore ops recent id attempt stage db =
    settle_entry-NoMore ops recent id (settle_key id attempt stage) _ db

pub update_row-booked :
    (id : Text) (decide : Row → Option Row) (db : Db)
    → booked (update_row id decide db).1 ≤ booked db
unfolding update_row put_run
update_row-booked id decide db = ground arith

pub adopt-booked : (n : ℕ) (db : Db) → booked (adopt_runs_at_once n db) ≤ booked db
unfolding adopt_runs_at_once put_ledger
adopt-booked n db = ground arith

pub priority-booked :
    (id : Text) (rank : ℕ) (db : Db) → booked (update_queued_priority id rank db).1 ≤ booked db
unfolding update_queued_priority put_run
priority-booked id rank db = ground arith

pub stamp-booked :
    (id : Text) (dry : Bool) (db : Db) → booked (stamp_queued_at id dry db).1 ≤ booked db
unfolding stamp_queued_at stamp put_run
stamp-booked id dry db = ground arith

pub refresh-booked : (q : Queued) (db : Db) → booked (refresh_queued_ticket q db).1 ≤ booked db
unfolding refresh_queued_ticket write put_run
refresh-booked q db = ground arith

pub reply-booked :
    (id session text : Text) (at : Time) (db : Db)
    → booked (reply id session text at db).1 ≤ booked db
unfolding reply
reply-booked id session text at db =
    ground (arith, update_row-booked id (replied_row session text at) db)

pub release_if_settled-booked :
    (key : Text) (now : Time) (w : AbandonWindows) (db : Db)
    → booked (release_if_settled key now w db).1 ≤ booked db
unfolding release_if_settled put_ledger delete_key
release_if_settled-booked key now w db = ground (arith, length-delete-le key db.ledger.reservations)

pub raise-booked : (n : Text × Notice) (db : Db) → booked (raise n db) ≡ booked db
unfolding raise
raise-booked (id, notice) db = elim (Option-cases (db.notices id)) [
  | inl fresh ↦ rw (fresh, raise) refl
  | inr (old, present) ↦ rw (present, raise) refl
]

abandoned-le :
    (id : Text) (row : Row) (now : Time) (db : Db)
    → booked (
        put_run id
          (abandoned_row row now)
          (put_ledger (drop_reservations db.ledger id row.attempt) db))
      ≤ booked db
unfolding put_run put_ledger drop_reservations
abandoned-le id row now db =
    length-delete_all-le (reserved_keys db.ledger.reservations id row.attempt)
      db.ledger.reservations

pub abandon-booked :
    (id : Text) (now : Time) (w : AbandonWindows) (db : Db)
    → booked (abandon id now w db).1 ≤ booked db
unfolding abandon
abandon-booked id now w db = elim (Option-cases (db.runs id)) [
  | inl missing ↦ rw (missing, abandon) (omega arith)
  | inr (row, present) ↦
      elim (Bool-cases (is_overdue row (reservation db.ledger.reservations id row.attempt) now w)) [
        | inl due ↦
            let found =
              found_abandoned id row (reservation db.ledger.reservations id row.attempt) in
            let next =
              put_run id (abandoned_row row now)
                (put_ledger (drop_reservations db.ledger id row.attempt) db) in
            rw (present, due, abandon)
              (rw (raise-booked (abandoned_notice found now) next) (abandoned-le id row now db))
        | inr early ↦ rw (present, early, abandon) (omega arith)
      ]
]

retry_result-NoMore :
    (req : RetryRequest) (db : Db) (r : Result (RequeueResult × Db))
    → NoMore (λ r. r.1) db r
    → NoMore (λ r. r.1) db (retry_result req db r)
unfolding retry_result NoMore
retry_result-NoMore req db (ok r) h = h
retry_result-NoMore req db (err e) h = ground arith

pub retry_with_note-NoMore :
    (id : Text) (req : RetryRequest) (at : Time) (db : Db)
    → NoMore (λ r. r.1) db (retry_with_note id req at db)
unfolding retry_with_note
retry_with_note-NoMore id req at db =
    elim (Bool-cases (is_blank req.note || not (valid_note req.note))) [
      | inl bad ↦ rw (bad, retry_with_note) (err-NoMore (λ r. r.1) db _)
      | inr fine ↦ elim (Bool-cases (is_blank req.actor)) [
        | inl blank ↦ rw (fine, blank, retry_with_note) (err-NoMore (λ r. r.1) db _)
        | inr signed ↦
            rw (fine, signed, retry_with_note)
              (retry_result-NoMore req db _
                (requeue-NoMore id at retry_options (decide_retry req) db))
      ]
    ]

pub hold-booked :
    (id reason day : Text) (at : Time) (db : Db)
    → booked (record_hold id reason day at db) ≤ booked db
unfolding record_hold put_run
hold-booked id reason day at db = elim (Option-cases (db.runs id)) [
  | inl missing ↦ rw (missing, record_hold) (omega arith)
  | inr (row, present) ↦ rw (present, record_hold) (omega arith)
]

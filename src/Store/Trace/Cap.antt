-- ===== src/Store/Trace/Cap.antt =====
-- The transactions that book no reservation.
pub mod Moves
pub mod Bound
use forge_wingman.Prelude.{
  ℕ, suc, ◌+◌, ◌≤◌, ◌<◌, ◌≡◌, refl, sym, ap, ◌∙◌, inl, inr, Bool, true, false, not, ◌||◌, ◌==◌,
  Option, none, some, List, [], ◌∷◌, arith, length, Option-cases, Bool-cases, if◌then◌else◌, max,
}
use forge_wingman.Text.{Text}
use forge_wingman.Time.{Time}
use forge_wingman.GoMap.{GoMap, lookup, assign, delete, length-delete-le, length-assign-le}
use forge_wingman.Runner.{StopReason, Decision}
use forge_wingman.Dispatcher.{Stage, is_plan}
use forge_wingman.Dispatcher.Concurrency.{FloatOps}
use forge_wingman.Store.Inbox.{record_cancel, record_merge, cancel_refusal}
use forge_wingman.Store.Row.{Row}
use forge_wingman.Store.Ledger.{
  Entry, in_flight, reservation, delete_all, reserved_keys, drop_reservations, delete_key,
}
use forge_wingman.Store.Db.{
  Db, Notice, Error, Result, ok, err, or_err, not_found, ◌>>=◌, put_run, put_ledger,
}
use forge_wingman.Store.Queue.Enqueue.{
  Queued, enqueue, record_ticket_state, update_queued_priority, stamp, stamp_queued_at,
}
use forge_wingman.Store.Queue.Refresh.{refresh_queued_ticket, write}
use forge_wingman.Store.Queue.Requeue.{RequeueOptions, RequeueResult, Decide, archived, requeue}
use forge_wingman.Store.Decisions.{
  settle_decision, take_recommendation, is_blank, first_option, taken, stop_waiting, update_row,
}
use forge_wingman.Store.Decisions.Provisional.{reply, replied_row}
use forge_wingman.Store.Sweep.{
  AbandonWindows, abandon, abandoned_row, abandoned_notice, found_abandoned, is_overdue, raise,
  release_if_settled,
}
use forge_wingman.Store.Retry.{
  RetryRequest, retry_options, valid_note, decide_retry, retry_result, retry_with_note,
}
use forge_wingman.Store.Queue.Release.{release, stop, drop_key}
use forge_wingman.Store.Queue.Settle.{
  RecentDurations, settle, settle_key, settle_entry, recommended_ledger, adopt_runs_at_once,
}
use forge_wingman.Store.Trace.{left}

-- How many reservations the store holds.
abbrev pub booked : Db → ℕ
booked db = length db.ledger.reservations

-- A transaction that books nothing.
unfoldable pub NoMore {ℓ} : {A : Type ℓ} → (A → Db) → Db → Result A → Type 0
NoMore f db (ok a) = booked (f a) ≤ booked db
NoMore f db (err e) = Unit

pub length-delete_all-le : (ks : List Text) (m : GoMap Entry) → length (delete_all ks m) ≤ length m
unfolding delete_all
length-delete_all-le [] m = omega arith
length-delete_all-le (k ∷ ks) m =
    omega (arith, length-delete_all-le ks (delete k m), length-delete-le k m)

pub length-drop_key-le :
    (db : Db) (held : Option (Text × Entry))
    → length (drop_key held db.ledger).reservations ≤ booked db
unfolding delete_key
length-drop_key-le db none = omega arith
length-drop_key-le db (some (k, e)) = length-delete-le k db.ledger.reservations

pub length-in_flight : (m : GoMap Entry) → length (in_flight m) ≡ length m
unfolding in_flight
length-in_flight [] = refl
length-in_flight ((k, e) ∷ m) = ap suc (length-in_flight m)

pub ok-NoMore {ℓ} :
    {A : Type ℓ} (f : A → Db) (db : Db) (a : A) → booked (f a) ≤ booked db → NoMore f db (ok a)
unfolding NoMore
ok-NoMore f db a h = h

pub err-NoMore {ℓ} : {A : Type ℓ} (f : A → Db) (db : Db) (e : Error) → NoMore f db (err e)
unfolding NoMore
err-NoMore f db e = tt

pub bind-NoMore {ℓ κ} :
    {A : Type ℓ} {B : Type κ} (f : B → Db) (db : Db) (r : Result A) (k : A → Result B)
    → ((a : A) → NoMore f db (k a))
    → NoMore f db (r >>= k)
bind-NoMore f db (ok a) k h = h a
bind-NoMore f db (err e) k h = err-NoMore f db e

pub left-NoMore {ℓ} :
    {A : Type ℓ} (f : A → Db) (db : Db) (r : Result A)
    → NoMore f db r
    → booked (left f db r) ≤ booked db
unfolding NoMore
left-NoMore f db (ok a) h = h
left-NoMore f db (err e) h = omega arith

pub release-NoMore : (id : Text) (at : Time) (db : Db) → NoMore (λ d. d) db (release id at db)
unfolding release put_run put_ledger
release-NoMore id at db =
    bind-NoMore (λ d. d) db (or_err (db.runs id) not_found) _
      (λ row.
        ok-NoMore (λ d. d) db _
          (length-drop_key-le db (reservation db.ledger.reservations id row.attempt)))

pub stop-NoMore :
    (id : Text) (reason : StopReason) (detail : Text) (at : Time) (db : Db)
    → NoMore (λ d. d) db (stop id reason detail at db)
unfolding stop put_run put_ledger
stop-NoMore id reason detail at db =
    bind-NoMore (λ d. d) db (or_err (db.runs id) not_found) _
      (λ row.
        ok-NoMore (λ d. d) db _
          (length-drop_key-le db (reservation db.ledger.reservations id row.attempt)))

pub settle_decision-NoMore :
    (id url : Text) (at : Time) (f : Row → Row) (db : Db)
    → NoMore (λ d. d) db (settle_decision id url at f db)
unfolding settle_decision put_run put_ledger
settle_decision-NoMore id url at f db =
    bind-NoMore (λ d. d) db (or_err (db.runs id) not_found) _
      (λ row.
        ok-NoMore (λ d. d) db _
          (length-drop_key-le db (reservation db.ledger.reservations id row.attempt)))

pub take_recommendation-NoMore :
    (id : Text) (d : Decision) (url : Text) (at : Time) (db : Db)
    → NoMore (λ d. d) db (take_recommendation id d url at db)
unfolding take_recommendation
take_recommendation-NoMore id d url at db =
    bind-NoMore (λ d. d) db (first_option d) _
      (λ o. settle_decision-NoMore id url at (taken d o.label at) db)

pub stop_waiting-NoMore :
    (id : Text) (d : Decision) (at : Time) (db : Db) → NoMore (λ d. d) db (stop_waiting id d at db)
unfolding stop_waiting put_run
stop_waiting-NoMore id d at db =
    bind-NoMore (λ d. d) db (or_err (db.runs id) not_found) _
      (λ row. ok-NoMore (λ d. d) db _ (omega arith))

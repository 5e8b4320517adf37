-- ===== src/Store/Accounting/Operations.antt =====
-- What it is to keep the books, and that the enqueue, the release, the stop and the requeues do.
use mathlib.Core.Option.{none-ne-some}
use forge_wingman.Prelude.{
  ◌≡◌, refl, sym, ◌∙◌, inl, inr, Bool, true, false, Option, none, some, Option-cases,
}
use forge_wingman.Text.{Text}
use forge_wingman.Time.{Time}
use forge_wingman.Runner.{StopReason}
use forge_wingman.Store.Keys.Distinct.{IsRunId}
use forge_wingman.Store.Row.{Row}
use forge_wingman.Store.Ledger.{
  Entry, reserved_keys, delete_all, drop_reservations, reservation, delete_key,
}
use forge_wingman.Store.Ledger.Booking.{lookup-delete-some, lookup-delete_all-some}
use forge_wingman.Store.Db.{Db, Error, Result, ok, err, ◌>>=◌, update, put_run, put_ledger}
use forge_wingman.Store.Queue.Enqueue.{Queued, enqueue}
use forge_wingman.Store.Queue.Release.{release, stop, drop_key}
use forge_wingman.Store.Queue.Requeue.{RequeueOptions, Decide, requeue, archived}
use forge_wingman.Store.Accounting.{
  IsFree, IsAccounted, idle-IsFree, free-IsAccounted, kept-IsAccounted, fewer-IsAccounted,
  drop-IsFree, delete-IsFree, none-IsFree,
}

abbrev pub Balanced : Db → Type 0
Balanced db = IsAccounted db.runs db.ledger.reservations

-- The state that a transaction leaves, where it commits.
unfoldable pub Keeps {ℓ} : {A : Type ℓ} → (A → Db) → Result A → Type 0
Keeps f (ok a) = Balanced (f a)
Keeps f (err e) = Unit

pub ok-Keeps {ℓ} : {A : Type ℓ} (f : A → Db) (a : A) → Balanced (f a) → Keeps f (ok a)
unfolding Keeps
ok-Keeps f a bal = bal

pub err-Keeps {ℓ} : {A : Type ℓ} (f : A → Db) (e : Error) → Keeps f (err e)
unfolding Keeps
err-Keeps f e = tt

pub dropped-Balanced :
    (db : Db) (id : Text) (row row' : Row)
    → Balanced db
    → db.runs id ≡ some row
    → IsAccounted
        (update db.runs id (some row'))
        (delete_all (reserved_keys db.ledger.reservations id row.attempt) db.ledger.reservations)
dropped-Balanced db id row row' bal at =
    free-IsAccounted db.runs _ id (some row')
      (fewer-IsAccounted db.runs db.ledger.reservations _ bal
        (λ k e h. (lookup-delete_all-some _ k e _ h).0))
      (drop-IsFree db.runs db.ledger.reservations id row bal at)

pub drop_key-IsFree :
    (db : Db) (id : Text) (row : Row) (held : Option (Text × Entry))
    → Balanced db
    → IsRunId id
    → db.runs id ≡ some row
    → reservation db.ledger.reservations id row.attempt ≡ held
    → IsFree (drop_key held db.ledger).reservations id
unfolding delete_key
drop_key-IsFree db id row none bal is_id at h =
    none-IsFree db.runs db.ledger.reservations id row bal at h
drop_key-IsFree db id row (some (k, e)) bal is_id at h =
    delete-IsFree db.runs db.ledger.reservations id k row.attempt e bal is_id h

pub released-Balanced :
    (db : Db) (id : Text) (row row' : Row) (held : Option (Text × Entry))
    → Balanced db
    → IsRunId id
    → db.runs id ≡ some row
    → reservation db.ledger.reservations id row.attempt ≡ held
    → IsAccounted (update db.runs id (some row')) (drop_key held db.ledger).reservations
unfolding delete_key
released-Balanced db id row row' none bal is_id at h =
    free-IsAccounted db.runs _ id (some row') bal
      (none-IsFree db.runs db.ledger.reservations id row bal at h)
released-Balanced db id row row' (some (k, e)) bal is_id at h =
    free-IsAccounted db.runs _ id (some row')
      (fewer-IsAccounted db.runs db.ledger.reservations _ bal
        (λ j d i. (lookup-delete-some k j d _ i).0))
      (delete-IsFree db.runs db.ledger.reservations id k row.attempt e bal is_id h)

pub release-Balanced :
    (id : Text) (at : Time) (db : Db) → Balanced db → IsRunId id → Keeps (λ d. d) (release id at db)
unfolding release put_run put_ledger
release-Balanced id at db bal is_id = elim (Option-cases (db.runs id)) [
  | inl missing ↦ rw missing (err-Keeps _ _)
  | inr (row, present) ↦
      rw present (ok-Keeps _ _ (released-Balanced db id row _ _ bal is_id present refl))
]

pub stop-Balanced :
    (id : Text) (reason : StopReason) (detail : Text) (at : Time) (db : Db)
    → Balanced db
    → IsRunId id
    → Keeps (λ d. d) (stop id reason detail at db)
unfolding stop put_run put_ledger
stop-Balanced id reason detail at db bal is_id = elim (Option-cases (db.runs id)) [
  | inl missing ↦ rw missing (err-Keeps _ _)
  | inr (row, present) ↦
      rw present (ok-Keeps _ _ (released-Balanced db id row _ _ bal is_id present refl))
]

pub enqueue-Balanced : (run : Queued) (db : Db) → Balanced db → Keeps (λ d. d) (enqueue run db)
unfolding enqueue put_run
enqueue-Balanced run db bal = elim (Option-cases (db.runs run.run_id)) [
  | inl missing ↦
      rw (missing, enqueue)
        (ok-Keeps _ _ (
          free-IsAccounted db.runs db.ledger.reservations run.run_id _ bal (
            idle-IsFree db.runs db.ledger.reservations run.run_id bal
              (λ row present held. none-ne-some row (sym missing ∙ present)))))
  | inr (row, present) ↦ rw (present, enqueue) (err-Keeps _ _)
]

pub bind-Keeps {ℓ κ} :
    {A : Type ℓ} {B : Type κ} (f : B → Db) (r : Result A) (k : A → Result B)
    → ((a : A) → Keeps f (k a))
    → Keeps f (r >>= k)
bind-Keeps f (ok a) k h = h a
bind-Keeps f (err e) k h = err-Keeps f e

pub requeued-Balanced :
    (archive : Bool) (id : Text) (at : Time) (db : Db) (row row' : Row)
    → Balanced db
    → db.runs id ≡ some row
    → Balanced (
        put_run id row'
          (put_ledger (drop_reservations db.ledger id row.attempt) (archived archive id row at db)))
unfolding put_run put_ledger drop_reservations
requeued-Balanced true id at db row row' bal present = dropped-Balanced db id row row' bal present
requeued-Balanced false id at db row row' bal present = dropped-Balanced db id row row' bal present

pub requeue-Balanced :
    (id : Text) (at : Time) (opts : RequeueOptions) (decide : Decide) (db : Db)
    → Balanced db
    → Keeps (λ r. r.1) (requeue id at opts decide db)
unfolding requeue
requeue-Balanced id at opts decide db bal = elim (Option-cases (db.runs id)) [
  | inl missing ↦ rw missing (err-Keeps _ _)
  | inr (row, present) ↦ rw present (
      bind-Keeps (λ r. r.1) (decide row) _
        (λ decided. ok-Keeps _ _ (requeued-Balanced opts.archive id at db row _ bal present)))
]

pub row_kept-Balanced :
    (db : Db) (id : Text) (row row' : Row)
    → Balanced db
    → db.runs id ≡ some row
    → row'.state ≡ row.state
    → row'.attempt ≡ row.attempt
    → Balanced (put_run id row' db)
unfolding put_run
row_kept-Balanced db id row row' bal at s a =
    kept-IsAccounted db.runs db.ledger.reservations id row row' bal at s a

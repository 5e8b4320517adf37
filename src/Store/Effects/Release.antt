-- ===== src/Store/Effects/Release.antt =====
-- What a release leaves of a claim.
use mathlib.Core.Option.{some-injective}
use forge_wingman.Prelude.{
  ℕ, ◌≡◌, ◌≢◌, refl, sym, ap, ◌∙◌, inl, inr, none, some, arith, Option-cases, length,
}
use forge_wingman.Text.{Text, text_eq_iff}
use forge_wingman.Time.{Time}
use forge_wingman.GoMap.{GoMap, lookup, delete-assign}
use forge_wingman.Dispatcher.{Stage, build, plan, single, is_build}
use forge_wingman.Dispatcher.Budget.{BudgetConfig, Reservation}
use forge_wingman.Dispatcher.Settled.{SettledHistory}
use forge_wingman.Dispatcher.Admit.{Facts}
use forge_wingman.Store.Keys.{reservation_key}
use forge_wingman.Store.Keys.Distinct.{IsRunId, reservation_run_id-key}
use forge_wingman.Store.Row.{Row, RunState, planned, queued}
use forge_wingman.Store.Ledger.{Entry, in_flight, reservation, delete_key}
use forge_wingman.Store.Ledger.Booking.{reservation-assign}
use forge_wingman.Store.Db.{Db, Result, ok, put_run, put_ledger}
use forge_wingman.Store.Queue.Claim.{admitted, try_claim, new_entry, claim_row, book}
use forge_wingman.Store.Queue.Release.{release, released_state}
use forge_wingman.Store.Accounting.{IsFree, idle-IsFree}
use forge_wingman.Store.Accounting.Operations.{Balanced}
use forge_wingman.Store.Accounting.Claims.{same_idle}
use forge_wingman.Store.Trace.{left}
use forge_wingman.Store.Effects.Claim.{try_claim-made, claimed_db, claimed_row_present, update_self}

pub free_lookup :
    (m : GoMap Entry) (id : Text) (a : ℕ) (s : Stage)
    → IsRunId id
    → IsFree m id
    → lookup (reservation_key id a s) m ≡ none
free_lookup m id a s is_id free = elim (Option-cases (lookup (reservation_key id a s) m)) [
  | inl none_there ↦ none_there
  | inr (e, h) ↦ absurd (free (reservation_key id a s) e h (reservation_run_id-key id a s is_id).0)
]

-- The state of a released claim of a stage: its plan still stands where the build was claimed.
abbrev pub state_after : Stage → RunState
state_after build = planned
state_after plan = queued
state_after single = queued

released-state : (k : Text) (e : Entry) → released_state (some (k, e)) ≡ state_after e.stage
unfolding released_state is_build
released-state k e = ground arith

pub record Restored (id : Text) (stage : Stage) (before after : Db) : Type 0 where
  pub ledger_back : after.ledger.reservations ≡ before.ledger.reservations
  pub row : Row
  pub present : after.runs id ≡ some row
  pub returned : row.state ≡ state_after stage
  pub unclaimed : row.claimed_at ≡ 0
  pub others : (j : Text) → j ≢ id → after.runs j ≡ before.runs j

abbrev released_db : Text → Row → RunState → Time → Text → Db → Db
released_db id row state later k db =
    put_run id (record row { state = state; updated_at = later; claimed_at = 0 })
      (put_ledger (delete_key k db.ledger) db)

release-held :
    (id k : Text) (e : Entry) (row : Row) (later : Time) (db : Db)
    → db.runs id ≡ some row
    → reservation db.ledger.reservations id row.attempt ≡ some (k, e)
    → release id later db ≡ ok (released_db id row (released_state (some (k, e))) later k db)
unfolding release
release-held id k e row later db present held = rw (present, held, release) refl

claimed_held :
    (id : Text) (row : Row) (at : Time) (facts : Facts) (res : Reservation) (db : Db)
    → IsRunId id
    → IsFree db.ledger.reservations id
    → reservation
        (claimed_db id row at facts res db).ledger.reservations
        id
        (claim_row row at facts res (length (in_flight db.ledger.reservations))).attempt
      ≡ some (reservation_key id row.attempt res.stage, new_entry row at facts res)
unfolding put_run put_ledger book new_entry claim_row
claimed_held id row at facts res db is_id free =
    reservation-assign db.ledger.reservations id row.attempt res.stage (new_entry row at facts res)
      is_id (free_lookup db.ledger.reservations id row.attempt build is_id free)

restored :
    (id : Text) (row : Row) (at later : Time) (facts : Facts) (res : Reservation) (db : Db)
    → IsRunId id
    → IsFree db.ledger.reservations id
    → Restored id res.stage db (
        released_db id
          (claim_row row at facts res (length (in_flight db.ledger.reservations)))
          (released_state
            (some (reservation_key id row.attempt res.stage, new_entry row at facts res)))
          later
          (reservation_key id row.attempt res.stage)
          (claimed_db id row at facts res db))
unfolding put_run put_ledger book new_entry claim_row delete_key
restored id row at later facts res db is_id free = record {
  ledger_back =
      delete-assign (reservation_key id row.attempt res.stage) (new_entry row at facts res)
        db.ledger.reservations
        (free_lookup db.ledger.reservations id row.attempt res.stage is_id free);
  row = _;
  present = update_self (claimed_db id row at facts res db).runs id _;
  returned = released-state (reservation_key id row.attempt res.stage) (new_entry row at facts res);
  unclaimed = refl;
  others = λ j n. ground (arith, text_eq_iff id j);
}

-- A claim whose dispatch never reached GitHub leaves no trace in the ledger: the release after it puts
-- back the reservations that stood before the claim, returns the run to planned when its build was
-- claimed and to queued otherwise, and changes no other run. The books balance before the claim, and
-- the run has a ticket id.
pub release-try_claim :
    (id : Text) (at later : Time) (cfg : BudgetConfig) (facts : Facts)
    (history : Result SettledHistory) (res : Reservation) (db db' : Db)
    → Balanced db
    → IsRunId id
    → try_claim id at cfg facts history res db ≡ ok (admitted, db')
    → (after : Db) × (release id later db' ≡ ok after) × Restored id res.stage db after
release-try_claim id at later cfg facts history res db db' bal is_id h =
    let made = try_claim-made id at cfg facts history res db (rw h refl) in
    let row = made.row in
    let same : claimed_db id made.row at facts res db ≡ db' =
      ap (left (λ r. r.1) db) (sym made.result ∙ h) in
    let free : IsFree db.ledger.reservations id =
      idle-IsFree db.runs db.ledger.reservations id bal (λ r p.
        same_idle made.row r (some-injective made.row r (sym made.present ∙ p)) made.waits) in
    rw (← same) (
      _,
      release-held id (reservation_key id row.attempt res.stage) (new_entry row at facts res)
          (claim_row row at facts res (length (in_flight db.ledger.reservations))) later
          (claimed_db id row at facts res db) (claimed_row_present id row at facts res db)
          (claimed_held id row at facts res db is_id free),
      restored id row at later facts res db is_id free,
    )

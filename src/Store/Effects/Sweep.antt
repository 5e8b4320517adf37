-- ===== src/Store/Effects/Sweep.antt =====
-- What the sweep gives up, and what it never does.
use mathlib.Core.Path.{subst}
use mathlib.Core.Bool.{false≢true}
use mathlib.Core.Option.{none-ne-some}
use forge_wingman.Prelude.{
  ◌-◌, ◌<◌, ◌≡◌, refl, sym, ap, ◌∙◌, inl, inr, true, false, not, ◌||◌, Option, some, arith,
  Option-cases, Bool-cases,
}
use forge_wingman.Text.{Text}
use forge_wingman.Time.{Time}
use forge_wingman.GoMap.{lookup}
use forge_wingman.Store.Keys.{reservation_run_id}
use forge_wingman.Store.Row.{Row, claimed, abandoned, is_claimed, has_ended}
use forge_wingman.Store.Ledger.{Entry, reservation, drop_reservations}
use forge_wingman.Store.Db.{Db, put_run, put_ledger}
use forge_wingman.Store.Sweep.{
  AbandonWindows, Abandoned, abandon, is_overdue, window_for, stage_of, raise, abandoned_row,
  abandoned_notice, found_abandoned, reservation_expired, entry_settled, release_if_settled,
}
use forge_wingman.Store.Accounting.{IsFree, drop-IsFree, Booked-run}
use forge_wingman.Store.Accounting.Operations.{Balanced}
use forge_wingman.Store.Accounting.Waits.{raise_runs, raise_ledger}
use forge_wingman.Store.Effects.Claim.{update_self}

-- A run that the sweep abandoned: claimed with nothing recorded since before its window, and now
-- abandoned without a reservation.
pub record GivenUp (id : Text) (now : Time) (w : AbandonWindows) (db after : Db) : Type 0 where
  pub old : Row
  pub was : db.runs id ≡ some old
  pub in_state : old.state ≡ claimed
  pub silent : has_ended old ≡ false
  pub overdue :
      old.claimed_at
      < now - window_for w (stage_of (reservation db.ledger.reservations id old.attempt))
  pub row : Row
  pub present : after.runs id ≡ some row
  pub given_up : row.state ≡ abandoned
  pub unbooked : IsFree after.ledger.reservations id

overdue-facts :
    (row : Row) (held : Option (Text × Entry)) (now : Time) (w : AbandonWindows)
    → is_overdue row held now w ≡ true
    → (row.state ≡ claimed)
      × (has_ended row ≡ false)
      × (row.claimed_at < now - window_for w (stage_of held))
unfolding is_overdue is_claimed
overdue-facts row held now w h = ground arith

given_up :
    (id : Text) (row : Row) (now : Time) (w : AbandonWindows) (db : Db)
    → Balanced db
    → db.runs id ≡ some row
    → row.state ≡ claimed
    → has_ended row ≡ false
    → row.claimed_at
      < now - window_for w (stage_of (reservation db.ledger.reservations id row.attempt))
    → GivenUp id now w db (
        raise
          (abandoned_notice
            (found_abandoned id row (reservation db.ledger.reservations id row.attempt))
            now)
          (put_run id
            (abandoned_row row now)
            (put_ledger (drop_reservations db.ledger id row.attempt) db)))
unfolding put_run put_ledger drop_reservations abandoned_row
given_up id row now w db bal present in_state silent overdue =
    let notice =
      abandoned_notice (found_abandoned id row (reservation db.ledger.reservations id row.attempt))
        now in
    let next =
      put_run id (abandoned_row row now)
        (put_ledger (drop_reservations db.ledger id row.attempt) db) in
    record {
      old = row;
      was = present;
      in_state = in_state;
      silent = silent;
      overdue = overdue;
      row = abandoned_row row now;
      present =
          ap (λ f. f id) (raise_runs notice next)
          ∙ update_self db.runs id (some (abandoned_row row now));
      given_up = refl;
      unbooked =
          subst (λ l. IsFree l.reservations id) (sym (raise_ledger notice next))
            (drop-IsFree db.runs db.ledger.reservations id row bal present);
    }

-- The sweep abandons a run only when it is claimed, has recorded nothing and was claimed before its
-- stage's window; the run is then abandoned and holds no reservation. The books balance before it.
pub abandon-GivenUp :
    (id : Text) (now : Time) (w : AbandonWindows) (db : Db) (a : Abandoned)
    → Balanced db
    → (abandon id now w db).0 ≡ some a
    → GivenUp id now w db (abandon id now w db).1
unfolding abandon
abandon-GivenUp id now w db a bal h = elim (Option-cases (db.runs id)) [
  | inl missing ↦ absurd (none-ne-some a (rw (missing, abandon) at h))
  | inr (row, present) ↦
      elim (Bool-cases (is_overdue row (reservation db.ledger.reservations id row.attempt) now w)) [
        | inr early ↦ absurd (none-ne-some a (rw (present, early, abandon) at h))
        | inl due ↦
            let (in_state, silent, overdue) =
              overdue-facts row (reservation db.ledger.reservations id row.attempt) now w due in
            rw (present, due, abandon)
              (given_up id row now w db bal present in_state silent overdue)
      ]
]

ended_claim :
    (e : Entry) (row : Row)
    → row.state ≡ claimed
    → e.attempt ≡ row.attempt
    → entry_settled e (some row) ≡ true
    → has_ended row ≡ true
unfolding entry_settled is_claimed
ended_claim e row c a s = ground arith

-- The reservation that the sweep drops is never that of a run that still runs: where the books balance, its
-- run has recorded an outcome or a stop reason.
pub release_if_settled-ended :
    (key : Text) (now : Time) (w : AbandonWindows) (db : Db)
    → Balanced db
    → (release_if_settled key now w db).0 ≡ true
    → (row : Row) × (db.runs (reservation_run_id key) ≡ some row) × (has_ended row ≡ true)
unfolding release_if_settled
release_if_settled-ended key now w db bal h =
    elim (Option-cases (lookup key db.ledger.reservations)) [
      | inl missing ↦ absurd (false≢true (rw (missing, release_if_settled) at h))
      | inr (e, held) ↦
          let b = bal.booked key e held in
          let run : db.runs (reservation_run_id key) ≡ some b.row =
            ap db.runs (Booked-run db.runs key e b) ∙ b.present in
          elim (Bool-cases (
            not (reservation_expired e now w)
            || not (entry_settled e (db.runs (reservation_run_id key))))) [
              | inl kept ↦ absurd (false≢true (rw (held, kept, release_if_settled) at h))
              | inr dropped ↦
                  let settled : entry_settled e (db.runs (reservation_run_id key)) ≡ true =
                    ground arith in
                  (
                    b.row,
                    run,
                    ended_claim e b.row b.in_state b.at_attempt
                        (ap (entry_settled e) (sym run) ∙ settled),
                  )
            ]
    ]

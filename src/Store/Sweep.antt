-- ===== src/Store/Sweep.antt =====
-- internal/store/sweep.go, with the windows and the notice of internal/dispatcher/sweep.go: claims that
-- report nothing within their window, and reservations that outlived their run's claim.
use forge_wingman.Prelude.{
  ℕ, Bool, true, false, not, ◌&&◌, ◌||◌, Option, none, some, List, [], ◌∷◌, ◌++◌, ltb,
  if◌then◌else◌,
}
use forge_wingman.Text.{Text, codes, text_eq, is_empty}
use forge_wingman.Text.Decimal.{itoa}
use forge_wingman.Time.{Time, Duration, is_zero, is_before, back}
use forge_wingman.GoMap.{lookup}
use forge_wingman.Dispatcher.{Stage, single, is_plan}
use forge_wingman.Store.Keys.{reservation_run_id}
use forge_wingman.Store.Row.{Row, abandoned, is_claimed, has_ended}
use forge_wingman.Store.Ledger.{Entry, reservation, drop_reservations, delete_key}
use forge_wingman.Store.Db.{Db, Notice, pending, update, put_run, put_ledger}

pub record AbandonWindows : Type 0 where
  pub plan_window : Duration
  pub build_window : Duration

-- w.For(stage)
unfoldable pub window_for : AbandonWindows → Stage → Duration
unfolding is_plan
window_for w stage = if is_plan stage then w.plan_window else w.build_window

-- dispatcher.Abandoned
pub record Abandoned : Type 0 where
  pub run_id : Text
  pub ticket : Text
  pub repo : Text
  pub stage : Stage
  pub attempt : ℕ
  pub ticket_state : Text

-- a.link()
link : Abandoned → Text
link a = if is_empty a.repo then [] else codes "https://github.com/" ++ a.repo ++ codes "/actions"

notice_id : Abandoned → Text
unfolding itoa
notice_id a = codes "abandoned-" ++ a.run_id ++ codes "-" ++ itoa a.attempt

notice_class : Abandoned → Text
unfolding text_eq
notice_class a =
    codes "abandoned:"
    ++ a.run_id
    ++ (if not (text_eq a.ticket a.run_id) then codes " ticket " ++ a.ticket else [])
    ++ codes " requeue with: runner requeue -run-id "
    ++ a.run_id

-- a.Notice(), pending as noticeData creates it
unfoldable pub abandoned_notice : Abandoned → Time → Text × Notice
unfolding link notice_id notice_class
abandoned_notice a at = (
  notice_id a,
  record { class = notice_class a; detail = []; link = link a; state = pending; raised_at = at },
)

-- Raise creates the notice unless one of its id exists.
unfoldable pub raise : Text × Notice → Db → Db
raise (id, notice) db = elim (db.notices id) [
  | some old ↦ db
  | none ↦ record db { notices = update db.notices id (some notice) }
]

-- The stage of the run's reservation, the empty string where it has none.
unfoldable pub stage_of : Option (Text × Entry) → Stage
stage_of none = single
stage_of (some (k, e)) = e.stage

unfoldable pub abandoned_row : Row → Time → Row
abandoned_row row at = record row {
  state = abandoned;
  updated_at = at;
  abandoned_reason = codes "no-outcome-past-window";
  abandoned_at = at;
  ticket_state = [];
}

unfoldable pub found_abandoned : Text → Row → Option (Text × Entry) → Abandoned
unfolding stage_of
found_abandoned run_id row held = record {
  run_id = run_id;
  ticket = row.ticket_id;
  repo = row.repo;
  stage = stage_of held;
  attempt = row.attempt;
  ticket_state = row.ticket_state;
}

-- The claim is of a run that has recorded nothing, and stands since before its stage's window.
unfoldable pub is_overdue : Row → Option (Text × Entry) → Time → AbandonWindows → Bool
unfolding is_claimed has_ended window_for stage_of
is_overdue row held now w =
    not (not (is_claimed row.state) || has_ended row || is_zero row.claimed_at)
    && is_before row.claimed_at (back now (window_for w (stage_of held)))

-- abandon
unfoldable pub abandon : Text → Time → AbandonWindows → Db → Option Abandoned × Db
unfolding is_overdue reservation found_abandoned abandoned_notice raise abandoned_row
    drop_reservations put_run put_ledger
abandon run_id now w db = elim (db.runs run_id) [
  | none ↦ (none, db)
  | some row ↦
      let held = reservation db.ledger.reservations run_id row.attempt in
      let found = found_abandoned run_id row held in
      if not (is_overdue row held now w) then (none, db) else (
        some found,
        raise (abandoned_notice found now) (
            put_run run_id (abandoned_row row now)
              (put_ledger (drop_reservations db.ledger run_id row.attempt) db)),
      )
]

unfoldable pub reservation_expired : Entry → Time → AbandonWindows → Bool
unfolding window_for
reservation_expired entry now w =
    not (is_zero entry.claimed_at)
    && is_before entry.claimed_at (back now (window_for w entry.stage))

-- The run of an entry is missing, no longer claimed, ended, or on a later attempt.
unfoldable pub entry_settled : Entry → Option Row → Bool
unfolding is_claimed has_ended
entry_settled entry none = true
entry_settled entry (some row) =
    not (is_claimed row.state) || has_ended row || ltb entry.attempt row.attempt

-- releaseIfSettled
unfoldable pub release_if_settled : Text → Time → AbandonWindows → Db → Bool × Db
unfolding lookup reservation_expired entry_settled reservation_run_id delete_key put_ledger
release_if_settled key now w db = elim (lookup key db.ledger.reservations) [
  | none ↦ (false, db)
  | some entry ↦
      if not (reservation_expired entry now w)
        || not (entry_settled entry (db.runs (reservation_run_id key)))
      then (false, db)
      else (true, put_ledger (delete_key key db.ledger) db)
]

unfoldable pub expired_keys : List (Text × Entry) → Time → AbandonWindows → List Text
unfolding reservation_expired
expired_keys [] now w = []
expired_keys ((k, e) ∷ m) now w =
    let rest = expired_keys m now w in if reservation_expired e now w then k ∷ rest else rest

unfoldable pub release_each : List Text → Time → AbandonWindows → Db → Db
unfolding release_if_settled
release_each [] now w db = db
release_each (k ∷ ks) now w db = release_each ks now w (release_if_settled k now w db).1

-- releaseSettledReservations, with no transaction of another process between its own
unfoldable pub release_settled_reservations : Time → AbandonWindows → Db → Db
unfolding expired_keys release_each
release_settled_reservations now w db =
    release_each (expired_keys db.ledger.reservations now w) now w db

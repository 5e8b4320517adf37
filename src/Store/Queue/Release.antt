-- ===== src/Store/Queue/Release.antt =====
-- Release returns a claim whose dispatch never reached GitHub; Stop ends a run that never will.
use forge_wingman.Prelude.{Option, none, some, if◌then◌else◌}
use forge_wingman.Text.{Text}
use forge_wingman.Time.{Time}
use forge_wingman.Runner.{StopReason, stopped}
use forge_wingman.Dispatcher.{is_build}
use forge_wingman.Store.Row.{Row, RunState, queued, planned}
use forge_wingman.Store.Ledger.{Entry, Ledger, reservation, delete_key, plan_spend}
use forge_wingman.Store.Db.{Db, not_found, Result, ok, or_err, ◌>>=◌, put_run, put_ledger}

-- The state that a released claim returns to: its plan still stands at a build-stage claim.
unfoldable pub released_state : Option (Text × Entry) → RunState
unfolding is_build
released_state none = queued
released_state (some (key, entry)) = if is_build entry.stage then planned else queued

abbrev pub drop_key : Option (Text × Entry) → Ledger → Ledger
drop_key none ledger = ledger
drop_key (some (key, entry)) ledger = delete_key key ledger

unfoldable pub release : Text → Time → Db → Result Db
unfolding reservation released_state delete_key put_run put_ledger
release run_id at db = do
  row ← or_err (db.runs run_id) not_found
  let held = reservation db.ledger.reservations run_id row.attempt
  ok (
      put_run run_id (record row { state = released_state held; updated_at = at; claimed_at = 0 })
        (put_ledger (drop_key held db.ledger) db))

-- The plan's reserved estimate, booked onto the row of a plan that stopped.
abbrev pub stop_spend : Option (Text × Entry) → Time → Row → Row
stop_spend none at row = row
stop_spend (some (key, entry)) at row = record (plan_spend entry row) { plan_settled_at = at }

unfoldable pub stopped_row : Row → StopReason → Text → Time → Row
stopped_row row reason detail at = record row {
  state = RunState.stopped;
  outcome = some stopped;
  build_outcome = some stopped;
  stop_reason = some reason;
  stop_detail = detail;
  updated_at = at;
}

unfoldable pub stop : Text → StopReason → Text → Time → Db → Result Db
unfolding reservation stopped_row plan_spend delete_key put_run put_ledger
stop run_id reason detail at db = do
  row ← or_err (db.runs run_id) not_found
  let held = reservation db.ledger.reservations run_id row.attempt
  ok (
      put_run run_id (stop_spend held at (stopped_row row reason detail at))
        (put_ledger (drop_key held db.ledger) db))

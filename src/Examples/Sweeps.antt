-- ===== src/Examples/Sweeps.antt =====
-- The sweep's theorems at work on a claim that reports nothing and on one that ended without a settle.
use forge_wingman.Text.{codes}
use forge_wingman.Prelude.{◌≡◌, refl, true, some, [], ◌*◌, none}
use forge_wingman.Dispatcher.{single}
use forge_wingman.Store.Keys.{reservation_key, reservation_run_id}
use forge_wingman.Store.Db.{Db, put_run}
use forge_wingman.Store.Accounting.Operations.{Balanced, row_kept-Balanced}
use forge_wingman.Store.Trace.{run, initial, AreSound}
use forge_wingman.Store.Trace.Balance.{run-Balanced, initial-Balanced}
use forge_wingman.Time.{Time, second}
use forge_wingman.Store.Effects.Sweep.{GivenUp, abandon-GivenUp, release_if_settled-ended}
use forge_wingman.Store.Row.{Row, has_ended}
use forge_wingman.Store.Queue.Enqueue.{new_row}
use forge_wingman.Store.Sweep.{AbandonWindows, Abandoned, abandon, release_if_settled}
use forge_wingman.Runner.{pr_opened}
use forge_wingman.Examples.{fw_1, whole_numbers, ticket_run}
use forge_wingman.Examples.Queue.{claiming, fw_1-IsRunId}

abbrev abandoned_1 : Abandoned
abandoned_1 = record {
  run_id = fw_1;
  ticket = fw_1;
  repo = codes "owner/app";
  stage = single;
  attempt = 0;
  ticket_state = [];
}

abbrev windows : AbandonWindows
windows = record { plan_window = 3600 * second; build_window = 7200 * second }

abbrev pub much_later : Time
much_later = 200000 * second

claimed_sound : AreSound whole_numbers claiming initial
unfolding AreSound
claimed_sound = (tt, (fw_1-IsRunId, tt))

claimed_db-Balanced : Balanced (run whole_numbers claiming initial)
claimed_db-Balanced = run-Balanced whole_numbers claiming initial initial-Balanced claimed_sound

abandoned_found :
    (abandon fw_1 much_later windows (run whole_numbers claiming initial)).0 ≡ some abandoned_1
unfolding run abandon
abandoned_found = refl

abandon-GivenUp_example :
    GivenUp fw_1 much_later windows
      (run whole_numbers claiming initial)
      (abandon fw_1 much_later windows (run whole_numbers claiming initial)).1
abandon-GivenUp_example =
    abandon-GivenUp fw_1 much_later windows (run whole_numbers claiming initial) abandoned_1
      claimed_db-Balanced abandoned_found

abbrev claimed_row : Row
claimed_row = elim ((run whole_numbers claiming initial).runs fw_1) [
  | none ↦ new_row (ticket_run fw_1)
  | some row ↦ row
]

-- The run's record job writes the outcome, and the settle that should follow it fails.
abbrev pub unsettled : Db
unsettled =
    put_run fw_1 (record claimed_row { outcome = some pr_opened })
      (run whole_numbers claiming initial)

claimed_present : (run whole_numbers claiming initial).runs fw_1 ≡ some claimed_row
unfolding run
claimed_present = refl

unsettled-Balanced : Balanced unsettled
unsettled-Balanced =
    row_kept-Balanced (run whole_numbers claiming initial) fw_1 claimed_row
      (record claimed_row { outcome = some pr_opened }) claimed_db-Balanced claimed_present refl
      refl

dropped_found :
    (release_if_settled (reservation_key fw_1 0 single) much_later windows unsettled).0 ≡ true
unfolding run release_if_settled put_run
dropped_found = refl

release_if_settled-ended_example :
    (row : Row) × (unsettled.runs (reservation_run_id (reservation_key fw_1 0 single)) ≡ some row)
    × (has_ended row ≡ true)
release_if_settled-ended_example =
    release_if_settled-ended (reservation_key fw_1 0 single) much_later windows unsettled
      unsettled-Balanced dropped_found

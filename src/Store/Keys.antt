-- ===== src/Store/Keys.antt =====
-- internal/store/queue.go: the keys that the ledger books a reservation under.
pub mod Distinct
use forge_wingman.Prelude.{ℕ, ◌≡◌, refl, Bool, ◌++◌, if◌then◌else◌}
use forge_wingman.Text.{Text, codes}
use forge_wingman.Text.Split.{before, cut_suffix}
use forge_wingman.Text.Decimal.{itoa}
use forge_wingman.Dispatcher.{Stage, single, plan, build, is_plan}

abbrev pub plan_key_suffix : Text
plan_key_suffix = codes "#plan"

abbrev pub attempt_key_marker : Text
attempt_key_marker = codes "#a"

-- stageKey places a plan-stage claim's key beside the build's.
unfoldable pub stage_key : Text → Stage → Text
unfolding is_plan
stage_key base stage = if is_plan stage then base ++ plan_key_suffix else base

-- reservationKey is the key of a run's claim at an attempt.
unfoldable pub reservation_key : Text → ℕ → Stage → Text
unfolding stage_key
reservation_key run_id attempt stage =
    stage_key (run_id ++ (attempt_key_marker ++ itoa attempt)) stage

-- legacyReservationKey is the key from before attempts were part of it.
unfoldable pub legacy_reservation_key : Text → Stage → Text
unfolding stage_key
legacy_reservation_key run_id stage = stage_key run_id stage

-- reservationRunID is the run that a key belongs to.
unfoldable pub reservation_run_id : Text → Text
unfolding before cut_suffix
reservation_run_id key = before attempt_key_marker (cut_suffix plan_key_suffix key)

key_example : reservation_key (codes "FW-12") 3 plan ≡ codes "FW-12#a3#plan"
unfolding reservation_key itoa
key_example = refl

run_id_example : reservation_run_id (codes "FW-12#plan") ≡ codes "FW-12"
unfolding reservation_run_id
run_id_example = refl

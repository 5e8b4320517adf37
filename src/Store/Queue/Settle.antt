-- ===== src/Store/Queue/Settle.antt =====
-- Settle and SettlePlan drop the reservation of an attempt, and AdoptRunsAtOnce moves the owner's N.
use forge_wingman.Prelude.{
  ℕ, ◌-◌, ◌/◌, Bool, true, false, not, ◌&&◌, ◌||◌, ◌==◌, Option, none, some, List, [], ◌∷◌, ltb,
  leb, length, get_elem?, if◌then◌else◌,
}
use forge_wingman.Text.{Text}
use forge_wingman.Time.{Duration}
use forge_wingman.GoMap.{lookup}
use forge_wingman.Runner.{Outcome, infra_failure, StopReason, model_unavailable, succeeded}
use forge_wingman.Dispatcher.{Stage, is_plan}
use forge_wingman.Dispatcher.Admit.{or_else}
use forge_wingman.Dispatcher.Concurrency.{
  FloatOps, Observation, nothing_observed, unseen, recommend,
}
use forge_wingman.Store.Keys.{reservation_key, legacy_reservation_key}
use forge_wingman.Store.Row.{Row, planned}
use forge_wingman.Store.Ledger.{
  Entry, Ledger, tuning, concurrency, recommendation, latest_claim, delete_key, plan_spend,
}
use forge_wingman.Store.Db.{Db, not_found, Result, ok, or_err, ◌>>=◌, put_run, put_ledger}

insert_sorted : Duration → List Duration → List Duration
insert_sorted d [] = d ∷ []
insert_sorted d (e ∷ ds) =
    let rest = insert_sorted d ds in if leb d e then d ∷ (e ∷ ds) else e ∷ rest

sorted : List Duration → List Duration
unfolding insert_sorted
sorted [] = []
sorted (d ∷ ds) = insert_sorted d (sorted ds)

abbrev or_zero : Option Duration → Duration
or_zero none = 0
or_zero (some d) = d

-- medianDuration is the lower one of the two in the middle for an even count.
unfoldable pub median_duration : List Duration → Duration
unfolding sorted
median_duration ds = or_zero (get_elem? (sorted ds) ((length ds - 1) / 2))

is_model_refusal : Option Outcome → Option StopReason → Bool
is_model_refusal (some infra_failure) (some model_unavailable) = true
is_model_refusal _ _ = false

-- recentDurations(size, concurrency, limit): the phase times that its query of the runs reads.
abbrev pub RecentDurations : Type 0
RecentDurations = Text → ℕ → ℕ → List Duration

medians : Bool → ℕ → List Duration → List Duration → Observation
unfolding median_duration
medians limited need solo loaded =
    if leb need (length solo) && leb need (length loaded)
    then record {
      solo = median_duration solo;
      loaded = median_duration loaded;
      rate_limited = limited;
    }
    else record { solo = 0; loaded = 0; rate_limited = limited }

-- observe
unfoldable pub observe : RecentDurations → Option Row → Ledger → Observation
unfolding is_model_refusal medians tuning concurrency succeeded
observe recent none ledger = nothing_observed
observe recent (some row) ledger =
    let n = (concurrency ledger).n in
    let need = (tuning ledger).stable_runs in
    let limited = is_model_refusal row.outcome row.stop_reason in
    let solo = recent row.size 1 need in
    if ltb row.claim_concurrency n || not (ltb ledger.changed_after row.claimed_at)
    then nothing_observed
    else if not (succeeded row.outcome)
    then record { solo = 0; loaded = 0; rate_limited = limited }
    else medians limited need solo (if ltb 1 n then recent row.size n need else solo)

-- The ledger of a settled build: its entry dropped, and the recommendation at N moved.
unfoldable pub recommended_ledger : FloatOps → Observation → Text → Ledger → Ledger
unfolding recommendation concurrency tuning recommend delete_key
recommended_ledger ops obs key ledger =
    let rec =
      recommend ops (recommendation ledger) (concurrency ledger).n obs (tuning ledger)
        (or_else ledger.platform_cap 20) in
    record (delete_key key ledger) {
      stable_runs = rec.stable;
      recommended = rec.n;
      basis = rec.basis;
    }

-- The key that a settle finds its reservation under; a claim from before attempts has none.
unfoldable pub settle_key : Text → Option ℕ → Stage → Text
unfolding reservation_key legacy_reservation_key
settle_key run_id none stage = legacy_reservation_key run_id stage
settle_key run_id (some attempt) stage = reservation_key run_id attempt stage

unfoldable pub settle_entry :
    FloatOps → RecentDurations → Text → Text → Option Entry → Db → Result Db
unfolding observe recommended_ledger plan_spend delete_key is_plan put_run put_ledger
settle_entry ops recent run_id key none db = ok db
settle_entry ops recent run_id key (some entry) db =
    if is_plan entry.stage
    then (do
      row ← or_err (db.runs run_id) not_found
      ok (
          put_run run_id (record (plan_spend entry row) { state = planned })
            (put_ledger (delete_key key db.ledger) db)))
    else ok (
        put_ledger
          (recommended_ledger ops (observe recent (db.runs run_id) db.ledger) key db.ledger) db)

-- settle; Settle is at the build stage and SettlePlan at the plan stage.
unfoldable pub settle : FloatOps → RecentDurations → Text → Option ℕ → Stage → Db → Result Db
unfolding settle_entry settle_key lookup
settle ops recent run_id attempt stage db =
    let key = settle_key run_id attempt stage in
    settle_entry ops recent run_id key (lookup key db.ledger.reservations) db

-- AdoptRunsAtOnce
unfoldable pub adopt_runs_at_once : ℕ → Db → Db
unfolding latest_claim put_ledger
adopt_runs_at_once n db =
    if db.ledger.n == n
    then db
    else put_ledger
        (record db.ledger {
          n = n;
          stable_runs = 0;
          recommended = 0;
          basis = unseen;
          changed_after = latest_claim db.ledger.changed_after db.ledger.reservations;
        })
        db

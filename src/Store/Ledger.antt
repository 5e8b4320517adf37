-- ===== src/Store/Ledger.antt =====
-- internal/store/queue.go: the dispatch/ledger document, the reservation of every claimed and not yet
-- settled run.
pub mod Booking
use forge_wingman.Prelude.{
  ℕ, Bool, true, false, ◌&&◌, Option, none, some, List, [], ◌∷◌, ◌++◌, map, if◌then◌else◌, max, ltb,
}
use forge_wingman.Text.{Text}
use forge_wingman.Time.{Time}
use forge_wingman.Int64.{Int64, add64}
use forge_wingman.GoMap.{GoMap, lookup, delete}
use forge_wingman.Dispatcher.{Stage, build, plan}
use forge_wingman.Dispatcher.Budget.{Totals}
use forge_wingman.Dispatcher.Admit.{InFlight, Tuning}
use forge_wingman.Dispatcher.Concurrency.{
  Concurrency, Recommendation, Basis, unseen, tuning_or_default,
}
use forge_wingman.Store.Keys.{reservation_key, legacy_reservation_key}
use forge_wingman.Store.Row.{Row}

-- reservationEntry
pub record Entry : Type 0 where
  pub provider_cost : Int64
  pub runner_minutes : Int64
  pub ticket_id : Text
  pub repo : Text
  pub size : Text
  pub claimed_at : Time
  pub attempt : ℕ
  pub stage : Stage
  pub files : List Text

-- ledgerDoc
pub record Ledger : Type 0 where
  pub reservations : GoMap Entry
  pub n : ℕ
  pub stable_runs : ℕ
  pub recommended : ℕ
  pub basis : Basis
  pub platform_cap : ℕ
  pub changed_after : Time
  pub tune : Tuning

-- A ledger that no transaction has written.
abbrev pub empty_ledger : Ledger
empty_ledger = record {
  reservations = [];
  n = 0;
  stable_runs = 0;
  recommended = 0;
  basis = unseen;
  platform_cap = 0;
  changed_after = 0;
  tune = record { stable_runs = 0; rise_within = 0; halve_beyond = 0 };
}

abbrev pub in_flight_of : Entry → InFlight
in_flight_of r = record {
  ticket = r.ticket_id;
  repo = r.repo;
  size = r.size;
  files = r.files;
  stage = r.stage;
}

-- inFlight
unfoldable pub in_flight : GoMap Entry → List InFlight
in_flight [] = []
in_flight ((k, r) ∷ m) = in_flight_of r ∷ in_flight m

-- reservedTotals, its sums the first arguments
unfoldable pub totals_from : Int64 → Int64 → GoMap Entry → Totals
totals_from cost minutes [] = record { provider_cost = cost; runner_minutes = minutes }
totals_from cost minutes ((k, r) ∷ m) =
    totals_from (add64 cost r.provider_cost) (add64 minutes r.runner_minutes) m

unfoldable pub reserved_totals : Ledger → Totals
unfolding totals_from
reserved_totals doc = totals_from 0 0 doc.reservations

-- d.tuning(), d.concurrency(), d.recommendation()
unfoldable pub tuning : Ledger → Tuning
unfolding tuning_or_default
tuning d = tuning_or_default d.tune

unfoldable pub concurrency : Ledger → Concurrency
concurrency d = record { n = max d.n 1; stable = d.stable_runs }

unfoldable pub recommendation : Ledger → Recommendation
recommendation d = record { n = d.recommended; stable = d.stable_runs; basis = d.basis }

-- d.latestClaim(after)
unfoldable pub latest_claim : Time → GoMap Entry → Time
latest_claim after [] = after
latest_claim after ((k, r) ∷ m) =
    latest_claim (if ltb after r.claimed_at then r.claimed_at else after) m

-- The keys of the two that the map holds.
unfoldable pub held : GoMap Entry → Text → List Text
unfolding lookup
held m k = elim (lookup k m) [ none ↦ [] | some e ↦ k ∷ [] ]

unfoldable pub or_keys : List Text → List Text → List Text
or_keys [] legacy = legacy
or_keys (k ∷ ks) legacy = k ∷ ks

-- d.reservedKeys(runID, attempt): build before plan, and the pre-attempt keys only where the attempt
-- holds none of its own.
unfoldable pub reserved_keys : GoMap Entry → Text → ℕ → List Text
unfolding held or_keys reservation_key legacy_reservation_key
reserved_keys m run_id attempt =
    or_keys
      (held m (reservation_key run_id attempt build)
        ++ held m (reservation_key run_id attempt plan))
      (held m (legacy_reservation_key run_id build) ++ held m (legacy_reservation_key run_id plan))

unfoldable pub first_entry : GoMap Entry → List Text → Option (Text × Entry)
unfolding lookup
first_entry m [] = none
first_entry m (k ∷ ks) = elim (lookup k m) [ none ↦ none | some e ↦ some (k, e) ]

-- d.reservation(runID, attempt)
unfoldable pub reservation : GoMap Entry → Text → ℕ → Option (Text × Entry)
unfolding reserved_keys first_entry
reservation m run_id attempt = first_entry m (reserved_keys m run_id attempt)

unfoldable pub delete_all : List Text → GoMap Entry → GoMap Entry
unfolding delete
delete_all [] m = m
delete_all (k ∷ ks) m = delete_all ks (delete k m)

-- dropReservations
unfoldable pub drop_reservations : Ledger → Text → ℕ → Ledger
unfolding delete_all reserved_keys
drop_reservations ledger run_id attempt = record ledger {
  reservations = delete_all (reserved_keys ledger.reservations run_id attempt) ledger.reservations;
}

unfoldable pub delete_key : Text → Ledger → Ledger
unfolding delete
delete_key k ledger = record ledger { reservations = delete k ledger.reservations }

-- planSettle, its row updates: the reserved estimate accumulates on the row's plan spend.
unfoldable pub plan_spend : Entry → Row → Row
plan_spend entry row = record row {
  plan_spend_micros = add64 row.plan_spend_micros entry.provider_cost;
  plan_spend_minutes = add64 row.plan_spend_minutes entry.runner_minutes;
}

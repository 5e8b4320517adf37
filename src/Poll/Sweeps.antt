-- ===== src/Poll/Sweeps.antt =====
-- SweepAbandoned and staleClaims of internal/store/sweep.go, and the poll's sweep of
-- internal/dispatcher/sweep.go, with no transaction of another process between its own.
pub mod Books
use forge_wingman.Prelude.{
  Bool, true, false, not, ◌&&◌, ◌||◌, Option, none, some, List, [], ◌∷◌, min, ◌*◌, if◌then◌else◌,
}
use forge_wingman.Text.{Text, is_empty}
use forge_wingman.Time.{Time, Duration, minute, is_zero, is_before, back}
use forge_wingman.Store.Row.{Row, is_claimed, has_ended}
use forge_wingman.Store.Db.{Db}
use forge_wingman.Poll.{Config}
use forge_wingman.Poll.Whole.{World, Polled, poll}
use forge_wingman.Store.Sweep.{AbandonWindows, Abandoned, abandon, release_settled_reservations}

abbrev pub abandon_windows : AbandonWindows
abandon_windows = record { plan_window = 140 * minute; build_window = 190 * minute }

-- A claimed row that may have outlived a window.
unfoldable pub may_be_stale : Row → Time → AbandonWindows → Bool
unfolding has_ended
may_be_stale row now w =
    not (has_ended row || is_zero row.claimed_at)
    && is_before row.claimed_at (back now (min w.plan_window w.build_window))

-- staleClaims, of the claimed rows whose ids its query found
unfoldable pub stale_claims : List Text → Time → AbandonWindows → Db → List Text
unfolding may_be_stale
stale_claims [] now w db = []
stale_claims (id ∷ ids) now w db =
    let rest = stale_claims ids now w db in
    elim (db.runs id) [
      | none ↦ rest
      | some row ↦ if may_be_stale row now w then id ∷ rest else rest
    ]

-- The runs that a sweep abandoned, and the store.
pub record Swept : Type 0 where
  pub runs : List Abandoned
  pub db : Db

abbrev swept_first : Option Abandoned → Swept → Swept
swept_first none s = s
swept_first (some a) s = record s { runs = a ∷ s.runs }

unfoldable pub abandon_each : List Text → Time → AbandonWindows → Db → Swept
unfolding abandon
abandon_each [] now w db = record { runs = []; db = db }
abandon_each (id ∷ ids) now w db =
    let (found, after) = abandon id now w db in swept_first found (abandon_each ids now w after)

-- SweepAbandoned
unfoldable pub sweep : List Text → Time → AbandonWindows → Db → Swept
unfolding stale_claims abandon_each release_settled_reservations
sweep claimed_ids now w db =
    let swept = abandon_each (stale_claims claimed_ids now w db) now w db in
    record swept { db = release_settled_reservations now w swept.db }

-- The tickets that sweepAbandoned puts back, each with its state.
unfoldable pub restored : List Abandoned → List (Text × Text)
restored [] = []
restored (a ∷ as_found) =
    let rest = restored as_found in
    if is_empty a.ticket_state then rest else (a.ticket, a.ticket_state) ∷ rest

-- sweepAbandoned
unfoldable pub sweep_abandoned : List Text → Time → Db → List (Text × Text) × Db
unfolding sweep restored
sweep_abandoned claimed_ids now db =
    let swept = sweep claimed_ids now abandon_windows db in (restored swept.runs, swept.db)

abbrev polled_db : Db → Option Polled → Db
polled_db db none = db
polled_db db (some p) = p.db

-- What Poll does first: its poll, and then its sweep, whatever became of the poll.
unfoldable pub poll_and_sweep :
    Config → World → (Db → List Text) → Time → Db → Option Polled × (List (Text × Text) × Db)
unfolding poll sweep_abandoned
poll_and_sweep c w claimed_ids now db =
    let polled = poll c w db in
    let mid = polled_db db polled in (polled, sweep_abandoned (claimed_ids mid) now mid)

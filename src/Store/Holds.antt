-- ===== src/Store/Holds.antt =====
-- internal/store/holds.go: a run's row records, for each day, the reasons that a poll held it for.
use forge_wingman.Prelude.{none, some, List, [], ◌∷◌, ◌++◌, if◌then◌else◌}
use forge_wingman.Text.{Text, contains}
use forge_wingman.Time.{Time}
use forge_wingman.GoMap.{GoMap, lookup, assign}
use forge_wingman.Store.Row.{Row}
use forge_wingman.Store.Db.{Db, put_run}

-- The reasons of a day, none where it has no entry.
unfoldable pub held_reasons : GoMap (List Text) → Text → List Text
unfolding lookup
held_reasons held day = elim (lookup day held) [ none ↦ [] | some reasons ↦ reasons ]

-- firestore.ArrayUnion
unfoldable pub array_union : List Text → Text → List Text
unfolding contains
array_union xs x = if contains xs x then xs else xs ++ x ∷ []

unfoldable pub held_row : Text → Text → Time → Row → Row
unfolding held_reasons array_union assign
held_row reason day at row = record row {
  held_on = assign day (array_union (held_reasons row.held_on day) reason) row.held_on;
  held_at = at;
}

-- RecordHold, whose update fails on a run that is missing
unfoldable pub record_hold : Text → Text → Text → Time → Db → Db
unfolding held_row put_run
record_hold run_id reason day at db = elim (db.runs run_id) [
  | none ↦ db
  | some row ↦ put_run run_id (held_row reason day at row) db
]

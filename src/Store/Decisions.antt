-- ===== src/Store/Decisions.antt =====
-- internal/store/decision.go: the decisions that a plan raises on a run, and the transactions that
-- ask, answer and settle them.
pub mod Provisional
use forge_wingman.Prelude.{
  ℕ, zero, suc, ◌+◌, Bool, true, false, not, ◌&&◌, ◌||◌, ◌==◌, Option, none, some, List, [], ◌∷◌,
  ◌++◌, leb, if◌then◌else◌, get_elem?, set,
}
use forge_wingman.Text.{Text, is_empty, text_eq}
use forge_wingman.Time.{Time, is_zero}
use forge_wingman.Runner.{Decision, DecisionOption, stopped, waiting_on_owner}
use forge_wingman.Store.Row.{Row, DecisionEntry, RunState, queued, waiting, is_waiting, is_recorded}
use forge_wingman.Store.Ledger.{Entry, Ledger, reservation, delete_key, plan_spend}
use forge_wingman.Store.Db.{
  Db, not_found, no_options, Result, ok, err, or_err, ◌>>=◌, put_run, put_ledger,
}
use forge_wingman.Store.Queue.Release.{drop_key, stop_spend, stopped_row}

-- The index that a loop from the end of the entries stops at.
unfoldable pub last_index : (DecisionEntry → Bool) → List DecisionEntry → Option ℕ
last_index p [] = none
last_index p (e ∷ es) = elim (last_index p es) [
  | some i ↦ some (i + 1)
  | none ↦ if p e then some 0 else none
]

unfoldable pub last_unanswered : List DecisionEntry → Option ℕ
unfolding last_index
last_unanswered es = last_index (λ e. is_empty e.answer) es

-- strings.TrimSpace(s) == ""
unfoldable pub is_blank : Text → Bool
is_blank [] = true
is_blank (c ∷ s) = (c == b' ' || (leb 9 c && leb c 13)) && is_blank s

-- A decision as it is asked.
unfoldable pub asked : Decision → Time → DecisionEntry
asked d at = record {
  decision = d;
  session_id = [];
  asked_at = at;
  posted_at = 0;
  answer = [];
  reply = [];
  replied_at = 0;
  provisional = false;
  confirmed_at = 0;
}

-- settleDecision, over what it records of the decision on the row
unfoldable pub settle_decision : Text → Text → Time → (Row → Row) → Db → Result Db
unfolding reservation plan_spend delete_key put_run put_ledger
settle_decision run_id run_url at apply db = do
  row ← or_err (db.runs run_id) not_found
  let held = reservation db.ledger.reservations run_id row.attempt
  let moved = record (apply row) {
    run_url = run_url;
    updated_at = at;
    claimed_at = 0;
    waiting_on = [];
  }
  ok (put_run run_id (stop_spend held at moved) (put_ledger (drop_key held db.ledger) db))

unfoldable pub suspended : Decision → Time → Row → Row
unfolding asked
suspended d at row = record row { decisions = row.decisions ++ asked d at ∷ []; state = waiting }

unfoldable pub suspend : Text → Decision → Text → Time → Db → Result Db
unfolding settle_decision suspended
suspend run_id d run_url at db = settle_decision run_id run_url at (suspended d at) db

unfoldable pub taken : Decision → Text → Time → Row → Row
unfolding asked
taken d answer at row = record row {
  decisions = row.decisions ++ (record (asked d at) { answer = answer; provisional = true }) ∷ [];
  state = queued;
  provisional_unposted = true;
}

unfoldable pub first_option : Decision → Result DecisionOption
first_option d = or_err (get_elem? d.options 0) no_options

-- TakeRecommendation
unfoldable pub take_recommendation : Text → Decision → Text → Time → Db → Result Db
unfolding settle_decision taken first_option
take_recommendation run_id d run_url at db = do
  first ← first_option d
  settle_decision run_id run_url at (taken d first.label at) db

-- row.Decisions[i] = entry
unfoldable pub with_entry : Row → ℕ → DecisionEntry → Row
with_entry row i e = record row { decisions = set row.decisions i e }

-- The row and the entry that `i` is the index of, where the run is present and `i` is in range.
abbrev pub entry_at : Option ℕ → Row → Option (ℕ × DecisionEntry)
entry_at none row = none
entry_at (some i) row = elim (get_elem? row.decisions i) [ none ↦ none | some e ↦ some (i, e) ]

-- Posted
unfoldable pub posted_at_row : Text → Time → Row → Option Row
unfolding last_unanswered with_entry
posted_at_row session at row = elim (entry_at (last_unanswered row.decisions) row) [
  | none ↦ none
  | some ie ↦ some (with_entry row ie.0 (record ie.1 { session_id = session; posted_at = at }))
]

-- A transaction that writes the row that `decide` gives, and nothing where it gives none or the run is
-- absent; it reports whether it wrote.
unfoldable pub update_row : Text → (Row → Option Row) → Db → Bool × Db
unfolding put_run
update_row run_id decide db = elim (db.runs run_id) [
  | none ↦ (false, db)
  | some row ↦ elim (decide row) [ none ↦ (false, db) | some row' ↦ (true, put_run run_id row' db) ]
]

unfoldable pub posted : Text → Text → Time → Db → Db
unfolding update_row posted_at_row
posted run_id session at db = (update_row run_id (posted_at_row session at) db).1

-- Answer
unfoldable pub answered_row : Text → Time → Row → Option Row
unfolding last_unanswered with_entry is_waiting
answered_row answer at row =
    if not (is_waiting row.state) || is_recorded row.outcome
    then none
    else (elim (entry_at (last_unanswered row.decisions) row) [
      | none ↦ none
      | some ie ↦ some (record (with_entry row ie.0 (record ie.1 { answer = answer })) {
        state = queued;
        updated_at = at;
        claimed_at = 0;
        waiting_on = [];
      })
    ])

unfoldable pub answer : Text → Text → Time → Db → Db
unfolding update_row answered_row
answer run_id choice at db = (update_row run_id (answered_row choice at) db).1

-- StopWaiting writes without a read.
unfoldable pub stop_waiting : Text → Decision → Time → Db → Result Db
unfolding stopped_row put_run
stop_waiting run_id d at db = do
  row ← or_err (db.runs run_id) not_found
  ok (put_run run_id (stopped_row row waiting_on_owner d.question at) db)

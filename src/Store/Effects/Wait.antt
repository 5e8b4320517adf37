-- ===== src/Store/Effects/Wait.antt =====
-- A run that waits on its owner's answer, from the question to the answer.
use mathlib.Core.Path.{subst}
use forge_wingman.Prelude.{
  ℕ, ◌≡◌, refl, sym, ap, ◌∙◌, Bool, true, Option, none, some, List, [], ◌∷◌, ◌++◌, arith, length,
  get_elem?, set,
}
use forge_wingman.Text.{Text, is_empty}
use forge_wingman.Time.{Time}
use forge_wingman.Runner.{Decision}
use forge_wingman.Store.Keys.Distinct.{IsRunId}
use forge_wingman.Store.Row.{Row, DecisionEntry, queued, waiting, is_waiting}
use forge_wingman.Store.Ledger.{Entry, reservation, plan_spend}
use forge_wingman.Store.Db.{Db, ok, ok-injective, put_run, put_ledger}
use forge_wingman.Store.Queue.Release.{drop_key, stop_spend}
use forge_wingman.Store.Decisions.{
  last_index, last_unanswered, asked, suspended, settle_decision, suspend, entry_at, with_entry,
  answered_row, answer, update_row,
}
use forge_wingman.Store.Accounting.{IsFree}
use forge_wingman.Store.Accounting.Operations.{Balanced, drop_key-IsFree}
use forge_wingman.Store.Effects.Claim.{update_self}

last_index-append :
    (p : DecisionEntry → Bool) (es : List DecisionEntry) (e : DecisionEntry)
    → p e ≡ true
    → last_index p (es ++ e ∷ []) ≡ some (length es)
unfolding last_index
last_index-append p [] e h = ground arith
last_index-append p (d ∷ es) e h = ground (arith, last_index-append p es e h)

get_elem-append :
    (es : List DecisionEntry) (e : DecisionEntry) → get_elem? (es ++ e ∷ []) (length es) ≡ some e
get_elem-append [] e = refl
get_elem-append (d ∷ es) e = get_elem-append es e

set-append :
    (es : List DecisionEntry) (e f : DecisionEntry)
    → set (es ++ e ∷ []) (length es) f ≡ es ++ f ∷ []
set-append [] e f = refl
set-append (d ∷ es) e f = ap (λ l. d ∷ l) (set-append es e f)

entry_at-some :
    (row : Row) (i : ℕ) (e : DecisionEntry)
    → get_elem? row.decisions i ≡ some e
    → entry_at (some i) row ≡ some (i, e)
entry_at-some row i e h = rw (h, entry_at) refl

found_last :
    (row : Row) (es : List DecisionEntry) (e : DecisionEntry)
    → row.decisions ≡ es ++ e ∷ []
    → is_empty e.answer ≡ true
    → entry_at (last_unanswered row.decisions) row ≡ some (length es, e)
unfolding last_unanswered
found_last row es e d open_still =
    ap (λ o. entry_at o row)
      (ap last_unanswered d ∙ last_index-append (λ x. is_empty x.answer) es e open_still)
    ∙ entry_at-some row (length es) e (ap (λ l. get_elem? l (length es)) d ∙ get_elem-append es e)

abbrev answered : Row → ℕ → DecisionEntry → Text → Time → Row
answered row i e choice at = record (with_entry row i (record e { answer = choice })) {
  state = queued;
  updated_at = at;
  claimed_at = 0;
  waiting_on = [];
}

answered-row :
    (row : Row) (i : ℕ) (e : DecisionEntry) (choice : Text) (at : Time)
    → row.state ≡ waiting
    → row.outcome ≡ none
    → entry_at (last_unanswered row.decisions) row ≡ some (i, e)
    → answered_row choice at row ≡ some (answered row i e choice at)
unfolding answered_row is_waiting
answered-row row i e choice at w o found = ground (arith, found)

answered-decisions :
    (row : Row) (es : List DecisionEntry) (e : DecisionEntry) (choice : Text) (at : Time)
    → row.decisions ≡ es ++ e ∷ []
    → (answered row (length es) e choice at).decisions ≡ es ++ (record e { answer = choice }) ∷ []
unfolding with_entry
answered-decisions row es e choice at d =
    ap (λ l. set l (length es) (record e { answer = choice })) d
    ∙ set-append es e (record e { answer = choice })

update_row-some :
    (id : Text) (decide : Row → Option Row) (row row' : Row) (db : Db)
    → db.runs id ≡ some row
    → decide row ≡ some row'
    → update_row id decide db ≡ (true, put_run id row' db)
unfolding update_row
update_row-some id decide row row' db present d = rw (present, d, update_row) refl

-- A row as a suspend of it leaves it.
abbrev waiting_row : Row → Option (Text × Entry) → Decision → Text → Time → Row
waiting_row row held d url at = stop_spend held at (record (suspended d at row) {
  run_url = url;
  updated_at = at;
  claimed_at = 0;
  waiting_on = [];
})

waiting_row-kept :
    (row : Row) (held : Option (Text × Entry)) (d : Decision) (url : Text) (at : Time)
    → ((waiting_row row held d url at).state ≡ waiting)
      × ((waiting_row row held d url at).outcome ≡ row.outcome)
      × ((waiting_row row held d url at).decisions ≡ row.decisions ++ asked d at ∷ [])
unfolding suspended plan_spend
waiting_row-kept row none d url at = (refl, refl, refl)
waiting_row-kept row (some (k, e)) d url at = (refl, refl, refl)

suspended-db :
    (id : Text) (row : Row) (d : Decision) (url : Text) (at : Time) (db : Db)
    → db.runs id ≡ some row
    → suspend id d url at db
      ≡ ok (
          put_run id
            (waiting_row row (reservation db.ledger.reservations id row.attempt) d url at)
            (put_ledger
              (drop_key (reservation db.ledger.reservations id row.attempt) db.ledger)
              db))
unfolding suspend settle_decision
suspended-db id row d url at db present = rw (present, suspend) refl

asked_open : (d : Decision) (at : Time) → is_empty (asked d at).answer ≡ true
unfolding asked
asked_open d at = refl

put_run-present : (id : Text) (row : Row) (db : Db) → (put_run id row db).runs id ≡ some row
unfolding put_run
put_run-present id row db = update_self db.runs id (some row)

waiting-IsFree :
    (id : Text) (old : Row) (d : Decision) (url choice : Text) (at later : Time) (db : Db)
    → Balanced db
    → IsRunId id
    → db.runs id ≡ some old
    → IsFree
        (drop_key (reservation db.ledger.reservations id old.attempt) db.ledger).reservations
        id
waiting-IsFree id old d url choice at later db bal is_id was =
    drop_key-IsFree db id old _ bal is_id was refl

-- A plan's question and its owner's answer: after a suspend of a run that recorded no outcome, the answer
-- puts the run back to queued, unclaimed, with the decision at the end of those that the row held, as it
-- was asked and with the owner's choice; and the run holds no reservation. The books balance before it,
-- and the run has a ticket id.
pub answer-suspend :
    (id : Text) (d : Decision) (url choice : Text) (at later : Time) (old : Row) (db db' : Db)
    → Balanced db
    → IsRunId id
    → db.runs id ≡ some old
    → old.outcome ≡ none
    → suspend id d url at db ≡ ok db'
    → (row : Row) × ((answer id choice later db').runs id ≡ some row)
      × (row.state ≡ queued)
      × (row.claimed_at ≡ 0)
      × (row.decisions ≡ old.decisions ++ (record (asked d at) { answer = choice }) ∷ [])
      × IsFree (answer id choice later db').ledger.reservations id
unfolding answer put_run put_ledger
answer-suspend id d url choice at later old db db' bal is_id was running h =
    let held = reservation db.ledger.reservations id old.attempt in
    let row = waiting_row old (reservation db.ledger.reservations id old.attempt) d url at in
    let next =
      put_run id (waiting_row old (reservation db.ledger.reservations id old.attempt) d url at)
        (put_ledger (drop_key (reservation db.ledger.reservations id old.attempt) db.ledger) db) in
    let same : next ≡ db' = ok-injective next db' (sym (suspended-db id old d url at db was) ∙ h) in
    let (w, o, ds) =
      waiting_row-kept old (reservation db.ledger.reservations id old.attempt) d url at in
    let e = asked d at in
    let found = found_last row old.decisions (asked d at) ds (asked_open d at) in
    let decided =
      answered-row row (length old.decisions) (asked d at) choice later w (o ∙ running) found in
    let wrote =
      update_row-some id (answered_row choice later) row
        (answered row (length old.decisions) (asked d at) choice later) next
        (put_run-present id row
          (put_ledger (drop_key (reservation db.ledger.reservations id old.attempt) db.ledger) db))
        decided in
    subst
      (λ x.
        (row : Row) × ((answer id choice later x).runs id ≡ some row)
        × (row.state ≡ queued)
        × (row.claimed_at ≡ 0)
        × (row.decisions ≡ old.decisions ++ (record (asked d at) { answer = choice }) ∷ [])
        × IsFree (answer id choice later x).ledger.reservations id)
      same
      (
        answered row (length old.decisions) (asked d at) choice later,
        ap (λ p. p.1.runs id) wrote ∙ put_run-present id _ next,
        refl,
        refl,
        answered-decisions row old.decisions (asked d at) choice later ds,
        subst (λ l. IsFree l.reservations id) (sym (ap (λ p. p.1.ledger) wrote))
            (waiting-IsFree id old d url choice at later db bal is_id was),
      )

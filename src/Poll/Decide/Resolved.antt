-- ===== src/Poll/Decide/Resolved.antt =====
-- How a wait on the owner ends at a poll.
use mathlib.Core.Option.{none-ne-some, some-injective}
use mathlib.Core.Path.{subst}
use forge_wingman.Prelude.{
  ℕ, zero, suc, ◌≡◌, ◌⊎◌, refl, inl, inr, true, false, not, ◌||◌, Option, none, some, List, [], ◌∷◌,
  Option-cases, Bool-cases, get_elem?, set,
}
use forge_wingman.Text.{Text}
use forge_wingman.Time.{Time, is_before}
use forge_wingman.Runner.{DecisionOption, waiting_on_owner}
use forge_wingman.Store.Row.{Row, RunState, DecisionEntry, queued, is_waiting, is_recorded}
use forge_wingman.Store.Db.{Db, Notice, put_run}
use forge_wingman.Store.Decisions.{
  last_unanswered, entry_at, with_entry, answered_row, update_row, answer,
}
use forge_wingman.Store.Effects.Claim.{update_self}
use forge_wingman.Poll.Decide.{
  Desk, WaitingRun, waiting_entry, waiting_of, match, decision_timeout, deadline, waiting_notice,
  reported, written, Settling,
}

-- The reply is newer than the post and names an option, or none is and the deadline has passed.
abbrev pub IsDue : Desk → WaitingRun → Time → Type 0
IsDue k w at =
    ((is_before w.posted_at w.replied_at ≡ true)
      × ((opt : DecisionOption) × (match k.same w.decision w.reply ≡ some opt)))
    ⊎ ((is_before w.posted_at w.replied_at ≡ false)
        × (is_before (deadline w (decision_timeout k.timeout)) at ≡ true))

-- The run is queued again, with the option that the reply names as the answer of one of its decisions.
pub record Resumed (k : Desk) (w : WaitingRun) (after : Db) : Type 0 where
  pub row : Row
  pub present : after.runs w.run_id ≡ some row
  pub is_queued : row.state ≡ queued
  pub opt : DecisionOption
  pub names : match k.same w.decision w.reply ≡ some opt
  pub answers :
      (i : ℕ) × (e : DecisionEntry) × (get_elem? row.decisions i ≡ some e) × (e.answer ≡ opt.label)

-- The run is stopped as waiting on the owner, and its notice is there.
pub record Ended (w : WaitingRun) (after : Db) : Type 0 where
  pub row : Row
  pub present : after.runs w.run_id ≡ some row
  pub is_stopped : row.state ≡ RunState.stopped
  pub reason : row.stop_reason ≡ some waiting_on_owner
  pub noticed : (n : Notice) × (after.notices (waiting_notice w 0).0 ≡ some n)

-- A write was refused: the poll reports it, and the run's row is as it was, so the run waits for the next poll.
pub record Left (k : Desk) (w : WaitingRun) (db : Db) (s : Settling) : Type 0 where
  pub reported : s.0 ≡ true
  pub rows_kept : s.1.runs ≡ db.runs
  pub refused : (k.raises w.run_id ≡ false) ⊎ (k.writes w.run_id ≡ false)

-- How a wait that is due ends at a poll.
abbrev pub Outcome : Desk → WaitingRun → Db → Settling → Type 0
Outcome k w db s = Left k w db s ⊎ (Resumed k w s.1 ⊎ Ended w s.1)

get_elem-set :
    (es : List DecisionEntry) (i : ℕ) (e f : DecisionEntry)
    → get_elem? es i ≡ some e
    → get_elem? (set es i f) i ≡ some f
get_elem-set [] i e f h = absurd (none-ne-some e h)
get_elem-set (d ∷ es) zero e f h = refl
get_elem-set (d ∷ es) (suc i) e f h = get_elem-set es i e f h

pub waiting_entry-some :
    (row : Row) (ie : ℕ × DecisionEntry)
    → waiting_entry row ≡ some ie
    → (not (is_waiting row.state) || is_recorded row.outcome ≡ false)
      × (entry_at (last_unanswered row.decisions) row ≡ some ie)
unfolding waiting_entry
waiting_entry-some row ie h =
    elim (Bool-cases (not (is_waiting row.state) || is_recorded row.outcome)) [
      | inl settled ↦ absurd (none-ne-some ie (rw (settled, waiting_entry) at h))
      | inr open_still ↦ (open_still, rw (open_still, waiting_entry) at h)
    ]

entry_at-get :
    (o : Option ℕ) (row : Row) (ie : ℕ × DecisionEntry)
    → entry_at o row ≡ some ie
    → get_elem? row.decisions ie.0 ≡ some ie.1
entry_at-get none row ie h = absurd (none-ne-some ie h)
entry_at-get (some i) row ie h = elim (Option-cases (get_elem? row.decisions i)) [
  | inl beyond ↦ absurd (none-ne-some ie (rw (beyond, entry_at) at h))
  | inr (e, found) ↦
      subst (λ (je : ℕ × DecisionEntry). get_elem? row.decisions je.0 ≡ some je.1)
        (some-injective (i, e) ie (rw (found, entry_at) at h)) found
]

resumes :
    (k : Desk) (id : Text) (row : Row) (ie : ℕ × DecisionEntry) (opt : DecisionOption) (at : Time)
    (db : Db)
    → db.runs id ≡ some row
    → waiting_entry row ≡ some ie
    → match k.same (waiting_of id row ie).decision (waiting_of id row ie).reply ≡ some opt
    → Resumed k (waiting_of id row ie) (answer id opt.label at db)
unfolding answer answered_row update_row put_run with_entry waiting_of
resumes k id row (i, e) opt at db present waits names =
    let (open_still, found) = waiting_entry-some row (i, e) waits in
    let row' : Row = record (with_entry row i (record e { answer = opt.label })) {
      state = queued;
      updated_at = at;
      claimed_at = 0;
      waiting_on = [];
    } in
    rw (present, open_still, found, answer)
      (record {
        row = row';
        present = update_self db.runs id (some row');
        is_queued = refl;
        opt = opt;
        names = names;
        answers = (
          i,
          record e { answer = opt.label },
          get_elem-set row.decisions i e (record e { answer = opt.label })
              (entry_at-get (last_unanswered row.decisions) row (i, e) found),
          refl,
        );
      })

answers :
    (k : Desk) (id : Text) (row : Row) (ie : ℕ × DecisionEntry) (opt : DecisionOption) (at : Time)
    (db : Db)
    → db.runs id ≡ some row
    → waiting_entry row ≡ some ie
    → match k.same (waiting_of id row ie).decision (waiting_of id row ie).reply ≡ some opt
    → Outcome k (waiting_of id row ie) db (written (k.writes id) (answer id opt.label at db) db)
unfolding written waiting_of
answers k id row ie opt at db present waits names = elim (Bool-cases (k.writes id)) [
  | inl wrote ↦ rw wrote (inr (inl (resumes k id row ie opt at db present waits names)))
  | inr lost ↦
      rw (lost, written) (inl (record { reported = refl; rows_kept = refl; refused = inr lost }))
]

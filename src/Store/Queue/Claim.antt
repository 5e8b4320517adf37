-- ===== src/Store/Queue/Claim.antt =====
-- TryClaim: one transaction that re-reads the row and the ledger, asks admission, and books the
-- reservation with the claim.
use forge_wingman.Prelude.{
  ℕ, ◌+◌, Bool, true, false, not, Option, none, some, [], length, if◌then◌else◌,
}
use forge_wingman.Text.{Text, is_empty}
use forge_wingman.Time.{Time}
use forge_wingman.GoMap.{assign}
use forge_wingman.Runner.{provider, DecisionMode}
use forge_wingman.Dispatcher.{is_build}
use forge_wingman.Dispatcher.Budget.{BudgetConfig, Reservation, Settled}
use forge_wingman.Dispatcher.Settled.{SettledHistory, sums}
use forge_wingman.Dispatcher.Admit.{Subject, Facts, AdmitInput, held_before_budget, admit}
use forge_wingman.Store.Keys.{reservation_key}
use forge_wingman.Store.Row.{Row, claimed, is_candidate, has_ended, subject}
use forge_wingman.Store.Ledger.{Entry, Ledger, in_flight, reserved_totals, concurrency}
use forge_wingman.Store.Db.{Db, Error, Result, ok, err, ◌>>=◌, put_run, put_ledger}

-- What a claim attempt reports: whether the run was claimed, and the condition that withheld it.
pub record Claimed : Type 0 where
  pub ok? : Bool
  pub binding : Text

abbrev pub not_claimable : Claimed
not_claimable = record { ok? = false; binding = [] }

abbrev pub withheld : Text → Claimed
withheld why = record { ok? = false; binding = why }

abbrev pub admitted : Claimed
admitted = record { ok? = true; binding = [] }

-- The candidate, with the relations that this poll read of its ticket.
unfoldable pub candidate : Row → Facts → Reservation → Subject
unfolding subject
candidate row facts res =
    let c = subject row res.stage in
    if facts.relations.known
    then (record c {
      blocked_by = facts.relations.blocked_by;
      blocks = facts.relations.blocks;
      blocked_by_open = facts.relations.blocked_by_open;
    })
    else c

unfoldable pub admit_input :
    Row → Ledger → BudgetConfig → Facts → Reservation → Settled → AdmitInput
unfolding candidate in_flight reserved_totals concurrency
admit_input row ledger cfg facts res settled = record {
  facts = facts;
  n = (concurrency ledger).n;
  in_flight = in_flight ledger.reservations;
  candidate = candidate row facts res;
  budget = cfg;
  reserved = reserved_totals ledger;
  settled = settled;
  reservation = res;
}

abbrev pub nothing_settled : Settled
nothing_settled = record { windows = []; model_cap = 0; cash_cost = 0; cash_minutes = 0 }

unfoldable pub new_entry : Row → Time → Facts → Reservation → Entry
unfolding candidate
new_entry row at facts res =
    let c = candidate row facts res in
    record {
      provider_cost = res.provider_cost;
      runner_minutes = res.runner_minutes;
      ticket_id = c.ticket;
      repo = c.repo;
      size = c.size;
      claimed_at = at;
      attempt = row.attempt;
      stage = res.stage;
      files = res.files;
    }

-- The ledger with the reservation booked.
unfoldable pub book : Text → Row → Time → Facts → Reservation → Ledger → Ledger
unfolding new_entry reservation_key concurrency assign
book run_id row at facts res ledger = record ledger {
  reservations =
      assign (reservation_key run_id row.attempt res.stage) (new_entry row at facts res)
        ledger.reservations;
  n = (concurrency ledger).n;
  platform_cap = facts.limits.platform_cap;
  tune = facts.tuning;
}

abbrev or_mode : Option DecisionMode → DecisionMode → Option DecisionMode
or_mode none mode = some mode
or_mode (some m) mode = some m

-- The row as claimed, with so many runs in flight before it.
unfoldable pub claim_row : Row → Time → Facts → Reservation → ℕ → Row
unfolding provider is_build
claim_row row at facts res running = record row {
  state = claimed;
  claimed_at = at;
  updated_at = at;
  claim_concurrency = running + 1;
  waiting_on = [];
  decision_mode = or_mode row.decision_mode facts.decision_mode;
  plan = if is_build res.stage then row.plan else provider facts.model;
}

-- A row that ended without a claim is settled to the state that a finished run sits in.
unfoldable pub settle_ended : Row → Time → Row
settle_ended row at = record row { state = claimed; updated_at = at; waiting_on = [] }

unfoldable pub withhold : Text → Row → Text → Db → Claimed × Db
unfolding put_run
withhold run_id row why db = (withheld why, put_run run_id (record row { waiting_on = why }) db)

unfoldable pub decide_claim :
    Text → Row → Time → Facts → Reservation → Bool × Text → Db → Claimed × Db
unfolding withhold book claim_row in_flight put_run put_ledger
decide_claim run_id row at facts res (false, why) db = withhold run_id row why db
decide_claim run_id row at facts res (true, why) db =
    let running = length (in_flight db.ledger.reservations) in
    (
      admitted,
      put_run run_id (claim_row row at facts res running)
          (put_ledger (book run_id row at facts res db.ledger) db),
    )

-- The claim of a row that waits for one and has not ended. The settled history is read only where no
-- condition ahead of the ceilings withholds the candidate.
unfoldable pub claim_waiting :
    Text
    → Row
    → Time
    → BudgetConfig
    → Facts
    → Result SettledHistory
    → Reservation
    → Db
    → Result (Claimed × Db)
unfolding admit_input decide_claim held_before_budget withhold admit sums
claim_waiting run_id row at cfg facts history res db =
    let why = held_before_budget (admit_input row db.ledger cfg facts res nothing_settled) in
    if not (is_empty why) then ok (withhold run_id row why db) else do
      h ← history
      ok (
          decide_claim run_id row at facts res
            (admit (admit_input row db.ledger cfg facts res (sums h cfg facts.model at))) db)

-- TryClaim where Firestore answers. `history` is what the poll's loader of the settled history returns.
unfoldable pub try_claim :
    Text
    → Time
    → BudgetConfig
    → Facts
    → Result SettledHistory
    → Reservation
    → Db
    → Result (Claimed × Db)
unfolding is_candidate has_ended settle_ended claim_waiting put_run
try_claim run_id at cfg facts history res db = elim (db.runs run_id) [
  | none ↦ ok (not_claimable, db)
  | some row ↦
      if not (is_candidate row.state)
      then ok (not_claimable, db)
      else if has_ended row
      then ok (not_claimable, put_run run_id (settle_ended row at) db)
      else claim_waiting run_id row at cfg facts history res db
]

-- What of one attempt Firestore fails: the read of the row, that of the ledger, or the commit of what was written.
pub record Faults : Type 0 where
  pub row_read : Option Error
  pub ledger_read : Option Error
  pub commit : Option Error

unfoldable pub committed {ℓ} : {A : Type ℓ} → Option Error → Result A → Result A
committed none r = r
committed (some e) (ok a) = err e
committed (some e) (err e') = err e'

-- TryClaim of a row that is there.
unfoldable pub attempt_row :
    Faults
    → Text
    → Row
    → Time
    → BudgetConfig
    → Facts
    → Result SettledHistory
    → Reservation
    → Db
    → Result (Claimed × Db)
unfolding is_candidate has_ended settle_ended claim_waiting put_run committed
attempt_row f run_id row at cfg facts history res db =
    if not (is_candidate row.state)
    then ok (not_claimable, db)
    else if has_ended row
    then committed f.commit (ok (not_claimable, put_run run_id (settle_ended row at) db))
    else (elim f.ledger_read [
      | some e ↦ err e
      | none ↦ committed f.commit (claim_waiting run_id row at cfg facts history res db)
    ])

-- TryClaim with what Firestore fails of it; `try_claim` is the attempt of which it fails nothing.
unfoldable pub attempt_claim :
    Faults
    → Text
    → Time
    → BudgetConfig
    → Facts
    → Result SettledHistory
    → Reservation
    → Db
    → Result (Claimed × Db)
unfolding attempt_row
attempt_claim f run_id at cfg facts history res db = elim f.row_read [
  | some e ↦ err e
  | none ↦ elim (db.runs run_id) [
    | none ↦ ok (not_claimable, db)
    | some row ↦ attempt_row f run_id row at cfg facts history res db
  ]
]

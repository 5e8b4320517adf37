-- ===== src/Store/Effects/Claim.antt =====
-- What TryClaim claims, and what it leaves.
use mathlib.Core.Bool.{false≢true}
use forge_wingman.Prelude.{
  ℕ, ◌≡◌, refl, sym, ap, ◌∙◌, inl, inr, Bool, true, false, not, Option, some, arith, Option-cases,
  Bool-cases, length,
}
use forge_wingman.Text.{Text, is_empty, text_eq_self}
use forge_wingman.Time.{Time}
use forge_wingman.Dispatcher.Budget.{BudgetConfig, Reservation}
use forge_wingman.Dispatcher.Settled.{SettledHistory, sums}
use forge_wingman.Dispatcher.Admit.{Facts, held_before_budget, admit}
use forge_wingman.Store.Row.{Row, claimed, is_candidate, has_ended}
use forge_wingman.Store.Ledger.{in_flight}
use forge_wingman.Store.Db.{Db, Result, ok, err, update, put_run, put_ledger}
use forge_wingman.Store.Trace.{left}
use forge_wingman.Store.Queue.Claim.{
  Claimed, admitted, not_claimable, nothing_settled, admit_input, book, claim_row, withhold,
  decide_claim, claim_waiting, try_claim,
}

-- The claim attempt reports that it claimed the run.
abbrev pub reports_claim : Result (Claimed × Db) → Bool
reports_claim (ok (c, db)) = c.ok?
reports_claim (err e) = false

-- The store with the run claimed and its reservation booked.
abbrev pub claimed_db : Text → Row → Time → Facts → Reservation → Db → Db
claimed_db id row at facts res db =
    put_run id (claim_row row at facts res (length (in_flight db.ledger.reservations)))
      (put_ledger (book id row at facts res db.ledger) db)

pub record ClaimMade (id : Text) (at : Time) (cfg : BudgetConfig) (facts : Facts)
    (history : Result SettledHistory) (res : Reservation) (db : Db) : Type 0 where
  pub row : Row
  pub present : db.runs id ≡ some row
  pub waits : is_candidate row.state ≡ true
  pub runs_on : has_ended row ≡ false
  pub settled : SettledHistory
  pub read : history ≡ ok settled
  pub admits :
      (admit (admit_input row db.ledger cfg facts res (sums settled cfg facts.model at))).0 ≡ true
  pub result :
      try_claim id at cfg facts history res db ≡ ok (admitted, claimed_db id row at facts res db)

decided_claim :
    (id : Text) (row : Row) (at : Time) (facts : Facts) (res : Reservation) (verdict : Bool × Text)
    (db : Db)
    → (decide_claim id row at facts res verdict db).0.ok? ≡ true
    → (verdict.0 ≡ true)
      × (decide_claim id row at facts res verdict db
          ≡ (admitted, claimed_db id row at facts res db))
unfolding decide_claim withhold
decided_claim id row at facts res (false, why) db h = absurd (false≢true h)
decided_claim id row at facts res (true, why) db h = (refl, refl)

waiting_claim :
    (id : Text) (row : Row) (at : Time) (cfg : BudgetConfig) (facts : Facts)
    (history : Result SettledHistory) (res : Reservation) (db : Db)
    → reports_claim (claim_waiting id row at cfg facts history res db) ≡ true
    → (h : SettledHistory) × (history ≡ ok h)
      × ((admit (admit_input row db.ledger cfg facts res (sums h cfg facts.model at))).0 ≡ true)
      × (claim_waiting id row at cfg facts history res db
          ≡ ok (admitted, claimed_db id row at facts res db))
unfolding claim_waiting withhold
waiting_claim id row at cfg facts (ok h) res db r =
    elim (Bool-cases (
      not (
        is_empty (held_before_budget (admit_input row db.ledger cfg facts res nothing_settled))))) [
          | inl held ↦ absurd (false≢true (rw held at r))
          | inr reached ↦
              let (v, p) =
                decided_claim id row at facts res
                  (admit (admit_input row db.ledger cfg facts res (sums h cfg facts.model at))) db
                  (rw reached at r) in
              (h, refl, v, rw (reached, claim_waiting) (ap ok p))
        ]
waiting_claim id row at cfg facts (err e) res db r =
    elim (Bool-cases (
      not (
        is_empty (held_before_budget (admit_input row db.ledger cfg facts res nothing_settled))))) [
          | inl held ↦ absurd (false≢true (rw held at r))
          | inr reached ↦ absurd (false≢true (rw reached at r))
        ]

pub candidate_claim :
    (id : Text) (row : Row) (at : Time) (cfg : BudgetConfig) (facts : Facts)
    (history : Result SettledHistory) (res : Reservation) (db : Db)
    → db.runs id ≡ some row
    → is_candidate row.state ≡ true
    → has_ended row ≡ false
    → try_claim id at cfg facts history res db ≡ claim_waiting id row at cfg facts history res db
unfolding try_claim
candidate_claim id row at cfg facts history res db present c going =
    rw (present, c, going, try_claim) refl

-- A claim attempt that reports a claim found the run queued or planned and not ended, read the settled
-- history, passed admission against the ledger of its own transaction with the sums of that history,
-- and left the row claimed with its reservation booked and nothing else changed.
pub try_claim-made :
    (id : Text) (at : Time) (cfg : BudgetConfig) (facts : Facts) (history : Result SettledHistory)
    (res : Reservation) (db : Db)
    → reports_claim (try_claim id at cfg facts history res db) ≡ true
    → ClaimMade id at cfg facts history res db
unfolding try_claim
try_claim-made id at cfg facts history res db r = elim (Option-cases (db.runs id)) [
  | inl missing ↦ absurd (false≢true (rw (missing, try_claim) at r))
  | inr (row, present) ↦ elim (Bool-cases (is_candidate row.state)) [
    | inr other ↦ absurd (false≢true (rw (present, other, try_claim) at r))
    | inl c ↦ elim (Bool-cases (has_ended row)) [
      | inl ended ↦ absurd (false≢true (rw (present, c, ended, try_claim) at r))
      | inr going ↦
          let e = candidate_claim id row at cfg facts history res db present c going in
          let (h, read, v, p) = waiting_claim id row at cfg facts history res db (rw e at r) in
          record {
            row = row;
            present = present;
            waits = c;
            runs_on = going;
            settled = h;
            read = read;
            admits = v;
            result = e ∙ p;
          }
    ]
  ]
]

pub update_self : (runs : Text → Option Row) (id : Text) (r : Option Row) → update runs id r id ≡ r
update_self runs id r = ground (arith, text_eq_self id)

pub claimed_row_present :
    (id : Text) (row : Row) (at : Time) (facts : Facts) (res : Reservation) (db : Db)
    → (claimed_db id row at facts res db).runs id
      ≡ some (claim_row row at facts res (length (in_flight db.ledger.reservations)))
unfolding put_run put_ledger
claimed_row_present id row at facts res db = update_self db.runs id (some _)

pub not_candidate :
    (id : Text) (row : Row) (at : Time) (cfg : BudgetConfig) (facts : Facts)
    (history : Result SettledHistory) (res : Reservation) (db : Db)
    → db.runs id ≡ some row
    → row.state ≡ claimed
    → try_claim id at cfg facts history res db ≡ ok (not_claimable, db)
unfolding try_claim is_candidate
not_candidate id row at cfg facts history res db present c = rw (present, c, try_claim) refl

pub claim_row_state :
    (row : Row) (at : Time) (facts : Facts) (res : Reservation) (n : ℕ)
    → (claim_row row at facts res n).state ≡ claimed
unfolding claim_row
claim_row_state row at facts res n = refl

-- Of two polls that try to claim the same run, whatever each asks for, only the first can: after a
-- claim another attempt reports none and changes nothing.
pub try_claim-once :
    (id : Text) (at at' : Time) (cfg cfg' : BudgetConfig) (facts facts' : Facts)
    (history history' : Result SettledHistory) (res res' : Reservation) (db db' : Db)
    → try_claim id at cfg facts history res db ≡ ok (admitted, db')
    → try_claim id at' cfg' facts' history' res' db' ≡ ok (not_claimable, db')
try_claim-once id at at' cfg cfg' facts facts' history history' res res' db db' h =
    let made = try_claim-made id at cfg facts history res db (rw h refl) in
    let same : claimed_db id made.row at facts res db ≡ db' =
      ap (left (λ r. r.1) db) (sym made.result ∙ h) in
    rw (← same) (
      not_candidate id (claim_row made.row at facts res (length (in_flight db.ledger.reservations)))
        at' cfg' facts' history' res' (claimed_db id made.row at facts res db)
        (claimed_row_present id made.row at facts res db) (claim_row_state made.row at facts res _))

-- ===== src/Store/Accounting/Claims.antt =====
-- The claim, the settles and the owner's N keep the books.
use mathlib.Core.Option.{some-injective}
use forge_wingman.Prelude.{
  ◌==◌, not, ℕ, ◌≡◌, ◌≢◌, refl, sym, ◌∙◌, inl, inr, Bool, true, false, Option, none, some, arith,
  Option-cases, Bool-cases,
}
use forge_wingman.Text.{Text, is_empty}
use forge_wingman.Time.{Time}
use forge_wingman.GoMap.{lookup, delete}
use forge_wingman.Dispatcher.{Stage, is_plan}
use forge_wingman.Dispatcher.Budget.{BudgetConfig, Reservation}
use forge_wingman.Dispatcher.Settled.{SettledHistory}
use forge_wingman.Dispatcher.Admit.{Facts, held_before_budget}
use forge_wingman.Dispatcher.Concurrency.{FloatOps}
use forge_wingman.Store.Keys.{reservation_run_id}
use forge_wingman.Store.Keys.Distinct.{IsRunId, reservation_run_id-key}
use forge_wingman.Store.Row.{Row, claimed, is_candidate, has_ended}
use forge_wingman.Store.Ledger.{Entry, delete_key}
use forge_wingman.Store.Ledger.Booking.{lookup-delete-some}
use forge_wingman.Store.Db.{Db, or_err, not_found, Result, put_run, put_ledger}
use forge_wingman.Store.Queue.Claim.{
  try_claim, settle_ended, admit_input, nothing_settled, claim_waiting, decide_claim, withhold,
  book, claim_row, new_entry,
}
use forge_wingman.Store.Queue.Settle.{
  RecentDurations, settle, settle_key, settle_entry, recommended_ledger, adopt_runs_at_once,
}
use forge_wingman.Store.Accounting.{
  IsAccounted, IsFree, idle-IsFree, free-IsAccounted, kept-IsAccounted, fewer-IsAccounted,
  claimed-IsAccounted, deleted-IsFree,
}
use forge_wingman.Store.Accounting.Operations.{
  Balanced, Keeps, ok-Keeps, bind-Keeps, row_kept-Balanced,
}

idle_row : (row : Row) → is_candidate row.state ≡ true → row.state ≢ claimed
unfolding is_candidate
idle_row row h p = ground arith

pub same_idle : (row r : Row) → row ≡ r → is_candidate row.state ≡ true → r.state ≢ claimed
same_idle row r p c = idle_row r (rw (← p) c)

ended_row :
    (db : Db) (id : Text) (row : Row) (at : Time)
    → Balanced db
    → IsFree db.ledger.reservations id
    → Balanced (put_run id (settle_ended row at) db)
unfolding put_run
ended_row db id row at bal free = free-IsAccounted db.runs db.ledger.reservations id _ bal free

decide_claim-Balanced :
    (id : Text) (row : Row) (at : Time) (facts : Facts) (res : Reservation) (verdict : Bool × Text)
    (db : Db)
    → Balanced db
    → IsRunId id
    → db.runs id ≡ some row
    → IsFree db.ledger.reservations id
    → Balanced (decide_claim id row at facts res verdict db).1
unfolding decide_claim withhold put_run put_ledger book claim_row new_entry
decide_claim-Balanced id row at facts res (false, why) db bal is_id present free =
    kept-IsAccounted db.runs db.ledger.reservations id row _ bal present refl refl
decide_claim-Balanced id row at facts res (true, why) db bal is_id present free =
    claimed-IsAccounted db.runs db.ledger.reservations id (claim_row row at facts res _)
      (new_entry row at facts res) bal free is_id refl refl

claim_waiting-Balanced :
    (id : Text) (row : Row) (at : Time) (cfg : BudgetConfig) (facts : Facts)
    (history : Result SettledHistory) (res : Reservation) (db : Db)
    → Balanced db
    → IsRunId id
    → db.runs id ≡ some row
    → IsFree db.ledger.reservations id
    → Keeps (λ r. r.1) (claim_waiting id row at cfg facts history res db)
unfolding claim_waiting withhold
claim_waiting-Balanced id row at cfg facts history res db bal is_id present free =
    elim (Bool-cases (
      not (
        is_empty (held_before_budget (admit_input row db.ledger cfg facts res nothing_settled))))) [
          | inl held ↦
              rw (held, claim_waiting)
                (ok-Keeps _ _ (row_kept-Balanced db id row _ bal present refl refl))
          | inr reached ↦
              rw (reached, claim_waiting)
                (bind-Keeps (λ r. r.1) history _
                  (λ h.
                    ok-Keeps _ _
                      (decide_claim-Balanced id row at facts res _ db bal is_id present free)))
        ]

candidate-Balanced :
    (id : Text) (row : Row) (at : Time) (cfg : BudgetConfig) (facts : Facts)
    (history : Result SettledHistory) (res : Reservation) (db : Db)
    → Balanced db
    → IsRunId id
    → db.runs id ≡ some row
    → is_candidate row.state ≡ true
    → Keeps (λ r. r.1) (try_claim id at cfg facts history res db)
unfolding try_claim
candidate-Balanced id row at cfg facts history res db bal is_id present c =
    let free : IsFree db.ledger.reservations id =
      idle-IsFree db.runs db.ledger.reservations id bal
        (λ r p. same_idle row r (some-injective row r (sym present ∙ p)) c) in
    elim (Bool-cases (has_ended row)) [
      | inl ended ↦
          rw (present, c, ended, try_claim) (ok-Keeps _ _ (ended_row db id row at bal free))
      | inr going ↦
          rw (present, c, going, try_claim)
            (claim_waiting-Balanced id row at cfg facts history res db bal is_id present free)
    ]

pub try_claim-Balanced :
    (id : Text) (at : Time) (cfg : BudgetConfig) (facts : Facts) (history : Result SettledHistory)
    (res : Reservation) (db : Db)
    → Balanced db
    → IsRunId id
    → Keeps (λ r. r.1) (try_claim id at cfg facts history res db)
unfolding try_claim
try_claim-Balanced id at cfg facts history res db bal is_id = elim (Option-cases (db.runs id)) [
  | inl missing ↦ rw (missing, try_claim) (ok-Keeps _ _ bal)
  | inr (row, present) ↦ elim (Bool-cases (is_candidate row.state)) [
    | inl c ↦ candidate-Balanced id row at cfg facts history res db bal is_id present c
    | inr other ↦ rw (present, other, try_claim) (ok-Keeps _ _ bal)
  ]
]

settle_key-run :
    (id : Text) (attempt : Option ℕ) (stage : Stage)
    → IsRunId id
    → reservation_run_id (settle_key id attempt stage) ≡ id
unfolding settle_key
settle_key-run id none stage is_id = (reservation_run_id-key id 0 stage is_id).1
settle_key-run id (some a) stage is_id = (reservation_run_id-key id a stage is_id).0

settle_entry-Balanced :
    (ops : FloatOps) (recent : RecentDurations) (id k : Text) (found : Option Entry) (db : Db)
    → Balanced db
    → reservation_run_id k ≡ id
    → lookup k db.ledger.reservations ≡ found
    → Keeps (λ d. d) (settle_entry ops recent id k found db)
unfolding settle_entry put_run put_ledger delete_key recommended_ledger
settle_entry-Balanced ops recent id k none db bal named h = ok-Keeps _ _ bal
settle_entry-Balanced ops recent id k (some e) db bal named h =
    let fewer : IsAccounted db.runs (delete k db.ledger.reservations) =
      fewer-IsAccounted db.runs db.ledger.reservations _ bal
        (λ j d i. (lookup-delete-some k j d _ i).0) in
    elim (Bool-cases (is_plan e.stage)) [
      | inl planned ↦
          rw (planned, settle_entry)
            (bind-Keeps (λ d. d) (or_err (db.runs id) not_found) _
              (λ row. ok-Keeps _ _ (
                free-IsAccounted db.runs _ id _ fewer
                  (deleted-IsFree db.runs db.ledger.reservations id k e bal h named))))
      | inr built ↦ rw (built, settle_entry) (ok-Keeps _ _ fewer)
    ]

pub settle-Balanced :
    (ops : FloatOps) (recent : RecentDurations) (id : Text) (attempt : Option ℕ) (stage : Stage)
    (db : Db)
    → Balanced db
    → IsRunId id
    → Keeps (λ d. d) (settle ops recent id attempt stage db)
unfolding settle
settle-Balanced ops recent id attempt stage db bal is_id =
    settle_entry-Balanced ops recent id (settle_key id attempt stage) _ db bal
      (settle_key-run id attempt stage is_id) refl

pub adopt-Balanced : (n : ℕ) (db : Db) → Balanced db → Balanced (adopt_runs_at_once n db)
unfolding adopt_runs_at_once put_ledger
adopt-Balanced n db bal = elim (Bool-cases (db.ledger.n == n)) [
  | inl same ↦ rw same bal
  | inr other ↦ rw other bal
]

-- ===== src/Examples/Queue.antt =====
-- The theorems about the queue's transactions, on a run that a poll claims.
use forge_wingman.Text.{codes}
use forge_wingman.Prelude.{◌≡◌, ◌≢◌, refl, arith, true, some, List, [], ◌∷◌, ◌≤◌, ◌++◌, none}
use forge_wingman.GoMap.{lookup}
use forge_wingman.Dispatcher.{single, build}
use forge_wingman.Store.Keys.{reservation_key}
use forge_wingman.Store.Keys.Distinct.{IsRunId}
use forge_wingman.Store.Db.{Db, ok}
use forge_wingman.Store.Queue.Claim.{admitted, not_claimable, try_claim}
use forge_wingman.Store.Queue.Release.{release}
use forge_wingman.Store.Queue.Settle.{RecentDurations, settle}
use forge_wingman.Store.Accounting.Operations.{Balanced}
use forge_wingman.Store.Trace.{Op, op_enqueue, op_claim, op_settle, run, initial, left, AreSound}
use forge_wingman.Store.Trace.Balance.{run-Balanced, initial-Balanced}
use forge_wingman.Store.Effects.Claim.{ClaimMade, reports_claim, try_claim-made, try_claim-once}
use forge_wingman.Store.Effects.Release.{Restored, release-try_claim}
use forge_wingman.Store.Effects.Settle.{settle-once, settle-elsewhere}
use forge_wingman.Store.Trace.Cap.{booked}
use forge_wingman.Store.Trace.Cap.Bound.{run-booked}
use forge_wingman.Store.Effects.Spend.{try_claim-WindowsFit}
use forge_wingman.Store.Effects.Wait.{answer-suspend}
use forge_wingman.Store.Row.{Row, queued}
use forge_wingman.Store.Ledger.{reserved_totals}
use forge_wingman.Store.Queue.Enqueue.{new_row}
use forge_wingman.Store.Accounting.{IsFree}
use forge_wingman.Store.Decisions.{suspend, asked, answer}
use forge_wingman.Dispatcher.Settled.{sums}
use forge_wingman.Dispatcher.Budget.Ceilings.{AmountsSmall, WindowsFit}
use forge_wingman.Runner.{Decision}
use forge_wingman.Examples.{
  fw_1, fw_2, whole_numbers, budget, estimate, facts, now, history, ticket_run,
}

pub fw_1-IsRunId : IsRunId fw_1
fw_1-IsRunId = ground arith

fw_2-IsRunId : IsRunId fw_2
fw_2-IsRunId = ground arith

abbrev no_times : RecentDurations
no_times size n limit = []

abbrev a_run : List Op
a_run =
    op_enqueue (ticket_run fw_1)
    ∷ op_claim fw_1 now budget facts (ok history) estimate
    ∷ op_settle no_times fw_1 (some 0) build
    ∷ []

sound : AreSound whole_numbers a_run initial
unfolding AreSound
sound = (tt, (fw_1-IsRunId, (fw_1-IsRunId, tt)))

run-Balanced_example : Balanced (run whole_numbers a_run initial)
run-Balanced_example = run-Balanced whole_numbers a_run initial initial-Balanced sound

abbrev pub queued_db : Db
queued_db = run whole_numbers (op_enqueue (ticket_run fw_1) ∷ []) initial

queued_sound : AreSound whole_numbers (op_enqueue (ticket_run fw_1) ∷ []) initial
unfolding AreSound
queued_sound = (tt, tt)

pub queued_db-Balanced : Balanced queued_db
queued_db-Balanced =
    run-Balanced whole_numbers (op_enqueue (ticket_run fw_1) ∷ []) initial initial-Balanced
      queued_sound

claim_reported :
    reports_claim (try_claim fw_1 now budget facts (ok history) estimate queued_db) ≡ true
unfolding run try_claim
claim_reported = refl

try_claim-made_example : ClaimMade fw_1 now budget facts (ok history) estimate queued_db
try_claim-made_example =
    try_claim-made fw_1 now budget facts (ok history) estimate queued_db claim_reported

abbrev claimed_1 : Db
claimed_1 =
    left (λ r. r.1) queued_db (try_claim fw_1 now budget facts (ok history) estimate queued_db)

claim_result :
    try_claim fw_1 now budget facts (ok history) estimate queued_db ≡ ok (admitted, claimed_1)
unfolding run try_claim
claim_result = refl

try_claim-once_example :
    try_claim fw_1 now budget facts (ok history) estimate claimed_1 ≡ ok (not_claimable, claimed_1)
try_claim-once_example =
    try_claim-once fw_1 now now budget budget facts facts (ok history) (ok history) estimate
      estimate queued_db claimed_1 claim_result

release-try_claim_example :
    (after : Db) × (release fw_1 now claimed_1 ≡ ok after) × Restored fw_1 single queued_db after
release-try_claim_example =
    release-try_claim fw_1 now now budget facts (ok history) estimate queued_db claimed_1
      queued_db-Balanced fw_1-IsRunId claim_result

abbrev settled_1 : Db
settled_1 = left (λ d. d) claimed_1 (settle whole_numbers no_times fw_1 (some 0) build claimed_1)

settle_result : settle whole_numbers no_times fw_1 (some 0) build claimed_1 ≡ ok settled_1
unfolding run try_claim settle
settle_result = refl

settle-once_example : settle whole_numbers no_times fw_1 (some 0) build settled_1 ≡ ok settled_1
settle-once_example =
    settle-once whole_numbers no_times no_times fw_1 (some 0) build claimed_1 settled_1
      settle_result

settle-elsewhere_example :
    lookup (reservation_key fw_2 0 build) settled_1.ledger.reservations
    ≡ lookup (reservation_key fw_2 0 build) claimed_1.ledger.reservations
settle-elsewhere_example =
    settle-elsewhere whole_numbers no_times fw_1 0 build claimed_1 settled_1 fw_2 0 build
      fw_1-IsRunId fw_2-IsRunId (λ p. differ p.0) settle_result
  where
    differ : fw_1 ≢ fw_2
    differ p = ground arith

run-booked_example : booked (run whole_numbers a_run initial) ≤ 20
run-booked_example =
    run-booked whole_numbers a_run initial 20 (tt, (omega arith, (tt, tt))) (omega arith)

queued_row : queued_db.runs fw_1 ≡ some (new_row (ticket_run fw_1))
unfolding run
queued_row = refl

abbrev pub claiming : List Op
claiming = op_enqueue (ticket_run fw_1) ∷ op_claim fw_1 now budget facts (ok history) estimate ∷ []

small :
    AmountsSmall budget facts.model
      (reserved_totals queued_db.ledger)
      (sums history budget facts.model now)
      estimate
unfolding run sums reserved_totals lookup
small = record {
  reserved = (omega arith, omega arith);
  settled = (omega arith, omega arith, omega arith);
  estimate = (omega arith, omega arith);
  windows = (omega arith, omega arith, tt);
  cap = tt;
  rates = (omega arith, omega arith, omega arith);
  bought = omega arith;
}

try_claim-WindowsFit_example :
    WindowsFit
      (reserved_totals
        (left
          (λ r. r.1)
          queued_db
          (try_claim fw_1 now budget facts (ok history) estimate queued_db)).ledger).provider_cost
      0
      budget.provider_windows
      (sums history budget facts.model now).windows
try_claim-WindowsFit_example =
    try_claim-WindowsFit fw_1 now budget facts history estimate queued_db queued_db-Balanced
      fw_1-IsRunId small claim_reported

abbrev question : Decision
question = record { question = codes "Which flag?"; context = []; options = [] }

abbrev suspended_1 : Db
suspended_1 = left (λ d. d) queued_db (suspend fw_1 question (codes "url") now queued_db)

suspend_result : suspend fw_1 question (codes "url") now queued_db ≡ ok suspended_1
unfolding run suspend
suspend_result = refl

queued_running : (new_row (ticket_run fw_1)).outcome ≡ none
unfolding new_row
queued_running = refl

answer-suspend_example :
    (row : Row) × ((answer fw_1 (codes "the old one") now suspended_1).runs fw_1 ≡ some row)
    × (row.state ≡ queued)
    × (row.claimed_at ≡ 0)
    × (row.decisions
        ≡ (new_row (ticket_run fw_1)).decisions
          ++ (record (asked question now) { answer = codes "the old one" }) ∷ [])
    × IsFree (answer fw_1 (codes "the old one") now suspended_1).ledger.reservations fw_1
answer-suspend_example =
    answer-suspend fw_1 question (codes "url") (codes "the old one") now now
      (new_row (ticket_run fw_1)) queued_db suspended_1 queued_db-Balanced fw_1-IsRunId queued_row
      queued_running suspend_result

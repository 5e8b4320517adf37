-- ===== src/Store/Effects/Spend.antt =====
-- What a claim reserves of the budget.
use mathlib.Core.Option.{some-injective}
use forge_wingman.Prelude.{ℕ, ◌+◌, ◌≡◌, refl, sym, ap, ◌∙◌, true, List, [], ◌∷◌, ◌++◌, arith}
use forge_wingman.Text.{Text}
use forge_wingman.Time.{Time}
use forge_wingman.Int64.{Int64, add64}
use forge_wingman.GoMap.{GoMap, assign_new}
use forge_wingman.Dispatcher.Budget.{Window, BudgetConfig, Reservation}
use forge_wingman.Dispatcher.Budget.Ceilings.{AmountsSmall, WindowsFit, Small, decide_exact}
use forge_wingman.Dispatcher.Settled.{SettledHistory, sums}
use forge_wingman.Dispatcher.Admit.{Facts, admit}
use forge_wingman.Dispatcher.Admit.Admissible.{admit_iff}
use forge_wingman.Store.Keys.{reservation_key}
use forge_wingman.Store.Keys.Distinct.{IsRunId}
use forge_wingman.Store.Row.{Row}
use forge_wingman.Store.Ledger.{Entry, Ledger, totals_from, reserved_totals}
use forge_wingman.Store.Db.{Db, ok, ok-injective, put_run, put_ledger}
use forge_wingman.Store.Queue.Claim.{admit_input, new_entry, book, try_claim}
use forge_wingman.Store.Accounting.{IsFree, idle-IsFree}
use forge_wingman.Store.Accounting.Operations.{Balanced}
use forge_wingman.Store.Accounting.Claims.{same_idle}
use forge_wingman.Store.Trace.{left}
use forge_wingman.Store.Effects.Claim.{reports_claim, try_claim-made, claimed_db}
use forge_wingman.Store.Effects.Release.{free_lookup}

totals_from-append :
    (c n : Int64) (m : GoMap Entry) (k : Text) (e : Entry)
    → totals_from c n (m ++ (k, e) ∷ []) ≡ record {
      provider_cost = add64 (totals_from c n m).provider_cost e.provider_cost;
      runner_minutes = add64 (totals_from c n m).runner_minutes e.runner_minutes;
    }
unfolding totals_from
totals_from-append c n [] k e = refl
totals_from-append c n ((j, d) ∷ m) k e =
    totals_from-append (add64 c d.provider_cost) (add64 n d.runner_minutes) m k e

-- A run without a reservation reserves exactly its estimate.
reserved_totals-book :
    (id : Text) (row : Row) (at : Time) (facts : Facts) (res : Reservation) (ledger : Ledger)
    → IsRunId id
    → IsFree ledger.reservations id
    → reserved_totals (book id row at facts res ledger) ≡ record {
      provider_cost = add64 (reserved_totals ledger).provider_cost res.provider_cost;
      runner_minutes = add64 (reserved_totals ledger).runner_minutes res.runner_minutes;
    }
unfolding reserved_totals book new_entry
reserved_totals-book id row at facts res ledger is_id free =
    ap (totals_from 0 0) (
      assign_new (reservation_key id row.attempt res.stage) (new_entry row at facts res)
        ledger.reservations (free_lookup ledger.reservations id row.attempt res.stage is_id free))
    ∙ totals_from-append 0 0 ledger.reservations (reservation_key id row.attempt res.stage)
        (new_entry row at facts res)

WindowsFit-moved :
    (r e : ℕ) (ws : List Window) (ss : List Int64)
    → WindowsFit r e ws ss
    → WindowsFit (r + e) 0 ws ss
WindowsFit-moved r e [] ss h = tt
WindowsFit-moved r e (w ∷ ws) [] h = (omega (arith, h.0), WindowsFit-moved r e ws [] h.1)
WindowsFit-moved r e (w ∷ ws) (s ∷ ss) h = (omega (arith, h.0), WindowsFit-moved r e ws ss h.1)

admitted-WindowsFit :
    (row : Row) (at : Time) (cfg : BudgetConfig) (facts : Facts) (h : SettledHistory)
    (res : Reservation) (db : Db)
    → AmountsSmall cfg facts.model (reserved_totals db.ledger) (sums h cfg facts.model at) res
    → (admit (admit_input row db.ledger cfg facts res (sums h cfg facts.model at))).0 ≡ true
    → WindowsFit
        (reserved_totals db.ledger).provider_cost
        res.provider_cost
        cfg.provider_windows
        (sums h cfg facts.model at).windows
unfolding admit_input
admitted-WindowsFit row at cfg facts h res db small admits =
    let fits =
      ((admit_iff (admit_input row db.ledger cfg facts res (sums h cfg facts.model at))).0
        admits).within_budget in
    ((decide_exact cfg facts.model (reserved_totals db.ledger) (sums h cfg facts.model at) res
        small).0
      fits).windows

reserved_after :
    (id : Text) (row : Row) (at : Time) (facts : Facts) (res : Reservation) (db : Db)
    → IsRunId id
    → IsFree db.ledger.reservations id
    → Small (reserved_totals db.ledger).provider_cost
    → Small res.provider_cost
    → (reserved_totals (claimed_db id row at facts res db).ledger).provider_cost
      ≡ (reserved_totals db.ledger).provider_cost + res.provider_cost
unfolding put_run put_ledger
reserved_after id row at facts res db is_id free small small' =
    ap (λ t. t.provider_cost) (reserved_totals-book id row at facts res db.ledger is_id free)
    ∙ ground arith

-- Where no sum of the amounts overflows, a claim keeps the reservations within the provider's windows:
-- after it, what the ledger reserves and what each window settled are within the window's limit. The
-- books balance before it, and the run has a ticket id.
pub try_claim-WindowsFit :
    (id : Text) (at : Time) (cfg : BudgetConfig) (facts : Facts) (h : SettledHistory)
    (res : Reservation) (db : Db)
    → Balanced db
    → IsRunId id
    → AmountsSmall cfg facts.model (reserved_totals db.ledger) (sums h cfg facts.model at) res
    → reports_claim (try_claim id at cfg facts (ok h) res db) ≡ true
    → WindowsFit
        (reserved_totals
          (left (λ r. r.1) db (try_claim id at cfg facts (ok h) res db)).ledger).provider_cost
        0
        cfg.provider_windows
        (sums h cfg facts.model at).windows
try_claim-WindowsFit id at cfg facts h res db bal is_id small claimed =
    let made = try_claim-made id at cfg facts (ok h) res db claimed in
    let free : IsFree db.ledger.reservations id =
      idle-IsFree db.runs db.ledger.reservations id bal (λ r p.
        same_idle made.row r (some-injective made.row r (sym made.present ∙ p)) made.waits) in
    let settled : made.settled ≡ h = ok-injective made.settled h (sym made.read) in
    let admits : (admit
          (admit_input made.row db.ledger cfg facts res (sums h cfg facts.model at))).0
        ≡ true =
      ap (λ x. (admit (admit_input made.row db.ledger cfg facts res (sums x cfg facts.model at))).0)
        (sym settled)
      ∙ made.admits in
    let after =
      reserved_after id made.row at facts res db is_id free small.reserved.0 small.estimate.0 in
    rw (made.result, after)
      (WindowsFit-moved (reserved_totals db.ledger).provider_cost res.provider_cost
        cfg.provider_windows (sums h cfg facts.model at).windows
        (admitted-WindowsFit made.row at cfg facts h res db small admits))

-- ===== src/Store/Accounting/Waits.antt =====
-- The decisions, the retries and the sweeps keep the books.
use mathlib.Core.Option.{some-injective}
use forge_wingman.Prelude.{
  ◌≡◌, ◌≢◌, refl, sym, ap, ◌∙◌, ◌⊎◌, inl, inr, true, not, ◌||◌, Option, none, some, arith,
  Option-cases, Bool-cases, if◌then◌else◌,
}
use forge_wingman.Text.{Text}
use forge_wingman.Time.{Time}
use forge_wingman.GoMap.{lookup}
use forge_wingman.Runner.{Decision}
use forge_wingman.Store.Keys.{reservation_run_id}
use forge_wingman.Store.Keys.Distinct.{IsRunId}
use forge_wingman.Store.Row.{Row, claimed, is_waiting, is_candidate}
use forge_wingman.Store.Ledger.{reservation, delete_key, drop_reservations}
use forge_wingman.Store.Ledger.Booking.{lookup-delete-some}
use forge_wingman.Store.Db.{Db, Notice, Result, ok, err, put_run, put_ledger}
use forge_wingman.Store.Queue.Requeue.{RequeueResult}
use forge_wingman.Store.Decisions.{
  settle_decision, first_option, suspended, taken, is_blank, suspend, take_recommendation,
  update_row, answered_row, stop_waiting,
}
use forge_wingman.Store.Sweep.{
  AbandonWindows, abandon, abandoned_row, abandoned_notice, found_abandoned, is_overdue, raise,
  release_if_settled, reservation_expired, entry_settled,
}
use forge_wingman.Store.Retry.{
  RetryRequest, retry_with_note, retry_result, decide_retry, valid_note, retried_awaiting_claim,
  update_retried,
}
use forge_wingman.Store.Accounting.{
  idle-IsFree, free-IsAccounted, kept-IsAccounted, fewer-IsAccounted,
}
use forge_wingman.Store.Accounting.Operations.{
  Balanced, Keeps, ok-Keeps, err-Keeps, bind-Keeps, dropped-Balanced, released-Balanced,
  requeue-Balanced,
}

pub settle_decision-Balanced :
    (id url : Text) (at : Time) (apply : Row → Row) (db : Db)
    → Balanced db
    → IsRunId id
    → Keeps (λ d. d) (settle_decision id url at apply db)
unfolding settle_decision put_run put_ledger
settle_decision-Balanced id url at apply db bal is_id = elim (Option-cases (db.runs id)) [
  | inl missing ↦ rw missing (err-Keeps _ _)
  | inr (row, present) ↦
      rw present (ok-Keeps _ _ (released-Balanced db id row _ _ bal is_id present refl))
]

-- A write that keeps the state and the attempt of the row, or that no claimed row meets.
abbrev pub IsHarmless : (Row → Option Row) → Type 0
IsHarmless decide =
    (row row' : Row)
    → decide row ≡ some row'
    → ((row'.state ≡ row.state) × (row'.attempt ≡ row.attempt)) ⊎ (row.state ≢ claimed)

pub update_row-Balanced :
    (id : Text) (decide : Row → Option Row) (db : Db)
    → IsHarmless decide
    → Balanced db
    → Balanced (update_row id decide db).1
unfolding update_row put_run
update_row-Balanced id decide db harmless bal = elim (Option-cases (db.runs id)) [
  | inl missing ↦ rw (missing, update_row) bal
  | inr (row, present) ↦ elim (Option-cases (decide row)) [
    | inl nothing ↦ rw (present, nothing, update_row) bal
    | inr (row', h) ↦
        rw (present, h, update_row)
          (elim (harmless row row' h) [
            | inl (s, a) ↦
                kept-IsAccounted db.runs db.ledger.reservations id row row' bal present s a
            | inr idle ↦ free-IsAccounted db.runs db.ledger.reservations id (some row') bal (
                idle-IsFree db.runs db.ledger.reservations id bal
                  (λ r p c. idle (ap (λ x. x.state) (some-injective row r (sym present ∙ p)) ∙ c)))
          ])
  ]
]

pub answered-IsHarmless : (choice : Text) (at : Time) → IsHarmless (answered_row choice at)
unfolding answered_row is_waiting
answered-IsHarmless choice at row row' h = ground arith

pub raise_runs : (n : Text × Notice) (db : Db) → (raise n db).runs ≡ db.runs
unfolding raise
raise_runs (id, notice) db = elim (Option-cases (db.notices id)) [
  | inl fresh ↦ rw (fresh, raise) refl
  | inr (old, present) ↦ rw (present, raise) refl
]

pub raise_ledger : (n : Text × Notice) (db : Db) → (raise n db).ledger ≡ db.ledger
unfolding raise
raise_ledger (id, notice) db = elim (Option-cases (db.notices id)) [
  | inl fresh ↦ rw (fresh, raise) refl
  | inr (old, present) ↦ rw (present, raise) refl
]

pub raise-Balanced : (n : Text × Notice) (db : Db) → Balanced db → Balanced (raise n db)
unfolding raise
raise-Balanced (id, notice) db bal = elim (Option-cases (db.notices id)) [
  | inl fresh ↦ rw (fresh, raise) bal
  | inr (old, present) ↦ rw (present, raise) bal
]

overdue-Balanced :
    (id : Text) (row : Row) (now : Time) (db : Db)
    → Balanced db
    → db.runs id ≡ some row
    → Balanced (
        put_run id
          (abandoned_row row now)
          (put_ledger (drop_reservations db.ledger id row.attempt) db))
unfolding put_run put_ledger drop_reservations
overdue-Balanced id row now db bal present =
    dropped-Balanced db id row (abandoned_row row now) bal present

pub abandon-Balanced :
    (id : Text) (now : Time) (w : AbandonWindows) (db : Db)
    → Balanced db
    → Balanced (abandon id now w db).1
unfolding abandon
abandon-Balanced id now w db bal = elim (Option-cases (db.runs id)) [
  | inl missing ↦ rw (missing, abandon) bal
  | inr (row, present) ↦
      elim (Bool-cases (is_overdue row (reservation db.ledger.reservations id row.attempt) now w)) [
        | inl due ↦
            rw (present, due, abandon)
              (raise-Balanced
                (abandoned_notice
                  (found_abandoned id row (reservation db.ledger.reservations id row.attempt)) now)
                (put_run id (abandoned_row row now)
                  (put_ledger (drop_reservations db.ledger id row.attempt) db))
                (overdue-Balanced id row now db bal present))
        | inr early ↦ rw (present, early, abandon) bal
      ]
]

deleted-Balanced :
    (key : Text) (db : Db) → Balanced db → Balanced (put_ledger (delete_key key db.ledger) db)
unfolding put_ledger delete_key
deleted-Balanced key db bal =
    fewer-IsAccounted db.runs db.ledger.reservations _ bal
      (λ k e h. (lookup-delete-some key k e _ h).0)

pub release_if_settled-Balanced :
    (key : Text) (now : Time) (w : AbandonWindows) (db : Db)
    → Balanced db
    → Balanced (release_if_settled key now w db).1
unfolding release_if_settled
release_if_settled-Balanced key now w db bal =
    elim (Option-cases (lookup key db.ledger.reservations)) [
      | inl missing ↦ rw (missing, release_if_settled) bal
      | inr (entry, held) ↦
          elim (Bool-cases (
            not (reservation_expired entry now w)
            || not (entry_settled entry (db.runs (reservation_run_id key))))) [
              | inl kept ↦ rw (held, kept, release_if_settled) bal
              | inr dropped ↦ rw (held, dropped, release_if_settled) (deleted-Balanced key db bal)
            ]
    ]

pub take_recommendation-Balanced :
    (id : Text) (d : Decision) (url : Text) (at : Time) (db : Db)
    → Balanced db
    → IsRunId id
    → Keeps (λ d. d) (take_recommendation id d url at db)
unfolding take_recommendation
take_recommendation-Balanced id d url at db bal is_id =
    bind-Keeps (λ d. d) (first_option d) _
      (λ o. settle_decision-Balanced id url at (taken d o.label at) db bal is_id)

retry_result-Balanced :
    (req : RetryRequest) (db : Db) (r : Result (RequeueResult × Db))
    → Balanced db
    → Keeps (λ r. r.1) r
    → Keeps (λ r. r.1) (retry_result req db r)
unfolding retry_result Keeps
retry_result-Balanced req db (ok r) bal keeps = keeps
retry_result-Balanced req db (err e) bal keeps = ground (arith, bal)

pub retry_with_note-Balanced :
    (id : Text) (req : RetryRequest) (at : Time) (db : Db)
    → Balanced db
    → Keeps (λ r. r.1) (retry_with_note id req at db)
unfolding retry_with_note
retry_with_note-Balanced id req at db bal =
    elim (Bool-cases (is_blank req.note || not (valid_note req.note))) [
      | inl bad ↦ rw (bad, retry_with_note) (err-Keeps _ _)
      | inr fine ↦ elim (Bool-cases (is_blank req.actor)) [
        | inl blank ↦ rw (fine, blank, retry_with_note) (err-Keeps _ _)
        | inr signed ↦
            rw (fine, signed, retry_with_note)
              (retry_result-Balanced req db _ bal (
                requeue-Balanced id at (record { keep_note = true; archive = true })
                  (decide_retry req) db bal))
      ]
    ]

retried-IsHarmless :
    (decide : Row → Option Row)
    → IsHarmless (λ row. if retried_awaiting_claim row then decide row else none)
unfolding retried_awaiting_claim is_candidate
retried-IsHarmless decide row row' h = ground arith

pub update_retried-Balanced :
    (id : Text) (decide : Row → Option Row) (db : Db)
    → Balanced db
    → Balanced (update_retried id decide db).1
unfolding update_retried
update_retried-Balanced id decide db bal =
    update_row-Balanced id _ db (retried-IsHarmless decide) bal

pub stop_waiting-Balanced :
    (id : Text) (d : Decision) (at : Time) (row : Row) (db : Db)
    → Balanced db
    → db.runs id ≡ some row
    → row.state ≢ claimed
    → Keeps (λ d. d) (stop_waiting id d at db)
unfolding stop_waiting put_run
stop_waiting-Balanced id d at row db bal present idle =
    rw (present, stop_waiting)
      (ok-Keeps _ _ (
        free-IsAccounted db.runs db.ledger.reservations id _ bal (
          idle-IsFree db.runs db.ledger.reservations id bal
            (λ r p c. idle (ap (λ x. x.state) (some-injective row r (sym present ∙ p)) ∙ c)))))

pub suspend-Balanced :
    (id : Text) (d : Decision) (url : Text) (at : Time) (db : Db)
    → Balanced db
    → IsRunId id
    → Keeps (λ d. d) (suspend id d url at db)
unfolding suspend
suspend-Balanced id d url at db bal is_id =
    settle_decision-Balanced id url at (suspended d at) db bal is_id

pub waiting_stopped-Balanced :
    (id : Text) (d : Decision) (at : Time) (db : Db)
    → Balanced db
    → ((row : Row) → db.runs id ≡ some row → row.state ≢ claimed)
    → Keeps (λ d. d) (stop_waiting id d at db)
unfolding stop_waiting
waiting_stopped-Balanced id d at db bal idle = elim (Option-cases (db.runs id)) [
  | inl missing ↦ rw (missing, stop_waiting) (err-Keeps _ _)
  | inr (row, present) ↦ stop_waiting-Balanced id d at row db bal present (idle row present)
]

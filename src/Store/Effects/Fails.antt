-- ===== src/Store/Effects/Fails.antt =====
-- When a claim attempt fails: at what Firestore fails of it, each asked only where the attempt comes to it, and at the
-- settled history, which is read only where nothing else withholds the candidate.
use forge_wingman.Prelude.{
  ◌≡◌, ◌↔◌, refl, sym, ap, ◌∙◌, inl, inr, true, false, Option, none, some, Option-cases, Bool-cases,
}
use forge_wingman.Text.{Text, is_empty}
use forge_wingman.Time.{Time}
use forge_wingman.Dispatcher.Budget.{BudgetConfig, Reservation}
use forge_wingman.Dispatcher.Settled.{SettledHistory}
use forge_wingman.Dispatcher.Admit.{Facts, held_before_budget}
use forge_wingman.Store.Row.{Row, is_candidate, has_ended}
use forge_wingman.Store.Db.{Db, Error, not_found, Result, ok, err, err-ne-ok, Result-cases}
use forge_wingman.Store.Queue.Claim.{
  Claimed, Faults, committed, try_claim, claim_waiting, attempt_row, attempt_claim, admit_input,
  nothing_settled,
}

-- No condition ahead of the budget's ceilings withholds the candidate.
abbrev pub IsUnheld : Row → BudgetConfig → Facts → Reservation → Db → Type 0
IsUnheld row cfg facts res db =
    is_empty (held_before_budget (admit_input row db.ledger cfg facts res nothing_settled)) ≡ true

abbrev pub IsHeld : Row → BudgetConfig → Facts → Reservation → Db → Type 0
IsHeld row cfg facts res db =
    is_empty (held_before_budget (admit_input row db.ledger cfg facts res nothing_settled)) ≡ false

-- The attempt reads a row that waits for a claim and has not ended, and goes on to the ledger.
pub record Waits (f : Faults) (id : Text) (db : Db) : Type 0 where
  pub row : Row
  pub read : f.row_read ≡ none
  pub present : db.runs id ≡ some row
  pub waits : is_candidate row.state ≡ true
  pub running : has_ended row ≡ false

-- The ways in which an attempt fails with the error `e`.
pub data Fails (f : Faults) (id : Text) (cfg : BudgetConfig) (facts : Facts)
    (history : Result SettledHistory) (res : Reservation) (db : Db) (e : Error) : Type 0 where
  row_unread : f.row_read ≡ some e → Fails f id cfg facts history res db e
  -- The row has ended, and what settles it is not committed.
  ended_uncommitted :
      (row : Row)
      → f.row_read ≡ none
      → db.runs id ≡ some row
      → is_candidate row.state ≡ true
      → has_ended row ≡ true
      → f.commit ≡ some e
      → Fails f id cfg facts history res db e
  ledger_unread : Waits f id db → f.ledger_read ≡ some e → Fails f id cfg facts history res db e
  -- The candidate is withheld ahead of the ceilings, and the reason is not committed.
  held_uncommitted :
      (w : Waits f id db)
      → f.ledger_read ≡ none
      → IsHeld w.row cfg facts res db
      → f.commit ≡ some e
      → Fails f id cfg facts history res db e
  unsummed :
      (w : Waits f id db)
      → f.ledger_read ≡ none
      → IsUnheld w.row cfg facts res db
      → history ≡ err e
      → Fails f id cfg facts history res db e
  -- The candidate is decided by the ceilings, and the claim or the reason is not committed.
  decided_uncommitted :
      (w : Waits f id db) (h : SettledHistory)
      → f.ledger_read ≡ none
      → IsUnheld w.row cfg facts res db
      → history ≡ ok h
      → f.commit ≡ some e
      → Fails f id cfg facts history res db e

-- The report of an error.
abbrev failing : Error → Result (Claimed × Db)
failing e = err e

error_of : Result (Claimed × Db) → Error
error_of (err e) = e
error_of (ok reply) = not_found

same_error : (d e : Error) → failing d ≡ err e → d ≡ e
unfolding error_of
same_error d e h = ap error_of h

committed-fails :
    (c : Option Error) (a : Claimed × Db) (e : Error) → committed c (ok a) ≡ err e → c ≡ some e
unfolding committed
committed-fails none a e h = absurd (err-ne-ok e a (sym h))
committed-fails (some d) a e h = ap some (same_error d e h)

committed-err : (c : Option Error) (d e : Error) → committed c (failing d) ≡ err e → d ≡ e
unfolding committed
committed-err none d e h = same_error d e h
committed-err (some c) d e h = same_error d e h

module _ (f : Faults) (id : Text) (at : Time) (cfg : BudgetConfig) (facts : Facts)
    (history : Result SettledHistory) (res : Reservation) (db : Db) (e : Error) where
  abbrev Failing : Type 0
  Failing = Fails f id cfg facts history res db e

  waiting-Fails :
      (w : Waits f id db)
      → f.ledger_read ≡ none
      → committed f.commit (claim_waiting id w.row at cfg facts history res db) ≡ err e
      → Failing
  unfolding claim_waiting
  waiting-Fails w ledger h =
      elim (Bool-cases (
        is_empty
          (held_before_budget (admit_input w.row db.ledger cfg facts res nothing_settled)))) [
            | inr held ↦
                held_uncommitted w ledger held
                  (committed-fails f.commit _ e (rw (held, claim_waiting) at h))
            | inl unheld ↦ elim (Result-cases history) [
              | inl (d, failed) ↦
                  let same = committed-err f.commit d e (rw (unheld, failed, claim_waiting) at h) in
                  unsummed w ledger unheld (failed ∙ ap err same)
              | inr (settled, was_read) ↦
                  decided_uncommitted w settled ledger unheld was_read
                    (committed-fails f.commit _ e (rw (unheld, was_read, claim_waiting) at h))
            ]
          ]

  row-Fails :
      (row : Row)
      → f.row_read ≡ none
      → db.runs id ≡ some row
      → attempt_row f id row at cfg facts history res db ≡ err e
      → Failing
  unfolding attempt_row
  row-Fails row read present h = elim (Bool-cases (is_candidate row.state)) [
    | inr settled ↦ absurd (err-ne-ok e _ (sym (rw (settled, attempt_row) at h)))
    | inl waits ↦ elim (Bool-cases (has_ended row)) [
      | inl ended ↦
          ended_uncommitted row read present waits ended
            (committed-fails f.commit _ e (rw (waits, ended, attempt_row) at h))
      | inr running ↦ elim (Option-cases f.ledger_read) [
        | inr (d, lost) ↦
            let same = same_error d e (rw (waits, running, lost, attempt_row) at h) in
            ledger_unread
              (record {
                row = row;
                read = read;
                present = present;
                waits = waits;
                running = running;
              })
              (lost ∙ ap some same)
        | inl ledger ↦
            waiting-Fails
              (record {
                row = row;
                read = read;
                present = present;
                waits = waits;
                running = running;
              })
              ledger (rw (waits, running, ledger, attempt_row) at h)
      ]
    ]
  ]

  attempt-Fails : attempt_claim f id at cfg facts history res db ≡ err e → Failing
  unfolding attempt_claim
  attempt-Fails h = elim (Option-cases f.row_read) [
    | inr (d, lost) ↦ row_unread (lost ∙ ap some (same_error d e (rw (lost, attempt_claim) at h)))
    | inl read ↦ elim (Option-cases (db.runs id)) [
      | inl missing ↦ absurd (err-ne-ok e _ (sym (rw (read, missing, attempt_claim) at h)))
      | inr (row, present) ↦ row-Fails row read present (rw (read, present, attempt_claim) at h)
    ]
  ]

  Fails-attempt : Failing → attempt_claim f id at cfg facts history res db ≡ err e
  unfolding attempt_claim attempt_row claim_waiting committed
  Fails-attempt (row_unread lost) = rw (lost, attempt_claim) refl
  Fails-attempt (ended_uncommitted row read present waits ended lost) =
      rw (read, present, attempt_claim, waits, ended, lost, attempt_row) refl
  Fails-attempt (ledger_unread w lost) =
      rw (w.read, w.present, attempt_claim, w.waits, w.running, lost, attempt_row) refl
  Fails-attempt (held_uncommitted w ledger held lost) =
      rw (w.read, w.present, attempt_claim, w.waits, w.running, ledger, lost, held) refl
  Fails-attempt (unsummed w ledger unheld failed) =
      rw (w.read, w.present, attempt_claim, w.waits, w.running, ledger, unheld, failed)
        (committed_err f.commit)
    where
      committed_err : (c : Option Error) → committed c (failing e) ≡ err e
      committed_err none = refl
      committed_err (some d) = refl
  Fails-attempt (decided_uncommitted w h ledger unheld was_read lost) =
      rw (w.read, w.present, attempt_claim, w.waits, w.running, ledger, lost, unheld, was_read) refl

-- A claim attempt reports an error exactly where Firestore fails a step that the attempt comes to, with that error:
-- the read of the row, the read of the ledger for a row that waits and has not ended, or the commit of what is
-- written; or where the settled history cannot be read, which is asked for only if no condition ahead of the budget's
-- ceilings withholds the candidate.
pub attempt_claim-Fails_iff :
    (f : Faults) (id : Text) (at : Time) (cfg : BudgetConfig) (facts : Facts)
    (history : Result SettledHistory) (res : Reservation) (db : Db) (e : Error)
    → (attempt_claim f id at cfg facts history res db ≡ err e)
      ↔ Fails f id cfg facts history res db e
attempt_claim-Fails_iff f id at cfg facts history res db e = (
  attempt-Fails f id at cfg facts history res db e,
  Fails-attempt f id at cfg facts history res db e,
)

committed-ok :
    (c : Option Error) (r : Result (Claimed × Db)) (a : Claimed × Db)
    → committed c r ≡ ok a
    → r ≡ ok a
unfolding committed
committed-ok none r a h = h
committed-ok (some d) (ok b) a h = absurd (err-ne-ok d a h)
committed-ok (some d) (err b) a h = absurd (err-ne-ok b a h)

-- An attempt that Firestore lets through is the one of which it fails nothing, so what holds of `try_claim` holds of it.
pub attempt_claim-ok :
    (f : Faults) (id : Text) (at : Time) (cfg : BudgetConfig) (facts : Facts)
    (history : Result SettledHistory) (res : Reservation) (db : Db) (a : Claimed × Db)
    → attempt_claim f id at cfg facts history res db ≡ ok a
    → try_claim id at cfg facts history res db ≡ ok a
unfolding attempt_claim attempt_row try_claim
attempt_claim-ok f id at cfg facts history res db a h = elim (Option-cases f.row_read) [
  | inr (d, lost) ↦ absurd (err-ne-ok d a (rw (lost, attempt_claim) at h))
  | inl read ↦ elim (Option-cases (db.runs id)) [
    | inl missing ↦ rw (missing, try_claim) (rw (read, missing, attempt_claim) at h)
    | inr (row, present) ↦ elim (Bool-cases (is_candidate row.state)) [
      | inr settled ↦
          rw (present, settled, try_claim)
            (rw (read, present, attempt_claim, settled, attempt_row) at h)
      | inl waits ↦ elim (Bool-cases (has_ended row)) [
        | inl ended ↦
            rw (present, waits, ended, try_claim)
              (committed-ok f.commit _ a
                (rw (read, present, attempt_claim, waits, ended, attempt_row) at h))
        | inr running ↦ elim (Option-cases f.ledger_read) [
          | inr (d, lost) ↦ absurd (
              err-ne-ok d a
                (rw (read, present, attempt_claim, waits, running, lost, attempt_row) at h))
          | inl ledger ↦
              rw (present, waits, running, try_claim)
                (committed-ok f.commit _ a
                  (rw (read, present, attempt_claim, waits, running, ledger, attempt_row) at h))
        ]
      ]
    ]
  ]
]

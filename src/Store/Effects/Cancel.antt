-- ===== src/Store/Effects/Cancel.antt =====
-- What a recorded cancel refuses while the row keeps its mark.
use forge_wingman.Prelude.{
  true, false, not, none, some, ◌≡◌, ◌≢◌, inl, inr, refl, sym, ap, ◌∙◌, arith, Option-cases,
  Bool-cases, ◌||◌,
}
use forge_wingman.Text.{Text}
use forge_wingman.Time.{Time, is_zero}
use forge_wingman.Store.Row.{Row, merged_row, cancelled_row}
use forge_wingman.Store.Db.{Db, Error, ok, err, put_run, ok-injective, err-ne-ok, run_cancelled}
use forge_wingman.Store.Retry.{
  RetryRequest, retry_with_note, retry_refusal, decide_retry, retry_result, retry_options,
  valid_note,
}
use forge_wingman.Store.Queue.Requeue.{requeue}
use forge_wingman.Store.Decisions.{is_blank}
use forge_wingman.Store.Inbox.{
  record_cancel, cancel_refusal, cancelled_by_owner, stopped_run, is_pr_opened,
}
use forge_wingman.Store.Trace.{left}
use forge_wingman.Store.Effects.Claim.{update_self}

-- A run that the owner cancelled: unmerged and uncancelled before, and marked after.
pub record Cancelled (id : Text) (by : Text) (at : Time) (db after : Db) : Type 0 where
  pub old : Row
  pub was : db.runs id ≡ some old
  pub unmerged : merged_row old ≡ false
  pub uncancelled : cancelled_row old ≡ false
  pub waited : (is_pr_opened old.outcome || stopped_run old) ≡ true
  pub left_row : after ≡ put_run id (cancelled_by_owner by at old) db

-- The run's row carries the mark of a cancel and none of a merge.
pub record Marked (id : Text) (db : Db) : Type 0 where
  pub row : Row
  pub present : db.runs id ≡ some row
  pub unmerged : merged_row row ≡ false
  pub marked : cancelled_row row ≡ true

refusal_facts :
    (row : Row)
    → cancel_refusal row ≡ none
    → (merged_row row ≡ false)
      × (cancelled_row row ≡ false)
      × ((is_pr_opened row.outcome || stopped_run row) ≡ true)
unfolding cancel_refusal
refusal_facts row h = ground arith

record_cancel-Cancelled :
    (id by : Text) (at : Time) (db after : Db)
    → record_cancel id by at db ≡ ok after
    → Cancelled id by at db after
unfolding record_cancel
record_cancel-Cancelled id by at db after h = elim (Option-cases (db.runs id)) [
  | inl missing ↦ absurd (err-ne-ok _ after (rw (missing, record_cancel) at h))
  | inr (row, present) ↦ elim (Option-cases (cancel_refusal row)) [
    | inr (e, refused) ↦ absurd (err-ne-ok e after (rw (present, refused, record_cancel) at h))
    | inl allowed ↦
        let (a, b, c) = refusal_facts row allowed in
        record {
          old = row;
          was = present;
          unmerged = a;
          uncancelled = b;
          waited = c;
          left_row = sym (ok-injective _ after (rw (present, allowed, record_cancel) at h));
        }
  ]
]

cancelled-row :
    (by : Text) (at : Time) (row : Row)
    → is_zero at ≡ false
    → cancelled_row (cancelled_by_owner by at row) ≡ true
unfolding cancelled_row cancelled_by_owner
cancelled-row by at row h = rw h refl

merged_row-cancelled :
    (by : Text) (at : Time) (row : Row) → merged_row (cancelled_by_owner by at row) ≡ merged_row row
unfolding merged_row cancelled_by_owner
merged_row-cancelled by at row = refl

cancel_refused :
    (row : Row)
    → merged_row row ≡ false
    → cancelled_row row ≡ true
    → cancel_refusal row ≡ some run_cancelled
unfolding cancel_refusal
cancel_refused row m c = rw (m, c) refl

retry_refused :
    (req : RetryRequest) (row : Row) → cancelled_row row ≡ true → retry_refusal req row ≢ none
unfolding retry_refusal
retry_refused req row c allowed = ground arith

err_left :
    (req : RetryRequest) (db : Db) (e : Error)
    → left (λ r. r.1) db (retry_result req db (err e)) ≡ db
unfolding retry_result
err_left req db e = ground arith

requeue_refused :
    (id : Text) (req : RetryRequest) (at : Time) (db : Db) (row : Row)
    → db.runs id ≡ some row
    → cancelled_row row ≡ true
    → (e : Error) × (requeue id at retry_options (decide_retry req) db ≡ err e)
unfolding requeue decide_retry
requeue_refused id req at db row present c = elim (Option-cases (retry_refusal req row)) [
  | inl allowed ↦ absurd (retry_refused req row c allowed)
  | inr (e, refused) ↦
      let decided : decide_retry req row ≡ err e = rw (refused, decide_retry) refl in
      (e, rw (present, requeue, decided) refl)
]

no_retry :
    (id : Text) (req : RetryRequest) (at : Time) (db : Db) (row : Row)
    → db.runs id ≡ some row
    → cancelled_row row ≡ true
    → left (λ r. r.1) db (retry_with_note id req at db) ≡ db
unfolding retry_with_note
no_retry id req at db row present c =
    let (e, refused) = requeue_refused id req at db row present c in
    elim (Bool-cases (is_blank req.note || not (valid_note req.note))) [
      | inl bad ↦ rw (bad, retry_with_note) refl
      | inr good ↦ elim (Bool-cases (is_blank req.actor)) [
        | inl bad ↦ rw (good, bad, retry_with_note) refl
        | inr named ↦ rw (good, named, refused, retry_with_note) (err_left req db e)
      ]
    ]

second_refused :
    (id by : Text) (at : Time) (db : Db)
    → Marked id db
    → record_cancel id by at db ≡ err run_cancelled
unfolding record_cancel
second_refused id by at db m =
    rw (m.present, record_cancel, cancel_refused m.row m.unmerged m.marked) refl

-- A recorded cancel, at a time that is not zero, was of a run that waited for the owner and was neither merged nor
-- cancelled, and leaves its row marked. In every state in which the row is still marked and unmerged, the one that
-- the cancel leaves included, a further cancel is refused and a retry with a note changes nothing.
pub record_cancel-once :
    (id by by' : Text) (at at' later : Time) (req : RetryRequest) (db after db' : Db)
    → is_zero at ≡ false
    → record_cancel id by at db ≡ ok after
    → Marked id db'
    → Cancelled id by at db after
      × Marked id after
      × (record_cancel id by' at' db' ≡ err run_cancelled)
      × (left (λ r. r.1) db' (retry_with_note id req later db') ≡ db')
unfolding put_run
record_cancel-once id by by' at at' later req db after db' real h kept =
    let made = record_cancel-Cancelled id by at db after h in
    let row = cancelled_by_owner by at made.old in
    (
      made,
      record {
        row = row;
        present = ap (λ d. d.runs id) made.left_row ∙ update_self db.runs id (some row);
        unmerged = merged_row-cancelled by at made.old ∙ made.unmerged;
        marked = cancelled-row by at made.old real;
      },
      second_refused id by' at' db' kept,
      no_retry id req later db' kept.row kept.present kept.marked,
    )

-- ===== src/Store/Effects/Requeue/Retry.antt =====
-- The owner's retry of a run with a note.
use mathlib.Core.Path.{subst}
use mathlib.Core.Bool.{false≢true}
use forge_wingman.Prelude.{
  ◌+◌, ◌≡◌, refl, sym, ap, ◌∙◌, inl, inr, true, false, not, ◌||◌, none, some, arith, Option-cases,
  Bool-cases,
}
use forge_wingman.Text.{Text, text_eq_self}
use forge_wingman.Time.{Time}
use forge_wingman.Store.Row.{Row, RunState, queued, has_ended}
use forge_wingman.Store.Db.{
  Result-cases, ok-injective, err-ne-ok, Db, Error, note_invalid, actor_missing, retry_applied, ok,
  err, put_run, put_ledger,
}
use forge_wingman.Store.Queue.Requeue.{
  requeue_state, requeued_row, noted, RequeueOptions, RequeueResult, Decide, requeue,
}
use forge_wingman.Store.Retry.{
  RetryRequest, RetryResult, valid_note, retry_options, retry_refusal, retried_row, decide_retry,
  retry_result, retry_with_note,
}
use forge_wingman.Store.Decisions.{is_blank}
use forge_wingman.Store.Decisions.Provisional.{supersede_updates}
use forge_wingman.Store.Effects.Requeue.{
  IsRequeueable, IsExtra, requeue_state-ok, requeued, requeue-inverted, requeued-row,
}

retried_row-IsExtra : (req : RetryRequest) (old : Row) → IsExtra (retried_row req old)
unfolding retried_row supersede_updates has_ended
retried_row-IsExtra req old = record {
  state = λ row. refl;
  attempt = λ row. refl;
  ended = λ row. refl;
}

retry-decided :
    (req : RetryRequest) (old : Row) (s : RunState) (extra : Row → Row)
    → decide_retry req old ≡ ok (s, extra)
    → (t : RunState) × (retry_refusal req old ≡ none)
      × (requeue_state old ≡ ok t)
      × (queued ≡ s)
      × (retried_row req old ≡ extra)
unfolding decide_retry
retry-decided req old s extra h = elim (Option-cases (retry_refusal req old)) [
  | inr (e, refused) ↦ absurd (err-ne-ok e (s, extra) (rw (refused, decide_retry) at h))
  | inl free ↦ elim (Result-cases (requeue_state old)) [
    | inl (e, refused) ↦ absurd (err-ne-ok e (s, extra) (rw (free, refused, decide_retry) at h))
    | inr (t, given) ↦
        let same =
          ok-injective (queued, retried_row req old) (s, extra)
            (rw (free, given, decide_retry) at h) in
        (t, free, given, ap (λ p. p.0) same, ap (λ p. p.1) same)
  ]
]

unrefused-attempt :
    (req : RetryRequest) (old : Row)
    → retry_refusal req old ≡ none
    → old.attempt ≡ req.expected_attempt
unfolding retry_refusal
unrefused-attempt req old h = ground arith

repeated-refusal :
    (req : RetryRequest) (row : Row)
    → row.attempt ≡ req.expected_attempt + 1
    → row.operator_note ≡ req.note
    → row.retried_by ≡ req.actor
    → retry_refusal req row ≡ some retry_applied
unfolding retry_refusal
repeated-refusal req row a n b = ground (arith, text_eq_self req.note, text_eq_self req.actor)

retry_result-err :
    (req : RetryRequest) (db : Db) (e : Error) (r : RetryResult) (db' : Db)
    → retry_result req db (err e) ≡ ok (r, db')
    → r.already ≡ true
unfolding retry_result
retry_result-err req db e r db' h = ground arith

-- What the owner's retry leaves.
pub record Retried (id : Text) (req : RetryRequest) (at : Time) (db db' : Db) : Type 0 where
  pub old : Row
  pub row : Row
  pub was : db.runs id ≡ some old
  pub seen : old.attempt ≡ req.expected_attempt
  pub allowed : IsRequeueable old
  pub present : db'.runs id ≡ some row
  pub in_state : row.state ≡ queued
  pub bumped : row.attempt ≡ req.expected_attempt + 1
  pub noted_by : (row.operator_note ≡ req.note) × (row.retried_by ≡ req.actor)
  pub kept :
      db'.archive id old.attempt
      ≡ some (record { row = old; superseded_by_attempt = old.attempt + 1; archived_at = at })

archived-attempt :
    (id : Text) (at : Time) (req : RetryRequest) (old : Row) (s : RunState) (extra : Row → Row)
    (db : Db)
    → (requeued id at retry_options old s extra db).1.archive id old.attempt
      ≡ some (record { row = old; superseded_by_attempt = old.attempt + 1; archived_at = at })
unfolding put_run put_ledger
archived-attempt id at req old s extra db = ground (arith, text_eq_self id)

requeued-Retried :
    (id : Text) (req : RetryRequest) (at : Time) (db : Db) (r : RequeueResult) (db' : Db)
    → requeue id at retry_options (decide_retry req) db ≡ ok (r, db')
    → Retried id req at db db'
unfolding retried_row supersede_updates requeued_row
requeued-Retried id req at db r db' h =
    let (old, s, extra, present, d, same) =
      requeue-inverted id at retry_options (decide_retry req) db r db' h in
    let (t, free, given, is_queued, is_extra) = retry-decided req old s extra d in
    let fresh = noted true (requeued_row old s at) in
    record {
      old = old;
      row = extra (noted true (requeued_row old s at));
      was = present;
      seen = unrefused-attempt req old free;
      allowed = (requeue_state-ok old t given).0;
      present = ap (λ p. p.1.runs id) (sym same) ∙ requeued-row id at retry_options old s extra db;
      in_state =
          ap (λ f. (f (noted true (requeued_row old s at))).state) (sym is_extra) ∙ sym is_queued;
      bumped =
          ap (λ f. (f (noted true (requeued_row old s at))).attempt) (sym is_extra)
          ∙ ap (λ n. n + 1) (unrefused-attempt req old free);
      noted_by = (
        ap (λ f. (f (noted true (requeued_row old s at))).operator_note) (sym is_extra),
        ap (λ f. (f (noted true (requeued_row old s at))).retried_by) (sym is_extra),
      );
      kept =
          ap (λ p. p.1.archive id old.attempt) (sym same)
          ∙ archived-attempt id at req old s extra db;
    }

decide_retry-repeated :
    (req : RetryRequest) (row : Row)
    → retry_refusal req row ≡ some retry_applied
    → decide_retry req row ≡ err retry_applied
unfolding decide_retry
decide_retry-repeated req row h = rw (h, decide_retry) refl

requeue-refused :
    (id : Text) (at : Time) (opts : RequeueOptions) (decide : Decide) (row : Row) (e : Error)
    (db : Db)
    → db.runs id ≡ some row
    → decide row ≡ err e
    → requeue id at opts decide db ≡ err e
unfolding requeue
requeue-refused id at opts decide row e db present d = rw (present, d, requeue) refl

-- The owner's retry that moves a run does so once. It found the run on the attempt that the owner saw,
-- ended, stopped or abandoned; it leaves the run queued as the next attempt under the owner's note and
-- name, with the attempt that ended archived as its row was; and the same request sent again reports the
-- retry as applied and changes nothing.
pub retry_with_note-once :
    (id : Text) (req : RetryRequest) (at later : Time) (db : Db) (r : RetryResult) (db' : Db)
    → retry_with_note id req at db ≡ ok (r, db')
    → r.already ≡ false
    → Retried id req at db db'
      × (retry_with_note id req later db'
          ≡ ok (record { attempt = req.expected_attempt + 1; already = true }, db'))
unfolding retry_with_note retry_result
retry_with_note-once id req at later db r db' h first =
    elim (Bool-cases (is_blank req.note || not (valid_note req.note))) [
      | inl bad ↦ absurd (err-ne-ok note_invalid (r, db') (rw (bad, retry_with_note) at h))
      | inr fine ↦ elim (Bool-cases (is_blank req.actor)) [
        | inl blank ↦
            absurd (err-ne-ok actor_missing (r, db') (rw (fine, blank, retry_with_note) at h))
        | inr signed ↦
            let through = rw (fine, signed, retry_with_note) at h in
            elim (Result-cases (requeue id at retry_options (decide_retry req) db)) [
              | inl (e, refused) ↦
                  absurd (
                    false≢true
                      (sym first ∙ retry_result-err req db e r db' (rw refused at through)))
              | inr ((q, d), moved) ↦
                  let same =
                    ok-injective (record { attempt = q.attempt; already = false }, d) (r, db')
                      (rw moved at through) in
                  let done : Retried id req at db db' =
                    subst (Retried id req at db) (ap (λ p. p.1) same)
                      (requeued-Retried id req at db q d moved) in
                  (
                    done,
                    rw (fine, signed, retry_with_note)
                        (ap (retry_result req db') (
                          requeue-refused id later retry_options (decide_retry req) done.row
                            retry_applied db' done.present
                            (decide_retry-repeated req done.row (
                              repeated-refusal req done.row done.bumped done.noted_by.0
                                done.noted_by.1)))),
                  )
            ]
      ]
    ]

-- ===== src/Store/Trace/Steps.antt =====
-- The queue's single transactions keep the books balanced: those on fields of a row, and the rest that
-- no other module has.
use forge_wingman.Prelude.{
  ℕ, ◌≡◌, refl, inl, inr, Bool, true, false, not, Option, none, some, List, [], ◌∷◌, ◌||◌, arith,
  Option-cases, Bool-cases, if◌then◌else◌,
}
use forge_wingman.Text.{Text}
use forge_wingman.Time.{Time}
use forge_wingman.Store.Row.{Row, is_candidate, is_queued}
use forge_wingman.Store.Db.{Db, Result, ok, err, put_run}
use forge_wingman.Store.Queue.Enqueue.{
  Queued, record_ticket_state, update_queued_priority, same_rank, stamp, stamp_queued_at,
  queued_at_source,
}
use forge_wingman.Store.Queue.Refresh.{
  refresh_queued_ticket, refreshed_row, changed_fields, write, no_files,
}
use forge_wingman.Store.Decisions.{is_blank, posted_at_row, with_entry}
use forge_wingman.Store.Decisions.Provisional.{
  reply, replied_row, posted_provisional_row, confirmed_row, cleared_row,
}
use forge_wingman.Store.Accounting.Operations.{
  Balanced, Keeps, ok-Keeps, err-Keeps, row_kept-Balanced,
}
use forge_wingman.Store.Accounting.Waits.{IsHarmless, update_row-Balanced}
use forge_wingman.Store.Holds.{record_hold, held_row}
use forge_wingman.Store.Inbox.{record_cancel, record_merge, cancel_refusal, cancelled_by_owner}
use forge_wingman.Store.Trace.{left}

pub left-Balanced {ℓ} :
    {A : Type ℓ} (f : A → Db) (db : Db) (r : Result A)
    → Balanced db
    → Keeps f r
    → Balanced (left f db r)
unfolding Keeps
left-Balanced f db (ok a) bal keeps = keeps
left-Balanced f db (err e) bal keeps = bal

pub posted-IsHarmless : (session : Text) (at : Time) → IsHarmless (posted_at_row session at)
unfolding posted_at_row with_entry
posted-IsHarmless session at row row' h = ground arith

pub replied-IsHarmless :
    (session text : Text) (at : Time) → IsHarmless (replied_row session text at)
unfolding replied_row with_entry
replied-IsHarmless session text at row row' h = ground arith

pub posted_provisional-IsHarmless :
    (session : Text) (at : Time) → IsHarmless (posted_provisional_row session at)
unfolding posted_provisional_row with_entry
posted_provisional-IsHarmless session at row row' h = ground arith

pub confirmed-IsHarmless :
    (index : ℕ) (replied at : Time) → IsHarmless (confirmed_row index replied at)
unfolding confirmed_row with_entry
confirmed-IsHarmless index replied at row row' h = ground arith

pub cleared-IsHarmless : (replied : Time) → IsHarmless (cleared_row replied)
unfolding cleared_row
cleared-IsHarmless replied row row' h = ground arith

-- A change of a row beside its state and its attempt.
pub kept_write-Balanced :
    (db : Db) (id : Text) (row row' : Row) (write : Bool)
    → Balanced db
    → db.runs id ≡ some row
    → row'.state ≡ row.state
    → row'.attempt ≡ row.attempt
    → Balanced (if write then put_run id row' db else db)
kept_write-Balanced db id row row' true bal at s a = row_kept-Balanced db id row row' bal at s a
kept_write-Balanced db id row row' false bal at s a = bal

pub ticket_state-Balanced :
    (id state : Text) (db : Db) → Balanced db → Keeps (λ d. d) (record_ticket_state id state db)
unfolding record_ticket_state
ticket_state-Balanced id state db bal = elim (Option-cases (db.runs id)) [
  | inl missing ↦ rw (missing, record_ticket_state) (err-Keeps _ _)
  | inr (row, present) ↦
      rw (present, record_ticket_state)
        (ok-Keeps _ _
          (row_kept-Balanced db id row (record row { ticket_state = state }) bal present refl refl))
]

pub cancel-Balanced :
    (id by : Text) (at : Time) (db : Db) → Balanced db → Keeps (λ d. d) (record_cancel id by at db)
unfolding record_cancel cancelled_by_owner
cancel-Balanced id by at db bal = elim (Option-cases (db.runs id)) [
  | inl missing ↦ rw (missing, record_cancel) (err-Keeps _ _)
  | inr (row, present) ↦ elim (Option-cases (cancel_refusal row)) [
    | inl allowed ↦
        rw (present, allowed, record_cancel)
          (ok-Keeps _ _
            (row_kept-Balanced db id row (cancelled_by_owner by at row) bal present refl refl))
    | inr (e, refused) ↦ rw (present, refused, record_cancel) (err-Keeps _ _)
  ]
]

pub merge-Balanced :
    (id sha : Text) (at : Time) (db : Db) → Balanced db → Keeps (λ d. d) (record_merge id sha at db)
unfolding record_merge
merge-Balanced id sha at db bal = elim (Option-cases (db.runs id)) [
  | inl missing ↦ rw (missing, record_merge) (err-Keeps _ _)
  | inr (row, present) ↦
      rw (present, record_merge)
        (ok-Keeps _ _ (
          row_kept-Balanced db id row (record row { merged_by_owner_at = at; merged_sha = sha }) bal
            present refl refl))
]

pub priority-Balanced :
    (id : Text) (rank : ℕ) (db : Db) → Balanced db → Balanced (update_queued_priority id rank db).1
unfolding update_queued_priority
priority-Balanced id rank db bal = elim (Option-cases (db.runs id)) [
  | inl missing ↦ rw (missing, update_queued_priority) bal
  | inr (row, present) ↦
      let moved =
        row_kept-Balanced db id row (record row { linear_priority = some rank }) bal present refl
          refl in
      elim (Bool-cases (is_candidate row.state)) [
        | inr other ↦ rw (present, other, update_queued_priority) bal
        | inl c ↦ elim (Bool-cases (same_rank row.linear_priority rank)) [
          | inl same ↦ rw (present, c, same, update_queued_priority) bal
          | inr new ↦ rw (present, c, new, update_queued_priority) moved
        ]
      ]
]

pub stamped-Balanced :
    (id : Text) (row : Row) (has at : Option Time) (dry : Bool) (db : Db)
    → Balanced db
    → db.runs id ≡ some row
    → Balanced (stamp id row has at dry db).1
unfolding stamp
stamped-Balanced id row (some t) at dry db bal present = bal
stamped-Balanced id row none none dry db bal present = bal
stamped-Balanced id row none (some t) true db bal present =
    elim (Bool-cases (is_candidate row.state)) [
      | inl c ↦ rw (c, stamp) bal
      | inr other ↦ rw (other, stamp) bal
    ]
stamped-Balanced id row none (some t) false db bal present =
    elim (Bool-cases (is_candidate row.state)) [
      | inl c ↦
          rw (c, stamp)
            (row_kept-Balanced db id row (record row { queued_at = some t }) bal present refl refl)
      | inr other ↦ rw (other, stamp) bal
    ]

pub stamp-Balanced :
    (id : Text) (dry : Bool) (db : Db) → Balanced db → Balanced (stamp_queued_at id dry db).1
unfolding stamp_queued_at
stamp-Balanced id dry db bal = elim (Option-cases (db.runs id)) [
  | inl missing ↦ rw (missing, stamp_queued_at) bal
  | inr (row, present) ↦
      rw (present, stamp_queued_at)
        (stamped-Balanced id row row.queued_at (queued_at_source row) dry db bal present)
]

pub written-Balanced :
    (q : Queued) (row : Row) (changed : List Text) (db : Db)
    → Balanced db
    → db.runs q.run_id ≡ some row
    → Balanced (write q db changed row).1
unfolding write refreshed_row
written-Balanced q row [] db bal present = bal
written-Balanced q row (f ∷ fs) db bal present =
    row_kept-Balanced db q.run_id row (refreshed_row q row) bal present refl refl

pub refresh-Balanced :
    (q : Queued) (db : Db) → Balanced db → Balanced (refresh_queued_ticket q db).1
unfolding refresh_queued_ticket
refresh-Balanced q db bal = elim (Option-cases (db.runs q.run_id)) [
  | inl missing ↦ rw (missing, refresh_queued_ticket) bal
  | inr (row, present) ↦
      elim (Bool-cases (not (is_queued row.state) || not (no_files row.plan_files))) [
        | inl other ↦ rw (present, other, refresh_queued_ticket) bal
        | inr waits ↦
            rw (present, waits, refresh_queued_ticket)
              (written-Balanced q row (changed_fields q row) db bal present)
      ]
]

pub reply-Balanced :
    (id session text : Text) (at : Time) (db : Db)
    → Balanced db
    → Balanced (reply id session text at db).1
unfolding reply
reply-Balanced id session text at db bal = elim (Bool-cases (is_blank text)) [
  | inl blank ↦ rw (blank, reply) bal
  | inr said ↦
      rw (said, reply)
        (update_row-Balanced id (replied_row session text at) db
          (replied-IsHarmless session text at) bal)
]

pub hold-Balanced :
    (id reason day : Text) (at : Time) (db : Db)
    → Balanced db
    → Balanced (record_hold id reason day at db)
unfolding record_hold held_row
hold-Balanced id reason day at db bal = elim (Option-cases (db.runs id)) [
  | inl missing ↦ rw (missing, record_hold) bal
  | inr (row, present) ↦
      rw (present, record_hold)
        (row_kept-Balanced db id row (held_row reason day at row) bal present refl refl)
]

-- ===== src/Store/Effects/Requeue.antt =====
-- What a requeue refuses, and the run that it returns to the queue.
pub mod Operator
pub mod Automatic
pub mod Retry
use mathlib.Core.Option.{some-injective, none-ne-some}
use mathlib.Core.Path.{subst}
use forge_wingman.Prelude.{
  ℕ, ◌+◌, ◌≤◌, ◌<◌, ◌≡◌, ◌≢◌, refl, sym, ap, ◌∙◌, ◌⊎◌, ◌↔◌, inl, inr, Bool, true, false, not, ◌&&◌,
  Option, none, some, List, [], ◌∷◌, ◌++◌, arith, Option-cases, Bool-cases, if◌then◌else◌, length,
  length-append, ltb, leb,
}
use forge_wingman.Text.{Text, text_eq, text_eq_iff, text_eq_self}
use forge_wingman.Time.{Time}
use forge_wingman.GoMap.{lookup}
use forge_wingman.Runner.{TransientClass}
use forge_wingman.Store.Row.{
  Row, RunState, queued, planned, claimed, waiting, stopped, abandoned, other, has_ended,
  plan_stamped, is_candidate, is_abandoned,
}
use forge_wingman.Store.Ledger.{drop_reservations}
use forge_wingman.Store.Db.{
  Result-cases, ok-injective, err-ne-ok, Db, Error, Result, ok, err, or_err, not_found, ◌>>=◌,
  update, put_run, put_ledger,
}
use forge_wingman.Store.Queue.Requeue.{
  unchanged, clear_note, refusal, requeue_state, returned_state, requeued_row, noted, archived,
  RequeueOptions, RequeueResult, Decide, requeue, plain, automatic, decide_operator,
  requeue_operator, decide_conflict, requeue_after_conflict, decide_transient, requeue_transient,
  holds_files,
}
use forge_wingman.Store.Accounting.{IsFree, drop-IsFree, update-other}
use forge_wingman.Store.Effects.Claim.{update_self}
use forge_wingman.Store.Accounting.Operations.{Balanced}

-- The row may be put back to run: it is no wait, and it ended, was stopped or was abandoned.
pub data IsRequeueable (row : Row) : Type 0 where
  by_end :
      has_ended row ≡ true
      → (row.state ≡ queued) ⊎ (row.state ≡ planned) ⊎ (row.state ≡ claimed)
      → IsRequeueable row
  by_stop : (row.state ≡ stopped) ⊎ (row.state ≡ abandoned) → IsRequeueable row

abbrev AcceptedState : (s : RunState) → (ended : Bool) → Type 0
AcceptedState queued ended = ended ≡ true
AcceptedState planned ended = ended ≡ true
AcceptedState claimed ended = ended ≡ true
AcceptedState waiting ended = ⊥
AcceptedState stopped ended = Unit
AcceptedState abandoned ended = Unit
AcceptedState (other s) ended = ⊥

refusal-accepted : (s : RunState) (ended : Bool) → refusal s ended ≡ none → AcceptedState s ended
unfolding refusal
refusal-accepted s ended h = ground arith

requeueable :
    (row : Row) (s : RunState) → row.state ≡ s → AcceptedState s (has_ended row) → IsRequeueable row
requeueable row queued p a = by_end a (inl p)
requeueable row planned p a = by_end a (inr (inl p))
requeueable row claimed p a = by_end a (inr (inr p))
requeueable row stopped p a = by_stop (inl p)
requeueable row abandoned p a = by_stop (inr p)
requeueable row waiting p a = absurd a
requeueable row (other s) p a = absurd a

-- A state that requeueState gives is that of a row that may be put back: planned exactly when the row
-- holds a plan that settled, and queued otherwise.
pub requeue_state-ok :
    (row : Row) (s : RunState)
    → requeue_state row ≡ ok s
    → IsRequeueable row × (s ≡ returned_state row)
unfolding requeue_state
requeue_state-ok row s h = elim (Option-cases (refusal row.state (has_ended row))) [
  | inl open_to ↦ (
    requeueable row row.state refl (refusal-accepted row.state (has_ended row) open_to),
    ok-injective s (returned_state row) (sym h ∙ rw (open_to, requeue_state) refl),
  )
  | inr (e, shut) ↦ absurd (err-ne-ok e s (rw (shut, requeue_state) at h))
]

-- The run as a requeue put it back.
pub record Returned (id : Text) (db : Db) (r : RequeueResult) (db' : Db) : Type 0 where
  pub old : Row
  pub was : db.runs id ≡ some old
  pub allowed : IsRequeueable old
  pub row : Row
  pub present : db'.runs id ≡ some row
  pub in_state : row.state ≡ r.state
  pub dispatchable : is_candidate row.state ≡ true
  pub running : has_ended row ≡ false
  pub bumped : row.attempt ≡ old.attempt + 1
  pub reported : r.attempt ≡ row.attempt
  pub unbooked : IsFree db'.ledger.reservations id
  pub others : (j : Text) → j ≢ id → db'.runs j ≡ db.runs j

-- An extra update that leaves alone what every requeue writes of a run's state.
pub record IsExtra (extra : Row → Row) : Type 0 where
  pub state : (row : Row) → (extra row).state ≡ row.state
  pub attempt : (row : Row) → (extra row).attempt ≡ row.attempt
  pub ended : (row : Row) → has_ended (extra row) ≡ has_ended row

pub noted_fresh :
    (keep : Bool) (old : Row) (s : RunState) (at : Time)
    → ((noted keep (requeued_row old s at)).state ≡ s)
      × ((noted keep (requeued_row old s at)).attempt ≡ old.attempt + 1)
      × (has_ended (noted keep (requeued_row old s at)) ≡ false)
unfolding requeued_row clear_note has_ended
noted_fresh true old s at = (refl, refl, refl)
noted_fresh false old s at = (refl, refl, refl)

archived_runs :
    (archive : Bool) (id : Text) (row : Row) (at : Time) (db : Db)
    → (archived archive id row at db).runs ≡ db.runs
archived_runs true id row at db = refl
archived_runs false id row at db = refl

pub returned_candidate : (row : Row) → is_candidate (returned_state row) ≡ true
unfolding is_candidate returned_state
returned_candidate row = ground arith

abbrev pub requeued_db : Text → Time → RequeueOptions → Row → RunState → (Row → Row) → Db → Db
requeued_db id at opts old s extra db =
    put_run id (extra (noted opts.keep_note (requeued_row old s at)))
      (put_ledger (drop_reservations db.ledger id old.attempt) (archived opts.archive id old at db))

requeued-Returned :
    (id : Text) (at : Time) (opts : RequeueOptions) (old : Row) (s : RunState) (extra : Row → Row)
    (db : Db)
    → Balanced db
    → db.runs id ≡ some old
    → IsRequeueable old
    → is_candidate s ≡ true
    → IsExtra extra
    → Returned id db
        (record { state = s; attempt = old.attempt + 1; ticket_state = old.ticket_state })
        (requeued_db id at opts old s extra db)
unfolding put_run put_ledger drop_reservations
requeued-Returned id at opts old s extra db bal present allowed c x =
    let fresh = noted_fresh opts.keep_note old s at in
    let row = noted opts.keep_note (requeued_row old s at) in
    let state : (extra row).state ≡ s = x.state row ∙ fresh.0 in
    let attempt : (extra row).attempt ≡ old.attempt + 1 = x.attempt row ∙ fresh.1 in
    record {
      old = old;
      was = present;
      allowed = allowed;
      row = extra row;
      present = update_self (archived opts.archive id old at db).runs id _;
      in_state = state;
      dispatchable = ap is_candidate state ∙ c;
      running = x.ended row ∙ fresh.2;
      bumped = attempt;
      reported = sym attempt;
      unbooked = drop-IsFree db.runs db.ledger.reservations id old bal present;
      others = λ j n.
          update-other (archived opts.archive id old at db).runs id j _ n
          ∙ ap (λ f. f j) (archived_runs opts.archive id old at db);
    }

abbrev pub requeued :
    Text → Time → RequeueOptions → Row → RunState → (Row → Row) → Db → RequeueResult × Db
requeued id at opts old s extra db = (
  record { state = s; attempt = old.attempt + 1; ticket_state = old.ticket_state },
  requeued_db id at opts old s extra db,
)

pub requeue-decided :
    (id : Text) (at : Time) (opts : RequeueOptions) (decide : Decide) (old : Row) (s : RunState)
    (extra : Row → Row) (db : Db)
    → db.runs id ≡ some old
    → decide old ≡ ok (s, extra)
    → requeue id at opts decide db
      ≡ ok (
        record { state = s; attempt = old.attempt + 1; ticket_state = old.ticket_state },
        requeued_db id at opts old s extra db,
      )
unfolding requeue
requeue-decided id at opts decide old s extra db present d = rw (present, d, requeue) refl

-- A decision that puts back only rows that may be, with extra updates that leave the rest alone.
pub record IsCareful (decide : Decide) : Type 0 where
  pub only :
      (old : Row) (s : RunState) (extra : Row → Row)
      → decide old ≡ ok (s, extra)
      → IsRequeueable old × (is_candidate s ≡ true) × IsExtra extra

pub requeue-inverted :
    (id : Text) (at : Time) (opts : RequeueOptions) (decide : Decide) (db : Db) (r : RequeueResult)
    (db' : Db)
    → requeue id at opts decide db ≡ ok (r, db')
    → (old : Row) × (s : RunState) × (extra : Row → Row) × (db.runs id ≡ some old)
      × (decide old ≡ ok (s, extra))
      × (requeued id at opts old s extra db ≡ (r, db'))
unfolding requeue
requeue-inverted id at opts decide db r db' h = elim (Option-cases (db.runs id)) [
  | inl missing ↦ absurd (err-ne-ok not_found (r, db') (rw (missing, requeue) at h))
  | inr (old, present) ↦ elim (Result-cases (decide old)) [
    | inl (e, refused) ↦ absurd (err-ne-ok e (r, db') (rw (present, refused, requeue) at h))
    | inr ((s, extra), d) ↦ (
      old,
      s,
      extra,
      present,
      d,
      ok-injective (requeued id at opts old s extra db) (r, db')
          (sym (requeue-decided id at opts decide old s extra db present d) ∙ h),
    )
  ]
]

pub requeue-Returned :
    (id : Text) (at : Time) (opts : RequeueOptions) (decide : Decide) (db : Db) (r : RequeueResult)
    (db' : Db)
    → IsCareful decide
    → Balanced db
    → requeue id at opts decide db ≡ ok (r, db')
    → Returned id db r db'
requeue-Returned id at opts decide db r db' careful bal h =
    let (old, s, extra, present, d, same) = requeue-inverted id at opts decide db r db' h in
    let (allowed, c, x) = careful.only old s extra d in
    subst (λ p. Returned id db p.0 p.1) same
      (requeued-Returned id at opts old s extra db bal present allowed c x)

pub requeued-row :
    (id : Text) (at : Time) (opts : RequeueOptions) (old : Row) (s : RunState) (extra : Row → Row)
    (db : Db)
    → (requeued id at opts old s extra db).1.runs id
      ≡ some (extra (noted opts.keep_note (requeued_row old s at)))
unfolding put_run put_ledger
requeued-row id at opts old s extra db = update_self (archived opts.archive id old at db).runs id _

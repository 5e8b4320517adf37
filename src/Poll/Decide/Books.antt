-- ===== src/Poll/Decide/Books.antt =====
-- A poll's decisions keep the books: what its listing finds waiting is claimed by no poll.
use mathlib.Core.Path.{subst}
use mathlib.Core.Option.{none-ne-some, some-injective}
use forge_wingman.Prelude.{
  ◌≡◌, ◌≢◌, ◌≤◌, sym, ap, ◌∙◌, inl, inr, true, false, not, ◌||◌, Bool, Option, none, some, List, [],
  ◌∷◌, arith, Option-cases, Bool-cases, In,
}
use forge_wingman.Text.{Text, text_eq, is_empty}
use forge_wingman.Time.{Time}
use forge_wingman.Dispatcher.Concurrency.{FloatOps}
use forge_wingman.Store.Row.{Row, claimed, is_waiting, is_recorded}
use forge_wingman.Store.Db.{reply_unusable, Db, Result, ok, err}
use forge_wingman.Store.Decisions.Provisional.{clear_provisional_reply}
use forge_wingman.Store.Queue.Requeue.{RequeueResult}
use forge_wingman.Store.Accounting.Operations.{Balanced}
use forge_wingman.Store.Trace.{
  op_posted_provisional, op_confirm, op_clear_reply, op_supersede, left, apply,
}
use forge_wingman.Store.Trace.Cap.{booked}
use forge_wingman.Store.Trace.Traced.{
  Traced, Traced-refl, Traced-trans, one_step, Traced-kept, any_numbers,
}
use forge_wingman.Poll.Claims.Kept.{HeldByRun}
use forge_wingman.Poll.Decide.{
  Desk, Settling, WaitingRun, ProvisionalRun, Listings, waiting_entry, waiting_of, waiting_run,
  waiting_runs, match, written, decide, post_provisional, superseded, decide_provisional,
  settle_each, settle_listed, provisional_phase, post_decisions,
}
use forge_wingman.Poll.Decide.Resolved.{waiting_entry-some}
use forge_wingman.Poll.Decide.Sound.{OfDecisions, of_decisions, decide_each-Step}

waiting-ne-claimed : (row : Row) → not (is_waiting row.state) ≡ false → row.state ≢ claimed
unfolding is_waiting
waiting-ne-claimed row h c = ground arith

-- A run that Waiting lists is not claimed.
listed_idle :
    (id : Text) (row : Row) (w : WaitingRun) (db : Db)
    → db.runs id ≡ some row
    → waiting_run id row ≡ some w
    → ¬ HeldByRun db w.run_id
unfolding waiting_run waiting_of
listed_idle id row w db present h (held, found, c) = elim (Option-cases (waiting_entry row)) [
  | inl settled ↦ absurd (none-ne-some w (rw (settled, waiting_run) at h))
  | inr (ie, waits) ↦
      let named : waiting_of id row ie ≡ w =
        some-injective (waiting_of id row ie) w (rw (waits, waiting_run) at h) in
      let e : id ≡ w.run_id = ap (λ (v : WaitingRun). v.run_id) named in
      let same_row : held ≡ row =
        some-injective held row (sym found ∙ ap db.runs (sym e) ∙ present) in
      waiting-ne-claimed row
        (or_false (not (is_waiting row.state)) (is_recorded row.outcome)
          (waiting_entry-some row ie waits).0)
        (ap (λ (r : Row). r.state) (sym same_row) ∙ c)
]
  where
    or_false : (a b : Bool) → (a || b) ≡ false → a ≡ false
    or_false a b e = ground arith

waiting_idle :
    (ids : List Text) (db : Db) (w : WaitingRun)
    → In w (waiting_runs ids db)
    → ¬ HeldByRun db w.run_id
unfolding waiting_runs
waiting_idle [] db w m = absurd m
waiting_idle (id ∷ ids) db w m = elim (Option-cases (db.runs id)) [
  | inl missing ↦ waiting_idle ids db w (rw (missing, waiting_runs) at m)
  | inr (row, present) ↦ elim (Option-cases (waiting_run id row)) [
    | inl other ↦ waiting_idle ids db w (rw (present, other, waiting_runs) at m)
    | inr (v, waits) ↦ elim (rw (present, waits, waiting_runs) at m) [
      | inl e ↦
          subst (λ (u : WaitingRun). ¬ HeldByRun db u.run_id) (sym e)
            (listed_idle id row v db present waits)
      | inr m' ↦ waiting_idle ids db w m'
    ]
  ]
]

module _ (ops : FloatOps) where
  written-Traced :
      (wrote : Bool) (after db : Db)
      → Traced ops OfDecisions db after
      → Traced ops OfDecisions db (written wrote after db).1
  unfolding written
  written-Traced true after db t = t
  written-Traced false after db t = Traced-refl ops OfDecisions db

  clear-Traced :
      (id : Text) (at : Time) (db : Db)
      → Traced ops OfDecisions db (clear_provisional_reply id at db)
  unfolding apply
  clear-Traced id at db = one_step ops OfDecisions (op_clear_reply id at) db tt tt

  post_provisional-Traced :
      (k : Desk) (p : ProvisionalRun) (at : Time) (db : Db)
      → Traced ops OfDecisions db (post_provisional k p at db).1
  unfolding post_provisional apply
  post_provisional-Traced k p at db = elim (Option-cases (k.session p.run_id)) [
    | inl unread ↦ rw (unread, post_provisional) (Traced-refl ops OfDecisions db)
    | inr (session, found) ↦ elim (Bool-cases (is_empty session)) [
      | inl nowhere ↦ rw (found, nowhere, post_provisional) (Traced-refl ops OfDecisions db)
      | inr somewhere ↦ elim (Bool-cases (k.elicits_taken session p.decision p.taken)) [
        | inr turned ↦
            rw (found, somewhere, turned, post_provisional) (Traced-refl ops OfDecisions db)
        | inl asked ↦
            rw (found, somewhere, asked, post_provisional)
              (written-Traced (k.writes p.run_id) _ db
                (one_step ops OfDecisions (op_posted_provisional p.run_id session at) db tt tt))
      ]
    ]
  ]

  superseded-Traced :
      (k : Desk) (p : ProvisionalRun) (db : Db) (r : Result (RequeueResult × Db))
      → Traced ops OfDecisions db (left (λ x. x.1) db r)
      → Traced ops OfDecisions db (superseded k p db r).1
  unfolding superseded
  superseded-Traced k p db (ok (res, after)) t = written-Traced (k.writes p.run_id) after db t
  superseded-Traced k p db (err reply_unusable) t =
      written-Traced (k.writes p.run_id) _ db (clear-Traced p.run_id p.replied_at db)
  superseded-Traced k p db (err e) t = t

  decide_provisional-Traced :
      (k : Desk) (p : ProvisionalRun) (at : Time) (db : Db)
      → Traced ops OfDecisions db (decide_provisional k p at db).1
  unfolding decide_provisional apply
  decide_provisional-Traced k p at db = elim (Option-cases (match k.same p.decision p.reply)) [
    | inl unnamed ↦
        rw (unnamed, decide_provisional)
          (written-Traced (k.writes p.run_id) _ db (clear-Traced p.run_id p.replied_at db))
    | inr (opt, names) ↦ elim (Bool-cases (text_eq opt.label p.taken)) [
      | inl taken ↦
          rw (names, taken, decide_provisional)
            (written-Traced (k.writes p.run_id) _ db
              (one_step ops OfDecisions (op_confirm p.run_id p.index p.replied_at at) db tt tt))
      | inr other ↦
          rw (names, other, decide_provisional)
            (superseded-Traced k p db _ (
              one_step ops OfDecisions (op_supersede p.run_id p.index p.replied_at opt.label at) db
                tt tt))
    ]
  ]

  settle_each-Traced {ℓ} :
      {A : Type ℓ} (f : A → Db → Settling)
      → ((a : A) (db : Db) → Traced ops OfDecisions db (f a db).1)
      → (found : List A) (db : Db) → Traced ops OfDecisions db (settle_each f found db).1
  unfolding settle_each
  settle_each-Traced f each [] db = Traced-refl ops OfDecisions db
  settle_each-Traced f each (a ∷ found) db =
      Traced-trans ops OfDecisions db (f a db).1 _ (each a db)
        (settle_each-Traced f each found (f a db).1)

  settle_listed-Traced {ℓ} :
      {A : Type ℓ} (f : A → Db → Settling)
      → ((a : A) (db : Db) → Traced ops OfDecisions db (f a db).1)
      → (found : Option (List A)) (db : Db) → Traced ops OfDecisions db (settle_listed f found db).1
  unfolding settle_listed
  settle_listed-Traced f each none db = Traced-refl ops OfDecisions db
  settle_listed-Traced f each (some found) db = settle_each-Traced f each found db

  provisional_phase-Traced :
      (k : Desk) (l : Listings) (at : Time) (db : Db)
      → Traced ops OfDecisions db (provisional_phase k l at db).1
  unfolding provisional_phase
  provisional_phase-Traced k l at db =
      let posted_all = (settle_listed (λ p. post_provisional k p at) (l.unposted db) db).1 in
      Traced-trans ops OfDecisions db posted_all _
        (settle_listed-Traced (λ p. post_provisional k p at)
          (λ p d. post_provisional-Traced k p at d) (l.unposted db) db)
        (settle_listed-Traced (λ p. decide_provisional k p at)
          (λ p d. decide_provisional-Traced k p at d) (l.replied posted_all) posted_all)

  post_decisions-Traced :
      (k : Desk) (l : Listings) (at : Time) (db : Db)
      → Traced ops OfDecisions db (post_decisions k l at db).1
  unfolding post_decisions
  post_decisions-Traced k l at db = elim (Option-cases (l.waiting db)) [
    | inl unread ↦ rw (unread, post_decisions) (Traced-refl ops OfDecisions db)
    | inr (ids, found) ↦
        let decided = (settle_each (λ w. decide k w at) (waiting_runs ids db) db).1 in
        rw (found, post_decisions)
          (Traced-trans ops OfDecisions db decided _
            (decide_each-Step ops k at (waiting_runs ids db) db (waiting_idle ids db)).traced
            (provisional_phase-Traced k l at decided))
  ]

-- A poll's decisions keep the books balanced and book nothing, whatever the owner replied, whatever of the poll's
-- reads and writes fails and whatever its listings find: no wait is stopped of a run that holds a reservation.
pub post_decisions-Balanced :
    (k : Desk) (l : Listings) (at : Time) (db : Db)
    → Balanced db
    → Balanced (post_decisions k l at db).1 × (booked (post_decisions k l at db).1 ≤ booked db)
post_decisions-Balanced k l at db bal =
    Traced-kept any_numbers OfDecisions (booked db) (of_decisions (booked db)) db _
      (post_decisions-Traced any_numbers k l at db) (bal, omega arith)

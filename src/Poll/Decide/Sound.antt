-- ===== src/Poll/Decide/Sound.antt =====
-- What a poll's decisions do to the store: single transactions that the books allow, since a wait is stopped only of
-- a run that was found waiting and none of them claims a run.
use forge_wingman.Prelude.{
  ℕ, ◌≡◌, ◌≢◌, refl, sym, ap, ◌∙◌, inl, inr, true, false, Bool, Option, some, List, [], ◌∷◌, arith,
  Option-cases, Bool-cases, In,
}
use forge_wingman.Text.{Text, is_empty}
use forge_wingman.Runner.{Decision}
use forge_wingman.Time.{Time, is_before, is_zero}
use forge_wingman.Dispatcher.Concurrency.{FloatOps}
use forge_wingman.Store.Row.{Row, RunState, claimed, is_waiting}
use forge_wingman.Store.Db.{Db, Notice}
use forge_wingman.Store.Decisions.{
  update_row, with_entry, answer, answered_row, posted, posted_at_row, stop_waiting,
}
use forge_wingman.Store.Queue.Release.{stopped_row}
use forge_wingman.Store.Sweep.{raise}
use forge_wingman.Store.Accounting.Waits.{raise_runs}
use forge_wingman.Store.Trace.{
  Op, op_claim, op_answer, op_posted, op_stop_waiting, op_raise, op_posted_provisional, op_confirm,
  op_clear_reply, op_supersede, apply,
}
use forge_wingman.Store.Trace.Cap.Bound.{IsCapped}
use forge_wingman.Store.Trace.Traced.{Traced, Traced-refl, Traced-trans, one_step}
use forge_wingman.Poll.Claims.Kept.{HeldByRun}
use forge_wingman.Poll.Decide.{
  Desk, WaitingRun, match, decision_timeout, deadline, post_decision, waiting_notice, reported,
  written, stop_wait, decide, settle_each,
}
use forge_wingman.Poll.Dispatch.Started.{put_run_held}

-- The transactions of a poll's decisions.
abbrev pub OfDecisions : Op → Type 0
OfDecisions (op_answer id choice at) = Unit
OfDecisions (op_posted id session at) = Unit
OfDecisions (op_stop_waiting id d at) = Unit
OfDecisions (op_raise notice) = Unit
OfDecisions (op_posted_provisional id session at) = Unit
OfDecisions (op_confirm id index replied at) = Unit
OfDecisions (op_clear_reply id replied) = Unit
OfDecisions (op_supersede id index replied choice at) = Unit
OfDecisions o = ⊥

pub of_decisions : (b : ℕ) (o : Op) → OfDecisions o → IsCapped b o
of_decisions b (op_claim id at cfg facts history res) h = absurd h
of_decisions b o h = tt

-- What a step does: single transactions, and no run is claimed that was not.
pub record Step (ops : FloatOps) (db after : Db) : Type 0 where
  pub traced : Traced ops OfDecisions db after
  pub unclaimed : (j : Text) → HeldByRun after j → HeldByRun db j

-- A write that claims no run.
abbrev ClaimsNone : (Row → Option Row) → Type 0
ClaimsNone f = (row row' : Row) → f row ≡ some row' → row'.state ≡ claimed → row.state ≡ claimed

answered-ClaimsNone : (choice : Text) (at : Time) → ClaimsNone (answered_row choice at)
unfolding answered_row is_waiting
answered-ClaimsNone choice at row row' h c = ground arith

posted-ClaimsNone : (session : Text) (at : Time) → ClaimsNone (posted_at_row session at)
unfolding posted_at_row with_entry
posted-ClaimsNone session at row row' h c = ground arith

update_unclaimed :
    (id j : Text) (f : Row → Option Row) (db : Db)
    → ClaimsNone f
    → HeldByRun (update_row id f db).1 j
    → HeldByRun db j
unfolding update_row
update_unclaimed id j f db none_claimed h = elim (Option-cases (db.runs id)) [
  | inl missing ↦ rw (missing, update_row) at h
  | inr (row, present) ↦ elim (Option-cases (f row)) [
    | inl kept ↦ rw (present, kept, update_row) at h
    | inr (row', wrote) ↦ elim (put_run_held id j row' db (rw (present, wrote, update_row) at h)) [
      | inl before ↦ before.0
      | inr (e, c) ↦ (row, ap db.runs (sym e) ∙ present, none_claimed row row' wrote c)
    ]
  ]
]

stopped-ne-claimed : RunState.stopped ≢ claimed
stopped-ne-claimed c = ground arith

module _ (ops : FloatOps) where
  same : (db : Db) → Step ops db db
  same db = record { traced = Traced-refl ops OfDecisions db; unclaimed = λ j h. h }

  and_then : (db mid after : Db) → Step ops db mid → Step ops mid after → Step ops db after
  and_then db mid after s t = record {
    traced = Traced-trans ops OfDecisions db mid after s.traced t.traced;
    unclaimed = λ j h. s.unclaimed j (t.unclaimed j h);
  }

  answer-Step : (id choice : Text) (at : Time) (db : Db) → Step ops db (answer id choice at db)
  unfolding answer apply
  answer-Step id choice at db = record {
    traced = one_step ops OfDecisions (op_answer id choice at) db tt tt;
    unclaimed =
        λ j h. update_unclaimed id j (answered_row choice at) db (answered-ClaimsNone choice at) h;
  }

  posted-Step : (id session : Text) (at : Time) (db : Db) → Step ops db (posted id session at db)
  unfolding posted apply
  posted-Step id session at db = record {
    traced = one_step ops OfDecisions (op_posted id session at) db tt tt;
    unclaimed =
        λ j h. update_unclaimed id j (posted_at_row session at) db (posted-ClaimsNone session at) h;
  }

  raise-Step : (n : Text × Notice) (db : Db) → Step ops db (raise n db)
  unfolding apply
  raise-Step n db = record {
    traced = one_step ops OfDecisions (op_raise n) db tt tt;
    unclaimed =
        λ j h. (h.0, ap (λ (f : Text → Option Row). f j) (sym (raise_runs n db)) ∙ h.1, h.2);
  }

  stop-Step :
      (id : Text) (d : Decision) (at : Time) (db : Db)
      → ¬ HeldByRun db id
      → Step ops db (reported db (stop_waiting id d at db)).1
  unfolding stop_waiting reported apply stopped_row
  stop-Step id d at db idle =
      let step =
        one_step ops OfDecisions (op_stop_waiting id d at) db (λ row p c. idle (row, p, c)) tt in
      elim (Option-cases (db.runs id)) [
        | inl missing ↦ rw (missing, stop_waiting) (same db)
        | inr (row, present) ↦
            rw (present, stop_waiting)
              (record {
                traced = rw (present, stop_waiting) at step;
                unclaimed = λ j h. elim (put_run_held id j _ db h) [
                  | inl before ↦ before.0
                  | inr (e, c) ↦ absurd (stopped-ne-claimed c)
                ];
              })
      ]

  written-Step :
      (wrote : Bool) (after db : Db) → Step ops db after → Step ops db (written wrote after db).1
  unfolding written
  written-Step true after db s = s
  written-Step false after db s = same db

  stop_wait-Step :
      (k : Desk) (w : WaitingRun) (at : Time) (db : Db)
      → ¬ HeldByRun db w.run_id
      → Step ops db (stop_wait k w at db).1
  unfolding stop_wait
  stop_wait-Step k w at db idle =
      let raised = raise (waiting_notice w at) db in
      let said = raise-Step (waiting_notice w at) db in
      elim (Bool-cases (k.raises w.run_id)) [
        | inr lost ↦ rw (lost, stop_wait) (same db)
        | inl raises ↦ elim (Bool-cases (k.writes w.run_id)) [
          | inr lost ↦ rw (raises, lost, stop_wait) said
          | inl writes ↦
              rw (raises, writes, stop_wait)
                (and_then db raised _ said
                  (stop-Step w.run_id w.decision at raised (λ h. idle (said.unclaimed w.run_id h))))
        ]
      ]

  post_decision-Step :
      (k : Desk) (w : WaitingRun) (at : Time) (db : Db) → Step ops db (post_decision k w at db).1
  unfolding post_decision
  post_decision-Step k w at db = elim (Option-cases (k.session w.run_id)) [
    | inl unread ↦ rw (unread, post_decision) (same db)
    | inr (session, found) ↦ elim (Bool-cases (is_empty session)) [
      | inl nowhere ↦ rw (found, nowhere, post_decision) (same db)
      | inr somewhere ↦ elim (Bool-cases (k.elicits session w.decision)) [
        | inr turned ↦ rw (found, somewhere, turned, post_decision) (same db)
        | inl asked ↦
            rw (found, somewhere, asked, post_decision)
              (written-Step (k.writes w.run_id) _ db (posted-Step w.run_id session at db))
      ]
    ]
  ]

  decide-Step :
      (k : Desk) (w : WaitingRun) (at : Time) (db : Db)
      → ¬ HeldByRun db w.run_id
      → Step ops db (decide k w at db).1
  unfolding decide
  decide-Step k w at db idle = elim (Bool-cases (is_before w.posted_at w.replied_at)) [
    | inl newer ↦ elim (Option-cases (match k.same w.decision w.reply)) [
      | inl unnamed ↦ rw (newer, unnamed, decide) (post_decision-Step k w at db)
      | inr (opt, names) ↦
          rw (newer, names, decide)
            (written-Step (k.writes w.run_id) _ db (answer-Step w.run_id opt.label at db))
    ]
    | inr quiet ↦ elim (Bool-cases (is_before (deadline w (decision_timeout k.timeout)) at)) [
      | inl passed ↦ rw (quiet, passed, decide) (stop_wait-Step k w at db idle)
      | inr before ↦ elim (Bool-cases (is_zero w.posted_at)) [
        | inl unposted ↦ rw (quiet, before, unposted, decide) (post_decision-Step k w at db)
        | inr asked ↦ rw (quiet, before, asked, decide) (same db)
      ]
    ]
  ]

  pub decide_each-Step :
      (k : Desk) (at : Time) (ws : List WaitingRun) (db : Db)
      → ((w : WaitingRun) → In w ws → ¬ HeldByRun db w.run_id)
      → Step ops db (settle_each (λ w. decide k w at) ws db).1
  unfolding settle_each
  decide_each-Step k at [] db idle = same db
  decide_each-Step k at (w ∷ ws) db idle =
      let first = decide-Step k w at db (idle w (inl refl)) in
      and_then db (decide k w at db).1 _ first (
        decide_each-Step k at ws (decide k w at db).1
          (λ v m h. idle v (inr m) (first.unclaimed v.run_id h)))

-- ===== src/Poll/Dispatch/Started.antt =====
-- A claimed run that was not started is put back, if the store takes it.
use mathlib.Core.Option.{some-injective, none-ne-some}
use mathlib.Core.Path.{subst}
use mathlib.Core.Bool.{false≢true}
use forge_wingman.Prelude.{
  ◌≡◌, ◌≢◌, ◌⊎◌, some, refl, sym, ap, ◌∙◌, inl, inr, true, false, Option, List, [], ◌∷◌, arith, In,
  Option-cases, Bool-cases,
}
use forge_wingman.Text.{Text, text_eq, text_eq_iff, is_empty}
use forge_wingman.Time.{Time}
use forge_wingman.Store.Row.{Row, claimed}
use forge_wingman.Store.Ledger.{Entry, reservation}
use forge_wingman.Store.Db.{Db, store_failed, put_run, put_ledger}
use forge_wingman.Store.Queue.Enqueue.{record_ticket_state}
use forge_wingman.Store.Queue.Release.{release, released_state, drop_key}
use forge_wingman.Store.Trace.{left}
use forge_wingman.Poll.{Claim}
use forge_wingman.Poll.Claims.Kept.{HeldByRun, put_run_other}
use forge_wingman.Poll.Dispatch.{
  Outside, Sent, started, refused, start_ticket, released, dispatch, Dispatched, add_sent,
  dispatch_all,
}

-- Who holds a run after a write of one row.
pub put_run_held :
    (id j : Text) (row : Row) (db : Db)
    → HeldByRun (put_run id row db) j
    → (HeldByRun db j × (id ≢ j)) ⊎ ((id ≡ j) × (row.state ≡ claimed))
unfolding put_run
put_run_held id j row db (found, present, c) = elim (Bool-cases (text_eq id j)) [
  | inr n ↦ inl (
    (found, sym (put_run_other id j row db n) ∙ present, c),
    λ e. false≢true (sym n ∙ (text_eq_iff id j).1 e),
  )
  | inl same ↦
      let e : row ≡ found = some-injective row found (rw same at present) in
      inr ((text_eq_iff id j).0 same, ap (λ (r : Row). r.state) e ∙ c)
]

unheld_by_ticket :
    (id j prior : Text) (db : Db)
    → ¬ HeldByRun db j
    → ¬ HeldByRun (left (λ d. d) db (record_ticket_state id prior db)) j
unfolding record_ticket_state
unheld_by_ticket id j prior db n = elim (Option-cases (db.runs id)) [
  | inl missing ↦ rw (missing, record_ticket_state) n
  | inr (row, present) ↦
      rw (present, record_ticket_state)
        (λ h. elim (put_run_held id j (record row { ticket_state = prior }) db h) [
          | inl before ↦ n before.0
          | inr (e, c) ↦ n (row, ap db.runs (sym e) ∙ present, c)
        ])
]

unheld_by_start :
    (o : Outside) (id j : Text) (db : Db) → ¬ HeldByRun db j → ¬ HeldByRun (start_ticket o id db) j
unfolding start_ticket
unheld_by_start o id j db n = elim (Option-cases (o.starts id)) [
  | inl failed ↦ rw (failed, start_ticket) n
  | inr (prior, moved) ↦ elim (Bool-cases (is_empty prior)) [
    | inl nothing ↦ rw (moved, nothing, start_ticket) n
    | inr state ↦ rw (moved, state, start_ticket) (unheld_by_ticket id j prior db n)
  ]
]

released-ne-claimed : (held : Option (Text × Entry)) → released_state held ≢ claimed
unfolding released_state
released-ne-claimed held p = ground arith

-- A release leaves no claim behind, and makes none.
release_held :
    (id j : Text) (at : Time) (db : Db)
    → HeldByRun (released db (release id at db)).1 j
    → HeldByRun db j × (id ≢ j)
unfolding release released put_ledger
release_held id j at db h = elim (Option-cases (db.runs id)) [
  | inl missing ↦ (
    rw (missing, release) at h,
    λ e.
        let held = rw (missing, release) at h in
        none-ne-some held.0 (sym missing ∙ ap db.runs e ∙ held.1),
  )
  | inr (row, present) ↦
      let held = reservation db.ledger.reservations id row.attempt in
      elim (put_run_held id j
        (record row { state = released_state held; updated_at = at; claimed_at = 0 })
        (put_ledger (drop_key held db.ledger) db) (rw (present, release) at h)) [
          | inl before ↦ before
          | inr (e, c) ↦ absurd (released-ne-claimed held c)
        ]
]

-- A run that a dispatch leaves claimed was claimed before it.
dispatch_held :
    (o : Outside) (cl : Claim) (j : Text) (db : Db)
    → HeldByRun (dispatch o cl db).1 j
    → HeldByRun db j
unfolding dispatch
dispatch_held o cl j db h = elim (Bool-cases (o.accepts cl)) [
  | inl accepted ↦ rw (accepted, dispatch) at h
  | inr turned ↦ elim (Bool-cases (o.releases cl)) [
    | inl taken ↦
        (release_held cl.run_id j (o.now cl.run_id) db (rw (turned, taken, dispatch) at h)).0
    | inr lost ↦ rw (turned, lost, dispatch) at h
  ]
]

sent_started :
    (o : Outside) (cl : Claim) (db : Db) → o.accepts cl ≡ true → (dispatch o cl db).0 ≡ started
unfolding dispatch
sent_started o cl db accepted = rw accepted refl

refused_unheld :
    (o : Outside) (cl : Claim) (j : Text) (db : Db)
    → o.accepts cl ≡ false
    → o.releases cl ≡ true
    → cl.run_id ≡ j
    → ¬ HeldByRun (dispatch o cl db).1 j
unfolding dispatch
refused_unheld o cl j db turned taken e h =
    (release_held cl.run_id j (o.now cl.run_id) db (rw (turned, taken, dispatch) at h)).1 e

sent_unreleased :
    (o : Outside) (cl : Claim) (db : Db)
    → o.accepts cl ≡ false
    → o.releases cl ≡ false
    → (dispatch o cl db).0 ≡ refused (some store_failed)
unfolding dispatch
sent_unreleased o cl db turned lost = rw (turned, lost, dispatch) refl

pub add_sent_db : (id : Text) (sent : Sent) (d : Dispatched) → (add_sent id sent d).db ≡ d.db
unfolding add_sent
add_sent_db id started d = refl
add_sent_db id (refused e) d = refl

In-add_sent :
    (id j : Text) (sent : Sent) (d : Dispatched)
    → In j d.dispatched
    → In j (add_sent id sent d).dispatched
unfolding add_sent
In-add_sent id j started d m = inr m
In-add_sent id j (refused e) d m = m

started-add_sent :
    (id j : Text) (sent : Sent) (d : Dispatched)
    → id ≡ j
    → sent ≡ started
    → In j (add_sent id sent d).dispatched
unfolding add_sent
started-add_sent id j started d e s = inl (sym e)
started-add_sent id j (refused why) d e s = absurd (ground arith)

-- The run's start was refused and Firestore did not take its release; the poll reports both.
abbrev pub Unreleased : Text → Dispatched → Type 0
Unreleased id d = In (id, some store_failed) d.refusals

Unreleased-add_sent :
    (id j : Text) (sent : Sent) (d : Dispatched)
    → Unreleased j d
    → Unreleased j (add_sent id sent d)
unfolding add_sent
Unreleased-add_sent id j started d m = m
Unreleased-add_sent id j (refused e) d m = inr m

refused-add_sent :
    (id j : Text) (sent : Sent) (d : Dispatched)
    → id ≡ j
    → sent ≡ refused (some store_failed)
    → Unreleased j (add_sent id sent d)
unfolding add_sent
refused-add_sent id j started d e s = absurd (ground arith)
refused-add_sent id j (refused why) d e s = inl (ground arith)

-- What the later rounds leave claimed, the earlier ones left claimed.
dispatch_all_held :
    (o : Outside) (cls : List Claim) (j : Text) (db : Db)
    → HeldByRun (dispatch_all o cls db).db j
    → ¬ ¬ HeldByRun db j
unfolding dispatch_all
dispatch_all_held o [] j db h n = n h
dispatch_all_held o (cl ∷ cls) j db h n =
    let sent = dispatch o cl (start_ticket o cl.run_id db) in
    let later =
      subst (λ (d : Db). HeldByRun d j) (add_sent_db cl.run_id sent.0 (dispatch_all o cls sent.1))
        h in
    dispatch_all_held o cls j sent.1 later (λ held.
      unheld_by_start o cl.run_id j db n (dispatch_held o cl j (start_ticket o cl.run_id db) held))

-- After the claims of a walk have been dispatched, a run of theirs that is still claimed was started, unless its
-- start was refused and Firestore did not take its release, which the poll then reports with the refusal.
pub dispatch_all-started :
    (o : Outside) (cls : List Claim) (cl : Claim) (db : Db)
    → In cl cls
    → HeldByRun (dispatch_all o cls db).db cl.run_id
    → In cl.run_id (dispatch_all o cls db).dispatched ⊎ Unreleased cl.run_id (dispatch_all o cls db)
unfolding dispatch_all
dispatch_all-started o [] cl db m h = absurd m
dispatch_all-started o (c ∷ cls) cl db m h =
    let begun = start_ticket o c.run_id db in
    let sent = dispatch o c begun in
    let rest = dispatch_all o cls sent.1 in
    let later = subst (λ (d : Db). HeldByRun d cl.run_id) (add_sent_db c.run_id sent.0 rest) h in
    elim m [
      | inr m' ↦ elim (dispatch_all-started o cls cl sent.1 m' later) [
        | inl ran ↦ inl (In-add_sent c.run_id cl.run_id sent.0 rest ran)
        | inr stays ↦ inr (Unreleased-add_sent c.run_id cl.run_id sent.0 rest stays)
      ]
      | inl e ↦
          let same : c.run_id ≡ cl.run_id = ap (λ (k : Claim). k.run_id) (sym e) in
          elim (Bool-cases (o.accepts c)) [
            | inl accepted ↦ inl (
                started-add_sent c.run_id cl.run_id sent.0 rest same
                  (sent_started o c begun accepted))
            | inr turned ↦ elim (Bool-cases (o.releases c)) [
              | inl taken ↦ absurd (
                  dispatch_all_held o cls cl.run_id sent.1 later
                    (refused_unheld o c cl.run_id begun turned taken same))
              | inr lost ↦ inr (
                  refused-add_sent c.run_id cl.run_id sent.0 rest same
                    (sent_unreleased o c begun turned lost))
            ]
          ]
    ]

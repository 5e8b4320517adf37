-- ===== src/Poll/Decide.antt =====
-- internal/dispatcher/decision.go: a poll settles the runs that wait on the owner's decision, and the replies
-- to the decisions that auto-pilot took; Match of internal/runner/decision.go and Waiting of
-- internal/store/decision.go. The Linear sessions, the collator that folds a reply and the writes that Firestore
-- takes are arguments.
pub mod Resolved
pub mod Sound
pub mod Books
use forge_wingman.Prelude.{
  ℕ, ◌+◌, ◌*◌, Bool, true, false, not, ◌||◌, Option, none, some, List, [], ◌∷◌, ◌++◌, ltb,
  if◌then◌else◌,
}
use forge_wingman.Text.{Text, codes, text_eq, is_empty}
use forge_wingman.Text.Decimal.{itoa}
use forge_wingman.Time.{Time, Duration, minute, is_before, is_zero}
use forge_wingman.Runner.{Decision, DecisionOption}
use forge_wingman.Store.Row.{Row, DecisionEntry, is_waiting, is_recorded}
use forge_wingman.Store.Db.{
  Db, Error, reply_unusable, not_ended, stale_reply, Notice, pending, Result, ok, err,
}
use forge_wingman.Store.Queue.Requeue.{RequeueResult}
use forge_wingman.Store.Decisions.{
  last_unanswered, entry_at, is_blank, answer, posted, stop_waiting,
}
use forge_wingman.Store.Decisions.Provisional.{
  posted_provisional, confirm_provisional, clear_provisional_reply, supersede,
}
use forge_wingman.Store.Sweep.{raise}

-- What the poll asks of Linear, of the collator and of Firestore.
pub record Desk : Type 0 where
  -- The agent session of a run's ticket, empty where there is none; `none` where the read fails.
  pub session : Text → Option Text
  pub elicits : Text → Decision → Bool
  pub elicits_taken : Text → Decision → Text → Bool
  -- Whether two texts are one but for case, width and diacritics, with the space around them.
  pub same : Text → Text → Bool
  pub timeout : Duration
  -- Whether the notice of a run's wait can be raised, and whether a write to its row can be made.
  pub raises : Text → Bool
  pub writes : Text → Bool

pub record WaitingRun : Type 0 where
  pub run_id : Text
  pub decision : Decision
  pub asked_at : Time
  pub posted_at : Time
  pub reply : Text
  pub replied_at : Time
  pub run_url : Text
  pub index : ℕ

-- The decision that a row waits on.
unfoldable pub waiting_entry : Row → Option (ℕ × DecisionEntry)
unfolding last_unanswered is_waiting
waiting_entry row =
    if not (is_waiting row.state) || is_recorded row.outcome
    then none
    else entry_at (last_unanswered row.decisions) row

unfoldable pub waiting_of : Text → Row → ℕ × DecisionEntry → WaitingRun
waiting_of run_id row (i, e) = record {
  run_id = run_id;
  decision = e.decision;
  asked_at = e.asked_at;
  posted_at = e.posted_at;
  reply = e.reply;
  replied_at = e.replied_at;
  run_url = row.run_url;
  index = i + 1;
}

unfoldable pub waiting_run : Text → Row → Option WaitingRun
unfolding waiting_entry waiting_of
waiting_run run_id row = elim (waiting_entry row) [
  | none ↦ none
  | some ie ↦ some (waiting_of run_id row ie)
]

-- Waiting, of the rows whose ids its query found
unfoldable pub waiting_runs : List Text → Db → List WaitingRun
unfolding waiting_run
waiting_runs [] db = []
waiting_runs (id ∷ ids) db =
    let rest = waiting_runs ids db in
    elim (db.runs id) [
      | none ↦ rest
      | some row ↦ elim (waiting_run id row) [ none ↦ rest | some w ↦ w ∷ rest ]
    ]

named : (Text → Text → Bool) → Text → List DecisionOption → Option DecisionOption
named same want [] = none
named same want (o ∷ os) =
    let rest = named same want os in if same want o.value || same want o.label then some o else rest

-- Match
unfoldable pub match : (Text → Text → Bool) → Decision → Text → Option DecisionOption
unfolding named is_blank
match same d reply = if is_blank reply then none else named same reply d.options

later : Time → Time → Time
later t u = if is_before t u then u else t

-- decisionTimeout
unfoldable pub decision_timeout : Duration → Duration
decision_timeout d = if is_zero d then 24 * 60 * minute else d

-- deadline
unfoldable pub deadline : WaitingRun → Duration → Time
unfolding later
deadline w timeout = later (later w.asked_at w.posted_at) w.replied_at + timeout

-- What settling one run leaves: whether it reports an error, and the store.
abbrev pub Settling : Type 0
Settling = Bool × Db

-- A write of a run's row: one that fails is reported and changes nothing.
unfoldable pub written : Bool → Db → Db → Settling
written true after db = (false, after)
written false after db = (true, db)

-- postDecision
unfoldable pub post_decision : Desk → WaitingRun → Time → Db → Settling
unfolding posted written
post_decision k w at db = elim (k.session w.run_id) [
  | none ↦ (true, db)
  | some session ↦
      if is_empty session
      then (false, db)
      else if k.elicits session w.decision
      then written (k.writes w.run_id) (posted w.run_id session at db) db
      else (false, db)
]

unfoldable pub waiting_notice : WaitingRun → Time → Text × Notice
unfolding itoa
waiting_notice w at = (
  codes "waiting-" ++ w.run_id ++ codes "#" ++ itoa w.index,
  record {
    class = codes "waiting-on-owner";
    detail = [];
    link = w.run_url;
    state = pending;
    raised_at = at;
  },
)

unfoldable pub reported : Db → Result Db → Settling
reported db (ok after) = (false, after)
reported db (err e) = (true, db)

-- stopWaiting: a notice that cannot be raised leaves the run waiting.
unfoldable pub stop_wait : Desk → WaitingRun → Time → Db → Settling
unfolding waiting_notice raise stop_waiting reported
stop_wait k w at db =
    let raised = raise (waiting_notice w at) db in
    if not (k.raises w.run_id)
    then (true, db)
    else if not (k.writes w.run_id)
    then (true, raised)
    else reported raised (stop_waiting w.run_id w.decision at raised)

-- decide
unfoldable pub decide : Desk → WaitingRun → Time → Db → Settling
unfolding match answer written post_decision stop_wait deadline decision_timeout
decide k w at db =
    if is_before w.posted_at w.replied_at
    then (elim (match k.same w.decision w.reply) [
      | none ↦ post_decision k w at db
      | some opt ↦ written (k.writes w.run_id) (answer w.run_id opt.label at db) db
    ])
    else if is_before (deadline w (decision_timeout k.timeout)) at
    then stop_wait k w at db
    else if is_zero w.posted_at
    then post_decision k w at db
    else (false, db)

pub record ProvisionalRun : Type 0 where
  pub run_id : Text
  pub decision : Decision
  pub taken : Text
  pub index : ℕ
  pub reply : Text
  pub replied_at : Time

-- postProvisional
unfoldable pub post_provisional : Desk → ProvisionalRun → Time → Db → Settling
unfolding posted_provisional written
post_provisional k p at db = elim (k.session p.run_id) [
  | none ↦ (true, db)
  | some session ↦
      if is_empty session
      then (false, db)
      else if k.elicits_taken session p.decision p.taken
      then written (k.writes p.run_id) (posted_provisional p.run_id session at db) db
      else (false, db)
]

-- A supersede that fails: of a run that has not ended it waits, and an unusable reply is cleared.
unfoldable pub superseded : Desk → ProvisionalRun → Db → Result (RequeueResult × Db) → Settling
unfolding clear_provisional_reply written
superseded k p db (ok (res, after)) = written (k.writes p.run_id) after db
superseded k p db (err stale_reply) = (false, db)
superseded k p db (err not_ended) = (false, db)
superseded k p db (err reply_unusable) =
    written (k.writes p.run_id) (clear_provisional_reply p.run_id p.replied_at db) db
superseded k p db (err e) = (true, db)

-- decideProvisional
unfoldable pub decide_provisional : Desk → ProvisionalRun → Time → Db → Settling
unfolding match text_eq clear_provisional_reply confirm_provisional supersede superseded written
decide_provisional k p at db = elim (match k.same p.decision p.reply) [
  | none ↦ written (k.writes p.run_id) (clear_provisional_reply p.run_id p.replied_at db) db
  | some opt ↦
      if text_eq opt.label p.taken
      then written (k.writes p.run_id) (confirm_provisional p.run_id p.index p.replied_at at db) db
      else superseded k p db (supersede p.run_id p.index p.replied_at opt.label at db)
]

unfoldable pub settle_each {ℓ} : {A : Type ℓ} → (A → Db → Settling) → List A → Db → Settling
settle_each f [] db = (false, db)
settle_each f (a ∷ rest) db =
    let (failed, mid) = f a db in
    let (rest_failed, after) = settle_each f rest mid in (failed || rest_failed, after)

-- A pass over what a listing finds; one that fails is reported and finds nothing.
unfoldable pub settle_listed {ℓ} :
    {A : Type ℓ} → (A → Db → Settling) → Option (List A) → Db → Settling
unfolding settle_each
settle_listed f none db = (true, db)
settle_listed f (some found) db = settle_each f found db

-- What the three listings of a poll find in the state at hand, or that one fails: the ids of the runs that wait,
-- and the provisional decisions that are not posted and that are replied to.
pub record Listings : Type 0 where
  pub waiting : Db → Option (List Text)
  pub unposted : Db → Option (List ProvisionalRun)
  pub replied : Db → Option (List ProvisionalRun)

unfoldable pub provisional_phase : Desk → Listings → Time → Db → Settling
unfolding settle_listed post_provisional decide_provisional
provisional_phase k l at db =
    let (g, posted_all) = settle_listed (λ p. post_provisional k p at) (l.unposted db) db in
    let (h, settled) =
      settle_listed (λ p. decide_provisional k p at) (l.replied posted_all) posted_all in
    (g || h, settled)

-- postDecisions
unfoldable pub post_decisions : Desk → Listings → Time → Db → Settling
unfolding settle_each waiting_runs decide provisional_phase
post_decisions k l at db = elim (l.waiting db) [
  | none ↦ (true, db)
  | some ids ↦
      let (f, decided) = settle_each (λ w. decide k w at) (waiting_runs ids db) db in
      let (g, settled) = provisional_phase k l at decided in (f || g, settled)
]

-- ===== src/Poll/Dispatch.antt =====
-- startTicket and dispatch: a claimed run's ticket is moved and its workflow started, and a run whose start
-- GitHub refuses is released. What Linear, GitHub and Firestore answer is an argument. The
-- verdict that dispatch records first on a row is no part of the row modelled.
pub mod Started
pub mod Traced
use forge_wingman.Prelude.{Bool, Option, none, some, List, [], ◌∷◌, if◌then◌else◌}
use forge_wingman.Text.{Text, is_empty}
use forge_wingman.Time.{Time}
use forge_wingman.Store.Db.{Db, Error, store_failed, Result, ok, err}
use forge_wingman.Store.Queue.Enqueue.{record_ticket_state}
use forge_wingman.Store.Queue.Release.{release}
use forge_wingman.Store.Trace.{left}
use forge_wingman.Poll.{Claim}

pub record Outside : Type 0 where
  -- The state that Linear's ticket held before it was moved, empty when none was; `none` where that or the write of
  -- the state failed.
  pub starts : Text → Option Text
  -- Whether GitHub accepts the run's workflow.
  pub accepts : Claim → Bool
  -- Whether Firestore takes the release of a run.
  pub releases : Claim → Bool
  pub now : Text → Time

-- startTicket: a failure is logged and withholds nothing.
unfoldable pub start_ticket : Outside → Text → Db → Db
unfolding record_ticket_state
start_ticket o run_id db = elim (o.starts run_id) [
  | none ↦ db
  | some prior ↦
      if is_empty prior then db else left (λ d. d) db (record_ticket_state run_id prior db)
]

-- What one dispatch reports; a release that fails too is reported with the refusal.
pub data Sent : Type 0 where
  started : Sent
  refused : Option Error → Sent

unfoldable pub released : Db → Result Db → Sent × Db
released db (ok after) = (refused none, after)
released db (err e) = (refused (some e), db)

-- dispatch
unfoldable pub dispatch : Outside → Claim → Db → Sent × Db
unfolding release released
dispatch o cl db =
    if o.accepts cl
    then (started, db)
    else if o.releases cl
    then released db (release cl.run_id (o.now cl.run_id) db)
    else (refused (some store_failed), db)

pub record Dispatched : Type 0 where
  pub dispatched : List Text
  pub refusals : List (Text × Option Error)
  pub db : Db

unfoldable pub add_sent : Text → Sent → Dispatched → Dispatched
add_sent id started d = record d { dispatched = id ∷ d.dispatched }
add_sent id (refused e) d = record d { refusals = (id, e) ∷ d.refusals }

-- The loop over the claims of the walk.
unfoldable pub dispatch_all : Outside → List Claim → Db → Dispatched
unfolding start_ticket dispatch add_sent
dispatch_all o [] db = record { dispatched = []; refusals = []; db = db }
dispatch_all o (cl ∷ cls) db =
    let sent = dispatch o cl (start_ticket o cl.run_id db) in
    add_sent cl.run_id sent.0 (dispatch_all o cls sent.1)

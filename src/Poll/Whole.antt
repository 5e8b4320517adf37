-- ===== src/Poll/Whole.antt =====
-- poll of internal/dispatcher/dispatcher.go: the admission of the delegated issues, the requeue of the runs
-- that stopped, the walk over the queue, and the dispatch of its claims.
pub mod Booked
pub mod Kept
use forge_wingman.Prelude.{ℕ, Bool, true, false, Option, none, some, List, [], ◌∷◌, ◌++◌}
use forge_wingman.Text.{Text}
use forge_wingman.Time.{Time}
use forge_wingman.GoMap.{GoMap}
use forge_wingman.Dispatcher.Settled.{SettledHistory}
use forge_wingman.Dispatcher.Admit.{Relations}
use forge_wingman.Store.Db.{Db, Error, Result}
use forge_wingman.Store.Queue.Claim.{Faults}
use forge_wingman.Tickets.{Issue, Wording}
use forge_wingman.Tickets.Models.{PlanReads}
use forge_wingman.Tickets.Admission.{Admission, Admitted, admit_issues}
use forge_wingman.Poll.{Candidate, Config, candidates}
use forge_wingman.Poll.Facts.{Reads, count_open_prs}
use forge_wingman.Poll.Claims.{Sight, Walked, admit_claims}
use forge_wingman.Poll.Requeues.{Requeued, transient_stops, requeue_stopped}
use forge_wingman.Poll.Dispatch.{Outside, Dispatched, dispatch_all}

-- What one poll reads and asks outside: the delegated issues, none where Linear fails, the owner's plan
-- records, the ids that the queries find in a state, in their order, the settled history of a state, and what Firestore
-- fails of the attempts to claim.
pub record World : Type 0 where
  pub delegated : Option (List Issue)
  pub wording : Wording
  pub plans : PlanReads
  pub private : Text → Option Bool
  pub reads : Reads
  pub outside : Outside
  pub candidate_ids : Db → List Text
  pub stopped_ids : Db → List Text
  pub history : Db → Result SettledHistory
  pub faults : Text → Faults
  pub now : Time

unfoldable pub admission_for : Config → World → Admission
admission_for c w = record {
  allow = c.repos;
  model = c.model;
  wording = w.wording;
  plans = w.plans;
  private = w.private;
  now = w.reads.now;
}

unfoldable pub relations_for : List Issue → GoMap Relations
relations_for [] = []
relations_for (i ∷ issues) =
    (
      i.id,
      record {
        known = true;
        blocked_by = i.blocked_by;
        blocks = i.blocks;
        blocked_by_open = i.blocked_by_open;
      },
    )
    ∷ relations_for issues

unfoldable pub links_for : List Issue → GoMap Text
links_for [] = []
links_for (i ∷ issues) = (i.id, i.url) ∷ links_for issues

-- allowlistRead; a list that could not be read is empty
unfoldable pub allowlist_read : List Text → Bool
allowlist_read [] = false
allowlist_read (repo ∷ repos) = true

unfoldable pub start_admission : Db → Admitted
start_admission db = record { enqueued = []; rejections = []; unchecked = []; db = db }

-- What the poll did, with the failures that it reports.
pub record Polled : Type 0 where
  pub admitted : Admitted
  pub refused : Option Error
  pub requeues : List Error
  pub walked : Option Walked
  pub dispatches : Option Dispatched
  pub db : Db

unfoldable pub sight_for : Config → World → List Issue → Admitted → Db → Sight
unfolding relations_for links_for count_open_prs
sight_for c w issues admitted db = record {
  reads = w.reads;
  history = w.history db;
  faults = w.faults;
  relations = relations_for issues;
  links = links_for issues;
  prs = count_open_prs w.reads c.repos;
  unchecked = admitted.unchecked;
}

unfoldable pub requeue_phase : World → Db → Requeued
unfolding transient_stops requeue_stopped
requeue_phase w db = requeue_stopped w.now (transient_stops (w.stopped_ids db) db) db

unfoldable pub claim_phase : Config → World → List Issue → Admitted → Db → Walked
unfolding sight_for admit_claims candidates
claim_phase c w issues admitted db =
    admit_claims c (sight_for c w issues admitted db) (candidates (w.candidate_ids db) db) db

-- The phases after the admission, with an allowlist to admit against or without one.
unfoldable pub phases : Bool → Config → World → List Issue → Admitted → Polled
unfolding requeue_phase claim_phase dispatch_all
phases false c w issues admitted =
    let requeued = requeue_phase w admitted.db in
    record {
      admitted = admitted;
      refused = none;
      requeues = requeued.errors;
      walked = none;
      dispatches = none;
      db = requeued.db;
    }
phases true c w issues admitted =
    let requeued = requeue_phase w admitted.db in
    let walked = claim_phase c w issues admitted requeued.db in
    let sent = dispatch_all w.outside walked.claims walked.db in
    record {
      admitted = admitted;
      refused = none;
      requeues = requeued.errors;
      walked = some walked;
      dispatches = some sent;
      db = sent.db;
    }

unfoldable pub after_admission :
    Bool → Config → World → List Issue → Admitted × Option Error → Polled
unfolding phases
after_admission listed c w issues (admitted, some e) = record {
  admitted = admitted;
  refused = some e;
  requeues = [];
  walked = none;
  dispatches = none;
  db = admitted.db;
}
after_admission listed c w issues (admitted, none) = phases listed c w issues admitted

unfoldable pub admit_phase : Bool → Config → World → List Issue → Db → Admitted × Option Error
unfolding admission_for admit_issues start_admission
admit_phase false c w issues db = (start_admission db, none)
admit_phase true c w issues db = admit_issues (admission_for c w) issues (start_admission db)

-- poll: none where the delegated issues could not be read
unfoldable pub poll : Config → World → Db → Option Polled
unfolding allowlist_read admit_phase after_admission
poll c w db = elim w.delegated [
  | none ↦ none
  | some issues ↦
      let listed = allowlist_read c.repos in
      some (after_admission listed c w issues (admit_phase listed c w issues db))
]

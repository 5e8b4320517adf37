-- ===== src/Poll/Requeues.antt =====
-- internal/dispatcher/transient.go: a poll returns the runs that stopped on a known transient fault to the
-- queue, and raises a notice for one that has used its requeues. TransientStops of internal/store/queue.go.
pub mod Kept
use forge_wingman.Prelude.{
  ℕ, ◌+◌, Bool, true, false, not, Option, none, some, List, [], ◌∷◌, ◌++◌, leb, if◌then◌else◌,
  length,
}
use forge_wingman.Text.{Text, codes, text_eq, is_empty}
use forge_wingman.Text.Decimal.{itoa}
use forge_wingman.Time.{Time}
use forge_wingman.Runner.{TransientClass, module_proxy, network_timeout, lost_runner}
use forge_wingman.Store.Row.{Row, cancelled_row}
use forge_wingman.Store.Db.{Db, Error, Notice, pending, Result, ok, err}
use forge_wingman.Store.Queue.Requeue.{RequeueResult, requeue_transient}
use forge_wingman.Store.Sweep.{raise}

pub record TransientStop : Type 0 where
  pub run_id : Text
  pub ticket : Text
  pub repo : Text
  pub class : TransientClass
  pub attempts : ℕ

abbrev pub default_transient_requeues : ℕ
default_transient_requeues = 2

-- string(class)
class_text : TransientClass → Text
class_text module_proxy = codes "module-proxy"
class_text network_timeout = codes "network-timeout"
class_text lost_runner = codes "lost-runner"

-- TransientStops, of the rows whose ids its queries found; a row without a class is of none of them.
unfoldable pub transient_stops : List Text → Db → List TransientStop
unfolding cancelled_row
transient_stops [] db = []
transient_stops (id ∷ ids) db =
    let rest = transient_stops ids db in
    elim (db.runs id) [
      | none ↦ rest
      | some row ↦ elim row.transient [
        | none ↦ rest
        | some class ↦
            if cancelled_row row
            then rest
            else (record {
              run_id = id;
              ticket = row.ticket_id;
              repo = row.repo;
              class = class;
              attempts = length row.transient_requeues;
            })
              ∷ rest
      ]
    ]

actions_page : Text → Text
actions_page repo =
    if is_empty repo then [] else codes "https://github.com/" ++ repo ++ codes "/actions"

-- ExhaustedNotice
unfoldable pub exhausted_notice : TransientStop → Time → Text × Notice
unfolding text_eq class_text itoa actions_page
exhausted_notice s at = (
  codes "transient-exhausted-" ++ s.run_id ++ codes "-" ++ itoa s.attempts,
  record {
    class =
        codes "transient-exhausted:"
        ++ s.run_id
        ++ (if text_eq s.ticket s.run_id then [] else codes " ticket " ++ s.ticket)
        ++ codes " "
        ++ class_text s.class
        ++ codes " after "
        ++ itoa s.attempts
        ++ codes " automatic requeues; requeue with: runner requeue -run-id "
        ++ s.run_id;
    detail = [];
    link = actions_page s.repo;
    state = pending;
    raised_at = at;
  },
)

-- What the loop did: the tickets that it put back, each with its state, and the requeues that failed.
pub record Requeued : Type 0 where
  pub restored : List (Text × Text)
  pub errors : List Error
  pub db : Db

unfoldable pub requeued :
    TransientStop → Db → Result (RequeueResult × Db) → (Db → Requeued) → Requeued
requeued s db (err e) rest = let d = rest db in record d { errors = e ∷ d.errors }
requeued s db (ok (res, after)) rest =
    let d = rest after in
    if is_empty res.ticket_state
    then d
    else record d { restored = (s.ticket, res.ticket_state) ∷ d.restored }

-- requeueStopped, over what TransientStops listed; every class of a run's row is listed.
unfoldable pub requeue_stopped : Time → List TransientStop → Db → Requeued
unfolding exhausted_notice raise requeue_transient requeued
requeue_stopped now [] db = record { restored = []; errors = []; db = db }
requeue_stopped now (s ∷ stops) db =
    if leb default_transient_requeues s.attempts
    then requeue_stopped now stops (raise (exhausted_notice s now) db)
    else requeued s db (requeue_transient s.run_id now s.class default_transient_requeues db)
        (requeue_stopped now stops)

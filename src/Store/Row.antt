-- ===== src/Store/Row.antt =====
-- A run's row in the `runs` collection: the queue's own fields and those of the record beside them
-- (internal/store/queue.go, retry.go and decision.go, internal/runner/record.go). A missing field and
-- a zero one are one value here where no code tells them apart, and an `Option` where some code does.
use forge_wingman.Prelude.{ℕ, Bool, true, false, not, ◌||◌, Option, none, some, List, []}
use forge_wingman.Text.{Text}
use forge_wingman.Time.{Time, is_zero}
use forge_wingman.Int64.{Int64}
use forge_wingman.Runner.{Outcome, StopReason, TransientClass, Decision, DecisionMode, ModelLabels}
use forge_wingman.Dispatcher.{Stage}
use forge_wingman.GoMap.{GoMap}
use forge_wingman.Dispatcher.Admit.{Subject}

-- The states that a run holds; `other` is a row that no queue operation wrote a state on.
pub data RunState : Type 0 where
  queued planned claimed waiting stopped abandoned : RunState
  other : Text → RunState

-- slices.Contains(candidateStates, state)
unfoldable pub is_candidate : RunState → Bool
is_candidate queued = true
is_candidate planned = true
is_candidate _ = false

unfoldable pub is_claimed : RunState → Bool
is_claimed claimed = true
is_claimed _ = false

unfoldable pub is_queued : RunState → Bool
is_queued queued = true
is_queued _ = false

unfoldable pub is_waiting : RunState → Bool
is_waiting waiting = true
is_waiting _ = false

unfoldable pub is_abandoned : RunState → Bool
is_abandoned abandoned = true
is_abandoned _ = false

-- decisionEntry
pub record DecisionEntry : Type 0 where
  pub decision : Decision
  pub session_id : Text
  pub asked_at : Time
  pub posted_at : Time
  pub answer : Text
  pub reply : Text
  pub replied_at : Time
  pub provisional : Bool
  pub confirmed_at : Time

pub record Row : Type 0 where
  pub state : RunState
  pub ticket_id : Text
  pub ticket_title : Text
  pub ticket_body : Text
  pub repo : Text
  pub size : Text
  pub sized_by : Text
  pub front_end : Bool
  pub private : Option Bool
  pub model_labels : ModelLabels
  pub linear_priority : Option ℕ
  pub queued_at : Option Time
  pub started_at : Time
  pub updated_at : Time
  pub claimed_at : Time
  pub waiting_on : Text
  pub claim_concurrency : ℕ
  pub held_on : GoMap (List Text)
  pub held_at : Time
  pub attempt : ℕ
  pub ticket_state : Text
  pub blocked_by : List Text
  pub blocks : List Text
  pub plan : Text
  pub plan_files : List Text
  pub plan_settled_at : Time
  pub plan_spend_micros : Int64
  pub plan_spend_minutes : Int64
  pub decision_mode : Option DecisionMode
  pub decisions : List DecisionEntry
  pub provisional_unposted : Bool
  pub provisional_replied : Bool
  pub run_url : Text
  pub outcome : Option Outcome
  pub build_outcome : Option Outcome
  pub stop_reason : Option StopReason
  pub stop_detail : Text
  pub transient : Option TransientClass
  pub transient_requeues : List (TransientClass × Time)
  pub settled_at : Time
  pub settled_cost : Int64
  pub settled_minutes : Int64
  pub prior_settled_cost : Int64
  pub prior_settled_minutes : Int64
  pub retried_at : Time
  pub abandoned_reason : Text
  pub abandoned_at : Time
  pub cancelled_by_owner_at : Time
  pub cancelled_by : Text
  pub ticket_closed_at : Time
  pub merged_by_owner_at : Time
  pub merged_sha : Text
  pub rewrite_merged_at : Option Time
  pub pr_url : Text
  pub pr_head_sha : Text
  pub checks_result : Text
  pub operator_note : Text
  pub operator_assisted : Bool
  pub retried_by : Text
  pub superseded_pr : ℕ
  pub superseded_attempt : Option ℕ
  pub superseded_by_retry : Bool

-- str(row, field) != "", over a field that holds a constant of the source or nothing
abbrev pub is_recorded {ℓ} : {A : Type ℓ} → Option A → Bool
is_recorded none = false
is_recorded (some a) = true

-- hasEnded
unfoldable pub has_ended : Row → Bool
has_ended row = is_recorded row.outcome || is_recorded row.stop_reason

-- planStamped
unfoldable pub plan_stamped : Row → Bool
plan_stamped row = not (is_zero row.plan_settled_at)

-- settled
unfoldable pub settled : Row → Bool
settled row = not (is_zero row.settled_at)

-- cancelledRow
unfoldable pub cancelled_row : Row → Bool
cancelled_row row = not (is_zero row.cancelled_by_owner_at)

-- mergedRow
unfoldable pub merged_row : Row → Bool
merged_row row = is_recorded row.rewrite_merged_at || not (is_zero row.merged_by_owner_at)

-- subject, with the stage of the claim, which the row does not record
unfoldable pub subject : Row → Stage → Subject
subject row stage = record {
  ticket = row.ticket_id;
  repo = row.repo;
  size = row.size;
  blocked_by = row.blocked_by;
  blocks = row.blocks;
  blocked_by_open = [];
  files = row.plan_files;
  stage = stage;
}

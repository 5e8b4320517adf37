-- ===== src/Runner.antt =====
-- The data of internal/runner that the queue keeps on a run's row: outcomes, stop reasons, transient
-- classes, plan decisions and the models that a ticket names.
pub mod Ticket
use forge_wingman.Prelude.{◌≡◌, Bool, true, false, List, Option, some, refl}
use forge_wingman.Text.{Text, codes}
use forge_wingman.Text.Split.{before}

-- runner.Outcome; the empty string, a run that has recorded none, is `none` of an option.
pub data Outcome : Type 0 where
  built pr_opened no_changes stopped agent_failed infra_failure budget_stop : Outcome

-- runner.StopReason
pub data StopReason : Type 0 where
  projection_missing projection_invalid projection_read worktree agent_container : StopReason
  agent_exit completions_upload commit no_build_record model_invalid agent_timeout : StopReason
  git_tampered head_moved secret_in_branch panic pr_job rebase_conflict : StopReason
  summary_invalid summary_unreadable setup record_missing ticket_missing : StopReason
  ticket_not_delivered identity_mismatch allowance_exhausted plan_invalid : StopReason
  checks_run run_budget review_invalid model_unavailable credential_absent : StopReason
  workflow_change plan_stage_failed waiting_on_owner agent_no_progress : StopReason
  formatter_outside_diff model_refused : StopReason

-- runner.TransientClass; every class of the closed list is listed.
pub data TransientClass : Type 0 where
  module_proxy network_timeout lost_runner : TransientClass

pub record DecisionOption : Type 0 where
  pub label : Text
  pub value : Text
  pub cost : Text

pub record Decision : Type 0 where
  pub question : Text
  pub context : List Text
  pub options : List DecisionOption

pub data DecisionMode : Type 0 where
  guided autopilot : DecisionMode

pub record ModelLabels : Type 0 where
  pub build : Text
  pub review : Text
  pub plan : List Text

-- Provider is what stands before the first slash of a model, all of it when it has none.
unfoldable pub provider : Text → Text
unfolding before
provider model = before (codes "/") model

-- The default build model of models.json.
abbrev pub default_model : Text
default_model = codes "command-code/deepseek/deepseek-v4.1-flash"

-- r.Succeeded(): a PR was opened, or there was nothing to change.
unfoldable pub succeeded : Option Outcome → Bool
succeeded (some pr_opened) = true
succeeded (some no_changes) = true
succeeded _ = false

provider_default : provider default_model ≡ codes "command-code"
unfolding provider
provider_default = refl

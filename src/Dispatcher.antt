-- ===== src/Dispatcher.antt =====
-- internal/dispatcher: what a poll decides without input or output.
pub mod Budget
pub mod Settled
pub mod Admit
pub mod Concurrency
pub mod Holds
use forge_wingman.Prelude.{Bool, true, false}

-- The stage that a claim dispatches: the plan alone, the build from a recorded plan, or, for the
-- source's empty string, both in one job.
pub data Stage : Type 0 where
  single plan build : Stage

-- stage == StagePlan
unfoldable pub is_plan : Stage → Bool
is_plan plan = true
is_plan _ = false

-- stage == StageBuild
unfoldable pub is_build : Stage → Bool
is_build build = true
is_build _ = false

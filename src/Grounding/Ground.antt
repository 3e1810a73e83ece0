-- ===== src/Grounding/Ground.antt =====
-- `EmbodiedPlanGrounder.ground`. An exception of the effects' evaluation leaves it, as in the code.
pub mod Valid
use embodied_skill_ros.Prelude.{Option, [], ℕ, ◌++◌}
use embodied_skill_ros.Errors.{Result, ok, ◌>>=◌}
use embodied_skill_ros.State.{RobotState}
use embodied_skill_ros.Plan.{TaskPlan}
use embodied_skill_ros.Capabilities.{BackendCapabilities}
use embodied_skill_ros.Registry.{SkillRegistry}
use embodied_skill_ros.Grounding.Issues.{GroundingReport, report_of}
use embodied_skill_ros.Grounding.Steps.{ground_steps}
use embodied_skill_ros.Grounding.Parallel.{parallel_issues}

-- `ground(plan, state, capabilities)`; `now` is the clock, read once for the whole plan
unfoldable pub ground_plan :
    SkillRegistry → TaskPlan → RobotState → Option BackendCapabilities → ℕ → Result GroundingReport
ground_plan registry plan state capabilities now = do
  issues ← ground_steps registry capabilities now state [] plan.steps
  ok (report_of (issues ++ parallel_issues registry state plan.steps))

-- ===== src/Execution/Machine.antt =====
-- The variables of `SkillExecutor.execute` and its reports. The two nested loops of `execute` are a
-- machine: its control says which loop's test comes next, and one step runs one round.
pub mod Vetted
pub mod Budget
use embodied_skill_ros.Prelude.{Bool, List, Option, String, [], false, true, ℕ, ◌++◌, ◌∷◌}
use embodied_skill_ros.Value.{Value}
use embodied_skill_ros.Errors.{Error, Result, err, ok}
use embodied_skill_ros.State.{RobotState}
use embodied_skill_ros.Skill.Template.{Arguments}
use embodied_skill_ros.Skill.Contract.{RobotSkill}
use embodied_skill_ros.Skill.Outcome.{VerificationResult}
use embodied_skill_ros.Plan.{PlanStep, TaskPlan}
use embodied_skill_ros.Registry.{SkillRegistry}
use embodied_skill_ros.Grounding.Issues.{GroundingIssue}
use embodied_skill_ros.Recovery.{Reason}
use embodied_skill_ros.Guard.{GuardReason}
use embodied_skill_ros.Repair.Search.{Limits}
use embodied_skill_ros.Execution.Backend.{Robot, Session}

-- The entries of `decision` and `trace.decisions`, in the source "EXECUTE", "OBSERVE", "REPAIR",
-- "REPLAN", "STOP", "LOCAL_RETRY", "SAFE_STOP" and "REGROUND".
pub data Decision : Type 0 where
  executing observing repairing replanning stopping retrying giving_up regrounding : Decision

pub record SkillResult : Type 0 where
  pub skill_name : String
  pub arguments : Arguments
  pub command_accepted : Bool
  pub physical_outcome_achieved : Bool
  pub backend_message : String
  pub verification : Option VerificationResult
  pub before_state : RobotState
  pub after_state : RobotState
  pub timed_out : Bool
  pub recovery_triggered : Bool
  pub attempt : ℕ

-- `ExecutionReport.message`, with what its text shows.
pub data Message : Type 0 where
  plan_not_grounded repair_failed repaired_plan_invalid task_completed : Message
  grounding_issues : List GroundingIssue → Message
  exception : Error → Message
  guard_refused : List GuardReason → Message
  outcome_missed : Option VerificationResult → String → Message
  recovery_ended : Reason → Message
  goal_missed : List (String × Value × Value) → Message

-- The trace of a report repeats the data of the results; its decisions are kept.
pub record ExecutionReport : Type 0 where
  pub success : Bool
  pub decision : Decision
  pub plan : TaskPlan
  pub results : List SkillResult
  pub decisions : List Decision
  pub message : Message

-- The attributes of a `SkillExecutor`, but for the backend.
pub record Config : Type 0 where
  pub registry : SkillRegistry
  pub limits : Limits
  pub max_retries : ℕ
  pub max_replans : ℕ
  pub max_observation_attempts : ℕ
  pub replanner : Option (TaskPlan → RobotState → Result (Option TaskPlan))

-- The keyword arguments of `execute`.
pub record Options : Type 0 where
  pub allow_repair : Bool
  pub verify_outcomes : Bool
  pub allow_recovery : Bool
  pub ground_plan : Bool
  pub runtime_guard : Bool
  pub active_observation : Bool
  pub capability_preflight : Bool

abbrev pub default_options : Options
default_options = record {
  allow_repair = true;
  verify_outcomes = true;
  allow_recovery = true;
  ground_plan = true;
  runtime_guard = true;
  active_observation = true;
  capability_preflight = true;
}

-- The local variables of `execute` from the loop on.
pub record Locals : Type 0 where
  pub plan : TaskPlan
  pub index : ℕ
  pub replan_count : ℕ
  pub runtime_repair_count : ℕ
  pub decision : Decision
  pub decisions : List Decision
  pub results : List SkillResult

-- At the test of the outer loop, or at the top of `while True` with its variables.
pub data Control : Type 0 where
  at_step : Control
  attempting : PlanStep → RobotSkill → RobotState → ℕ → Control

pub record Machine (robot : Robot) : Type 0 where
  pub locals : Locals
  pub session : Session robot
  pub control : Control

-- What a round leads to: another round, the end of `execute`, or an exception that leaves it.
pub data Next (robot : Robot) : Type 0 where
  continue : Machine robot → Next robot
  finish : ExecutionReport → Session robot → Next robot
  raised : Error → Next robot

-- `if step raises: leave execute`
unfoldable pub or_raise {ℓ} :
    {A : Type ℓ} {robot : Robot} → Result A → (A → Next robot) → Next robot
or_raise (ok a) f = f a
or_raise (err e) f = raised e

-- `self.backend.stop(); trace.decisions.append("STOP"); return ExecutionReport(False, "STOP", …)`
unfoldable pub stop_with : {robot : Robot} → Message → Locals → Session robot → Next robot
stop_with {robot} message l m =
    finish
      (record {
        success = false;
        decision = stopping;
        plan = l.plan;
        results = l.results;
        decisions = l.decisions ++ stopping ∷ [];
        message = message;
      })
      (record m { world = robot.stop m.world })

-- ===== src/Execution/Step.antt =====
-- One round of the outer loop of `SkillExecutor.execute`: the choice of a step, the runtime guard,
-- and the observation or repair of the rest of the plan where the guard refuses.
pub mod Vetted
pub mod Budgeted
use embodied_skill_ros.Prelude.{
  Bool, List, Option, String, [], drop, get_elem?, if◌then◌else◌, is_nil, ltb, none, not, some,
  take, true, ◌&&◌, ◌++◌, ◌+◌, ◌∷◌,
}
use embodied_skill_ros.Errors.{Result, err, ok, ◌>>=◌}
use embodied_skill_ros.State.{RobotState}
use embodied_skill_ros.Skill.Contract.{RobotSkill, allows, observe, repair}
use embodied_skill_ros.Skill.Parameters.{validate_arguments}
use embodied_skill_ros.Plan.{PlanStep, TaskPlan}
use embodied_skill_ros.Capabilities.{BackendCapabilities}
use embodied_skill_ros.Registry.{skill_named}
use embodied_skill_ros.Grounding.Issues.{GroundingReport, Text-discrete, requires_stop}
use embodied_skill_ros.Grounding.Ground.{ground_plan}
use embodied_skill_ros.Guard.{GuardDecision, GuardReason, guard_check}
use embodied_skill_ros.Repair.Insert.{repair_plan}
use embodied_skill_ros.Execution.Backend.{Robot, Session, acquire_fields, refresh}
use embodied_skill_ros.Execution.Goals.{goal_mismatches, observable_issue_fields}
use embodied_skill_ros.Execution.Machine.{
  Config, ExecutionReport, Locals, Machine, Next, Options, at_step, attempting, continue, exception,
  executing, finish, goal_missed, guard_refused, observing, or_raise, repairing, stop_with,
  task_completed,
}
use embodied_skill_ros.Execution.Attempt.{attempt_round}
use native.Mathlib.Decide.{ℕ_discrete}
use mathlib.Core.Bool.{decide}
use Prim.Native.Nat.{max}

steps-discrete : Discrete (List PlanStep)
unfolding Text-discrete
steps-discrete = hlevel (Text-discrete, ℕ_discrete)

-- `repaired.steps != remaining.steps`
unfoldable pub steps_differ : List PlanStep → List PlanStep → Bool
unfolding steps-discrete decide
steps_differ xs ys = not (decide (steps-discrete xs ys))

module _ (robot : Robot) (config : Config) (options : Options)
    (backend_capabilities : BackendCapabilities) where
  -- The capabilities that the grounder is given.
  abbrev capabilities : Option BackendCapabilities
  capabilities = if options.capability_preflight then some backend_capabilities else none

  at_step_with : Locals → Session robot → Next robot
  at_step_with l m = continue (record { locals = l; session = m; control = at_step })

  -- `self.registry.get(step.skill)` and `skill.validate_arguments(step.arguments)`
  checked_skill : PlanStep → Result RobotSkill
  checked_skill step = do
    skill ← skill_named config.registry step.skill
    passed ← validate_arguments skill step.arguments
    ok skill

  -- The unexecuted suffix of the plan.
  remaining_plan : Locals → TaskPlan
  remaining_plan l = record l.plan { steps = drop l.index l.plan.steps }

  -- Whether the guard's refusal may lead to an observation, and to a repair.
  may_observe : RobotSkill → Locals → Bool
  may_observe skill l =
      options.active_observation
      && allows skill.recovery_policy observe
      && ltb l.runtime_repair_count config.max_observation_attempts

  may_repair : RobotSkill → Locals → GroundingReport → Bool
  may_repair skill l report =
      options.allow_repair
      && allows skill.recovery_policy repair
      && not (requires_stop report)
      && ltb l.runtime_repair_count 2

  -- The plan with its rest replaced by the repaired one.
  spliced : Locals → TaskPlan → Locals
  spliced l repaired = record l {
    plan = record l.plan {
      steps = take l.index l.plan.steps ++ repaired.steps;
      revision = max l.plan.revision repaired.revision;
      metadata = record l.plan.metadata { runtime_repaired = true };
    };
    runtime_repair_count = l.runtime_repair_count + 1;
    decision = elim l.decision [ executing ↦ repairing | other ↦ other ];
    decisions = l.decisions ++ repairing ∷ [];
  }

  after_repair : List GuardReason → Locals → Session robot → Option TaskPlan → Next robot
  unfolding spliced remaining_plan at_step_with
  after_repair reasons l m none = stop_with (guard_refused reasons) l m
  after_repair reasons l m (some repaired) =
      if steps_differ repaired.steps (remaining_plan l).steps
      then at_step_with (spliced l repaired) m
      else stop_with (guard_refused reasons) l m

  try_repair :
      RobotSkill
      → RobotState
      → List GuardReason
      → Locals
      → Session robot
      → GroundingReport
      → Next robot
  unfolding may_repair after_repair remaining_plan
  try_repair skill before reasons l m report =
      if may_repair skill l report
      then or_raise
          (repair_plan config.registry config.limits (remaining_plan l) before report
            (robot.clock m.world))
          (after_repair reasons l m)
      else after_repair reasons l m none

  observe_again : List String → Locals → Session robot → Next robot
  unfolding at_step_with
  observe_again fields l m =
      let (state, m') = acquire_fields robot fields m in
      at_step_with
        (record l {
          runtime_repair_count = l.runtime_repair_count + 1;
          decisions = l.decisions ++ observing ∷ [];
        })
        m'

  after_suffix_report :
      RobotSkill
      → RobotState
      → List GuardReason
      → Locals
      → Session robot
      → GroundingReport
      → Next robot
  unfolding may_observe try_repair observe_again remaining_plan
  after_suffix_report skill before reasons l m report =
      let fields =
        observable_issue_fields config.registry (remaining_plan l) report.issues
          backend_capabilities [] in
      if may_observe skill l && not (is_nil fields)
      then observe_again fields l m
      else try_repair skill before reasons l m report

  -- What follows the guard's decision.
  after_guard :
      PlanStep → RobotSkill → RobotState → Locals → Session robot → GuardDecision → Next robot
  unfolding after_suffix_report remaining_plan
  after_guard step skill before l m d =
      if d.allowed
      then continue (record { locals = l; session = m; control = attempting step skill before 1 })
      else or_raise
          (ground_plan config.registry (remaining_plan l) before capabilities (robot.clock m.world))
          (after_suffix_report skill before d.reasons l m)

  guarded_step : PlanStep → RobotSkill → Locals → Session robot → Next robot
  unfolding after_guard
  guarded_step step skill l m =
      let (before, m') = refresh robot m in
      if options.runtime_guard
      then or_raise (guard_check step skill before (robot.clock m'.world))
          (after_guard step skill before l m')
      else continue (record { locals = l; session = m'; control = attempting step skill before 1 })

  start_step : PlanStep → Locals → Session robot → Result RobotSkill → Next robot
  unfolding guarded_step
  start_step step l m (err e) = stop_with (exception e) l m
  start_step step l m (ok skill) = guarded_step step skill l m

  success_report : Locals → ExecutionReport
  success_report l = record {
    success = true;
    decision = l.decision;
    plan = l.plan;
    results = l.results;
    decisions = l.decisions;
    message = task_completed;
  }

  -- Behind the outer loop: the final goals are tested on a fresh observation.
  end_of_plan : Locals → Session robot → Next robot
  unfolding success_report
  end_of_plan l m =
      if options.verify_outcomes
      then (let (state, m') = refresh robot m in
          let mismatches = goal_mismatches l.plan state in
          if is_nil mismatches
          then finish (success_report l) m'
          else stop_with (goal_missed mismatches) l m')
      else finish (success_report l) m

  -- The test of the outer loop, and its body.
  step_round : Locals → Session robot → Option PlanStep → Next robot
  unfolding end_of_plan start_step checked_skill
  step_round l m none = end_of_plan l m
  step_round l m (some step) = start_step step l m (checked_skill step)

  -- One round of either loop.
  unfoldable pub round : Machine robot → Next robot
  unfolding step_round
  round s = elim s.control [
    | at_step ↦ step_round s.locals s.session (get_elem? s.locals.plan.steps s.locals.index)
    | attempting step skill before attempt ↦
        attempt_round robot config options capabilities step skill before attempt s.locals s.session
  ]

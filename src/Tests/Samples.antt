-- ===== src/Tests/Samples.antt =====
-- Concrete inputs: the initial state of the mock backend, the default registry, plans, and the names
-- that a run computes with.
use embodied_skill_ros.Prelude.{
  List, String, [], false, length, map, none, refl, some, true, ◌∷◌, ◌≡◌,
}
use embodied_skill_ros.Prelude.Dict.{get, put, update}
use embodied_skill_ros.Prelude.Texts.{add, contains, difference, intersection, union}
use embodied_skill_ros.Prelude.Int.{pos}
use embodied_skill_ros.Value.Numbers.{
  absolute, eq_float, finite, is_finite, le_float, lt_float, minus, negate, plus, same_float, scale,
}
use embodied_skill_ros.Value.{
  as_number, bool, equals, float, is_float, is_null, is_number, same_repr, truthy,
}
use embodied_skill_ros.Errors.{ok}
use embodied_skill_ros.State.{
  RobotState, assign, copy_with, epistemic_value, in_conflict, is_known, is_value_field,
  observation_time, observed_names, raw_value, too_old, with_observation_time,
}
use embodied_skill_ros.Skill.Template.{
  Arguments, argument_of, as_arguments, bindings_for_field, format, show,
}
use embodied_skill_ros.Skill.Contract.{allows}
use embodied_skill_ros.Skill.Parameters.{validate_arguments}
use embodied_skill_ros.Skill.Predicates.{
  check_preconditions, evaluate, evaluate_field, evaluate_preconditions, satisfied, unsatisfied,
}
use embodied_skill_ros.Skill.Effects.{
  active, collect_effects, expected_effects, expected_value, project, synthesize_arguments,
  to_float,
}
use embodied_skill_ros.Skill.Outcome.{check_effects, collect_specs, matches, verify_outcome, within}
use embodied_skill_ros.Plan.{PlanStep, TaskPlan, named, no_metadata}
use embodied_skill_ros.Capabilities.{can_observe, can_refresh, objections, semantics_for, supports}
use embodied_skill_ros.Registry.{SkillRegistry, skill_named, synthesize_candidates, synthesize_step}
use embodied_skill_ros.Registry.Builtin.{
  build_default_registry, extend_arm_skill, move_agv_skill, retract_arm_skill, set_head_skill,
  set_lift_skill,
}
use embodied_skill_ros.Constraints.{check_parallel, check_step, group_steps, is_repairable, is_true}
use embodied_skill_ros.Grounding.Issues.{
  deduplicate, knowledge_issue, repairable, report_of, requires_stop,
}
use embodied_skill_ros.Grounding.Steps.{ground_step, ground_steps}
use embodied_skill_ros.Grounding.Parallel.{parallel_issues, skill_map}
use embodied_skill_ros.Grounding.Ground.{ground_plan}
use embodied_skill_ros.Recovery.{decide_recovery}
use embodied_skill_ros.Guard.{guard_check}
use embodied_skill_ros.Repair.Search.{default_limits, fact_satisfied, on_path, search_fact}
use embodied_skill_ros.Repair.Insert.{note_goals, repair_plan}
use embodied_skill_ros.Execution.Backend.{
  Session, acquire_fields, mark_result, open_session, refresh,
}
use embodied_skill_ros.Execution.Goals.{
  goal_matches, goal_mismatches, mismatches_of, observable_issue_fields, policy_for_issue,
  with_goal_state,
}
use embodied_skill_ros.Execution.Machine.{
  Config, ExecutionReport, SkillResult, default_options, exception, or_raise, plan_not_grounded,
  stop_with, stopping,
}
use embodied_skill_ros.Execution.Attempt.{attempt_round}
use embodied_skill_ros.Execution.Step.{round, steps_differ}
use embodied_skill_ros.Execution.Preflight.{preflight}
use embodied_skill_ros.Execution.Run.{Outcome, execute, failed, out_of_fuel, returned, run}
use embodied_skill_ros.Mock.{
  MockRobotBackend, ObservationModel, command_failure, inject_permanent, mock_acquire,
  mock_capabilities, mock_observe, set_state, still_unavailable,
}
use embodied_skill_ros.Mock.Motion.{mock_command}
use embodied_skill_ros.Mock.Robot.{mock_robot, mock_stop}

-- `left_arm_ready=True, …`: the initial state that `MockRobotBackend.__init__` sets up
abbrev pub initial_state : RobotState
initial_state = record {
  attributes =
      ("left_arm_ready", bool true)
      ∷ ("right_arm_ready", bool true)
      ∷ ("left_arm_safe", bool true)
      ∷ ("right_arm_safe", bool true)
      ∷ ("agv_ready", bool true)
      ∷ ("agv_moving", bool false)
      ∷ ("agv_position_m", float (finite (pos 0)))
      ∷ ("lift_ready", bool true)
      ∷ ("lift_height_mm", float (finite (pos 100000000)))
      ∷ ("head_ready", bool true)
      ∷ ("head_yaw_deg", float (finite (pos 0)))
      ∷ ("head_pitch_deg", float (finite (pos 0)))
      ∷ ("emergency_stop", bool false)
      ∷ [];
  active_resources = [];
  facts = [];
  observed_at = [];
  stale_fields = [];
  conflicts = [];
  timestamp = some 0;
}

abbrev pub sensors : ObservationModel
sensors = record {
  hidden_fields = [];
  stale_fields = [];
  overrides = [];
  refreshable_fields = [];
  refresh_failures = [];
  contradictions = [];
}

abbrev pub mock : RobotState → MockRobotBackend
mock world = record {
  world = world;
  observation_model = sensors;
  faults = [];
  permanent_faults = [];
  handlers = [];
  semantics = [];
  acquisition_attempts = [];
  command_log = [];
  time = 0;
}

abbrev pub step_of : String → String → Arguments → PlanStep
step_of id skill arguments = record {
  id = id;
  skill = skill;
  arguments = arguments;
  expected_effect = [];
  parallel_group = none;
  inserted_by = none;
}

abbrev pub plan_of : List PlanStep → TaskPlan
plan_of steps = record {
  goal = "demo";
  steps = steps;
  plan_id = "plan_1";
  revision = 0;
  metadata = no_metadata;
}

abbrev pub skills : SkillRegistry
skills =
    ("retract_arm", retract_arm_skill)
    ∷ ("extend_arm", extend_arm_skill)
    ∷ ("move_agv", move_agv_skill)
    ∷ ("set_lift", set_lift_skill)
    ∷ ("set_head", set_head_skill)
    ∷ []

abbrev pub raise_lift : PlanStep
raise_lift = step_of "step_1" "set_lift" (("height_mm", float (finite (pos 300000000))) ∷ [])

abbrev pub drive : PlanStep
drive =
    step_of "step_1" "move_agv" (
      ("distance_m", float (finite (pos 1000000)))
      ∷ ("speed_mps", float (finite (pos 200000)))
      ∷ [])

abbrev pub config : Config
config = record {
  registry = skills;
  limits = default_limits;
  max_retries = 1;
  max_replans = 1;
  max_observation_attempts = 1;
  replanner = none;
}

-- What a run unfolds.
unfoldable pub program : Unit {0}
unfolding get put update contains collect_specs matches add union intersection difference scale
    negate plus minus absolute lt_float eq_float le_float is_finite same_float as_number is_number
    is_float is_null equals same_repr truthy is_known is_value_field raw_value assign copy_with
    in_conflict observation_time too_old epistemic_value with_observation_time observed_names show
    argument_of format bindings_for_field as_arguments allows validate_arguments satisfied
    evaluate_field evaluate evaluate_preconditions unsatisfied check_preconditions active to_float
    expected_value collect_effects expected_effects project synthesize_arguments within
    check_effects verify_outcome named objections supports can_observe can_refresh semantics_for
    skill_named synthesize_candidates synthesize_step is_repairable is_true check_step group_steps
    check_parallel repairable knowledge_issue requires_stop deduplicate report_of ground_step
    ground_steps skill_map parallel_issues ground_plan decide_recovery guard_check fact_satisfied
    on_path search_fact note_goals repair_plan open_session refresh acquire_fields mark_result
    with_goal_state goal_matches mismatches_of goal_mismatches policy_for_issue
    observable_issue_fields or_raise stop_with attempt_round steps_differ round preflight run
    execute mock_capabilities still_unavailable mock_observe mock_acquire set_state mock_command
    mock_stop inject_permanent retract_arm_skill extend_arm_skill move_agv_skill set_lift_skill
    set_head_skill
program = tt

registry-default : build_default_registry ≡ ok skills
unfolding program build_default_registry
registry-default = refl

pub start : MockRobotBackend → Session mock_robot
unfolding program
start b = open_session mock_robot b

-- The report and the last session of a run that returns.
unfoldable pub report_in : Outcome mock_robot → ExecutionReport
report_in (returned report m) = report
report_in (out_of_fuel s) = record {
  success = false;
  decision = stopping;
  plan = s.locals.plan;
  results = [];
  decisions = [];
  message = plan_not_grounded;
}
report_in (failed e) = record {
  success = false;
  decision = stopping;
  plan = plan_of [];
  results = [];
  decisions = [];
  message = exception e;
}

unfoldable pub session_in : Outcome mock_robot → Session mock_robot
unfolding start
session_in (returned report m) = m
session_in (out_of_fuel s) = s.session
session_in (failed e) = start (mock initial_state)

unfoldable pub lift_run : Outcome mock_robot
lift_run =
    execute mock_robot config default_options 5 (plan_of (raise_lift ∷ []))
      (start (mock initial_state))

-- Commands to the lift are refused from now on.
abbrev pub refusing : MockRobotBackend
unfolding program
refusing =
    inject_permanent "set_lift" (record { mode = command_failure; message = "refused"; drift = [] })
      (mock initial_state)

unfoldable pub refused_run : Outcome mock_robot
refused_run =
    execute mock_robot config default_options 9 (plan_of (raise_lift ∷ [])) (start refusing)

abbrev pub unsafe_state : RobotState
unfolding program
unsafe_state = assign initial_state "left_arm_safe" (bool false)

-- The left arm is not safe at first: the plan is repaired by retracting it.
unfoldable pub repaired_run : Outcome mock_robot
repaired_run =
    execute mock_robot config default_options 9 (plan_of (raise_lift ∷ []))
      (start (mock unsafe_state))

unfoldable pub all_program : Unit {0}
unfolding program start report_in session_in lift_run refused_run repaired_run
all_program = tt

pub lift_run-returned : lift_run ≡ returned (report_in lift_run) (session_in lift_run)
unfolding all_program
lift_run-returned = refl

pub lift_run-success : (report_in lift_run).success ≡ true
unfolding all_program
lift_run-success = refl

pub refused_run-returned : refused_run ≡ returned (report_in refused_run) (session_in refused_run)
unfolding all_program
refused_run-returned = refl

pub refused_run-failure : (report_in refused_run).success ≡ false
unfolding all_program
refused_run-failure = refl

-- The failed command was retried once.
refused_twice : length (report_in refused_run).results ≡ 2
unfolding all_program
refused_twice = refl

repaired_succeeds : (report_in repaired_run).success ≡ true
unfolding all_program
repaired_succeeds = refl

repaired_commands :
    map (λ (r : SkillResult). r.skill_name) (report_in repaired_run).results
    ≡ "retract_arm" ∷ "set_lift" ∷ []
unfolding all_program
repaired_commands = refl

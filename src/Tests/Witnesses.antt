-- ===== src/Tests/Witnesses.antt =====
-- The theorems at concrete inputs.
use embodied_skill_ros.Prelude.{All, String, [], none, refl, some, true, ◌↔◌, ◌∷◌, ◌≡◌, ◌≢◌, ◌⊎◌}
use embodied_skill_ros.Prelude.Dict.{Dict}
use embodied_skill_ros.Prelude.Int.{pos}
use embodied_skill_ros.Value.Numbers.{Float, finite, nan}
use embodied_skill_ros.Value.{Value, float, null, text}
use embodied_skill_ros.Errors.{ok}
use embodied_skill_ros.State.{RobotState, assign, epistemic_value, known}
use embodied_skill_ros.State.Evidence.{IsEvidence, epistemic_value-known}
use embodied_skill_ros.Skill.Template.{Arguments, format, hole, lit}
use embodied_skill_ros.Skill.Template.RoundTrip.{format-bindings_for_field}
use embodied_skill_ros.Skill.Contract.{EffectSpec, Operation, argument}
use embodied_skill_ros.Skill.Parameters.Accepted.{IsValidCall, validate_arguments-IsValidCall}
use embodied_skill_ros.Skill.Predicates.Holds.{Holds, check_preconditions-Holds}
use embodied_skill_ros.Skill.Outcome.{VerificationResult}
use embodied_skill_ros.Skill.Outcome.Verified.{
  AllShown, verify_outcome-achieved, verify_outcome-nan,
}
use embodied_skill_ros.Plan.{TaskPlan, goals, no_metadata}
use embodied_skill_ros.Registry.Builtin.{set_lift_skill}
use embodied_skill_ros.Grounding.Issues.{GroundingReport}
use embodied_skill_ros.Grounding.Steps.Executable.{ExecutablePlan}
use embodied_skill_ros.Grounding.Parallel.{parallel_issues}
use embodied_skill_ros.Grounding.Ground.Valid.{ground_plan-ExecutablePlan}
use embodied_skill_ros.Guard.Allowed.{IsSafe, guard_check-IsSafe}
use embodied_skill_ros.Execution.Backend.{IsObserved}
use embodied_skill_ros.Execution.Goals.{goal_mismatches}
use embodied_skill_ros.Execution.Goals.Met.{GoalMet, goal_mismatches-met}
use embodied_skill_ros.Execution.Machine.{default_options, stopping}
use embodied_skill_ros.Execution.Machine.Vetted.{IsVetted}
use embodied_skill_ros.Execution.Run.Safety.{
  execute-IsVetted, execute-goals_met, execute_failure_stops,
}
use embodied_skill_ros.Mock.{MockRobotBackend, mock_capabilities}
use embodied_skill_ros.Mock.Robot.{mock_robot, mock_stop}
use embodied_skill_ros.Tests.Samples.{
  config, initial_state, lift_run, lift_run-returned, lift_run-success, mock, plan_of, program,
  raise_lift, refused_run, refused_run-failure, refused_run-returned, refusing, report_in,
  session_in, skills, start,
}

execute-IsVetted_example :
    All (IsVetted config default_options mock_robot) (report_in lift_run).results
unfolding lift_run
execute-IsVetted_example =
    execute-IsVetted mock_robot config default_options 5 (plan_of (raise_lift ∷ []))
      (start (mock initial_state)) (report_in lift_run) (session_in lift_run) lift_run-returned

execute-goals_met_example :
    (goal_mismatches (report_in lift_run).plan (session_in lift_run).state ≡ [])
    × IsObserved mock_robot (session_in lift_run)
unfolding lift_run
execute-goals_met_example =
    execute-goals_met mock_robot config default_options 5 (plan_of (raise_lift ∷ []))
      (start (mock initial_state)) (report_in lift_run) (session_in lift_run) lift_run-returned
      lift_run-success refl

execute_failure_stops_example :
    ((report_in refused_run).results ≡ [])
    ⊎ (((report_in refused_run).decision ≡ stopping)
        × ((w : MockRobotBackend) × ((session_in refused_run).world ≡ mock_stop w)))
unfolding refused_run
execute_failure_stops_example =
    execute_failure_stops mock_robot config default_options 9 (plan_of (raise_lift ∷ []))
      (start refusing) (report_in refused_run) (session_in refused_run) refused_run-returned
      refused_run-failure

abbrev lift_arguments : Arguments
lift_arguments = ("height_mm", float (finite (pos 300000000))) ∷ []

abbrev valid_report : GroundingReport
valid_report = record { valid = true; issues = [] }

ground_plan-ExecutablePlan_example :
    ExecutablePlan skills
      (some (mock_capabilities (mock initial_state)))
      0
      initial_state
      []
      (raise_lift ∷ [])
    × (parallel_issues skills initial_state (raise_lift ∷ []) ≡ [])
unfolding program
ground_plan-ExecutablePlan_example =
    ground_plan-ExecutablePlan skills (plan_of (raise_lift ∷ [])) initial_state
      (some (mock_capabilities (mock initial_state))) 0 valid_report refl refl

guard_check-IsSafe_example : IsSafe set_lift_skill lift_arguments initial_state 0
unfolding program
guard_check-IsSafe_example =
    guard_check-IsSafe raise_lift set_lift_skill initial_state 0
      (record { allowed = true; reasons = [] }) refl refl

abbrev lifted : RobotState
unfolding program
lifted = assign initial_state "lift_height_mm" (float (finite (pos 300000500)))

abbrev lift_effects : Dict Value
lift_effects = ("lift_height_mm", float (finite (pos 300000000))) ∷ []

abbrev lift_specs : Dict EffectSpec
unfolding program
lift_specs =
    (
      "lift_height_mm",
      record {
        field = lit "lift_height_mm" ∷ [];
        operation = Operation.replace;
        operand = argument "height_mm";
        when_argument = none;
        tolerance = finite (pos 1000);
      },
    )
    ∷ []

abbrev lift_seen : VerificationResult
lift_seen = record {
  achieved = true;
  failures = [];
  observed = ("lift_height_mm", float (finite (pos 300000500))) ∷ [];
}

verify_outcome-achieved_example :
    (lift_seen.achieved ≡ true) ↔ AllShown lifted 0 none lift_specs lift_effects
unfolding program
verify_outcome-achieved_example =
    verify_outcome-achieved set_lift_skill lift_arguments initial_state lifted none 0 lift_effects
      lift_specs lift_seen refl refl refl

validate_arguments-IsValidCall_example : IsValidCall set_lift_skill lift_arguments
unfolding program
validate_arguments-IsValidCall_example =
    validate_arguments-IsValidCall set_lift_skill lift_arguments refl

check_preconditions-Holds_example :
    All (Holds initial_state 0 lift_arguments) set_lift_skill.preconditions
unfolding program
check_preconditions-Holds_example =
    check_preconditions-Holds set_lift_skill initial_state lift_arguments 0 refl

epistemic_value-known_example :
    ((epistemic_value initial_state "lift_ready" (some 5000000) 3).status ≡ known)
    ↔ IsEvidence initial_state "lift_ready" (some 5000000) 3
epistemic_value-known_example = epistemic_value-known initial_state "lift_ready" (some 5000000) 3

abbrev lift_plan : TaskPlan
lift_plan = record (plan_of (raise_lift ∷ [])) {
  metadata = record no_metadata { goal_state = goals lift_effects };
}

goal_mismatches-met_example : All (λ (p : String × Value). GoalMet lifted p.0 p.1) lift_effects
unfolding program
goal_mismatches-met_example = goal_mismatches-met lift_plan lifted lift_effects refl refl

format-bindings_for_field_example :
    format (hole "arm" ∷ lit "_arm_safe" ∷ []) (("arm", text "left") ∷ []) ≡ ok "left_arm_safe"
unfolding program
format-bindings_for_field_example =
    format-bindings_for_field (hole "arm" ∷ lit "_arm_safe" ∷ []) "left_arm_safe"
      (("arm", "left") ∷ []) (("arm", text "left") ∷ []) refl (refl, tt)

abbrev unreadable : RobotState
unfolding program
unreadable = assign initial_state "lift_height_mm" (float nan)

abbrev nan_seen : VerificationResult
nan_seen = record { achieved = true; failures = []; observed = ("lift_height_mm", float nan) ∷ [] }

nan-IsEvidence : IsEvidence unreadable "lift_height_mm" none 0
unfolding program
nan-IsEvidence = record { present = λ e. cc; agreed = tt; unmarked = refl; fresh = tt }

target_given : (x : Float) → float x ≢ null
target_given x = λ e. cc

verify_outcome-nan_example : nan_seen.achieved ≡ true
unfolding program
verify_outcome-nan_example =
    verify_outcome-nan set_lift_skill lift_arguments initial_state unreadable none 0 lift_effects
      lift_specs nan_seen refl refl refl ((nan-IsEvidence, refl, target_given _, refl), tt)

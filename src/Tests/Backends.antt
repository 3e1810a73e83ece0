-- ===== src/Tests/Backends.antt =====
-- The theorems about the mock backend, recovery and parallel groups at concrete inputs.
use embodied_skill_ros.Prelude.{
  List, String, [], false, inl, inr, none, refl, some, true, ◌∷◌, ◌≡◌, ◌≢◌, ◌⊎◌,
}
use embodied_skill_ros.Prelude.Int.{pos}
use embodied_skill_ros.Value.Numbers.{finite}
use embodied_skill_ros.Value.{bool, float}
use embodied_skill_ros.Errors.{Result, err, ok}
use embodied_skill_ros.State.{epistemic_value, known, raw_value}
use embodied_skill_ros.Skill.Template.{Arguments}
use embodied_skill_ros.Skill.Contract.{Policy, allows, default_policy}
use embodied_skill_ros.Plan.{PlanStep}
use embodied_skill_ros.Registry.Builtin.{set_head_skill, set_lift_skill}
use embodied_skill_ros.Constraints.{check_parallel, overlaps}
use embodied_skill_ros.Constraints.Parallel.{IsCompatible}
use embodied_skill_ros.Constraints.Pairs.{check_parallel-IsCompatible}
use embodied_skill_ros.Recovery.{
  RetryLeft, decide_recovery, decide_recovery-cases, do_replan, do_retry, do_stop,
}
use embodied_skill_ros.Execution.Backend.{CommandReceipt}
use embodied_skill_ros.Mock.{FaultEvent, MockRobotBackend, command_failure, mock_observe}
use embodied_skill_ros.Mock.Hidden.{mock_observe-hidden}
use embodied_skill_ros.Mock.Motion.{mock_command}
use embodied_skill_ros.Mock.Motion.Still.{
  IsDue, NothingDue, drifted_world, mock_command-event, mock_command-inhibited, mode_accepts,
  permanent,
}
use embodied_skill_ros.Tests.Samples.{
  initial_state, mock, refusing, sensors, skills, step_of, unsafe_state,
}
use embodied_skill_ros.Tests.Repairs.{planning}

abbrev refusal : FaultEvent
refusal = record { mode = command_failure; message = "refused"; drift = [] }

abbrev lift_height : Arguments
lift_height = ("height_mm", float (finite (pos 300000000))) ∷ []

unfoldable answer_in :
    Result (CommandReceipt × MockRobotBackend) → CommandReceipt × MockRobotBackend
answer_in (ok a) = a
answer_in (err e) =
    (record { accepted = false; backend_message = ""; timed_out = false }, mock initial_state)

unfoldable refused_lift : CommandReceipt × MockRobotBackend
unfolding answer_in
refused_lift = answer_in (mock_command "set_lift" lift_height refusing)

refusal_given : mock_command "set_lift" lift_height refusing ≡ ok refused_lift
unfolding planning refused_lift
refusal_given = refl

refusal-IsDue : IsDue "set_lift" refusing refusal
unfolding planning
refusal-IsDue = permanent (inl refl) refl

mock_command-event_example :
    ((refused_lift.1).world ≡ drifted_world refusal refusing)
    × ((refused_lift.0).accepted ≡ mode_accepts command_failure)
mock_command-event_example =
    mock_command-event "set_lift" lift_height refusing (refused_lift.1) (refused_lift.0) refusal
      refusal-IsDue refusal_given

unfoldable held_lift : CommandReceipt × MockRobotBackend
unfolding answer_in
held_lift = answer_in (mock_command "set_lift" lift_height (mock unsafe_state))

held_given : mock_command "set_lift" lift_height (mock unsafe_state) ≡ ok held_lift
unfolding planning held_lift
held_given = refl

lift-NothingDue : NothingDue "set_lift" (mock unsafe_state)
unfolding planning
lift-NothingDue = record { no_queue = inl refl; no_permanent = refl }

arm_unsafe : raw_value unsafe_state "left_arm_safe" ≢ bool true
unfolding planning
arm_unsafe e = cc

mock_command-inhibited_example :
    ((held_lift.1).world ≡ (mock unsafe_state).world) × ((held_lift.0).accepted ≡ true)
unfolding planning
mock_command-inhibited_example =
    mock_command-inhibited "set_lift" lift_height (mock unsafe_state) (held_lift.1) (held_lift.0)
      lift-NothingDue (inr refl) (inl arm_unsafe) held_given

decide_recovery-cases_example :
    ((decide_recovery 1 2 false true default_policy).action ≡ do_retry)
      × RetryLeft 1 2 default_policy
    ⊎ ((decide_recovery 1 2 false true default_policy).action ≡ do_replan)
      × (¬ RetryLeft 1 2 default_policy)
      × (allows default_policy Policy.replan ≡ true)
      × (true ≡ true)
    ⊎ ((decide_recovery 1 2 false true default_policy).action ≡ do_stop)
      × (¬ RetryLeft 1 2 default_policy)
      × ((allows default_policy Policy.replan ≡ false) ⊎ (true ≡ false))
decide_recovery-cases_example = decide_recovery-cases 1 2 false true default_policy

abbrev blind : MockRobotBackend
blind = record (mock initial_state) {
  observation_model = record sensors { hidden_fields = "lift_height_mm" ∷ [] };
}

mock_observe-hidden_example :
    (epistemic_value ((mock_observe blind).0) "lift_height_mm" none 0).status ≢ known
unfolding planning
mock_observe-hidden_example = mock_observe-hidden blind "lift_height_mm" none 0 refl refl refl

abbrev grouped : String → String → Arguments → PlanStep
grouped id skill arguments = record (step_of id skill arguments) {
  parallel_group = some "together";
}

abbrev together : List PlanStep
together =
    grouped "step_1" "set_head" (("yaw_deg", float (finite (pos 10000000))) ∷ [])
    ∷ grouped "step_2" "set_lift" lift_height
    ∷ []

nothing_found : check_parallel together skills ≡ []
unfolding planning overlaps
nothing_found = refl

check_parallel-IsCompatible_example : IsCompatible set_lift_skill set_head_skill
unfolding planning
check_parallel-IsCompatible_example =
    check_parallel-IsCompatible skills [] [] []
      (grouped "step_1" "set_head" (("yaw_deg", float (finite (pos 10000000))) ∷ []))
      (grouped "step_2" "set_lift" lift_height) set_head_skill set_lift_skill "together"
      nothing_found refl refl refl refl

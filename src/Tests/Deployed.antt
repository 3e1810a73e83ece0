-- ===== src/Tests/Deployed.antt =====
-- A run of the executor over the Kargo backend of the laboratory.
use embodied_skill_ros.Prelude.{All, [], false, refl, true, ℕ, ◌∷◌, ◌≡◌}
use embodied_skill_ros.Prelude.Dict.{Dict}
use embodied_skill_ros.Prelude.Texts.{contains}
use embodied_skill_ros.Prelude.Int.{pos}
use embodied_skill_ros.Value.Numbers.{finite}
use embodied_skill_ros.Value.{Value, float, int}
use embodied_skill_ros.Plan.{TaskPlan, goals}
use embodied_skill_ros.Execution.Backend.{Robot, Session, open_session}
use embodied_skill_ros.Execution.Machine.{
  Config, ExecutionReport, default_options, exception, plan_not_grounded, stopping,
}
use embodied_skill_ros.Execution.Run.{Outcome, execute, failed, out_of_fuel, returned}
use embodied_skill_ros.Kargo.{kargo_capabilities, observable_names, supported_names}
use embodied_skill_ros.Kargo.Observe.{kargo_observe, query_all, state_of_readings}
use embodied_skill_ros.Kargo.Observe.Sourced.{answers}
use embodied_skill_ros.Kargo.Command.{
  admission_failure, kargo_capabilities_of, kargo_command, kargo_robot, kargo_stop,
}
use embodied_skill_ros.Kargo.Skills.{kargo_skills, set_waist_skill}
use embodied_skill_ros.Kargo.Executed.{MetRecently, execute-MetRecently}
use embodied_skill_ros.Tests.Samples.{config, plan_of, program, step_of}
use embodied_skill_ros.Tests.Deployment.{moving_config}
use embodied_skill_ros.Tests.Laboratory.{lab}

abbrev turn_waist : TaskPlan
turn_waist = plan_of (step_of "step_1" "set_waist" (("angle_deg", int (pos 1)) ∷ []) ∷ [])

abbrev lab_robot : Robot
lab_robot = kargo_robot lab moving_config

abbrev lab_config : Config
lab_config = record config { registry = kargo_skills }

unfoldable waist_run : Outcome lab_robot
waist_run = execute lab_robot lab_config default_options 5 turn_waist (open_session lab_robot 0)

unfoldable report_of_run : Outcome lab_robot → ExecutionReport
report_of_run (returned report m) = report
report_of_run (out_of_fuel s) = record {
  success = false;
  decision = stopping;
  plan = s.locals.plan;
  results = [];
  decisions = [];
  message = plan_not_grounded;
}
report_of_run (failed e) = record {
  success = false;
  decision = stopping;
  plan = turn_waist;
  results = [];
  decisions = [];
  message = exception e;
}

unfoldable session_of_run : Outcome lab_robot → Session lab_robot
session_of_run (returned report m) = m
session_of_run (out_of_fuel s) = s.session
session_of_run (failed e) = open_session lab_robot 0

-- What this run unfolds besides.
unfoldable waist_program : Unit {0}
unfolding program kargo_command admission_failure kargo_capabilities_of kargo_capabilities
    supported_names observable_names kargo_observe query_all state_of_readings kargo_stop
    set_waist_skill waist_run report_of_run session_of_run
waist_program = tt

waist_run-success : (report_of_run waist_run).success ≡ true
unfolding waist_program
waist_run-success = refl

waist_run-returned : waist_run ≡ returned (report_of_run waist_run) (session_of_run waist_run)
unfolding waist_program
waist_run-returned = refl

abbrev waist_goal : Dict Value
waist_goal = ("waist_angle_deg", float (finite (pos 1000000))) ∷ []

waist_goals : (report_of_run waist_run).plan.metadata.goal_state ≡ goals waist_goal
unfolding waist_program
waist_goals = refl

execute-MetRecently_example :
    (w : ℕ) × ((session_of_run waist_run).world ≡ (kargo_observe lab moving_config w).1)
    × All
        (MetRecently
          (answers lab moving_config w)
          (session_of_run waist_run).state
          ((kargo_observe lab moving_config w).0)
          moving_config
          (lab.clock w))
        waist_goal
unfolding waist_run contains
execute-MetRecently_example =
    execute-MetRecently lab moving_config lab_config default_options 5 turn_waist
      (open_session lab_robot 0) (report_of_run waist_run) (session_of_run waist_run) waist_goal
      waist_run-returned waist_run-success refl waist_goals (refl, tt)

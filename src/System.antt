-- ===== src/System.antt =====
-- embodied_skill_ros/system.py: the executor over the mock backend, with the default registry and
-- the goal-directed replanner.
use embodied_skill_ros.Prelude.{some, ℕ}
use embodied_skill_ros.Errors.{Result, ok, ◌>>=◌}
use embodied_skill_ros.Plan.{TaskPlan}
use embodied_skill_ros.Registry.Builtin.{build_default_registry}
use embodied_skill_ros.Replanner.{replan_task}
use embodied_skill_ros.Repair.Search.{default_limits}
use embodied_skill_ros.Execution.Backend.{open_session}
use embodied_skill_ros.Execution.Machine.{Config, default_options}
use embodied_skill_ros.Execution.Run.{Outcome, execute}
use embodied_skill_ros.Mock.{MockRobotBackend}
use embodied_skill_ros.Mock.Robot.{mock_robot}

-- The executor's attributes as `build_mock_system(initial_state, max_retries, max_replans)` leaves
-- them.
unfoldable pub mock_system : ℕ → ℕ → Result Config
mock_system max_retries max_replans = do
  registry ← build_default_registry
  ok (record {
    registry = registry;
    limits = default_limits;
    max_retries = max_retries;
    max_replans = max_replans;
    max_observation_attempts = 1;
    replanner = some (replan_task registry);
  })

-- `run_plan(plan)`, with the backend as `MockRobotBackend.__init__` leaves it
unfoldable pub run_plan : ℕ → Config → TaskPlan → MockRobotBackend → Outcome mock_robot
run_plan fuel config plan backend =
    execute mock_robot config default_options fuel plan (open_session mock_robot backend)

-- ===== src/Mock/Robot.antt =====
-- The mock backend as a robot of the executor. `stop` is the command "safe_stop", as in the base
-- class.
use embodied_skill_ros.Prelude.{[]}
use embodied_skill_ros.Errors.{Result, err, ok}
use embodied_skill_ros.Execution.Backend.{CommandReceipt, Robot}
use embodied_skill_ros.Mock.{MockRobotBackend, mock_acquire, mock_capabilities, mock_observe}
use embodied_skill_ros.Mock.Motion.{mock_command}

stopped : MockRobotBackend → Result (CommandReceipt × MockRobotBackend) → MockRobotBackend
stopped b (ok (r, b')) = b'
stopped b (err e) = b

-- `stop`
unfoldable pub mock_stop : MockRobotBackend → MockRobotBackend
unfolding stopped
mock_stop b = stopped b (mock_command "safe_stop" [] b)

-- Time for the executor's stopwatch does not pass during a command.
abbrev pub mock_robot : Robot
mock_robot = record {
  World = MockRobotBackend;
  capabilities = mock_capabilities;
  observe = mock_observe;
  acquire = mock_acquire;
  command = mock_command;
  stop = mock_stop;
  clock = λ b. b.time;
  monotonic = λ b. 0;
}

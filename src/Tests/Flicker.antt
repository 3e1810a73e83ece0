-- ===== src/Tests/Flicker.antt =====
-- A robot whose left arm reads unsafe right behind each failed command, and safe again at the next
-- look: the executor sends the failing command again and again.
use embodied_skill_ros.Prelude.{
  [], false, if◌then◌else◌, leb, length, nat_eq, refl, ℕ, ◌%◌, ◌&&◌, ◌+◌, ◌∷◌, ◌≡◌,
}
use embodied_skill_ros.Errors.{ok}
use embodied_skill_ros.State.{RobotState}
use embodied_skill_ros.Execution.Backend.{Robot, open_session}
use embodied_skill_ros.Execution.Machine.{default_options}
use embodied_skill_ros.Execution.Run.{Outcome, execute, failed, out_of_fuel, returned}
use embodied_skill_ros.Mock.{mock_capabilities}
use embodied_skill_ros.Tests.Samples.{
  all_program, config, initial_state, mock, plan_of, program, raise_lift, unsafe_state,
}

-- The third look from the fourth on is at the state behind a failed command.
abbrev flickering_state : ℕ → RobotState
unfolding program
flickering_state n = if leb 4 n && nat_eq (n % 3) 1 then unsafe_state else initial_state

abbrev flickering : Robot
unfolding program flickering_state
flickering = record {
  World = ℕ;
  capabilities = λ n. mock_capabilities (mock initial_state);
  observe = λ n. (flickering_state n, n + 1);
  acquire = λ fields n. (flickering_state n, n + 1);
  command = λ name arguments n.
      ok (record { accepted = false; backend_message = "refused"; timed_out = false }, n);
  stop = λ n. n;
  clock = λ n. 0;
  monotonic = λ n. 0;
}

unfoldable flickering_run : ℕ → Outcome flickering
unfolding program
flickering_run fuel =
    execute flickering config default_options fuel (plan_of (raise_lift ∷ []))
      (open_session flickering 0)

commands_sent : Outcome flickering → ℕ
commands_sent (out_of_fuel s) = length s.locals.results
commands_sent (returned report m) = 0
commands_sent (failed e) = 0

-- The budget is one retry, and the command is sent a fifth time.
five_commands : commands_sent (flickering_run 10) ≡ 5
unfolding all_program flickering_run commands_sent
five_commands = refl

-- ===== src/Ros/Node/Runs.antt =====
-- The callbacks of the fake robot in any order: each runs alone, but for the lock, and a goal's end
-- comes some time after its start.
use embodied_skill_ros.Prelude.{List, String, [], ℕ, ◌∷◌}
use embodied_skill_ros.Ros.Robot.{Envelope, FakeRobot, Goal, Scenario}
use embodied_skill_ros.Ros.Node.{
  accept_goal, configure, install_command, publish_due, refresh_observation, safe_stop,
}
use embodied_skill_ros.Ros.Node.Execute.{WaitEnd, begin_goal, finish_goal}

-- A callback with what it is given and the clocks that it reads.
pub data Event : Type 0 where
  configured : Scenario → ℕ → Event
  commanded : Envelope → Event
  refresh_asked : List String → ℕ → ℕ → Event
  stop_asked : ℕ → Event
  timer_fired : ℕ → ℕ → Event
  goal_asked goal_begun : ℕ → Event
  goal_ended : Goal → WaitEnd → ℕ → ℕ → Event

unfoldable pub step : Event → FakeRobot → FakeRobot
unfolding configure install_command refresh_observation safe_stop publish_due accept_goal begin_goal
    finish_goal
step (configured s stamp) r = configure s stamp r
step (commanded e) r = install_command e r
step (refresh_asked fields stamp now) r = refresh_observation fields stamp now r
step (stop_asked stamp) r = safe_stop stamp r
step (timer_fired stamp now) r = publish_due stamp now r
step (goal_asked request_id) r = (accept_goal request_id r).1
step (goal_begun request_id) r = (begin_goal request_id r).1
step (goal_ended g end stamp now) r = (finish_goal g end stamp now r).1

unfoldable pub steps : List Event → FakeRobot → FakeRobot
unfolding step
steps [] r = r
steps (e ∷ es) r = steps es (step e r)

-- ===== src/Tests/Runtime.antt =====
-- The fake robot and its client over short runs.
use embodied_skill_ros.Prelude.{
  List, [], arith, false, inl, inr, none, refl, some, subst, sym, true, ◌*◌, ◌++◌, ◌+◌, ◌∷◌, ◌≡◌,
}
use embodied_skill_ros.Prelude.Dict.{get, put}
use embodied_skill_ros.Prelude.Int.{pos}
use embodied_skill_ros.Value.Numbers.{finite, scale}
use embodied_skill_ros.Value.{as_number, float, int}
use embodied_skill_ros.Skill.Template.{argument_of}
use embodied_skill_ros.Skill.Effects.{to_float}
use embodied_skill_ros.Ros.Robot.{Goal, StateMessage, normal_behavior}
use embodied_skill_ros.Ros.Node.{
  accept_goal, install_command, next_behavior, publish, schedule, shown_state, start_node,
}
use embodied_skill_ros.Ros.Node.Execute.{
  Watch, apply_transition, begin_goal, conclude_goal, finish_goal, interfered, stalled_out,
  transition_goal, wait, waited,
}
use embodied_skill_ros.Ros.Node.Execute.Waited.{HasEnded, IsClock, wait-HasEnded}
use embodied_skill_ros.Ros.Node.Execute.Moved.{WorldAfter, finish_goal-WorldAfter}
use embodied_skill_ros.Ros.Node.Runs.{
  Event, commanded, goal_asked, goal_begun, goal_ended, step, steps,
}
use embodied_skill_ros.Ros.Node.Numbered.{Numbered, steps-Numbered}
use embodied_skill_ros.Ros.Client.{
  Arrivals, GoalCalls, client_command, client_observe, new_client, receive_all, result_returned,
  returned, status_succeeded, unavailable,
}
use embodied_skill_ros.Ros.Client.Newest.{Comes}
use embodied_skill_ros.Ros.Client.Delivered.{Delivers, Published, receive_all-newest}
use embodied_skill_ros.Ros.Client.Observed.{ObservedFrom, client_command-ObservedFrom}

abbrev ticking : Watch
ticking = record { elapsed = λ k. k * 10000; cancel = λ k. false; woken = λ k. (k + 1) * 10000 }

ticking-IsClock : IsClock ticking
ticking-IsClock = record { sleeps = λ k. omega arith; later = λ k. omega arith }

three_rounds : wait ticking normal_behavior 5 0 ≡ (3, waited)
unfolding wait
three_rounds = refl

stalling_ends :
    wait ticking (record normal_behavior { mode = "stall" }) 1002 0 ≡ (1000, stalled_out)
unfolding wait
stalling_ends = refl

wait-HasEnded_example : HasEnded ticking normal_behavior 30000 (wait ticking normal_behavior 1004 0)
wait-HasEnded_example =
    wait-HasEnded ticking normal_behavior 30000 1004 refl ticking-IsClock (omega arith)

abbrev lift_goal : Goal
lift_goal = record {
  request_id = 1;
  skill = "set_lift";
  arguments = ("height_mm", int (pos 300)) ∷ [];
  behavior = normal_behavior;
}

finish_goal-WorldAfter_example :
    WorldAfter lift_goal
      (start_node 0)
      ((finish_goal lift_goal waited 5 5 (start_node 0)).0)
      ((finish_goal lift_goal waited 5 5 (start_node 0)).1).world
finish_goal-WorldAfter_example = finish_goal-WorldAfter lift_goal waited 5 5 (start_node 0)

abbrev one_goal : List Event
one_goal =
    commanded
      record { request_id = 1; skill = "set_lift"; arguments = ("height_mm", int (pos 300)) ∷ [] }
    ∷ goal_asked 1
    ∷ goal_begun 1
    ∷ goal_ended lift_goal waited 5 5
    ∷ []

lift_moved :
    get "lift_height_mm" (steps one_goal (start_node 0)).world
    ≡ some (float (finite (pos 300000000)))
unfolding steps step start_node publish install_command accept_goal next_behavior begin_goal
    finish_goal transition_goal conclude_goal interfered apply_transition schedule argument_of
    to_float as_number scale get put
lift_moved = refl

two_published : (steps one_goal (start_node 0)).sequence ≡ 2
unfolding steps step start_node publish install_command accept_goal next_behavior begin_goal
    finish_goal transition_goal conclude_goal interfered apply_transition schedule argument_of
    to_float as_number scale get put
two_published = refl

steps-Numbered_example : Numbered (steps one_goal (start_node 0))
steps-Numbered_example = steps-Numbered one_goal 0

abbrev first_message : StateMessage
unfolding start_node publish
first_message = record {
  sequence = 1;
  reason = "startup";
  state = shown_state (record (start_node 0) { sequence = 0; published = [] }) 0;
}

abbrev twice : Arrivals
twice = some first_message ∷ none ∷ some first_message ∷ []

only_startup : (steps [] (start_node 0)).published ≡ first_message ∷ []
unfolding steps start_node publish
only_startup = refl

in_twice : (x m : StateMessage) → Comes m (some x ∷ none ∷ some x ∷ []) → Published m (x ∷ [])
in_twice x m (inl e) = inl cc
in_twice x m (inr (inl e)) = cc
in_twice x m (inr (inr (inl e))) = inl cc
in_twice x m (inr (inr (inr h))) = absurd h

twice-Delivers : Delivers (steps [] (start_node 0)) twice
twice-Delivers m h = subst (Published m) (sym only_startup) (in_twice first_message m h)

receive_all-newest_example :
    ((receive_all twice new_client).latest ≡ some first_message.state)
    × ((receive_all twice new_client).sequence ≡ (steps [] (start_node 0)).sequence)
receive_all-newest_example =
    receive_all-newest [] 0 first_message [] twice only_startup twice-Delivers (inl refl)

abbrev good_calls : GoalCalls
good_calls = record {
  installed = returned true;
  response = returned true;
  result = result_returned status_succeeded;
  cancellation = unavailable "not asked";
  late_result = unavailable "not asked";
}

client_command-ObservedFrom_example :
    ObservedFrom 0
      ([] ++ twice)
      (client_observe twice ((client_command good_calls [] new_client).1))
unfolding client_command
client_command-ObservedFrom_example =
    client_command-ObservedFrom good_calls [] twice new_client refl

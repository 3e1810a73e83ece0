-- ===== src/Ros/Node/Execute.antt =====
-- embodied_skill_ros/ros2/fake_robot_node.py: `_execute` and `_apply_transition`. While a goal waits,
-- other callbacks run; so its start, its loop and its end are three functions. The loop asks the
-- clock and the goal handle, which are given for each of its rounds.
pub mod Waited
pub mod Moved
use embodied_skill_ros.Prelude.{
  Bool, List, Option, String, [], false, if◌then◌else◌, is_some, ltb, nat_eq, none, not, some, suc,
  true, zero, ℕ, ◌&&◌, ◌+◌, ◌==◌, ◌||◌, ◌∷◌,
}
use embodied_skill_ros.Prelude.Dict.{Dict, get, put}
use embodied_skill_ros.Prelude.Int.{pos}
use embodied_skill_ros.Value.Numbers.{Float, finite, lt_float, plus}
use embodied_skill_ros.Value.{Value, bool, float}
use embodied_skill_ros.Errors.{Error, Result, err, missing_key, ok, unknown_skill, ◌>>=◌}
use embodied_skill_ros.Skill.Template.{Arguments, argument_of, show}
use embodied_skill_ros.Skill.Effects.{active, to_float}
use embodied_skill_ros.Ros.Robot.{Behavior, Envelope, FakeRobot, Goal, normal_behavior}
use embodied_skill_ros.Ros.Node.{forget_goal, publish, schedule}
use Prim.Native.String.{◌++◌ as append}

behavior_of : ℕ → List (ℕ × Behavior) → Behavior
behavior_of request_id [] = normal_behavior
behavior_of request_id ((n, b) ∷ active) =
    if nat_eq n request_id then b else behavior_of request_id active

goal_of : ℕ → Behavior → Option Envelope → Result Goal
goal_of request_id b none = err (missing_key "skill")
goal_of request_id b (some e) =
    ok record { request_id = request_id; skill = e.skill; arguments = e.arguments; behavior = b }

-- The start of `_execute`
unfoldable pub begin_goal : ℕ → FakeRobot → Result Goal × FakeRobot
unfolding behavior_of goal_of forget_goal
begin_goal request_id r = (
  goal_of request_id (behavior_of request_id r.active_behavior) r.command_envelope,
  record r { active_behavior = forget_goal request_id r.active_behavior },
)

-- What the loop reads: the time since the start at its test and behind its sleep, and whether a
-- cancellation was requested.
pub record Watch : Type 0 where
  pub elapsed : ℕ → ℕ
  pub cancel : ℕ → Bool
  pub woken : ℕ → ℕ

pub data WaitEnd : Type 0 where
  waited canceled_wait stalled_out out_of_fuel : WaitEnd

abbrev pub stalls : Behavior → Bool
stalls b = b.mode == "stall"

-- `while mode == "stall" or time.monotonic() - started < duration_s`, from round k on: the round in
-- which the loop ends, and how
unfoldable pub wait : Watch → Behavior → ℕ → ℕ → ℕ × WaitEnd
unfolding lt_float
wait w b zero k = (k, out_of_fuel)
wait w b (suc fuel) k =
    let rest = wait w b fuel (k + 1) in
    if stalls b || lt_float (finite (pos (w.elapsed k))) b.duration
    then if w.cancel k
      then (k, canceled_wait)
      else if stalls b && ltb 10000000 (w.woken k)
      then (k, stalled_out)
      else rest
    else (k, waited)

-- One argument that is a number, and the world that holds it under a name.
write_number : Arguments → String → String → Dict Value → Option Error × Dict Value
unfolding argument_of to_float put
write_number arguments name field_name world = elim (argument_of arguments name >>= to_float) [
  | ok x ↦ (none, put field_name (float x) world)
  | err e ↦ (some e, world)
]

write_given : Arguments → String → String → Dict Value → Option Error × Dict Value
unfolding write_number get
write_given arguments name field_name world =
    if is_some (get name arguments)
    then write_number arguments name field_name world
    else (none, world)

then_write :
    Option Error × Dict Value → (Dict Value → Option Error × Dict Value) → Option Error × Dict Value
then_write (some e, world) next = (some e, world)
then_write (none, world) next = next world

arm_retracted : Result Value → Dict Value → Option Error × Dict Value
unfolding put show
arm_retracted (err e) world = (some e, world)
arm_retracted (ok arm) world = (
  none,
  put (append (show arm) "_arm_ready") (bool true)
      (put (append (show arm) "_arm_safe") (bool true) world),
)

arm_extended : Result Value → Dict Value → Option Error × Dict Value
unfolding put show
arm_extended (err e) world = (some e, world)
arm_extended (ok arm) world = (none, put (append (show arm) "_arm_safe") (bool false) world)

position_in : Option Value → Result Float
unfolding to_float
position_in none = ok (finite (pos 0))
position_in (some v) = to_float v

base_moved : Result Float → Dict Value → Option Error × Dict Value
unfolding put
base_moved (err e) world = (some e, world)
base_moved (ok x) world = (none, put "agv_position_m" (float x) world)

move_base : Arguments → Dict Value → Option Error × Dict Value
unfolding base_moved position_in get argument_of to_float plus
move_base arguments world =
    base_moved
      (do
        position ← position_in (get "agv_position_m" world)
        v ← argument_of arguments "distance_m"
        distance ← to_float v
        ok (plus position distance))
      world

one_metre : Value
one_metre = float (finite (pos 1000000))

-- `_apply_transition`: what it raises, and the world that it leaves
unfoldable pub apply_transition : String → Arguments → Dict Value → Option Error × Dict Value
unfolding arm_retracted arm_extended move_base write_number write_given then_write one_metre put
    argument_of
apply_transition skill arguments world =
    if skill == "retract_arm"
    then arm_retracted (argument_of arguments "arm") world
    else if skill == "extend_arm"
    then arm_extended (argument_of arguments "arm") world
    else if skill == "move_agv"
    then move_base arguments world
    else if skill == "set_lift"
    then write_number arguments "height_mm" "lift_height_mm" world
    else if skill == "set_head"
    then then_write (write_given arguments "yaw_deg" "head_yaw_deg" world)
        (write_given arguments "pitch_deg" "head_pitch_deg")
    else if skill == "primary_route" || skill == "alternate_route"
    then (none, put "arrived" (bool true) world)
    else if skill == "guarded_inspection"
    then (none, put "inspection_done" (bool true) world)
    else if skill == "timeout_move"
    then (none, put "test_position" one_metre world)
    else if skill == "cancel_move"
    then (none, put "cancel_position" one_metre world)
    else if skill == "delayed_move"
    then (none, put "delayed_position" one_metre world)
    else if skill == "no_motion_move"
    then (none, put "no_motion_position" one_metre world)
    else if skill == "reject_move"
    then (none, put "reject_position" one_metre world)
    else (some (unknown_skill skill), world)

-- How a goal ended; a goal whose callback raises is left to the action server.
pub data GoalEnd : Type 0 where
  succeeded : Bool → GoalEnd
  aborted canceled : GoalEnd
  failed : Error → GoalEnd
  waiting : GoalEnd

-- The change from outside that a script makes just before the transition.
unfoldable pub interfered : Behavior → FakeRobot → FakeRobot
unfolding put
interfered b r = if b.mode == "toctou" then record r { world = put b.field b.value r.world } else r

pub transitions : Behavior → Bool
transitions b = not (b.mode == "no_motion" || b.mode == "fresh_spoof")

-- The observation behind the transition, unless the transition raised.
unfoldable pub conclude_goal :
    Behavior → Bool → Option Error × Dict Value → ℕ → ℕ → FakeRobot → GoalEnd × FakeRobot
unfolding schedule
conclude_goal b moved (some e, world) stamp now r = (failed e, record r { world = world })
conclude_goal b moved (none, world) stamp now r = (
  succeeded moved,
  schedule b.observation_delay "post_action" stamp now (record r { world = world }),
)

unfoldable pub transition_goal : Goal → ℕ → ℕ → FakeRobot → GoalEnd × FakeRobot
unfolding conclude_goal transitions apply_transition
transition_goal g stamp now r =
    if transitions g.behavior
    then conclude_goal g.behavior true (apply_transition g.skill g.arguments r.world) stamp now r
    else conclude_goal g.behavior false (none, r.world) stamp now r

-- The end of `_execute`, behind the loop
unfoldable pub finish_goal : Goal → WaitEnd → ℕ → ℕ → FakeRobot → GoalEnd × FakeRobot
unfolding publish transition_goal interfered
finish_goal g canceled_wait stamp now r = (canceled, publish "action_canceled" stamp r)
finish_goal g stalled_out stamp now r = (aborted, r)
finish_goal g out_of_fuel stamp now r = (waiting, r)
finish_goal g waited stamp now r =
    if g.behavior.mode == "abort"
    then (aborted, publish "action_aborted" stamp r)
    else transition_goal g stamp now (interfered g.behavior r)

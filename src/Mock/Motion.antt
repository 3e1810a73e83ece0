-- ===== src/Mock/Motion.antt =====
-- `MockRobotBackend.command`: the injected faults, the inhibition of motion, and the built-in
-- transitions.
pub mod Still
use embodied_skill_ros.Prelude.{
  Bool, List, Option, String, [], false, if◌then◌else◌, is_nil, none, not, some, true, ◌&&◌, ◌++◌,
  ◌==◌, ◌||◌, ◌∷◌,
}
use embodied_skill_ros.Prelude.Dict.{Dict, get, put}
use embodied_skill_ros.Value.Numbers.{plus}
use embodied_skill_ros.Value.{Value, bool, float, null}
use embodied_skill_ros.Errors.{Result, ok, ◌>>=◌}
use embodied_skill_ros.State.{RobotState, raw_value}
use embodied_skill_ros.Skill.Template.{Arguments, argument_of, show}
use embodied_skill_ros.Skill.Effects.{to_float}
use embodied_skill_ros.Constraints.{is_true}
use embodied_skill_ros.Execution.Backend.{CommandReceipt}
use embodied_skill_ros.Mock.{
  FaultEvent, MockRobotBackend, command_failure, physical_failure, set_state, state_drift, timeout,
}
use Prim.Native.String.{◌++◌ as append}

receipt : Bool → String → Bool → CommandReceipt
receipt accepted message timed_out = record {
  accepted = accepted;
  backend_message = message;
  timed_out = timed_out;
}

-- The next event of a skill's queue, or its permanent fault, and the queues then.
next_event :
    String → MockRobotBackend → Option (List FaultEvent) → Option FaultEvent × MockRobotBackend
next_event name b (some (event ∷ events)) =
    (some event, record b { faults = put name events b.faults })
next_event name b _ = (get name b.permanent_faults, b)

drifted : Option FaultEvent → MockRobotBackend → MockRobotBackend
drifted none b = b
drifted (some event) b = if is_nil event.drift then b else set_state event.drift b

-- The receipt of a command that an injected event answers.
faulted : Option FaultEvent → Option CommandReceipt
unfolding receipt
faulted none = none
faulted (some event) = elim event.mode [
  | timeout ↦ some (receipt false event.message true)
  | command_failure ↦ some (receipt false event.message false)
  | physical_failure ↦ some (receipt true event.message false)
  | state_drift ↦ some (receipt true event.message false)
]

-- Motion of the base and the lift waits for both arms.
pub inhibited : String → RobotState → Bool
unfolding is_true
inhibited skill_name world =
    (skill_name == "move_agv" || skill_name == "set_lift")
    && (not (is_true (raw_value world "left_arm_safe"))
        || not (is_true (raw_value world "right_arm_safe")))

arm_changes : Bool → Value → Dict Value
arm_changes safe arm =
    put (append (show arm) "_arm_ready") (bool true)
      (put (append (show arm) "_arm_safe") (bool safe) [])

-- A base without a position stays without one, and the distance is not read then.
moved : Value → Arguments → Result Value
moved null arguments = ok null
moved place arguments = do
  v ← argument_of arguments "distance_m"
  distance ← to_float v
  x ← to_float place
  ok (float (plus x distance))

head_change : String → String → Arguments → Dict Value → Result (Dict Value)
head_change argument_name field_name arguments changes = elim (get argument_name arguments) [
  | none ↦ ok changes
  | some v ↦ do x ← to_float v; ok (put field_name (float x) changes)
]

-- The changes of a built-in skill; none for a skill that is not built in.
builtin_changes : String → Arguments → RobotState → Option (Result (Dict Value))
unfolding arm_changes moved head_change
builtin_changes skill_name arguments world =
    if skill_name == "retract_arm"
    then some (do arm ← argument_of arguments "arm"; ok (arm_changes true arm))
    else if skill_name == "extend_arm"
    then some (do arm ← argument_of arguments "arm"; ok (arm_changes false arm))
    else if skill_name == "move_agv"
    then some (do
      position ← moved (raw_value world "agv_position_m") arguments
      ok (("agv_moving", bool false) ∷ ("agv_position_m", position) ∷ []))
    else if skill_name == "set_lift"
    then some (do
      v ← argument_of arguments "height_mm"
      height ← to_float v
      ok (("lift_height_mm", float height) ∷ []))
    else if skill_name == "set_head"
    then some (do
      yaw ← head_change "yaw_deg" "head_yaw_deg" arguments []
      head_change "pitch_deg" "head_pitch_deg" arguments yaw)
    else if skill_name == "safe_stop"
    then some (ok (("agv_moving", bool false) ∷ []))
    else none

-- `safe_stop` also frees the resources.
freed : String → MockRobotBackend → MockRobotBackend
freed skill_name b =
    if skill_name == "safe_stop"
    then record b { world = record b.world { active_resources = [] } }
    else b

apply_changes :
    String → MockRobotBackend → Result (Dict Value) → Result (CommandReceipt × MockRobotBackend)
unfolding receipt
apply_changes skill_name b r = do
  changes ← r
  ok (receipt true "mock command accepted" false, set_state changes b)

-- The transition of a command that no fault answers.
transition : String → Arguments → MockRobotBackend → Result (CommandReceipt × MockRobotBackend)
unfolding apply_changes builtin_changes freed receipt
transition skill_name arguments b = elim (get skill_name b.handlers) [
  | some handler ↦ apply_changes skill_name b (handler b.world arguments)
  | none ↦ elim (builtin_changes skill_name arguments b.world) [
    | some changes ↦ apply_changes skill_name (freed skill_name b) changes
    | none ↦ ok (receipt false (append "mock backend does not implement " skill_name) false, b)
  ]
]

unfaulted : String → Arguments → MockRobotBackend → Result (CommandReceipt × MockRobotBackend)
unfolding inhibited transition receipt
unfaulted skill_name arguments b =
    if inhibited skill_name b.world
    then ok (
      receipt true "mock command accepted; motion inhibited until both arms are transport-safe"
          false,
      b,
    )
    else transition skill_name arguments b

answer :
    String
    → Arguments
    → Option CommandReceipt
    → MockRobotBackend
    → Result (CommandReceipt × MockRobotBackend)
unfolding unfaulted
answer skill_name arguments (some r) b = ok (r, b)
answer skill_name arguments none b = unfaulted skill_name arguments b

-- `command`
unfoldable pub mock_command :
    String → Arguments → MockRobotBackend → Result (CommandReceipt × MockRobotBackend)
unfolding next_event drifted faulted answer
mock_command skill_name arguments b =
    let logged = record b { command_log = b.command_log ++ (skill_name, arguments) ∷ [] } in
    let (event, b') = next_event skill_name logged (get skill_name logged.faults) in
    answer skill_name arguments (faulted event) (drifted event b')

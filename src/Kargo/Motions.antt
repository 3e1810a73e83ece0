-- ===== src/Kargo/Motions.antt =====
-- embodied_skill_ros/integrations/jaka_kargo/skill_adapter.py: the branches of
-- `JakaKargoBackend.command` that move something. Of the messages of Python's own exceptions only the
-- name or the value at fault is kept.
use embodied_skill_ros.Prelude.{
  Bool, List, Option, String, false, if◌then◌else◌, none, not, some, true, ℕ, ◌==◌,
}
use embodied_skill_ros.Prelude.Int.{negsuc, pos}
use embodied_skill_ros.Prelude.Dict.{get}
use embodied_skill_ros.Value.Numbers.{Float, finite, negate, plus}
use embodied_skill_ros.Value.{Value, as_number, float}
use embodied_skill_ros.Errors.{Error, Result, err, missing_key, not_a_number, ok}
use embodied_skill_ros.State.{
  KnowledgeStatus, contradictory, epistemic_value, is_known, known, stale, unknown,
}
use embodied_skill_ros.Skill.Template.{Arguments, show}
use embodied_skill_ros.Execution.Backend.{CommandReceipt}
use embodied_skill_ros.Kargo.{
  ArmCommandScope, KargoConfig, arm_target, legacy_bilateral_preset, single_arm_service,
}
use embodied_skill_ros.Kargo.Transport.{
  Answer, Asks, Transport, TransportResult, answered, other_error, timeout_error,
}
use embodied_skill_ros.Kargo.Observe.{kargo_observe}
use Prim.Native.String.{◌++◌ as append}

unfoldable pub denial : String → CommandReceipt
denial message = record { accepted = false; backend_message = message; timed_out = false }

-- `_receipt`
unfoldable pub kargo_receipt : TransportResult → CommandReceipt
kargo_receipt r = record {
  accepted = r.accepted;
  backend_message = r.message;
  timed_out = r.timed_out;
}

unfoldable pub status_text : KnowledgeStatus → String
status_text known = "KNOWN"
status_text unknown = "UNKNOWN"
status_text stale = "STALE"
status_text contradictory = "CONTRADICTORY"

-- A finite age in seconds, in microseconds; the configuration's check excludes the negative ones.
unfoldable pub micros : Float → Option ℕ
micros (finite (pos n)) = some n
micros (finite (negsuc n)) = some 0
micros _ = none

fault_text : Error → String
unfolding show
fault_text (missing_key name) = append "'" (append name "'")
fault_text (not_a_number v) = append "not a number: " (show v)
fault_text _ = "invalid"

-- `except Exception as exc`
unfoldable pub adapter_error : String → CommandReceipt
unfolding denial
adapter_error message = denial (append "JAKA/Kargo adapter error: " message)

unfoldable pub or_not_a_number : Value → Option Float → Result Float
or_not_a_number v none = err (not_a_number v)
or_not_a_number v (some x) = ok x

-- `float(arguments[name])`
unfoldable pub number_of : String → Option Value → Result Float
unfolding as_number or_not_a_number
number_of name none = err (missing_key name)
number_of name (some v) = or_not_a_number v (as_number v)

or_otherwise : Option Value → Value → Value
or_otherwise none v = v
or_otherwise (some w) v = w

-- The receipt of a call of the transport, with the two handlers.
unfoldable pub called : Answer TransportResult → CommandReceipt
unfolding kargo_receipt adapter_error
called (answered r) = kargo_receipt r
called (timeout_error message) = record {
  accepted = false;
  backend_message = message;
  timed_out = true;
}
called (other_error message) = adapter_error message

module _ {W : Type 0} (t : Transport W) (c : KargoConfig) where
  -- A step of a command: the receipt and the world after it.
  abbrev pub Sends : Type 0
  Sends = W → CommandReceipt × W

  unfoldable pub refuse : String → Sends
  unfolding denial
  refuse message w = (denial message, w)

  unfoldable pub fail : String → Sends
  unfolding adapter_error
  fail message w = (adapter_error message, w)

  unfoldable pub relayed : Asks W TransportResult → Sends
  unfolding called
  relayed call w = let (answer, w') = call w in (called answer, w')

  -- A number that an argument gives, or the handler for the exception.
  unfoldable pub with_number : Result Float → (Float → Sends) → Sends
  unfolding fail fault_text
  with_number (err e) next w = fail (fault_text e) w
  with_number (ok x) next w = next x w

  -- `move_external_axis(axis, target, …)` with the configured speed
  unfoldable pub move_axis : ℕ → Float → Asks W TransportResult
  move_axis axis target =
      t.move_external_axis axis target c.external_axis_velocity c.external_axis_acceleration
        c.service_timeout

  retract_to : String → Result (Option (List Float)) → Sends
  unfolding refuse fail relayed
  retract_to arm (err e) w = fail (append "unknown arm: " arm) w
  retract_to arm (ok none) w = refuse "calibrated transport target is unavailable" w
  retract_to arm (ok (some target)) w =
      relayed
        (t.move_arm_joints (if arm == "left" then 0 else 1) target c.arm_velocity c.arm_acceleration
          c.service_timeout)
        w

  retract_named : Option Value → Sends
  unfolding retract_to show fail arm_target
  retract_named none w = fail "'arm'" w
  retract_named (some v) w = retract_to (show v) (arm_target c (show v)) w

  -- A bilateral preset cannot implement the contract of one arm.
  retract_arm : ArmCommandScope → Arguments → Sends
  unfolding retract_named get refuse
  retract_arm legacy_bilateral_preset arguments w =
      refuse
        "semantic mismatch: legacy bilateral preset cannot implement single-arm retract contract" w
  retract_arm single_arm_service arguments w = retract_named (get "arm" arguments) w

  set_axis : ℕ → String → Arguments → Sends
  unfolding with_number number_of relayed move_axis get
  set_axis axis name arguments w =
      with_number (number_of name (get name arguments)) (λ x. relayed (move_axis axis x)) w

  completed_text : Bool → Bool → String
  completed_text true true = "legacy services accepted head axes: ['yaw', 'pitch']"
  completed_text true false = "legacy services accepted head axes: ['yaw']"
  completed_text false true = "legacy services accepted head axes: ['pitch']"
  completed_text false false = "legacy services accepted head axes: []"

  unfoldable pub completed : Bool → Bool → Sends
  unfolding completed_text
  completed yaw pitch w =
      (record { accepted = true; backend_message = completed_text yaw pitch; timed_out = false }, w)

  -- The receipt behind the call for pitch; `yaw` tells whether yaw was moved before it.
  unfoldable pub pitch_sent : Bool → Answer TransportResult × W → CommandReceipt × W
  unfolding completed called
  pitch_sent yaw (answered r, w) = if r.accepted then completed yaw true w else (
    record {
      accepted = false;
      backend_message =
          append (if yaw then "partial effect (yaw already accepted); " else "") r.message;
      timed_out = r.timed_out;
    },
    w,
  )
  pitch_sent yaw (error, w) = (called error, w)

  unfoldable pub set_pitch : Bool → Option Value → Sends
  unfolding completed with_number number_of pitch_sent move_axis negate
  set_pitch yaw none w = completed yaw false w
  set_pitch yaw (some v) w =
      with_number (number_of "pitch_deg" (some v))
        (λ x w'. pitch_sent yaw (move_axis 3 (negate x) w')) w

  unfoldable pub yaw_sent : Option Value → Answer TransportResult × W → CommandReceipt × W
  unfolding set_pitch called kargo_receipt
  yaw_sent pitch (answered r, w) =
      if r.accepted then set_pitch true pitch w else (kargo_receipt r, w)
  yaw_sent pitch (error, w) = (called error, w)

  unfoldable pub set_head : Option Value → Option Value → Sends
  unfolding set_pitch with_number number_of yaw_sent move_axis
  set_head none pitch w = set_pitch false pitch w
  set_head (some v) pitch w =
      with_number (number_of "yaw_deg" (some v)) (λ x w'. yaw_sent pitch (move_axis 2 x w')) w

  unfoldable pub send_base : Arguments → Float → Float → Sends
  unfolding with_number number_of or_otherwise relayed plus get
  send_base arguments x d w =
      with_number
        (number_of "speed_mps"
          (some (or_otherwise (get "speed_mps" arguments) (float (finite (pos 200000))))))
        (λ speed. relayed (t.navigate_agv_x (plus x d) speed c.agv_map_name c.service_timeout)) w

  unfoldable pub navigate_from : Arguments → Float → Sends
  unfolding with_number number_of get send_base
  navigate_from arguments x w =
      with_number (number_of "distance_m" (get "distance_m" arguments)) (send_base arguments x) w

  unfoldable pub navigate : Arguments → Value → Sends
  unfolding with_number number_of navigate_from
  navigate arguments position w =
      with_number (number_of "agv_position_m" (some position)) (navigate_from arguments) w

  -- The target of the base is grounded in a new reading of its odometry.
  unfoldable pub move_agv : Arguments → Sends
  unfolding kargo_observe epistemic_value is_known micros refuse status_text navigate
  move_agv arguments w =
      let (before, w') = kargo_observe t c w in
      let evidence =
        epistemic_value before "agv_position_m" (micros c.observation_max_age) (t.clock w') in
      if not (is_known evidence.status)
      then refuse
          (append "AGV odometry x is "
            (append (status_text evidence.status) "; target cannot be grounded"))
          w'
      else navigate arguments evidence.value w'

  -- The commands that are admitted.
  unfoldable pub dispatch : String → Arguments → Sends
  unfolding retract_arm set_axis set_head move_agv refuse get
  dispatch name arguments w =
      if name == "retract_arm"
      then retract_arm c.arm_command_scope arguments w
      else if name == "set_lift"
      then set_axis 0 "height_mm" arguments w
      else if name == "set_waist"
      then set_axis 1 "angle_deg" arguments w
      else if name == "set_head"
      then set_head (get "yaw_deg" arguments) (get "pitch_deg" arguments) w
      else if name == "move_agv"
      then move_agv arguments w
      else refuse (append "JAKA/Kargo adapter does not implement " name) w

-- ===== src/Kargo/Readings.antt =====
-- embodied_skill_ros/integrations/jaka_kargo/state_provider.py: what the observation of one device
-- writes into the state. Only measured values are written.
use embodied_skill_ros.Prelude.{
  Bool, List, Option, String, [], false, if◌then◌else◌, is_some, length, nat_eq, none, not, some,
  true, ℕ, ◌&&◌, ◌==◌, ◌∷◌,
}
use embodied_skill_ros.Prelude.Dict.{Dict}
use embodied_skill_ros.Prelude.Int.{pos}
use embodied_skill_ros.Value.Numbers.{Float, absolute, le_float, minus, negate}
use embodied_skill_ros.Value.{Value, bool, float, floats, int, null, text}
use embodied_skill_ros.Errors.{Result, ok}
use embodied_skill_ros.Kargo.{KargoConfig, arm_target}
use embodied_skill_ros.Kargo.Transport.{AgvObservation, ArmObservation, AxisObservation, StampText}
use Prim.Native.Nat.{Ordering}
use Prim.Native.String.{◌++◌ as append, compare as compare_text}

or_null_float : Option Float → Value
or_null_float none = null
or_null_float (some x) = float x

or_null_bool : Option Bool → Value
or_null_bool none = null
or_null_bool (some b) = bool b

or_null_text : Option String → Value
or_null_text none = null
or_null_text (some s) = text s

or_null_int : Option ℕ → Value
or_null_int none = null
or_null_int (some n) = int (pos n)

or_null_floats : Option (List Float) → Value
or_null_floats none = null
or_null_floats (some xs) = floats xs

all_close : Float → List Float → List Float → Bool
unfolding le_float absolute minus
all_close tolerance [] ys = true
all_close tolerance xs [] = true
all_close tolerance (x ∷ xs) (y ∷ ys) =
    le_float (absolute (minus x y)) tolerance && all_close tolerance xs ys

compared : Float → List Float → Result (Option (List Float)) → Value
unfolding all_close
compared tolerance joints (ok (some target)) =
    if nat_eq (length joints) (length target)
    then bool (all_close tolerance joints target)
    else null
compared tolerance joints _ = null

-- `_arm_safe`; `observe` calls it for the two arms that have a target.
unfoldable pub arm_safe : KargoConfig → String → ArmObservation → Value
unfolding compared
arm_safe c arm o =
    if c.transport_pose_calibrated
    then compared c.transport_joint_tolerance o.joint_positions (arm_target c arm)
    else null

-- `powered and enabled and not on_limit`
unfoldable pub usable_axis : AxisObservation → Bool
usable_axis o = o.powered && o.enabled && not o.on_limit

-- `min(s, t)`: the first of equal texts
unfoldable pub earlier : StampText → StampText → StampText
earlier s t = elim (compare_text t.written s.written) [ Ordering.lt ↦ t | _ ↦ s ]

-- What one observation writes: values, facts, the names recorded with its time, and its source.
pub record Reading : Type 0 where
  pub values : Dict Value
  pub facts : Dict Value
  pub names : List String
  pub stamp : StampText
  pub source : String

unfoldable pub lift_reading : AxisObservation → Reading
unfolding or_null_float usable_axis
lift_reading lift = record {
  values = ("lift_height_mm", float lift.position) ∷ ("lift_ready", bool (usable_axis lift)) ∷ [];
  facts =
      ("lift_in_position", bool lift.in_position)
      ∷ ("lift_commanded_mm", or_null_float lift.commanded_position)
      ∷ [];
  names = "lift_height_mm" ∷ "lift_ready" ∷ "lift_in_position" ∷ "lift_commanded_mm" ∷ [];
  stamp = lift.observed_at;
  source = lift.source;
}

unfoldable pub waist_reading : AxisObservation → Reading
unfolding usable_axis
waist_reading waist = record {
  values = [];
  facts =
      ("waist_angle_deg", float waist.position)
      ∷ ("waist_ready", bool (usable_axis waist))
      ∷ ("waist_in_position", bool waist.in_position)
      ∷ [];
  names = "waist_angle_deg" ∷ "waist_ready" ∷ "waist_in_position" ∷ [];
  stamp = waist.observed_at;
  source = waist.source;
}

unfoldable pub yaw_reading : AxisObservation → Reading
yaw_reading yaw = record {
  values = ("head_yaw_deg", float yaw.position) ∷ [];
  facts = [];
  names = "head_yaw_deg" ∷ [];
  stamp = yaw.observed_at;
  source = yaw.source;
}

-- The external axis counts pitch downwards.
unfoldable pub pitch_reading : AxisObservation → Reading
unfolding negate
pitch_reading pitch = record {
  values = ("head_pitch_deg", float (negate pitch.position)) ∷ [];
  facts = [];
  names = "head_pitch_deg" ∷ [];
  stamp = pitch.observed_at;
  source = pitch.source;
}

unfoldable pub head_reading : AxisObservation → AxisObservation → Reading
unfolding usable_axis earlier
head_reading yaw pitch = record {
  values = ("head_ready", bool (usable_axis yaw && usable_axis pitch)) ∷ [];
  facts = [];
  names = "head_ready" ∷ [];
  stamp = earlier yaw.observed_at pitch.observed_at;
  source = append yaw.source " axes 2/3";
}

unfoldable pub arm_reading : KargoConfig → String → ArmObservation → Reading
unfolding arm_safe
arm_reading c arm o = record {
  values =
      (append arm "_arm_ready", if c.arm_pose_query_implies_ready then bool true else null)
      ∷ (append arm "_arm_safe", arm_safe c arm o)
      ∷ [];
  facts =
      (append arm "_arm_joint_positions_rad", floats o.joint_positions)
      ∷ (append arm "_arm_tcp_pose_mm_rad", floats o.tcp_pose)
      ∷ [];
  names =
      append arm "_arm_ready"
      ∷ append arm "_arm_safe"
      ∷ append arm "_arm_joint_positions_rad"
      ∷ append arm "_arm_tcp_pose_mm_rad"
      ∷ [];
  stamp = o.observed_at;
  source = o.source;
}

not_true : Option Bool → Bool
not_true (some true) = false
not_true _ = true

no_fault : Option String → Bool
no_fault none = true
no_fault (some s) = s == ""

unfoldable pub agv_is_ready : AgvObservation → Bool
unfolding not_true no_fault
agv_is_ready agv =
    is_some agv.position_x
    && is_some agv.motion_state_id
    && is_some agv.emergency_stop
    && not_true agv.emergency_stop
    && no_fault agv.fault

unfoldable pub agv_reading : AgvObservation → Reading
unfolding agv_is_ready or_null_float or_null_bool or_null_text or_null_int or_null_floats
agv_reading agv = record {
  values =
      ("agv_position_m", or_null_float agv.position_x)
      ∷ ("agv_moving", or_null_bool agv.moving)
      ∷ ("agv_ready", bool (agv_is_ready agv))
      ∷ [];
  facts =
      ("agv_position_y_m", or_null_float agv.position_y)
      ∷ ("agv_orientation_xyzw", or_null_floats agv.orientation)
      ∷ ("agv_motion_state_id", or_null_int agv.motion_state_id)
      ∷ ("agv_emergency_stop", or_null_bool agv.emergency_stop)
      ∷ ("agv_fault", or_null_text agv.fault)
      ∷ [];
  names =
      "agv_position_m" ∷ "agv_moving" ∷ "agv_ready" ∷ "agv_position_y_m" ∷ "agv_orientation_xyzw"
      ∷ "agv_motion_state_id" ∷ "agv_emergency_stop" ∷ "agv_fault" ∷ [];
  stamp = agv.observed_at;
  source = agv.source;
}

unfoldable pub stop_reading : AgvObservation → Reading
unfolding or_null_bool or_null_text
stop_reading agv = record {
  values =
      ("emergency_stop", or_null_bool agv.emergency_stop) ∷ ("fault", or_null_text agv.fault) ∷ [];
  facts = [];
  names = "emergency_stop" ∷ "fault" ∷ [];
  stamp = agv.observed_at;
  source = agv.source;
}

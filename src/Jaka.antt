-- ===== src/Jaka.antt =====
-- `JakaRobotBackend` of embodied_skill_ros/backends/jaka_backend.py: its capabilities and commands
-- over legacy skill objects. These objects are parameters: a call of one changes a state of theirs
-- and returns, times out or raises. What `bool(…)` makes of a returned value is kept.
pub mod Honest
pub mod Succeeded
use embodied_skill_ros.Prelude.{
  Bool, List, Option, String, [], false, if◌then◌else◌, is_some, none, not, some, true, ◌&&◌, ◌++◌,
  ◌==◌, ◌∷◌,
}
use embodied_skill_ros.Prelude.Dict.{Dict, get}
use embodied_skill_ros.Prelude.Texts.{contains, union}
use embodied_skill_ros.Prelude.Int.{pos}
use embodied_skill_ros.Value.Numbers.{Float, absolute, finite, le_float, lt_float}
use embodied_skill_ros.Value.{Value, as_number, float, text}
use embodied_skill_ros.State.{value_fields}
use embodied_skill_ros.Capabilities.{BackendCapabilities, ParameterDomain, SkillSemantics}
use embodied_skill_ros.Execution.Backend.{CommandReceipt}
use Prim.Native.String.{◌++◌ as append}

pub data Reply : Type 0 where
  replied : Bool → Reply
  timeout_error other_error : String → Reply

-- A call of a legacy object, on their state.
abbrev pub Calls : Type 0 → Type 0
Calls W = W → Reply × W

pub record AgvAdapter (W : Type 0) : Type 0 where
  pub drive_distance : String → Float → Value → Calls W
  pub stop_agv_motion : Calls W

pub record HeadAdapter (W : Type 0) : Type 0 where
  pub yaw_to : Value → Calls W
  pub pitch_to : Value → Calls W

pub record JakaAdapters (W : Type 0) : Type 0 where
  pub arm : Option (String → Calls W)
  pub agv : Option (AgvAdapter W)
  pub lift : Option (Value → Calls W)
  pub head : Option (HeadAdapter W)
  pub transport_pose_name : Option String
  pub has_state_provider : Bool
  pub has_position_provider : Bool

supported_if : Bool → List String → List String → List String
supported_if test more names = if test then union names more else names

module _ {W : Type 0} (j : JakaAdapters W) where
  unfoldable pub jaka_supported : List String
  unfolding supported_if
  jaka_supported = supported_if (is_some j.head) ("set_head" ∷ []) (
      supported_if (is_some j.lift) ("set_lift" ∷ []) (
        supported_if (is_some j.agv) ("move_agv" ∷ [])
          (supported_if (is_some j.arm && is_some j.transport_pose_name) ("retract_arm" ∷ []) [])))

  -- The fields of a state but for the bookkeeping ones.
  state_fields : List String
  state_fields = "active_resources" ∷ value_fields

  jaka_observable : List String
  unfolding supported_if state_fields
  jaka_observable =
      if j.has_state_provider
      then state_fields
      else supported_if (is_some j.head) ("head_yaw_deg" ∷ "head_pitch_deg" ∷ "head_ready" ∷ []) (
          supported_if (is_some j.lift) ("lift_height_mm" ∷ "lift_ready" ∷ []) (
            supported_if j.has_position_provider ("agv_position_m" ∷ "agv_ready" ∷ []) (
              supported_if (is_some j.arm) ("left_arm_ready" ∷ "right_arm_ready" ∷ [])
                ("last_skill_result" ∷ []))))

  described_if : String → List ParameterDomain → List String → List SkillSemantics
  described_if name domains effects =
      if contains name jaka_supported
      then record {
        skill_name = name;
        parameter_domains = domains;
        unavoidable_effect_fields = effects;
      }
        ∷ []
      else []

  jaka_semantics : List SkillSemantics
  unfolding described_if
  jaka_semantics =
      described_if "retract_arm"
        (record {
          name = "arm";
          choices = some (text "left" ∷ text "right" ∷ []);
          minimum = none;
          maximum = none;
        }
          ∷ [])
        ("left_arm_safe" ∷ "right_arm_safe" ∷ [])
      ++ described_if "move_agv"
          (record {
            name = "speed_mps";
            choices = none;
            minimum = some (finite (pos 10000));
            maximum = some (finite (pos 500000));
          }
            ∷ [])
          []
      ++ described_if "set_lift"
          (record {
            name = "height_mm";
            choices = none;
            minimum = some (finite (pos 0));
            maximum = some (finite (pos 780000000));
          }
            ∷ [])
          []

  -- `capabilities`
  unfoldable pub jaka_capabilities : BackendCapabilities
  unfolding jaka_observable jaka_semantics
  jaka_capabilities = record {
    backend_name = "JakaRobotBackend";
    supported_skills = some jaka_supported;
    observable_fields = some jaka_observable;
    supports_safe_stop = false;
    refreshable_fields = if j.has_state_provider then jaka_observable else [];
    skill_semantics = jaka_semantics;
  }

  denied : String → CommandReceipt
  denied message = record { accepted = false; backend_message = message; timed_out = false }

  -- The receipt of a call's end, with the two handlers.
  legacy_receipt : Reply → CommandReceipt
  unfolding denied
  legacy_receipt (replied true) = record {
    accepted = true;
    backend_message = "legacy ROS2/SDK call returned success";
    timed_out = false;
  }
  legacy_receipt (replied false) = denied "legacy call failed"
  legacy_receipt (timeout_error message) = record {
    accepted = false;
    backend_message = message;
    timed_out = true;
  }
  legacy_receipt (other_error message) = denied (append "adapter error: " message)

  asked : Reply × W → CommandReceipt × W
  unfolding legacy_receipt
  asked (reply, w) = (legacy_receipt reply, w)

  retract : Option (String → Calls W) → Option String → W → CommandReceipt × W
  unfolding asked
  retract (some go_preset) (some pose) w = asked (go_preset pose w)
  retract _ _ w = (denied "UNKNOWN: validated transport arm pose is not configured", w)

  speed_of : Option Value → Value
  speed_of none = float (finite (pos 200000))
  speed_of (some v) = v

  -- `arguments["distance_m"]` that is missing or no number raises before the call. What the drive
  -- returns is not looked at.
  drive_by : AgvAdapter W → Option Value → Value → W → Reply × W
  unfolding lt_float absolute as_number
  drive_by agv none speed w = (other_error "distance_m", w)
  drive_by agv (some v) speed w = elim (as_number v) [
    | none ↦ (other_error "distance_m", w)
    | some distance ↦
        let backward = not (le_float (finite (pos 0)) distance) in
        let (reply, w') =
          agv.drive_distance (if backward then "backward" else "forward") (absolute distance) speed
            w in
        (elim reply [ replied b ↦ replied true | error ↦ error ], w')
  ]

  drive_agv : Option (AgvAdapter W) → Dict Value → W → CommandReceipt × W
  unfolding drive_by speed_of asked
  drive_agv none arguments w = (denied "AGV adapter unavailable", w)
  drive_agv (some agv) arguments w =
      asked (drive_by agv (get "distance_m" arguments) (speed_of (get "speed_mps" arguments)) w)

  -- `self.lift is not None and bool(self.lift.lift_to(…))`
  lift_to : Option (Value → Calls W) → Option Value → W → CommandReceipt × W
  unfolding asked
  lift_to none height w = asked (replied false, w)
  lift_to (some go) none w = asked (other_error "height_mm", w)
  lift_to (some go) (some v) w = asked (go v w)

  head_part : (Value → Calls W) → Option Value → Bool → W → Reply × W
  head_part turn none fine w = (replied fine, w)
  head_part turn (some v) fine w =
      let (reply, w') = turn v w in
      (elim reply [ replied b ↦ replied (b && fine) | error ↦ error ], w')

  and_then : Reply × W → (Bool → Calls W) → Reply × W
  and_then (replied b, w) next = next b w
  and_then (timeout_error message, w) next = (timeout_error message, w)
  and_then (other_error message, w) next = (other_error message, w)

  move_head : Option (HeadAdapter W) → Dict Value → W → CommandReceipt × W
  unfolding head_part and_then asked
  move_head none arguments w = (denied "head adapter unavailable", w)
  move_head (some head) arguments w = asked (
      and_then (head_part head.yaw_to (get "yaw_deg" arguments) true w)
        (λ fine. head_part head.pitch_to (get "pitch_deg" arguments) fine))

  unstopped : Reply → CommandReceipt
  unfolding legacy_receipt
  unstopped (replied b) = denied "AGV stop sent; whole-robot safe stop remains UNVERIFIED"
  unstopped error = legacy_receipt error

  pub stop_agv : Option (AgvAdapter W) → W → CommandReceipt × W
  unfolding unstopped
  stop_agv none w = (denied "safe stop adapter unavailable", w)
  stop_agv (some agv) w = let (reply, w') = agv.stop_agv_motion w in (unstopped reply, w')

  -- `command`
  unfoldable pub jaka_command : String → Dict Value → W → CommandReceipt × W
  unfolding retract drive_agv lift_to move_head stop_agv
  jaka_command skill_name arguments w =
      if skill_name == "retract_arm"
      then retract j.arm j.transport_pose_name w
      else if skill_name == "move_agv"
      then drive_agv j.agv arguments w
      else if skill_name == "set_lift"
      then lift_to j.lift (get "height_mm" arguments) w
      else if skill_name == "set_head"
      then move_head j.head arguments w
      else if skill_name == "safe_stop"
      then stop_agv j.agv w
      else (denied (append "JAKA adapter does not implement " skill_name), w)

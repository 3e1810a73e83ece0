-- ===== src/Kargo.antt =====
-- embodied_skill_ros/integrations/jaka_kargo: the deployment's configuration (integration_config.py)
-- and the capabilities that follow from it and from the endpoints that a transport offers
-- (capability_mapper.py). The transport's answer is a set of endpoint names. The child modules are
-- the transport (interface_contracts.py) and what it makes of services and topics
-- (ros2_transport.py: Services), the observations (state_provider.py: Readings, Observe), the commands
-- (skill_adapter.py: Motions, Command) and the skills (skills.py); Executed is about runs of the
-- executor over this backend.
pub mod Admitted
pub mod Transport
pub mod Readings
pub mod Observe
pub mod Motions
pub mod Command
pub mod Skills
pub mod Services
pub mod Executed
use embodied_skill_ros.Prelude.{
  Bool, List, Option, String, [], false, if◌then◌else◌, is_some, length, nat_eq, none, not, some,
  true, ◌&&◌, ◌++◌, ◌==◌, ◌||◌, ◌∷◌,
}
use embodied_skill_ros.Prelude.Texts.{contains, union}
use embodied_skill_ros.Prelude.Int.{pos}
use embodied_skill_ros.Value.Numbers.{Float, finite, le_float}
use embodied_skill_ros.Value.{text}
use embodied_skill_ros.Errors.{Result, bad_config, err, ok, require, ◌>>◌}
use embodied_skill_ros.Capabilities.{BackendCapabilities, ParameterDomain, SkillSemantics}

pub data StopScope : Type 0 where
  agv_only component_only whole_robot unavailable : StopScope

pub data ArmCommandScope : Type 0 where
  single_arm_service legacy_bilateral_preset : ArmCommandScope

pub record Endpoints : Type 0 where
  pub axis_status_service : String
  pub arm_pose_service : String
  pub external_axis_move_service : String
  pub arm_joint_move_service : String
  pub agv_navigation_service : String
  pub agv_stop_service : String
  pub agv_odometry_topic : String
  pub agv_motion_state_topic : String

pub record KargoConfig : Type 0 where
  pub endpoints : Endpoints
  pub motion_enabled : Bool
  pub whole_robot_estop_observable : Bool
  pub stop_scope : StopScope
  pub arm_command_scope : ArmCommandScope
  pub arm_pose_query_implies_ready : Bool
  pub left_transport_joints : Option (List Float)
  pub right_transport_joints : Option (List Float)
  pub transport_pose_calibrated : Bool
  pub transport_joint_tolerance : Float
  pub observation_max_age : Float
  pub service_timeout : Float
  pub arm_velocity : Float
  pub arm_acceleration : Float
  pub external_axis_velocity : Float
  pub external_axis_acceleration : Float
  pub lift_min : Float
  pub lift_max : Float
  pub waist_min : Float
  pub waist_max : Float
  pub head_yaw_min : Float
  pub head_yaw_max : Float
  pub head_pitch_min : Float
  pub head_pitch_max : Float
  pub agv_map_name : String

seven : Option (List Float) → Bool
seven none = true
seven (some joints) = nat_eq (length joints) 7

is_whole_robot : StopScope → Bool
is_whole_robot whole_robot = true
is_whole_robot _ = false

-- `JakaKargoIntegrationConfig.__post_init__`
unfoldable pub check_config : KargoConfig → Result (Unit {0})
unfolding seven is_whole_robot le_float
check_config c = do
  require
      (not (
        le_float c.observation_max_age (finite (pos 0))
        || le_float c.service_timeout (finite (pos 0))))
      (bad_config "timeouts")
  require (seven c.left_transport_joints) (bad_config "left_transport_joints_rad")
  require (seven c.right_transport_joints) (bad_config "right_transport_joints_rad")
  require
      (not (
        c.transport_pose_calibrated
        && not (is_some c.left_transport_joints && is_some c.right_transport_joints)))
      (bad_config "transport_pose_calibrated")
  require (not (is_whole_robot c.stop_scope)) (bad_config "stop_scope")

-- `arm_target`
unfoldable pub arm_target : KargoConfig → String → Result (Option (List Float))
arm_target c arm =
    if arm == "left"
    then ok c.left_transport_joints
    else if arm == "right"
    then ok c.right_transport_joints
    else err (bad_config "arm")

-- `if test: names.update(more)`
pub extend : Bool → List String → List String → List String
extend test more names = if test then union names more else names

-- The fields that can be observed.
unfoldable pub observable_names : KargoConfig → List String → List String
unfolding extend contains
observable_names c found =
    extend (contains c.endpoints.agv_motion_state_topic found && c.whole_robot_estop_observable)
      ("emergency_stop" ∷ "fault" ∷ [])
      (extend (contains c.endpoints.agv_motion_state_topic found)
        ("agv_moving" ∷ "agv_ready" ∷ "agv_emergency_stop" ∷ "agv_fault" ∷ [])
        (extend (contains c.endpoints.agv_odometry_topic found)
          ("agv_position_m" ∷ "agv_position_y_m" ∷ [])
          (extend (contains c.endpoints.arm_pose_service found && c.transport_pose_calibrated)
            ("left_arm_safe" ∷ "right_arm_safe" ∷ [])
            (extend (contains c.endpoints.arm_pose_service found && c.arm_pose_query_implies_ready)
              ("left_arm_ready" ∷ "right_arm_ready" ∷ [])
              (extend (contains c.endpoints.axis_status_service found)
                ("lift_height_mm" ∷ "lift_ready" ∷ "head_yaw_deg" ∷ "head_pitch_deg" ∷ "head_ready"
                  ∷ "waist_angle_deg" ∷ "waist_ready" ∷ [])
                ("last_skill_result" ∷ []))))))

-- The three groups of motion and what each needs.
unfoldable pub axis_ready : KargoConfig → List String → Bool
axis_ready c found =
    contains c.endpoints.external_axis_move_service found
    && contains c.endpoints.axis_status_service found

unfoldable pub arm_ready : KargoConfig → List String → Bool
arm_ready c found =
    c.transport_pose_calibrated
    && c.arm_pose_query_implies_ready
    && contains c.endpoints.arm_joint_move_service found
    && contains c.endpoints.arm_pose_service found

unfoldable pub agv_ready : KargoConfig → List String → Bool
agv_ready c found =
    contains c.endpoints.agv_navigation_service found
    && contains c.endpoints.agv_odometry_topic found
    && contains c.endpoints.agv_motion_state_topic found
    && contains c.endpoints.agv_stop_service found

unfoldable pub admission_allowed : KargoConfig → Bool
admission_allowed c = c.motion_enabled && c.whole_robot_estop_observable

-- The skills that are supported.
unfoldable pub supported_names : KargoConfig → List String → List String
unfolding extend axis_ready arm_ready agv_ready admission_allowed
supported_names c found =
    if admission_allowed c
    then extend (agv_ready c found) ("move_agv" ∷ []) (
        extend (arm_ready c found) ("retract_arm" ∷ [])
          (extend (axis_ready c found) ("set_lift" ∷ "set_head" ∷ "set_waist" ∷ []) []))
    else []

pub data Blocker : Type 0 where
  motion_disabled estop_unobservable axis_unavailable arm_unavailable agv_incomplete : Blocker

blocked_by : Bool → Blocker → List Blocker
blocked_by fine blocker = if fine then [] else blocker ∷ []

-- What stands in the way; each blocker is added at one place, so that none is repeated.
unfoldable pub blockers : KargoConfig → List String → List Blocker
unfolding blocked_by
blockers c found =
    blocked_by c.motion_enabled motion_disabled
    ++ blocked_by c.whole_robot_estop_observable estop_unobservable
    ++ (if admission_allowed c
        then blocked_by (axis_ready c found) axis_unavailable
          ++ blocked_by (arm_ready c found) arm_unavailable
          ++ blocked_by (agv_ready c found) agv_incomplete
        else [])

range_of : String → Float → Float → ParameterDomain
range_of name lo hi = record { name = name; choices = none; minimum = some lo; maximum = some hi }

semantics_if : Bool → String → List ParameterDomain → List String → List SkillSemantics
semantics_if test name domains effects =
    if test
    then record {
      skill_name = name;
      parameter_domains = domains;
      unavoidable_effect_fields = effects;
    }
      ∷ []
    else []

-- A bilateral preset moves both arms.
bilateral_effects : ArmCommandScope → List String
bilateral_effects single_arm_service = []
bilateral_effects legacy_bilateral_preset = "left_arm_safe" ∷ "right_arm_safe" ∷ []

kargo_semantics : KargoConfig → List String → List SkillSemantics
unfolding semantics_if bilateral_effects range_of
kargo_semantics c supported =
    semantics_if (contains "retract_arm" supported) "retract_arm"
      (record {
        name = "arm";
        choices = some (text "left" ∷ text "right" ∷ []);
        minimum = none;
        maximum = none;
      }
        ∷ [])
      (bilateral_effects c.arm_command_scope)
    ++ semantics_if (contains "move_agv" supported) "move_agv"
        (range_of "speed_mps" (finite (pos 10000)) (finite (pos 500000)) ∷ []) []
    ++ semantics_if (contains "set_lift" supported) "set_lift"
        (range_of "height_mm" c.lift_min c.lift_max ∷ []) []
    ++ semantics_if (contains "set_head" supported) "set_head"
        (range_of "yaw_deg" c.head_yaw_min c.head_yaw_max
          ∷ range_of "pitch_deg" c.head_pitch_min c.head_pitch_max
          ∷ [])
        []
    ++ semantics_if (contains "set_waist" supported) "set_waist"
        (range_of "angle_deg" c.waist_min c.waist_max ∷ []) []

-- `JakaKargoCapabilityMapper.map`, the core capabilities
unfoldable pub kargo_capabilities : KargoConfig → List String → BackendCapabilities
unfolding kargo_semantics
kargo_capabilities c found = record {
  backend_name = "JakaKargoBackend";
  supported_skills = some (supported_names c found);
  observable_fields = some (observable_names c found);
  supports_safe_stop = false;
  refreshable_fields = observable_names c found;
  skill_semantics = kargo_semantics c (supported_names c found);
}

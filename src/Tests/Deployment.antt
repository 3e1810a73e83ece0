-- ===== src/Tests/Deployment.antt =====
-- The capability mapper of a deployment at a concrete configuration.
use embodied_skill_ros.Prelude.{
  All, List, String, [], false, none, refl, some, true, ℕ, ◌+◌, ◌∷◌, ◌≡◌,
}
use embodied_skill_ros.Prelude.Dict.{get}
use embodied_skill_ros.Prelude.Texts.{add, contains, union}
use embodied_skill_ros.Prelude.Int.{negsuc, pos}
use embodied_skill_ros.Value.Numbers.{finite}
use embodied_skill_ros.Value.{int}
use embodied_skill_ros.Errors.{ok}
use embodied_skill_ros.Capabilities.{can_observe, supports}
use embodied_skill_ros.Jaka.{JakaAdapters, jaka_capabilities, jaka_command, replied}
use embodied_skill_ros.Jaka.Succeeded.{Succeeded, jaka_command-supported}
use embodied_skill_ros.Kargo.{
  Endpoints, KargoConfig, admission_allowed, agv_incomplete, agv_only, agv_ready, arm_ready,
  arm_unavailable, axis_ready, blockers, kargo_capabilities, single_arm_service, supported_names,
}
use embodied_skill_ros.Kargo.Admitted.{effect_fields, kargo_capabilities-Observes}
use embodied_skill_ros.Kargo.Skills.{kargo_skills}
use embodied_skill_ros.Kargo.Skills.Registered.{kargo_capabilities-registered, registry-built}
use embodied_skill_ros.Registry.{skill_named}
use embodied_skill_ros.Skill.Contract.{RobotSkill}

abbrev default_endpoints : Endpoints
default_endpoints = record {
  axis_status_service = "/query_status_ext";
  arm_pose_service = "/query_pose_arm";
  external_axis_move_service = "/joint_move_ext";
  arm_joint_move_service = "/joint_move_arm";
  agv_navigation_service = "/navigate_single_pose";
  agv_stop_service = "/motion_state_control";
  agv_odometry_topic = "/JAGV_O_01/global_nav_odom";
  agv_motion_state_topic = "/JAGV_O_01/motion_state";
}

abbrev pub moving_config : KargoConfig
moving_config = record {
  endpoints = default_endpoints;
  motion_enabled = true;
  whole_robot_estop_observable = true;
  stop_scope = agv_only;
  arm_command_scope = single_arm_service;
  arm_pose_query_implies_ready = false;
  left_transport_joints = none;
  right_transport_joints = none;
  transport_pose_calibrated = false;
  transport_joint_tolerance = finite (pos 30000);
  observation_max_age = finite (pos 2000000);
  service_timeout = finite (pos 10000000);
  arm_velocity = finite (pos 350000);
  arm_acceleration = finite (pos 350000);
  external_axis_velocity = finite (pos 20000000);
  external_axis_acceleration = finite (pos 20000000);
  lift_min = finite (pos 0);
  lift_max = finite (pos 780000000);
  waist_min = finite (pos 0);
  waist_max = finite (pos 84000000);
  head_yaw_min = finite (negsuc 89999999);
  head_yaw_max = finite (pos 90000000);
  head_pitch_min = finite (negsuc 44999999);
  head_pitch_max = finite (pos 20000000);
  agv_map_name = "";
}

abbrev axis_endpoints : List String
axis_endpoints = "/query_status_ext" ∷ "/joint_move_ext" ∷ []

lift_supported : supports (kargo_capabilities moving_config axis_endpoints) "set_lift" ≡ true
unfolding supports kargo_capabilities supported_names contains union add
lift_supported = refl

blocked_motions : blockers moving_config axis_endpoints ≡ arm_unavailable ∷ agv_incomplete ∷ []
unfolding blockers admission_allowed axis_ready arm_ready agv_ready contains
blocked_motions = refl

kargo_capabilities-Observes_example :
    (moving_config.motion_enabled ≡ true)
    × (moving_config.whole_robot_estop_observable ≡ true)
    × All
        (λ f. can_observe (kargo_capabilities moving_config axis_endpoints) f ≡ true)
        (effect_fields "set_lift")
kargo_capabilities-Observes_example =
    kargo_capabilities-Observes moving_config axis_endpoints "set_lift" lift_supported

kargo_capabilities-registered_example :
    (skill : RobotSkill) × (skill_named kargo_skills "set_lift" ≡ ok skill)
    × (skill.name ≡ "set_lift")
kargo_capabilities-registered_example =
    kargo_capabilities-registered moving_config axis_endpoints "set_lift" kargo_skills
      registry-built lift_supported

abbrev lift_only : JakaAdapters ℕ
lift_only = record {
  arm = none;
  agv = none;
  lift = some (λ v n. (replied true, n + 1));
  head = none;
  transport_pose_name = none;
  has_state_provider = false;
  has_position_provider = false;
}

lift_answers :
    ((jaka_command lift_only "set_lift" (("height_mm", int (pos 300)) ∷ []) 0).0).accepted ≡ true
unfolding jaka_command get
lift_answers = refl

jaka_command-supported_example :
    (supports (jaka_capabilities lift_only) "set_lift" ≡ true)
    × Succeeded lift_only (("height_mm", int (pos 300)) ∷ []) 0 "set_lift"
jaka_command-supported_example =
    jaka_command-supported lift_only "set_lift" (("height_mm", int (pos 300)) ∷ []) 0 lift_answers

-- ===== src/Tests/Laboratory.antt =====
-- The Kargo backend over a transport that answers every call: its world counts the calls.
use embodied_skill_ros.Prelude.{
  List, [], false, none, refl, some, true, ℕ, ◌*◌, ◌++◌, ◌+◌, ◌∷◌, ◌≡◌, ◌⊎◌,
}
use embodied_skill_ros.Prelude.Dict.{get, put}
use embodied_skill_ros.Prelude.Texts.{add, contains, union}
use embodied_skill_ros.Prelude.Int.{pos}
use embodied_skill_ros.Value.Numbers.{finite, negate}
use embodied_skill_ros.Value.{as_number, int, is_null, truthy}
use embodied_skill_ros.State.{
  epistemic_value, in_conflict, is_known, is_value_field, known, observation_time, raw_value,
  too_old,
}
use embodied_skill_ros.Skill.Template.{Arguments}
use embodied_skill_ros.Capabilities.{supports}
use embodied_skill_ros.Kargo.{kargo_capabilities, supported_names}
use embodied_skill_ros.Kargo.Transport.{Answer, StampText, Transport, answered, timeout_error}
use embodied_skill_ros.Kargo.Observe.{given, kargo_observe, query_all, state_of_readings}
use embodied_skill_ros.Kargo.Observe.Recent.{IsRecent, kargo_observe-IsRecent}
use embodied_skill_ros.Kargo.Observe.Sourced.{answers}
use embodied_skill_ros.Kargo.Observe.Reported.{kargo_observe-measured, measured, measured_pitch}
use embodied_skill_ros.Kargo.Motions.{micros}
use embodied_skill_ros.Kargo.Command.{admission_failure, kargo_capabilities_of, kargo_command}
use embodied_skill_ros.Kargo.Command.Admission.{IsAdmitted, IsRefused, kargo_command-cases}
use embodied_skill_ros.Kargo.Command.Accepted.{WasSent, kargo_command-move_agv}
use embodied_skill_ros.Kargo.Command.Head.{AxisDone, kargo_command-set_head}
use embodied_skill_ros.Kargo.Services.{
  BaseTopics, MotionState, MoveResponse, Odometry, TopicMessage, hear, hear_all, motion, moved_with,
  navigate_base, odometry, query_base,
}
use embodied_skill_ros.Kargo.Services.Barred.{Heard, query_base-since}
use embodied_skill_ros.Tests.Deployment.{moving_config}

abbrev now_text : StampText
now_text = record { written = "2026-01-01T00:00:05+00:00"; reads = some 5000000 }

abbrev pub lab : Transport ℕ
lab = record {
  available_endpoints = λ n.
      "/query_status_ext" ∷ "/query_pose_arm" ∷ "/joint_move_ext" ∷ "/joint_move_arm"
      ∷ "/navigate_single_pose" ∷ "/motion_state_control" ∷ "/JAGV_O_01/global_nav_odom"
      ∷ "/JAGV_O_01/motion_state" ∷ [];
  query_external_axis = λ axis timeout n. (
    answered record {
      axis_id = axis;
      position = finite (pos (axis * 1000000));
      commanded_position = some (finite (pos 9000000));
      powered = true;
      enabled = true;
      on_limit = false;
      in_position = true;
      observed_at = now_text;
      source = "/query_status_ext";
    },
    n + 1,
  );
  query_arm = λ arm timeout n. (timeout_error "no answer", n + 1);
  query_agv = λ timeout n. (
    answered record {
      position_x = some (finite (pos 2500000));
      position_y = some (finite (pos 0));
      orientation = none;
      moving = some false;
      motion_state_id = some 1;
      emergency_stop = some false;
      fault = none;
      observed_at = now_text;
      source = "AGV odometry + motion-state topics";
    },
    n + 1,
  );
  move_external_axis = λ axis target velocity acceleration timeout n.
      (answered record { accepted = true; message = "moved"; timed_out = false }, n + 1);
  move_arm_joints = λ arm joints velocity acceleration timeout n.
      (answered record { accepted = true; message = "moved"; timed_out = false }, n + 1);
  navigate_agv_x = λ target speed map_name timeout n.
      (answered record { accepted = true; message = "arrived"; timed_out = false }, n + 1);
  stop_agv = λ timeout n.
      (answered record { accepted = true; message = "stopped"; timed_out = false }, n + 1);
  clock = λ n. 6000000;
  monotonic = λ n. n;
}

abbrev forward : Arguments
forward = ("distance_m", int (pos 1)) ∷ []

abbrev nod : Arguments
nod = ("pitch_deg", int (pos 10)) ∷ []

observed : (kargo_observe lab moving_config 0).1 ≡ 7
unfolding kargo_observe query_all
observed = refl

lift_known :
    (epistemic_value
      ((kargo_observe lab moving_config 0).0)
      "lift_height_mm"
      (some 2000000)
      7000000).status
    ≡ known
unfolding kargo_observe state_of_readings epistemic_value raw_value is_value_field contains get put
    in_conflict is_null too_old observation_time
lift_known = refl

base_moves : ((kargo_command lab moving_config "move_agv" forward 0).0).accepted ≡ true
unfolding kargo_command admission_failure kargo_capabilities_of kargo_capabilities supports
    supported_names contains union add kargo_observe query_all state_of_readings epistemic_value
    raw_value is_value_field get put in_conflict is_null too_old observation_time is_known truthy
    as_number
base_moves = refl

head_moves : ((kargo_command lab moving_config "set_head" nod 0).0).accepted ≡ true
unfolding kargo_command admission_failure kargo_capabilities_of kargo_capabilities supports
    supported_names contains union add kargo_observe query_all state_of_readings epistemic_value
    raw_value is_value_field get put in_conflict is_null too_old observation_time is_known truthy
    as_number
head_moves = refl

kargo_observe-IsRecent_example :
    IsRecent
      (answers lab moving_config 0)
      ((kargo_observe lab moving_config 0).0)
      "lift_height_mm"
      moving_config.observation_max_age
      6000000
unfolding contains
kargo_observe-IsRecent_example =
    kargo_observe-IsRecent lab moving_config 0 "lift_height_mm" (some 2000000) 7000000 refl
      lift_known

kargo_observe-measured_example :
    (raw_value ((kargo_observe lab moving_config 0).0) "lift_height_mm"
      ≡ measured (given (answers lab moving_config 0).lift))
    × (raw_value ((kargo_observe lab moving_config 0).0) "waist_angle_deg"
        ≡ measured (given (answers lab moving_config 0).waist))
    × (raw_value ((kargo_observe lab moving_config 0).0) "head_yaw_deg"
        ≡ measured (given (answers lab moving_config 0).yaw))
    × (raw_value ((kargo_observe lab moving_config 0).0) "head_pitch_deg"
        ≡ measured_pitch (given (answers lab moving_config 0).pitch))
kargo_observe-measured_example = kargo_observe-measured lab moving_config 0

kargo_command-cases_example :
    IsAdmitted lab moving_config "move_agv" 0 ⊎ IsRefused lab moving_config "move_agv" forward 0
kargo_command-cases_example = kargo_command-cases lab moving_config "move_agv" forward 0

kargo_command-move_agv_example :
    IsAdmitted lab moving_config "move_agv" 0
    × ((epistemic_value
          ((kargo_observe lab moving_config 7).0)
          "agv_position_m"
          (micros moving_config.observation_max_age)
          (lab.clock ((kargo_observe lab moving_config 7).1))).status
        ≡ known)
    × WasSent lab moving_config forward
        (raw_value ((kargo_observe lab moving_config 7).0) "agv_position_m")
        ((kargo_observe lab moving_config 7).1)
kargo_command-move_agv_example =
    kargo_command-move_agv lab moving_config forward 0 7 observed base_moves

kargo_command-set_head_example :
    IsAdmitted lab moving_config "set_head" 0
    × ((v : ℕ) × AxisDone lab moving_config 2 (λ x. x) (get "yaw_deg" nod) 7 v
        × AxisDone lab moving_config 3 negate
            (get "pitch_deg" nod)
            v
            ((kargo_command lab moving_config "set_head" nod 0).1))
kargo_command-set_head_example =
    kargo_command-set_head lab moving_config nod 0 7 observed head_moves

abbrev place : ℕ → Odometry
place x = record { x = finite (pos x); y = finite (pos 0); orientation = []; stamp = now_text }

abbrev standing : MotionState
standing = record {
  state_id = 1;
  wheel_states = 0;
  drive_state = [];
  drive_error_code = [];
  received_at = now_text;
}

abbrev topics : BaseTopics
topics = record {
  latest_odom = some (place 0);
  odom_sequence = 4;
  latest_motion = some standing;
  motion_sequence = 9;
  barrier = none;
}

abbrev moved : Answer MoveResponse
moved = answered record { success = 1; message = "arrived" }

abbrev arriving : List TopicMessage
arriving = odometry (place 7) ∷ motion standing ∷ odometry (place 8) ∷ []

accepts :
    (navigate_base moved [] topics).0
    ≡ answered record { accepted = true; message = "arrived"; timed_out = false }
unfolding navigate_base moved_with
accepts = refl

reads_new : (query_base arriving ((navigate_base moved [] topics).1)).0 ≡ some (place 7, standing)
unfolding query_base navigate_base moved_with hear hear_all
reads_new = refl

query_base-since_example :
    Heard (odometry (place 7)) ([] ++ arriving) × Heard (motion standing) ([] ++ arriving)
query_base-since_example =
    query_base-since moved [] arriving topics
      record { accepted = true; message = "arrived"; timed_out = false } (place 7) standing accepts
      refl reads_new

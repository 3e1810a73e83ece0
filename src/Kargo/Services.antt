-- ===== src/Kargo/Services.antt =====
-- embodied_skill_ros/integrations/jaka_kargo/ros2_transport.py: what `JakaKargoRos2Transport` makes of
-- the answers of the services and of the two topics of the base. How a call of a service ends, and
-- what arrives on the topics while the transport waits, is given.
pub mod Barred
use embodied_skill_ros.Prelude.{
  Bool, List, Option, String, [], any, false, if◌then◌else◌, is_some, keep, leb, length, nat_eq,
  none, not, some, true, ℕ, ◌%◌, ◌&&◌, ◌+◌, ◌/◌, ◌==◌, ◌||◌, ◌∷◌,
}
use embodied_skill_ros.Prelude.Texts.{add}
use embodied_skill_ros.Value.Numbers.{Float}
use embodied_skill_ros.Kargo.{KargoConfig}
use embodied_skill_ros.Kargo.Transport.{
  AgvObservation, Answer, ArmObservation, AxisObservation, StampText, TransportResult, answered,
  other_error, timeout_error,
}
use Prim.Native.Nat.{Ordering}
use Prim.Native.String.{◌++◌ as append, compare as compare_text}

-- The responses, as far as they are read; their numbers are not negative.
pub record AxisResponse : Type 0 where
  pub success : ℕ
  pub message : String
  pub pos_fdb : Float
  pub pos_cmd : Float
  pub is_powered : Bool
  pub is_enabled : Bool
  pub is_on_limit : Bool
  pub is_inpos : Bool

pub record PoseResponse : Type 0 where
  pub success : ℕ
  pub message : String
  pub joint_positions : List Float
  pub cartesian_pose : List Float

pub record MoveResponse : Type 0 where
  pub success : ℕ
  pub message : String

-- `response.message or …`
or_rejected : String → String → String
or_rejected message rejected = if message == "" then rejected else message

axis_observation : String → ℕ → StampText → AxisResponse → Answer AxisObservation
unfolding or_rejected
axis_observation source axis now r =
    if not (nat_eq r.success 1)
    then other_error (or_rejected r.message "axis query rejected")
    else answered record {
      axis_id = axis;
      position = r.pos_fdb;
      commanded_position = some r.pos_cmd;
      powered = r.is_powered;
      enabled = r.is_enabled;
      on_limit = r.is_on_limit;
      in_position = r.is_inpos;
      observed_at = now;
      source = source;
    }

arm_observation : String → ℕ → StampText → PoseResponse → Answer ArmObservation
unfolding or_rejected
arm_observation source arm now r =
    if not (nat_eq r.success 1)
    then other_error (or_rejected r.message "arm query rejected")
    else if not (nat_eq (length r.joint_positions) 7 && nat_eq (length r.cartesian_pose) 6)
    then other_error "arm query returned malformed dimensions"
    else answered record {
      arm_id = arm;
      joint_positions = r.joint_positions;
      tcp_pose = r.cartesian_pose;
      observed_at = now;
      source = source;
    }

answer_with : {X Y : Type 0} → Answer X → (X → Answer Y) → Answer Y
answer_with (answered x) next = next x
answer_with (timeout_error message) next = timeout_error message
answer_with (other_error message) next = other_error message

-- `query_external_axis` and `query_arm`, behind their calls
unfoldable pub query_axis_with :
    KargoConfig → ℕ → StampText → Answer AxisResponse → Answer AxisObservation
unfolding axis_observation answer_with
query_axis_with c axis now answer =
    answer_with answer (axis_observation c.endpoints.axis_status_service axis now)

unfoldable pub query_arm_with :
    KargoConfig → ℕ → StampText → Answer PoseResponse → Answer ArmObservation
unfolding arm_observation answer_with
query_arm_with c arm now answer =
    answer_with answer (arm_observation c.endpoints.arm_pose_service arm now)

-- The result of a call that moves or stops something: a timeout is a result, other errors are not.
unfoldable pub moved_with : Answer MoveResponse → Answer TransportResult
moved_with (answered r) =
    answered record { accepted = nat_eq r.success 1; message = r.message; timed_out = false }
moved_with (timeout_error message) =
    answered record { accepted = false; message = message; timed_out = true }
moved_with (other_error message) = other_error message

-- `move_arm_joints` of one arm, behind the test of the number of joints
unfoldable pub move_arm_with : List Float → Answer MoveResponse → Answer TransportResult
unfolding moved_with
move_arm_with joints answer =
    if nat_eq (length joints) 7
    then moved_with answer
    else answered
        record { accepted = false; message = "arm requires 7 joint values"; timed_out = false }

pub record Odometry : Type 0 where
  pub x : Float
  pub y : Float
  pub orientation : List Float
  pub stamp : StampText

-- A motion state with the time at which it was received.
pub record MotionState : Type 0 where
  pub state_id : ℕ
  pub wheel_states : ℕ
  pub drive_state : List ℕ
  pub drive_error_code : List ℕ
  pub received_at : StampText

pub data TopicMessage : Type 0 where
  odometry : Odometry → TopicMessage
  motion : MotionState → TopicMessage

-- The variables of the transport; `barrier` is `_pending_agv_observation_barrier`.
pub record BaseTopics : Type 0 where
  pub latest_odom : Option Odometry
  pub odom_sequence : ℕ
  pub latest_motion : Option MotionState
  pub motion_sequence : ℕ
  pub barrier : Option (ℕ × ℕ)

-- `_receive_odom` and `_receive_motion`
unfoldable pub hear : TopicMessage → BaseTopics → BaseTopics
hear (odometry o) s = record s { latest_odom = some o; odom_sequence = s.odom_sequence + 1 }
hear (motion m) s = record s { latest_motion = some m; motion_sequence = s.motion_sequence + 1 }

unfoldable pub hear_all : List TopicMessage → BaseTopics → BaseTopics
unfolding hear
hear_all [] s = s
hear_all (m ∷ ms) s = hear_all ms (hear m s)

-- `available_endpoints`, for what the clients say of their services
unfoldable pub endpoints_found : KargoConfig → (String → Bool) → BaseTopics → List String
unfolding add
endpoints_found c ready s =
    let services = keep ready (
      c.endpoints.axis_status_service ∷ c.endpoints.arm_pose_service
      ∷ c.endpoints.external_axis_move_service ∷ c.endpoints.arm_joint_move_service
      ∷ c.endpoints.agv_navigation_service ∷ c.endpoints.agv_stop_service ∷ []) in
    let with_odom =
      if is_some s.latest_odom then add c.endpoints.agv_odometry_topic services else services in
    if is_some s.latest_motion then add c.endpoints.agv_motion_state_topic with_odom else with_odom

passed : Option (ℕ × ℕ) → BaseTopics → Bool
passed none s = true
passed (some (a, b)) s = leb a s.odom_sequence && leb b s.motion_sequence

both : Option Odometry → Option MotionState → Option (Odometry × MotionState)
both (some o) (some m) = some (o, m)
both _ _ = none

-- The messages that a query may read: both are there, and behind the barrier.
readable : BaseTopics → Option (Odometry × MotionState)
unfolding passed both
readable s = if passed s.barrier s then both s.latest_odom s.latest_motion else none

drive_fault : MotionState → Option String
drive_fault m =
    if any (λ n. nat_eq (n / 2 % 2) 1) m.drive_state
      || any (λ n. not (nat_eq n 0)) m.drive_error_code
    then some "AGV drive error reported by motion_state"
    else none

first_of : StampText → StampText → StampText
first_of s t = elim (compare_text t.written s.written) [ Ordering.lt ↦ t | _ ↦ s ]

unfoldable pub agv_observation : KargoConfig → Odometry × MotionState → AgvObservation
unfolding drive_fault first_of
agv_observation c (o, m) = record {
  position_x = some o.x;
  position_y = some o.y;
  orientation = some o.orientation;
  moving = some (nat_eq m.state_id 2);
  motion_state_id = some m.state_id;
  emergency_stop = some (nat_eq (m.wheel_states % 2) 1);
  fault = drive_fault m;
  observed_at = first_of o.stamp m.received_at;
  source = append c.endpoints.agv_odometry_topic (append " + " c.endpoints.agv_motion_state_topic);
}

unless_read :
    Option (Odometry × MotionState)
    → BaseTopics
    → Option (Odometry × MotionState) × BaseTopics
    → Option (Odometry × MotionState) × BaseTopics
unless_read (some r) s later = (some r, record s { barrier = none })
unless_read none s later = later

-- `query_agv`: what is read, or nothing at the deadline, which leaves the barrier. It reads as soon as
-- what was heard is readable; the code may wake up later and read newer messages.
unfoldable pub query_base :
    List TopicMessage → BaseTopics → Option (Odometry × MotionState) × BaseTopics
unfolding readable hear unless_read
query_base [] s = unless_read (readable s) s (none, s)
query_base (m ∷ ms) s = unless_read (readable s) s (query_base ms (hear m s))

navigated : ℕ × ℕ → Answer TransportResult → BaseTopics → Answer TransportResult × BaseTopics
navigated (a, b) (answered r) s =
    (answered r, if r.accepted then record s { barrier = some (a + 1, b + 1) } else s)
navigated before (timeout_error message) s = (timeout_error message, s)
navigated before (other_error message) s = (other_error message, s)

-- `navigate_agv_x`: the sequences are read before the call; `during` arrives while it runs.
unfoldable pub navigate_base :
    Answer MoveResponse → List TopicMessage → BaseTopics → Answer TransportResult × BaseTopics
unfolding moved_with hear_all navigated
navigate_base answer during s =
    if is_some s.latest_odom
    then navigated (s.odom_sequence, s.motion_sequence) (moved_with answer) (hear_all during s)
    else (
      answered
          record { accepted = false; message = "AGV odometry is unavailable"; timed_out = false },
      s,
    )

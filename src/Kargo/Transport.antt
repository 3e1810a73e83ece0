-- ===== src/Kargo/Transport.antt =====
-- embodied_skill_ros/integrations/jaka_kargo/interface_contracts.py: what the laboratory's ROS
-- services answer. The transport is a parameter: a record of operations on a world, each of which
-- returns or raises and may change the world.
use embodied_skill_ros.Prelude.{Bool, List, Option, String, none, some, ℕ}
use embodied_skill_ros.Value.Numbers.{Float}
use embodied_skill_ros.State.{Stamp}

-- A text that stands for a time, with what `datetime.fromisoformat` reads from it.
pub record StampText : Type 0 where
  pub written : String
  pub reads : Stamp

pub record AxisObservation : Type 0 where
  pub axis_id : ℕ
  pub position : Float
  pub commanded_position : Option Float
  pub powered : Bool
  pub enabled : Bool
  pub on_limit : Bool
  pub in_position : Bool
  pub observed_at : StampText
  pub source : String

pub record ArmObservation : Type 0 where
  pub arm_id : ℕ
  pub joint_positions : List Float
  pub tcp_pose : List Float
  pub observed_at : StampText
  pub source : String

pub record AgvObservation : Type 0 where
  pub position_x : Option Float
  pub position_y : Option Float
  pub orientation : Option (List Float)
  pub moving : Option Bool
  pub motion_state_id : Option ℕ
  pub emergency_stop : Option Bool
  pub fault : Option String
  pub observed_at : StampText
  pub source : String

-- The call result, which only a trace shows, is left out.
pub record TransportResult : Type 0 where
  pub accepted : Bool
  pub message : String
  pub timed_out : Bool

-- What a call of the transport ends with.
pub data Answer (X : Type 0) : Type 0 where
  answered : X → Answer X
  timeout_error other_error : String → Answer X

abbrev pub Asks : Type 0 → Type 0 → Type 0
Asks W X = W → Answer X × W

-- `JakaKargoTransport`, with the endpoints that it finds and the clocks of its host. The last float of
-- each call is its timeout.
pub record Transport (W : Type 0) : Type 0 where
  pub available_endpoints : W → List String
  pub query_external_axis : ℕ → Float → Asks W AxisObservation
  pub query_arm : ℕ → Float → Asks W ArmObservation
  pub query_agv : Float → Asks W AgvObservation
  pub move_external_axis : ℕ → Float → Float → Float → Float → Asks W TransportResult
  pub move_arm_joints : ℕ → List Float → Float → Float → Float → Asks W TransportResult
  pub navigate_agv_x : Float → Float → String → Float → Asks W TransportResult
  pub stop_agv : Float → Asks W TransportResult
  pub clock : W → ℕ
  pub monotonic : W → ℕ

-- `str(exc)` of a call that raised
unfoldable pub answer_or_error : {X : Type 0} → Answer X → (Option X) × (Option String)
answer_or_error (answered x) = (some x, none)
answer_or_error (timeout_error message) = (none, some message)
answer_or_error (other_error message) = (none, some message)

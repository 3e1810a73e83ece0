-- ===== src/Ros/Robot.antt =====
-- The data of the fake robot: what a scenario configures, what commands and refreshes ask for, and
-- the variables of `FakeRobotNode`. Times are in microseconds of `time.monotonic()`.
use embodied_skill_ros.Prelude.{Bool, List, Option, String, [], false, true, ℕ, ◌∷◌}
use embodied_skill_ros.Prelude.Dict.{Dict}
use embodied_skill_ros.Prelude.Int.{pos}
use embodied_skill_ros.Value.Numbers.{Float, finite}
use embodied_skill_ros.Value.{Value, bool, float, null}
use embodied_skill_ros.State.{RobotState}
use embodied_skill_ros.Skill.Template.{Arguments}

-- An entry of `behaviors`: how one goal goes.
pub record Behavior : Type 0 where
  pub mode : String
  pub duration : Float
  pub field : String
  pub value : Value
  pub observation_delay : Float

-- `{"mode": "normal"}` with the defaults of its other entries
abbrev pub normal_behavior : Behavior
normal_behavior = record {
  mode = "normal";
  duration = finite (pos 30000);
  field = "left_arm_safe";
  value = bool false;
  observation_delay = finite (pos 0);
}

pub record RefreshScript : Type 0 where
  pub succeeds : Bool
  pub values : Dict Value
  pub delay : Float

pub record Scenario : Type 0 where
  pub initial_state : Dict Value
  pub behaviors : Dict (List Behavior)
  pub unknown_fields : List String
  pub stale_fields : List String
  pub overrides : Dict Value
  pub conflicts : Dict (List Value)
  pub refresh : RefreshScript

-- The command that is installed before its goal is sent; nothing before the first one.
pub record Envelope : Type 0 where
  pub request_id : ℕ
  pub skill : String
  pub arguments : Arguments

-- What `/embodied_skill/state` carries.
pub record StateMessage : Type 0 where
  pub sequence : ℕ
  pub reason : String
  pub state : RobotState

pub record Goal : Type 0 where
  pub request_id : ℕ
  pub skill : String
  pub arguments : Arguments
  pub behavior : Behavior

-- `published` is the state topic, the newest message first; `running` the goals between the start of
-- `_execute` and its end.
pub record FakeRobot : Type 0 where
  pub world : Dict Value
  pub sequence : ℕ
  pub behaviors : Dict (List Behavior)
  pub active_behavior : List (ℕ × Behavior)
  pub command_envelope : Option Envelope
  pub unknown_fields : List String
  pub stale_fields : List String
  pub overrides : Dict Value
  pub conflicts : Dict (List Value)
  pub refresh : RefreshScript
  pub pending : List (ℕ × String)
  pub safe_stop_count : ℕ
  pub published : List StateMessage

-- `_default_world`
abbrev pub default_world : Dict Value
default_world =
    ("left_arm_ready", bool true)
    ∷ ("right_arm_ready", bool true)
    ∷ ("left_arm_safe", bool true)
    ∷ ("right_arm_safe", bool true)
    ∷ ("agv_ready", bool true)
    ∷ ("agv_moving", bool false)
    ∷ ("agv_position_m", float (finite (pos 0)))
    ∷ ("lift_ready", bool true)
    ∷ ("lift_height_mm", float (finite (pos 100000000)))
    ∷ ("head_ready", bool true)
    ∷ ("head_yaw_deg", float (finite (pos 0)))
    ∷ ("head_pitch_deg", float (finite (pos 0)))
    ∷ ("emergency_stop", bool false)
    ∷ ("fault", null)
    ∷ ("last_skill_result", null)
    ∷ []

-- ===== src/Kargo/Observe.antt =====
-- embodied_skill_ros/integrations/jaka_kargo/state_provider.py: `JakaKargoStateProvider.observe`.
-- The values and facts that it collects are kept in the order in which the code writes them; the
-- fields of an observation are measured ones, and a query that raises leaves them out.
pub mod Fresh
pub mod Measured
pub mod Recent
pub mod Reported
pub mod Sourced
use embodied_skill_ros.Prelude.{
  Bool, List, Option, String, [], if◌then◌else◌, is_nil, none, some, true, ℕ, ◌∷◌,
}
use embodied_skill_ros.Prelude.Dict.{Dict, put, update}
use embodied_skill_ros.Prelude.Texts.{add}
use embodied_skill_ros.Prelude.Int.{pos, ◌-ℤ◌}
use embodied_skill_ros.Value.Numbers.{Float, finite, lt_float}
use embodied_skill_ros.Value.{Value, texts}
use embodied_skill_ros.State.{RobotState, Stamp}
use embodied_skill_ros.Kargo.{KargoConfig}
use embodied_skill_ros.Kargo.Transport.{
  AgvObservation, Answer, ArmObservation, AxisObservation, Transport, answer_or_error,
}
use embodied_skill_ros.Kargo.Readings.{
  Reading, agv_reading, arm_reading, head_reading, lift_reading, pitch_reading, stop_reading,
  waist_reading, yaw_reading,
}

-- The local variables of `observe`. `stale` is the variable `stale_fields`.
pub record Noted : Type 0 where
  pub values : Dict Value
  pub facts : Dict Value
  pub stamps : Dict Stamp
  pub sources : List (String × String)
  pub stale : List String
  pub errors : List (String × String)

abbrev pub nothing_noted : Noted
nothing_noted = record {
  values = [];
  facts = [];
  stamps = [];
  sources = [];
  stale = [];
  errors = [];
}

-- `_age_seconds(stamp, now) > self.config.observation_max_age_s`, and true for a text that is no time
unfoldable pub aged : Float → Stamp → ℕ → Bool
unfolding lt_float ◌-ℤ◌
aged max_age none now = true
aged max_age (some t) now = lt_float max_age (finite (pos now -ℤ pos t))

module _ (c : KargoConfig) (now : ℕ) where
  -- The local function `record`
  pub record_one : Stamp → String → String → Noted → Noted
  unfolding put add aged
  record_one stamp source name n = record n {
    stamps = put name stamp n.stamps;
    sources = put name source n.sources;
    stale = if aged c.observation_max_age stamp now then add name n.stale else n.stale;
  }

  pub record_names : List String → Stamp → String → Noted → Noted
  unfolding record_one
  record_names [] stamp source n = n
  record_names (name ∷ names) stamp source n =
      record_names names stamp source (record_one stamp source name n)

  -- `values[…] = …`, `facts[…] = …` and `record(…)` for one observation
  pub note : Reading → Noted → Noted
  unfolding update record_names
  note r n =
      record_names r.names r.stamp.reads r.source
        (record n { values = update n.values r.values; facts = update n.facts r.facts })

  pub note_lift : Option AxisObservation → Noted → Noted
  unfolding note lift_reading
  note_lift none n = n
  note_lift (some lift) n = note (lift_reading lift) n

  pub note_waist : Option AxisObservation → Noted → Noted
  unfolding note waist_reading
  note_waist none n = n
  note_waist (some waist) n = note (waist_reading waist) n

  pub note_yaw : Option AxisObservation → Noted → Noted
  unfolding note yaw_reading
  note_yaw none n = n
  note_yaw (some yaw) n = note (yaw_reading yaw) n

  pub note_pitch : Option AxisObservation → Noted → Noted
  unfolding note pitch_reading
  note_pitch none n = n
  note_pitch (some pitch) n = note (pitch_reading pitch) n

  pub note_head : Option AxisObservation → Option AxisObservation → Noted → Noted
  unfolding note head_reading
  note_head (some yaw) (some pitch) n = note (head_reading yaw pitch) n
  note_head _ _ n = n

  pub note_arm : String → Option ArmObservation → Noted → Noted
  unfolding note arm_reading
  note_arm arm none n = n
  note_arm arm (some o) n = note (arm_reading c arm o) n

  -- The emergency stop of the base counts for the robot only where the deployment says so.
  pub note_stop : AgvObservation → Noted → Noted
  unfolding note stop_reading
  note_stop agv n = if c.whole_robot_estop_observable then note (stop_reading agv) n else n

  pub note_agv : Option AgvObservation → Noted → Noted
  unfolding note note_stop agv_reading
  note_agv none n = n
  note_agv (some agv) n = note_stop agv (note (agv_reading agv) n)

pub note_error : String → Option String → Noted → Noted
unfolding put
note_error label none n = n
note_error label (some message) n = record n { errors = put label message n.errors }

-- `if errors: facts[…] = errors`, `facts[…] = sources`, and the state that is returned
pub observed_state : ℕ → Noted → RobotState
unfolding put
observed_state now n =
    let facts =
      if is_nil n.errors
      then n.facts
      else put "jaka_kargo_observation_errors" (texts n.errors) n.facts in
    record {
      attributes = n.values;
      active_resources = [];
      facts = put "jaka_kargo_observation_sources" (texts n.sources) facts;
      observed_at = n.stamps;
      stale_fields = n.stale;
      conflicts = [];
      timestamp = some now;
    }

-- What the seven queries answer.
pub record Readings : Type 0 where
  pub lift : Answer AxisObservation
  pub waist : Answer AxisObservation
  pub yaw : Answer AxisObservation
  pub pitch : Answer AxisObservation
  pub left : Answer ArmObservation
  pub right : Answer ArmObservation
  pub agv : Answer AgvObservation

pub given : {X : Type 0} → Answer X → Option X
unfolding answer_or_error
given a = (answer_or_error a).0

pub error_of : {X : Type 0} → Answer X → Option String
unfolding answer_or_error
error_of a = (answer_or_error a).1

-- What is noted of the answers; `now` was read before the first query.
unfoldable pub noted_of : KargoConfig → ℕ → Readings → Noted
unfolding given error_of note_error note_lift note_waist note_yaw note_pitch note_head note_arm
    note_agv
noted_of c now r =
    let n₁ = note_error "head_pitch" (error_of r.pitch) (
      note_error "head_yaw" (error_of r.yaw) (
        note_error "waist" (error_of r.waist)
          (note_error "lift" (error_of r.lift) nothing_noted))) in
    let n₂ = note_waist c now (given r.waist) (note_lift c now (given r.lift) n₁) in
    let n₃ = note_pitch c now (given r.pitch) (note_yaw c now (given r.yaw) n₂) in
    let n₄ = note_head c now (given r.yaw) (given r.pitch) n₃ in
    let n₅ = note_arm c now "left" (given r.left) (note_error "left_arm" (error_of r.left) n₄) in
    let n₆ =
      note_arm c now "right" (given r.right) (note_error "right_arm" (error_of r.right) n₅) in
    note_agv c now (given r.agv) (note_error "agv" (error_of r.agv) n₆)

unfoldable pub state_of_readings : KargoConfig → ℕ → Readings → RobotState
unfolding noted_of observed_state
state_of_readings c now r = observed_state now (noted_of c now r)

module _ {W : Type 0} (t : Transport W) (c : KargoConfig) where
  -- The seven queries in the order of the code.
  unfoldable pub query_all : W → Readings × W
  query_all w =
      let timeout = c.service_timeout in
      let (lift, w₁) = t.query_external_axis 0 timeout w in
      let (waist, w₂) = t.query_external_axis 1 timeout w₁ in
      let (yaw, w₃) = t.query_external_axis 2 timeout w₂ in
      let (pitch, w₄) = t.query_external_axis 3 timeout w₃ in
      let (left, w₅) = t.query_arm 0 timeout w₄ in
      let (right, w₆) = t.query_arm 1 timeout w₅ in
      let (agv, w₇) = t.query_agv timeout w₆ in
      (
        record {
          lift = lift;
          waist = waist;
          yaw = yaw;
          pitch = pitch;
          left = left;
          right = right;
          agv = agv;
        },
        w₇,
      )

  -- `observe`
  unfoldable pub kargo_observe : W → RobotState × W
  unfolding query_all state_of_readings
  kargo_observe w =
      let (readings, w') = query_all w in (state_of_readings c (t.clock w) readings, w')

-- ===== src/State.antt =====
-- embodied_skill_ros/models/robot_state.py. The attributes of a `RobotState` that hold a value are
-- kept by name, as `getattr` and `replace` reach them; `facts` holds the deployment's own names.
-- A timestamp is what `datetime.fromisoformat` reads from it: microseconds, or nothing.
pub mod Evidence
use embodied_skill_ros.Prelude.{
  Bool, List, Option, String, [], any, false, if◌then◌else◌, keep, ltb, none, not, some, true, ℕ,
  ◌++◌, ◌+◌, ◌∷◌,
}
use embodied_skill_ros.Prelude.Dict.{Dict}
use embodied_skill_ros.Prelude.Texts.{contains, union}
use embodied_skill_ros.Value.{Value, is_null, null, same_repr}
use embodied_skill_ros.Prelude.Dict

pub data KnowledgeStatus : Type 0 where
  known unknown stale contradictory : KnowledgeStatus

unfoldable pub is_known : KnowledgeStatus → Bool
is_known known = true
is_known _ = false

abbrev pub Stamp : Type 0
Stamp = Option ℕ

pub record EpistemicValue : Type 0 where
  pub field : String
  pub value : Value
  pub status : KnowledgeStatus
  pub observed_at : Stamp

pub record RobotState : Type 0 where
  pub attributes : Dict Value
  pub active_resources : List String
  pub facts : Dict Value
  pub observed_at : Dict Stamp
  pub stale_fields : List String
  pub conflicts : Dict (List Value)
  pub timestamp : Stamp

-- The fields of the dataclass that hold one observed value each.
abbrev pub value_fields : List String
value_fields =
    "left_arm_ready" ∷ "right_arm_ready" ∷ "left_arm_safe" ∷ "right_arm_safe" ∷ "agv_ready"
    ∷ "agv_moving" ∷ "agv_position_m" ∷ "lift_ready" ∷ "lift_height_mm" ∷ "head_ready"
    ∷ "head_yaw_deg" ∷ "head_pitch_deg" ∷ "emergency_stop" ∷ "fault" ∷ "last_skill_result" ∷ []

-- `hasattr(self, name)`, for the names that the program asks for
unfoldable pub is_value_field : String → Bool
unfolding contains
is_value_field name = contains name value_fields

-- `EpistemicValue.usable_value`
unfoldable pub usable_value : EpistemicValue → Value
unfolding is_known
usable_value e = if is_known e.status then e.value else null

unfoldable pub or_null : Option Value → Value
or_null none = null
or_null (some v) = v

-- `raw_value`: an attribute, and otherwise `facts.get(name)`
unfoldable pub raw_value : RobotState → String → Value
unfolding or_null
raw_value s name =
    if is_value_field name
    then or_null (Dict.get name s.attributes)
    else or_null (Dict.get name s.facts)

-- One `name=value` of `copy(**changes)`: unknown names are stored in `facts`.
unfoldable pub assign : RobotState → String → Value → RobotState
assign s name v =
    if is_value_field name
    then record s { attributes = Dict.put name v s.attributes }
    else record s { facts = Dict.put name v s.facts }

-- `copy(**changes)`
unfoldable pub copy_with : RobotState → Dict Value → RobotState
unfolding assign
copy_with s [] = s
copy_with s ((name, v) ∷ changes) = copy_with (assign s name v) changes

distinct_from : Value → List Value → Bool
distinct_from v vs = any (λ w. not (same_repr v w)) vs

-- `name in self.conflicts and len(set(map(repr, self.conflicts[name]))) > 1`
unfoldable pub in_conflict : RobotState → String → Bool
unfolding distinct_from same_repr
in_conflict s name = elim (Dict.get name s.conflicts) [
  | some (v ∷ vs) ↦ distinct_from v vs
  | _ ↦ false
]

pub or_timestamp : Option Stamp → Stamp → Stamp
or_timestamp none t = t
or_timestamp (some t) _ = t

-- `self.observed_at.get(name, self.timestamp)`
unfoldable pub observation_time : RobotState → String → Stamp
unfolding or_timestamp
observation_time s name = or_timestamp (Dict.get name s.observed_at) s.timestamp

-- The age test: `reference - observed > max_age_s`, and true for a time that cannot be read.
unfoldable pub too_old : Stamp → Option ℕ → ℕ → Bool
too_old _ none now = false
too_old none (some max_age) now = true
too_old (some observed) (some max_age) now = ltb (observed + max_age) now

status_of : Bool → Bool → Bool → Bool → KnowledgeStatus
status_of conflicting absent marked aged =
    if conflicting
    then contradictory
    else if absent
    then unknown
    else if marked
    then stale
    else if aged
    then stale
    else known

-- `epistemic_value(name, max_age_s, now)`, with `now` in microseconds
unfoldable pub epistemic_value : RobotState → String → Option ℕ → ℕ → EpistemicValue
unfolding status_of
epistemic_value s name max_age now =
    let value = raw_value s name in
    let stamp = observation_time s name in
    record {
      field = name;
      value = value;
      status =
          status_of (in_conflict s name) (is_null value) (contains name s.stale_fields)
            (too_old stamp max_age now);
      observed_at = stamp;
    }

stamp_all : List String → Stamp → Dict Stamp → Dict Stamp
unfolding Dict.put
stamp_all [] t d = d
stamp_all (name ∷ names) t d = stamp_all names t (Dict.put name t d)

-- `with_observation_time(names, observed_at)` for a given set of names
unfoldable pub with_observation_time : RobotState → List String → Stamp → RobotState
unfolding stamp_all
with_observation_time s names stamp = record s {
  timestamp = stamp;
  observed_at = stamp_all names stamp s.observed_at;
}

-- The names that hold a value: the default of `with_observation_time`. `active_resources` holds a
-- set and so is always among them.
unfoldable pub observed_names : RobotState → List String
unfolding raw_value is_null
observed_names s =
    "active_resources"
    ∷ keep (λ name. not (is_null (raw_value s name))) (value_fields ++ Dict.keys s.facts)

-- `mark_stale(*names)`
unfoldable pub mark_stale : RobotState → List String → RobotState
unfolding union
mark_stale s names = record s { stale_fields = union s.stale_fields names }

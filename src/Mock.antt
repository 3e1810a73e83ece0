-- ===== src/Mock.antt =====
-- embodied_skill_ros/backends/mock_backend.py: the deterministic backend with a hidden world,
-- injected faults and a sensor model. Its clock is a number that each observation advances.
pub mod Robot
pub mod Motion
pub mod Hidden
use embodied_skill_ros.Prelude.{
  Bool, List, Option, String, [], if◌then◌else◌, keep, leb, none, some, true, ℕ, ◌++◌, ◌+◌, ◌==◌,
  ◌∷◌,
}
use embodied_skill_ros.Prelude.Dict.{Dict, get, keys, put, update}
use embodied_skill_ros.Prelude.Texts.{contains, difference}
use embodied_skill_ros.Value.{Value, null}
use embodied_skill_ros.Errors.{Result}
use embodied_skill_ros.State.{
  RobotState, copy_with, observed_names, value_fields, with_observation_time,
}
use embodied_skill_ros.Skill.Template.{Arguments}
use embodied_skill_ros.Capabilities.{BackendCapabilities, SkillSemantics}

pub data FaultMode : Type 0 where
  timeout command_failure physical_failure state_drift : FaultMode

-- `drift` is empty where the source has None.
pub record FaultEvent : Type 0 where
  pub mode : FaultMode
  pub message : String
  pub drift : Dict Value

pub record ObservationModel : Type 0 where
  pub hidden_fields : List String
  pub stale_fields : List String
  pub overrides : Dict Value
  pub refreshable_fields : List String
  pub refresh_failures : Dict ℕ
  pub contradictions : Dict (List Value)

abbrev pub TransitionHandler : Type 0
TransitionHandler = RobotState → Arguments → Result (Dict Value)

pub record MockRobotBackend : Type 0 where
  pub world : RobotState
  pub observation_model : ObservationModel
  pub faults : Dict (List FaultEvent)
  pub permanent_faults : Dict FaultEvent
  pub handlers : Dict TransitionHandler
  pub semantics : Dict SkillSemantics
  pub acquisition_attempts : Dict ℕ
  pub command_log : List (String × Arguments)
  pub time : ℕ

abbrev pub builtin_names : List String
builtin_names =
    "retract_arm" ∷ "extend_arm" ∷ "move_agv" ∷ "set_lift" ∷ "set_head" ∷ "safe_stop" ∷ []

dict_values : Dict SkillSemantics → List SkillSemantics
dict_values [] = []
dict_values ((k, v) ∷ d) = v ∷ dict_values d

-- `capabilities`
unfoldable pub mock_capabilities : MockRobotBackend → BackendCapabilities
unfolding dict_values difference
mock_capabilities b =
    let o = b.observation_model in
    record {
      backend_name = "MockRobotBackend";
      supported_skills = some (builtin_names ++ keys b.handlers);
      observable_fields = some (
          difference ("active_resources" ∷ value_fields ++ keys b.world.facts)
            (difference o.hidden_fields o.refreshable_fields));
      supports_safe_stop = true;
      refreshable_fields = o.refreshable_fields;
      skill_semantics = dict_values b.semantics;
    }

put_semantics : String → Option SkillSemantics → Dict SkillSemantics → Dict SkillSemantics
put_semantics name none d = d
put_semantics name (some s) d = put name s d

-- `register_handler`
unfoldable pub register_handler :
    String → TransitionHandler → Option SkillSemantics → MockRobotBackend → MockRobotBackend
unfolding put_semantics
register_handler name handler semantics b = record b {
  handlers = put name handler b.handlers;
  semantics = put_semantics name semantics b.semantics;
}

queue_of : Option (List FaultEvent) → List FaultEvent
queue_of none = []
queue_of (some events) = events

-- `inject`
unfoldable pub inject : String → List FaultEvent → MockRobotBackend → MockRobotBackend
unfolding queue_of
inject name events b = record b {
  faults = put name (queue_of (get name b.faults) ++ events) b.faults;
}

-- `inject_permanent`
unfoldable pub inject_permanent : String → FaultEvent → MockRobotBackend → MockRobotBackend
inject_permanent name event b = record b { permanent_faults = put name event b.permanent_faults }

without_key : String → Dict FaultEvent → Dict FaultEvent
without_key name [] = []
without_key name ((k, v) ∷ d) =
    let rest = without_key name d in if k == name then rest else (k, v) ∷ rest

-- `clear_permanent_fault`
unfoldable pub clear_permanent_fault : String → MockRobotBackend → MockRobotBackend
unfolding without_key
clear_permanent_fault name b = record b { permanent_faults = without_key name b.permanent_faults }

count_of : Option ℕ → ℕ
count_of none = 0
count_of (some n) = n

-- `still_unavailable`
unfoldable pub still_unavailable : MockRobotBackend → String → Bool
unfolding count_of
still_unavailable b name =
    if contains name b.observation_model.refreshable_fields
    then leb (count_of (get name b.acquisition_attempts))
        (count_of (get name b.observation_model.refresh_failures))
    else true

nulls : List String → Dict Value
nulls [] = []
nulls (name ∷ names) = (name, null) ∷ nulls names

or_default : List String → RobotState → List String
or_default [] s = observed_names s
or_default (name ∷ names) s = name ∷ names

-- `observe`
unfoldable pub mock_observe : MockRobotBackend → RobotState × MockRobotBackend
unfolding nulls or_default difference
mock_observe b =
    let o = b.observation_model in
    let hidden = keep (still_unavailable b) o.hidden_fields in
    let marked = keep (still_unavailable b) o.stale_fields in
    let seen =
      record (copy_with (record b.world { timestamp = some b.time })
        (update (nulls hidden) o.overrides)) { conflicts = o.contradictions } in
    let visible = difference (observed_names seen) hidden in
    (
      record (with_observation_time seen (or_default visible seen) (some b.time)) {
        stale_fields = marked;
      },
      record b { time = b.time + 1 },
    )

count_attempts : List String → Dict ℕ → Dict ℕ
unfolding count_of
count_attempts [] d = d
count_attempts (name ∷ names) d = count_attempts names (put name (count_of (get name d) + 1) d)

-- `acquire`
unfoldable pub mock_acquire : List String → MockRobotBackend → RobotState × MockRobotBackend
unfolding count_attempts
mock_acquire fields b =
    mock_observe (record b { acquisition_attempts = count_attempts fields b.acquisition_attempts })

-- `set_state`
unfoldable pub set_state : Dict Value → MockRobotBackend → MockRobotBackend
set_state changes b = record b {
  world = record (copy_with b.world changes) { timestamp = some b.time };
}

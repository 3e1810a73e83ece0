-- ===== src/Plan.antt =====
-- embodied_skill_ros/models/task_plan.py. The entries of `metadata` that the program reads or
-- writes are fields; other entries are carried along by the program and are not modelled.
use embodied_skill_ros.Prelude.{
  Bool, List, Option, String, [], false, if◌then◌else◌, none, some, ℕ, ◌==◌,
}
use embodied_skill_ros.Prelude.Dict.{Dict}
use embodied_skill_ros.Value.{Value}
use embodied_skill_ros.Skill.Template.{Arguments}

pub record PlanStep : Type 0 where
  pub id : String
  pub skill : String
  pub arguments : Arguments
  pub expected_effect : Dict Value
  pub parallel_group : Option String
  pub inserted_by : Option String

-- The entry "goal_state": absent, no dictionary, or a dictionary of field values.
pub data GoalState : Type 0 where
  absent : GoalState
  other_goal : Value → GoalState
  goals : Dict Value → GoalState

pub record SearchStats : Type 0 where
  pub expanded : ℕ
  pub candidates_considered : ℕ
  pub cycles : ℕ
  pub depth_limit_hits : ℕ
  pub expansion_limit_hits : ℕ
  pub selected_steps : ℕ

pub data GoalSource : Type 0 where
  unspecified projected_plan other_source : GoalSource

pub record Metadata : Type 0 where
  pub goal_state : GoalState
  pub goal_state_source : GoalSource
  pub blocked_skills : List String
  pub failed_skill : Option String
  pub failed_arguments : Option Arguments
  pub repaired : Bool
  pub repair_search : Option SearchStats
  pub runtime_repaired : Bool
  pub replanned_from_state : Bool

pub record TaskPlan : Type 0 where
  pub goal : String
  pub steps : List PlanStep
  pub plan_id : String
  pub revision : ℕ
  pub metadata : Metadata

abbrev pub no_metadata : Metadata
no_metadata = record {
  goal_state = absent;
  goal_state_source = unspecified;
  blocked_skills = [];
  failed_skill = none;
  failed_arguments = none;
  repaired = false;
  repair_search = none;
  runtime_repaired = false;
  replanned_from_state = false;
}

-- A condition on a name, as in `if step.parallel_group`: false for None and for the empty text.
unfoldable pub named : Option String → Option String
named none = none
named (some s) = if s == "" then none else some s

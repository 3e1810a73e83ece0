-- ===== src/Execution/Goals.antt =====
-- The goal state of a plan and the fields that a grounding report asks to observe:
-- `_with_goal_state`, `_goal_mismatches`, `_policy_for_issue` and `_observable_issue_fields`.
pub mod Met
use embodied_skill_ros.Prelude.{
  Bool, List, Option, String, [], false, first, if◌then◌else◌, none, not, some, true, ◌&&◌, ◌==◌,
  ◌∷◌,
}
use embodied_skill_ros.Prelude.Dict.{Dict}
use embodied_skill_ros.Prelude.Texts.{add}
use embodied_skill_ros.Prelude.Int.{pos}
use embodied_skill_ros.Value.Numbers.{Float, finite}
use embodied_skill_ros.Value.{Value, agrees_within, text}
use embodied_skill_ros.Errors.{Result, err, ok, ◌>>=◌}
use embodied_skill_ros.State.{KnowledgeStatus, RobotState, copy_with, epistemic_value, is_known}
use embodied_skill_ros.Skill.Contract.{Policy, RobotSkill, allows, observe}
use embodied_skill_ros.Skill.Effects.{expected_effects}
use embodied_skill_ros.Plan.{
  GoalState, PlanStep, TaskPlan, absent, goals, other_goal, projected_plan,
}
use embodied_skill_ros.Capabilities.{BackendCapabilities, can_refresh}
use embodied_skill_ros.Registry.{SkillRegistry, skill_named}
use embodied_skill_ros.Grounding.Issues.{GroundingIssue, knowledge_issue}
use embodied_skill_ros.Repair.Insert.{note_goals}

step_effects : SkillRegistry → PlanStep → RobotState → Result (Dict Value)
step_effects registry step state = do
  skill ← skill_named registry step.skill
  expected_effects skill step.arguments state

-- The loop of `_with_goal_state`; a step that raises is passed over.
projected_goals : SkillRegistry → List PlanStep → RobotState → Dict Value → Dict Value
unfolding step_effects
projected_goals registry [] projected found = found
projected_goals registry (step ∷ steps) projected found =
    elim (step_effects registry step projected) [
      | err e ↦ projected_goals registry steps projected found
      | ok effects ↦
          projected_goals registry steps (copy_with projected effects) (note_goals found effects)
    ]

has_goals : GoalState → Bool
has_goals (goals _) = true
has_goals _ = false

-- `_with_goal_state`
unfoldable pub with_goal_state : SkillRegistry → TaskPlan → RobotState → TaskPlan
unfolding projected_goals has_goals
with_goal_state registry plan state =
    if has_goals plan.metadata.goal_state then plan else record plan {
      metadata = record plan.metadata {
        goal_state = goals (projected_goals registry plan.steps state []);
        goal_state_source = projected_plan;
      };
    }

-- 1e-3
abbrev goal_tolerance : Float
goal_tolerance = finite (pos 1000)

unfoldable pub goal_matches : Value → Value → Bool
unfolding agrees_within
goal_matches actual target = agrees_within goal_tolerance actual target

-- The loop of `_goal_mismatches`; no age limit is set, so the clock is not asked.
unfoldable pub mismatches_of : Dict Value → RobotState → List (String × Value × Value)
unfolding is_known
mismatches_of [] state = []
mismatches_of ((field_name, target) ∷ rest) state =
    let evidence = epistemic_value state field_name none 0 in
    let later = mismatches_of rest state in
    if is_known evidence.status && goal_matches evidence.value target
    then later
    else (field_name, evidence.value, target) ∷ later

-- `_goal_mismatches`
unfoldable pub goal_mismatches : TaskPlan → RobotState → List (String × Value × Value)
goal_mismatches plan state = elim plan.metadata.goal_state [
  | absent ↦ []
  | other_goal v ↦ ("goal_state", v, text "mapping") ∷ []
  | goals d ↦ mismatches_of d state
]

policy_of : Result RobotSkill → List Policy
policy_of (err e) = []
policy_of (ok skill) = skill.recovery_policy

-- `_policy_for_issue`
unfoldable pub policy_for_issue : SkillRegistry → TaskPlan → String → List Policy
unfolding policy_of
policy_for_issue registry plan step_id =
    elim (first (λ (item : PlanStep). item.id == step_id) plan.steps) [
      | none ↦ []
      | some step ↦ policy_of (skill_named registry step.skill)
    ]

observable_issue :
    SkillRegistry
    → TaskPlan
    → BackendCapabilities
    → String
    → Option (String × KnowledgeStatus)
    → Bool
unfolding is_known
observable_issue registry plan c step_id none = false
observable_issue registry plan c step_id (some (field_name, knowledge)) =
    not (field_name == "")
    && not (is_known knowledge)
    && can_refresh c field_name
    && allows (policy_for_issue registry plan step_id) observe

add_field : Bool → Option (String × KnowledgeStatus) → List String → List String
add_field true (some (field_name, _)) fields = add field_name fields
add_field _ _ fields = fields

-- `_observable_issue_fields`
unfoldable pub observable_issue_fields :
    SkillRegistry → TaskPlan → List GroundingIssue → BackendCapabilities → List String → List String
unfolding observable_issue add_field
observable_issue_fields registry plan [] c fields = fields
observable_issue_fields registry plan (i ∷ issues) c fields =
    observable_issue_fields registry plan issues c (
      add_field (observable_issue registry plan c i.step_id (knowledge_issue i.code))
        (knowledge_issue i.code) fields)

-- ===== src/Repair/Insert.antt =====
-- `PlanRepairer.repair`
pub mod Sound
pub mod Replayed
use embodied_skill_ros.Prelude.{
  List, Option, String, [], if◌then◌else◌, is_nil, length, ltb, none, some, true, ℕ, ◌++◌, ◌+◌, ◌∷◌,
}
use embodied_skill_ros.Prelude.Dict.{Dict, put}
use embodied_skill_ros.Prelude.Int.{pos}
use embodied_skill_ros.Value.{Value, int, is_null}
use embodied_skill_ros.Errors.{Result, err, ok, ◌>>=◌}
use embodied_skill_ros.State.{RobotState, copy_with}
use embodied_skill_ros.Skill.Template.{show}
use embodied_skill_ros.Skill.Contract.{RobotSkill}
use embodied_skill_ros.Skill.Predicates.{
  PredicateEvaluation, check_preconditions, evaluate_preconditions, satisfied,
}
use embodied_skill_ros.Skill.Effects.{expected_effects}
use embodied_skill_ros.Plan.{
  GoalSource, GoalState, PlanStep, SearchStats, TaskPlan, goals, projected_plan,
}
use embodied_skill_ros.Registry.{SkillRegistry, skill_named}
use embodied_skill_ros.Grounding.Issues.{GroundingReport, requires_stop}
use embodied_skill_ros.Repair.Search.{Limits, Proposal, no_stats, search_fact}
use Prim.Native.String.{◌++◌ as append}

-- The variables of the loop over the original steps.
pub record RepairState : Type 0 where
  pub new_steps : List PlanStep
  pub projected : RobotState
  pub goals_found : Dict Value
  pub serial : ℕ
  pub stats : SearchStats

-- `repaired_goals.update({key: value … if value is not None})`
unfoldable pub note_goals : Dict Value → Dict Value → Dict Value
unfolding is_null
note_goals found [] = found
note_goals found ((key, v) ∷ effects) =
    note_goals (if is_null v then found else put key v found) effects

-- `replace(repair, id=f"repair_{serial}_{field}", inserted_by=…)`
numbered : ℕ → PredicateEvaluation → PlanStep → PlanStep
numbered serial failure repair_step = record repair_step {
  id = append "repair_" (append (show (int (pos serial))) (append "_" failure.field));
  inserted_by = some (append "PlanRepairer:" failure.code);
}

-- The loop over the steps that the search found; `replayed` starts where the search started.
insert_repairs :
    SkillRegistry
    → Limits
    → PredicateEvaluation
    → List PlanStep
    → RobotState
    → RepairState
    → Result (Option RepairState)
unfolding numbered
insert_repairs registry limits failure [] replayed r = ok (some r)
insert_repairs registry limits failure (repair_step ∷ repairs) replayed r =
    let rest =
      λ (s : RobotState) (r' : RepairState). insert_repairs registry limits failure repairs s r' in
    if ltb limits.max_insertions (r.serial + 1) then ok none else (do
      skill ← skill_named registry repair_step.skill
      effects ← expected_effects skill repair_step.arguments replayed
      rest (copy_with replayed effects) (record r {
        serial = r.serial + 1;
        goals_found = note_goals r.goals_found effects;
        new_steps = r.new_steps ++ numbered (r.serial + 1) failure repair_step ∷ [];
      }))

-- `projected = final_projected`, and the count of the selected steps
settled : List PlanStep → RobotState → Option RepairState → Option RepairState
settled repairs final none = none
settled repairs final (some r) = some (record r {
  projected = final;
  stats = record r.stats { selected_steps = r.stats.selected_steps + length repairs };
})

insert_found :
    SkillRegistry
    → Limits
    → PredicateEvaluation
    → RepairState
    → Option Proposal × SearchStats
    → Result (Option RepairState)
unfolding insert_repairs settled
insert_found registry limits failure r (none, stats) = ok none
insert_found registry limits failure r (some (repairs, final), stats) = do
  inserted ← insert_repairs registry limits failure repairs r.projected (record r { stats = stats })
  ok (settled repairs final inserted)

-- The body of the loop over the unsatisfied preconditions.
repair_failure :
    SkillRegistry
    → Limits
    → ℕ
    → List String
    → PredicateEvaluation
    → RepairState
    → Result (Option RepairState)
unfolding insert_found
repair_failure registry limits now excluded failure r = do
  found ←
      search_fact registry limits now excluded limits.max_depth [] failure.field failure.expected
        r.projected r.stats
  insert_found registry limits failure r found

pub repair_failures :
    SkillRegistry
    → Limits
    → ℕ
    → List String
    → List PredicateEvaluation
    → RepairState
    → Result (Option RepairState)
unfolding repair_failure
repair_failures registry limits now excluded [] r = ok (some r)
repair_failures registry limits now excluded (failure ∷ failures) r =
    let rest = λ (r' : RepairState). repair_failures registry limits now excluded failures r' in
    if satisfied failure
    then rest r
    else repair_failure registry limits now excluded failure r
      >>= elim [ none ↦ ok none | some r' ↦ rest r' ]

-- The original step behind its repairs, with its preconditions tested once more.
pub keep_step : ℕ → RobotSkill → PlanStep → Option RepairState → Result (Option RepairState)
keep_step now skill original none = ok none
keep_step now skill original (some r) = do
  unmet ← check_preconditions skill r.projected original.arguments now
  if is_nil unmet
      then (do
        effects ← expected_effects skill original.arguments r.projected
        ok (
            some (record r {
              new_steps = r.new_steps ++ (record original { parallel_group = none }) ∷ [];
              goals_found = note_goals r.goals_found effects;
              projected = copy_with r.projected effects;
            })))
      else ok none

-- One round of the loop; an unregistered skill ends the repair with None.
repair_step :
    SkillRegistry
    → Limits
    → ℕ
    → List String
    → PlanStep
    → RepairState
    → Result RobotSkill
    → Result (Option RepairState)
unfolding repair_failures keep_step
repair_step registry limits now excluded original r (err e) = ok none
repair_step registry limits now excluded original r (ok skill) = do
  evaluations ← evaluate_preconditions skill r.projected original.arguments now
  r' ← repair_failures registry limits now excluded evaluations r
  keep_step now skill original r'

repair_steps :
    SkillRegistry
    → Limits
    → ℕ
    → List String
    → List PlanStep
    → RepairState
    → Result (Option RepairState)
unfolding repair_step
repair_steps registry limits now excluded [] r = ok (some r)
repair_steps registry limits now excluded (original ∷ steps) r =
    let rest = λ (r' : RepairState). repair_steps registry limits now excluded steps r' in
    repair_step registry limits now excluded original r (skill_named registry original.skill)
    >>= elim [ none ↦ ok none | some r' ↦ rest r' ]

repaired_goal : GoalSource → GoalState → Dict Value → GoalState
repaired_goal projected_plan old found = goals found
repaired_goal source old found = old

repaired_plan : TaskPlan → RepairState → TaskPlan
unfolding repaired_goal
repaired_plan plan r = record plan {
  steps = r.new_steps;
  revision = plan.revision + 1;
  metadata = record plan.metadata {
    repaired = true;
    repair_search = some r.stats;
    goal_state =
        repaired_goal plan.metadata.goal_state_source plan.metadata.goal_state r.goals_found;
  };
}

start_repair : RobotState → RepairState
start_repair state = record {
  new_steps = [];
  projected = state;
  goals_found = [];
  serial = 0;
  stats = no_stats;
}

-- `repair(plan, state, report)`. The statistics of a failed search are not kept.
unfoldable pub repair_plan :
    SkillRegistry → Limits → TaskPlan → RobotState → GroundingReport → ℕ → Result (Option TaskPlan)
unfolding repair_steps start_repair repaired_plan
repair_plan registry limits plan state report now =
    let run =
      repair_steps registry limits now plan.metadata.blocked_skills plan.steps
        (start_repair state) in
    if requires_stop report
    then ok none
    else run >>= elim [ none ↦ ok none | some r ↦ ok (some (repaired_plan plan r)) ]

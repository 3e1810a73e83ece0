-- ===== src/Replanner.antt =====
-- `GoalDirectedReplanner` of embodied_skill_ros/planner/goal_replanner.py.
pub mod Replanned
use embodied_skill_ros.Prelude.{
  Bool, List, Option, String, [], all, false, if◌then◌else◌, length, nat_eq, none, some, true, ℕ,
  ◌&&◌, ◌++◌, ◌+◌, ◌==◌, ◌∷◌,
}
use embodied_skill_ros.Prelude.Dict.{Dict, get}
use embodied_skill_ros.Prelude.Int.{pos}
use embodied_skill_ros.Value.Numbers.{finite}
use embodied_skill_ros.Value.{Value, agrees_within, equals, int}
use embodied_skill_ros.Errors.{Result, ok, ◌>>=◌}
use embodied_skill_ros.State.{RobotState, raw_value}
use embodied_skill_ros.Skill.Template.{Arguments, show}
use embodied_skill_ros.Skill.Effects.{project}
use embodied_skill_ros.Plan.{GoalState, PlanStep, TaskPlan, goals}
use embodied_skill_ros.Registry.{SkillRegistry, skill_named, synthesize_step}
use Prim.Native.String.{◌++◌ as append}

-- `_satisfied(actual, target)`, with its tolerance of 1e-6
unfoldable pub goal_satisfied : Value → Value → Bool
unfolding agrees_within
goal_satisfied actual target = agrees_within (finite (pos 1)) actual target

-- `f"replan_{previous.revision + 1}_{len(steps) + 1}"`
replan_id : ℕ → ℕ → String
replan_id revision count =
    append "replan_"
      (append (show (int (pos (revision + 1)))) (append "_" (show (int (pos (count + 1))))))

-- The loop over the goals, with the steps found so far.
resynthesize :
    SkillRegistry
    → ℕ
    → List String
    → Dict Value
    → RobotState
    → List PlanStep
    → Result (Option (List PlanStep))
unfolding replan_id
resynthesize registry revision excluded [] state steps = ok (some steps)
resynthesize registry revision excluded ((field_name, target) ∷ goal_values) state steps =
    let rest = λ (s : RobotState) (found : List PlanStep).
      resynthesize registry revision excluded goal_values s found in
    if goal_satisfied (raw_value state field_name) target
    then rest state steps
    else elim (synthesize_step registry field_name target state (replan_id revision (length steps))
        "GoalDirectedReplanner" excluded) [
          | none ↦ ok none
          | some step ↦ do
            skill ← skill_named registry step.skill
            next ← project skill step.arguments state
            rest next (steps ++ step ∷ [])
        ]

agrees_at : Value → Option Value → Bool
unfolding equals
agrees_at v none = false
agrees_at v (some w) = equals v w

-- Equality of `tuple(sorted(arguments.items()))`: the same keys with equal values.
unfoldable pub same_arguments : Arguments → Arguments → Bool
unfolding agrees_at
same_arguments a b =
    nat_eq (length a) (length b) && all (λ (p : String × Value). agrees_at p.1 (get p.0 b)) a

-- `new_signature == old_signature`
unfoldable pub same_signature : List PlanStep → List PlanStep → Bool
same_signature [] [] = true
same_signature (x ∷ xs) (y ∷ ys) =
    let rest = same_signature xs ys in
    x.skill == y.skill && same_arguments x.arguments y.arguments && rest
same_signature _ _ = false

new_plan : TaskPlan → Option (List PlanStep) → Option TaskPlan
new_plan previous none = none
new_plan previous (some steps) =
    if same_signature steps previous.steps
    then none
    else some (record previous {
      steps = steps;
      revision = previous.revision + 1;
      metadata = record previous.metadata { replanned_from_state = true };
    })

-- `isinstance(goals, dict) and goals`
goals_to_reach : GoalState → Option (Dict Value)
goals_to_reach (goals (g ∷ gs)) = some (g ∷ gs)
goals_to_reach _ = none

-- `__call__(previous, state)`
unfoldable pub replan_task : SkillRegistry → TaskPlan → RobotState → Result (Option TaskPlan)
unfolding resynthesize new_plan goals_to_reach
replan_task registry previous state = elim (goals_to_reach previous.metadata.goal_state) [
  | none ↦ ok none
  | some goal_values ↦
      resynthesize registry previous.revision previous.metadata.blocked_skills goal_values state []
      >>= λ found. ok (new_plan previous found)
]

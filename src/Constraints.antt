-- ===== src/Constraints.antt =====
-- embodied_skill_ros/grounding/constraint_checker.py
pub mod Clear
pub mod Parallel
pub mod Pairs
use embodied_skill_ros.Prelude.{
  Bool, List, String, [], false, if◌then◌else◌, is_nil, none, not, some, true, ◌++◌, ◌||◌, ◌∷◌,
}
use embodied_skill_ros.Prelude.Dict.{Dict, get, put}
use embodied_skill_ros.Prelude.Texts.{intersection, union}
use embodied_skill_ros.Value.{Value, bool, truthy}
use embodied_skill_ros.State.{RobotState, raw_value}
use embodied_skill_ros.Skill.Contract.{RobotSkill}
use embodied_skill_ros.Plan.{PlanStep, named}

-- The violations, each with what its message shows.
pub data Violation : Type 0 where
  emergency_stop : Violation
  robot_fault : Value → Violation
  resource_busy : List String → Violation
  parallel_resource_conflict : List String → Violation
  body_conflict : List String → Violation

pub record ConstraintViolation : Type 0 where
  pub code : Violation
  pub step_id : String

-- The field `repairable`, which depends on the code alone.
unfoldable pub is_repairable : Violation → Bool
is_repairable emergency_stop = false
is_repairable (robot_fault _) = false
is_repairable _ = true

-- `state.emergency_stop is True`
unfoldable pub is_true : Value → Bool
is_true (bool true) = true
is_true _ = false

violation : String → Violation → ConstraintViolation
violation step_id code = record { code = code; step_id = step_id }

busy_resources : RobotSkill → RobotState → List String
unfolding intersection
busy_resources skill state = intersection state.active_resources skill.resources

fault_violations : String → Value → List ConstraintViolation
unfolding truthy violation
fault_violations step_id fault =
    if truthy fault then violation step_id (robot_fault fault) ∷ [] else []

-- `check_step`
unfoldable pub check_step : PlanStep → RobotSkill → RobotState → List ConstraintViolation
unfolding violation is_true fault_violations busy_resources
check_step step skill state =
    (if is_true (raw_value state "emergency_stop")
      then violation step.id emergency_stop ∷ []
      else [])
    ++ fault_violations step.id (raw_value state "fault")
    ++ (let busy = busy_resources skill state in
        if is_nil busy then [] else violation step.id (resource_busy busy) ∷ [])

-- The groups of `setdefault(step.parallel_group, []).append(step)`
unfoldable pub group_steps : List PlanStep → Dict (List PlanStep) → Dict (List PlanStep)
unfolding named
group_steps [] groups = groups
group_steps (step ∷ steps) groups = group_steps steps (elim (named step.parallel_group) [
  | none ↦ groups
  | some name ↦ elim (get name groups) [
    | none ↦ put name (step ∷ []) groups
    | some members ↦ put name (members ++ step ∷ []) groups
  ]
])

unfoldable pub overlaps : List String → List String → Bool
overlaps xs ys = not (is_nil (intersection xs ys))

body_conflicts : String → RobotSkill → List RobotSkill → List ConstraintViolation
unfolding violation overlaps union
body_conflicts step_id skill [] = []
body_conflicts step_id skill (prior ∷ priors) =
    (if overlaps skill.resources prior.incompatible_resources
        || overlaps prior.resources skill.incompatible_resources
      then violation step_id (body_conflict (union skill.resources prior.resources)) ∷ []
      else [])
    ++ body_conflicts step_id skill priors

resource_conflicts : String → List String → List ConstraintViolation
unfolding violation
resource_conflicts step_id overlap =
    if is_nil overlap then [] else violation step_id (parallel_resource_conflict overlap) ∷ []

-- The loop over one group, with the resources used and the skills seen so far.
check_group :
    List PlanStep → Dict RobotSkill → List String → List RobotSkill → List ConstraintViolation
unfolding body_conflicts resource_conflicts
check_group [] skills used priors = []
check_group (step ∷ steps) skills used priors = elim (get step.skill skills) [
  | none ↦ check_group steps skills used priors
  | some skill ↦
      resource_conflicts step.id (intersection used skill.resources)
      ++ body_conflicts step.id skill priors
      ++ check_group steps skills (union used skill.resources) (priors ++ skill ∷ [])
]

pub check_groups : Dict (List PlanStep) → Dict RobotSkill → List ConstraintViolation
unfolding check_group
check_groups [] skills = []
check_groups ((name, steps) ∷ groups) skills =
    check_group steps skills [] [] ++ check_groups groups skills

-- `check_parallel`
unfoldable pub check_parallel : List PlanStep → Dict RobotSkill → List ConstraintViolation
unfolding group_steps check_groups
check_parallel steps skills = check_groups (group_steps steps []) skills

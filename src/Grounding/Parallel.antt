-- ===== src/Grounding/Parallel.antt =====
-- The part of `EmbodiedPlanGrounder.ground` about parallel groups: the map of the known skills, and
-- the search for steps of one group that want different values of a field.
use embodied_skill_ros.Prelude.{List, Option, String, [], if◌then◌else◌, map, none, some, ◌++◌, ◌∷◌}
use embodied_skill_ros.Prelude.Dict.{Dict, get, put}
use embodied_skill_ros.Value.{Value, equals}
use embodied_skill_ros.Errors.{Result, err, ok, ◌>>=◌}
use embodied_skill_ros.State.{RobotState}
use embodied_skill_ros.Skill.Contract.{RobotSkill}
use embodied_skill_ros.Skill.Effects.{expected_effects}
use embodied_skill_ros.Plan.{PlanStep}
use embodied_skill_ros.Registry.{SkillRegistry, skill_named}
use embodied_skill_ros.Constraints.{ConstraintViolation, check_parallel, group_steps}
use embodied_skill_ros.Grounding.Issues.{GroundingIssue, constraint, parallel_effect_conflict}

-- `skill_map`, as the loop over the steps leaves it
unfoldable pub skill_map : SkillRegistry → List PlanStep → Dict RobotSkill → Dict RobotSkill
skill_map registry [] found = found
skill_map registry (step ∷ steps) found =
    skill_map registry steps (elim (skill_named registry step.skill) [
      | err e ↦ found
      | ok skill ↦ put step.skill skill found
    ])

effects_of : SkillRegistry → PlanStep → RobotState → Result (Dict Value)
effects_of registry step state = do
  skill ← skill_named registry step.skill
  expected_effects skill step.arguments state

-- What one effect adds: a conflict with an earlier value of the field, or the first value of it.
note_effect :
    PlanStep → String → Value → Dict Value → Option Value → List GroundingIssue × Dict Value
unfolding equals
note_effect step key target noted none = ([], put key target noted)
note_effect step key target noted (some previous) =
    if equals previous target then ([], put key target noted) else (
      record { code = parallel_effect_conflict key previous target; step_id = step.id } ∷ [],
      noted,
    )

note_effects : PlanStep → Dict Value → Dict Value → List GroundingIssue × Dict Value
unfolding note_effect
note_effects step [] noted = ([], noted)
note_effects step ((key, target) ∷ effects) noted =
    let (here, noted') = note_effect step key target noted (get key noted) in
    let (rest, final) = note_effects step effects noted' in (here ++ rest, final)

group_conflicts : SkillRegistry → RobotState → List PlanStep → Dict Value → List GroundingIssue
unfolding effects_of note_effects
group_conflicts registry state [] noted = []
group_conflicts registry state (step ∷ steps) noted = elim (effects_of registry step state) [
  | err e ↦ group_conflicts registry state steps noted
  | ok effects ↦
      let (here, noted') = note_effects step effects noted in
      here ++ group_conflicts registry state steps noted'
]

conflicts_of_groups : SkillRegistry → RobotState → Dict (List PlanStep) → List GroundingIssue
unfolding group_conflicts
conflicts_of_groups registry state [] = []
conflicts_of_groups registry state ((name, steps) ∷ groups) =
    group_conflicts registry state steps [] ++ conflicts_of_groups registry state groups

-- The diagnostics about parallel groups.
unfoldable pub parallel_issues : SkillRegistry → RobotState → List PlanStep → List GroundingIssue
unfolding conflicts_of_groups
parallel_issues registry state steps =
    map (λ (v : ConstraintViolation). record { code = constraint v.code; step_id = v.step_id })
      (check_parallel steps (skill_map registry steps []))
    ++ conflicts_of_groups registry state (group_steps steps [])

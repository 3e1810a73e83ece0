-- ===== src/Registry.antt =====
-- embodied_skill_ros/skills/registry.py: the skills by name, in the order of registration.
pub mod Builtin
pub mod Laws
pub mod Candidates
use embodied_skill_ros.Prelude.{
  Bool, List, Option, String, [], false, if◌then◌else◌, none, some, true, ◌∷◌,
}
use embodied_skill_ros.Prelude.Dict.{Dict, get, has, keys, put}
use embodied_skill_ros.Prelude.Texts.{contains}
use embodied_skill_ros.Value.{Value}
use embodied_skill_ros.Errors.{Result, duplicate_skill, err, ok, unknown_skill}
use embodied_skill_ros.State.{RobotState}
use embodied_skill_ros.Skill.Template.{Arguments}
use embodied_skill_ros.Skill.Contract.{EffectSpec, RobotSkill}
use embodied_skill_ros.Skill.Parameters.{validate_arguments}
use embodied_skill_ros.Skill.Effects.{synthesize_arguments}
use embodied_skill_ros.Plan.{PlanStep}

abbrev pub SkillRegistry : Type 0
SkillRegistry = Dict RobotSkill

-- `register`
unfoldable pub register : RobotSkill → SkillRegistry → Result SkillRegistry
register skill registry =
    if has skill.name registry
    then err (duplicate_skill skill.name)
    else ok (put skill.name skill registry)

found_skill : String → Option RobotSkill → Result RobotSkill
found_skill name none = err (unknown_skill name)
found_skill name (some skill) = ok skill

-- `registry.get(name)`
unfoldable pub skill_named : SkillRegistry → String → Result RobotSkill
unfolding found_skill
skill_named registry name = found_skill name (get name registry)

-- `names`
unfoldable pub skill_names : SkillRegistry → List String
skill_names registry = keys registry

succeeds : Result (Unit {0}) → Bool
succeeds (ok _) = true
succeeds (err _) = false

-- The arguments that are synthesized and accepted for one effect. `validate_arguments` raises only
-- exceptions that are caught here.
usable_arguments : RobotSkill → EffectSpec → String → Value → RobotState → Option Arguments
unfolding succeeds
usable_arguments skill effect field_name target state =
    elim (synthesize_arguments effect field_name target state) [
      | none ↦ none
      | some arguments ↦
          if succeeds (validate_arguments skill arguments) then some arguments else none
    ]

-- The inner loop: the first effect that gives usable arguments.
first_usable : RobotSkill → List EffectSpec → String → Value → RobotState → Option Arguments
unfolding usable_arguments
first_usable skill [] field_name target state = none
first_usable skill (effect ∷ effects) field_name target state =
    let rest = first_usable skill effects field_name target state in
    elim (usable_arguments skill effect field_name target state) [
      | some arguments ↦ some arguments
      | none ↦ rest
    ]

candidate_step : RobotSkill → Arguments → String → Value → String → String → PlanStep
candidate_step skill arguments field_name target step_id inserted_by = record {
  id = step_id;
  skill = skill.name;
  arguments = arguments;
  expected_effect = (field_name, target) ∷ [];
  parallel_group = none;
  inserted_by = some inserted_by;
}

-- `synthesize_candidates`
unfoldable pub synthesize_candidates :
    SkillRegistry → String → Value → RobotState → String → String → List String → List PlanStep
unfolding first_usable candidate_step
synthesize_candidates [] field_name target state step_id inserted_by excluded = []
synthesize_candidates ((key, skill) ∷ registry) field_name target state step_id inserted_by
      excluded =
    let rest =
      synthesize_candidates registry field_name target state step_id inserted_by excluded in
    if contains skill.name excluded
    then rest
    else elim (first_usable skill skill.effects field_name target state) [
      | none ↦ rest
      | some arguments ↦ candidate_step skill arguments field_name target step_id inserted_by ∷ rest
    ]

head_of : List PlanStep → Option PlanStep
head_of [] = none
head_of (s ∷ ss) = some s

-- `synthesize_step`
unfoldable pub synthesize_step :
    SkillRegistry → String → Value → RobotState → String → String → List String → Option PlanStep
unfolding head_of
synthesize_step registry field_name target state step_id inserted_by excluded =
    head_of (synthesize_candidates registry field_name target state step_id inserted_by excluded)

-- ===== src/Kargo/Skills.antt =====
-- embodied_skill_ros/integrations/jaka_kargo/skills.py: the waist skill of the deployment, and its
-- registry.
pub mod Registered
use embodied_skill_ros.Prelude.{[], none, true, ◌∷◌}
use embodied_skill_ros.Errors.{Result, ◌>>=◌}
use embodied_skill_ros.Skill.Template.{lit}
use embodied_skill_ros.Skill.Contract.{Operation, RobotSkill, argument, declarative, default_policy}
use embodied_skill_ros.Registry.{SkillRegistry, register}
use embodied_skill_ros.Registry.Builtin.{
  build_default_registry, extend_arm_skill, move_agv_skill, must_hold, number_spec,
  retract_arm_skill, set_head_skill, set_lift_skill, thousandths,
}

-- `SetWaistSkill`
unfoldable pub set_waist_skill : RobotSkill
set_waist_skill = record {
  contract = record {
    name = "set_waist";
    parameters = ("angle_deg", number_spec true (thousandths 0) (thousandths 84000)) ∷ [];
    resources = "waist" ∷ [];
    preconditions = must_hold (lit "waist_ready" ∷ []) "WAIST_NOT_READY" "waist_ready" ∷ [];
    effects =
        record {
          field = lit "waist_angle_deg" ∷ [];
          operation = Operation.replace;
          operand = argument "angle_deg";
          when_argument = none;
          tolerance = thousandths 1;
        }
        ∷ [];
    timeout = 20000000;
    recovery_policy = default_policy;
    incompatible_resources = "agv" ∷ "arm" ∷ "lift" ∷ [];
    allowed_backend_side_effects = [];
  };
  class = declarative;
}

-- `build_jaka_kargo_registry`
unfoldable pub build_jaka_kargo_registry : Result SkillRegistry
unfolding build_default_registry register set_waist_skill
build_jaka_kargo_registry = do registry ← build_default_registry; register set_waist_skill registry

-- The registry that the deployment builds.
abbrev pub kargo_skills : SkillRegistry
kargo_skills =
    ("retract_arm", retract_arm_skill)
    ∷ ("extend_arm", extend_arm_skill)
    ∷ ("move_agv", move_agv_skill)
    ∷ ("set_lift", set_lift_skill)
    ∷ ("set_head", set_head_skill)
    ∷ ("set_waist", set_waist_skill)
    ∷ []

-- ===== src/Kargo/Skills/Registered.antt =====
-- The skills that the deployment supports are those of its registry.
use embodied_skill_ros.Prelude.{
  Bool-cases, List, String, inl, inr, refl, subst, sym, true, ◌∙◌, ◌≡◌,
}
use embodied_skill_ros.Prelude.Dict.{get, put}
use embodied_skill_ros.Prelude.Texts.{contains}
use embodied_skill_ros.Errors.{ok, ok_injective}
use embodied_skill_ros.Skill.Contract.{RobotSkill}
use embodied_skill_ros.Registry.{SkillRegistry, register, skill_named}
use embodied_skill_ros.Registry.Builtin.{
  build_default_registry, extend_arm_skill, move_agv_skill, retract_arm_skill, set_head_skill,
  set_lift_skill,
}
use embodied_skill_ros.Capabilities.{supports}
use embodied_skill_ros.Kargo.{
  KargoConfig, admission_allowed, agv_ready, arm_ready, axis_ready, kargo_capabilities,
  supported_names,
}
use embodied_skill_ros.Kargo.Admitted.{extend_cases, nothing_in, one_of, one_of_three}
use embodied_skill_ros.Kargo.Skills.{build_jaka_kargo_registry, kargo_skills, set_waist_skill}

pub registry-built : build_jaka_kargo_registry ≡ ok kargo_skills
unfolding build_jaka_kargo_registry build_default_registry register get put retract_arm_skill
    extend_arm_skill move_agv_skill set_lift_skill set_head_skill set_waist_skill
registry-built = refl

abbrev IsRegistered : String → Type 0
IsRegistered name =
    (skill : RobotSkill) × (skill_named kargo_skills name ≡ ok skill) × (skill.name ≡ name)

registered : (a name : String) → a ≡ name → IsRegistered a → IsRegistered name
registered a name e h = subst IsRegistered e h

module _ (c : KargoConfig) (found : List String) where
  names-IsRegistered :
      (name : String) → contains name (supported_names c found) ≡ true → IsRegistered name
  unfolding supported_names skill_named get retract_arm_skill move_agv_skill set_lift_skill
      set_head_skill set_waist_skill
  names-IsRegistered name h = elim (Bool-cases (admission_allowed c)) [
    | inr denied ↦ absurd (nothing_in c found name (rw denied at h))
    | inl allowed ↦ elim (extend_cases name (agv_ready c found) _ _ (rw allowed at h)) [
      | inl (_, here) ↦
          registered "move_agv" name (one_of "move_agv" name here) (move_agv_skill, refl, refl)
      | inr h₁ ↦ elim (extend_cases name (arm_ready c found) _ _ h₁) [
        | inl (_, here) ↦
            registered "retract_arm" name (one_of "retract_arm" name here)
              (retract_arm_skill, refl, refl)
        | inr h₂ ↦ elim (extend_cases name (axis_ready c found) _ _ h₂) [
          | inl (_, here) ↦ elim (one_of_three "set_lift" "set_head" "set_waist" name here) [
            | inl e ↦ registered "set_lift" name e (set_lift_skill, refl, refl)
            | inr (inl e) ↦ registered "set_head" name e (set_head_skill, refl, refl)
            | inr (inr e) ↦ registered "set_waist" name e (set_waist_skill, refl, refl)
          ]
          | inr h₃ ↦ absurd (nothing_in c found name h₃)
        ]
      ]
    ]
  ]

  -- Every skill that the backend supports is one of the registry that the deployment builds, under
  -- its own name, whatever the configuration and the endpoints are.
  pub kargo_capabilities-registered :
      (name : String) (registry : SkillRegistry)
      → build_jaka_kargo_registry ≡ ok registry
      → supports (kargo_capabilities c found) name ≡ true
      → (skill : RobotSkill) × (skill_named registry name ≡ ok skill) × (skill.name ≡ name)
  unfolding kargo_capabilities supports
  kargo_capabilities-registered name registry e h =
      subst (λ r. (skill : RobotSkill) × (skill_named r name ≡ ok skill) × (skill.name ≡ name))
        (ok_injective (sym registry-built ∙ e)) (names-IsRegistered name h)

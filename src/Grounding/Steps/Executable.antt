-- ===== src/Grounding/Steps/Executable.antt =====
-- What a valid grounding report says of a plan: an independent description of a plan that can be
-- executed step by step in the projected states, and its equivalence with the test.
use embodied_skill_ros.Prelude.{All, List, Option, String, [], false, none, some, true, ℕ, ◌∷◌, ◌≡◌}
use embodied_skill_ros.Prelude.Dict.{Dict, get}
use embodied_skill_ros.Prelude.Texts.{add, contains, union}
use embodied_skill_ros.Value.{Value, equals, is_null}
use embodied_skill_ros.Errors.{ok}
use embodied_skill_ros.State.{RobotState, copy_with}
use embodied_skill_ros.Skill.Template.{Arguments}
use embodied_skill_ros.Skill.Contract.{RobotSkill}
use embodied_skill_ros.Skill.Parameters.{validate_arguments}
use embodied_skill_ros.Skill.Predicates.{check_preconditions}
use embodied_skill_ros.Skill.Effects.{expected_effects}
use embodied_skill_ros.Plan.{PlanStep}
use embodied_skill_ros.Capabilities.{
  BackendCapabilities, SkillSemantics, can_observe, objections, semantics_for, supports,
}
use embodied_skill_ros.Registry.{SkillRegistry, skill_named}
use embodied_skill_ros.Constraints.{check_step}
use embodied_skill_ros.Prelude.Dict

abbrev pub Predicted : Dict Value → Type 0
Predicted effects = All (λ p. is_null p.1 ≡ false) effects

abbrev pub Observable : BackendCapabilities → Dict Value → Type 0
Observable c effects = All (λ p. can_observe c p.0 ≡ true) effects

-- The backend can execute the step with these effects: it can observe each effect, and its own
-- restrictions on the skill, where it states some, raise no objection.
abbrev pub NoObjection : Option SkillSemantics → Arguments → List String → Type 0
NoObjection none arguments allowed = Unit
NoObjection (some s) arguments allowed = objections s arguments allowed ≡ ok []

pub record BackendFits (c : BackendCapabilities) (step : PlanStep) (skill : RobotSkill)
    (effects : Dict Value) : Type 0 where
  pub supported : supports c step.skill ≡ true
  pub observable : Observable c effects
  pub unobjected :
      NoObjection
        (semantics_for c step.skill)
        step.arguments
        (union (Dict.keys effects) skill.allowed_backend_side_effects)

abbrev pub Backend : Option BackendCapabilities → PlanStep → RobotSkill → Dict Value → Type 0
Backend none step skill effects = Unit
Backend (some c) step skill effects = BackendFits c step skill effects

abbrev pub Predicts : Option Value → Value → Type 0
Predicts none declared = ⊥
Predicts (some v) declared = equals v declared ≡ true

-- Every effect that the step declares is one of the skill's, with an equal value.
abbrev pub DeclaredMatch : Dict Value → Dict Value → Type 0
DeclaredMatch effects declared = All (λ p. Predicts (Dict.get p.0 effects) p.1) declared

-- A step that can be executed in a state.
pub record Executable (registry : SkillRegistry) (c : Option BackendCapabilities) (now : ℕ)
    (state : RobotState) (step : PlanStep) : Type 0 where
  pub skill : RobotSkill
  pub registered : skill_named registry step.skill ≡ ok skill
  pub valid : validate_arguments skill step.arguments ≡ ok tt
  pub ready : check_preconditions skill state step.arguments now ≡ ok []
  pub unconstrained : check_step step skill state ≡ []
  pub effects : Dict Value
  pub predicted : expected_effects skill step.arguments state ≡ ok effects
  pub values_known : Predicted effects
  pub backend : Backend c step skill effects
  pub declared : DeclaredMatch effects step.expected_effect

-- All steps can be executed one after the other, and their ids differ from each other and from the
-- ids seen before.
abbrev pub ExecutablePlan :
    SkillRegistry
    → Option BackendCapabilities
    → ℕ
    → RobotState
    → List String
    → List PlanStep
    → Type 0
ExecutablePlan registry c now state seen [] = Unit
ExecutablePlan registry c now state seen (step ∷ steps) =
    (contains step.id seen ≡ false)
    × ((e : Executable registry c now state step) × ExecutablePlan registry c now
          (copy_with state e.effects) (add step.id seen) steps)

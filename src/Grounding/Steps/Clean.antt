-- ===== src/Grounding/Steps/Clean.antt =====
-- What the diagnostics of one step say when there are none.
use embodied_skill_ros.Prelude.{
  List, Option, String, [], ap, append-nil-parts, arith, cons-ne-nil, map-eq-nil, none, some, true,
  ◌∙◌, ◌∷◌, ◌≡◌,
}
use embodied_skill_ros.Prelude.Dict.{Dict, get}
use embodied_skill_ros.Prelude.Texts.{union}
use embodied_skill_ros.Value.{Value}
use embodied_skill_ros.Errors.{>>=-eq-ok, ok, ok_injective}
use embodied_skill_ros.Skill.Contract.{RobotSkill}
use embodied_skill_ros.Plan.{PlanStep}
use embodied_skill_ros.Capabilities.{BackendCapabilities, SkillSemantics, objections, semantics_for}
use embodied_skill_ros.Grounding.Steps.{
  backend_issues, declared_issue, declared_issues, observation_issues, semantic_issues,
  supported_by, unprojectable_issues,
}
use embodied_skill_ros.Grounding.Steps.Executable.{
  Backend, DeclaredMatch, NoObjection, Observable, Predicted, Predicts,
}
use embodied_skill_ros.Prelude.Dict

pub unprojectable-nil :
    (step : PlanStep) (effects : Dict Value)
    → unprojectable_issues step effects ≡ []
    → Predicted effects
unfolding unprojectable_issues
unprojectable-nil step [] h = tt
unprojectable-nil step ((key, v) ∷ effects) h =
    (ground arith, unprojectable-nil step effects (ground arith))

pub observation-nil :
    (step : PlanStep) (c : BackendCapabilities) (effects : Dict Value)
    → observation_issues step c effects ≡ []
    → Observable c effects
unfolding observation_issues
observation-nil step c [] h = tt
observation-nil step c ((key, v) ∷ effects) h =
    (ground arith, observation-nil step c effects (ground arith))

pub declared_issue-nil :
    (step : PlanStep) (key : String) (v : Value) (o : Option Value)
    → declared_issue step key v o ≡ []
    → Predicts o v
unfolding declared_issue
declared_issue-nil step key v none h = cons-ne-nil h
declared_issue-nil step key v (some w) h = ground arith

pub declared-nil :
    (step : PlanStep) (effects declared : Dict Value)
    → declared_issues step effects declared ≡ []
    → DeclaredMatch effects declared
unfolding declared_issues
declared-nil step effects [] h = tt
declared-nil step effects ((key, v) ∷ declared) h =
    let (here, rest) =
      append-nil-parts (declared_issue step key v (Dict.get key effects))
        (declared_issues step effects declared) h in
    (
      declared_issue-nil step key v (Dict.get key effects) here,
      declared-nil step effects declared rest,
    )

pub semantic-nil :
    (step : PlanStep) (allowed : List String) (o : Option SkillSemantics)
    → semantic_issues step allowed o ≡ ok []
    → NoObjection o step.arguments allowed
unfolding semantic_issues
semantic-nil step allowed none h = tt
semantic-nil step allowed (some s) h =
    let (reasons, e, k) = >>=-eq-ok (objections s step.arguments allowed) _ h in
    e ∙ ap ok (map-eq-nil _ reasons (ok_injective k))

pub Backend-nil :
    (step : PlanStep) (skill : RobotSkill) (c : Option BackendCapabilities) (effects : Dict Value)
    → supported_by c step.skill ≡ true
    → backend_issues step skill c effects ≡ ok []
    → Backend c step skill effects
unfolding backend_issues supported_by
Backend-nil step skill none effects s h = tt
Backend-nil step skill (some c) effects s h =
    let allowed : List String = union (Dict.keys effects) skill.allowed_backend_side_effects in
    let (semantic, e, k) =
      >>=-eq-ok (semantic_issues step allowed (semantics_for c step.skill)) _ h in
    let (no_semantic, unobserved) =
      append-nil-parts semantic (observation_issues step c effects) (ok_injective k) in
    record {
      supported = s;
      observable = observation-nil step c effects unobserved;
      unobjected = semantic-nil step allowed (semantics_for c step.skill) (e ∙ ap ok no_semantic);
    }

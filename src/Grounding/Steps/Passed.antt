-- ===== src/Grounding/Steps/Passed.antt =====
-- A round of the grounder, and its loop, without a diagnostic.
use embodied_skill_ros.Prelude.{
  Bool, List, Option, String, [], ap, append-nil-parts, arith, cons-ne-nil, false, map-eq-nil, refl,
  subst, sym, true, ℕ, ◌++◌, ◌∙◌, ◌∷◌, ◌≡◌,
}
use embodied_skill_ros.Prelude.Dict.{Dict}
use embodied_skill_ros.Prelude.Texts.{add, contains}
use embodied_skill_ros.Value.{Value}
use embodied_skill_ros.Errors.{>>=-eq-ok, Result, err, ok, ok_injective}
use embodied_skill_ros.State.{RobotState, copy_with}
use embodied_skill_ros.Skill.Contract.{RobotSkill}
use embodied_skill_ros.Skill.Parameters.{validate_arguments}
use embodied_skill_ros.Skill.Predicates.{PredicateEvaluation, check_preconditions}
use embodied_skill_ros.Skill.Effects.{expected_effects}
use embodied_skill_ros.Plan.{PlanStep}
use embodied_skill_ros.Capabilities.{BackendCapabilities}
use embodied_skill_ros.Registry.{SkillRegistry, skill_named}
use embodied_skill_ros.Constraints.{check_step}
use embodied_skill_ros.Grounding.Issues.{GroundingIssue, IssueCode}
use embodied_skill_ros.Grounding.Steps.{
  StepOutcome, backend_issues, checked_step, constraint_issues, declared_issues, found_step,
  ground_step, ground_steps, outcome_of, precondition_issues, repeated_id, skipped, supported_by,
  unprojectable_issues, valid_step,
}
use embodied_skill_ros.Grounding.Steps.Executable.{
  DeclaredMatch, Executable, ExecutablePlan, Predicted,
}
use embodied_skill_ros.Grounding.Steps.Clean.{Backend-nil, declared-nil, unprojectable-nil}

-- What a round with no diagnostic has found.
pub record Passed (registry : SkillRegistry) (c : Option BackendCapabilities) (now : ℕ)
    (state : RobotState) (step : PlanStep) (o : StepOutcome) : Type 0 where
  pub step_ok : Executable registry c now state step
  pub next : o.simulated ≡ copy_with state step_ok.effects

-- The parts of an outcome with no diagnostic.
record CleanParts (step : PlanStep) (skill : RobotSkill) (state : RobotState)
    (unmet : List PredicateEvaluation) (effects : Dict Value) (backend : List GroundingIssue)
    : Type 0 where
  met : unmet ≡ []
  unconstrained : check_step step skill state ≡ []
  values_known : Predicted effects
  unobjected : backend ≡ []
  declared : DeclaredMatch effects step.expected_effect

outcome-CleanParts :
    (step : PlanStep) (skill : RobotSkill) (state : RobotState) (unmet : List PredicateEvaluation)
    (effects : Dict Value) (backend : List GroundingIssue)
    → (outcome_of step skill state unmet effects backend).issues ≡ []
    → CleanParts step skill state unmet effects backend
unfolding outcome_of
outcome-CleanParts step skill state unmet effects backend h =
    let (n₁, r₁) = append-nil-parts (precondition_issues step unmet) _ h in
    let (n₂, r₂) = append-nil-parts (constraint_issues step (check_step step skill state)) _ r₁ in
    let (n₃, r₃) = append-nil-parts (unprojectable_issues step effects) _ r₂ in
    let (n₄, n₅) =
      append-nil-parts backend (declared_issues step effects step.expected_effect) r₃ in
    record {
      met = map-eq-nil _ unmet n₁;
      unconstrained = map-eq-nil _ (check_step step skill state) n₂;
      values_known = unprojectable-nil step effects n₃;
      unobjected = n₄;
      declared = declared-nil step effects step.expected_effect n₅;
    }

outcome-simulated :
    (step : PlanStep) (skill : RobotSkill) (state : RobotState) (unmet : List PredicateEvaluation)
    (effects : Dict Value) (backend : List GroundingIssue)
    → (outcome_of step skill state unmet effects backend).simulated ≡ copy_with state effects
unfolding outcome_of
outcome-simulated step skill state unmet effects backend = refl

valid_step-Passed :
    (registry : SkillRegistry) (c : Option BackendCapabilities) (now : ℕ) (state : RobotState)
    (step : PlanStep) (skill : RobotSkill) (o : StepOutcome)
    → skill_named registry step.skill ≡ ok skill
    → supported_by c step.skill ≡ true
    → validate_arguments skill step.arguments ≡ ok tt
    → valid_step c now state step skill ≡ ok o
    → o.issues ≡ []
    → Passed registry c now state step o
unfolding valid_step
valid_step-Passed registry c now state step skill o registered s valid h clean =
    let (unmet, e₁, h₁) = >>=-eq-ok (check_preconditions skill state step.arguments now) _ h in
    let (effects, e₂, h₂) = >>=-eq-ok (expected_effects skill step.arguments state) _ h₁ in
    let (backend, e₃, h₃) = >>=-eq-ok (backend_issues step skill c effects) _ h₂ in
    let same : outcome_of step skill state unmet effects backend ≡ o = ok_injective h₃ in
    let p : CleanParts step skill state unmet effects backend =
      outcome-CleanParts step skill state unmet effects backend
        (ap (λ (x : StepOutcome). x.issues) same ∙ clean) in
    record {
      step_ok = record {
        skill = skill;
        registered = registered;
        valid = valid;
        ready = e₁ ∙ ap ok p.met;
        unconstrained = p.unconstrained;
        effects = effects;
        predicted = e₂;
        values_known = p.values_known;
        backend = Backend-nil step skill c effects s (e₃ ∙ ap ok p.unobjected);
        declared = p.declared;
      };
      next =
          ap (λ (x : StepOutcome). x.simulated) (sym same)
          ∙ outcome-simulated step skill state unmet effects backend;
    }

skipped-issue :
    (state : RobotState) (step : PlanStep) (code : IssueCode) (o : StepOutcome)
    → skipped state step code ≡ ok o
    → o.issues ≡ []
    → ⊥
unfolding skipped
skipped-issue state step code o h clean =
    cons-ne-nil (ap (λ (x : StepOutcome). x.issues) (ok_injective h) ∙ clean)

checked_step-Passed :
    (registry : SkillRegistry) (c : Option BackendCapabilities) (now : ℕ) (state : RobotState)
    (step : PlanStep) (skill : RobotSkill) (o : StepOutcome) (s : Bool) (v : Result (Unit {0}))
    → skill_named registry step.skill ≡ ok skill
    → supported_by c step.skill ≡ s
    → validate_arguments skill step.arguments ≡ v
    → checked_step c now state step skill s v ≡ ok o
    → o.issues ≡ []
    → Passed registry c now state step o
unfolding checked_step
checked_step-Passed registry c now state step skill o true (ok tt) registered s v h clean =
    valid_step-Passed registry c now state step skill o registered s v h clean
checked_step-Passed registry c now state step skill o true (err e) registered s v h clean =
    absurd (skipped-issue state step _ o h clean)
checked_step-Passed registry c now state step skill o false r registered s v h clean =
    absurd (skipped-issue state step _ o h clean)

found_step-Passed :
    (registry : SkillRegistry) (c : Option BackendCapabilities) (now : ℕ) (state : RobotState)
    (step : PlanStep) (o : StepOutcome) (r : Result RobotSkill)
    → skill_named registry step.skill ≡ r
    → found_step c now state step r ≡ ok o
    → o.issues ≡ []
    → Passed registry c now state step o
unfolding found_step
found_step-Passed registry c now state step o (err e) known_skill h clean =
    absurd (skipped-issue state step _ o h clean)
found_step-Passed registry c now state step o (ok skill) known_skill h clean =
    checked_step-Passed registry c now state step skill o (supported_by c step.skill)
      (validate_arguments skill step.arguments) known_skill refl refl h clean

repeated-nil :
    (step : PlanStep) (seen : List String)
    → repeated_id step seen ≡ []
    → contains step.id seen ≡ false
unfolding repeated_id
repeated-nil step seen h = ground arith

-- When the loop over the steps ends with no diagnostic, the steps can be executed one after the
-- other in the projected states.
pub ground_steps-ExecutablePlan :
    (registry : SkillRegistry) (c : Option BackendCapabilities) (now : ℕ) (state : RobotState)
    (seen : List String) (steps : List PlanStep)
    → ground_steps registry c now state seen steps ≡ ok []
    → ExecutablePlan registry c now state seen steps
unfolding ground_steps
ground_steps-ExecutablePlan registry c now state seen [] h = tt
ground_steps-ExecutablePlan registry c now state seen (step ∷ steps) h =
    let (o, e₁, h₁) = >>=-eq-ok (ground_step registry c now state step) _ h in
    let (later, e₂, h₂) =
      >>=-eq-ok (ground_steps registry c now o.simulated (add step.id seen) steps) _ h₁ in
    let (fresh, r) =
      append-nil-parts (repeated_id step seen) (o.issues ++ later) (ok_injective h₂) in
    let (clean, no_later) = append-nil-parts o.issues later r in
    let p : Passed registry c now state step o =
      found_step-Passed registry c now state step o (skill_named registry step.skill) refl
        (unfold ground_step in e₁) clean in
    let rest : ExecutablePlan registry c now o.simulated (add step.id seen) steps =
      ground_steps-ExecutablePlan registry c now o.simulated (add step.id seen) steps
        (e₂ ∙ ap ok no_later) in
    (
      repeated-nil step seen fresh,
      (
        p.step_ok,
        subst (λ s. ExecutablePlan registry c now s (add step.id seen) steps) p.next rest,
      ),
    )

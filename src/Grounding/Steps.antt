-- ===== src/Grounding/Steps.antt =====
-- The loop of `EmbodiedPlanGrounder.ground` over the steps of a plan: the diagnostics of a step, and
-- the state projected by its declared effects.
pub mod Executable
pub mod Clean
pub mod Passed
use embodied_skill_ros.Prelude.{
  Bool, List, Option, String, [], false, if◌then◌else◌, map, none, some, true, ℕ, ◌++◌, ◌∷◌,
}
use embodied_skill_ros.Prelude.Dict.{Dict, get, keys}
use embodied_skill_ros.Prelude.Texts.{add, contains, union}
use embodied_skill_ros.Value.{Value, equals, is_null}
use embodied_skill_ros.Errors.{Result, err, ok, ◌>>=◌}
use embodied_skill_ros.State.{RobotState, copy_with}
use embodied_skill_ros.Skill.Contract.{RobotSkill}
use embodied_skill_ros.Skill.Parameters.{validate_arguments}
use embodied_skill_ros.Skill.Predicates.{PredicateEvaluation, check_preconditions}
use embodied_skill_ros.Skill.Effects.{expected_effects}
use embodied_skill_ros.Plan.{PlanStep}
use embodied_skill_ros.Capabilities.{
  BackendCapabilities, SkillSemantics, can_observe, objections, semantics_for, supports,
}
use embodied_skill_ros.Registry.{SkillRegistry, skill_named}
use embodied_skill_ros.Constraints.{ConstraintViolation, check_step}
use embodied_skill_ros.Grounding.Issues.{
  GroundingIssue, IssueCode, backend_effect_unobservable, backend_semantic_mismatch,
  backend_skill_unsupported, constraint, duplicate_step_id, expected_effect_mismatch,
  invalid_arguments, not_registered, precondition, unprojectable_effect,
  unverifiable_expected_effect,
}

issue : PlanStep → IssueCode → GroundingIssue
issue step code = record { code = code; step_id = step.id }

precondition_issues : PlanStep → List PredicateEvaluation → List GroundingIssue
unfolding issue
precondition_issues step es = map (λ e. issue step (precondition e)) es

constraint_issues : PlanStep → List ConstraintViolation → List GroundingIssue
constraint_issues step vs = map (λ v. record { code = constraint v.code; step_id = v.step_id }) vs

-- Effects whose value cannot be predicted from the prior state.
pub unprojectable_issues : PlanStep → Dict Value → List GroundingIssue
unfolding issue is_null
unprojectable_issues step [] = []
unprojectable_issues step ((key, v) ∷ effects) =
    let rest = unprojectable_issues step effects in
    if is_null v then issue step (unprojectable_effect key) ∷ rest else rest

pub semantic_issues : PlanStep → List String → Option SkillSemantics → Result (List GroundingIssue)
unfolding issue
semantic_issues step allowed none = ok []
semantic_issues step allowed (some semantics) = do
  reasons ← objections semantics step.arguments allowed
  ok (map (λ r. issue step (backend_semantic_mismatch r)) reasons)

pub observation_issues : PlanStep → BackendCapabilities → Dict Value → List GroundingIssue
unfolding issue
observation_issues step c [] = []
observation_issues step c ((key, v) ∷ effects) =
    let rest = observation_issues step c effects in
    if can_observe c key then rest else issue step (backend_effect_unobservable key) ∷ rest

-- The part of the loop under `if capabilities is not None`.
pub backend_issues :
    PlanStep → RobotSkill → Option BackendCapabilities → Dict Value → Result (List GroundingIssue)
unfolding semantic_issues observation_issues
backend_issues step skill none effects = ok []
backend_issues step skill (some c) effects = do
  let allowed = union (keys effects) skill.allowed_backend_side_effects
  semantic ← semantic_issues step allowed (semantics_for c step.skill)
  ok (semantic ++ observation_issues step c effects)

pub declared_issue : PlanStep → String → Value → Option Value → List GroundingIssue
unfolding issue
declared_issue step key declared none = issue step (unverifiable_expected_effect key) ∷ []
declared_issue step key declared (some v) =
    if equals v declared then [] else issue step (expected_effect_mismatch key declared v) ∷ []

-- The effects that the step itself declares.
pub declared_issues : PlanStep → Dict Value → Dict Value → List GroundingIssue
unfolding declared_issue
declared_issues step effects [] = []
declared_issues step effects ((key, declared) ∷ expected) =
    declared_issue step key declared (get key effects) ++ declared_issues step effects expected

-- What one round of the loop leaves: its diagnostics and the projected state.
pub record StepOutcome : Type 0 where
  pub issues : List GroundingIssue
  pub simulated : RobotState

outcome_of :
    PlanStep
    → RobotSkill
    → RobotState
    → List PredicateEvaluation
    → Dict Value
    → List GroundingIssue
    → StepOutcome
unfolding precondition_issues constraint_issues unprojectable_issues declared_issues
outcome_of step skill simulated unmet effects backend = record {
  issues =
      precondition_issues step unmet
      ++ (constraint_issues step (check_step step skill simulated)
          ++ (unprojectable_issues step effects
              ++ (backend ++ declared_issues step effects step.expected_effect)));
  simulated = copy_with simulated effects;
}

-- A step whose skill is known and supported and whose arguments are valid.
valid_step :
    Option BackendCapabilities → ℕ → RobotState → PlanStep → RobotSkill → Result StepOutcome
valid_step c now simulated step skill = do
  unmet ← check_preconditions skill simulated step.arguments now
  effects ← expected_effects skill step.arguments simulated
  backend ← backend_issues step skill c effects
  ok (outcome_of step skill simulated unmet effects backend)

pub supported_by : Option BackendCapabilities → String → Bool
supported_by none name = true
supported_by (some c) name = supports c name

-- The outcome of an early `continue`.
skipped : RobotState → PlanStep → IssueCode → Result StepOutcome
unfolding issue
skipped simulated step code = ok (record { issues = issue step code ∷ []; simulated = simulated })

-- By the outcome of the test for support and of the validation of the arguments.
checked_step :
    Option BackendCapabilities
    → ℕ
    → RobotState
    → PlanStep
    → RobotSkill
    → Bool
    → Result (Unit {0})
    → Result StepOutcome
checked_step c now simulated step skill true (ok _) = valid_step c now simulated step skill
checked_step c now simulated step skill true (err e) = skipped simulated step (invalid_arguments e)
checked_step c now simulated step skill false r =
    skipped simulated step (backend_skill_unsupported step.skill)

known_step :
    Option BackendCapabilities → ℕ → RobotState → PlanStep → RobotSkill → Result StepOutcome
known_step c now simulated step skill =
    checked_step c now simulated step skill (supported_by c step.skill)
      (validate_arguments skill step.arguments)

-- By the outcome of `self.registry.get(step.skill)`.
found_step :
    Option BackendCapabilities → ℕ → RobotState → PlanStep → Result RobotSkill → Result StepOutcome
unfolding known_step
found_step c now simulated step (err e) = skipped simulated step (not_registered e)
found_step c now simulated step (ok skill) = known_step c now simulated step skill

-- One round of the loop, but for the test of the step's id.
unfoldable pub ground_step :
    SkillRegistry → Option BackendCapabilities → ℕ → RobotState → PlanStep → Result StepOutcome
unfolding found_step checked_step valid_step outcome_of backend_issues supported_by skipped
ground_step registry c now simulated step =
    found_step c now simulated step (skill_named registry step.skill)

repeated_id : PlanStep → List String → List GroundingIssue
unfolding issue
repeated_id step seen = if contains step.id seen then issue step duplicate_step_id ∷ [] else []

-- The whole loop, with the ids seen so far.
unfoldable pub ground_steps :
    SkillRegistry
    → Option BackendCapabilities
    → ℕ
    → RobotState
    → List String
    → List PlanStep
    → Result (List GroundingIssue)
unfolding repeated_id
ground_steps registry c now simulated seen [] = ok []
ground_steps registry c now simulated seen (step ∷ steps) = do
  outcome ← ground_step registry c now simulated step
  later ← ground_steps registry c now outcome.simulated (add step.id seen) steps
  ok (repeated_id step seen ++ (outcome.issues ++ later))

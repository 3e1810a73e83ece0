-- ===== src/Grounding/Issues.antt =====
-- GroundingIssue and GroundingReport, and the removal of repeated diagnostics.
use native.Mathlib.Decide.{ℕ_discrete}
use mathlib.Core.Logic.{ite}
use embodied_skill_ros.Prelude.{
  Bool, Bool-cases, List, Option, String, [], any, eq_iff, false, inl, inr, is_nil, none, not, refl,
  some, sym, true, true-ne-false, ◌==◌, ◌↔◌, ◌∙◌, ◌∷◌, ◌≡◌,
}
use embodied_skill_ros.Value.{Value}
use embodied_skill_ros.Errors.{Error}
use embodied_skill_ros.State.{KnowledgeStatus}
use embodied_skill_ros.Skill.Predicates.{PredicateEvaluation}
use embodied_skill_ros.Capabilities.{Objection}
use embodied_skill_ros.Constraints.{Violation, is_repairable}

-- The code of an issue, with what its message shows.
pub data IssueCode : Type 0 where
  duplicate_step_id : IssueCode
  not_registered : Error → IssueCode
  backend_skill_unsupported : String → IssueCode
  invalid_arguments : Error → IssueCode
  precondition : PredicateEvaluation → IssueCode
  constraint : Violation → IssueCode
  unprojectable_effect : String → IssueCode
  backend_semantic_mismatch : Objection → IssueCode
  backend_effect_unobservable : String → IssueCode
  unverifiable_expected_effect : String → IssueCode
  expected_effect_mismatch : String → Value → Value → IssueCode
  parallel_effect_conflict : String → Value → Value → IssueCode

pub record GroundingIssue : Type 0 where
  pub code : IssueCode
  pub step_id : String

-- The field `repairable`: unsatisfied preconditions and busy or conflicting resources.
unfoldable pub repairable : IssueCode → Bool
unfolding is_repairable
repairable (precondition _) = true
repairable (constraint v) = is_repairable v
repairable _ = false

-- The fields `field` and `knowledge` together, where `knowledge` is given.
unfoldable pub knowledge_issue : IssueCode → Option (String × KnowledgeStatus)
knowledge_issue (precondition e) = some (e.field, e.knowledge)
knowledge_issue _ = none

pub record GroundingReport : Type 0 where
  pub valid : Bool
  pub issues : List GroundingIssue

-- `requires_stop`
unfoldable pub requires_stop : GroundingReport → Bool
unfolding repairable
requires_stop r = any (λ i. not (repairable i.code)) r.issues

unfoldable pub Text-discrete : Discrete String
Text-discrete s t = elim (Bool-cases (s == t)) [
  | inl e ↦ yes ((eq_iff s t).0 e)
  | inr e ↦ no (λ p. true-ne-false ((sym ((eq_iff s t).1 p)) ∙ e))
]

Issue-discrete : Discrete GroundingIssue
unfolding Text-discrete
Issue-discrete = hlevel (Text-discrete, ℕ_discrete)

without : GroundingIssue → List GroundingIssue → List GroundingIssue
unfolding Issue-discrete
without i [] = []
without i (j ∷ js) = let rest = without i js in ite (Issue-discrete i j) rest (j ∷ rest)

-- `list(dict.fromkeys(issues))`: the first of equal issues stays. Here issues are equal when the
-- data that they show are.
unfoldable pub deduplicate : List GroundingIssue → List GroundingIssue
unfolding without
deduplicate [] = []
deduplicate (i ∷ is) = i ∷ without i (deduplicate is)

pub deduplicate-nil : (is : List GroundingIssue) → (is_nil (deduplicate is) ≡ true) ↔ (is ≡ [])
unfolding deduplicate
deduplicate-nil [] = ((λ h. refl), (λ h. refl))
deduplicate-nil (i ∷ is) = ((λ h. cc), (λ h. cc))

-- The report of a list of diagnostics.
unfoldable pub report_of : List GroundingIssue → GroundingReport
report_of is = let unique = deduplicate is in record { valid = is_nil unique; issues = unique }

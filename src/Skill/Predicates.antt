-- ===== src/Skill/Predicates.antt =====
-- Predicates over the epistemic state: `StatePredicate.evaluate`, `evaluate_preconditions` and
-- `check_preconditions` of embodied_skill_ros/skills/base_skill.py. The clock that
-- `epistemic_value` reads is the argument `now`, in microseconds.
pub mod Holds
use embodied_skill_ros.Prelude.{
  Bool, List, String, [], false, if◌then◌else◌, keep, not, true, ℕ, ◌∷◌,
}
use embodied_skill_ros.Value.{Value, equals}
use embodied_skill_ros.Errors.{Result, ok, ◌>>=◌}
use embodied_skill_ros.State.{KnowledgeStatus, RobotState, epistemic_value, is_known}
use embodied_skill_ros.Skill.Template.{Arguments, format}
use embodied_skill_ros.Skill.Contract.{RobotSkill, StatePredicate}

pub data TruthValue : Type 0 where
  holds fails undetermined : TruthValue

pub record PredicateEvaluation : Type 0 where
  pub code : String
  pub field : String
  pub expected : Value
  pub actual : Value
  pub truth : TruthValue
  pub knowledge : KnowledgeStatus
  pub label : String

-- `PredicateEvaluation.satisfied`
unfoldable pub satisfied : PredicateEvaluation → Bool
satisfied e = elim e.truth [ holds ↦ true | _ ↦ false ]

truth_of : Bool → Bool → TruthValue
truth_of usable equal = if usable then (if equal then holds else fails) else undetermined

-- The evaluation under a resolved field name.
unfoldable pub evaluate_field : StatePredicate → String → RobotState → ℕ → PredicateEvaluation
unfolding is_known truth_of
evaluate_field p field_name state now =
    let evidence = epistemic_value state field_name p.max_age now in
    record {
      code = p.code;
      field = field_name;
      expected = p.expected;
      actual = evidence.value;
      truth = truth_of (is_known evidence.status) (equals evidence.value p.expected);
      knowledge = evidence.status;
      label = p.label;
    }

-- `StatePredicate.evaluate`
unfoldable pub evaluate : StatePredicate → RobotState → Arguments → ℕ → Result PredicateEvaluation
evaluate p state arguments now = do
  field_name ← format p.field arguments
  ok (evaluate_field p field_name state now)

evaluate_all : List StatePredicate → RobotState → Arguments → ℕ → Result (List PredicateEvaluation)
evaluate_all [] state arguments now = ok []
evaluate_all (p ∷ ps) state arguments now = do
  e ← evaluate p state arguments now
  es ← evaluate_all ps state arguments now
  ok (e ∷ es)

-- `skill.evaluate_preconditions(state, arguments)`
unfoldable pub evaluate_preconditions :
    RobotSkill → RobotState → Arguments → ℕ → Result (List PredicateEvaluation)
unfolding evaluate_all
evaluate_preconditions skill state arguments now =
    evaluate_all skill.preconditions state arguments now

unfoldable pub unsatisfied : List PredicateEvaluation → List PredicateEvaluation
unfolding satisfied
unsatisfied es = keep (λ e. not (satisfied e)) es

-- `skill.check_preconditions(state, arguments)`: the unsatisfied ones, of which the program shows
-- the messages
unfoldable pub check_preconditions :
    RobotSkill → RobotState → Arguments → ℕ → Result (List PredicateEvaluation)
check_preconditions skill state arguments now = do
  es ← evaluate_preconditions skill state arguments now
  ok (unsatisfied es)

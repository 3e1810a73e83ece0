-- ===== src/Skill/Predicates/Holds.antt =====
-- When a precondition is satisfied.
use embodied_skill_ros.Prelude.{All, Bool, List, String, [], ap, arith, true, ℕ, ◌∙◌, ◌∷◌, ◌≡◌}
use embodied_skill_ros.Value.{equals}
use embodied_skill_ros.Errors.{>>=-eq-ok, ok, ok_injective}
use embodied_skill_ros.State.{RobotState, epistemic_value, is_known, raw_value}
use embodied_skill_ros.State.Evidence.{IsEvidence, epistemic_value-known, is_known-eq}
use embodied_skill_ros.Skill.Template.{Arguments, format}
use embodied_skill_ros.Skill.Contract.{RobotSkill, StatePredicate}
use embodied_skill_ros.Skill.Predicates.{
  PredicateEvaluation, check_preconditions, evaluate, evaluate_all, evaluate_field,
  evaluate_preconditions, holds, satisfied, truth_of, unsatisfied,
}

-- A precondition holds: its field has current evidence, and the value is the expected one.
pub record Holds (state : RobotState) (now : ℕ) (arguments : Arguments) (p : StatePredicate)
    : Type 0 where
  pub field_name : String
  pub resolved : format p.field arguments ≡ ok field_name
  pub evidence : IsEvidence state field_name p.max_age now
  pub as_expected : equals (raw_value state field_name) p.expected ≡ true

truth_of-holds :
    (usable equal : Bool) → truth_of usable equal ≡ holds → (usable ≡ true) × (equal ≡ true)
unfolding truth_of
truth_of-holds usable equal h = ground arith

satisfied-holds : (e : PredicateEvaluation) → satisfied e ≡ true → e.truth ≡ holds
unfolding satisfied
satisfied-holds e h = ground arith

evaluate_field-Holds :
    (p : StatePredicate) (state : RobotState) (arguments : Arguments) (now : ℕ) (name : String)
    → format p.field arguments ≡ ok name
    → satisfied (evaluate_field p name state now) ≡ true
    → Holds state now arguments p
evaluate_field-Holds p state arguments now name resolved s =
    let truth : truth_of (is_known (epistemic_value state name p.max_age now).status)
          (equals (epistemic_value state name p.max_age now).value p.expected)
        ≡ holds =
      unfold evaluate_field in satisfied-holds (evaluate_field p name state now) s in
    let (usable, equal) = truth_of-holds _ _ truth in
    record {
      field_name = name;
      resolved = resolved;
      evidence = (epistemic_value-known state name p.max_age now).0 (is_known-eq _ usable);
      as_expected = unfold epistemic_value in equal;
    }

unsatisfied-cons :
    (e : PredicateEvaluation) (es : List PredicateEvaluation)
    → unsatisfied (e ∷ es) ≡ []
    → (satisfied e ≡ true) × (unsatisfied es ≡ [])
unfolding unsatisfied satisfied
unsatisfied-cons e es h = ground arith

evaluate_all-Holds :
    (ps : List StatePredicate) (state : RobotState) (arguments : Arguments) (now : ℕ)
    (es : List PredicateEvaluation)
    → evaluate_all ps state arguments now ≡ ok es
    → unsatisfied es ≡ []
    → All (Holds state now arguments) ps
unfolding evaluate_all evaluate
evaluate_all-Holds [] state arguments now es h n = tt
evaluate_all-Holds (p ∷ ps) state arguments now es h n =
    let (e, e₁, h₁) = >>=-eq-ok (evaluate p state arguments now) _ h in
    let (rest, e₂, h₂) = >>=-eq-ok (evaluate_all ps state arguments now) _ h₁ in
    let (name, e₃, h₃) = >>=-eq-ok (format p.field arguments) _ e₁ in
    let n' : unsatisfied (e ∷ rest) ≡ [] = ap unsatisfied (ok_injective h₂) ∙ n in
    let (here, later) = unsatisfied-cons e rest n' in
    (
      evaluate_field-Holds p state arguments now name e₃ (ap satisfied (ok_injective h₃) ∙ here),
      evaluate_all-Holds ps state arguments now rest e₂ later,
    )

-- When the check of the preconditions finds nothing, every precondition of the skill holds in the
-- state: its field has current evidence, and the value there equals the expected one.
pub check_preconditions-Holds :
    (skill : RobotSkill) (state : RobotState) (arguments : Arguments) (now : ℕ)
    → check_preconditions skill state arguments now ≡ ok []
    → All (Holds state now arguments) skill.preconditions
unfolding check_preconditions evaluate_preconditions
check_preconditions-Holds skill state arguments now h =
    let (es, e, k) = >>=-eq-ok (evaluate_all skill.preconditions state arguments now) _ h in
    evaluate_all-Holds skill.preconditions state arguments now es e (ok_injective k)

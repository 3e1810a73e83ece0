-- ===== src/Skill/Parameters/Accepted.antt =====
-- What `validate_arguments` has made sure of when it returns.
use embodied_skill_ros.Prelude.{
  All, Bool, Option, String, [], any, arith, false, is_nil-eq, none, not, some, true, ◌&&◌, ◌∷◌,
  ◌≡◌,
}
use embodied_skill_ros.Prelude.Dict.{Dict, get}
use embodied_skill_ros.Value.Numbers.{Float}
use embodied_skill_ros.Value.{Value}
use embodied_skill_ros.Errors.{
  >>-eq-ok, >>=-eq-ok, above_maximum, below_minimum, ok, require, require-eq-ok,
}
use embodied_skill_ros.Skill.Template.{Arguments}
use embodied_skill_ros.Skill.Contract.{ParameterSpec, RobotSkill}
use embodied_skill_ros.Skill.Parameters.{
  above, below, check_given, check_maximum, check_minimum, check_parameters, check_value, is_bool,
  is_choice, is_infinite, is_instance_of, is_numeric_type, unknown_names, validate_arguments,
  validate_base,
}

-- The value of one parameter is of a listed type, no bool in a number's place, finite, within the
-- bounds, and one of the choices.
pub record IsAccepted (spec : ParameterSpec) (v : Value) : Type 0 where
  pub typed : any (is_instance_of v) spec.python_type ≡ true
  pub no_bool : (is_bool v && is_numeric_type spec.python_type) ≡ false
  pub finite_value : is_infinite v ≡ false
  pub above_min : (lo : Float) → spec.minimum ≡ some lo → below v lo ≡ ok false
  pub below_max : (hi : Float) → spec.maximum ≡ some hi → above v hi ≡ ok false
  pub chosen : is_choice spec.choices v ≡ true

not-false : (b : Bool) → not b ≡ true → b ≡ false
not-false b h = ground arith

minimum-ok :
    (name : String) (bound : Option Float) (v : Value)
    → check_minimum name bound v ≡ ok tt
    → (lo : Float) → bound ≡ some lo
    → below v lo ≡ ok false
unfolding check_minimum
minimum-ok name none v h lo e = cc
minimum-ok name (some b) v h lo e =
    let (out, test, passed) =
      >>=-eq-ok (below v b) (λ o. require (not o) (below_minimum name b)) h in
    let held = not-false out (require-eq-ok (not out) (below_minimum name b) passed) in
    cc (e, test, held)

maximum-ok :
    (name : String) (bound : Option Float) (v : Value)
    → check_maximum name bound v ≡ ok tt
    → (hi : Float) → bound ≡ some hi
    → above v hi ≡ ok false
unfolding check_maximum
maximum-ok name none v h hi e = cc
maximum-ok name (some b) v h hi e =
    let (out, test, passed) =
      >>=-eq-ok (above v b) (λ o. require (not o) (above_maximum name b)) h in
    let held = not-false out (require-eq-ok (not out) (above_maximum name b) passed) in
    cc (e, test, held)

check_value-ok :
    (name : String) (spec : ParameterSpec) (v : Value)
    → check_value name spec v ≡ ok tt
    → IsAccepted spec v
unfolding check_value
check_value-ok name spec v h =
    let (a, h₁) = >>-eq-ok (require _ _) _ h in
    let (b, h₂) = >>-eq-ok (require _ _) _ h₁ in
    let (c, h₃) = >>-eq-ok (require _ _) _ h₂ in
    let (d, h₄) = >>-eq-ok (check_minimum name spec.minimum v) _ h₃ in
    let (e, h₅) = >>-eq-ok (check_maximum name spec.maximum v) _ h₄ in
    record {
      typed = require-eq-ok _ _ b;
      no_bool = not-false _ (require-eq-ok _ _ a);
      finite_value = not-false _ (require-eq-ok _ _ c);
      above_min = minimum-ok name spec.minimum v d;
      below_max = maximum-ok name spec.maximum v e;
      chosen = require-eq-ok _ _ h₅;
    }

-- A parameter of the schema: accepted where it is given, and given where it is required.
abbrev pub GivenWell : ParameterSpec → Option Value → Type 0
GivenWell spec none = spec.required ≡ false
GivenWell spec (some v) = IsAccepted spec v

check_given-ok :
    (name : String) (spec : ParameterSpec) (o : Option Value)
    → check_given name spec o ≡ ok tt
    → GivenWell spec o
unfolding check_given
check_given-ok name spec none h = not-false _ (require-eq-ok _ _ h)
check_given-ok name spec (some v) h = check_value-ok name spec v h

abbrev pub FitsSchema : Dict ParameterSpec → Arguments → Type 0
FitsSchema schema arguments = All (λ p. GivenWell p.1 (get p.0 arguments)) schema

check_parameters-ok :
    (schema : Dict ParameterSpec) (arguments : Arguments)
    → check_parameters schema arguments ≡ ok tt
    → FitsSchema schema arguments
unfolding check_parameters
check_parameters-ok [] arguments h = tt
check_parameters-ok ((name, spec) ∷ schema) arguments h =
    let (first_ok, rest) = >>-eq-ok (check_given name spec (get name arguments)) _ h in
    (
      check_given-ok name spec (get name arguments) first_ok,
      check_parameters-ok schema arguments rest,
    )

-- Accepted arguments have no name outside the schema, and fit it.
pub record IsValidCall (skill : RobotSkill) (arguments : Arguments) : Type 0 where
  pub all_known : unknown_names skill.parameters arguments ≡ []
  pub fits : FitsSchema skill.parameters arguments

-- When `validate_arguments` returns, no argument is outside the skill's schema, every required
-- parameter is given, and every given value is of a listed type (a bool is no number), finite,
-- within the bounds and one of the choices.
pub validate_arguments-IsValidCall :
    (skill : RobotSkill) (arguments : Arguments)
    → validate_arguments skill arguments ≡ ok tt
    → IsValidCall skill arguments
unfolding validate_arguments
validate_arguments-IsValidCall skill arguments h =
    let (base, _) = >>-eq-ok (validate_base skill.contract arguments) _ h in
    let (none_unknown, rest) = >>-eq-ok (require _ _) _ base in
    record {
      all_known = is_nil-eq _ (require-eq-ok _ _ none_unknown);
      fits = check_parameters-ok skill.parameters arguments rest;
    }

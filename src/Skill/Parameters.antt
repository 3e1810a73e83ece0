-- ===== src/Skill/Parameters.antt =====
-- `validate_arguments` of embodied_skill_ros/skills/base_skill.py and of
-- embodied_skill_ros/skills/head_skills.py.
pub mod Accepted
use embodied_skill_ros.Prelude.{
  Bool, List, Option, String, [], any, false, is_nil, none, not, some, true, ◌&&◌, ◌||◌, ◌∷◌,
}
use embodied_skill_ros.Prelude.Dict.{Dict, get, keys}
use embodied_skill_ros.Prelude.Texts.{difference}
use embodied_skill_ros.Value.Numbers.{Float, is_finite, lt_float}
use embodied_skill_ros.Value.{Value, as_number, bool, equals, float, int, text}
use embodied_skill_ros.Errors.{
  Result, above_maximum, angle_required, below_minimum, cannot_compare, err, missing_parameter,
  must_be_finite, not_a_choice, ok, require, unknown_parameters, wrong_type, ◌>>=◌, ◌>>◌,
}
use embodied_skill_ros.Skill.Template.{Arguments}
use embodied_skill_ros.Skill.Contract.{
  ParameterSpec, PyType, RobotSkill, SkillClass, SkillContract, bool_type, declarative, float_type,
  int_type, set_head, str_type,
}

-- `isinstance(value, python_type)` for one type
unfoldable pub is_instance_of : Value → PyType → Bool
is_instance_of (bool _) bool_type = true
is_instance_of (bool _) int_type = true
is_instance_of (int _) int_type = true
is_instance_of (float _) float_type = true
is_instance_of (text _) str_type = true
is_instance_of _ _ = false

-- `python_type in (int, float, (int, float))`
unfoldable pub is_numeric_type : List PyType → Bool
is_numeric_type (int_type ∷ []) = true
is_numeric_type (float_type ∷ []) = true
is_numeric_type (int_type ∷ float_type ∷ []) = true
is_numeric_type _ = false

unfoldable pub is_bool : Value → Bool
is_bool (bool _) = true
is_bool _ = false

-- `isinstance(value, float) and not math.isfinite(value)`
unfoldable pub is_infinite : Value → Bool
unfolding is_finite
is_infinite (float x) = not (is_finite x)
is_infinite _ = false

lt_option : Option Float → Option Float → Value → Result Bool
unfolding lt_float
lt_option (some x) (some y) v = ok (lt_float x y)
lt_option _ _ v = err (cannot_compare v)

-- `value < bound`, and `bound < value` for `value > bound`: a TypeError for what is no number
unfoldable pub below : Value → Float → Result Bool
unfolding lt_option as_number
below v bound = lt_option (as_number v) (some bound) v

unfoldable pub above : Value → Float → Result Bool
unfolding lt_option as_number
above v bound = lt_option (some bound) (as_number v) v

check_minimum : String → Option Float → Value → Result (Unit {0})
unfolding below
check_minimum name none v = ok tt
check_minimum name (some bound) v = do
  out ← below v bound
  require (not out) (below_minimum name bound)

check_maximum : String → Option Float → Value → Result (Unit {0})
unfolding above
check_maximum name none v = ok tt
check_maximum name (some bound) v = do
  out ← above v bound
  require (not out) (above_maximum name bound)

-- `not spec.choices or value in spec.choices`
unfoldable pub is_choice : List Value → Value → Bool
unfolding equals
is_choice choices v = is_nil choices || any (λ w. equals v w) choices

-- The tests of one parameter that is given.
unfoldable pub check_value : String → ParameterSpec → Value → Result (Unit {0})
unfolding is_bool is_numeric_type is_instance_of is_infinite check_minimum check_maximum is_choice
check_value name spec v = do
  require (not (is_bool v && is_numeric_type spec.python_type)) (wrong_type name)
  require (any (is_instance_of v) spec.python_type) (wrong_type name)
  require (not (is_infinite v)) (must_be_finite name)
  check_minimum name spec.minimum v
  check_maximum name spec.maximum v
  require (is_choice spec.choices v) (not_a_choice name)

check_given : String → ParameterSpec → Option Value → Result (Unit {0})
unfolding check_value
check_given name spec none = require (not spec.required) (missing_parameter name)
check_given name spec (some v) = check_value name spec v

-- The loop over the parameter schema.
unfoldable pub check_parameters : Dict ParameterSpec → Arguments → Result (Unit {0})
unfolding check_given
check_parameters [] arguments = ok tt
check_parameters ((name, spec) ∷ schema) arguments =
    check_given name spec (get name arguments) >> check_parameters schema arguments

-- `set(arguments) - set(self.parameter_schema)`
unfoldable pub unknown_names : Dict ParameterSpec → Arguments → List String
unfolding difference
unknown_names schema arguments = difference (keys arguments) (keys schema)

-- `RobotSkill.validate_arguments`
validate_base : SkillContract → Arguments → Result (Unit {0})
unfolding check_parameters unknown_names
validate_base c arguments = do
  let unknown_given = unknown_names c.parameters arguments
  require (is_nil unknown_given) (unknown_parameters unknown_given)
  check_parameters c.parameters arguments

-- The override of `SetHeadSkill` demands an argument.
validate_class : SkillClass → Arguments → Result (Unit {0})
validate_class declarative arguments = ok tt
validate_class set_head arguments = require (not (is_nil arguments)) angle_required

-- `skill.validate_arguments(arguments)`
unfoldable pub validate_arguments : RobotSkill → Arguments → Result (Unit {0})
unfolding validate_base validate_class
validate_arguments skill arguments =
    validate_base skill.contract arguments >> validate_class skill.class arguments

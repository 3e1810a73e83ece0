-- ===== src/Skill/Contract.antt =====
-- The data of a skill contract: ParameterSpec, StatePredicate, EffectSpec, SkillContract and
-- RobotSkill of embodied_skill_ros/skills/base_skill.py.
use embodied_skill_ros.Prelude.{Bool, List, Option, String, [], any, false, true, ℕ, ◌∷◌}
use embodied_skill_ros.Prelude.Dict.{Dict}
use embodied_skill_ros.Value.Numbers.{Float}
use embodied_skill_ros.Value.{Value}
use embodied_skill_ros.Skill.Template.{Template}

-- `python_type`: the types of `isinstance`, one or a tuple of them
pub data PyType : Type 0 where
  bool_type int_type float_type str_type : PyType

pub record ParameterSpec : Type 0 where
  pub python_type : List PyType
  pub required : Bool
  pub minimum : Option Float
  pub maximum : Option Float
  pub choices : List Value

-- `max_age` is in microseconds.
pub record StatePredicate : Type 0 where
  pub field : Template
  pub expected : Value
  pub code : String
  pub label : String
  pub max_age : Option ℕ

pub data Operation : Type 0 where
  replace increment : Operation

-- What `__post_init__` demands: an argument's name, which is used where it is given, or a value.
pub data Operand : Type 0 where
  literal : Value → Operand
  argument : String → Operand

pub record EffectSpec : Type 0 where
  pub field : Template
  pub operation : Operation
  pub operand : Operand
  pub when_argument : Option String
  pub tolerance : Float

-- The words of a recovery policy that the program tests for.
pub data Policy : Type 0 where
  observe repair local_retry retry replan safe_stop : Policy

pub record SkillContract : Type 0 where
  pub name : String
  pub parameters : Dict ParameterSpec
  pub resources : List String
  pub preconditions : List StatePredicate
  pub effects : List EffectSpec
  -- in microseconds
  pub timeout : ℕ
  pub recovery_policy : List Policy
  pub incompatible_resources : List String
  pub allowed_backend_side_effects : List String

-- The class of a skill: `SetHeadSkill` overrides `validate_arguments`.
pub data SkillClass : Type 0 where
  declarative set_head : SkillClass

pub record RobotSkill : Type 0 where
  pub contract : SkillContract
  pub open contract use *
  pub class : SkillClass

abbrev pub default_policy : List Policy
default_policy = observe ∷ repair ∷ local_retry ∷ replan ∷ safe_stop ∷ []

unfoldable pub same_policy : Policy → Policy → Bool
same_policy observe observe = true
same_policy repair repair = true
same_policy local_retry local_retry = true
same_policy retry retry = true
same_policy replan replan = true
same_policy safe_stop safe_stop = true
same_policy _ _ = false

-- `word in policy`
unfoldable pub allows : List Policy → Policy → Bool
unfolding same_policy
allows policy word = any (same_policy word) policy

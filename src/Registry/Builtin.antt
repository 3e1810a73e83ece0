-- ===== src/Registry/Builtin.antt =====
-- The built-in skills: embodied_skill_ros/skills/arm_skills.py, agv_skills.py, lift_skills.py and
-- head_skills.py, and `build_default_registry` of embodied_skill_ros/skills/registry.py.
use embodied_skill_ros.Prelude.{Bool, List, String, [], false, none, some, true, ℕ, ◌*◌, ◌-◌, ◌∷◌}
use embodied_skill_ros.Prelude.Int.{negsuc, pos}
use embodied_skill_ros.Value.Numbers.{Float, finite}
use embodied_skill_ros.Value.{Value, bool, text}
use embodied_skill_ros.Errors.{Result, ok, ◌>>=◌}
use embodied_skill_ros.Skill.Template.{Template, hole, lit}
use embodied_skill_ros.Skill.Contract.{
  EffectSpec, Operation, ParameterSpec, RobotSkill, SkillContract, StatePredicate, argument,
  declarative, default_policy, float_type, increment, int_type, literal, set_head, str_type,
}
use embodied_skill_ros.Registry.{SkillRegistry, register}

-- A whole number of thousandths as a float.
abbrev pub thousandths : ℕ → Float
thousandths n = finite (pos (n * 1000))

abbrev pub minus_thousandths : ℕ → Float
minus_thousandths n = finite (negsuc (n * 1000 - 1))

-- `ParameterSpec((int, float), required, minimum, maximum)`
abbrev pub number_spec : Bool → Float → Float → ParameterSpec
number_spec required lo hi = record {
  python_type = int_type ∷ float_type ∷ [];
  required = required;
  minimum = some lo;
  maximum = some hi;
  choices = [];
}

-- `StatePredicate(field, True, code, label, 5.0)`
abbrev pub must_hold : Template → String → String → StatePredicate
must_hold field code label = record {
  field = field;
  expected = bool true;
  code = code;
  label = label;
  max_age = some 5000000;
}

abbrev pub sets : Template → Value → EffectSpec
sets field v = record {
  field = field;
  operation = Operation.replace;
  operand = literal v;
  when_argument = none;
  tolerance = thousandths 1;
}

abbrev arm_field : String → Template
arm_field suffix = hole "arm" ∷ lit suffix ∷ []

arm_effects : Bool → List EffectSpec
arm_effects true =
    sets (arm_field "_arm_safe") (bool true) ∷ sets (arm_field "_arm_ready") (bool true) ∷ []
arm_effects false = sets (arm_field "_arm_safe") (bool false) ∷ []

-- `_arm_contract`
abbrev arm_contract : String → Bool → SkillContract
unfolding arm_effects
arm_contract name safe = record {
  name = name;
  parameters =
      (
        "arm",
        record {
          python_type = str_type ∷ [];
          required = true;
          minimum = none;
          maximum = none;
          choices = text "left" ∷ text "right" ∷ [];
        },
      )
      ∷ [];
  resources = "arm" ∷ [];
  preconditions = must_hold (arm_field "_arm_ready") "ARM_NOT_READY" "arm_ready" ∷ [];
  effects = arm_effects safe;
  timeout = 15000000;
  recovery_policy = default_policy;
  incompatible_resources = "agv" ∷ "lift" ∷ [];
  allowed_backend_side_effects = [];
}

-- `RetractArmSkill` and `ExtendArmSkill`
unfoldable pub retract_arm_skill : RobotSkill
unfolding arm_contract
retract_arm_skill = record { contract = arm_contract "retract_arm" true; class = declarative }

unfoldable pub extend_arm_skill : RobotSkill
unfolding arm_contract
extend_arm_skill = record { contract = arm_contract "extend_arm" false; class = declarative }

-- `MoveAgvSkill`
unfoldable pub move_agv_skill : RobotSkill
move_agv_skill = record {
  contract = record {
    name = "move_agv";
    parameters =
        ("distance_m", number_spec true (minus_thousandths 5000) (thousandths 5000))
        ∷ ("speed_mps", number_spec false (thousandths 10) (thousandths 500))
        ∷ [];
    resources = "agv" ∷ [];
    preconditions =
        must_hold (lit "agv_ready" ∷ []) "AGV_NOT_READY" "agv_ready"
        ∷ must_hold (lit "left_arm_safe" ∷ []) "LEFT_ARM_UNSAFE_FOR_AGV" "left_arm_transport_safe"
        ∷ must_hold (lit "right_arm_safe" ∷ []) "RIGHT_ARM_UNSAFE_FOR_AGV"
            "right_arm_transport_safe"
        ∷ [];
    effects =
        record {
          field = lit "agv_position_m" ∷ [];
          operation = increment;
          operand = argument "distance_m";
          when_argument = none;
          tolerance = thousandths 1;
        }
        ∷ [];
    timeout = 30000000;
    recovery_policy = default_policy;
    incompatible_resources = "arm" ∷ "lift" ∷ [];
    allowed_backend_side_effects = [];
  };
  class = declarative;
}

-- `SetLiftSkill`
unfoldable pub set_lift_skill : RobotSkill
set_lift_skill = record {
  contract = record {
    name = "set_lift";
    parameters = ("height_mm", number_spec true (thousandths 0) (thousandths 780000)) ∷ [];
    resources = "lift" ∷ [];
    preconditions =
        must_hold (lit "lift_ready" ∷ []) "LIFT_NOT_READY" "lift_ready"
        ∷ must_hold (lit "left_arm_safe" ∷ []) "LEFT_ARM_UNSAFE_FOR_LIFT" "left_arm_transport_safe"
        ∷ must_hold (lit "right_arm_safe" ∷ []) "RIGHT_ARM_UNSAFE_FOR_LIFT"
            "right_arm_transport_safe"
        ∷ [];
    effects =
        record {
          field = lit "lift_height_mm" ∷ [];
          operation = Operation.replace;
          operand = argument "height_mm";
          when_argument = none;
          tolerance = thousandths 1;
        }
        ∷ [];
    timeout = 20000000;
    recovery_policy = default_policy;
    incompatible_resources = "agv" ∷ "arm" ∷ [];
    allowed_backend_side_effects = [];
  };
  class = declarative;
}

abbrev head_effect : String → String → EffectSpec
head_effect field_name argument_name = record {
  field = lit field_name ∷ [];
  operation = Operation.replace;
  operand = argument argument_name;
  when_argument = some argument_name;
  tolerance = thousandths 1;
}

-- `SetHeadSkill`
unfoldable pub set_head_skill : RobotSkill
set_head_skill = record {
  contract = record {
    name = "set_head";
    parameters =
        ("yaw_deg", number_spec false (minus_thousandths 90000) (thousandths 90000))
        ∷ ("pitch_deg", number_spec false (minus_thousandths 45000) (thousandths 20000))
        ∷ [];
    resources = "head" ∷ [];
    preconditions = must_hold (lit "head_ready" ∷ []) "HEAD_NOT_READY" "head_ready" ∷ [];
    effects = head_effect "head_yaw_deg" "yaw_deg" ∷ head_effect "head_pitch_deg" "pitch_deg" ∷ [];
    timeout = 10000000;
    recovery_policy = default_policy;
    incompatible_resources = [];
    allowed_backend_side_effects = [];
  };
  class = set_head;
}

register_all : List RobotSkill → SkillRegistry → Result SkillRegistry
unfolding register
register_all [] registry = ok registry
register_all (skill ∷ skills) registry = do
  registry' ← register skill registry
  register_all skills registry'

-- `build_default_registry`
unfoldable pub build_default_registry : Result SkillRegistry
unfolding register_all
build_default_registry =
    register_all
      (retract_arm_skill ∷ extend_arm_skill ∷ move_agv_skill ∷ set_lift_skill ∷ set_head_skill ∷ [])
      []

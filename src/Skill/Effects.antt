-- ===== src/Skill/Effects.antt =====
-- Declared effects: `EffectSpec` and `expected_effects` of embodied_skill_ros/skills/base_skill.py.
use embodied_skill_ros.Prelude.{
  Bool, List, Option, String, [], if◌then◌else◌, none, some, true, ◌∷◌,
}
use embodied_skill_ros.Prelude.Dict.{Dict, has, put}
use embodied_skill_ros.Value.Numbers.{Float, finite, minus, plus, scale}
use embodied_skill_ros.Value.{Value, as_number, equals, float, int, is_number, null}
use embodied_skill_ros.Errors.{Result, err, not_a_number, ok, ◌>>=◌}
use embodied_skill_ros.State.{RobotState, copy_with, raw_value}
use embodied_skill_ros.Skill.Template.{
  Arguments, Bindings, argument_of, as_arguments, bindings_for_field, format,
}
use embodied_skill_ros.Skill.Contract.{
  EffectSpec, Operand, Operation, RobotSkill, argument, increment, literal, replace,
}

-- `EffectSpec.active`
unfoldable pub active : EffectSpec → Arguments → Bool
active effect arguments = elim effect.when_argument [ none ↦ true | some name ↦ has name arguments ]

operand_value : Operand → Arguments → Result Value
operand_value (literal v) arguments = ok v
operand_value (argument name) arguments = argument_of arguments name

-- `float(operand)` for an int or a float; a bool and what is no number stay as they are
as_assigned : Value → Value
unfolding scale
as_assigned (int n) = float (finite (scale n))
as_assigned v = v

float_of : Option Float → Value → Result Float
float_of (some x) v = ok x
float_of none v = err (not_a_number v)

-- `float(value)`; a text that spells a number is not read
unfoldable pub to_float : Value → Result Float
unfolding float_of as_number
to_float v = float_of (as_number v) v

incremented : Value → Value → Result Value
unfolding to_float
incremented null operand = ok null
incremented current operand = do x ← to_float current; y ← to_float operand; ok (float (plus x y))

applied : Operation → Value → Value → Result Value
unfolding as_assigned incremented
applied replace current operand = ok (as_assigned operand)
applied increment current operand = incremented current operand

-- `EffectSpec.expected_value`, for the resolved field
unfoldable pub expected_value : EffectSpec → String → Arguments → RobotState → Result Value
unfolding operand_value applied
expected_value effect field_name arguments before = do
  operand ← operand_value effect.operand arguments
  applied effect.operation (raw_value before field_name) operand

-- The loop of the dictionary comprehension, with the dictionary built so far.
unfoldable pub collect_effects :
    List EffectSpec → Arguments → RobotState → Dict Value → Result (Dict Value)
collect_effects [] arguments before found = ok found
collect_effects (effect ∷ effects) arguments before found =
    let rest = λ (d : Dict Value). collect_effects effects arguments before d in
    if active effect arguments
    then (do
      field_name ← format effect.field arguments
      v ← expected_value effect field_name arguments before
      rest (put field_name v found))
    else rest found

-- `skill.expected_effects(arguments, before)`
unfoldable pub expected_effects : RobotSkill → Arguments → RobotState → Result (Dict Value)
expected_effects skill arguments before = collect_effects skill.effects arguments before []

-- `state.copy(**skill.expected_effects(arguments, state))`: the projection of a step
unfoldable pub project : RobotSkill → Arguments → RobotState → Result RobotState
project skill arguments state = do
  effects ← expected_effects skill arguments state
  ok (copy_with state effects)

synthesized : EffectSpec → Bindings → String → Value → RobotState → Option Arguments
unfolding as_arguments equals is_number as_number minus
synthesized effect bindings concrete_field target state =
    let arguments = as_arguments bindings in
    elim effect.operation [
      | replace ↦ elim effect.operand [
        | literal v ↦ if equals v target then some arguments else none
        | argument name ↦ some (put name target arguments)
      ]
      | increment ↦ elim effect.operand [
        | literal v ↦ none
        | argument name ↦ elim (as_number (raw_value state concrete_field)) [
          | none ↦ none
          | some current ↦ elim (as_number target) [
            | none ↦ none
            | some wanted ↦ some (put name (float (minus wanted current)) arguments)
          ]
        ]
      ]
    ]

-- `EffectSpec.synthesize_arguments`
unfoldable pub synthesize_arguments : EffectSpec → String → Value → RobotState → Option Arguments
unfolding synthesized
synthesize_arguments effect concrete_field target state =
    elim (bindings_for_field effect.field concrete_field) [
      | none ↦ none
      | some bindings ↦ synthesized effect bindings concrete_field target state
    ]

-- ===== src/Skill/Outcome.antt =====
-- `RobotSkill.verify_outcome` of embodied_skill_ros/skills/base_skill.py.
pub mod Verified
use embodied_skill_ros.Prelude.{
  Bool, List, Option, String, [], false, if◌then◌else◌, is_nil, none, not, some, ℕ, ◌++◌, ◌||◌, ◌∷◌,
}
use embodied_skill_ros.Prelude.Dict.{Dict, get, put}
use embodied_skill_ros.Prelude.Int.{pos}
use embodied_skill_ros.Value.Numbers.{Float, absolute, finite, lt_float, minus}
use embodied_skill_ros.Value.{Value, as_number, equals, float, is_null}
use embodied_skill_ros.Errors.{Result, ok, ◌>>=◌}
use embodied_skill_ros.State.{
  EpistemicValue, KnowledgeStatus, RobotState, epistemic_value, is_known, raw_value,
}
use embodied_skill_ros.Skill.Template.{Arguments, format}
use embodied_skill_ros.Skill.Contract.{EffectSpec, RobotSkill}
use embodied_skill_ros.Skill.Effects.{active, expected_effects}

-- A failure, with what its text shows: a value that is not KNOWN, a missing value, another value.
pub data Failure : Type 0 where
  no_evidence : String → KnowledgeStatus → Failure
  no_value : String → Failure
  mismatch : String → Value → Value → Failure

pub record VerificationResult : Type 0 where
  pub achieved : Bool
  pub failures : List Failure
  pub observed : Dict Value

-- The loop that builds `specs`: the last active effect under each resolved field.
unfoldable pub collect_specs :
    List EffectSpec → Arguments → Dict EffectSpec → Result (Dict EffectSpec)
collect_specs [] arguments found = ok found
collect_specs (effect ∷ effects) arguments found =
    let rest = λ (d : Dict EffectSpec). collect_specs effects arguments d in
    if active effect arguments
    then (do field_name ← format effect.field arguments; rest (put field_name effect found))
    else rest found

pub tolerance_of : Option Float → Option EffectSpec → Float
tolerance_of (some t) spec = t
tolerance_of none (some spec) = spec.tolerance
tolerance_of none none = finite (pos 0)

-- `isinstance(actual, (int, float)) and not abs(float(actual) - target) > allowed`
unfoldable pub within : Option Float → Float → Float → Bool
unfolding lt_float absolute minus
within none target allowed = false
within (some actual) target allowed = not (lt_float allowed (absolute (minus actual target)))

-- One field: whether the observed value is what the effect promises.
unfoldable pub matches : Value → Value → Float → Bool
unfolding within as_number equals
matches actual (float target) allowed = within (as_number actual) target allowed
matches actual target allowed = equals actual target

failure_of : String → EpistemicValue → Value → Float → List Failure
unfolding is_known is_null matches
failure_of key evidence target allowed =
    if not (is_known evidence.status)
    then no_evidence key evidence.status ∷ []
    else if is_null evidence.value || is_null target
    then no_value key ∷ []
    else if matches evidence.value target allowed
    then []
    else mismatch key evidence.value target ∷ []

-- The loop over the expected values. `now` is the clock; no age limit is set here.
unfoldable pub check_effects :
    Dict Value → Dict EffectSpec → Option Float → RobotState → ℕ → List Failure
unfolding failure_of tolerance_of
check_effects [] specs tolerance after now = []
check_effects ((key, target) ∷ expected) specs tolerance after now =
    failure_of key (epistemic_value after key none now) target
      (tolerance_of tolerance (get key specs))
    ++ check_effects expected specs tolerance after now

observed_values : Dict Value → RobotState → Dict Value
observed_values [] after = []
observed_values ((key, target) ∷ expected) after =
    (key, raw_value after key) ∷ observed_values expected after

-- `skill.verify_outcome(arguments, before, after, tolerance)`
unfoldable pub verify_outcome :
    RobotSkill → Arguments → RobotState → RobotState → Option Float → ℕ → Result VerificationResult
unfolding observed_values
verify_outcome skill arguments before after tolerance now = do
  expected ← expected_effects skill arguments before
  specs ← collect_specs skill.effects arguments []
  let failures = check_effects expected specs tolerance after now
  ok (record {
    achieved = is_nil failures;
    failures = failures;
    observed = observed_values expected after;
  })

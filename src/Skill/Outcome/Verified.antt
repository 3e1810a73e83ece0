-- ===== src/Skill/Outcome/Verified.antt =====
-- When an outcome counts as achieved.
use embodied_skill_ros.Prelude.{
  All, Bool, Option, String, [], ap, append-nil-parts, arith, false, is_nil, is_nil-eq, none,
  none-ne-some, not, refl, some, some_injective, subst, sym, true, ℕ, ◌↔◌, ◌∙◌, ◌∷◌, ◌≡◌, ◌≢◌,
}
use embodied_skill_ros.Prelude.Dict.{Dict, get}
use embodied_skill_ros.Value.Numbers.{Float, minus, nan, plus}
use embodied_skill_ros.Value.{
  Value, as_number, bool, equals, float, floats, int, is_float, is_null, null, text, texts,
}
use embodied_skill_ros.Value.Agreement.{NotFar, within-NotFar}
use embodied_skill_ros.Value.Laws.{lt_float-nan}
use embodied_skill_ros.Errors.{ok}
use embodied_skill_ros.State.{
  EpistemicValue, KnowledgeStatus, RobotState, epistemic_value, is_known, known, raw_value,
}
use embodied_skill_ros.State.Evidence.{
  IsEvidence, epistemic_value-known, is_known-eq, is_null-false, null-is_null,
}
use embodied_skill_ros.Skill.Template.{Arguments}
use embodied_skill_ros.Skill.Contract.{EffectSpec, RobotSkill}
use embodied_skill_ros.Skill.Effects.{expected_effects}
use embodied_skill_ros.Skill.Outcome.{
  VerificationResult, check_effects, collect_specs, failure_of, matches, tolerance_of,
  verify_outcome, within,
}

-- The observed value is the promised one: for a float a number that is not further away than what is
-- allowed (NaN is never further away), and an equal value for anything else.
abbrev pub Matched : Float → Value → Value → Type 0
Matched allowed actual (float t) = (a : Float) × (as_number actual ≡ some a) × NotFar allowed a t
Matched allowed actual target = equals actual target ≡ true

within-Matched :
    (o : Option Float) (t allowed : Float)
    → (within o t allowed ≡ true) ↔ ((a : Float) × (o ≡ some a) × NotFar allowed a t)
unfolding within
within-Matched none t allowed = ((λ h. cc), (λ h. absurd (none-ne-some (h.0) (h.1))))
within-Matched (some a) t allowed = (
  (λ h. (a, refl, (within-NotFar allowed a t).0 (not-true _ h))),
  (λ (b, e, n).
      ap not (
        (within-NotFar allowed a t).1
          (subst (λ x. NotFar allowed x t) (sym (some_injective e)) n))),
)
  where
    not-true : (b : Bool) → not b ≡ true → b ≡ false
    not-true b h = ground arith

matches-Matched :
    (actual target : Value) (allowed : Float)
    → (matches actual target allowed ≡ true) ↔ Matched allowed actual target
unfolding matches
matches-Matched actual (float t) allowed = within-Matched (as_number actual) t allowed
matches-Matched actual null allowed = ((λ h. h), (λ h. h))
matches-Matched actual (bool b) allowed = ((λ h. h), (λ h. h))
matches-Matched actual (int n) allowed = ((λ h. h), (λ h. h))
matches-Matched actual (text x) allowed = ((λ h. h), (λ h. h))
matches-Matched actual (floats xs) allowed = ((λ h. h), (λ h. h))
matches-Matched actual (texts d) allowed = ((λ h. h), (λ h. h))

-- The field has current evidence, something was promised, and the observed value is that.
pub record Shows (after : RobotState) (now : ℕ) (allowed : Float) (key : String) (target : Value)
    : Type 0 where
  pub evidence : IsEvidence after key none now
  pub promised : target ≢ null
  pub agrees : Matched allowed (raw_value after key) target

abbrev pub AllShown : RobotState → ℕ → Option Float → Dict EffectSpec → Dict Value → Type 0
AllShown after now tolerance specs expected =
    All (λ p. Shows after now (tolerance_of tolerance (get p.0 specs)) p.0 p.1) expected

known-is_known : (k : KnowledgeStatus) → k ≡ known → is_known k ≡ true
unfolding is_known
known-is_known k h = ground arith

failure_of-nil :
    (key : String) (e : EpistemicValue) (target : Value) (allowed : Float)
    → failure_of key e target allowed ≡ []
    → (is_known e.status ≡ true)
      × (is_null target ≡ false)
      × (matches e.value target allowed ≡ true)
unfolding failure_of
failure_of-nil key e target allowed h = ground arith

nil-failure_of :
    (key : String) (e : EpistemicValue) (target : Value) (allowed : Float)
    → is_known e.status ≡ true
    → is_null e.value ≡ false
    → is_null target ≡ false
    → matches e.value target allowed ≡ true
    → failure_of key e target allowed ≡ []
unfolding failure_of
nil-failure_of key e target allowed a b c d = ground arith

field-shown :
    (key : String) (target : Value) (allowed : Float) (after : RobotState) (now : ℕ)
    → failure_of key (epistemic_value after key none now) target allowed ≡ []
    → Shows after now allowed key target
field-shown key target allowed after now h =
    let (usable, given, agreed) =
      failure_of-nil key (epistemic_value after key none now) target allowed h in
    record {
      evidence = (epistemic_value-known after key none now).0 (is_known-eq _ usable);
      promised = null-is_null target given;
      agrees =
          (matches-Matched (raw_value after key) target allowed).0
            (unfold epistemic_value in agreed);
    }

shown-field :
    (key : String) (target : Value) (allowed : Float) (after : RobotState) (now : ℕ)
    → Shows after now allowed key target
    → failure_of key (epistemic_value after key none now) target allowed ≡ []
shown-field key target allowed after now s =
    nil-failure_of key (epistemic_value after key none now) target allowed
      (known-is_known _ ((epistemic_value-known after key none now).1 s.evidence))
      (unfold epistemic_value in is_null-false (raw_value after key) s.evidence.present)
      (is_null-false target s.promised)
      (unfold epistemic_value in (matches-Matched (raw_value after key) target allowed).1 s.agrees)

check_effects-nil :
    (expected : Dict Value) (specs : Dict EffectSpec) (tolerance : Option Float)
    (after : RobotState) (now : ℕ)
    → check_effects expected specs tolerance after now ≡ []
    → AllShown after now tolerance specs expected
unfolding check_effects
check_effects-nil [] specs tolerance after now h = tt
check_effects-nil ((key, target) ∷ expected) specs tolerance after now h =
    let (here, rest) =
      append-nil-parts
        (failure_of key (epistemic_value after key none now) target
          (tolerance_of tolerance (get key specs)))
        _ h in
    (
      field-shown key target _ after now here,
      check_effects-nil expected specs tolerance after now rest,
    )

nil-check_effects :
    (expected : Dict Value) (specs : Dict EffectSpec) (tolerance : Option Float)
    (after : RobotState) (now : ℕ)
    → AllShown after now tolerance specs expected
    → check_effects expected specs tolerance after now ≡ []
unfolding check_effects
nil-check_effects [] specs tolerance after now h = refl
nil-check_effects ((key, target) ∷ expected) specs tolerance after now h =
    rw (shown-field key target _ after now h.0)
      (nil-check_effects expected specs tolerance after now h.1)

-- Where the declared effects can be computed, an outcome is achieved exactly when every field of
-- the expected effects has current evidence in the state observed after the command, a value was
-- promised for it, and the observed value is the promised one: an equal value, or for a float a number
-- that is not further from it than the tolerance that is passed or, without one, that of the last
-- effect on that field. A number whose distance is NaN is never further from it.
pub verify_outcome-achieved :
    (skill : RobotSkill) (arguments : Arguments) (before after : RobotState)
    (tolerance : Option Float) (now : ℕ) (expected : Dict Value) (specs : Dict EffectSpec)
    (r : VerificationResult)
    → expected_effects skill arguments before ≡ ok expected
    → collect_specs skill.effects arguments [] ≡ ok specs
    → verify_outcome skill arguments before after tolerance now ≡ ok r
    → (r.achieved ≡ true) ↔ AllShown after now tolerance specs expected
unfolding verify_outcome
verify_outcome-achieved skill arguments before after tolerance now expected specs r he hs h =
    let found : r.achieved ≡ is_nil (check_effects expected specs tolerance after now) =
      ground arith in
    (
      (λ a. check_effects-nil expected specs tolerance after now (is_nil-eq _ (sym found ∙ a))),
      (λ s. found ∙ ap is_nil (nil-check_effects expected specs tolerance after now s)),
    )

-- A NaN observation agrees with every float target, whatever the tolerance.
pub matches-nan : (target allowed : Float) → matches (float nan) (float target) allowed ≡ true
unfolding matches minus plus
matches-nan target allowed = rw lt_float-nan

-- Each expected value is a float, and NaN is observed for it with current evidence.
abbrev pub ReadsNan : RobotState → ℕ → Dict Value → Type 0
ReadsNan after now expected =
    All
      (λ p.
        IsEvidence after p.0 none now
        × (raw_value after p.0 ≡ float nan)
        × (p.1 ≢ null)
        × (is_float p.1 ≡ true))
      expected

float-matches-nan :
    (v : Value) (allowed : Float) → is_float v ≡ true → matches (float nan) v allowed ≡ true
unfolding is_float
float-matches-nan (float x) allowed h = matches-nan x allowed
float-matches-nan null allowed h = cc
float-matches-nan (bool b) allowed h = cc
float-matches-nan (int n) allowed h = cc
float-matches-nan (text s) allowed h = cc
float-matches-nan (floats xs) allowed h = cc
float-matches-nan (texts d) allowed h = cc

nan-shown :
    (expected : Dict Value) (specs : Dict EffectSpec) (tolerance : Option Float)
    (after : RobotState) (now : ℕ)
    → ReadsNan after now expected
    → AllShown after now tolerance specs expected
nan-shown [] specs tolerance after now h = tt
nan-shown ((key, target) ∷ expected) specs tolerance after now h = (
  record {
    evidence = h.0.0;
    promised = h.0.2;
    agrees =
        rw (h.0.1) ((matches-Matched (float nan) target _).0 (float-matches-nan target _ (h.0).3));
  },
  nan-shown expected specs tolerance after now h.1,
)

-- When every expected effect is a float and the sensors read NaN for each of these fields, with current
-- evidence, the outcome is accepted as achieved, whatever the targets and the tolerance are.
pub verify_outcome-nan :
    (skill : RobotSkill) (arguments : Arguments) (before after : RobotState)
    (tolerance : Option Float) (now : ℕ) (expected : Dict Value) (specs : Dict EffectSpec)
    (r : VerificationResult)
    → expected_effects skill arguments before ≡ ok expected
    → collect_specs skill.effects arguments [] ≡ ok specs
    → verify_outcome skill arguments before after tolerance now ≡ ok r
    → ReadsNan after now expected
    → r.achieved ≡ true
verify_outcome-nan skill arguments before after tolerance now expected specs r he hs h reads =
    (verify_outcome-achieved skill arguments before after tolerance now expected specs r he hs h).1
      (nan-shown expected specs tolerance after now reads)

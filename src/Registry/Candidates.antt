-- ===== src/Registry/Candidates.antt =====
-- The steps that `synthesize_candidates` and `synthesize_step` propose.
use embodied_skill_ros.Prelude.{
  All, Bool-cases, List, Option-cases, String, [], ap, eq_iff, eq_refl, false, inl, inr, none,
  none-ne-some, refl, some, subst, sym, true, ◌==◌, ◌∙◌, ◌∷◌, ◌≡◌,
}
use embodied_skill_ros.Prelude.Dict.{Dict, get}
use embodied_skill_ros.Prelude.Texts.{contains}
use embodied_skill_ros.Value.{Value}
use embodied_skill_ros.Errors.{Result, err, ok}
use embodied_skill_ros.State.{RobotState}
use embodied_skill_ros.Skill.Template.{Arguments}
use embodied_skill_ros.Skill.Contract.{EffectSpec, RobotSkill}
use embodied_skill_ros.Skill.Parameters.{validate_arguments}
use embodied_skill_ros.Skill.Parameters.Accepted.{IsValidCall, validate_arguments-IsValidCall}
use embodied_skill_ros.Skill.Effects.{synthesize_arguments}
use embodied_skill_ros.Plan.{PlanStep}
use embodied_skill_ros.Registry.{
  SkillRegistry, candidate_step, first_usable, found_skill, head_of, skill_named, succeeds,
  synthesize_candidates, synthesize_step, usable_arguments,
}
use embodied_skill_ros.Registry.Laws.{IsRegistry}
use embodied_skill_ros.Prelude.Dict

-- A step that calls a registered skill, which is not excluded, with valid arguments.
pub record IsCandidate (registry : SkillRegistry) (excluded : List String) (step : PlanStep)
    : Type 0 where
  pub skill : RobotSkill
  pub registered : skill_named registry step.skill ≡ ok skill
  pub not_excluded : contains step.skill excluded ≡ false
  pub valid : IsValidCall skill step.arguments

-- The skills of a part of the registry are found in the whole under their names.
abbrev FoundIn : SkillRegistry → SkillRegistry → Type 0
FoundIn whole part = All (λ p. Dict.get p.1.name whole ≡ some p.1) part

get-tail :
    (key : String) (skill : RobotSkill) (registry : SkillRegistry) (name : String)
    (found : RobotSkill)
    → Dict.get key registry ≡ none
    → Dict.get name registry ≡ some found
    → Dict.get name ((key, skill) ∷ registry) ≡ some found
unfolding Dict.get
get-tail key skill registry name found vacant h = elim (Bool-cases (key == name)) [
  | inl e ↦
      let same : key ≡ name = (eq_iff key name).0 e in
      absurd (none-ne-some found (sym (subst (λ k. Dict.get k registry ≡ none) same vacant) ∙ h))
  | inr e ↦ rw e h
]

FoundIn-widen :
    (key : String) (skill : RobotSkill) (registry part : SkillRegistry)
    → Dict.get key registry ≡ none
    → FoundIn registry part
    → FoundIn ((key, skill) ∷ registry) part
FoundIn-widen key skill registry [] vacant h = tt
FoundIn-widen key skill registry ((k, s) ∷ part) vacant h = (
  get-tail key skill registry s.name s vacant h.0,
  FoundIn-widen key skill registry part vacant h.1,
)

registry-FoundIn : (registry : SkillRegistry) → IsRegistry registry → FoundIn registry registry
registry-FoundIn [] h = tt
registry-FoundIn ((key, skill) ∷ registry) h = (
  unfold Dict.get in rw (← h.0) (rw (eq_refl key) refl),
  FoundIn-widen key skill registry registry h.1 (registry-FoundIn registry h.2),
)

succeeds-ok : (r : Result (Unit {0})) → succeeds r ≡ true → r ≡ ok tt
unfolding succeeds
succeeds-ok (ok tt) h = refl
succeeds-ok (err e) h = cc

usable_arguments-valid :
    (skill : RobotSkill) (effect : EffectSpec) (field_name : String) (target : Value)
    (state : RobotState) (arguments : Arguments)
    → usable_arguments skill effect field_name target state ≡ some arguments
    → validate_arguments skill arguments ≡ ok tt
unfolding usable_arguments
usable_arguments-valid skill effect field_name target state arguments h =
    elim (Option-cases (synthesize_arguments effect field_name target state)) [
      | inl e ↦ absurd (none-ne-some arguments (rw (usable_arguments, e) at h))
      | inr (found, e) ↦ elim (Bool-cases (succeeds (validate_arguments skill found))) [
        | inr bad ↦ absurd (none-ne-some arguments (rw (usable_arguments, e, bad) at h))
        | inl good ↦
            let same : some found ≡ some arguments = rw (usable_arguments, e, good) at h in
            subst (λ a. validate_arguments skill a ≡ ok tt) (cc same)
              (succeeds-ok (validate_arguments skill found) good)
      ]
    ]

first_usable-valid :
    (skill : RobotSkill) (effects : List EffectSpec) (field_name : String) (target : Value)
    (state : RobotState) (arguments : Arguments)
    → first_usable skill effects field_name target state ≡ some arguments
    → validate_arguments skill arguments ≡ ok tt
unfolding first_usable
first_usable-valid skill [] field_name target state arguments h = absurd (none-ne-some arguments h)
first_usable-valid skill (effect ∷ effects) field_name target state arguments h =
    elim (Option-cases (usable_arguments skill effect field_name target state)) [
      | inl e ↦
          first_usable-valid skill effects field_name target state arguments
            (rw (first_usable, e) at h)
      | inr (found, e) ↦
          let same : some found ≡ some arguments = rw (first_usable, e) at h in
          usable_arguments-valid skill effect field_name target state arguments (e ∙ same)
    ]

module _ (whole : SkillRegistry) (field_name : String) (target : Value) (state : RobotState)
    (step_id inserted_by : String) (excluded : List String) where
  candidates_part :
      (part : SkillRegistry)
      → FoundIn whole part
      → All
          (IsCandidate whole excluded)
          (synthesize_candidates part field_name target state step_id inserted_by excluded)
  unfolding synthesize_candidates candidate_step skill_named found_skill
  candidates_part [] h = tt
  candidates_part ((key, skill) ∷ part) h = elim (Bool-cases (contains skill.name excluded)) [
    | inl e ↦ rw e (candidates_part part h.1)
    | inr e ↦ elim (Option-cases (first_usable skill skill.effects field_name target state)) [
      | inl e' ↦ rw (e, e') (candidates_part part h.1)
      | inr (arguments, e') ↦
          let here : IsCandidate whole excluded
              (candidate_step skill arguments field_name target step_id inserted_by) =
            record {
              skill = skill;
              registered = ap (found_skill skill.name) (h.0);
              not_excluded = e;
              valid =
                  validate_arguments-IsValidCall skill arguments
                    (first_usable-valid skill skill.effects field_name target state arguments e');
            } in
          let both : All (IsCandidate whole excluded) (
              candidate_step skill arguments field_name target step_id inserted_by
              ∷ synthesize_candidates part field_name target state step_id inserted_by excluded) =
            (here, candidates_part part h.1) in
          rw (e, e') both
    ]
  ]

-- Every step that a well-formed registry proposes calls one of its skills, which is not excluded,
-- with arguments that are valid for it.
pub synthesize_candidates-IsCandidate :
    (registry : SkillRegistry) (field_name : String) (target : Value) (state : RobotState)
    (step_id inserted_by : String) (excluded : List String)
    → IsRegistry registry
    → All
        (IsCandidate registry excluded)
        (synthesize_candidates registry field_name target state step_id inserted_by excluded)
synthesize_candidates-IsCandidate registry field_name target state step_id inserted_by excluded h =
    candidates_part registry field_name target state step_id inserted_by excluded registry
      (registry-FoundIn registry h)

pub synthesize_step-IsCandidate :
    (registry : SkillRegistry) (field_name : String) (target : Value) (state : RobotState)
    (step_id inserted_by : String) (excluded : List String) (step : PlanStep)
    → IsRegistry registry
    → synthesize_step registry field_name target state step_id inserted_by excluded ≡ some step
    → IsCandidate registry excluded step
unfolding synthesize_step head_of
synthesize_step-IsCandidate registry field_name target state step_id inserted_by excluded step h e =
    head-All _ step
      (synthesize_candidates-IsCandidate registry field_name target state step_id inserted_by
        excluded h)
      e
  where
    head-All :
        (steps : List PlanStep) (s : PlanStep)
        → All (IsCandidate registry excluded) steps
        → head_of steps ≡ some s
        → IsCandidate registry excluded s
    head-All [] s a k = cc
    head-All (x ∷ xs) s a k = subst (IsCandidate registry excluded) (cc k) (a.0)

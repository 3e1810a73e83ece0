-- ===== src/Registry/Laws.antt =====
-- The invariant of a registry, and what it synthesizes: `synthesize_candidates` and
-- `synthesize_step`.
use embodied_skill_ros.Prelude.{
  Bool-cases, Option, Option-cases, String, [], ap, arith, eq_iff, false, inl, inr, is_some, none,
  refl, some, ◌==◌, ◌∙◌, ◌∷◌, ◌≡◌, ◌≢◌, ◌⊎◌,
}
use embodied_skill_ros.Prelude.Dict.{Dict, get, get-put, get-put_self, put}
use embodied_skill_ros.Errors.{Result, duplicate_skill, err, ok, unknown_skill}
use embodied_skill_ros.Skill.Contract.{RobotSkill}
use embodied_skill_ros.Registry.{SkillRegistry, found_skill, register, skill_named}
use embodied_skill_ros.Prelude.Dict

-- Each skill is kept under its own name, and under no name twice.
abbrev pub IsRegistry : SkillRegistry → Type 0
IsRegistry [] = Unit
IsRegistry ((key, skill) ∷ registry) =
    (key ≡ skill.name) × (Dict.get key registry ≡ none) × IsRegistry registry

other_key : (j k : String) → (j == k) ≡ false → (k == j) ≡ false
other_key j k h = ground (arith, eq_iff j k, eq_iff k j)

put-IsRegistry :
    (skill : RobotSkill) (registry : SkillRegistry)
    → IsRegistry registry
    → Dict.get skill.name registry ≡ none
    → IsRegistry (Dict.put skill.name skill registry)
unfolding Dict.put Dict.get
put-IsRegistry skill [] h vacant = (refl, refl, tt)
put-IsRegistry skill ((key, other) ∷ registry) h vacant = elim (Bool-cases (key == skill.name)) [
  | inl e ↦ absurd (some-ne-none other (rw e at vacant))
  | inr e ↦
      let later : Dict.get skill.name registry ≡ none = rw e at vacant in
      let distinct : Dict.get key (Dict.put skill.name skill registry) ≡ none =
        Dict.get-put skill.name key skill registry ∙ rw (other_key key skill.name e) (h.1) in
      let whole : IsRegistry ((key, other) ∷ Dict.put skill.name skill registry) =
        (h.0, distinct, put-IsRegistry skill registry h.2 later) in
      rw e whole
]
  where
    some-ne-none : (s : RobotSkill) → ◌≢◌ {A = Option RobotSkill} (some s) none
    some-ne-none s e = cc

is_some-none : (o : Option RobotSkill) → is_some o ≡ false → o ≡ none
is_some-none none h = refl
is_some-none (some s) h = cc

-- How a registration ends: a name that is taken raises; any other is added, under which the skill is
-- found then, and every other name finds what it found before.
abbrev pub Registers : RobotSkill → SkillRegistry → Result SkillRegistry → Type 0
Registers skill registry (err e) =
    (e ≡ duplicate_skill skill.name) × ((s : RobotSkill) × (skill_named registry skill.name ≡ ok s))
Registers skill registry (ok registry') =
    (skill_named registry skill.name ≡ err (unknown_skill skill.name))
    × IsRegistry registry'
    × (skill_named registry' skill.name ≡ ok skill)
    × ((name : String)
        → (skill.name ≡ name) ⊎ (skill_named registry' name ≡ skill_named registry name))

-- On a well-formed registry a registration raises exactly when the skill's name is taken. Otherwise
-- the new registry is well-formed too, finds the skill under its name, and finds under every other
-- name what was found there before.
pub register-IsRegistry :
    (skill : RobotSkill) (registry : SkillRegistry)
    → IsRegistry registry
    → Registers skill registry (register skill registry)
unfolding register skill_named
register-IsRegistry skill registry h = elim (Option-cases (Dict.get skill.name registry)) [
  | inr (s, taken) ↦ rw taken (refl, (s, ap (found_skill skill.name) taken))
  | inl free ↦ rw free (
    ap (found_skill skill.name) free,
    put-IsRegistry skill registry h free,
    ap (found_skill skill.name) (Dict.get-put_self skill.name skill registry),
    λ name. other name,
  )
]
  where
    other :
        (name : String)
        → (skill.name ≡ name)
          ⊎ (found_skill name (Dict.get name (Dict.put skill.name skill registry))
              ≡ found_skill name (Dict.get name registry))
    other name = elim (Bool-cases (skill.name == name)) [
      | inl e ↦ inl ((eq_iff skill.name name).0 e)
      | inr e ↦
          inr (ap (found_skill name) (Dict.get-put skill.name name skill registry ∙ rw e refl))
    ]

-- ===== src/Constraints/Parallel.antt =====
-- What it means that the check of parallel groups finds nothing.
use embodied_skill_ros.Prelude.{
  All, All-append, Bool, Bool-cases, List, Option, String, [], append-nil-parts, arith, cons-ne-nil,
  eq_iff, false, inl, inr, keep, none, refl, some, subst, true, ◌++◌, ◌==◌, ◌||◌, ◌∷◌, ◌≡◌,
}
use embodied_skill_ros.Prelude.Dict.{Dict, get}
use embodied_skill_ros.Prelude.Texts.{add, contains, intersection, union}
use embodied_skill_ros.Skill.Contract.{RobotSkill}
use embodied_skill_ros.Plan.{PlanStep}
use embodied_skill_ros.Constraints.{
  ConstraintViolation, body_conflicts, check_group, check_groups, overlaps, resource_conflicts,
}

-- Two skills may run at the same time: they share no resource, and neither uses one that the other
-- is incompatible with.
pub record IsCompatible (skill prior : RobotSkill) : Type 0 where
  pub no_shared : intersection prior.resources skill.resources ≡ []
  pub skill_allowed : overlaps skill.resources prior.incompatible_resources ≡ false
  pub prior_allowed : overlaps prior.resources skill.incompatible_resources ≡ false

-- The known skills of a group's steps, each compatible with those before it.
abbrev pub GroupCompatible : Dict RobotSkill → List RobotSkill → List PlanStep → Type 0
GroupCompatible skills priors [] = Unit
GroupCompatible skills priors (step ∷ steps) = elim (get step.skill skills) [
  | none ↦ GroupCompatible skills priors steps
  | some skill ↦
      All (IsCompatible skill) priors × GroupCompatible skills (priors ++ skill ∷ []) steps
]

none_kept :
    (p : String → Bool) (y : String) (xs : List String)
    → contains y xs ≡ true
    → keep p xs ≡ []
    → p y ≡ false
unfolding contains
none_kept p y [] h k = cc
none_kept p y (x ∷ xs) h k = elim (Bool-cases (p x)) [
  | inl e ↦ absurd (cons-ne-nil (rw e at k))
  | inr e ↦ elim (Bool-cases (x == y)) [
    | inl same ↦ subst (λ z. p z ≡ false) ((eq_iff x y).0 same) e
    | inr other ↦ none_kept p y xs (rw other at h) (rw e at k)
  ]
]

keep-append-nil :
    (p : String → Bool) (xs ys : List String)
    → keep p (xs ++ ys) ≡ []
    → (keep p xs ≡ []) × (keep p ys ≡ [])
keep-append-nil p [] ys h = (refl, h)
keep-append-nil p (x ∷ xs) ys h = elim (Bool-cases (p x)) [
  | inl e ↦ absurd (cons-ne-nil (rw e at h))
  | inr e ↦ let (a, b) = keep-append-nil p xs ys (rw e at h) in (rw e a, b)
]

keep-add-nil :
    (p : String → Bool) (y : String) (xs : List String)
    → keep p (add y xs) ≡ []
    → (keep p xs ≡ []) × (p y ≡ false)
unfolding add
keep-add-nil p y xs h = elim (Bool-cases (contains y xs)) [
  | inl e ↦ let k : keep p xs ≡ [] = rw e at h in (k, none_kept p y xs e k)
  | inr e ↦
      let (a, b) = keep-append-nil p xs (y ∷ []) (rw e at h) in
      (a, elim (Bool-cases (p y)) [ inl t ↦ absurd (cons-ne-nil (rw t at b)) | inr f ↦ f ])
]

keep-union-nil :
    (p : String → Bool) (xs ys : List String)
    → keep p (union xs ys) ≡ []
    → (keep p xs ≡ []) × (keep p ys ≡ [])
unfolding union
keep-union-nil p xs [] h = (h, refl)
keep-union-nil p xs (y ∷ ys) h =
    let (a, b) = keep-union-nil p (add y xs) ys h in
    let (c, d) = keep-add-nil p y xs a in (c, rw d b)

-- Resources that are disjoint from all used ones are disjoint from those of each prior skill.
abbrev Covers : List String → List RobotSkill → Type 0
Covers used priors =
    (zs : List String)
    → intersection used zs ≡ []
    → All (λ (p : RobotSkill). intersection p.resources zs ≡ []) priors

Covers-union :
    (used : List String) (priors : List RobotSkill) (skill : RobotSkill)
    → Covers used priors
    → Covers (union used skill.resources) (priors ++ skill ∷ [])
unfolding intersection
Covers-union used priors skill h zs e =
    let (a, b) = keep-union-nil (λ x. contains x zs) used skill.resources e in
    All-append _ priors (skill ∷ []) (h zs a) (b, tt)

body-clear :
    (step_id : String) (skill : RobotSkill) (priors : List RobotSkill)
    → body_conflicts step_id skill priors ≡ []
    → All (λ (p : RobotSkill). intersection p.resources skill.resources ≡ []) priors
    → All (IsCompatible skill) priors
unfolding body_conflicts
body-clear step_id skill [] h disjoint = tt
body-clear step_id skill (prior ∷ priors) h disjoint =
    let (here, later) = append-nil-parts _ (body_conflicts step_id skill priors) h in
    let clear : (overlaps skill.resources prior.incompatible_resources
          || overlaps prior.resources skill.incompatible_resources)
        ≡ false =
      elim (Bool-cases (
        overlaps skill.resources prior.incompatible_resources
        || overlaps prior.resources skill.incompatible_resources)) [
          | inl e ↦ absurd (cons-ne-nil (rw e at here))
          | inr e ↦ e
        ] in
    (
      record { no_shared = disjoint.0; skill_allowed = ground arith; prior_allowed = ground arith },
      body-clear step_id skill priors later disjoint.1,
    )

resource-clear :
    (step_id : String) (overlap : List String)
    → resource_conflicts step_id overlap ≡ []
    → overlap ≡ []
unfolding resource_conflicts
resource-clear step_id [] h = refl
resource-clear step_id (x ∷ xs) h = cc

check_group-GroupCompatible :
    (steps : List PlanStep) (skills : Dict RobotSkill) (used : List String)
    (priors : List RobotSkill)
    → Covers used priors
    → check_group steps skills used priors ≡ []
    → GroupCompatible skills priors steps
unfolding check_group
check_group-GroupCompatible [] skills used priors h e = tt
check_group-GroupCompatible (step ∷ steps) skills used priors h e =
    found (get step.skill skills) e (λ k. check_group-GroupCompatible steps skills used priors h k)
      (λ skill k.
        check_group-GroupCompatible steps skills (union used skill.resources) (priors ++ skill ∷ [])
          (Covers-union used priors skill h) k)
  where
    found :
        (o : Option RobotSkill)
        → (elim o as (λ x. List ConstraintViolation) [
          | none ↦ check_group steps skills used priors
          | some skill ↦
              resource_conflicts step.id (intersection used skill.resources)
              ++ body_conflicts step.id skill priors
              ++ check_group steps skills (union used skill.resources) (priors ++ skill ∷ [])
        ])
          ≡ []
        → (check_group steps skills used priors ≡ [] → GroupCompatible skills priors steps)
        → ((skill : RobotSkill)
            → check_group steps skills (union used skill.resources) (priors ++ skill ∷ []) ≡ []
            → GroupCompatible skills (priors ++ skill ∷ []) steps)
        → (elim o as (λ x. Type 0) [
          | none ↦ GroupCompatible skills priors steps
          | some skill ↦
              All (IsCompatible skill) priors × GroupCompatible skills (priors ++ skill ∷ []) steps
        ])
    found none k skip next = skip k
    found (some skill) k skip next =
        let rest = check_group steps skills (union used skill.resources) (priors ++ skill ∷ []) in
        let (ab, d) =
          append-nil-parts
            (resource_conflicts step.id (intersection used skill.resources)
              ++ body_conflicts step.id skill priors)
            rest k in
        let (a, c) =
          append-nil-parts (resource_conflicts step.id (intersection used skill.resources)) _ ab in
        (
          body-clear step.id skill priors c (h skill.resources (resource-clear step.id _ a)),
          next skill d,
        )

abbrev pub GroupsCompatible : Dict RobotSkill → Dict (List PlanStep) → Type 0
GroupsCompatible skills groups = All (λ g. GroupCompatible skills [] g.1) groups

pub check_groups-GroupsCompatible :
    (groups : Dict (List PlanStep)) (skills : Dict RobotSkill)
    → check_groups groups skills ≡ []
    → GroupsCompatible skills groups
unfolding check_groups
check_groups-GroupsCompatible [] skills e = tt
check_groups-GroupsCompatible ((name, steps) ∷ groups) skills e =
    let (a, b) = append-nil-parts (check_group steps skills [] []) _ e in
    (
      check_group-GroupCompatible steps skills [] [] (λ zs k. tt) a,
      check_groups-GroupsCompatible groups skills b,
    )

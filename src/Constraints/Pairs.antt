-- ===== src/Constraints/Pairs.antt =====
-- What the check of parallel groups says of two steps that name the same group.
use embodied_skill_ros.Prelude.{
  All, Bool, Bool-cases, List, Option, Option-cases, String, [], ap, eq_iff, eq_refl, false,
  if◌then◌else◌, inl, inr, none, refl, some, subst, sym, ◌++◌, ◌==◌, ◌∙◌, ◌∷◌, ◌≡◌,
}
use embodied_skill_ros.Prelude.Dict.{Dict, get, get-put}
use embodied_skill_ros.Skill.Contract.{RobotSkill}
use embodied_skill_ros.Plan.{PlanStep, named}
use embodied_skill_ros.Constraints.{check_parallel, group_steps}
use embodied_skill_ros.Constraints.Parallel.{
  GroupCompatible, GroupsCompatible, IsCompatible, check_groups-GroupsCompatible,
}
use embodied_skill_ros.Prelude.Dict

module _ (skills : Dict RobotSkill) where
  -- A known step of a group joins those that the later ones are compared with.
  past_known :
      (priors : List RobotSkill) (a : PlanStep) (sa : RobotSkill) (rest : List PlanStep)
      → get a.skill skills ≡ some sa
      → GroupCompatible skills priors (a ∷ rest)
      → All (IsCompatible sa) priors × GroupCompatible skills (priors ++ sa ∷ []) rest
  past_known priors a sa rest e h = rw (GroupCompatible, e) at h

  -- Every step of a group is compatible with the known ones before the group's rest.
  group_rest :
      (ys zs : List PlanStep) (b : PlanStep) (sb : RobotSkill) (priors : List RobotSkill)
      → get b.skill skills ≡ some sb
      → GroupCompatible skills priors (ys ++ b ∷ zs)
      → All (IsCompatible sb) priors
  group_rest [] zs b sb priors e h = (past_known priors b sb zs e h).0
  group_rest (y ∷ ys) zs b sb priors e h = elim (Option-cases (get y.skill skills)) [
    | inl n ↦ group_rest ys zs b sb priors e (rw (GroupCompatible, n) at h)
    | inr (s, k) ↦
        All-left priors (s ∷ [])
          (group_rest ys zs b sb (priors ++ s ∷ []) e (past_known priors y s (ys ++ b ∷ zs) k h).1)
  ]
    where
      All-left :
          (xs zs : List RobotSkill) → All (IsCompatible sb) (xs ++ zs) → All (IsCompatible sb) xs
      All-left [] zs h = tt
      All-left (x ∷ xs) zs h = (h.0, All-left xs zs h.1)

  last_of :
      (xs : List RobotSkill) (s sb : RobotSkill)
      → All (IsCompatible sb) (xs ++ s ∷ [])
      → IsCompatible sb s
  last_of [] s sb h = h.0
  last_of (x ∷ xs) s sb h = last_of xs s sb h.1

  group_pair :
      (xs ys zs : List PlanStep) (a b : PlanStep) (sa sb : RobotSkill) (priors : List RobotSkill)
      → get a.skill skills ≡ some sa
      → get b.skill skills ≡ some sb
      → GroupCompatible skills priors (xs ++ a ∷ (ys ++ b ∷ zs))
      → IsCompatible sb sa
  group_pair [] ys zs a b sa sb priors ea eb h =
      last_of priors sa sb (
        group_rest ys zs b sb (priors ++ sa ∷ []) eb (past_known priors a sa (ys ++ b ∷ zs) ea h).1)
  group_pair (x ∷ xs) ys zs a b sa sb priors ea eb h = elim (Option-cases (get x.skill skills)) [
    | inl n ↦ group_pair xs ys zs a b sa sb priors ea eb (rw (GroupCompatible, n) at h)
    | inr (s, k) ↦
        group_pair xs ys zs a b sa sb (priors ++ s ∷ []) ea eb
          (past_known priors x s (xs ++ a ∷ (ys ++ b ∷ zs)) k h).1
  ]

-- The members of a group that is collected.
abbrev or_nil : Option (List PlanStep) → List PlanStep
or_nil none = []
or_nil (some steps) = steps

abbrev members_in : String → Dict (List PlanStep) → List PlanStep
members_in name groups = or_nil (get name groups)

add_member : PlanStep → Option String → Dict (List PlanStep) → Dict (List PlanStep)
add_member step o groups = elim o [
  | none ↦ groups
  | some name ↦ elim (get name groups) [
    | none ↦ Dict.put name (step ∷ []) groups
    | some members ↦ Dict.put name (members ++ step ∷ []) groups
  ]
]

append_nil : (xs : List PlanStep) → xs ++ [] ≡ xs
append_nil [] = refl
append_nil (x ∷ xs) = ap (λ ys. x ∷ ys) (append_nil xs)

append_assoc : (xs ys zs : List PlanStep) → (xs ++ ys) ++ zs ≡ xs ++ (ys ++ zs)
append_assoc [] ys zs = refl
append_assoc (x ∷ xs) ys zs = ap (λ l. x ∷ l) (append_assoc xs ys zs)

abbrev one_if : Bool → PlanStep → List PlanStep
one_if b step = if b then step ∷ [] else []

abbrev names_it : String → Option String → Bool
names_it name none = false
names_it name (some n) = n == name

joined :
    (step : PlanStep) (n name : String) (groups : Dict (List PlanStep)) (o : Option (List PlanStep))
    → get n groups ≡ o
    → members_in name (elim o as (λ x. Dict (List PlanStep)) [
      | none ↦ Dict.put n (step ∷ []) groups
      | some members ↦ Dict.put n (members ++ step ∷ []) groups
    ])
      ≡ members_in name groups ++ one_if (n == name) step
joined step n name groups none e = elim (Bool-cases (n == name)) [
  | inl same ↦
      let e' : get name groups ≡ none =
        subst (λ x. get x groups ≡ none) ((eq_iff n name).0 same) e in
      ap or_nil (rw same at (Dict.get-put n name (step ∷ []) groups))
      ∙ (λ i. or_nil (sym e' i) ++ one_if (sym same i) step)
  | inr other ↦
      ap or_nil (rw other at (Dict.get-put n name (step ∷ []) groups))
      ∙ sym (append_nil (members_in name groups))
      ∙ ap (λ b. members_in name groups ++ one_if b step) (sym other)
]
joined step n name groups (some members) e = elim (Bool-cases (n == name)) [
  | inl same ↦
      let e' : get name groups ≡ some members =
        subst (λ x. get x groups ≡ some members) ((eq_iff n name).0 same) e in
      ap or_nil (rw same at (Dict.get-put n name (members ++ step ∷ []) groups))
      ∙ (λ i. or_nil (sym e' i) ++ one_if (sym same i) step)
  | inr other ↦
      ap or_nil (rw other at (Dict.get-put n name (members ++ step ∷ []) groups))
      ∙ sym (append_nil (members_in name groups))
      ∙ ap (λ b. members_in name groups ++ one_if b step) (sym other)
]

add_member-members :
    (step : PlanStep) (o : Option String) (name : String) (groups : Dict (List PlanStep))
    → members_in name (add_member step o groups)
      ≡ members_in name groups ++ one_if (names_it name o) step
unfolding add_member
add_member-members step none name groups = sym (append_nil (members_in name groups))
add_member-members step (some n) name groups = joined step n name groups (get n groups) refl

-- The steps that name a group, in the plan's order.
members_of : String → List PlanStep → List PlanStep
members_of name [] = []
members_of name (step ∷ steps) =
    one_if (names_it name (named step.parallel_group)) step ++ members_of name steps

group_steps-members :
    (name : String) (steps : List PlanStep) (groups : Dict (List PlanStep))
    → members_in name (group_steps steps groups) ≡ members_in name groups ++ members_of name steps
unfolding group_steps members_of add_member
group_steps-members name [] groups = sym (append_nil (members_in name groups))
group_steps-members name (step ∷ steps) groups =
    group_steps-members name steps (add_member step (named step.parallel_group) groups)
    ∙ ap (λ l. l ++ members_of name steps)
        (add_member-members step (named step.parallel_group) name groups)
    ∙ append_assoc (members_in name groups)
        (one_if (names_it name (named step.parallel_group)) step) (members_of name steps)

members_of-append :
    (name : String) (xs ys : List PlanStep)
    → members_of name (xs ++ ys) ≡ members_of name xs ++ members_of name ys
unfolding members_of
members_of-append name [] ys = refl
members_of-append name (x ∷ xs) ys =
    ap (λ l. one_if (names_it name (named x.parallel_group)) x ++ l) (members_of-append name xs ys)
    ∙ sym (
        append_assoc (one_if (names_it name (named x.parallel_group)) x) (members_of name xs)
          (members_of name ys))

member-first :
    (name : String) (a : PlanStep) (rest : List PlanStep)
    → named a.parallel_group ≡ some name
    → members_of name (a ∷ rest) ≡ a ∷ members_of name rest
unfolding members_of
member-first name a rest e = rw (e, eq_refl) refl

members_of-pair :
    (name : String) (before between after : List PlanStep) (a b : PlanStep)
    → named a.parallel_group ≡ some name
    → named b.parallel_group ≡ some name
    → members_of name (before ++ a ∷ (between ++ b ∷ after))
      ≡ members_of name before ++ a ∷ (members_of name between ++ b ∷ members_of name after)
members_of-pair name before between after a b ea eb =
    members_of-append name before (a ∷ (between ++ b ∷ after))
    ∙ ap (λ l. members_of name before ++ l)
        (member-first name a (between ++ b ∷ after) ea
          ∙ ap (λ l. a ∷ l)
              (members_of-append name between (b ∷ after)
                ∙ ap (λ l. members_of name between ++ l) (member-first name b after eb)))

found_group :
    (skills : Dict RobotSkill) (name : String) (groups : Dict (List PlanStep))
    → GroupsCompatible skills groups
    → GroupCompatible skills [] (members_in name groups)
unfolding get
found_group skills name [] h = tt
found_group skills name ((k, steps) ∷ groups) h = elim (Bool-cases (k == name)) [
  | inl same ↦
      subst (λ b. GroupCompatible skills [] (or_nil (if b then some steps else get name groups)))
        (sym same) (h.0)
  | inr other ↦
      subst (λ b. GroupCompatible skills [] (or_nil (if b then some steps else get name groups)))
        (sym other) (found_group skills name groups h.1)
]

-- Where the check of parallel groups finds nothing, any two steps of the plan that name the same
-- group, wherever they stand, and whose skills are known are compatible: their skills share no
-- resource, and neither uses one that the other excludes.
pub check_parallel-IsCompatible :
    (skills : Dict RobotSkill) (before between after : List PlanStep) (a b : PlanStep)
    (sa sb : RobotSkill) (name : String)
    → check_parallel (before ++ a ∷ (between ++ b ∷ after)) skills ≡ []
    → named a.parallel_group ≡ some name
    → named b.parallel_group ≡ some name
    → get a.skill skills ≡ some sa
    → get b.skill skills ≡ some sb
    → IsCompatible sb sa
unfolding check_parallel members_of get
check_parallel-IsCompatible skills before between after a b sa sb name e ga gb ka kb =
    let steps = before ++ a ∷ (between ++ b ∷ after) in
    let all_groups = check_groups-GroupsCompatible (group_steps steps []) skills e in
    let group = found_group skills name (group_steps steps []) all_groups in
    group_pair skills (members_of name before) (members_of name between) (members_of name after) a b
      sa sb [] ka kb
      (subst (GroupCompatible skills [])
        (group_steps-members name steps [] ∙ members_of-pair name before between after a b ga gb)
        group)

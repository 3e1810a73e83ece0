-- ===== src/Repair/Search/Replays.antt =====
-- Steps that can be replayed, and the parts of the search that keep to them.
use embodied_skill_ros.Prelude.{
  Bool, Bool-cases, List, Option, String, [], ap, false, if◌then◌else◌, inl, inr, is_nil, is_nil-eq,
  none, none-ne-some, refl, some, subst, sym, true, ℕ, ◌++◌, ◌∙◌, ◌∷◌, ◌≡◌,
}
use embodied_skill_ros.Value.{Value}
use embodied_skill_ros.Errors.{>>=-eq-ok, Result-cases, err, ok, ok_injective, ◌>>=◌}
use embodied_skill_ros.State.{RobotState}
use embodied_skill_ros.Skill.Contract.{RobotSkill}
use embodied_skill_ros.Skill.Predicates.{PredicateEvaluation, check_preconditions, satisfied}
use embodied_skill_ros.Skill.Effects.{project}
use embodied_skill_ros.Plan.{PlanStep, SearchStats}
use embodied_skill_ros.Registry.{SkillRegistry, skill_named}
use embodied_skill_ros.Repair.Search.{
  Found, Proposal, after_establishing, conclude, establish, fact_satisfied,
}

-- Steps that lead from one state to another: each calls a registered skill whose preconditions are
-- met in the state before it, and the state behind it is the projection by its declared effects.
abbrev pub Replays : SkillRegistry → ℕ → RobotState → List PlanStep → RobotState → Type 0
Replays registry now state [] final = state ≡ final
Replays registry now state (step ∷ steps) final =
    (skill : RobotSkill) × (skill_named registry step.skill ≡ ok skill)
    × (check_preconditions skill state step.arguments now ≡ ok [])
    × ((next : RobotState) × (project skill step.arguments state ≡ ok next)
        × Replays registry now next steps final)

pub chosen :
    (b : Bool) (p q : Proposal) → (if b then some p else none) ≡ some q → (b ≡ true) × (p ≡ q)
chosen true p q e = (refl, cc)
chosen false p q e = cc

module _ (registry : SkillRegistry) (now : ℕ) where
  pub append-Replays :
      (xs ys : List PlanStep) (s t u : RobotState)
      → Replays registry now s xs t
      → Replays registry now t ys u
      → Replays registry now s (xs ++ ys) u
  append-Replays [] ys s t u h k = subst (λ x. Replays registry now x ys u) (sym h) k
  append-Replays (x ∷ xs) ys s t u (skill, found, met, (next, e, rest)) k =
      (skill, found, met, (next, e, append-Replays xs ys next t u rest k))

  -- A proposal for a fact: its steps replay, and the fact is satisfied behind them.
  abbrev pub Establishes : RobotState → String → Value → Proposal → Type 0
  Establishes state field_name target p =
      Replays registry now state p.0 p.1 × (fact_satisfied p.1 field_name target ≡ true)

  abbrev pub GoodProposal : RobotState → String → Value → Option Proposal → Type 0
  GoodProposal state field_name target none = Unit
  GoodProposal state field_name target (some p) = Establishes state field_name target p

  -- Whatever a search returns is a good proposal.
  abbrev pub GoodFound : RobotState → String → Value → Found → Type 0
  GoodFound state field_name target (err e) = Unit
  GoodFound state field_name target (ok (found, stats)) = GoodProposal state field_name target found

  abbrev pub GoodSearch : (String → Value → RobotState → SearchStats → Found) → Type 0
  GoodSearch nested =
      (field_name : String) (target : Value) (state : RobotState) (stats : SearchStats)
      → GoodFound state field_name target (nested field_name target state stats)

  abbrev GoodPrefix : RobotState → Option Proposal → Type 0
  GoodPrefix state none = Unit
  GoodPrefix state (some p) = Replays registry now state p.0 p.1

  abbrev GoodEstablished : RobotState → Found → Type 0
  GoodEstablished state (err e) = Unit
  GoodEstablished state (ok (found, stats)) = GoodPrefix state found

  after_nested :
      (start projected : RobotState) (prefix : List PlanStep) (field_name : String) (target : Value)
      (next : RobotState → List PlanStep → SearchStats → Found) (f : Found)
      → ((s : RobotState) (p : List PlanStep) (t : SearchStats)
          → Replays registry now start p s
          → GoodEstablished start (next s p t))
      → Replays registry now start prefix projected
      → GoodFound projected field_name target f
      → GoodEstablished start (
          f >>= λ (found, stats'). elim found [
            | none ↦ ok (none, stats')
            | some (steps, projected') ↦ next projected' (prefix ++ steps) stats'
          ])
  after_nested start projected prefix field_name target next (err x) later h k = tt
  after_nested start projected prefix field_name target next (ok (none, stats')) later h k = tt
  after_nested start projected prefix field_name target next (ok (some (steps, projected'), stats'))
        later h k =
      later projected' (prefix ++ steps) stats'
        (append-Replays prefix steps start projected projected' h k.0)

  pub establish-Good :
      (nested : String → Value → RobotState → SearchStats → Found)
      → GoodSearch nested
      → (es : List PredicateEvaluation) (start projected : RobotState) (prefix : List PlanStep)
        (stats : SearchStats)
      → Replays registry now start prefix projected
      → GoodEstablished start (establish nested es projected prefix stats)
  unfolding establish
  establish-Good nested good [] start projected prefix stats h = h
  establish-Good nested good (e ∷ es) start projected prefix stats h =
      elim (Bool-cases (satisfied e)) [
        | inl s ↦ rw s (establish-Good nested good es start projected prefix stats h)
        | inr s ↦ rw s (
            after_nested start projected prefix e.field e.expected
              (λ s' p t. establish nested es s' p t) (nested e.field e.expected projected stats)
              (λ s' p t k. establish-Good nested good es start s' p t k) h
              (good e.field e.expected projected stats))
      ]

  -- A candidate behind its prefix.
  conclude-Good :
      (skill : RobotSkill) (candidate : PlanStep) (field_name : String) (target : Value)
      (start projected : RobotState) (prefix : List PlanStep) (p : Option Proposal)
      → skill_named registry candidate.skill ≡ ok skill
      → Replays registry now start prefix projected
      → conclude now skill candidate field_name target prefix projected ≡ ok p
      → GoodProposal start field_name target p
  unfolding conclude
  conclude-Good skill candidate field_name target start projected prefix none found h e = tt
  conclude-Good skill candidate field_name target start projected prefix (some p) found h e =
      let (unmet, met, e₁) =
        >>=-eq-ok (check_preconditions skill projected candidate.arguments now) _ e in
      elim (Bool-cases (is_nil unmet)) [
        | inr bad ↦ absurd (none-ne-some p (ok_injective (rw bad at e₁)))
        | inl good ↦
            let e₂ : (project skill candidate.arguments projected >>= λ final. ok (
                  if fact_satisfied final field_name target
                  then some (prefix ++ candidate ∷ [], final)
                  else none))
                ≡ ok (some p) =
              rw good at e₁ in
            let (final, step, e₃) = >>=-eq-ok (project skill candidate.arguments projected) _ e₂ in
            let (shown, same) = chosen _ (prefix ++ candidate ∷ [], final) p (ok_injective e₃) in
            subst (Establishes start field_name target) same (
              append-Replays prefix (candidate ∷ []) start projected final h
                  (skill, found, met ∙ ap ok (is_nil-eq unmet good), (final, step, refl)),
              shown,
            )
      ]

  after_establishing-Good :
      (skill : RobotSkill) (candidate : PlanStep) (field_name : String) (target : Value)
      (start : RobotState) (o : Option Proposal) (stats : SearchStats)
      → skill_named registry candidate.skill ≡ ok skill
      → GoodPrefix start o
      → GoodFound start field_name target
          (after_establishing now skill candidate field_name target (o, stats))
  unfolding after_establishing
  after_establishing-Good skill candidate field_name target start none stats found h = tt
  after_establishing-Good skill candidate field_name target start (some (prefix, projected)) stats
        found h =
      elim (Result-cases (conclude now skill candidate field_name target prefix projected)) [
        | inl (p, e) ↦
            rw e
              (conclude-Good skill candidate field_name target start projected prefix p found h e)
        | inr (x, e) ↦ rw e tt
      ]

  pub after_prefix-Good :
      (skill : RobotSkill) (candidate : PlanStep) (field_name : String) (target : Value)
      (start : RobotState) (f : Found)
      → skill_named registry candidate.skill ≡ ok skill
      → GoodEstablished start f
      → GoodFound start field_name target
          (f >>= after_establishing now skill candidate field_name target)
  after_prefix-Good skill candidate field_name target start (err x) found h = tt
  after_prefix-Good skill candidate field_name target start (ok (o, stats)) found h =
      after_establishing-Good skill candidate field_name target start o stats found h

-- ===== src/Repair/Search/Sound.antt =====
-- What the repairer's search finds: steps that can be replayed and that establish the fact.
use embodied_skill_ros.Prelude.{
  Bool, Bool-cases, List, Option, String, [], false, if◌then◌else◌, inl, inr, leb, length, ltb,
  none, refl, some, subst, suc, true, zero, ℕ, ◌∷◌, ◌≡◌,
}
use embodied_skill_ros.Value.{Value}
use embodied_skill_ros.Errors.{Result, Result-cases, err, ok, ◌>>=◌}
use embodied_skill_ros.State.{RobotState}
use embodied_skill_ros.Skill.Contract.{RobotSkill}
use embodied_skill_ros.Skill.Predicates.{PredicateEvaluation, evaluate_preconditions}
use embodied_skill_ros.Plan.{PlanStep, SearchStats}
use embodied_skill_ros.Registry.{SkillRegistry, skill_named}
use embodied_skill_ros.Repair.Search.{
  Found, GoalPath, Limits, Proposal, after_establishing, better, candidates_for, establish,
  fact_satisfied, on_path, search_fact, try_candidate, try_candidates,
}
use embodied_skill_ros.Repair.Search.Replays.{
  Establishes, GoodFound, GoodProposal, GoodSearch, after_prefix-Good, establish-Good,
}

module _ (registry : SkillRegistry) (now : ℕ) where
  -- By the outcomes of the lookup and of the evaluation.
  candidate_outcome-Good :
      (nested : String → Value → RobotState → SearchStats → Found)
      → GoodSearch registry now nested
      → (field_name : String) (target : Value) (state : RobotState) (candidate : PlanStep)
        (stats : SearchStats) (skill : RobotSkill) (es : Result (List PredicateEvaluation))
      → skill_named registry candidate.skill ≡ ok skill
      → GoodFound registry now state field_name target (
          es >>= λ evaluations.
          establish nested evaluations state [] stats
          >>= after_establishing now skill candidate field_name target)
  candidate_outcome-Good nested good field_name target state candidate stats skill (err x) found =
      tt
  candidate_outcome-Good nested good field_name target state candidate stats skill (ok es) found =
      after_prefix-Good registry now skill candidate field_name target state
        (establish nested es state [] stats) found
        (establish-Good registry now nested good es state state [] stats refl)

  try_candidate-Good :
      (nested : String → Value → RobotState → SearchStats → Found)
      → GoodSearch registry now nested
      → (field_name : String) (target : Value) (state : RobotState) (candidate : PlanStep)
        (stats : SearchStats)
      → GoodFound registry now state field_name target
          (try_candidate registry now nested field_name target state candidate stats)
  unfolding try_candidate
  try_candidate-Good nested good field_name target state candidate stats =
      elim (Result-cases (skill_named registry candidate.skill)) [
        | inr (x, e) ↦ rw e tt
        | inl (skill, e) ↦ rw e (
            candidate_outcome-Good nested good field_name target state candidate _ skill
              (evaluate_preconditions skill state candidate.arguments now) e)
      ]

  better-Good :
      (state : RobotState) (field_name : String) (target : Value) (a b : Option Proposal)
      → GoodProposal registry now state field_name target a
      → GoodProposal registry now state field_name target b
      → GoodProposal registry now state field_name target (better a b)
  unfolding better
  better-Good state field_name target a none h k = h
  better-Good state field_name target none (some q) h k = k
  better-Good state field_name target (some p) (some q) h k =
      elim (Bool-cases (ltb (length q.0) (length p.0))) [ inl e ↦ rw e k | inr e ↦ rw e h ]

  after_candidate-Good :
      (state : RobotState) (field_name : String) (target : Value) (f : Found)
      (next : Option Proposal → SearchStats → Found)
      → ((o : Option Proposal) (t : SearchStats)
          → GoodProposal registry now state field_name target o
          → GoodFound registry now state field_name target (next o t))
      → GoodFound registry now state field_name target f
      → GoodFound registry now state field_name target
          (f >>= λ (proposal, stats'). next proposal stats')
  after_candidate-Good state field_name target (err x) next later h = tt
  after_candidate-Good state field_name target (ok (o, t)) next later h = later o t h

  try_candidates-Good :
      (nested : String → Value → RobotState → SearchStats → Found)
      → GoodSearch registry now nested
      → (field_name : String) (target : Value) (state : RobotState) (candidates : List PlanStep)
        (best : Option Proposal) (stats : SearchStats)
      → GoodProposal registry now state field_name target best
      → GoodFound registry now state field_name target
          (try_candidates registry now nested field_name target state candidates best stats)
  unfolding try_candidates
  try_candidates-Good nested good field_name target state [] best stats h = h
  try_candidates-Good nested good field_name target state (candidate ∷ candidates) best stats h =
      after_candidate-Good state field_name target
        (try_candidate registry now nested field_name target state candidate stats)
        (λ o t.
          try_candidates registry now nested field_name target state candidates (better best o) t)
        (λ o t k.
          try_candidates-Good nested good field_name target state candidates (better best o) t
            (better-Good state field_name target best o h k))
        (try_candidate-Good nested good field_name target state candidate stats)

  if-Good :
      (state : RobotState) (field_name : String) (target : Value) (b : Bool) (f g : Found)
      → (b ≡ true → GoodFound registry now state field_name target f)
      → GoodFound registry now state field_name target g
      → GoodFound registry now state field_name target (if b then f else g)
  if-Good state field_name target true f g hf hg = hf refl
  if-Good state field_name target false f g hf hg = hg

  search_fact-Good :
      (limits : Limits) (excluded : List String) (room : ℕ) (path : GoalPath)
      → GoodSearch registry now (search_fact registry limits now excluded room path)
  unfolding search_fact
  search_fact-Good limits excluded zero path field_name target state stats =
      if-Good state field_name target (fact_satisfied state field_name target) _ _ (λ e. (refl, e))
        (if-Good state field_name target (on_path field_name target path) _ _ (λ e. tt) tt)
  search_fact-Good limits excluded (suc room) path field_name target state stats =
      if-Good state field_name target (fact_satisfied state field_name target) _ _ (λ e. (refl, e))
        (if-Good state field_name target (on_path field_name target path) _ _ (λ e. tt)
          (if-Good state field_name target (leb limits.max_expansions stats.expanded) _ _ (λ e. tt)
            (try_candidates-Good
              (search_fact registry limits now excluded room ((field_name, target) ∷ path))
              (search_fact-Good limits excluded room ((field_name, target) ∷ path)) field_name
              target state (candidates_for registry field_name target state excluded) none _ tt)))

  -- The steps that the search returns for a fact replay from the state it was asked for: each calls
  -- a registered skill whose preconditions are met in the state before it. They lead to the state
  -- that is returned with them, and in it the fact is known with an equal value.
  pub search_fact-Establishes :
      (limits : Limits) (excluded : List String) (room : ℕ) (path : GoalPath) (field_name : String)
      (target : Value) (state : RobotState) (stats stats' : SearchStats) (p : Proposal)
      → search_fact registry limits now excluded room path field_name target state stats
        ≡ ok (some p, stats')
      → Establishes registry now state field_name target p
  search_fact-Establishes limits excluded room path field_name target state stats stats' p h =
      subst (GoodFound registry now state field_name target) h
        (search_fact-Good limits excluded room path field_name target state stats)

-- ===== src/Repair/Search.antt =====
-- `PlanRepairer._search`. The depth is counted down: `room` is `max_depth + 1 - depth`, so that the
-- test `depth > max_depth` is `room = 0` and the recursion needs no other bound.
pub mod Sound
pub mod Replays
use embodied_skill_ros.Prelude.{
  Bool, List, Option, String, [], any, if◌then◌else◌, is_nil, leb, length, ltb, none, some, suc,
  zero, ℕ, ◌&&◌, ◌++◌, ◌+◌, ◌==◌, ◌∷◌,
}
use embodied_skill_ros.Value.{Value, equals, same_repr}
use embodied_skill_ros.Errors.{Result, ok, ◌>>=◌}
use embodied_skill_ros.State.{RobotState, epistemic_value, is_known}
use embodied_skill_ros.Skill.Contract.{RobotSkill}
use embodied_skill_ros.Skill.Predicates.{
  PredicateEvaluation, check_preconditions, evaluate_preconditions, satisfied,
}
use embodied_skill_ros.Skill.Effects.{project}
use embodied_skill_ros.Plan.{PlanStep, SearchStats}
use embodied_skill_ros.Registry.{SkillRegistry, skill_named, synthesize_candidates}

pub record Limits : Type 0 where
  pub max_insertions : ℕ
  pub max_depth : ℕ
  pub max_expansions : ℕ

abbrev pub default_limits : Limits
default_limits = record { max_insertions = 16; max_depth = 6; max_expansions = 64 }

abbrev pub no_stats : SearchStats
no_stats = record {
  expanded = 0;
  candidates_considered = 0;
  cycles = 0;
  depth_limit_hits = 0;
  expansion_limit_hits = 0;
  selected_steps = 0;
}

-- Steps, and the state that they lead to.
abbrev pub Proposal : Type 0
Proposal = List PlanStep × RobotState

abbrev pub Found : Type 0
Found = Result (Option Proposal × SearchStats)

-- The goals that are being established: `(field, repr(target))`.
abbrev pub GoalPath : Type 0
GoalPath = List (String × Value)

-- `_fact_satisfied`
unfoldable pub fact_satisfied : RobotState → String → Value → Bool
unfolding is_known equals
fact_satisfied state field_name target =
    let evidence = epistemic_value state field_name none 0 in
    is_known evidence.status && equals evidence.value target

-- `key in path`
unfoldable pub on_path : String → Value → GoalPath → Bool
unfolding same_repr
on_path field_name target path =
    any (λ (k : String × Value). k.0 == field_name && same_repr k.1 target) path

-- The loop over the preconditions of a candidate; `nested` is the search for one of them.
pub establish :
    (String → Value → RobotState → SearchStats → Found)
    → List PredicateEvaluation
    → RobotState
    → List PlanStep
    → SearchStats
    → Found
establish nested [] projected prefix stats = ok (some (prefix, projected), stats)
establish nested (failure ∷ failures) projected prefix stats =
    let next =
      λ (s : RobotState) (p : List PlanStep) (t : SearchStats). establish nested failures s p t in
    if satisfied failure
    then next projected prefix stats
    else nested failure.field failure.expected projected stats >>= λ (found, stats'). elim found [
      | none ↦ ok (none, stats')
      | some (steps, projected') ↦ next projected' (prefix ++ steps) stats'
    ]

-- The rest of the loop's body, after the preconditions: the candidate's own effects.
conclude :
    ℕ
    → RobotSkill
    → PlanStep
    → String
    → Value
    → List PlanStep
    → RobotState
    → Result (Option Proposal)
conclude now skill candidate field_name target prefix projected = do
  unmet ← check_preconditions skill projected candidate.arguments now
  if is_nil unmet
      then (do
        final ← project skill candidate.arguments projected
        ok (
            if fact_satisfied final field_name target
            then some (prefix ++ candidate ∷ [], final)
            else none))
      else ok none

pub after_establishing :
    ℕ → RobotSkill → PlanStep → String → Value → Option Proposal × SearchStats → Found
unfolding conclude
after_establishing now skill candidate field_name target (none, stats) = ok (none, stats)
after_establishing now skill candidate field_name target (some (prefix, projected), stats) = do
  proposal ← conclude now skill candidate field_name target prefix projected
  ok (proposal, stats)

-- One round of the loop over the candidates.
try_candidate :
    SkillRegistry
    → ℕ
    → (String → Value → RobotState → SearchStats → Found)
    → String
    → Value
    → RobotState
    → PlanStep
    → SearchStats
    → Found
unfolding establish after_establishing
try_candidate registry now nested field_name target state candidate stats = do
  skill ← skill_named registry candidate.skill
  evaluations ← evaluate_preconditions skill state candidate.arguments now
  established ←
      establish nested evaluations state []
        (record stats { candidates_considered = stats.candidates_considered + 1 })
  after_establishing now skill candidate field_name target established

-- `best is None or len(proposal[0]) < len(best[0])`
better : Option Proposal → Option Proposal → Option Proposal
better best none = best
better none (some p) = some p
better (some b) (some p) = if ltb (length p.0) (length b.0) then some p else some b

try_candidates :
    SkillRegistry
    → ℕ
    → (String → Value → RobotState → SearchStats → Found)
    → String
    → Value
    → RobotState
    → List PlanStep
    → Option Proposal
    → SearchStats
    → Found
unfolding try_candidate better
try_candidates registry now nested field_name target state [] best stats = ok (best, stats)
try_candidates registry now nested field_name target state (candidate ∷ candidates) best stats = do
  (proposal, stats') ← try_candidate registry now nested field_name target state candidate stats
  try_candidates registry now nested field_name target state candidates (better best proposal)
      stats'

candidates_for : SkillRegistry → String → Value → RobotState → List String → List PlanStep
candidates_for registry field_name target state excluded =
    synthesize_candidates registry field_name target state "candidate" "PlanRepairer:effect-search"
      excluded

-- `_search(field, target, state, path, depth, excluded_skills)`, with the statistics as they stand
-- before and after
unfoldable pub search_fact :
    SkillRegistry
    → Limits
    → ℕ
    → List String
    → ℕ
    → GoalPath
    → String
    → Value
    → RobotState
    → SearchStats
    → Found
unfolding try_candidates candidates_for
search_fact registry limits now excluded zero path field_name target state stats =
    if fact_satisfied state field_name target
    then ok (some ([], state), stats)
    else if on_path field_name target path
    then ok (none, record stats { cycles = stats.cycles + 1 })
    else ok (none, record stats { depth_limit_hits = stats.depth_limit_hits + 1 })
search_fact registry limits now excluded (suc room) path field_name target state stats =
    let nested = search_fact registry limits now excluded room ((field_name, target) ∷ path) in
    if fact_satisfied state field_name target
    then ok (some ([], state), stats)
    else if on_path field_name target path
    then ok (none, record stats { cycles = stats.cycles + 1 })
    else if leb limits.max_expansions stats.expanded
    then ok (none, record stats { expansion_limit_hits = stats.expansion_limit_hits + 1 })
    else try_candidates registry now nested field_name target state
        (candidates_for registry field_name target state excluded) none
        (record stats { expanded = stats.expanded + 1 })

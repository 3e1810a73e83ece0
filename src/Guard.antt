-- ===== src/Guard.antt =====
-- embodied_skill_ros/execution/runtime_guard.py
pub mod Allowed
use embodied_skill_ros.Prelude.{Bool, List, is_nil, map, ℕ, ◌++◌}
use embodied_skill_ros.Errors.{Result, ok, ◌>>=◌}
use embodied_skill_ros.State.{RobotState}
use embodied_skill_ros.Skill.Contract.{RobotSkill}
use embodied_skill_ros.Skill.Predicates.{PredicateEvaluation, check_preconditions}
use embodied_skill_ros.Plan.{PlanStep}
use embodied_skill_ros.Constraints.{ConstraintViolation, Violation, check_step}

-- A reason: an unsatisfied precondition or a violated constraint, of which the program keeps the
-- messages.
pub data GuardReason : Type 0 where
  unmet : PredicateEvaluation → GuardReason
  violated : Violation → GuardReason

pub record GuardDecision : Type 0 where
  pub allowed : Bool
  pub reasons : List GuardReason

guard_reasons : List PredicateEvaluation → List ConstraintViolation → List GuardReason
guard_reasons es vs = map unmet es ++ map (λ (v : ConstraintViolation). violated v.code) vs

-- `check`. The program also drops repeated messages from the reasons.
unfoldable pub guard_check : PlanStep → RobotSkill → RobotState → ℕ → Result GuardDecision
unfolding guard_reasons
guard_check step skill state now = do
  es ← check_preconditions skill state step.arguments now
  let reasons = guard_reasons es (check_step step skill state)
  ok (record { allowed = is_nil reasons; reasons = reasons })

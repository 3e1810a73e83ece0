-- ===== src/Guard/Allowed.antt =====
-- What the guard has made sure of when it allows a step.
use embodied_skill_ros.Prelude.{
  All, ap, append-nil-parts, is_nil-eq, map, map-eq-nil, true, ℕ, ◌∙◌, ◌≡◌,
}
use embodied_skill_ros.Errors.{>>=-eq-ok, ok, ok_injective}
use embodied_skill_ros.State.{RobotState}
use embodied_skill_ros.Skill.Template.{Arguments}
use embodied_skill_ros.Skill.Contract.{RobotSkill}
use embodied_skill_ros.Skill.Predicates.{check_preconditions}
use embodied_skill_ros.Skill.Predicates.Holds.{Holds, check_preconditions-Holds}
use embodied_skill_ros.Plan.{PlanStep}
use embodied_skill_ros.Constraints.Clear.{IsClear, check_step-IsClear}
use embodied_skill_ros.Guard.{GuardDecision, guard_check, guard_reasons, unmet}

-- A state in which a skill may be commanded with these arguments.
pub record IsSafe (skill : RobotSkill) (arguments : Arguments) (state : RobotState) (now : ℕ)
    : Type 0 where
  pub clear : IsClear skill state
  pub preconditions_hold : All (Holds state now arguments) skill.preconditions

-- The guard allows a step only in a state that is safe for it: no emergency stop, no fault, none of
-- the skill's resources busy, and every precondition held by current evidence.
pub guard_check-IsSafe :
    (step : PlanStep) (skill : RobotSkill) (state : RobotState) (now : ℕ) (d : GuardDecision)
    → guard_check step skill state now ≡ ok d
    → d.allowed ≡ true
    → IsSafe skill step.arguments state now
unfolding guard_check guard_reasons
guard_check-IsSafe step skill state now d h a =
    let (es, e, k) = >>=-eq-ok (check_preconditions skill state step.arguments now) _ h in
    let none_left = is_nil-eq _ (ap (λ (x : GuardDecision). x.allowed) (ok_injective k) ∙ a) in
    let (no_unmet, no_violation) = append-nil-parts (map unmet es) _ none_left in
    record {
      clear = check_step-IsClear step skill state (map-eq-nil _ _ no_violation);
      preconditions_hold =
          check_preconditions-Holds skill state step.arguments now
            (e ∙ ap ok (map-eq-nil _ es no_unmet));
    }

-- ===== src/Constraints/Clear.antt =====
-- States in which no constraint on a single step is violated.
use embodied_skill_ros.Prelude.{
  Bool, List, String, [], arith, false, if◌then◌else◌, is_nil, is_nil-eq, true, ◌++◌, ◌∷◌, ◌≡◌,
}
use embodied_skill_ros.Prelude.Texts.{intersection}
use embodied_skill_ros.Value.{Value, truthy}
use embodied_skill_ros.State.{RobotState, raw_value}
use embodied_skill_ros.Skill.Contract.{RobotSkill}
use embodied_skill_ros.Plan.{PlanStep}
use embodied_skill_ros.Constraints.{Violation, check_step, is_true, resource_busy, violation}

-- No emergency stop, no fault, and none of the skill's resources in use.
pub record IsClear (skill : RobotSkill) (state : RobotState) : Type 0 where
  pub not_stopped : is_true (raw_value state "emergency_stop") ≡ false
  pub no_fault : truthy (raw_value state "fault") ≡ false
  pub not_busy : intersection state.active_resources skill.resources ≡ []

clear_parts :
    (step_id : String) (stopped faulty : Bool) (fault : Value) (busy : List String)
    → (if stopped then violation step_id Violation.emergency_stop ∷ [] else [])
        ++ (if faulty then violation step_id (Violation.robot_fault fault) ∷ [] else [])
        ++ (if is_nil busy then [] else violation step_id (resource_busy busy) ∷ [])
      ≡ []
    → (stopped ≡ false) × (faulty ≡ false) × (is_nil busy ≡ true)
clear_parts step_id stopped faulty fault busy h = ground arith

pub check_step-IsClear :
    (step : PlanStep) (skill : RobotSkill) (state : RobotState)
    → check_step step skill state ≡ []
    → IsClear skill state
unfolding check_step
check_step-IsClear step skill state h =
    let (a, b, c) =
      clear_parts step.id (is_true (raw_value state "emergency_stop"))
        (truthy (raw_value state "fault")) (raw_value state "fault")
        (intersection state.active_resources skill.resources) h in
    record { not_stopped = a; no_fault = b; not_busy = is_nil-eq _ c }

-- ===== src/Execution/Attempt/Records.antt =====
-- A round of the inner loop sends a vetted command and keeps the executor's variables vetted.
use embodied_skill_ros.Prelude.{
  Option, arith, none, refl, some, sym, true, true-ne-false, ℕ, ◌+◌, ◌<◌, ◌∙◌, ◌≡◌, ◌≤◌,
}
use embodied_skill_ros.Skill.Parameters.{validate_arguments}
use embodied_skill_ros.Errors.{ok}
use embodied_skill_ros.State.{RobotState}
use embodied_skill_ros.Skill.Contract.{RobotSkill}
use embodied_skill_ros.Plan.{PlanStep, TaskPlan}
use embodied_skill_ros.Capabilities.{BackendCapabilities}
use embodied_skill_ros.Registry.{skill_named}
use embodied_skill_ros.Recovery.{
  Reason, RecoveryAction, decide_recovery-bounded, do_replan, do_retry, do_stop,
}
use embodied_skill_ros.Guard.{GuardDecision, guard_check}
use embodied_skill_ros.Guard.Allowed.{guard_check-IsSafe}
use embodied_skill_ros.Execution.Backend.{CommandReceipt, Robot, Session, refresh}
use embodied_skill_ros.Execution.Machine.{
  Config, Locals, Options, SkillResult, giving_up, recovery_ended, regrounding, replanning,
  retrying,
}
use embodied_skill_ros.Execution.Machine.Vetted.{
  IsVetted, IsVettedCall, LocalsVetted, NextVetted, SeenAt, if-NextVetted, or_raise-NextVetted,
  refresh-SeenAt, stop_with-NextVetted,
}
use embodied_skill_ros.Execution.Attempt.{
  act, after_command, after_replanning, after_retry_guard, attempt_round, conclude_attempt,
  may_replan, record_attempt, recover, result_of, retry_step, send, verified,
}
use embodied_skill_ros.Execution.Attempt.Kept.{
  add_decision-LocalsVetted, add_result-LocalsVetted, outcome_achieved-accepted,
  outcome_achieved-verified, results_keep_count, room_kept, triggered-IsVetted,
}

module _ (robot : Robot) (config : Config) (options : Options)
    (capabilities : Option BackendCapabilities) where
  -- The facts of one round that each of its parts keeps: the call is vetted, and the attempt is
  -- within the budget.
  module _ (step : PlanStep) (skill : RobotSkill) where
    after_retry_guard-NextVetted :
        (before : RobotState) (attempt : ℕ) (world : robot.World) (l : Locals) (m : Session robot)
        (d : GuardDecision)
        → skill_named config.registry step.skill ≡ ok skill
        → validate_arguments skill step.arguments ≡ ok tt
        → SeenAt robot before world
        → guard_check step skill before (robot.clock world) ≡ ok d
        → attempt ≤ config.max_retries + 1
        → LocalsVetted config options robot l
        → NextVetted config options
            (after_retry_guard robot config options capabilities step skill before attempt l m d)
    unfolding after_retry_guard
    after_retry_guard-NextVetted before attempt world l m d registered valid seen e fits h =
        if-NextVetted config options d.allowed _ _
          (λ allowed. record {
            locals_vetted = h;
            control_vetted = (
              record {
                registered = registered;
                valid = valid;
                world = world;
                seen = seen;
                safe = λ on. guard_check-IsSafe step skill before (robot.clock world) d e allowed;
              },
              fits,
            );
          })
          (λ refused. record {
            locals_vetted =
                add_decision-LocalsVetted robot config options capabilities regrounding l h;
            control_vetted = tt;
          })

    retry_step-NextVetted :
        (attempt : ℕ) (l : Locals) (m : Session robot)
        → skill_named config.registry step.skill ≡ ok skill
        → validate_arguments skill step.arguments ≡ ok tt
        → attempt ≤ config.max_retries
        → LocalsVetted config options robot l
        → NextVetted config options
            (retry_step robot config options capabilities step skill attempt l m)
    unfolding retry_step
    retry_step-NextVetted attempt l m registered valid fits h =
        let (before, m') = refresh robot m in
        if-NextVetted config options options.runtime_guard _ _
          (λ on.
            or_raise-NextVetted config options
              (guard_check step skill before (robot.clock m'.world)) _
              (λ d e.
                after_retry_guard-NextVetted before (attempt + 1) m'.world l m' d registered valid
                  (refresh-SeenAt robot m) e (omega arith) h))
          (λ off. record {
            locals_vetted = h;
            control_vetted = (
              record {
                registered = registered;
                valid = valid;
                world = m'.world;
                seen = refresh-SeenAt robot m;
                safe = λ on. absurd (true-ne-false (sym on ∙ off));
              },
              omega arith,
            );
          })

    after_replanning-NextVetted :
        (reason : Reason) (l : Locals) (o : Option TaskPlan × Session robot)
        → l.replan_count < config.max_replans
        → LocalsVetted config options robot l
        → NextVetted config options (after_replanning robot config options capabilities reason l o)
    unfolding after_replanning
    after_replanning-NextVetted reason l (none, m) room h =
        stop_with-NextVetted config options (recovery_ended reason) l m h
    after_replanning-NextVetted reason l (some plan, m) room h = record {
      locals_vetted = record { results_vetted = h.results_vetted; replans = omega arith };
      control_vetted = tt;
    }

    act-NextVetted :
        (attempt : ℕ) (l : Locals) (m : Session robot) (reason : Reason) (action : RecoveryAction)
        → skill_named config.registry step.skill ≡ ok skill
        → validate_arguments skill step.arguments ≡ ok tt
        → (action ≡ do_retry → attempt ≤ config.max_retries)
        → (action ≡ do_replan → l.replan_count < config.max_replans)
        → LocalsVetted config options robot l
        → NextVetted config options
            (act robot config options capabilities step skill attempt l m reason action)
    unfolding act
    act-NextVetted attempt l m reason do_retry registered valid budget room h =
        retry_step-NextVetted attempt _ m registered valid (budget refl)
          (add_decision-LocalsVetted robot config options capabilities retrying l h)
    act-NextVetted attempt l m reason do_replan registered valid budget room h =
        or_raise-NextVetted config options _ _ (λ o e.
          after_replanning-NextVetted reason _ o
            (room_kept robot config options capabilities l (room refl))
            (add_decision-LocalsVetted robot config options capabilities replanning l h))
    act-NextVetted attempt l m reason do_stop registered valid budget room h =
        stop_with-NextVetted config options (recovery_ended reason) _ m
          (add_decision-LocalsVetted robot config options capabilities giving_up l h)

    replan_room :
        (l : Locals)
        → may_replan robot config options capabilities l ≡ true
        → l.replan_count < config.max_replans
    unfolding may_replan
    replan_room l h = ground arith

    recover-NextVetted :
        (attempt : ℕ) (r : SkillResult) (l : Locals) (m : Session robot)
        → skill_named config.registry step.skill ≡ ok skill
        → validate_arguments skill step.arguments ≡ ok tt
        → IsVetted config options robot r
        → LocalsVetted config options robot l
        → NextVetted config options
            (recover robot config options capabilities step skill attempt r l m)
    unfolding recover
    recover-NextVetted attempt r l m registered valid hr h =
        let available = may_replan robot config options capabilities l in
        let bounded =
          decide_recovery-bounded config.max_retries attempt r.timed_out available
            skill.recovery_policy in
        if-NextVetted config options options.allow_recovery _ _
          (λ on.
            act-NextVetted attempt _ m _ _ registered valid bounded.0
              (λ replans.
                results_keep_count robot config options capabilities r l
                  (replan_room l (bounded.1 replans)))
              (add_result-LocalsVetted robot config options capabilities
                (record r { recovery_triggered = true }) l
                (triggered-IsVetted robot config options capabilities r hr) h))
          (λ off.
            stop_with-NextVetted config options _ _ m
              (add_result-LocalsVetted robot config options capabilities r l hr h))

    conclude_attempt-NextVetted :
        (attempt : ℕ) (r : SkillResult) (l : Locals) (m : Session robot)
        → skill_named config.registry step.skill ≡ ok skill
        → validate_arguments skill step.arguments ≡ ok tt
        → IsVetted config options robot r
        → LocalsVetted config options robot l
        → NextVetted config options
            (conclude_attempt robot config options capabilities step skill attempt r l m)
    unfolding conclude_attempt
    conclude_attempt-NextVetted attempt r l m registered valid hr h =
        let kept = add_result-LocalsVetted robot config options capabilities r l hr h in
        if-NextVetted config options r.physical_outcome_achieved _ _
          (λ achieved. record {
            locals_vetted = record { results_vetted = kept.results_vetted; replans = kept.replans };
            control_vetted = tt;
          })
          (λ failed. recover-NextVetted attempt r l m registered valid hr h)

    after_command-NextVetted :
        (before : RobotState) (attempt : ℕ) (l : Locals) (sent : CommandReceipt × Session robot)
        → IsVettedCall config options robot step.skill skill step.arguments before
        → attempt ≤ config.max_retries + 1
        → LocalsVetted config options robot l
        → NextVetted config options
            (after_command robot config options capabilities step skill before attempt l sent)
    unfolding after_command record_attempt result_of
    after_command-NextVetted before attempt l (receipt, m) call fits h =
        let (after, m') = refresh robot m in
        or_raise-NextVetted config options
          (verified robot config options capabilities step skill before after receipt
            (robot.clock m'.world))
          _
          (λ o e.
            conclude_attempt-NextVetted attempt _ l _ call.registered call.valid
              (record {
                key = step.skill;
                skill = skill;
                named_skill = refl;
                call = call;
                within_budget = fits;
                accepted = outcome_achieved-accepted robot config options capabilities receipt o;
                verified =
                    outcome_achieved-verified robot config options capabilities step skill before
                      after receipt m'.world o (refresh-SeenAt robot m) e;
              })
              h)

    -- A round of the inner loop, started with a vetted call, records a vetted result.
    pub attempt_round-NextVetted :
        (before : RobotState) (attempt : ℕ) (l : Locals) (m : Session robot)
        → IsVettedCall config options robot step.skill skill step.arguments before
        → attempt ≤ config.max_retries + 1
        → LocalsVetted config options robot l
        → NextVetted config options
            (attempt_round robot config options capabilities step skill before attempt l m)
    unfolding attempt_round
    attempt_round-NextVetted before attempt l m call fits h =
        or_raise-NextVetted config options (send robot config options capabilities step skill m) _
          (λ sent e. after_command-NextVetted before attempt l sent call fits h)

-- ===== src/Execution/Attempt/Rounds.antt =====
-- A round of the inner loop uses up one of the rounds that are left.
use embodied_skill_ros.Prelude.{
  Option, [], arith, false, length, none, refl, subst, suc, sym, true-ne-false, ℕ, ◌++◌, ◌+◌, ◌-◌,
  ◌<◌, ◌∙◌, ◌∷◌, ◌≡◌, ◌≤◌,
}
use embodied_skill_ros.Errors.{ok}
use embodied_skill_ros.State.{RobotState}
use embodied_skill_ros.Skill.Contract.{RobotSkill}
use embodied_skill_ros.Plan.{PlanStep}
use embodied_skill_ros.Capabilities.{BackendCapabilities}
use embodied_skill_ros.Recovery.{
  Reason, RecoveryAction, decide_recovery-bounded, do_replan, do_retry, do_stop,
}
use embodied_skill_ros.Execution.Backend.{Robot, Session}
use embodied_skill_ros.Execution.Machine.{
  Config, Locals, Options, SkillResult, or_raise, replanning,
}
use embodied_skill_ros.Execution.Machine.Budget.{
  NextEnough, if-NextEnough, or_raise-NextEnough, rounds_for, steps_left, stop_with-NextEnough,
}
use embodied_skill_ros.Execution.Attempt.{
  act, add_decision, add_result, after_command, after_replanning, attempt_round, conclude_attempt,
  may_replan, record_attempt, recover, replanned, retry_step, send,
}

module _ (robot : Robot) (config : Config) (options : Options)
    (capabilities : Option BackendCapabilities) where
  module _ (fuel : ℕ) (no_guard : options.runtime_guard ≡ false)
      (no_replanner : config.replanner ≡ none) (step : PlanStep) (skill : RobotSkill) where
    -- The rounds left behind this attempt, which is at the step that `index` names.
    abbrev AttemptFits : ℕ → Locals → Type 0
    AttemptFits attempt l =
        (l.index < length l.plan.steps)
        × (attempt ≤ config.max_retries + 1)
        × (rounds_for config.max_retries (steps_left l - 1) + 1 + (config.max_retries + 2 - attempt)
            ≤ suc fuel)

    retry_step-NextEnough :
        (attempt : ℕ) (l : Locals) (m : Session robot)
        → attempt ≤ config.max_retries
        → AttemptFits attempt l
        → NextEnough config.max_retries fuel
            (retry_step robot config options capabilities step skill attempt l m)
    unfolding retry_step
    retry_step-NextEnough attempt l m budget h =
        if-NextEnough config.max_retries fuel options.runtime_guard _ _
          (λ on. absurd (true-ne-false (sym on ∙ no_guard)))
          (λ off. (h.0, omega arith, omega (arith, h.2)))

    replanned-none :
        (l : Locals) (m : Session robot)
        → replanned robot config options capabilities step skill l m ≡ ok (none, m)
    unfolding replanned
    replanned-none l m = rw no_replanner refl

    act-NextEnough :
        (attempt : ℕ) (l : Locals) (m : Session robot) (reason : Reason) (action : RecoveryAction)
        → (action ≡ do_retry → attempt ≤ config.max_retries)
        → AttemptFits attempt l
        → NextEnough config.max_retries fuel
            (act robot config options capabilities step skill attempt l m reason action)
    unfolding act add_decision after_replanning or_raise
    act-NextEnough attempt l m reason do_retry budget h =
        retry_step-NextEnough attempt _ m (budget refl) h
    act-NextEnough attempt l m reason do_replan budget h =
        rw (replanned-none (record l { decisions = l.decisions ++ replanning ∷ [] }) m)
          (stop_with-NextEnough config.max_retries fuel _ _ m)
    act-NextEnough attempt l m reason do_stop budget h =
        stop_with-NextEnough config.max_retries fuel _ _ m

    recover-NextEnough :
        (attempt : ℕ) (r : SkillResult) (l : Locals) (m : Session robot)
        → AttemptFits attempt l
        → NextEnough config.max_retries fuel
            (recover robot config options capabilities step skill attempt r l m)
    unfolding recover add_result
    recover-NextEnough attempt r l m h =
        let bounded =
          decide_recovery-bounded config.max_retries attempt r.timed_out
            (may_replan robot config options capabilities l) skill.recovery_policy in
        if-NextEnough config.max_retries fuel options.allow_recovery _ _
          (λ on. act-NextEnough attempt _ m _ _ bounded.0 h)
          (λ off. stop_with-NextEnough config.max_retries fuel _ _ m)

    conclude_attempt-NextEnough :
        (attempt : ℕ) (r : SkillResult) (l : Locals) (m : Session robot)
        → AttemptFits attempt l
        → NextEnough config.max_retries fuel
            (conclude_attempt robot config options capabilities step skill attempt r l m)
    unfolding conclude_attempt add_result
    conclude_attempt-NextEnough attempt r l m h =
        if-NextEnough config.max_retries fuel r.physical_outcome_achieved _ _
          (λ achieved.
            let e : length l.plan.steps - l.index - 1 ≡ length l.plan.steps - (l.index + 1) =
              omega arith in
            subst (λ k. rounds_for config.max_retries k + 1 ≤ fuel) e (omega (arith, h.2, h.1)))
          (λ failed. recover-NextEnough attempt r l m h)

    pub attempt_round-NextEnough :
        (before : RobotState) (attempt : ℕ) (l : Locals) (m : Session robot)
        → AttemptFits attempt l
        → NextEnough config.max_retries fuel
            (attempt_round robot config options capabilities step skill before attempt l m)
    unfolding attempt_round after_command record_attempt
    attempt_round-NextEnough before attempt l m h =
        or_raise-NextEnough config.max_retries fuel
          (send robot config options capabilities step skill m) _
          (λ (receipt, m₁) e.
            or_raise-NextEnough config.max_retries fuel _ _
              (λ o k. conclude_attempt-NextEnough attempt _ l _ h))

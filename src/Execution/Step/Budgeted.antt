-- ===== src/Execution/Step/Budgeted.antt =====
-- A round of either loop uses up one of the rounds that are left, where the runtime guard is off and
-- there is no replanner.
use embodied_skill_ros.Prelude.{
  List, Option, [], arith, false, get_elem?, is_nil, length, none, refl, some, subst, suc, sym,
  true-ne-false, zero, ℕ, ◌+◌, ◌-◌, ◌<◌, ◌∙◌, ◌∷◌, ◌≡◌, ◌≤◌,
}
use embodied_skill_ros.Errors.{Result, err, ok}
use embodied_skill_ros.Skill.Contract.{RobotSkill}
use embodied_skill_ros.Plan.{PlanStep}
use embodied_skill_ros.Capabilities.{BackendCapabilities}
use embodied_skill_ros.Execution.Backend.{Robot, Session, refresh}
use embodied_skill_ros.Execution.Goals.{goal_mismatches}
use embodied_skill_ros.Execution.Machine.{
  Config, Control, Locals, Machine, Options, at_step, attempting, exception,
}
use embodied_skill_ros.Execution.Machine.Budget.{
  Enough, EnoughAt, NextEnough, if-NextEnough, rounds_for, steps_left, stop_with-NextEnough,
}
use embodied_skill_ros.Execution.Attempt.Rounds.{attempt_round-NextEnough}
use embodied_skill_ros.Execution.Step.{
  capabilities, checked_skill, end_of_plan, guarded_step, round, start_step, step_round,
}

index-in :
    (steps : List PlanStep) (i : ℕ) (s : PlanStep) → get_elem? steps i ≡ some s → i < length steps
index-in [] i s h = cc
index-in (x ∷ xs) zero s h = omega arith
index-in (x ∷ xs) (suc i) s h = omega (arith, index-in xs i s h)

-- The first attempt at a step takes one round from what is left.
first_attempt :
    (max_retries fuel n i : ℕ)
    → i < n
    → rounds_for max_retries (n - i) + 1 ≤ suc fuel
    → rounds_for max_retries (n - i - 1) + 1 + (max_retries + 2 - 1) ≤ fuel
first_attempt max_retries fuel n i inside h =
    let e : n - i ≡ suc (n - i - 1) = omega arith in
    let h' : max_retries + 2 + rounds_for max_retries (n - i - 1) + 1 ≤ suc fuel =
      subst (λ k. rounds_for max_retries k + 1 ≤ suc fuel) e h in
    omega (arith, h')

module _ (robot : Robot) (config : Config) (options : Options) (c : BackendCapabilities) where
  module _ (fuel : ℕ) (no_guard : options.runtime_guard ≡ false)
      (no_replanner : config.replanner ≡ none) where
    end_of_plan-NextEnough :
        (l : Locals) (m : Session robot)
        → NextEnough config.max_retries fuel (end_of_plan robot config options c l m)
    unfolding end_of_plan
    end_of_plan-NextEnough l m =
        if-NextEnough config.max_retries fuel options.verify_outcomes _ _
          (λ on.
            let (state, m') = refresh robot m in
            if-NextEnough config.max_retries fuel (is_nil (goal_mismatches l.plan state)) _ _
              (λ met. tt) (λ missed. stop_with-NextEnough config.max_retries fuel _ l m'))
          (λ off. tt)

    start_step-NextEnough :
        (step : PlanStep) (l : Locals) (m : Session robot) (checked : Result RobotSkill)
        → l.index < length l.plan.steps
        → rounds_for config.max_retries (steps_left l) + 1 ≤ suc fuel
        → NextEnough config.max_retries fuel (start_step robot config options c step l m checked)
    unfolding start_step guarded_step
    start_step-NextEnough step l m (err e) inside h =
        stop_with-NextEnough config.max_retries fuel (exception e) l m
    start_step-NextEnough step l m (ok skill) inside h =
        if-NextEnough config.max_retries fuel options.runtime_guard _ _
          (λ on. absurd (true-ne-false (sym on ∙ no_guard)))
          (λ off. (
            inside,
            omega arith,
            first_attempt config.max_retries fuel (length l.plan.steps) l.index inside h,
          ))

    step_round-NextEnough :
        (l : Locals) (m : Session robot) (o : Option PlanStep)
        → get_elem? l.plan.steps l.index ≡ o
        → rounds_for config.max_retries (steps_left l) + 1 ≤ suc fuel
        → NextEnough config.max_retries fuel (step_round robot config options c l m o)
    unfolding step_round
    step_round-NextEnough l m none e h = end_of_plan-NextEnough l m
    step_round-NextEnough l m (some step) e h =
        start_step-NextEnough step l m (checked_skill robot config options c step)
          (index-in l.plan.steps l.index step e) h

    control_round-NextEnough :
        (k : Control) (l : Locals) (m : Session robot)
        → EnoughAt config.max_retries (suc fuel) k l
        → NextEnough config.max_retries fuel
            (round robot config options c (record { locals = l; session = m; control = k }))
    unfolding round
    control_round-NextEnough at_step l m h =
        step_round-NextEnough l m (get_elem? l.plan.steps l.index) refl h
    control_round-NextEnough (attempting step skill before attempt) l m h =
        attempt_round-NextEnough robot config options (capabilities robot config options c) fuel
          no_guard no_replanner step skill before attempt l m h

    pub round-NextEnough :
        (s : Machine robot)
        → Enough config.max_retries (suc fuel) s
        → NextEnough config.max_retries fuel (round robot config options c s)
    round-NextEnough s h = control_round-NextEnough s.control s.locals s.session h

-- ===== src/Execution/Step/Vetted.antt =====
-- A round of either loop keeps the executor's variables vetted.
use embodied_skill_ros.Prelude.{
  List, Option, String, [], ap, arith, get_elem?, is_nil, is_nil-eq, none, not, refl, some, subst,
  sym, true-ne-false, ◌&&◌, ◌∙◌, ◌≡◌,
}
use embodied_skill_ros.Value.{Value}
use embodied_skill_ros.Errors.{>>=-eq-ok, Result, err, ok, ok_injective}
use embodied_skill_ros.State.{RobotState}
use embodied_skill_ros.Skill.Contract.{RobotSkill}
use embodied_skill_ros.Skill.Parameters.{validate_arguments}
use embodied_skill_ros.Plan.{PlanStep, TaskPlan}
use embodied_skill_ros.Capabilities.{BackendCapabilities}
use embodied_skill_ros.Registry.{skill_named}
use embodied_skill_ros.Grounding.Issues.{GroundingReport}
use embodied_skill_ros.Guard.{GuardReason, guard_check}
use embodied_skill_ros.Guard.Allowed.{guard_check-IsSafe}
use embodied_skill_ros.Execution.Backend.{Robot, Session, refresh}
use embodied_skill_ros.Execution.Goals.{goal_mismatches, observable_issue_fields}
use embodied_skill_ros.Execution.Machine.{
  Config, Control, Locals, Machine, Options, at_step, attempting, exception, finish, goal_missed,
  guard_refused, stop_with,
}
use embodied_skill_ros.Execution.Machine.Vetted.{
  ControlVetted, LocalsVetted, MachineVetted, NextVetted, if-NextVetted, or_raise-NextVetted,
  refresh-SeenAt, stop_with-NextVetted,
}
use embodied_skill_ros.Execution.Attempt.Records.{attempt_round-NextVetted}
use embodied_skill_ros.Execution.Step.{
  after_repair, after_suffix_report, at_step_with, capabilities, checked_skill, guarded_step,
  may_observe, may_repair, observe_again, remaining_plan, round, start_step, step_round,
  steps_differ, success_report, try_repair,
}

module _ (robot : Robot) (config : Config) (options : Options) (c : BackendCapabilities) where
  at_step-NextVetted :
      (l : Locals) (m : Session robot)
      → LocalsVetted config options robot l
      → NextVetted config options (at_step_with robot config options c l m)
  unfolding at_step_with
  at_step-NextVetted l m h = record { locals_vetted = h; control_vetted = tt }

  after_repair-NextVetted :
      (reasons : List GuardReason) (l : Locals) (m : Session robot) (o : Option TaskPlan)
      → LocalsVetted config options robot l
      → NextVetted config options (after_repair robot config options c reasons l m o)
  unfolding after_repair
  after_repair-NextVetted reasons l m none h =
      stop_with-NextVetted config options (guard_refused reasons) l m h
  after_repair-NextVetted reasons l m (some repaired) h =
      if-NextVetted config options
        (steps_differ repaired.steps (remaining_plan robot config options c l).steps) _ _
        (λ new. record {
          locals_vetted = record { results_vetted = h.results_vetted; replans = h.replans };
          control_vetted = tt;
        })
        (λ old. stop_with-NextVetted config options (guard_refused reasons) l m h)

  try_repair-NextVetted :
      (skill : RobotSkill) (before : RobotState) (reasons : List GuardReason) (l : Locals)
      (m : Session robot) (report : GroundingReport)
      → LocalsVetted config options robot l
      → NextVetted config options
          (try_repair robot config options c skill before reasons l m report)
  unfolding try_repair
  try_repair-NextVetted skill before reasons l m report h =
      if-NextVetted config options (may_repair robot config options c skill l report) _ _
        (λ may.
          or_raise-NextVetted config options _ _ (λ o e. after_repair-NextVetted reasons l m o h))
        (λ may_not. after_repair-NextVetted reasons l m none h)

  observe_again-NextVetted :
      (fields : List String) (l : Locals) (m : Session robot)
      → LocalsVetted config options robot l
      → NextVetted config options (observe_again robot config options c fields l m)
  unfolding observe_again
  observe_again-NextVetted fields l m h = record {
    locals_vetted = record { results_vetted = h.results_vetted; replans = h.replans };
    control_vetted = tt;
  }

  after_suffix_report-NextVetted :
      (skill : RobotSkill) (before : RobotState) (reasons : List GuardReason) (l : Locals)
      (m : Session robot) (report : GroundingReport)
      → LocalsVetted config options robot l
      → NextVetted config options
          (after_suffix_report robot config options c skill before reasons l m report)
  unfolding after_suffix_report
  after_suffix_report-NextVetted skill before reasons l m report h =
      let fields : List String =
        observable_issue_fields config.registry (remaining_plan robot config options c l)
          report.issues c [] in
      if-NextVetted config options
        (may_observe robot config options c skill l && not (is_nil fields))
        (observe_again robot config options c fields l m)
        (try_repair robot config options c skill before reasons l m report)
        (λ watch. observe_again-NextVetted fields l m h)
        (λ other. try_repair-NextVetted skill before reasons l m report h)

  guarded_step-NextVetted :
      (step : PlanStep) (skill : RobotSkill) (l : Locals) (m : Session robot)
      → skill_named config.registry step.skill ≡ ok skill
      → validate_arguments skill step.arguments ≡ ok tt
      → LocalsVetted config options robot l
      → NextVetted config options (guarded_step robot config options c step skill l m)
  unfolding guarded_step
  guarded_step-NextVetted step skill l m registered valid h =
      let (before, m') = refresh robot m in
      if-NextVetted config options options.runtime_guard _ _
        (λ on.
          or_raise-NextVetted config options (guard_check step skill before (robot.clock m'.world))
            _
            (λ d e.
              if-NextVetted config options d.allowed _ _
                (λ allowed. record {
                  locals_vetted = h;
                  control_vetted = (
                    record {
                      registered = registered;
                      valid = valid;
                      world = m'.world;
                      seen = refresh-SeenAt robot m;
                      safe = λ _.
                          guard_check-IsSafe step skill before (robot.clock m'.world) d e allowed;
                    },
                    omega arith,
                  );
                })
                (λ refused. or_raise-NextVetted config options _ _ (λ report _.
                  after_suffix_report-NextVetted skill before d.reasons l m' report h))))
        (λ off. record {
          locals_vetted = h;
          control_vetted = (
            record {
              registered = registered;
              valid = valid;
              world = m'.world;
              seen = refresh-SeenAt robot m;
              safe = λ on. absurd (true-ne-false (sym on ∙ off));
            },
            omega arith,
          );
        })

  start_step-NextVetted :
      (step : PlanStep) (l : Locals) (m : Session robot) (r : Result RobotSkill)
      → checked_skill robot config options c step ≡ r
      → LocalsVetted config options robot l
      → NextVetted config options (start_step robot config options c step l m r)
  unfolding start_step checked_skill
  start_step-NextVetted step l m (err e) checked h =
      stop_with-NextVetted config options (exception e) l m h
  start_step-NextVetted step l m (ok skill) checked h =
      let (found, registered, k) = >>=-eq-ok (skill_named config.registry step.skill) _ checked in
      let (passed, valid, same) = >>=-eq-ok (validate_arguments found step.arguments) _ k in
      let e : found ≡ skill = ok_injective same in
      guarded_step-NextVetted step skill l m (registered ∙ ap ok e)
        (subst (λ (s : RobotSkill). validate_arguments s step.arguments ≡ ok tt) e valid) h

  step_round-NextVetted :
      (l : Locals) (m : Session robot) (o : Option PlanStep)
      → LocalsVetted config options robot l
      → NextVetted config options (step_round robot config options c l m o)
  unfolding step_round refresh
  step_round-NextVetted l m none h =
      if-NextVetted config options options.verify_outcomes _ _
        (λ on.
          let (state, m') = refresh robot m in
          let mismatches : List (String × Value × Value) = goal_mismatches l.plan state in
          if-NextVetted config options (is_nil mismatches)
            (finish (success_report robot config options c l) m')
            (stop_with (goal_missed mismatches) l m')
            (λ met. record {
              results_vetted = h.results_vetted;
              stopped = λ e. cc;
              goals_met = λ _ _. (is_nil-eq mismatches met, (m.world, refl, refl));
            })
            (λ missed. stop_with-NextVetted config options (goal_missed mismatches) l m' h))
        (λ off. record {
          results_vetted = h.results_vetted;
          stopped = λ e. cc;
          goals_met = λ _ on. absurd (true-ne-false (sym on ∙ off));
        })
  step_round-NextVetted l m (some step) h =
      start_step-NextVetted step l m (checked_skill robot config options c step) refl h

  -- One round of either loop keeps the variables vetted, and ends with vetted results.
  pub round-NextVetted :
      (s : Machine robot)
      → MachineVetted config options s
      → NextVetted config options (round robot config options c s)
  unfolding round
  round-NextVetted s h = control_cases s.control s.locals s.session h.locals_vetted h.control_vetted
    where
      control_cases :
          (k : Control) (l : Locals) (m : Session robot)
          → LocalsVetted config options robot l
          → ControlVetted config options robot k
          → NextVetted config options
              (round robot config options c (record { locals = l; session = m; control = k }))
      control_cases at_step l m hl hk =
          step_round-NextVetted l m (get_elem? l.plan.steps l.index) hl
      control_cases (attempting step skill before attempt) l m hl hk =
          attempt_round-NextVetted robot config options (capabilities robot config options c) step
            skill before attempt l m hk.0 hk.1 hl

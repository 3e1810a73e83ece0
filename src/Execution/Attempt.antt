-- ===== src/Execution/Attempt.antt =====
-- One round of the inner loop of `SkillExecutor.execute`: a command, its verification, and the
-- recovery from a failure.
pub mod Records
pub mod Kept
pub mod Rounds
use embodied_skill_ros.Prelude.{
  Bool, Option, [], false, if◌then◌else◌, is_some, ltb, none, some, true, ℕ, ◌&&◌, ◌++◌, ◌+◌, ◌-◌,
  ◌∷◌,
}
use embodied_skill_ros.Prelude.Texts.{add}
use embodied_skill_ros.Errors.{Result, ok, ◌>>=◌}
use embodied_skill_ros.State.{RobotState}
use embodied_skill_ros.Skill.Contract.{RobotSkill}
use embodied_skill_ros.Skill.Outcome.{VerificationResult, verify_outcome}
use embodied_skill_ros.Plan.{PlanStep, TaskPlan}
use embodied_skill_ros.Capabilities.{BackendCapabilities}
use embodied_skill_ros.Grounding.Ground.{ground_plan}
use embodied_skill_ros.Recovery.{
  Reason, RecoveryAction, decide_recovery, do_replan, do_retry, do_stop,
}
use embodied_skill_ros.Guard.{GuardDecision, guard_check}
use embodied_skill_ros.Repair.Insert.{repair_plan}
use embodied_skill_ros.Execution.Backend.{CommandReceipt, Robot, Session, mark_result, refresh}
use embodied_skill_ros.Execution.Goals.{with_goal_state}
use embodied_skill_ros.Execution.Machine.{
  Config, Decision, Locals, Next, Options, SkillResult, at_step, attempting, continue, giving_up,
  or_raise, outcome_missed, recovery_ended, regrounding, replanning, retrying, stop_with,
}

module _ (robot : Robot) (config : Config) (options : Options)
    (capabilities : Option BackendCapabilities) where
  -- A command that takes longer than the skill's timeout counts as refused and timed out.
  limited : RobotSkill → ℕ → CommandReceipt → CommandReceipt
  limited skill elapsed receipt =
      if ltb skill.timeout elapsed
      then record { accepted = false; backend_message = "skill exceeded timeout"; timed_out = true }
      else receipt

  -- `skill.execute(self.backend, step.arguments)` with its time taken
  send : PlanStep → RobotSkill → Session robot → Result (CommandReceipt × Session robot)
  unfolding limited
  send step skill m = do
    (receipt, w) ← robot.command skill.name step.arguments m.world
    ok (limited skill (robot.monotonic w - robot.monotonic m.world) receipt, record m { world = w })

  -- The outcome is verified only for an accepted command.
  pub verified :
      PlanStep
      → RobotSkill
      → RobotState
      → RobotState
      → CommandReceipt
      → ℕ
      → Result (Option VerificationResult)
  verified step skill before after receipt now =
      if receipt.accepted && options.verify_outcomes
      then (do v ← verify_outcome skill step.arguments before after none now; ok (some v))
      else ok none

  -- `receipt.accepted and (verification.achieved if verification else True)`
  pub outcome_achieved : CommandReceipt → Option VerificationResult → Bool
  outcome_achieved receipt none = receipt.accepted
  outcome_achieved receipt (some v) = receipt.accepted && v.achieved

  result_of :
      PlanStep
      → RobotSkill
      → RobotState
      → ℕ
      → CommandReceipt
      → Option VerificationResult
      → RobotState
      → SkillResult
  unfolding outcome_achieved
  result_of step skill before attempt receipt verification after = record {
    skill_name = skill.name;
    arguments = step.arguments;
    command_accepted = receipt.accepted;
    physical_outcome_achieved = outcome_achieved receipt verification;
    backend_message = receipt.backend_message;
    verification = verification;
    before_state = before;
    after_state = after;
    timed_out = receipt.timed_out;
    recovery_triggered = false;
    attempt = attempt;
  }

  pub add_result : SkillResult → Locals → Locals
  add_result r l = record l { results = l.results ++ r ∷ [] }

  pub add_decision : Decision → Locals → Locals
  add_decision d l = record l { decisions = l.decisions ++ d ∷ [] }

  -- `restart_current_step`, or the next round of `while True`
  after_retry_guard :
      PlanStep → RobotSkill → RobotState → ℕ → Locals → Session robot → GuardDecision → Next robot
  unfolding add_decision
  after_retry_guard step skill before attempt l m d =
      if d.allowed
      then continue
          (record { locals = l; session = m; control = attempting step skill before attempt })
      else continue (record { locals = add_decision regrounding l; session = m; control = at_step })

  -- The branch of RecoveryAction.RETRY.
  retry_step : PlanStep → RobotSkill → ℕ → Locals → Session robot → Next robot
  unfolding after_retry_guard
  retry_step step skill attempt l m =
      let (before, m') = refresh robot m in
      if options.runtime_guard
      then or_raise (guard_check step skill before (robot.clock m'.world))
          (after_retry_guard step skill before (attempt + 1) l m')
      else continue (record {
        locals = l;
        session = m';
        control = attempting step skill before (attempt + 1);
      })

  -- The plan that the replanner is given: the failed skill joins the blocked ones.
  failed_plan : TaskPlan → PlanStep → RobotSkill → TaskPlan
  failed_plan plan step skill = record plan {
    metadata = record plan.metadata {
      blocked_skills = add skill.name plan.metadata.blocked_skills;
      failed_skill = some skill.name;
      failed_arguments = some step.arguments;
    };
  }

  -- A replanned plan that is not valid is repaired once, and must be valid then.
  confirm_repair : Option TaskPlan → Session robot → Result (Option TaskPlan × Session robot)
  confirm_repair none m = ok (none, m)
  confirm_repair (some repaired) m = do
    let (state, m') = refresh robot m
    report ← ground_plan config.registry repaired state capabilities (robot.clock m'.world)
    ok (if report.valid then some repaired else none, m')

  make_valid : TaskPlan → Session robot → Result (Option TaskPlan × Session robot)
  unfolding confirm_repair
  make_valid plan m = do
    let (state, m') = refresh robot m
    report ← ground_plan config.registry plan state capabilities (robot.clock m'.world)
    if report.valid then ok (some plan, m') else (do
      let (state', m'') = refresh robot m'
      repaired ←
          repair_plan config.registry config.limits plan state' report (robot.clock m''.world)
      confirm_repair repaired m'')

  ground_replanned : Option TaskPlan → Session robot → Result (Option TaskPlan × Session robot)
  unfolding make_valid
  ground_replanned none m = ok (none, m)
  ground_replanned (some plan) m =
      let (state, m') = refresh robot m in
      make_valid (with_goal_state config.registry plan state) m'

  -- The branch of RecoveryAction.REPLAN up to the test of the new plan.
  replanned :
      PlanStep → RobotSkill → Locals → Session robot → Result (Option TaskPlan × Session robot)
  unfolding failed_plan ground_replanned
  replanned step skill l m = elim config.replanner [
    | none ↦ ok (none, m)
    | some replan_task ↦
        let (state, m') = refresh robot m in
        replan_task (failed_plan l.plan step skill) state >>= λ new_plan.
        ground_replanned new_plan m'
  ]

  -- `restart_from_replan`, or the stop behind the recovery.
  after_replanning : Reason → Locals → Option TaskPlan × Session robot → Next robot
  after_replanning reason l (none, m) = stop_with (recovery_ended reason) l m
  after_replanning reason l (some plan, m) = continue (record {
    locals = record l {
      plan = plan;
      replan_count = l.replan_count + 1;
      decision = replanning;
      index = 0;
    };
    session = m;
    control = at_step;
  })

  may_replan : Locals → Bool
  may_replan l = is_some config.replanner && ltb l.replan_count config.max_replans

  act : PlanStep → RobotSkill → ℕ → Locals → Session robot → Reason → RecoveryAction → Next robot
  unfolding add_decision retry_step replanned after_replanning
  act step skill attempt l m reason do_retry =
      retry_step step skill attempt (add_decision retrying l) m
  act step skill attempt l m reason do_replan =
      let l' = add_decision replanning l in
      or_raise (replanned step skill l' m) (after_replanning reason l')
  act step skill attempt l m reason do_stop =
      stop_with (recovery_ended reason) (add_decision giving_up l) m

  -- A failed attempt; the result is recorded first.
  recover : PlanStep → RobotSkill → ℕ → SkillResult → Locals → Session robot → Next robot
  unfolding act may_replan add_result
  recover step skill attempt r l m =
      let d =
        decide_recovery config.max_retries attempt r.timed_out (may_replan l)
          skill.recovery_policy in
      if options.allow_recovery
      then act step skill attempt (add_result (record r { recovery_triggered = true }) l) m d.reason
          d.action
      else stop_with (outcome_missed r.verification r.backend_message) (add_result r l) m

  -- The rest of the round, behind the verification.
  conclude_attempt : PlanStep → RobotSkill → ℕ → SkillResult → Locals → Session robot → Next robot
  unfolding recover add_result
  conclude_attempt step skill attempt r l m =
      if r.physical_outcome_achieved
      then continue (record {
        locals = record (add_result r l) { index = l.index + 1 };
        session = m;
        control = at_step;
      })
      else recover step skill attempt r l m

  record_attempt :
      PlanStep
      → RobotSkill
      → RobotState
      → ℕ
      → CommandReceipt
      → Option VerificationResult
      → Locals
      → Session robot
      → Next robot
  unfolding result_of conclude_attempt
  record_attempt step skill before attempt receipt verification l m =
      let achieved = outcome_achieved receipt verification in
      let (after, m') = mark_result robot (if achieved then "success" else "failure") m in
      conclude_attempt step skill attempt
        (result_of step skill before attempt receipt verification after) l m'

  after_command :
      PlanStep → RobotSkill → RobotState → ℕ → Locals → CommandReceipt × Session robot → Next robot
  unfolding verified record_attempt
  after_command step skill before attempt l (receipt, m) =
      let (after, m') = refresh robot m in
      or_raise (verified step skill before after receipt (robot.clock m'.world))
        (λ verification. record_attempt step skill before attempt receipt verification l m')

  -- One round of `while True`.
  unfoldable pub attempt_round :
      PlanStep → RobotSkill → RobotState → ℕ → Locals → Session robot → Next robot
  unfolding send after_command
  attempt_round step skill before attempt l m =
      or_raise (send step skill m) (after_command step skill before attempt l)

-- ===== src/Execution/Preflight.antt =====
-- The part of `SkillExecutor.execute` before the loops: grounding, observation and repair.
pub mod Bounded
pub mod Grounded
use embodied_skill_ros.Prelude.{
  Bool, List, Option, String, [], all, if◌then◌else◌, is_nil, none, not, some, suc, zero, ℕ, ◌&&◌,
  ◌++◌, ◌||◌, ◌∷◌,
}
use embodied_skill_ros.Errors.{Result, ok, ◌>>=◌}
use embodied_skill_ros.State.{RobotState}
use embodied_skill_ros.Skill.Contract.{allows, repair}
use embodied_skill_ros.Plan.{TaskPlan}
use embodied_skill_ros.Capabilities.{BackendCapabilities}
use embodied_skill_ros.Grounding.Issues.{GroundingIssue, GroundingReport, repairable, requires_stop}
use embodied_skill_ros.Grounding.Ground.{ground_plan}
use embodied_skill_ros.Repair.Insert.{repair_plan}
use embodied_skill_ros.Execution.Backend.{Robot, Session, acquire_fields}
use embodied_skill_ros.Execution.Goals.{observable_issue_fields, policy_for_issue}
use embodied_skill_ros.Execution.Machine.{
  Config, Decision, Message, Options, executing, grounding_issues, observing, plan_not_grounded,
  repair_failed, repaired_plan_invalid, repairing,
}

-- The plan goes on to the loops, or `execute` returns a report without a trace.
pub data Checked (robot : Robot) : Type 0 where
  ready : TaskPlan → Decision → List Decision → Session robot → Checked robot
  refused : TaskPlan → Message → Session robot → Checked robot

module _ (robot : Robot) (config : Config) (options : Options)
    (backend_capabilities : BackendCapabilities) where
  abbrev capabilities : Option BackendCapabilities
  capabilities = if options.capability_preflight then some backend_capabilities else none

  -- What the observation loop leaves: the state, the report, and whether it has observed.
  pub record Observed : Type 0 where
    pub state : RobotState
    pub report : GroundingReport
    pub decisions : List Decision
    pub session : Session robot

  wants_observation : GroundingReport → List String → Bool
  wants_observation report fields =
      not report.valid
      && not (requires_stop report)
      && options.active_observation
      && not (is_nil fields)

  -- The `while` loop; `attempts` is `max_observation_attempts - observation_attempts`.
  observe_loop : ℕ → TaskPlan → Observed → Result Observed
  unfolding wants_observation
  observe_loop zero plan o = ok o
  observe_loop (suc attempts) plan o =
      let fields =
        observable_issue_fields config.registry plan o.report.issues backend_capabilities [] in
      let again = λ (o' : Observed). observe_loop attempts plan o' in
      if wants_observation o.report fields
      then (do
        let (state, m) = acquire_fields robot fields o.session
        report ← ground_plan config.registry plan state capabilities (robot.clock m.world)
        again (record {
          state = state;
          report = report;
          decisions = o.decisions ++ observing ∷ [];
          session = m;
        }))
      else ok o

  policy_allows_repair : TaskPlan → List GroundingIssue → Bool
  policy_allows_repair plan issues =
      all
        (λ (i : GroundingIssue).
          not (repairable i.code)
          || allows (policy_for_issue config.registry plan i.step_id) repair)
        issues

  -- The repaired plan must be valid.
  confirm : TaskPlan → Observed → Option TaskPlan → Result (Checked robot)
  confirm plan o none = ok (refused plan repair_failed o.session)
  confirm plan o (some repaired) = do
    report ← ground_plan config.registry repaired o.state capabilities (robot.clock o.session.world)
    ok (
        if report.valid
        then ready repaired repairing (o.decisions ++ repairing ∷ []) o.session
        else refused repaired repaired_plan_invalid o.session)

  last_decision : List Decision → Decision
  last_decision [] = executing
  last_decision (d ∷ ds) = observing

  or_single : Decision → List Decision → List Decision
  or_single d [] = d ∷ []
  or_single d (e ∷ es) = e ∷ es

  -- The tests behind the observation loop.
  judge : TaskPlan → Observed → Result (Checked robot)
  unfolding policy_allows_repair confirm last_decision or_single
  judge plan o =
      let repaired =
        repair_plan config.registry config.limits plan o.state o.report
          (robot.clock o.session.world) in
      if o.report.valid
      then ok (
          ready plan (last_decision o.decisions) (or_single (last_decision o.decisions) o.decisions)
            o.session)
      else if requires_stop o.report
      then ok (refused plan (grounding_issues o.report.issues) o.session)
      else if not options.allow_repair || not (policy_allows_repair plan o.report.issues)
      then ok (refused plan plan_not_grounded o.session)
      else (do found ← repaired; confirm plan o found)

  -- The branch of `if ground_plan`.
  unfoldable pub preflight : TaskPlan → RobotState → Session robot → Result (Checked robot)
  unfolding observe_loop judge
  preflight plan state m =
      if options.ground_plan
      then (do
        report ← ground_plan config.registry plan state capabilities (robot.clock m.world)
        o ←
            observe_loop config.max_observation_attempts plan
              (record { state = state; report = report; decisions = []; session = m })
        judge plan o)
      else ok (ready plan executing (executing ∷ []) m)

-- ===== src/Tests/Repairs.antt =====
-- The theorems about repair, preflight, replanning and termination at concrete inputs.
use embodied_skill_ros.Prelude.{
  All, Option, [], arith, false, length, refl, some, true, ◌+◌, ◌↔◌, ◌∷◌, ◌≡◌, ◌≤◌, ◌⊎◌,
}
use embodied_skill_ros.Prelude.Int.{pos}
use embodied_skill_ros.Value.Numbers.{finite}
use embodied_skill_ros.Value.{agrees_within, bool, float}
use embodied_skill_ros.Errors.{Error, Result, ok}
use embodied_skill_ros.State.{RobotState}
use embodied_skill_ros.Plan.{SearchStats, TaskPlan, goals, no_metadata}
use embodied_skill_ros.Registry.{register, synthesize_candidates}
use embodied_skill_ros.Registry.Builtin.{set_head_skill}
use embodied_skill_ros.Registry.Laws.{IsRegistry, Registers, register-IsRegistry}
use embodied_skill_ros.Registry.Candidates.{IsCandidate, synthesize_candidates-IsCandidate}
use embodied_skill_ros.Grounding.Issues.{GroundingReport}
use embodied_skill_ros.Repair.Search.{Found, Proposal, default_limits, no_stats, search_fact}
use embodied_skill_ros.Repair.Search.Sound.{search_fact-Establishes}
use embodied_skill_ros.Repair.Search.Replays.{Establishes, Replays}
use embodied_skill_ros.Repair.Insert.{repair_plan}
use embodied_skill_ros.Repair.Insert.Replayed.{repair_plan-Replays}
use embodied_skill_ros.Replanner.{goal_satisfied, replan_task, same_arguments, same_signature}
use embodied_skill_ros.Replanner.Replanned.{IsReplanned, replan_task-IsReplanned}
use embodied_skill_ros.Execution.Backend.{Session, refresh}
use embodied_skill_ros.Execution.Machine.{ExecutionReport, Options, default_options, repairing}
use embodied_skill_ros.Execution.Preflight.{Checked, preflight, ready}
use embodied_skill_ros.Execution.Preflight.Grounded.{IsGrounded, preflight-IsGrounded}
use embodied_skill_ros.Execution.Run.{execute, failed, returned}
use embodied_skill_ros.Execution.Run.Returns.{execute-ends}
use embodied_skill_ros.Mock.{mock_capabilities}
use embodied_skill_ros.Mock.Robot.{mock_robot}
use embodied_skill_ros.Oracle.{evaluate_truth}
use embodied_skill_ros.Oracle.Judged.{AllTrue, evaluate_truth-AllTrue}
use embodied_skill_ros.Tests.Samples.{
  all_program, config, drive, initial_state, mock, plan_of, raise_lift, refusing, skills, start,
  unsafe_state,
}

-- What repair, replanning and the preflight use beyond a run.
unfoldable pub planning : Unit {0}
unfolding all_program agrees_within replan_task goal_satisfied same_arguments same_signature
    register evaluate_truth
planning = tt

unfoldable plan_in : Result (Option TaskPlan) → TaskPlan
plan_in (ok (some p)) = p
plan_in _ = plan_of []

abbrev lift_plan : TaskPlan
lift_plan = plan_of (raise_lift ∷ [])

abbrev blocked_report : GroundingReport
blocked_report = record { valid = false; issues = [] }

unfoldable repaired_lift : TaskPlan
unfolding plan_in
repaired_lift = plan_in (repair_plan skills default_limits lift_plan unsafe_state blocked_report 0)

repair_found :
    repair_plan skills default_limits lift_plan unsafe_state blocked_report 0
    ≡ ok (some repaired_lift)
unfolding planning repaired_lift
repair_found = refl

repair_plan-Replays_example :
    ((final : RobotState) × Replays skills 0 unsafe_state repaired_lift.steps final)
    × (length lift_plan.steps ≤ length repaired_lift.steps)
    × (length repaired_lift.steps ≤ length lift_plan.steps + 16)
repair_plan-Replays_example =
    repair_plan-Replays skills default_limits 0 unsafe_state lift_plan repaired_lift blocked_report
      repair_found

unfoldable proposal_in : Found → Proposal
proposal_in (ok (some p, stats)) = p
proposal_in _ = ([], initial_state)

unfoldable stats_in : Found → SearchStats
stats_in (ok (found, stats)) = stats
stats_in _ = no_stats

unfoldable safe_search : Found
safe_search =
    search_fact skills default_limits 0 [] 6 [] "left_arm_safe" (bool true) unsafe_state no_stats

search_found : safe_search ≡ ok (some (proposal_in safe_search), stats_in safe_search)
unfolding planning safe_search proposal_in stats_in
search_found = refl

search_fact-Establishes_example :
    Establishes skills 0 unsafe_state "left_arm_safe" (bool true) (proposal_in safe_search)
unfolding safe_search
search_fact-Establishes_example =
    search_fact-Establishes skills 0 default_limits [] 6 [] "left_arm_safe" (bool true) unsafe_state
      no_stats (stats_in safe_search) (proposal_in safe_search) search_found

abbrev unguarded : Options
unguarded = record default_options { runtime_guard = false }

execute-ends_example :
    ((report : ExecutionReport) × ((m' : Session mock_robot) × (execute mock_robot config unguarded
            52 lift_plan
            (start refusing)
          ≡ returned report m')))
    ⊎ ((e : Error) × (execute mock_robot config unguarded 52 lift_plan (start refusing) ≡ failed e))
execute-ends_example =
    execute-ends mock_robot config unguarded refl refl 52 lift_plan (start refusing) (omega arith)

unfoldable checked_unsafe : Result (Checked mock_robot)
unfolding planning
checked_unsafe =
    preflight mock_robot config default_options (mock_capabilities (mock unsafe_state)) lift_plan
      ((refresh mock_robot (start (mock unsafe_state))).0)
      ((refresh mock_robot (start (mock unsafe_state))).1)

unfoldable checked_plan : Result (Checked mock_robot) → TaskPlan
checked_plan (ok (ready p d ds m)) = p
checked_plan _ = plan_of []

unfoldable checked_session : Result (Checked mock_robot) → Session mock_robot
unfolding planning
checked_session (ok (ready p d ds m)) = m
checked_session _ = start (mock initial_state)

checked_ready :
    checked_unsafe
    ≡ ok (
        ready
          (checked_plan checked_unsafe)
          repairing
          (repairing ∷ [])
          (checked_session checked_unsafe))
unfolding planning checked_unsafe checked_plan checked_session
checked_ready = refl

preflight-IsGrounded_example :
    IsGrounded mock_robot config default_options
      (mock_capabilities (mock unsafe_state))
      (checked_plan checked_unsafe)
      (checked_session checked_unsafe)
unfolding checked_unsafe
preflight-IsGrounded_example =
    preflight-IsGrounded mock_robot config default_options (mock_capabilities (mock unsafe_state))
      lift_plan (checked_plan checked_unsafe) (start (mock unsafe_state))
      (checked_session checked_unsafe) repairing (repairing ∷ []) refl checked_ready

abbrev skills-IsRegistry : IsRegistry skills
unfolding planning
skills-IsRegistry = ((refl, refl, (refl, refl, (refl, refl, (refl, refl, (refl, refl, tt))))))

abbrev missed_plan : TaskPlan
missed_plan = record (plan_of (drive ∷ [])) {
  metadata = record no_metadata {
    goal_state = goals (("lift_height_mm", float (finite (pos 300000000))) ∷ []);
  };
}

unfoldable replanned_lift : TaskPlan
unfolding plan_in
replanned_lift = plan_in (replan_task skills missed_plan initial_state)

replan_found : replan_task skills missed_plan initial_state ≡ ok (some replanned_lift)
unfolding planning replanned_lift
replan_found = refl

replan_task-IsReplanned_example : IsReplanned skills missed_plan replanned_lift
replan_task-IsReplanned_example =
    replan_task-IsReplanned skills missed_plan replanned_lift initial_state skills-IsRegistry
      replan_found

register-IsRegistry_example : Registers set_head_skill [] (register set_head_skill [])
register-IsRegistry_example = register-IsRegistry set_head_skill [] tt

synthesize_candidates-IsCandidate_example : All (IsCandidate skills ("extend_arm" ∷ [])) (
    synthesize_candidates skills "left_arm_safe"
      (bool true)
      unsafe_state
      "candidate"
      "test"
      ("extend_arm" ∷ []))
synthesize_candidates-IsCandidate_example =
    synthesize_candidates-IsCandidate skills "left_arm_safe" (bool true) unsafe_state "candidate"
      "test" ("extend_arm" ∷ []) skills-IsRegistry

evaluate_truth-AllTrue_example :
    ((evaluate_truth (finite (pos 1)) initial_state (("lift_ready", bool true) ∷ [])).success
      ≡ true)
    ↔ AllTrue (pos 1) initial_state (("lift_ready", bool true) ∷ [])
evaluate_truth-AllTrue_example =
    evaluate_truth-AllTrue (pos 1) initial_state (("lift_ready", bool true) ∷ [])

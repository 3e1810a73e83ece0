-- ===== src/Execution/Run/Safety.antt =====
-- What `execute` guarantees, whatever the backend, the planner and the faults are.
use embodied_skill_ros.Prelude.{
  All, [], arith, false, inl, inr, subst, suc, sym, true, true-ne-false, zero, ℕ, ◌∙◌, ◌≡◌, ◌⊎◌,
}
use embodied_skill_ros.Errors.{Result, err, ok}
use embodied_skill_ros.Plan.{TaskPlan}
use embodied_skill_ros.Capabilities.{BackendCapabilities}
use embodied_skill_ros.Execution.Backend.{IsObserved, Robot, Session, refresh}
use embodied_skill_ros.Execution.Goals.{goal_mismatches}
use embodied_skill_ros.Execution.Machine.{
  Config, ExecutionReport, Machine, Next, Options, continue, finish, raised, stopping,
}
use embodied_skill_ros.Execution.Machine.Vetted.{EndVetted, IsVetted, MachineVetted, NextVetted}
use embodied_skill_ros.Execution.Step.{round}
use embodied_skill_ros.Execution.Step.Vetted.{round-NextVetted}
use embodied_skill_ros.Execution.Preflight.{Checked, ready, refused}
use embodied_skill_ros.Execution.Run.{
  Outcome, execute, failed, out_of_fuel, returned, run, run_checked,
}

module _ (robot : Robot) (config : Config) (options : Options) (c : BackendCapabilities) where
  abbrev OutcomeVetted : Outcome robot → Type 0
  OutcomeVetted (returned report m) = EndVetted config options report m
  OutcomeVetted (failed e) = Unit
  OutcomeVetted (out_of_fuel s) = MachineVetted config options s

  abbrev after_round : ℕ → Next robot → Outcome robot
  after_round fuel (continue s) = run robot config options c fuel s
  after_round fuel (finish report m) = returned report m
  after_round fuel (raised e) = failed e

  run-step :
      (fuel : ℕ) (s : Machine robot)
      → run robot config options c (suc fuel) s ≡ after_round fuel (round robot config options c s)
  unfolding run
  run-step fuel s = ground arith

  after_round-OutcomeVetted :
      (fuel : ℕ) (n : Next robot)
      → ((s : Machine robot)
          → MachineVetted config options s
          → OutcomeVetted (run robot config options c fuel s))
      → NextVetted config options n
      → OutcomeVetted (after_round fuel n)
  after_round-OutcomeVetted fuel (continue s) later h = later s h
  after_round-OutcomeVetted fuel (finish report m) later h = h
  after_round-OutcomeVetted fuel (raised e) later h = tt

  run-OutcomeVetted :
      (fuel : ℕ) (s : Machine robot)
      → MachineVetted config options s
      → OutcomeVetted (run robot config options c fuel s)
  run-OutcomeVetted zero s h = unfold run in h
  run-OutcomeVetted (suc fuel) s h = subst OutcomeVetted (sym (run-step fuel s)) (
      after_round-OutcomeVetted fuel (round robot config options c s) (run-OutcomeVetted fuel)
        (round-NextVetted robot config options c s h))

module _ (robot : Robot) (config : Config) (options : Options) where
  -- The end of `execute`: that of the loops, or a refusal before any command.
  abbrev EndOfExecute : ExecutionReport → Session robot → Type 0
  EndOfExecute report m =
      EndVetted config options report m ⊎ ((report.results ≡ []) × (report.success ≡ false))

  run_checked-end :
      (fuel : ℕ) (c : BackendCapabilities) (r : Result (Checked robot)) (report : ExecutionReport)
      (m : Session robot)
      → run_checked robot config options fuel c r ≡ returned report m
      → EndOfExecute report m
  unfolding run_checked
  run_checked-end fuel c (err e) report m h = cc
  run_checked-end fuel c (ok (refused plan why m₀)) report m h = inr (ground arith, ground arith)
  run_checked-end fuel c (ok (ready plan decision decisions m₀)) report m h = inl (
      subst (OutcomeVetted robot config options c) h (
        run-OutcomeVetted robot config options c fuel _ (record {
          locals_vetted = record { results_vetted = tt; replans = omega arith };
          control_vetted = tt;
        })))

  execute-end :
      (fuel : ℕ) (plan : TaskPlan) (m : Session robot) (report : ExecutionReport)
      (m' : Session robot)
      → execute robot config options fuel plan m ≡ returned report m'
      → EndOfExecute report m'
  unfolding execute
  execute-end fuel plan m report m' h =
      let (state, m₁) = refresh robot m in
      run_checked-end fuel (robot.capabilities m₁.world) _ report m' h

  -- Every result of a returned report is of a registered skill with valid arguments. The state before
  -- its command is what the backend showed when it was observed; if the runtime guard is on, this state
  -- had no emergency stop, no fault, none of the skill's resources busy, and each precondition held by
  -- current evidence at the clock that was read behind this observation. The attempt is within the
  -- retry budget. A result counts as achieved only if the command was accepted and, where outcomes are
  -- verified, its verification is the successful one of the skill's outcome, against a state that the
  -- backend showed when it was observed and at the clock that was read behind that.
  pub execute-IsVetted :
      (fuel : ℕ) (plan : TaskPlan) (m : Session robot) (report : ExecutionReport)
      (m' : Session robot)
      → execute robot config options fuel plan m ≡ returned report m'
      → All (IsVetted config options robot) report.results
  execute-IsVetted fuel plan m report m' h = elim (execute-end fuel plan m report m' h) [
    | inl e ↦ e.results_vetted
    | inr (nothing, failed_early) ↦ subst (All (IsVetted config options robot)) (sym nothing) tt
  ]

  -- Success is reported, where outcomes are verified, only if every goal of the reported plan is met
  -- in the final state, which is what the backend showed when it was observed last: nothing was done
  -- to the backend after that.
  pub execute-goals_met :
      (fuel : ℕ) (plan : TaskPlan) (m : Session robot) (report : ExecutionReport)
      (m' : Session robot)
      → execute robot config options fuel plan m ≡ returned report m'
      → report.success ≡ true
      → options.verify_outcomes ≡ true
      → (goal_mismatches report.plan m'.state ≡ []) × IsObserved robot m'
  execute-goals_met fuel plan m report m' h success on =
      elim (execute-end fuel plan m report m' h) [
        | inl e ↦ e.goals_met success on
        | inr (nothing, failed_early) ↦ absurd (true-ne-false (sym success ∙ failed_early))
      ]

  -- A report without success was returned before any command was sent, or the decision is STOP and
  -- the last thing done to the backend was to stop it.
  pub execute_failure_stops :
      (fuel : ℕ) (plan : TaskPlan) (m : Session robot) (report : ExecutionReport)
      (m' : Session robot)
      → execute robot config options fuel plan m ≡ returned report m'
      → report.success ≡ false
      → (report.results ≡ [])
        ⊎ ((report.decision ≡ stopping) × ((w : robot.World) × (m'.world ≡ robot.stop w)))
  execute_failure_stops fuel plan m report m' h failure =
      elim (execute-end fuel plan m report m' h) [
        | inl e ↦ inr (e.stopped failure)
        | inr (nothing, failed_early) ↦ inl nothing
      ]

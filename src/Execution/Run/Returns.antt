-- ===== src/Execution/Run/Returns.antt =====
-- The fuel that is enough for `execute`, where the runtime guard is off and there is no replanner.
use embodied_skill_ros.Prelude.{
  List, arith, false, inl, inr, length, none, refl, subst, suc, sym, zero, ℕ, ◌+◌, ◌-◌, ◌≡◌, ◌≤◌,
  ◌⊎◌,
}
use embodied_skill_ros.Errors.{Error, Result, err, ok}
use embodied_skill_ros.State.{RobotState}
use embodied_skill_ros.Plan.{PlanStep, TaskPlan}
use embodied_skill_ros.Capabilities.{BackendCapabilities}
use embodied_skill_ros.Registry.{SkillRegistry}
use embodied_skill_ros.Execution.Backend.{Robot, Session, refresh}
use embodied_skill_ros.Execution.Goals.{with_goal_state}
use embodied_skill_ros.Execution.Machine.{
  Config, Control, ExecutionReport, Locals, Machine, Next, Options, at_step, attempting, continue,
  finish, raised,
}
use embodied_skill_ros.Execution.Machine.Budget.{
  Enough, EnoughAt, NextEnough, rounds_for, rounds_for_mono,
}
use embodied_skill_ros.Execution.Step.{round}
use embodied_skill_ros.Execution.Step.Budgeted.{round-NextEnough}
use embodied_skill_ros.Execution.Preflight.{Checked, preflight, ready, refused}
use embodied_skill_ros.Execution.Preflight.Bounded.{CheckedShort, preflight-CheckedShort}
use embodied_skill_ros.Execution.Run.{
  Outcome, execute, failed, out_of_fuel, returned, run, run_checked,
}

module _ (robot : Robot) (config : Config) (options : Options) (c : BackendCapabilities)
    (no_guard : options.runtime_guard ≡ false) (no_replanner : config.replanner ≡ none) where
  abbrev pub Ends : Outcome robot → Type 0
  Ends (returned report m) = Unit
  Ends (failed e) = Unit
  Ends (out_of_fuel s) = ⊥

  abbrev after_round : ℕ → Next robot → Outcome robot
  after_round fuel (continue s) = run robot config options c fuel s
  after_round fuel (finish report m) = returned report m
  after_round fuel (raised e) = failed e

  run-step :
      (fuel : ℕ) (s : Machine robot)
      → run robot config options c (suc fuel) s ≡ after_round fuel (round robot config options c s)
  unfolding run
  run-step fuel s = ground arith

  after_round-Ends :
      (fuel : ℕ) (n : Next robot)
      → ((s : Machine robot)
          → Enough config.max_retries fuel s
          → Ends (run robot config options c fuel s))
      → NextEnough config.max_retries fuel n
      → Ends (after_round fuel n)
  after_round-Ends fuel (continue s) later h = later s h
  after_round-Ends fuel (finish report m) later h = tt
  after_round-Ends fuel (raised e) later h = tt

  not_enough : (k : Control) (l : Locals) → EnoughAt config.max_retries 0 k l → ⊥
  not_enough at_step l h = omega (arith, h)
  not_enough (attempting step skill before attempt) l h = omega (arith, h.2)

  pub run-Ends :
      (fuel : ℕ) (s : Machine robot)
      → Enough config.max_retries fuel s
      → Ends (run robot config options c fuel s)
  run-Ends zero s h = absurd (not_enough s.control s.locals h)
  run-Ends (suc fuel) s h = subst Ends (sym (run-step fuel s)) (
      after_round-Ends fuel (round robot config options c s) (run-Ends fuel)
        (round-NextEnough robot config options c fuel no_guard no_replanner s h))

with_goal_state-steps :
    (registry : SkillRegistry) (plan : TaskPlan) (state : RobotState)
    → (with_goal_state registry plan state).steps ≡ plan.steps
unfolding with_goal_state
with_goal_state-steps registry plan state = ground arith

module _ (robot : Robot) (config : Config) (options : Options)
    (no_guard : options.runtime_guard ≡ false) (no_replanner : config.replanner ≡ none) where
  run_checked-Ends :
      (fuel : ℕ) (c : BackendCapabilities) (plan : TaskPlan) (r : Result (Checked robot))
      → rounds_for config.max_retries (length plan.steps + config.limits.max_insertions) + 1 ≤ fuel
      → ((checked : Checked robot)
          → r ≡ ok checked
          → CheckedShort robot config options c plan checked)
      → Ends robot config options c no_guard no_replanner
          (run_checked robot config options fuel c r)
  unfolding run_checked
  run_checked-Ends fuel c plan (err e) enough short = tt
  run_checked-Ends fuel c plan (ok (refused p message m)) enough short = tt
  run_checked-Ends fuel c plan (ok (ready p decision decisions m)) enough short =
      run-Ends robot config options c no_guard no_replanner fuel _ (
        omega (
          arith,
          enough,
          rounds_for_mono config.max_retries (length p.steps - 0)
              (length plan.steps + config.limits.max_insertions) (omega (arith, short _ refl)),
        ))

  -- With the runtime guard off and no replanner, `execute` returns a report or raises, whatever the
  -- backend does: fuel for `max_retries + 2` rounds for each step of the plan and each step that the
  -- repairer may insert, and for one more, is enough.
  pub execute-ends :
      (fuel : ℕ) (plan : TaskPlan) (m : Session robot)
      → rounds_for config.max_retries (length plan.steps + config.limits.max_insertions) + 1 ≤ fuel
      → ((report : ExecutionReport) × ((m' : Session robot) × (execute robot config options fuel
                plan m
              ≡ returned report m')))
        ⊎ ((e : Error) × (execute robot config options fuel plan m ≡ failed e))
  unfolding execute
  execute-ends fuel plan m enough =
      let (state, m₁) = refresh robot m in
      let c = robot.capabilities m₁.world in
      let full : TaskPlan = with_goal_state config.registry plan state in
      ended c (execute robot config options fuel plan m) (
        run_checked-Ends fuel c full (preflight robot config options c full state m₁)
          (subst
            (λ (steps : List PlanStep).
              rounds_for config.max_retries (length steps + config.limits.max_insertions) + 1
              ≤ fuel)
            (sym (with_goal_state-steps config.registry plan state)) enough)
          (λ checked e. preflight-CheckedShort robot config options c full state m₁ checked e))
    where
      ended :
          (c : BackendCapabilities) (o : Outcome robot)
          → Ends robot config options c no_guard no_replanner o
          → ((report : ExecutionReport) × ((m' : Session robot) × (o ≡ returned report m')))
            ⊎ ((e : Error) × (o ≡ failed e))
      ended c (returned report m') h = inl (report, (m', refl))
      ended c (failed e) h = inr (e, refl)
      ended c (out_of_fuel s) h = absurd h

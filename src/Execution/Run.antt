-- ===== src/Execution/Run.antt =====
-- `SkillExecutor.execute`: the preflight, and the loops on fuel. Whether the loops end depends on
-- the backend, so a run that is cut off is an outcome of its own.
pub mod Safety
pub mod Returns
use embodied_skill_ros.Prelude.{List, [], false, suc, zero, ℕ}
use embodied_skill_ros.Errors.{Error, Result, err, ok}
use embodied_skill_ros.Plan.{TaskPlan}
use embodied_skill_ros.Capabilities.{BackendCapabilities}
use embodied_skill_ros.Execution.Backend.{Robot, Session, refresh}
use embodied_skill_ros.Execution.Goals.{with_goal_state}
use embodied_skill_ros.Execution.Machine.{
  Config, Decision, ExecutionReport, Locals, Machine, Message, Options, at_step, continue, finish,
  raised, stopping,
}
use embodied_skill_ros.Execution.Step.{round}
use embodied_skill_ros.Execution.Preflight.{Checked, preflight, ready, refused}

pub data Outcome (robot : Robot) : Type 0 where
  returned : ExecutionReport → Session robot → Outcome robot
  failed : Error → Outcome robot
  out_of_fuel : Machine robot → Outcome robot

module _ (robot : Robot) (config : Config) (options : Options)
    (backend_capabilities : BackendCapabilities) where
  -- The loops: a round for each unit of fuel.
  unfoldable pub run : ℕ → Machine robot → Outcome robot
  run zero s = out_of_fuel s
  run (suc fuel) s = elim (round robot config options backend_capabilities s) [
    | continue s' ↦ run fuel s'
    | finish report m ↦ returned report m
    | raised e ↦ failed e
  ]

abbrev pub start_locals : TaskPlan → Decision → List Decision → Locals
start_locals plan decision decisions = record {
  plan = plan;
  index = 0;
  replan_count = 0;
  runtime_repair_count = 0;
  decision = decision;
  decisions = decisions;
  results = [];
}

-- A report from before the loops.
refused_report : TaskPlan → Message → ExecutionReport
refused_report plan message = record {
  success = false;
  decision = stopping;
  plan = plan;
  results = [];
  decisions = [];
  message = message;
}

module _ (robot : Robot) (config : Config) (options : Options) where
  run_checked : ℕ → BackendCapabilities → Result (Checked robot) → Outcome robot
  unfolding refused_report
  run_checked fuel c (err e) = failed e
  run_checked fuel c (ok (refused plan message m)) = returned (refused_report plan message) m
  run_checked fuel c (ok (ready plan decision decisions m)) =
      run robot config options c fuel
        (record { locals = start_locals plan decision decisions; session = m; control = at_step })

  -- `execute(plan, …)`
  unfoldable pub execute : ℕ → TaskPlan → Session robot → Outcome robot
  unfolding run_checked
  execute fuel plan m =
      let (state, m') = refresh robot m in
      let c = robot.capabilities m'.world in
      run_checked fuel c
        (preflight robot config options c (with_goal_state config.registry plan state) state m')

-- ===== src/Execution.antt =====
-- embodied_skill_ros/execution/skill_executor.py and embodied_skill_ros/state/state_manager.py:
-- the backend as the executor meets it, the state manager, the goals of a plan, the executor's
-- variables, and its loops as steps of a machine.
pub mod Backend
pub mod Goals
pub mod Machine
pub mod Attempt
pub mod Step
pub mod Preflight
pub mod Run

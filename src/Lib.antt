-- ===== src/Lib.antt =====
-- A verification library for EmbodiedSkill-ROS, a Python runtime that executes plans of robot
-- skills with declared contracts: preconditions over an observed (epistemic) state, effects,
-- resources and a recovery policy.
--
-- The program's parts and their modules. A plan (embodied_skill_ros/models/task_plan.py: Plan) is a
-- list of steps that name skills. A skill (embodied_skill_ros/skills/base_skill.py: Skill and its
-- child modules; the five built-in ones: Registry.Builtin) is found in the registry
-- (embodied_skill_ros/skills/registry.py: Registry). `SkillExecutor.execute`
-- (embodied_skill_ros/execution/skill_executor.py: Execution) observes the robot through the state
-- manager (embodied_skill_ros/state/state_manager.py: Execution.Backend), grounds the plan
-- (embodied_skill_ros/grounding/plan_grounder.py: Grounding, with constraint_checker.py:
-- Constraints), observes more or repairs it (plan_repairer.py: Repair), asks the runtime guard
-- before each command (embodied_skill_ros/execution/runtime_guard.py: Guard), sends the command to
-- the backend (embodied_skill_ros/backends/base_backend.py: Capabilities and Execution.Backend),
-- verifies the outcome (Skill.Outcome), and on a failure retries, replans or stops as the recovery
-- manager decides (embodied_skill_ros/execution/recovery_manager.py: Recovery). Replanner is the
-- goal-directed replanner of embodied_skill_ros/planner/goal_replanner.py, Mock the deterministic
-- backend of embodied_skill_ros/backends/mock_backend.py, Jaka the legacy adapter of
-- embodied_skill_ros/backends/jaka_backend.py (its capabilities and commands), Kargo the deployment
-- of embodied_skill_ros/integrations/jaka_kargo (the capability mapper; Kargo.Transport: the
-- transport's answers; Kargo.Readings and Kargo.Observe: state_provider.py; Kargo.Motions and
-- Kargo.Command: skill_adapter.py; Kargo.Skills: skills.py; Kargo.Services: what ros2_transport.py
-- makes of the services and topics; Kargo.Executed: the executor over this backend), Ros the fake
-- robot and the backend of embodied_skill_ros/ros2 (Ros.Node: fake_robot_node.py; Ros.Client:
-- ros2_backend.py), System the assembly of embodied_skill_ros/system.py, and Oracle the score of
-- embodied_skill_ros/evaluation/oracle.py. Tests has runs at concrete inputs.
--
-- How the code is modelled. Exceptions are values of `Result`; a message is kept as the data that
-- it shows. The two nested loops of `execute` are a machine whose control is the test of the outer
-- loop (`at_step`) or the top of `while True` (`attempting`); `round` runs one round of either,
-- `run` as many rounds as it has fuel. Whether the loops end depends on the backend, so
-- `out_of_fuel` is an outcome of its own and no theorem counts it as a return. The loop of the fake
-- robot's goal is on fuel as well, and Ros.Node.Execute.Waited shows how much is enough; its
-- callbacks are functions of the node's state, and a run is a list of them in any order. All other
-- loops are structural: the depth of the repairer's search is counted down, and so is the budget of
-- the observation loop. A backend is a record of operations on a world (`Robot`); a command may
-- raise, the other operations return. The replanner is a function of the configuration.
--
-- Values. A float is a whole number of millionths, an infinity or NaN: the code only adds,
-- subtracts and compares floats, and what rounding adds is not modelled. Integers are exact. `True
-- == 1` and `isinstance(True, int)` hold as in Python. A timestamp is what `datetime.fromisoformat`
-- reads from it, in microseconds, or nothing. The clock is read once for each grounding, guard,
-- verification and repair. A state's attributes that hold a value are kept by name; effects are
-- taken to name no bookkeeping field (active_resources, facts, observed_at, stale_fields,
-- conflicts, timestamp). Metadata is a record of the entries that the program reads.
--
-- Not modelled: texts that spell numbers in `float(text)`, floats written with an exponent, the
-- statistics of a failed search, the records of a trace (they repeat the results), the parsing of
-- plans from JSON, the planners from text, the set-up of ROS nodes, the requests that are filled
-- for services and the services themselves, the JSON texts in between, the events that nodes log,
-- that the fake robot may publish its numbered states in another order than it numbers them, the
-- observations of the legacy JAKA backend, and the benchmarks. Diagnostics count as equal when the
-- data that they show are.
pub mod Prelude
pub mod Value
pub mod Errors
pub mod State
pub mod Skill
pub mod Plan
pub mod Capabilities
pub mod Registry
pub mod Constraints
pub mod Grounding
pub mod Recovery
pub mod Guard
pub mod Repair
pub mod Replanner
pub mod Execution
pub mod Mock
pub mod System
pub mod Jaka
pub mod Kargo
pub mod Ros
pub mod Oracle
pub mod Tests

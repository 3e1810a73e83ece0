-- ===== src/Grounding.antt =====
-- embodied_skill_ros/grounding/plan_grounder.py: `Issues` has the diagnostics, `Steps` the loop
-- over the steps, `Parallel` the test of parallel groups, and `Ground` joins them.
pub mod Issues
pub mod Steps
pub mod Parallel
pub mod Ground

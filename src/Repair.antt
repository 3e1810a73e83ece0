-- ===== src/Repair.antt =====
-- embodied_skill_ros/grounding/plan_repairer.py: `Search` is the bounded backward search over
-- declared effects, `Insert` the repair of a whole plan.
pub mod Search
pub mod Insert

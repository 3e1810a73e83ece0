-- ===== src/Skill.antt =====
-- embodied_skill_ros/skills/base_skill.py, a module for each part of a contract: the field
-- templates, the contract's data, the validation of arguments, the predicates, the effects and the
-- verification of an outcome.
pub mod Template
pub mod Contract
pub mod Parameters
pub mod Predicates
pub mod Effects
pub mod Outcome

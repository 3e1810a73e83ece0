-- ===== src/Ros.antt =====
-- embodied_skill_ros/ros2: the fake robot that the runtime tests drive over ROS (fake_robot_node.py)
-- and the backend that talks to it (ros2_backend.py). A JSON object is kept as the record of the
-- entries that are read from it, with the defaults for those that are missing; the text in between,
-- the events that both sides log and the feedback of an action are left out.
pub mod Robot
pub mod Node
pub mod Client

-- ===== src/Robot.antt =====
-- robot/: the robot agent (robot.hpp, robot_state.hpp, robot.cpp). The children hold its state, the
-- handlers that run on its worker thread, the methods that run on its server thread, the event loop
-- that joins them, and the proofs.
pub mod State
pub mod Distance
pub mod Work
pub mod Methods
pub mod Init
pub mod Loop
pub mod Activity
pub mod Load
pub mod Deadlock
pub mod TakingUp
pub mod Acceptance
pub mod Progress

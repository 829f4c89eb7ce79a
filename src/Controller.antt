-- ===== src/Controller.antt =====
-- The controller agent (controller.cpp, controller.hpp).
pub mod State
pub mod Registry
pub mod Swaps
pub mod Requests
pub mod Methods
pub mod Loop
pub mod Falling
pub mod Pending
pub mod Directory
pub mod Calls
pub mod Answers
pub mod Returns
pub mod Adapting
pub mod Leaving
pub mod Reconfiguring

-- ===== src/Kitchen.antt =====
-- The kitchen agent (kitchen.cpp, kitchen.hpp).
pub mod State
pub mod Placing
pub mod Robots
pub mod Loop
pub mod Orders
pub mod Account
pub mod Assignment
pub mod Drain

-- ===== src/Conveyor.antt =====
-- conveyor/: the conveyor agent, its plates, and how dishes travel on them.
pub mod State
pub mod Plates
pub mod Retrieval
pub mod Movement
pub mod Delivery
pub mod Loop
pub mod Belt
pub mod Stock
pub mod Journey
pub mod Output

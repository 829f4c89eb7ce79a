-- ===== src/Examples.antt =====
-- Runs of the model on concrete inputs: a kitchen with two recipes, and a robot that cuts.
pub mod Kitchen
pub mod Robots
pub mod Dishes
pub mod Belts
pub mod Faults
pub mod Policies
pub mod Controllers
pub mod Leaving
pub mod Kitchens

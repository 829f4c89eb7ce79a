-- ===== src/Conveyor/Stock.antt =====
-- The stock of the belt: which plates carry dishes, as the set, the flags and the count tell
-- (conveyor.cpp).
pub mod Sets
pub mod Updates
pub mod Handlers
pub mod Requests
pub mod Deliveries
pub mod Movement
pub mod Reachable
pub mod Bounds
use opcua_cps_kitchen.Base.{
  ℕ, ◌+◌, ◌%◌, ◌<◌, ◌≡◌, ◌≢◌, Bool, true, false, Option, none, some, List, [], ◌∷◌, length,
  get_elem?, u32_size,
}
use opcua_cps_kitchen.Conveyor.State.{Plate, Conveyor}
use opcua_cps_kitchen.Conveyor.Plates.{contains}
use opcua_cps_kitchen.Conveyor.Belt.{IsTurned}

abbrev pub AreDistinct : List ℕ → Type 0
AreDistinct [] = Unit
AreDistinct (i ∷ is) = (contains i is ≡ false) × AreDistinct is

-- A free plate carries no recipe, no steps and no finished dish; an occupied one has a recipe.
pub record IsTidy (p : Plate) : Type 0 where
  pub free_recipe : p.occupied ≡ false → p.placed_recipe_id ≡ 0
  pub free_steps : p.occupied ≡ false → p.processed_steps ≡ 0
  pub free_unfinished : p.occupied ≡ false → p.dish_finished ≡ false
  pub carries : p.occupied ≡ true → p.placed_recipe_id ≢ 0

pub record IsStocked (k n : ℕ) (c : Conveyor) : Type 0 where
  pub turned : IsTurned k n c
  pub flags :
      (i : ℕ) (p : Plate)
      → get_elem? c.plates i ≡ some p
      → contains i c.occupied_plates ≡ p.occupied
  pub tidy : (i : ℕ) (p : Plate) → get_elem? c.plates i ≡ some p → IsTidy p
  pub within : (i : ℕ) → contains i c.occupied_plates ≡ true → i < n
  pub distinct : AreDistinct c.occupied_plates
  pub count : c.occupied_plates_count ≡ length c.occupied_plates % u32_size

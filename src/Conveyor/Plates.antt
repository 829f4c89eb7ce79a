-- ===== src/Conveyor/Plates.antt =====
-- How the conveyor finds a plate, fills it and clears it (conveyor.cpp).
use opcua_cps_kitchen.Base.{
  ℕ, ◌%◌, Bool, true, false, none, some, List, [], ◌∷◌, length, get_elem?, set_elem, find, put,
  ◌==◌, ◌||◌, if◌then◌else◌, u32_size,
}
use opcua_cps_kitchen.Robot.Methods.{Handover}
use opcua_cps_kitchen.Conveyor.State.{Plate, BeltTimer, Conveyor}

-- The part of `stop` that the other handlers see.
unfoldable pub halt : Conveyor → Conveyor
halt c = record c { running = false }

-- Setting the steady timer anew cancels a wait that is not over, and the cancelled handler stops
-- the conveyor.
unfoldable pub schedule : BeltTimer → Conveyor → Conveyor
unfolding halt
schedule t c = elim c.timer [
  | none ↦ record c { timer = some t }
  | some _ ↦ record (halt c) { timer = some t }
]

-- operator[] of the map, which gives a missing position the plate 0.
unfoldable pub plate_id_at : ℕ → List (ℕ × ℕ) → ℕ
plate_id_at position m = elim (find m position) [ none ↦ 0 | some i ↦ i ]

unfoldable pub visit : ℕ → Conveyor → Conveyor
visit position c = elim (find c.position_plate_id_map position) [
  | none ↦ record c { position_plate_id_map = put position 0 c.position_plate_id_map }
  | some i ↦ c
]

-- An index beyond the plates is undefined behaviour; the model leaves the conveyor as it is there.
unfoldable pub with_plate : ℕ → (Plate → Conveyor) → Conveyor → Conveyor
with_plate i f c = elim (get_elem? c.plates i) [ none ↦ c | some p ↦ f p ]

unfoldable pub is_occupied_at : ℕ → Conveyor → Bool
unfolding plate_id_at
is_occupied_at position c =
    elim (get_elem? c.plates (plate_id_at position c.position_plate_id_map)) [
      | none ↦ false
      | some p ↦ p.occupied
    ]

unfoldable pub contains : ℕ → List ℕ → Bool
contains i [] = false
contains i (j ∷ js) = j == i || contains i js

unfoldable pub insert_id : ℕ → List ℕ → List ℕ
unfolding contains
insert_id i js = if contains i js then js else i ∷ js

unfoldable pub erase_id : ℕ → List ℕ → List ℕ
erase_id i [] = []
erase_id i (j ∷ js) = let rest = erase_id i js in if j == i then rest else j ∷ rest

unfoldable pub place_dish : Handover → Plate → Plate
place_dish h p = record p {
  placed_recipe_id = h.recipe_id;
  occupied = true;
  dish_finished = h.is_dish_finished;
  processed_steps = h.processed_steps;
}

unfoldable pub reset_plate : Plate → Plate
reset_plate p = record p {
  placed_recipe_id = 0;
  processed_steps = 0;
  target_position = 0;
  occupied = false;
  dish_finished = false;
}

-- The set of the occupied plates with the attribute that counts them.
unfoldable pub set_occupied_plates : List ℕ → Conveyor → Conveyor
set_occupied_plates is c = record c {
  occupied_plates = is;
  occupied_plates_count = length is % u32_size;
}

unfoldable pub fill : ℕ → Handover → Plate → Conveyor → Conveyor
unfolding set_occupied_plates insert_id
fill i h p c =
    set_occupied_plates (insert_id p.id c.occupied_plates)
      (record c { plates = set_elem i (place_dish h p) c.plates })

unfoldable pub clear_plate : ℕ → Plate → Conveyor → Conveyor
unfolding set_occupied_plates erase_id
clear_plate i p c =
    set_occupied_plates (erase_id i c.occupied_plates)
      (record c { plates = set_elem i (reset_plate p) c.plates })

unfoldable pub set_target_position : ℕ → ℕ → Plate → Conveyor → Conveyor
set_target_position i position p c = record c {
  plates = set_elem i (record p { target_position = position }) c.plates;
}

unfoldable pub handle_handover_finished_order : Handover → Conveyor → Conveyor
unfolding visit with_plate fill
handle_handover_finished_order h c =
    if h.recipe_id == 0
    then c
    else let c' = visit h.robot_position c in
      let i = plate_id_at h.robot_position c'.position_plate_id_map in
      with_plate i (λ p. fill i h p c') c'

-- ===== src/Conveyor/Stock/Movement.antt =====
-- The stock and the movement of the belt (move_conveyor of conveyor.cpp).
use opcua_cps_kitchen.Base.{
  ℕ, zero, suc, ◌+◌, ◌≤◌, ◌<◌, ◌≡◌, refl, subst, some, List, [], ◌∷◌, length, get_elem?, u32_size,
  arith,
}
use opcua_cps_kitchen.Conveyor.State.{Plate, Conveyor}
use opcua_cps_kitchen.Conveyor.Movement.{new_position, move_plates, turn}
use opcua_cps_kitchen.Conveyor.Belt.{turn-IsTurned}
use opcua_cps_kitchen.Conveyor.Stock.{IsTidy, IsStocked}

-- A plate that has moved differs from the plate before in nothing but its position.
move_plates-get_elem? :
    (steps n i : ℕ) (ps : List Plate) (m : List (ℕ × ℕ)) (q : Plate)
    → get_elem? (move_plates steps n ps m).0 i ≡ some q
    → (p : Plate) × (get_elem? ps i ≡ some p) × (record p { position = new_position steps n p } ≡ q)
unfolding move_plates
move_plates-get_elem? steps n i [] m q e = ground arith
move_plates-get_elem? steps n zero (p ∷ ps) m q e = (p, refl, ground arith)
move_plates-get_elem? steps n (suc i) (p ∷ ps) m q e = move_plates-get_elem? steps n i ps _ q e

pub turn-IsStocked :
    (steps k n : ℕ) (c : Conveyor)
    → 0 < n
    → n + steps ≤ u32_size
    → IsStocked k n c
    → IsStocked (k + steps) n (turn steps c)
unfolding turn
turn-IsStocked steps k n c h s v = record {
  turned = turn-IsTurned steps k n c h s v.turned;
  flags = λ i q e.
      let (p, found, moved) =
        move_plates-get_elem? steps (length c.plates) i c.plates c.position_plate_id_map q e in
      let flag = v.flags i p found in ground arith;
  tidy = λ i q e.
      let (p, found, moved) =
        move_plates-get_elem? steps (length c.plates) i c.plates c.position_plate_id_map q e in
      let t = v.tidy i p found in
      subst IsTidy moved (record {
        free_recipe = t.free_recipe;
        free_steps = t.free_steps;
        free_unfinished = t.free_unfinished;
        carries = t.carries;
      });
  within = v.within;
  distinct = v.distinct;
  count = v.count;
}

-- ===== src/Conveyor/Movement.antt =====
-- The loop of move_conveyor over the plates (conveyor.cpp).
use opcua_cps_kitchen.Base.{ℕ, ◌+◌, ◌%◌, List, [], ◌∷◌, length, put, u32_size}
use opcua_cps_kitchen.Conveyor.State.{Plate, Conveyor}

-- `steps_t` and `position_t` are 32 bits wide, so the sum wraps before the remainder is taken.
unfoldable pub new_position : ℕ → ℕ → Plate → ℕ
new_position steps size p = (p.position + steps) % u32_size % size

unfoldable pub move_plates : ℕ → ℕ → List Plate → List (ℕ × ℕ) → List Plate × List (ℕ × ℕ)
unfolding new_position
move_plates steps size [] m = ([], m)
move_plates steps size (p ∷ ps) m =
    let position = new_position steps size p in
    let (moved, m') = move_plates steps size ps (put position p.id m) in
    (record p { position = position } ∷ moved, m')

unfoldable pub turn : ℕ → Conveyor → Conveyor
unfolding move_plates
turn steps c =
    let (moved, m) = move_plates steps (length c.plates) c.plates c.position_plate_id_map in
    record c { plates = moved; position_plate_id_map = m }

-- ===== src/Conveyor/Stock/Deliveries.antt =====
-- The stock and the deliveries (deliver_finished_order of conveyor.cpp).
use opcua_cps_kitchen.Base.{
  ℕ, ◌≡◌, inl, inr, Bool, true, false, not, ◌&&◌, some, List, [], ◌∷◌, get_elem?, find, ◌==◌,
  if◌then◌else◌, Bool-cases, Option-cases,
}
use opcua_cps_kitchen.Conveyor.State.{Plate, Conveyor}
use opcua_cps_kitchen.Conveyor.Plates.{halt, clear_plate, set_target_position}
use opcua_cps_kitchen.Conveyor.Delivery.{
  Flagged, failed, bad_size, bad_type, result, has_no_target, Instructed, Surroundings,
  receive_completed_order, receive_robot_task, deliver_to_robot, output_position, deliver_plate,
  deliver_plates,
}
use opcua_cps_kitchen.Conveyor.Stock.{IsStocked}
use opcua_cps_kitchen.Conveyor.Stock.Updates.{clear_plate-IsStocked, set_target_position-IsStocked}
use opcua_cps_kitchen.Conveyor.Stock.Handlers.{halt-IsStocked, with_plate-IsStocked}

-- A plate that the conveyor finds by its number.
module _ (k n i : ℕ) (p : Plate) (c : Conveyor) (e : get_elem? c.plates i ≡ some p)
    (v : IsStocked k n c) where
  halted_target : IsStocked k n (set_target_position i 0 p (halt c))
  unfolding halt
  halted_target = set_target_position-IsStocked k n i 0 p (halt c) e (halt-IsStocked k n c v)

  completed-IsStocked : (answer : Flagged) → IsStocked k n (receive_completed_order answer i p c)
  unfolding receive_completed_order
  completed-IsStocked failed = v
  completed-IsStocked bad_size = halt-IsStocked k n c v
  completed-IsStocked bad_type = halt-IsStocked k n c v
  completed-IsStocked (result true) = clear_plate-IsStocked k n i p c e v
  completed-IsStocked (result false) = v

  result-IsStocked :
      (position : ℕ) (b : Bool)
      → IsStocked k n (
          if b
          then if p.position == position
            then clear_plate i p c
            else set_target_position i 0 p (halt c)
          else set_target_position i 0 p c)
  result-IsStocked position false = set_target_position-IsStocked k n i 0 p c e v
  result-IsStocked position true = elim (Bool-cases (p.position == position)) [
    | inl same ↦ rw same (clear_plate-IsStocked k n i p c e v)
    | inr other ↦ rw other halted_target
  ]

  task-IsStocked : (answer : Instructed) → IsStocked k n (receive_robot_task answer i p c)
  unfolding receive_robot_task
  task-IsStocked failed = set_target_position-IsStocked k n i 0 p c e v
  task-IsStocked bad_size = halted_target
  task-IsStocked bad_type = halted_target
  task-IsStocked (result position b) = result-IsStocked position b

  known-IsStocked :
      (around : Surroundings)
      → IsStocked k n (
          if around.robot_position i == p.position && around.robot_available i
          then receive_robot_task (around.instruct i) i p c
          else set_target_position i 0 p c)
  known-IsStocked around =
      elim (Bool-cases (around.robot_position i == p.position && around.robot_available i)) [
        | inl there ↦ rw there (task-IsStocked (around.instruct i))
        | inr away ↦ rw away (set_target_position-IsStocked k n i 0 p c e v)
      ]

  to_robot-IsStocked : (around : Surroundings) → IsStocked k n (deliver_to_robot around i p c)
  unfolding deliver_to_robot
  to_robot-IsStocked around = elim (Option-cases (find c.position_remote_robot_map p.position)) [
    | inl unknown ↦ rw (unknown, deliver_to_robot) (set_target_position-IsStocked k n i 0 p c e v)
    | inr (x, known) ↦ rw (known, deliver_to_robot) (known-IsStocked around)
  ]

  pub deliver_plate-IsStocked : (around : Surroundings) → IsStocked k n (deliver_plate around i p c)
  unfolding deliver_plate
  deliver_plate-IsStocked around = elim (Bool-cases (has_no_target p)) [
    | inl waits ↦ rw (waits, deliver_plate) v
    | inr goes ↦ elim (Bool-cases (p.dish_finished && p.position == output_position)) [
      | inl out ↦ rw (goes, out, deliver_plate) (completed-IsStocked (around.kitchen i))
      | inr on ↦ elim (Bool-cases (not p.dish_finished && p.position == p.target_position)) [
        | inl there ↦ rw (goes, on, there, deliver_plate) (to_robot-IsStocked around)
        | inr away ↦ rw (goes, on, away, deliver_plate) v
      ]
    ]
  ]

pub deliver_plates-IsStocked :
    (k n : ℕ) (around : Surroundings) (is : List ℕ) (c : Conveyor)
    → IsStocked k n c
    → IsStocked k n (deliver_plates around is c)
unfolding deliver_plates
deliver_plates-IsStocked k n around [] c v = v
deliver_plates-IsStocked k n around (i ∷ is) c v = deliver_plates-IsStocked k n around is _ (
    with_plate-IsStocked k n i (λ p. deliver_plate around i p c) c v
      (λ p found. deliver_plate-IsStocked k n i p c found v around))

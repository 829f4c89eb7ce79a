-- ===== src/Examples/Belts.antt =====
-- Runs of a conveyor with three plates (conveyor.cpp).
use opcua_cps_kitchen.Base.{
  ℕ, ◌<◌, ◌≡◌, refl, true, false, not, none, some, get_elem?, set_elem, find, length, ◌≤◌, All,
  arith,
}
use opcua_cps_kitchen.Robot.Methods.{Handover}
use opcua_cps_kitchen.Conveyor.State.{Plate, retrieval, Conveyor, new_plate, new_conveyor}
use opcua_cps_kitchen.Conveyor.Plates.{contains, place_dish, fill}
use opcua_cps_kitchen.Conveyor.Retrieval.{handed, handle_finished_order_notification}
use opcua_cps_kitchen.Conveyor.Delivery.{
  failed, result, Surroundings, output_position, deliver_plates,
}
use opcua_cps_kitchen.Conveyor.Loop.{
  Answers, run_belt_timer, BeltReach, here, next, notified, fired,
}
use opcua_cps_kitchen.Conveyor.Belt.{new_conveyor-IsTurned}
use opcua_cps_kitchen.Conveyor.Stock.{IsStocked}
use opcua_cps_kitchen.Conveyor.Stock.Updates.{fill-IsStocked}
use opcua_cps_kitchen.Conveyor.Stock.Reachable.{new_conveyor-IsStocked, BeltReach-IsStocked}
use opcua_cps_kitchen.Conveyor.Stock.Bounds.{BeltReach-bounds}
use opcua_cps_kitchen.Conveyor.Journey.{leaves, deliver_plates-leaves}
use opcua_cps_kitchen.Conveyor.Output.{turns, IsMoved, turns-output, turns-around}

abbrev dish : Handover
dish = record {
  robot_endpoint = "robot";
  robot_position = 1;
  recipe_id = 1;
  processed_steps = 2;
  is_dish_finished = true;
}

-- The kitchen takes every dish, no robot takes a task, and the robot hands its dish over.
abbrev around : Surroundings
around = record {
  kitchen = λ i. result true;
  robot_position = λ i. i;
  robot_available = λ i. false;
  instruct = λ i. failed;
}

abbrev answers : Answers
answers = record {
  stopped = λ i. false;
  stopped_later = λ i. false;
  around = around;
  replies = λ i. some (handed dish);
  choices = λ i. failed;
}

-- The robot at position 1 notifies the conveyor, which then takes the dish.
abbrev told : Conveyor
told = handle_finished_order_notification (λ i. false) true 1 "robot" (new_conveyor 3)

told_runs : told.running ≡ true
unfolding handle_finished_order_notification new_conveyor find
told_runs = refl

told_waits : told.timer ≡ some retrieval
unfolding handle_finished_order_notification new_conveyor find
told_waits = refl

abbrev took : Conveyor
took = run_belt_timer answers retrieval (record told { timer = none })

took_reach : BeltReach (new_conveyor 3) took
took_reach =
    next (next here (notified (λ i. false) true 1 "robot" new_runs))
      (fired answers retrieval told_runs told_waits)
  where
    new_runs : (new_conveyor 3).running ≡ true
    new_runs = unfold new_conveyor in refl

BeltReach-IsStocked_example : (k : ℕ) × IsStocked k 3 took
BeltReach-IsStocked_example = BeltReach-IsStocked 3 took (omega arith) (omega arith) took_reach

BeltReach-bounds_example :
    (length took.occupied_plates ≤ 3)
    × (took.occupied_plates_count ≡ length took.occupied_plates)
    × All (λ p. p.position < 3) took.plates
BeltReach-bounds_example = BeltReach-bounds 3 took (omega arith) (omega arith) took_reach

-- A belt with a finished dish at the output.
abbrev laden : Conveyor
laden = fill 0 dish (new_plate 0) (new_conveyor 3)

first_plate : get_elem? (new_conveyor 3).plates 0 ≡ some (new_plate 0)
unfolding new_conveyor
first_plate = refl

laden-IsStocked : IsStocked 0 3 laden
laden-IsStocked =
    fill-IsStocked 0 3 0 dish (new_plate 0) (new_conveyor 3) first_plate (λ e. ground arith)
      (new_conveyor-IsStocked 3)

abbrev laden_plate : Plate
laden_plate = record {
  id = 0;
  position = 0;
  placed_recipe_id = 1;
  processed_steps = 2;
  occupied = true;
  dish_finished = true;
  target_position = 0;
}

laden_first : get_elem? laden.plates 0 ≡ some laden_plate
unfolding fill new_conveyor set_elem place_dish
laden_first = refl

deliver_plates-leaves_example :
    contains 0 (deliver_plates around laden.occupied_plates laden).occupied_plates
    ≡ not (leaves around laden.position_remote_robot_map 0 laden_plate)
deliver_plates-leaves_example =
    deliver_plates-leaves 0 3 around 0 laden_plate laden laden-IsStocked laden_first refl

turns-output_example :
    (j : ℕ) × (j < 3)
    × (q : Plate) × (get_elem? (turns j (new_conveyor 3)).plates 0 ≡ some q)
    × (q.position ≡ output_position)
    × IsMoved (new_plate 0) q
turns-output_example =
    turns-output 0 3 0 (new_conveyor 3) (new_plate 0) (omega arith) (new_conveyor-IsTurned 3)
      first_plate

turns-around_example :
    (get_elem? (turns 3 (new_conveyor 3)).plates 0 ≡ some (new_plate 0))
    × (find (turns 3 (new_conveyor 3)).position_plate_id_map 0 ≡ some 0)
    × (find (new_conveyor 3).position_plate_id_map 0 ≡ some 0)
unfolding new_plate
turns-around_example =
    turns-around 0 3 0 (new_conveyor 3) (new_plate 0) (omega arith) (new_conveyor-IsTurned 3)
      first_plate

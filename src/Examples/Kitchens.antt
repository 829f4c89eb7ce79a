-- ===== src/Examples/Kitchens.antt =====
-- Runs of the kitchen (kitchen.cpp).
use opcua_cps_kitchen.Base.{refl, true, false, none, some, find, put, [], ◌∷◌, arith}
use opcua_cps_kitchen.Robot.Work.{failed, answered, returned}
use opcua_cps_kitchen.Conveyor.Delivery.{result}
use opcua_cps_kitchen.Kitchen.State.{KitchenRobot, random_order, next_robot, Kitchen, new_kitchen}
use opcua_cps_kitchen.Kitchen.Placing.{remove_stopped_robots}
use opcua_cps_kitchen.Kitchen.Robots.{RobotAnswers, handle_receive_next_robot}
use opcua_cps_kitchen.Kitchen.Loop.{
  place_random_order, receive_next_robot, KitchenAnswers, run_kitchen_task, run, places, answers,
  KitchenReach, here, next,
}
use opcua_cps_kitchen.Kitchen.Orders.{IsCountedOnce}
use opcua_cps_kitchen.Kitchen.Assignment.{is_assigned, handle_receive_next_robot-IsCountedOnce}
use opcua_cps_kitchen.Kitchen.Account.{IsKept}
use opcua_cps_kitchen.Kitchen.Account.Reachable.{KitchenReach-IsKept}
use opcua_cps_kitchen.Kitchen.Drain.{IsDrained, expirations-drains}

abbrev robot_takes : RobotAnswers
robot_takes = record {
  starts = true;
  position = some 5;
  available = some true;
  instruct = result 5 true;
}

-- Two orders come at once, and the first is answered and assigned.
abbrev two_orders : Kitchen
two_orders = record new_kitchen { tasks = random_order ∷ random_order ∷ [] }

abbrev placed : Kitchen
placed = record new_kitchen {
  tasks = random_order ∷ [];
  received_orders = 1;
  placing_gate_open = false;
  placing_timer = true;
  awaiting = 1 ∷ [];
}

abbrev queued : Kitchen
queued = record placed { tasks = []; placing_queue = 1 }

abbrev named : Kitchen
named = record queued { tasks = next_robot 5 "opc.tcp://a" 1 ∷ []; awaiting = [] }

abbrev hired : KitchenRobot
hired = record {
  endpoint = "opc.tcp://a";
  cached_position = 5;
  running = true;
  initial_subscription = true;
}

abbrev assigned : Kitchen
assigned = record named {
  tasks = [];
  assigned_orders = 1;
  position_remote_robot_map = (5, hired) ∷ [];
}

abbrev replies : KitchenAnswers
replies = record {
  drawn = 1;
  rounds = failed ∷ answered (returned true) ∷ [];
  robot = robot_takes;
  first_tells = none;
  second_tells = none;
}

assigning_run : KitchenReach new_kitchen assigned
unfolding run_kitchen_task place_random_order receive_next_robot new_kitchen find put
assigning_run =
    next
      (next
        (next
          (next
            (next
              (next here (places [] {j = record new_kitchen { tasks = random_order ∷ [] }} refl))
              (places [] {j = two_orders} refl))
            (run replies random_order (random_order ∷ []) {j = placed} refl refl refl))
          (run replies random_order [] {j = queued} refl refl refl))
        (answers 5 "opc.tcp://a" 1 [] {j = named} refl refl))
      (run replies (next_robot 5 "opc.tcp://a" 1) [] refl refl refl)

KitchenReach-IsKept_example : IsKept assigned
KitchenReach-IsKept_example = KitchenReach-IsKept assigning_run

handle_receive_next_robot-IsCountedOnce_example :
    IsCountedOnce
      (is_assigned robot_takes 5 "opc.tcp://a" (remove_stopped_robots named))
      named
      (handle_receive_next_robot robot_takes 5 "opc.tcp://a" named)
handle_receive_next_robot-IsCountedOnce_example =
    handle_receive_next_robot-IsCountedOnce robot_takes 5 "opc.tcp://a" named

expirations-drains_example :
    (j : Kitchen) × IsDrained ((2, failed ∷ answered (returned true) ∷ []) ∷ []) queued j
unfolding new_kitchen
expirations-drains_example =
    expirations-drains ((2, failed ∷ answered (returned true) ∷ []) ∷ []) queued refl refl
      (omega arith) (tt, tt)

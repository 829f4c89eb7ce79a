-- ===== src/Kitchen/Placing.antt =====
-- How the kitchen places orders (kitchen.cpp).
use opcua_cps_kitchen.Base.{ℕ, zero, suc, Bool, true, false, List, [], ◌∷◌, ◌++◌, if◌then◌else◌}
use opcua_cps_kitchen.Robot.State.{Outcome, ok, fault, blocked, ◌>>=◌}
use opcua_cps_kitchen.Robot.Work.{
  Reply, bad_size, bad_type, returned, Attempt, failed, stopped, answered, add32,
}
use opcua_cps_kitchen.Kitchen.State.{KitchenRobot, Kitchen}

-- The loop over the robots of the map.
unfoldable pub running_robots : List (ℕ × KitchenRobot) → List (ℕ × KitchenRobot)
running_robots [] = []
running_robots ((position, r) ∷ m) =
    let rest = running_robots m in if r.running then (position, r) ∷ rest else rest

unfoldable pub remove_stopped_robots : Kitchen → Kitchen
unfolding running_robots
remove_stopped_robots k = record k {
  position_remote_robot_map = running_robots k.position_remote_robot_map;
}

-- The part of `stop` that the handlers see.
unfoldable pub halt : Kitchen → Kitchen
halt k = record k { running = false }

-- increment_orders_counter, for each counter.
unfoldable pub count_received : Kitchen → Kitchen
count_received k = record k { received_orders = add32 k.received_orders 1 }

unfoldable pub count_assigned : Kitchen → Kitchen
count_assigned k = record k { assigned_orders = add32 k.assigned_orders 1 }

unfoldable pub count_dropped : Kitchen → Kitchen
count_dropped k = record k { dropped_orders = add32 k.dropped_orders 1 }

unfoldable pub count_completed : Kitchen → Kitchen
count_completed k = record k { completed_orders = add32 k.completed_orders 1 }

unfoldable pub choose_next_robot_called : Reply → Kitchen → Kitchen
unfolding halt
choose_next_robot_called bad_size k = halt k
choose_next_robot_called bad_type k = halt k
choose_next_robot_called (returned b) k = k

-- The loop that calls the controller: a round fails and waits for a connection, finds the kitchen
-- stopped, or is answered.
unfoldable pub call_controller : ℕ → List Attempt → Kitchen → Outcome Kitchen
unfolding halt choose_next_robot_called
call_controller id [] k = fault blocked
call_controller id (failed ∷ rounds) k = call_controller id rounds k
call_controller id (stopped ∷ rounds) k = ok (halt k)
call_controller id (answered p ∷ rounds) k =
    ok (choose_next_robot_called p (record k { awaiting = k.awaiting ++ id ∷ [] }))

-- The lambda do_place, with the recipe id that it draws.
unfoldable pub do_place : ℕ → List Attempt → Kitchen → Outcome Kitchen
unfolding count_received call_controller
do_place id rounds k = call_controller id rounds (count_received k)

unfoldable pub arm_placing_gate : Kitchen → Kitchen
arm_placing_gate k = record k { placing_timer = true }

-- An order is placed, and the gate stays closed until its timer is over.
unfoldable pub place_and_arm : ℕ → List Attempt → Kitchen → Outcome Kitchen
unfolding do_place arm_placing_gate
place_and_arm id rounds k = do placed ← do_place id rounds k; ok (arm_placing_gate placed)

unfoldable pub pass_gate : Bool → ℕ → List Attempt → Kitchen → Outcome Kitchen
unfolding place_and_arm
pass_gate true id rounds k = place_and_arm id rounds (record k { placing_gate_open = false })
pass_gate false id rounds k = ok (record k { placing_queue = suc k.placing_queue })

unfoldable pub handle_random_order_request : ℕ → List Attempt → Kitchen → Outcome Kitchen
unfolding remove_stopped_robots pass_gate
handle_random_order_request id rounds k =
    pass_gate k.placing_gate_open id rounds (remove_stopped_robots k)

unfoldable pub next_placing : ℕ → ℕ → List Attempt → Kitchen → Outcome Kitchen
unfolding place_and_arm
next_placing zero id rounds k = ok (record k { placing_gate_open = true })
next_placing (suc n) id rounds k = place_and_arm id rounds (record k { placing_queue = n })

-- The handler of the placing timer.
unfoldable pub placing_expired : ℕ → List Attempt → Kitchen → Outcome Kitchen
unfolding next_placing
placing_expired id rounds k =
    next_placing k.placing_queue id rounds (record k { placing_timer = false })

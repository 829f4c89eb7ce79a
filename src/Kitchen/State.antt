-- ===== src/Kitchen/State.antt =====
-- The state of the kitchen (kitchen.hpp). The members that hold clients, threads and the OPC UA
-- server are left out. The queue of the placing gate holds one and the same closure, so it is how
-- many there are.
use opcua_cps_kitchen.Base.{ℕ, String, Bool, true, false, List, []}

-- remote_robot.
pub record KitchenRobot : Type 0 where
  pub endpoint : String
  pub cached_position : ℕ
  pub running : Bool
  pub initial_subscription : Bool

unfoldable pub new_kitchen_robot : String → ℕ → KitchenRobot
new_kitchen_robot endpoint position = record {
  endpoint = endpoint;
  cached_position = position;
  running = true;
  initial_subscription = true;
}

-- What is posted to the io_context.
pub data KitchenTask : Type 0 where
  completed_order : KitchenTask
  random_order : KitchenTask
  next_robot : ℕ → String → ℕ → KitchenTask
  reflect_swap : ℕ → ℕ → KitchenTask

-- `awaiting` are the calls of CHOOSE_NEXT_ROBOT that the controller has not answered yet, by their
-- recipe ids, the oldest first.
pub record Kitchen : Type 0 where
  pub position_remote_robot_map : List (ℕ × KitchenRobot)
  pub received_orders : ℕ
  pub assigned_orders : ℕ
  pub dropped_orders : ℕ
  pub completed_orders : ℕ
  pub placing_gate_open : Bool
  pub placing_queue : ℕ
  pub placing_timer : Bool
  pub awaiting : List ℕ
  pub tasks : List KitchenTask
  pub running : Bool

unfoldable pub new_kitchen : Kitchen
new_kitchen = record {
  position_remote_robot_map = [];
  received_orders = 0;
  assigned_orders = 0;
  dropped_orders = 0;
  completed_orders = 0;
  placing_gate_open = true;
  placing_queue = 0;
  placing_timer = false;
  awaiting = [];
  tasks = [];
  running = true;
}

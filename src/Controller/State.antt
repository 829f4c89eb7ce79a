-- ===== src/Controller/State.antt =====
-- The state of the controller (controller.hpp). The members that hold clients, threads and the OPC
-- UA server are left out. The calls of other agents' method nodes are listed, the newest first.
use opcua_cps_kitchen.Base.{ℕ, String, Bool, true, false, List, []}
use opcua_cps_kitchen.Capabilities.{Capabilities}
use opcua_cps_kitchen.Recipe.{RecipeMap}
use opcua_cps_kitchen.Mape.{Policy}

-- remote_robot.
pub record RemoteRobot : Type 0 where
  pub endpoint : String
  pub position : ℕ
  pub capabilities : Capabilities
  pub running : Bool
  pub adaptivity_is_pending : Bool
  pub initial_position_subscription : Bool
  pub initial_capabilities_subscription : Bool

unfoldable pub new_remote_robot : String → ℕ → Capabilities → RemoteRobot
new_remote_robot endpoint position caps = record {
  endpoint = endpoint;
  position = position;
  capabilities = caps;
  running = true;
  adaptivity_is_pending = false;
  initial_position_subscription = true;
  initial_capabilities_subscription = true;
}

-- An entry of pending_swaps_: the swap_key with the swap_state.
pub record PendingSwap : Type 0 where
  pub lower : ℕ
  pub greater : ℕ
  pub ack_from_lower_position : Bool
  pub ack_from_greater_position : Bool

-- next_robot_receiver, as its key in the map.
pub record Receiver : Type 0 where
  pub endpoint : String
  pub kind : String

-- A call of another agent. The robot that is called is given by its key in the map.
pub data Call : Type 0 where
  switch_position : ℕ → ℕ → Call
  reconfigure : ℕ → String → Call
  commit_new_position : ℕ → Call
  receive_next_robot : Receiver → ℕ → String → ℕ → Call

-- What is posted to the io_context.
pub data ControllerTask : Type 0 where
  registration : String → ℕ → Capabilities → ControllerTask
  next_robot_request : ℕ → ℕ → Receiver → ControllerTask
  position_swapped : ℕ → ℕ → ControllerTask
  capabilities_reconfigured : ℕ → ControllerTask

-- The robots come by falling positions, as in the map of the code; the swaps and the receivers come
-- in any order.
pub record Controller : Type 0 where
  pub position_remote_robot_map : List (ℕ × RemoteRobot)
  pub pending_swaps : List PendingSwap
  pub next_robot_receivers : List Receiver
  pub registered_robots : ℕ
  pub recipes : RecipeMap
  pub kitchen_mape : Policy
  pub tasks : List ControllerTask
  pub calls : List Call
  pub running : Bool

unfoldable pub new_controller : RecipeMap → Policy → Controller
new_controller recipes policy = record {
  position_remote_robot_map = [];
  pending_swaps = [];
  next_robot_receivers = [];
  registered_robots = 0;
  recipes = recipes;
  kitchen_mape = policy;
  tasks = [];
  calls = [];
  running = true;
}

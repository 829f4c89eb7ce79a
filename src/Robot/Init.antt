-- ===== src/Robot/Init.antt =====
-- The robot that the constructor leaves (robot::robot of robot.cpp), without the set-up of the
-- OPC UA server, the discovery and the clients.
use opcua_cps_kitchen.Base.{ℕ, String, true, false, Option, none, []}
use opcua_cps_kitchen.Actions.{RobotTool}
use opcua_cps_kitchen.Capabilities.{Capabilities}
use opcua_cps_kitchen.Recipe.{RecipeMap}
use opcua_cps_kitchen.Robot.State.{
  available, Attributes, Robot, Outcome, invalid_profile, ◌>>=◌, or_fault,
}
use opcua_cps_kitchen.Robot.Work.{set_current_and_last_equipped_tool}

unfoldable pub initial_attributes : ℕ → Capabilities → RobotTool → Attributes
initial_attributes position caps tool = record {
  position = position;
  recipe_id = 0;
  dish_name = "None";
  action_name = "None";
  ingredients = "None";
  overall_time = 0;
  current_tool = "";
  last_equipped_tool = tool;
  capabilities = caps;
  processed_steps = 0;
  processable_steps = 0;
  overall_processed_steps = 0;
  overall_processing_steps = 0;
  availability = true;
  new_position_commit_is_pending = false;
}

-- The members before the tool is chosen; `tool` stands for the tool members, which have no value.
unfoldable pub blank_robot : ℕ → ℕ → Capabilities → RecipeMap → RobotTool → Robot
unfolding initial_attributes
blank_robot position size caps recipes tool = record {
  position = position;
  conveyor_size = size;
  server_endpoint = "";
  current_tool = tool;
  order_queue = [];
  current_action_duration = 0;
  action_queue_in_process = [];
  preparing_dish = false;
  already_rearranging = false;
  already_reconfiguring = false;
  is_dish_finished = false;
  running = true;
  pending_pickup = false;
  robot_state = available;
  new_target_position = 0;
  new_capabilities_profile = "";
  recipe_parser = recipes;
  capability_parser = caps;
  attributes = initial_attributes position caps tool;
  timer = none;
  tasks = [];
}

-- The tool is chosen at random, by the index `choice`.
unfoldable pub new_robot :
    (String → Option Capabilities) → RecipeMap → ℕ → ℕ → String → ℕ → RobotTool → Outcome Robot
unfolding blank_robot set_current_and_last_equipped_tool
new_robot profiles recipes choice position file size tool = do
  caps ← or_fault (profiles file) invalid_profile
  set_current_and_last_equipped_tool choice (blank_robot position size caps recipes tool)

-- ===== src/Robot/Work/Adaptation.antt =====
-- How a robot changes its position and its capabilities (robot.cpp). Log lines are left out, and
-- setting an attribute node of the robot's own server is taken to succeed.
use opcua_cps_kitchen.Base.{ℕ, String, true, false, Option, List, [], ◌∷◌, get_elem?}
use opcua_cps_kitchen.Actions.{get_required_tool, get_robot_action, robot_tool_to_string}
use opcua_cps_kitchen.Capabilities.{Capabilities}
use opcua_cps_kitchen.Robot.State.{
  available, Order, Robot, Outcome, ok, invalid_profile, no_capability, ◌>>=◌, or_fault,
}
use opcua_cps_kitchen.Robot.Work.Dish.{Attempt}
use opcua_cps_kitchen.Robot.Work.Orders.{cook_next_order, handle_receive_task}

unfoldable pub move_to_new_position : Robot → Robot
move_to_new_position r = record r {
  position = r.new_target_position;
  new_target_position = 0;
  attributes = record (r.attributes) {
    new_position_commit_is_pending = true;
    position = r.new_target_position;
  };
}

unfoldable pub commit_position : Robot → Robot
commit_position r = record r {
  already_rearranging = false;
  robot_state = available;
  attributes = record (r.attributes) {
    new_position_commit_is_pending = false;
    availability = true;
  };
}

unfoldable pub handle_new_position_commit : List Attempt → Robot → Outcome Robot
unfolding commit_position cook_next_order
handle_new_position_commit rounds r = cook_next_order false rounds (commit_position r)

-- `choice` is the random index into the ordered set of capabilities.
unfoldable pub set_current_and_last_equipped_tool : ℕ → Robot → Outcome Robot
set_current_and_last_equipped_tool choice r = do
  name ← or_fault (get_elem? r.capability_parser choice) no_capability
  act ← or_fault (get_robot_action name) no_capability
  ok (record r {
    current_tool = get_required_tool act;
    attributes = record (r.attributes) {
      current_tool = robot_tool_to_string (get_required_tool act);
      last_equipped_tool = get_required_tool act;
    };
  })

-- capability_parser(new_capabilities_profile_) and set_capabilities_node.
unfoldable pub load_profile : Capabilities → Robot → Robot
load_profile caps r = record r {
  capability_parser = caps;
  new_capabilities_profile = "";
  attributes = record (r.attributes) { capabilities = caps };
}

unfoldable pub clear_orders : Robot → Robot
clear_orders r = record r {
  order_queue = [];
  attributes = record (r.attributes) { overall_time = 0 };
}

-- The loop over the pending orders, under the lock.
unfoldable pub receive_again : List Attempt → List Order → Robot → Outcome Robot
unfolding handle_receive_task
receive_again rounds [] r = ok r
receive_again rounds (o ∷ os) r = do
  r' ← handle_receive_task true rounds o.recipe_id o.overall_processed_steps r
  receive_again rounds os r'

unfoldable pub end_reconfiguration : Robot → Robot
end_reconfiguration r = record r {
  already_reconfiguring = false;
  robot_state = available;
  attributes = record (r.attributes) { availability = true };
}

-- The part of complete_reconfiguration under the lock.
unfoldable pub reconfigure_locked :
    (String → Option Capabilities) → ℕ → List Attempt → Robot → Outcome Robot
unfolding load_profile set_current_and_last_equipped_tool clear_orders receive_again
    end_reconfiguration
reconfigure_locked profiles choice rounds r = do
  caps ← or_fault (profiles r.new_capabilities_profile) invalid_profile
  equipped ← set_current_and_last_equipped_tool choice (load_profile caps r)
  received ← receive_again rounds r.order_queue (clear_orders equipped)
  ok (end_reconfiguration received)

unfoldable pub complete_reconfiguration :
    (String → Option Capabilities) → ℕ → List Attempt → Robot → Outcome Robot
unfolding reconfigure_locked cook_next_order
complete_reconfiguration profiles choice rounds r = do
  r' ← reconfigure_locked profiles choice rounds r
  cook_next_order false rounds r'

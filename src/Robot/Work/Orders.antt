-- ===== src/Robot/Work/Orders.antt =====
-- The orders of a robot, and the requests that go before them (robot.cpp). Log lines are left out,
-- and setting an attribute node of the robot's own server is taken to succeed.
use opcua_cps_kitchen.Base.{
  ℕ, ◌*◌, ◌%◌, Bool, true, false, List, [], ◌∷◌, ◌++◌, if◌then◌else◌, length, u32_size,
}
use opcua_cps_kitchen.Actions.{RobotAction}
use opcua_cps_kitchen.Recipe.{Recipe, has_recipe, get_recipe}
use opcua_cps_kitchen.Robot.Distance.{distance}
use opcua_cps_kitchen.Robot.State.{
  RobotState, available, rearranging, reconfiguring, Order, completing, moving, Robot, Outcome, ok,
  fault, unknown_recipe, deadlock, ◌>>=◌, or_fault,
}
use opcua_cps_kitchen.Robot.Work.Timing.{time_unit, move_time, arm, pop_steps}
use opcua_cps_kitchen.Robot.Work.Dish.{
  compute_overall_time_and_determine_last_tool, determine_next_action, Attempt,
}

unfoldable pub handle_switch_position : Robot → Robot
unfolding arm
handle_switch_position r =
    if r.already_rearranging
    then r
    else arm
        (moving (distance r.conveyor_size r.position r.new_target_position * move_time * time_unit))
        (record r { already_rearranging = true })

unfoldable pub handle_reconfiguration : Robot → Robot
unfolding arm
handle_reconfiguration r =
    if r.already_reconfiguring
    then r
    else arm completing (record r { already_reconfiguring = true })

unfoldable pub start_order : Order → List Order → Robot → Robot
start_order o os r = record r {
  preparing_dish = true;
  order_queue = os;
  action_queue_in_process = o.action_queue;
  attributes = record (r.attributes) {
    recipe_id = o.recipe_id;
    overall_processed_steps = o.overall_processed_steps;
    overall_processing_steps = o.overall_processing_steps;
    processable_steps = o.processable_steps;
  };
}

unfoldable pub name_dish : Recipe → Robot → Robot
name_dish c r = record r { attributes = record (r.attributes) { dish_name = c.dish_name } }

unfoldable pub take_order : List Order → List Attempt → Robot → Outcome Robot
unfolding determine_next_action start_order name_dish
take_order [] rounds r = ok (record r { preparing_dish = false })
take_order (o ∷ os) rounds r = do
  current ← or_fault (get_recipe r.recipe_parser o.recipe_id) unknown_recipe
  determine_next_action rounds (name_dish current (start_order o os r))

unfoldable pub by_state : RobotState → List Attempt → Robot → Outcome Robot
unfolding take_order handle_switch_position handle_reconfiguration
by_state available rounds r = take_order r.order_queue rounds r
by_state rearranging rounds r = ok (handle_switch_position r)
by_state reconfiguring rounds r = ok (handle_reconfiguration r)

-- `held` tells whether the thread already holds state_mutex_, which is not recursive.
unfoldable pub cook_next_order : Bool → List Attempt → Robot → Outcome Robot
unfolding by_state
cook_next_order held rounds r = if held then fault deadlock else by_state r.robot_state rounds r

-- The order that handle_receive_task appends.
abbrev pub new_order : ℕ → ℕ → ℕ → List RobotAction → Robot → Order
new_order id processed total q r = record {
  recipe_id = id;
  overall_processed_steps = processed;
  overall_processing_steps = total;
  processable_steps = (compute_overall_time_and_determine_last_tool q r).1;
  action_queue = q;
}

unfoldable pub enqueue : ℕ → ℕ → ℕ → List RobotAction → Robot → Robot
unfolding compute_overall_time_and_determine_last_tool
enqueue id processed total q r =
    let (r', processable) = compute_overall_time_and_determine_last_tool q r in
    record r' { order_queue = r.order_queue ++ new_order id processed total q r ∷ [] }

unfoldable pub cook_unless_busy : Bool → List Attempt → Robot → Outcome Robot
unfolding cook_next_order
cook_unless_busy held rounds r = if r.preparing_dish then ok r else cook_next_order held rounds r

unfoldable pub accept_task : Bool → List Attempt → ℕ → ℕ → Robot → Outcome Robot
unfolding enqueue pop_steps cook_unless_busy
accept_task held rounds id processed r = do
  incoming ← or_fault (get_recipe r.recipe_parser id) unknown_recipe
  q ← pop_steps processed incoming.action_queue
  cook_unless_busy held rounds (enqueue id processed (length incoming.action_queue % u32_size) q r)

unfoldable pub handle_receive_task : Bool → List Attempt → ℕ → ℕ → Robot → Outcome Robot
unfolding accept_task
handle_receive_task held rounds id processed r =
    if has_recipe r.recipe_parser id then accept_task held rounds id processed r else ok r

-- ===== src/Examples/Robots.antt =====
-- Runs of a robot on concrete inputs (robot.cpp).
use opcua_cps_kitchen.Base.{
  ◌+◌, ◌≡◌, refl, String, true, false, Option, none, some, [], ◌∷◌, ◌||◌, if◌then◌else◌, flag,
  arith,
}
use opcua_cps_kitchen.Actions.{
  get_required_tool, cutter, same_tool, get_robot_action, robot_tool_to_string,
}
use opcua_cps_kitchen.Capabilities.{Capabilities, is_capable_to}
use opcua_cps_kitchen.Recipe.{RecipeMap, get_recipe, has_recipe}
use opcua_cps_kitchen.Examples.Kitchen.{pie, cutting, baking}
use opcua_cps_kitchen.Robot.State.{
  available, target, moving, Robot, ok, passing, receive, rearranging, reconfiguring,
}
use opcua_cps_kitchen.Robot.Distance.{distance}
use opcua_cps_kitchen.Robot.Work.{handle_receive_task}
use opcua_cps_kitchen.Robot.Methods.{uint32, good, receive_task, switch_position}
use opcua_cps_kitchen.Robot.Init.{new_robot}
use opcua_cps_kitchen.Robot.Loop.{
  run_task, set_target, task, call_receive_task, call_switch_position, Reach, here, next,
  count_tasks, is_cook,
}
use opcua_cps_kitchen.Robot.Activity.{waits}
use opcua_cps_kitchen.Robot.Activity.Reachable.{Reach-activity}
use opcua_cps_kitchen.Robot.Load.{AreTimed, Reports}
use opcua_cps_kitchen.Robot.Load.Steps.{Reach-Reports, Reach-idle}

abbrev pub recipes : RecipeMap
recipes = (1, pie) ∷ []

abbrev pub profiles : String → Option Capabilities
profiles name = some ("cut" ∷ [])

-- The robot at position 3 of a belt of 10 places that the constructor leaves.
abbrev pub fresh : Robot
fresh = record {
  position = 3;
  conveyor_size = 10;
  server_endpoint = "";
  current_tool = cutter;
  order_queue = [];
  current_action_duration = 0;
  action_queue_in_process = [];
  preparing_dish = false;
  already_rearranging = false;
  already_reconfiguring = false;
  is_dish_finished = false;
  running = true;
  pending_pickup = false;
  robot_state = available;
  new_target_position = 0;
  new_capabilities_profile = "";
  recipe_parser = recipes;
  capability_parser = "cut" ∷ [];
  attributes = record {
    position = 3;
    recipe_id = 0;
    dish_name = "None";
    action_name = "None";
    ingredients = "None";
    overall_time = 0;
    current_tool = "CUTTER";
    last_equipped_tool = cutter;
    capabilities = "cut" ∷ [];
    processed_steps = 0;
    processable_steps = 0;
    overall_processed_steps = 0;
    overall_processing_steps = 0;
    availability = true;
    new_position_commit_is_pending = false;
  };
  timer = none;
  tasks = [];
}

pub fresh_starts : new_robot profiles recipes 0 3 "robot" 10 cutter ≡ ok fresh
unfolding new_robot get_robot_action robot_tool_to_string get_required_tool
fresh_starts = refl

-- It is given the first step of a pie, and begins to cut.
abbrev pub asked : Robot
asked = record fresh { tasks = receive 1 0 ∷ [] }

pub asked_answers :
    receive_task (uint32 1 ∷ uint32 0 ∷ uint32 3 ∷ []) fresh ≡ ok (asked, good (3, true))
unfolding receive_task get_recipe is_capable_to
asked_answers = refl

abbrev cutting_robot : Robot
cutting_robot = record fresh {
  preparing_dish = true;
  action_queue_in_process = cutting ∷ baking ∷ [];
  current_action_duration = 3;
  timer = some passing;
  attributes = record (fresh.attributes) {
    recipe_id = 1;
    dish_name = "pie";
    action_name = "cut";
    ingredients = "leek";
    overall_time = 3;
    overall_processing_steps = 2;
    processable_steps = 1;
  };
}

cuts : run_task [] (receive 1 0) (record asked { tasks = [] }) ≡ ok cutting_robot
unfolding run_task handle_receive_task has_recipe get_recipe is_capable_to same_tool
cuts = refl

pub run : Reach profiles fresh cutting_robot
run =
    next (next here (call_receive_task _ _ asked_answers)) (task [] (receive 1 0) [] refl refl cuts)

recipes-AreTimed : AreTimed recipes
unfolding get_recipe
recipes-AreTimed id c e = ground arith

Reach-activity_example :
    (waits cutting_robot.timer
        + flag cutting_robot.pending_pickup
        + count_tasks is_cook cutting_robot.tasks
        + flag cutting_robot.attributes.new_position_commit_is_pending
      ≡ (if cutting_robot.preparing_dish
            || (cutting_robot.already_rearranging || cutting_robot.already_reconfiguring)
          then 1
          else 0))
    × (cutting_robot.already_rearranging ≡ true → cutting_robot.robot_state ≡ rearranging)
    × (cutting_robot.already_reconfiguring ≡ true → cutting_robot.robot_state ≡ reconfiguring)
Reach-activity_example =
    Reach-activity profiles recipes 0 3 "robot" 10 cutter fresh cutting_robot fresh_starts run refl

Reach-Reports_example : Reports cutting_robot
Reach-Reports_example =
    Reach-Reports profiles recipes 0 3 "robot" 10 cutter fresh cutting_robot recipes-AreTimed
      fresh_starts run refl

-- It is sent to position 5 and moves, with no order.
abbrev sent : Robot
sent = record fresh {
  robot_state = rearranging;
  tasks = target 5 ∷ [];
  attributes = record (fresh.attributes) { availability = false };
}

sent_answers : sent ≡ (switch_position true (uint32 5 ∷ []) fresh).0
unfolding switch_position
sent_answers = refl

abbrev moving_robot : Robot
moving_robot = record sent {
  new_target_position = 5;
  already_rearranging = true;
  timer = some (moving 100);
  tasks = [];
}

moves : run_task [] (target 5) (record sent { tasks = [] }) ≡ ok moving_robot
unfolding run_task set_target distance
moves = refl

move : Reach profiles fresh moving_robot
move =
    next (next here (call_switch_position true _ sent_answers))
      (task [] (target 5) [] refl refl moves)

Reach-idle_example :
    (moving_robot.attributes.overall_time ≡ 0)
    × (moving_robot.attributes.last_equipped_tool ≡ moving_robot.current_tool)
Reach-idle_example =
    Reach-idle profiles recipes 0 3 "robot" 10 cutter fresh moving_robot recipes-AreTimed
      fresh_starts move refl refl refl

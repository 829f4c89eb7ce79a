-- ===== src/Examples/Controllers.antt =====
-- Runs of a controller with two robots (controller.cpp).
use opcua_cps_kitchen.Base.{
  ℕ, ◌%◌, ◌≤◌, ◌≡◌, ◌≢◌, ◌↔◌, refl, Bool, erase, true, false, some, List, [], ◌∷◌, find, length,
  u32_size, arith,
}
use opcua_cps_kitchen.Capabilities.{is_capable_to}
use opcua_cps_kitchen.Recipe.{Recipe, RecipeMap, get_recipe}
use opcua_cps_kitchen.Robot.State.{ok}
use opcua_cps_kitchen.Mape.{
  find_robot, on_new_order, Profiles, RobotView, Policy, simple_rearranging, kitchen_mape,
}
use opcua_cps_kitchen.Conveyor.Delivery.{result}
use opcua_cps_kitchen.Controller.State.{
  Receiver, Call, RemoteRobot, PendingSwap, ControllerTask, commit_new_position, Controller,
  registration, next_robot_request, position_swapped, new_controller, receive_next_robot,
  switch_position,
}
use opcua_cps_kitchen.Controller.Swaps.{AdaptationAnswers}
use opcua_cps_kitchen.Controller.Requests.{
  is_known, views, actions_left, connect_receiver, choose_robot, handle_next_robot_request,
}
use opcua_cps_kitchen.Controller.Methods.{
  Input, uint32, string, strings, register_robot, choose_next_robot, position_changed,
}
use opcua_cps_kitchen.Controller.Loop.{
  RunWhile-Reach, TaskAnswers, run_controller_task, run, registers, asks, moves, ControllerStep,
  RunWhile, start, onward,
}
use opcua_cps_kitchen.Controller.Registry.{tidy_up}
use opcua_cps_kitchen.Controller.Falling.{IsFalling}
use opcua_cps_kitchen.Controller.Answers.{IsAnswered, handle_next_robot_request_answer}
use opcua_cps_kitchen.Controller.Returns.{handle_next_robot_request_returns}
use opcua_cps_kitchen.Controller.Reconfiguring.{reconfiguring_robot_not_sent}
use opcua_cps_kitchen.Controller.Pending.{IsOrderly}
use opcua_cps_kitchen.Controller.Pending.Reachable.{ControllerReach-IsOrderly}
use opcua_cps_kitchen.Controller.Directory.{directory, directory_after, tells_new_places}
use opcua_cps_kitchen.Controller.Directory.Reachable.{controller_refines}
use opcua_cps_kitchen.Examples.Kitchen.{pie, cutting, baking}

abbrev pub pies : RecipeMap
pies = (1, pie) ∷ []

abbrev pub swapping : Policy
swapping rs q = ok (simple_rearranging rs q)

abbrev willing : AdaptationAnswers
willing = record {
  first_available = some true;
  second_available = some true;
  first_call = result true;
  second_call = result true;
}

abbrev pub answers : TaskAnswers
answers = record {
  on_registration = record { starts = true; commit_is_pending = some false; commit = result true };
  on_request = record { receiver_starts = true; adaptations = λ i. willing };
  first_commit = result true;
  second_commit = result true;
}

-- Two robots register, an order makes them swap, and both tell that they have done so.
abbrev pub opened : Controller
opened = new_controller pies swapping

abbrev pub cook_at : ℕ → Bool → Bool → RemoteRobot
cook_at position pending initial = record {
  endpoint = "opc.tcp://a";
  position = position;
  capabilities = "cut" ∷ [];
  running = true;
  adaptivity_is_pending = pending;
  initial_position_subscription = initial;
  initial_capabilities_subscription = true;
}

abbrev pub baker_at : ℕ → Bool → Bool → RemoteRobot
baker_at position pending initial = record {
  endpoint = "opc.tcp://b";
  position = position;
  capabilities = "bake" ∷ [];
  running = true;
  adaptivity_is_pending = pending;
  initial_position_subscription = initial;
  initial_capabilities_subscription = true;
}

abbrev pub guest : Receiver
guest = record { endpoint = "opc.tcp://kitchen"; kind = "KitchenType" }

abbrev cook_registration : List Input
cook_registration = string "opc.tcp://a" ∷ uint32 5 ∷ strings ("cut" ∷ []) ∷ []

abbrev baker_registration : List Input
baker_registration = string "opc.tcp://b" ∷ uint32 2 ∷ strings ("bake" ∷ []) ∷ []

abbrev pub order : List Input
order = uint32 1 ∷ uint32 0 ∷ string "opc.tcp://kitchen" ∷ string "KitchenType" ∷ []

abbrev cook_task : ControllerTask
cook_task = registration "opc.tcp://a" 5 ("cut" ∷ [])

abbrev baker_task : ControllerTask
baker_task = registration "opc.tcp://b" 2 ("bake" ∷ [])

abbrev both_called : Controller
both_called = record opened { tasks = cook_task ∷ baker_task ∷ [] }

abbrev cook_registered : Controller
cook_registered = record opened {
  tasks = baker_task ∷ [];
  position_remote_robot_map = (5, cook_at 5 false true) ∷ [];
  registered_robots = 1;
}

abbrev both_registered : Controller
both_registered = record opened {
  position_remote_robot_map = (5, cook_at 5 false true) ∷ (2, baker_at 2 false true) ∷ [];
  registered_robots = 2;
}

abbrev asked : Controller
asked = record both_registered { tasks = next_robot_request 1 0 guest ∷ [] }

abbrev pub awaited : PendingSwap
awaited = record {
  lower = 2;
  greater = 5;
  ack_from_lower_position = false;
  ack_from_greater_position = false;
}

-- The order made the robots swap, so it is given none.
abbrev pub rearranging : Controller
rearranging = record both_registered {
  position_remote_robot_map = (5, cook_at 5 true true) ∷ (2, baker_at 2 true true) ∷ [];
  pending_swaps = awaited ∷ [];
  next_robot_receivers = guest ∷ [];
  calls = receive_next_robot guest 0 "" 1 ∷ switch_position 2 5 ∷ switch_position 5 2 ∷ [];
}

abbrev pub cook_subscribed : Controller
cook_subscribed = record rearranging {
  position_remote_robot_map = (5, cook_at 5 true false) ∷ (2, baker_at 2 true true) ∷ [];
}

abbrev pub both_subscribed : Controller
both_subscribed = record rearranging {
  position_remote_robot_map = (5, cook_at 5 true false) ∷ (2, baker_at 2 true false) ∷ [];
}

abbrev pub cook_moved : Controller
cook_moved = record rearranging {
  position_remote_robot_map = (5, cook_at 2 true false) ∷ (2, baker_at 2 true false) ∷ [];
  tasks = position_swapped 5 2 ∷ [];
}

abbrev both_moved : Controller
both_moved = record rearranging {
  position_remote_robot_map = (5, cook_at 2 true false) ∷ (2, baker_at 5 true false) ∷ [];
  tasks = position_swapped 5 2 ∷ position_swapped 2 5 ∷ [];
}

abbrev cook_acknowledged : Controller
cook_acknowledged = record both_moved {
  pending_swaps = record awaited { ack_from_greater_position = true } ∷ [];
  tasks = position_swapped 2 5 ∷ [];
}

abbrev swapped : Controller
swapped = record both_moved {
  position_remote_robot_map = (5, baker_at 5 false false) ∷ (2, cook_at 2 false false) ∷ [];
  pending_swaps = [];
  tasks = [];
  calls = commit_new_position 2 ∷ commit_new_position 5 ∷ rearranging.calls;
}

abbrev Telling : Controller → Controller → Type 0
Telling = RunWhile (λ d. tells_new_places d ≡ true)

registering_run : Telling opened both_registered
unfolding register_robot run_controller_task tells_new_places find erase new_controller get_recipe
registering_run =
    onward
      (onward
        (onward
          (onward start refl
            (registers cook_registration {d = record opened { tasks = cook_task ∷ [] }} refl))
          refl (registers baker_registration {d = both_called} refl))
        refl (run answers cook_task (baker_task ∷ []) {d = cook_registered} refl refl refl))
      refl (run answers baker_task [] refl refl refl)

rearranging_run : Telling opened rearranging
unfolding choose_next_robot run_controller_task tells_new_places simple_rearranging find erase
    new_controller get_recipe is_capable_to
rearranging_run =
    onward (onward registering_run refl (asks order {d = asked} refl)) refl
      (run answers (next_robot_request 1 0 guest) [] refl refl refl)

pub cook_moving_run : Telling opened cook_moved
unfolding position_changed tells_new_places find erase new_controller get_recipe
cook_moving_run =
    onward
      (onward (onward rearranging_run refl (moves 5 5 {d = cook_subscribed} refl)) refl
        (moves 2 2 {d = both_subscribed} refl))
      refl (moves 5 2 refl)

moving_run : Telling opened both_moved
unfolding position_changed tells_new_places find erase new_controller get_recipe
moving_run = onward cook_moving_run refl (moves 2 5 refl)

-- Before the last report, and the step that it is.
almost_run : Telling opened cook_acknowledged
unfolding run_controller_task tells_new_places find erase new_controller get_recipe
almost_run = onward moving_run refl (
    run answers (position_swapped 5 2) (position_swapped 2 5 ∷ []) {d = cook_acknowledged} refl refl
      refl)

almost_told : tells_new_places cook_acknowledged ≡ true
unfolding tells_new_places find erase new_controller
almost_told = refl

last_step : ControllerStep cook_acknowledged swapped
unfolding run_controller_task find erase new_controller get_recipe
last_step = run answers (position_swapped 2 5) [] refl refl refl

controller_refines_example :
    ((j : ℕ) → directory swapped j ≡ directory_after last_step j)
    × (cook_acknowledged.registered_robots
        ≡ length cook_acknowledged.position_remote_robot_map % u32_size)
    × (swapped.registered_robots ≡ length swapped.position_remote_robot_map % u32_size)
controller_refines_example = controller_refines pies swapping almost_run almost_told last_step

ControllerReach-IsOrderly_example : IsOrderly rearranging
ControllerReach-IsOrderly_example =
    ControllerReach-IsOrderly pies swapping (RunWhile-Reach rearranging_run)

handle_next_robot_request_returns_example :
    ((d : Controller) × (handle_next_robot_request answers.on_request 1 0 guest both_registered
        ≡ ok d))
    ↔ ((r : Recipe) × (get_recipe pies 1 ≡ some r) × (0 ≤ length r.action_queue))
unfolding new_controller
handle_next_robot_request_returns_example =
    handle_next_robot_request_returns answers.on_request 1 0 guest both_registered
      (λ rs q. (simple_rearranging rs q, refl))

request_handled :
    handle_next_robot_request answers.on_request 1 0 guest both_registered ≡ ok rearranging
unfolding handle_next_robot_request simple_rearranging find erase new_controller get_recipe
    is_capable_to
request_handled = refl

guest_known : is_known guest rearranging.next_robot_receivers ≡ true
unfolding is_known new_controller
guest_known = refl

handle_next_robot_request_answer_example :
    IsAnswered (connect_receiver true guest (tidy_up both_registered)) rearranging 1 0 guest
    × ((connect_receiver true guest (tidy_up both_registered)).calls ≡ both_registered.calls)
handle_next_robot_request_answer_example =
    handle_next_robot_request_answer answers.on_request 1 0 guest both_registered rearranging
      request_handled guest_known

-- The policy that the controller runs, with a profile for each robot.
abbrev profiles : Profiles
profiles = ("cutter.json", "cut" ∷ []) ∷ ("oven.json", "bake" ∷ []) ∷ []

abbrev adapting : Controller
adapting = record both_registered {
  kitchen_mape = kitchen_mape profiles;
  next_robot_receivers = guest ∷ [];
}

adapting_asks :
    (on_new_order profiles (views adapting.position_remote_robot_map) pie.action_queue).requests
    ≢ []
unfolding on_new_order views new_controller is_capable_to
adapting_asks e = ground arith

adapting_left : actions_left 1 0 adapting ≡ ok pie.action_queue
unfolding actions_left new_controller get_recipe
adapting_left = refl

adapting_tells :
    (v : RobotView)
    → find_robot "cut" (views adapting.position_remote_robot_map) ≡ some v
    → v.position ≡ v.key
unfolding find_robot views new_controller
adapting_tells v h = ground arith

adapting_falls : IsFalling adapting.position_remote_robot_map
unfolding new_controller
adapting_falls = ground arith

adapting_known : is_known guest adapting.next_robot_receivers ≡ true
unfolding is_known new_controller
adapting_known = refl

reconfiguring_robot_not_sent_example :
    (d : Controller) × (before : List Call) × (choose_robot answers.on_request 1 0 guest adapting
      ≡ ok d)
    × (d.calls ≡ receive_next_robot guest 0 "" 1 ∷ before)
reconfiguring_robot_not_sent_example =
    reconfiguring_robot_not_sent profiles answers.on_request 1 0 guest adapting cutting
      (baking ∷ []) refl adapting_falls adapting_left adapting_tells adapting_asks refl refl
      adapting_known

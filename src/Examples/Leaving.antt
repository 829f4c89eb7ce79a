-- ===== src/Examples/Leaving.antt =====
-- A robot that stops after the other one of its swap has moved (controller.cpp).
use opcua_cps_kitchen.Base.{◌≡◌, refl, inl, inr, true, false, some, none, [], ◌∷◌, find, erase}
use opcua_cps_kitchen.Recipe.{get_recipe}
use opcua_cps_kitchen.Capabilities.{is_capable_to}
use opcua_cps_kitchen.Mape.{simple_rearranging}
use opcua_cps_kitchen.Controller.State.{
  RemoteRobot, Controller, new_controller, position_swapped, next_robot_request, receive_next_robot,
}
use opcua_cps_kitchen.Controller.Registry.{
  update_robot, is_registered, acknowledge_stopped, tidy_up,
}
use opcua_cps_kitchen.Controller.Swaps.{find_swap}
use opcua_cps_kitchen.Controller.Requests.{handle_robot_registration}
use opcua_cps_kitchen.Controller.Methods.{choose_next_robot}
use opcua_cps_kitchen.Controller.Loop.{
  run_controller_task, run, asks, stops, ControllerReach, next, RunWhile, RunWhile-Reach, start,
  onward,
}
use opcua_cps_kitchen.Controller.Pending.Reachable.{ControllerReach-IsOrderly}
use opcua_cps_kitchen.Controller.Directory.{is_acknowledged}
use opcua_cps_kitchen.Controller.Leaving.Dropping.{stopped_robot_blocks_position}
use opcua_cps_kitchen.Controller.Leaving.Locked.{IsLocked}
use opcua_cps_kitchen.Controller.Leaving.Reachable.{leaves_alone, acknowledged_swap_stays}
use opcua_cps_kitchen.Examples.Controllers.{
  pies, swapping, answers, opened, cook_at, baker_at, guest, order, awaited, rearranging,
  cook_moved, cook_moving_run,
}

-- The cook has told that it is at its new position; the baker stops before it does.
abbrev cook_told : Controller
cook_told = record cook_moved {
  pending_swaps = record awaited { ack_from_greater_position = true } ∷ [];
  tasks = [];
}

abbrev stopped_baker : RemoteRobot
stopped_baker = record (baker_at 2 true false) { running = false }

abbrev baker_stopped : Controller
baker_stopped = record cook_told {
  position_remote_robot_map = (5, cook_at 2 true false) ∷ (2, stopped_baker) ∷ [];
}

abbrev asked_again : Controller
asked_again = record baker_stopped { tasks = next_robot_request 1 0 guest ∷ [] }

-- An order drops the baker, and the cook stays pending.
abbrev cook_left : Controller
cook_left = record cook_told {
  position_remote_robot_map = (5, cook_at 2 true false) ∷ [];
  pending_swaps =
      record awaited { ack_from_lower_position = true; ack_from_greater_position = true } ∷ [];
  registered_robots = 1;
  calls = receive_next_robot guest 0 "" 1 ∷ rearranging.calls;
}

stopping_reach : ControllerReach opened baker_stopped
unfolding run_controller_task update_robot find erase new_controller get_recipe
stopping_reach =
    next
      (next (RunWhile-Reach cook_moving_run)
        (run answers (position_swapped 5 2) [] {d = cook_told} refl refl refl))
      (stops 2 refl)

leaving_reach : ControllerReach opened cook_left
unfolding choose_next_robot run_controller_task simple_rearranging find erase new_controller
    get_recipe is_capable_to
leaving_reach =
    next (next stopping_reach (asks order {d = asked_again} refl))
      (run answers (next_robot_request 1 0 guest) [] refl refl refl)

found_listed :
    find_swap 2 5 baker_stopped.pending_swaps
    ≡ some (record awaited { ack_from_greater_position = true })
unfolding find_swap
found_listed = refl

baker_found : find baker_stopped.position_remote_robot_map 2 ≡ some stopped_baker
unfolding find
baker_found = refl

cook_found : find baker_stopped.position_remote_robot_map 5 ≡ some (cook_at 2 true false)
unfolding find
cook_found = refl

stopped_robot_blocks_position_example :
    (handle_robot_registration answers.on_registration "opc.tcp://c" 2 ("bake" ∷ []) baker_stopped
      ≡ tidy_up baker_stopped)
    × (find_swap 2 5 (tidy_up baker_stopped).pending_swaps
        ≡ some (acknowledge_stopped 2 (record awaited { ack_from_greater_position = true })))
    × (find (tidy_up baker_stopped).position_remote_robot_map 2 ≡ none)
    × (find (tidy_up baker_stopped).position_remote_robot_map 5 ≡ some (cook_at 2 true false))
stopped_robot_blocks_position_example =
    stopped_robot_blocks_position answers.on_registration "opc.tcp://c" ("bake" ∷ []) 2 5 2 5
      stopped_baker (cook_at 2 true false) (record awaited { ack_from_greater_position = true })
      baker_stopped (ControllerReach-IsOrderly pies swapping stopping_reach) found_listed
      (inl (refl, refl)) baker_found refl cook_found refl

cook_left-IsLocked : IsLocked 2 5 5 cook_left
unfolding find_swap is_acknowledged is_registered find
cook_left-IsLocked = record {
  entry = record awaited { ack_from_lower_position = true; ack_from_greater_position = true };
  listed = refl;
  acked = refl;
  place = inr refl;
  there = refl;
}

abbrev asked_later : Controller
asked_later = record cook_left { tasks = next_robot_request 1 0 guest ∷ [] }

waiting_run : RunWhile (λ e. leaves_alone 2 5 5 e ≡ true) cook_left asked_later
unfolding choose_next_robot leaves_alone find new_controller
waiting_run = onward start refl (asks order refl)

later_undisturbed : leaves_alone 2 5 5 asked_later ≡ true
unfolding leaves_alone find new_controller
later_undisturbed = refl

acknowledged_swap_stays_example :
    IsLocked 2 5 5 asked_later
    × (handle_robot_registration answers.on_registration "opc.tcp://c" 2 ("bake" ∷ []) asked_later
        ≡ tidy_up asked_later)
acknowledged_swap_stays_example =
    acknowledged_swap_stays pies swapping answers.on_registration "opc.tcp://c" ("bake" ∷ []) 2 5 5
      2 leaving_reach cook_left-IsLocked waiting_run later_undisturbed (inl refl)

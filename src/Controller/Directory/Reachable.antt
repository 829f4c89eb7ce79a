-- ===== src/Controller/Directory/Reachable.antt =====
-- The directory in the states of the event loop (controller.cpp).
use opcua_cps_kitchen.Base.{
  ℕ, ◌≡◌, refl, subst, true, false, List, ◌∷◌, length, ◌%◌, u32_size, arith,
}
use opcua_cps_kitchen.Recipe.{RecipeMap}
use opcua_cps_kitchen.Mape.{Policy}
use opcua_cps_kitchen.Robot.State.{ok}
use opcua_cps_kitchen.Controller.State.{
  ControllerTask, registration, next_robot_request, position_swapped, capabilities_reconfigured,
  Controller, new_controller,
}
use opcua_cps_kitchen.Controller.Registry.{remove_stopped_robots, set_adaptivity, stop_robot}
use opcua_cps_kitchen.Controller.Swaps.{handle_position_swapped}
use opcua_cps_kitchen.Controller.Requests.{
  handle_robot_registration, handle_capabilities_reconfigured,
}
use opcua_cps_kitchen.Controller.Loop.{
  TaskAnswers, run_controller_task, ControllerStep, run, registers, asks, moves, changes, stops,
  RunWhile, start, onward, RunWhile-Reach,
}
use opcua_cps_kitchen.Controller.Pending.{IsOrderly}
use opcua_cps_kitchen.Controller.Pending.Keys.{
  KeepsKeys-same, update_robot-KeepsKeys, set_adaptivity-endpoint, stop_robot-endpoint,
  remove_stopped_robots-IsOrderly, IsOrderly-KeepsKeys,
}
use opcua_cps_kitchen.Controller.Pending.Reachable.{
  register_robot-KeepsKeys, choose_next_robot-KeepsKeys, position_changed-KeepsKeys,
  capabilities_changed-KeepsKeys, ControllerReach-IsOrderly,
}
use opcua_cps_kitchen.Controller.Directory.{
  directory, running_robots, IsCounted, next_directory, directory_after, Follows, Follows-trans,
  tells_in, tells_new_places,
}
use opcua_cps_kitchen.Controller.Directory.Registry.{
  KeepsKeys-Follows, remove_stopped_robots-Follows,
}
use opcua_cps_kitchen.Controller.Directory.Handlers.{
  handle_position_swapped-Follows, handle_robot_registration-Follows,
  handle_next_robot_request-Follows,
}

run_controller_task-Follows :
    (a : TaskAnswers) (t : ControllerTask) (ts : List ControllerTask) (c d : Controller)
    → c.tasks ≡ t ∷ ts
    → tells_new_places c ≡ true
    → run_controller_task a t (record c { tasks = ts }) ≡ ok d
    → IsOrderly (record c { tasks = ts })
    → Follows (next_directory a t (record c { tasks = ts })) (record c { tasks = ts }) d
unfolding run_controller_task next_directory
run_controller_task-Follows a (registration e k caps) ts c d first p h o =
    let c' = record c { tasks = ts } in
    let same : handle_robot_registration a.on_registration e k caps c' ≡ d = cc in
    subst (Follows (next_directory a (registration e k caps) c') c') same
      (handle_robot_registration-Follows c' o a.on_registration e k caps)
run_controller_task-Follows a (next_robot_request id processed x) ts c d first p h o =
    handle_next_robot_request-Follows _ o a.on_request id processed x d h
run_controller_task-Follows a (position_swapped old new) ts c d first p h o =
    let c' = record c { tasks = ts } in
    let same : handle_position_swapped a.first_commit a.second_commit old new c' ≡ d = cc in
    subst (Follows (next_directory a (position_swapped old new) c') c') same (
      handle_position_swapped-Follows c' o a.first_commit a.second_commit old new
        (unfold tells_new_places in subst (λ l. tells_in l c ≡ true) first p))
run_controller_task-Follows a (capabilities_reconfigured k) ts c d first p h o =
    let c' = record c { tasks = ts } in
    let same : handle_capabilities_reconfigured k c' ≡ d = cc in
    let r = remove_stopped_robots-IsOrderly c' o in
    let t = remove_stopped_robots-Follows c' o.falling in
    subst (Follows (running_robots c') c') same (
      unfold handle_capabilities_reconfigured in
      Follows-trans t
        (KeepsKeys-Follows r.falling (
          update_robot-KeepsKeys k (set_adaptivity false) (remove_stopped_robots c')
            (set_adaptivity-endpoint false)))
        t.shows)

step-Follows :
    {c d : Controller}
    → IsOrderly c
    → tells_new_places c ≡ true
    → (s : ControllerStep c d) → Follows (directory_after s) c d
unfolding directory_after
step-Follows {c} {d} h p (run a t ts going first e) =
    let k = KeepsKeys-same c (record c { tasks = ts }) refl refl refl in
    let f = run_controller_task-Follows a t ts c d first p e (IsOrderly-KeepsKeys k h) in
    record { shows = f.shows; counts = f.counts }
step-Follows {c} h p (registers vs e) =
    rw e (KeepsKeys-Follows h.falling (register_robot-KeepsKeys vs c))
step-Follows {c} h p (asks vs e) =
    rw e (KeepsKeys-Follows h.falling (choose_next_robot-KeepsKeys vs c))
step-Follows {c} h p (moves key new e) =
    rw e (KeepsKeys-Follows h.falling (position_changed-KeepsKeys key new c))
step-Follows {c} h p (changes key ns e) =
    rw e (KeepsKeys-Follows h.falling (capabilities_changed-KeepsKeys key ns c))
step-Follows {c} h p (stops key e) =
    rw e (KeepsKeys-Follows h.falling (update_robot-KeepsKeys key stop_robot c stop_robot-endpoint))

run-IsCounted :
    (recipes : RecipeMap) (policy : Policy) {c : Controller}
    → RunWhile (λ d. tells_new_places d ≡ true) (new_controller recipes policy) c
    → IsCounted c
unfolding new_controller
run-IsCounted recipes policy start = omega arith
run-IsCounted recipes policy (onward r p s) =
    let f = step-Follows (ControllerReach-IsOrderly recipes policy (RunWhile-Reach r)) p s in
    f.counts (run-IsCounted recipes policy r)

-- As long as the robots of each swap that is completed tell each the other's position: each step
-- of a controller that began as a new one makes of its registry exactly what the step stands
-- for. A handler takes the robots out that have stopped; a registration at a position that is
-- then vacant and in no swap puts its endpoint there if the robot's client starts; the report
-- that brings the last acknowledgement of a swap exchanges what stands at its two positions; no
-- other handler, call of a method node or report of a client changes the registry any further.
-- And the attribute counts the robots of the registry, modulo 2^32, before and after the step.
pub controller_refines :
    (recipes : RecipeMap) (policy : Policy) {c d : Controller}
    → RunWhile (λ x. tells_new_places x ≡ true) (new_controller recipes policy) c
    → tells_new_places c ≡ true
    → (s : ControllerStep c d)
    → ((j : ℕ) → directory d j ≡ directory_after s j)
      × (c.registered_robots ≡ length c.position_remote_robot_map % u32_size)
      × (d.registered_robots ≡ length d.position_remote_robot_map % u32_size)
controller_refines recipes policy r p s =
    let f = step-Follows (ControllerReach-IsOrderly recipes policy (RunWhile-Reach r)) p s in
    let n = run-IsCounted recipes policy r in (f.shows, n, f.counts n)

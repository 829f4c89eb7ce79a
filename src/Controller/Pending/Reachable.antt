-- ===== src/Controller/Pending/Reachable.antt =====
-- The pending swaps in every state of the event loop (controller.cpp).
use opcua_cps_kitchen.Base.{ℕ, ◌≡◌, refl, inl, inr, List, [], ◌∷◌, find, Bool-cases, Option-cases}
use opcua_cps_kitchen.Recipe.{RecipeMap}
use opcua_cps_kitchen.Mape.{Policy}
use opcua_cps_kitchen.Robot.State.{ok}
use opcua_cps_kitchen.Controller.State.{
  ControllerTask, registration, next_robot_request, position_swapped, capabilities_reconfigured,
  Controller, new_controller,
}
use opcua_cps_kitchen.Controller.Registry.{stop_robot}
use opcua_cps_kitchen.Controller.Methods.{
  Input, uint32, string, strings, collect, post, register_robot, choose_next_robot, note_position,
  position_changed, note_capabilities, capabilities_changed,
}
use opcua_cps_kitchen.Controller.Loop.{
  TaskAnswers, run_controller_task, ControllerStep, run, registers, asks, moves, changes, stops,
  ControllerReach, here, next,
}
use opcua_cps_kitchen.Controller.Pending.{IsOrderly, KeepsKeys, KeepsKeys-refl, KeepsKeys-trans}
use opcua_cps_kitchen.Controller.Pending.Keys.{
  IsOrderly-KeepsKeys, KeepsKeys-same, stop_robot-endpoint, update_robot-KeepsKeys,
}
use opcua_cps_kitchen.Controller.Pending.Completion.{handle_position_swapped-IsOrderly}
use opcua_cps_kitchen.Controller.Pending.Requests.{
  handle_robot_registration-IsOrderly, handle_next_robot_request-IsOrderly,
  handle_capabilities_reconfigured-IsOrderly,
}

post-KeepsKeys : (t : ControllerTask) (c : Controller) → KeepsKeys c (post t c)
unfolding post
post-KeepsKeys t c = KeepsKeys-same c _ refl refl refl

pub register_robot-KeepsKeys :
    (vs : List Input) (c : Controller) → KeepsKeys c (register_robot vs c).0
unfolding register_robot post
register_robot-KeepsKeys (string endpoint ∷ uint32 position ∷ strings ns ∷ []) c =
    KeepsKeys-same c _ refl refl refl
register_robot-KeepsKeys _ c = KeepsKeys-same c _ refl refl refl

pub choose_next_robot-KeepsKeys :
    (vs : List Input) (c : Controller) → KeepsKeys c (choose_next_robot vs c).0
unfolding choose_next_robot post
choose_next_robot-KeepsKeys (uint32 id ∷ uint32 processed ∷ string endpoint ∷ string kind ∷ []) c =
    KeepsKeys-same c _ refl refl refl
choose_next_robot-KeepsKeys _ c = KeepsKeys-same c _ refl refl refl

pub position_changed-KeepsKeys :
    (key new : ℕ) (c : Controller) → KeepsKeys c (position_changed key new c)
unfolding position_changed
position_changed-KeepsKeys key new c =
    let k = update_robot-KeepsKeys key (note_position new) c (λ r. unfold note_position in refl) in
    elim (Option-cases (find c.position_remote_robot_map key)) [
      | inl e ↦ rw (position_changed, e) (KeepsKeys-refl c)
      | inr (r, e) ↦ elim (Bool-cases r.initial_position_subscription) [
        | inl i ↦ rw (position_changed, e, i) k
        | inr i ↦ rw (position_changed, e, i) (KeepsKeys-trans c _ _ k (post-KeepsKeys _ _))
      ]
    ]

pub capabilities_changed-KeepsKeys :
    (key : ℕ) (ns : List _) (c : Controller) → KeepsKeys c (capabilities_changed key ns c)
unfolding capabilities_changed
capabilities_changed-KeepsKeys key ns c =
    let k =
      update_robot-KeepsKeys key (note_capabilities (collect ns [])) c
        (λ r. unfold note_capabilities in refl) in
    elim (Option-cases (find c.position_remote_robot_map key)) [
      | inl e ↦ rw (capabilities_changed, e) (KeepsKeys-refl c)
      | inr (r, e) ↦ elim (Bool-cases r.initial_capabilities_subscription) [
        | inl i ↦ rw (capabilities_changed, e, i) k
        | inr i ↦ rw (capabilities_changed, e, i) (KeepsKeys-trans c _ _ k (post-KeepsKeys _ _))
      ]
    ]

run_controller_task-IsOrderly :
    (a : TaskAnswers) (t : ControllerTask) (c d : Controller)
    → run_controller_task a t c ≡ ok d
    → IsOrderly c
    → IsOrderly d
unfolding run_controller_task
run_controller_task-IsOrderly a (registration e k caps) c d h o =
    let same : _ ≡ d = cc in
    rw (← same) (handle_robot_registration-IsOrderly a.on_registration e k caps c o)
run_controller_task-IsOrderly a (next_robot_request id processed x) c d h o =
    handle_next_robot_request-IsOrderly a.on_request id processed x c d h o
run_controller_task-IsOrderly a (position_swapped old new) c d h o =
    let same : _ ≡ d = cc in
    rw (← same) (handle_position_swapped-IsOrderly a.first_commit a.second_commit old new c o)
run_controller_task-IsOrderly a (capabilities_reconfigured k) c d h o =
    let same : _ ≡ d = cc in rw (← same) (handle_capabilities_reconfigured-IsOrderly k c o)

ControllerStep-IsOrderly : {c d : Controller} → ControllerStep c d → IsOrderly c → IsOrderly d
ControllerStep-IsOrderly {c} {d} (run a t ts going first e) h =
    run_controller_task-IsOrderly a t _ d e
      (IsOrderly-KeepsKeys (KeepsKeys-same c _ refl refl refl) h)
ControllerStep-IsOrderly {c} (registers vs e) h =
    rw e (IsOrderly-KeepsKeys (register_robot-KeepsKeys vs c) h)
ControllerStep-IsOrderly {c} (asks vs e) h =
    rw e (IsOrderly-KeepsKeys (choose_next_robot-KeepsKeys vs c) h)
ControllerStep-IsOrderly {c} (moves key new e) h =
    rw e (IsOrderly-KeepsKeys (position_changed-KeepsKeys key new c) h)
ControllerStep-IsOrderly {c} (changes key ns e) h =
    rw e (IsOrderly-KeepsKeys (capabilities_changed-KeepsKeys key ns c) h)
ControllerStep-IsOrderly {c} (stops key e) h =
    rw e (IsOrderly-KeepsKeys (update_robot-KeepsKeys key stop_robot c stop_robot-endpoint) h)

-- Whatever steps a new controller has done: the robots stand in its map by falling positions, each
-- pending swap is of two positions, the lower first, no position is in two swaps, and a swap waits
-- for the acknowledgement of a registered robot only.
pub ControllerReach-IsOrderly :
    (recipes : RecipeMap) (policy : Policy) {c : Controller}
    → ControllerReach (new_controller recipes policy) c
    → IsOrderly c
unfolding new_controller
ControllerReach-IsOrderly recipes policy here = record { falling = tt; apart = tt; awaited = tt }
ControllerReach-IsOrderly recipes policy (next r s) =
    ControllerStep-IsOrderly s (ControllerReach-IsOrderly recipes policy r)

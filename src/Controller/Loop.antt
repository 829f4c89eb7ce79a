-- ===== src/Controller/Loop.antt =====
-- The event loop of the controller: its worker thread runs what is posted, between calls of the
-- method nodes and reports of the robots' clients (controller.cpp).
use opcua_cps_kitchen.Base.{ℕ, ◌≡◌, String, true, List, ◌∷◌}
use opcua_cps_kitchen.Robot.State.{Outcome, ok}
use opcua_cps_kitchen.Conveyor.Delivery.{Flagged}
use opcua_cps_kitchen.Controller.State.{
  ControllerTask, registration, next_robot_request, position_swapped, capabilities_reconfigured,
  Controller,
}
use opcua_cps_kitchen.Controller.Registry.{update_robot, stop_robot}
use opcua_cps_kitchen.Controller.Swaps.{handle_position_swapped}
use opcua_cps_kitchen.Controller.Requests.{
  RegistrationAnswers, RequestAnswers, handle_robot_registration, handle_next_robot_request,
  handle_capabilities_reconfigured,
}
use opcua_cps_kitchen.Controller.Methods.{
  Input, register_robot, choose_next_robot, position_changed, capabilities_changed,
}

-- What the other agents answer while one posted handler runs.
pub record TaskAnswers : Type 0 where
  pub on_registration : RegistrationAnswers
  pub on_request : RequestAnswers
  pub first_commit : Flagged
  pub second_commit : Flagged

unfoldable pub run_controller_task : TaskAnswers → ControllerTask → Controller → Outcome Controller
unfolding handle_robot_registration handle_next_robot_request handle_position_swapped
    handle_capabilities_reconfigured
run_controller_task a (registration endpoint position caps) c =
    ok (handle_robot_registration a.on_registration endpoint position caps c)
run_controller_task a (next_robot_request id processed x) c =
    handle_next_robot_request a.on_request id processed x c
run_controller_task a (position_swapped old new) c =
    ok (handle_position_swapped a.first_commit a.second_commit old new c)
run_controller_task a (capabilities_reconfigured position) c =
    ok (handle_capabilities_reconfigured position c)

-- One step: the first posted handler, which a fault keeps from returning, a call of a method node,
-- a report of a client, or a client that stops.
pub data ControllerStep (c : Controller) : Controller → Type 0 where
  run :
      (a : TaskAnswers) (t : ControllerTask) (ts : List ControllerTask) {d : Controller}
      → c.running ≡ true
      → c.tasks ≡ t ∷ ts
      → run_controller_task a t (record c { tasks = ts }) ≡ ok d
      → ControllerStep c d
  registers : (vs : List Input) {d : Controller} → d ≡ (register_robot vs c).0 → ControllerStep c d
  asks : (vs : List Input) {d : Controller} → d ≡ (choose_next_robot vs c).0 → ControllerStep c d
  moves : (key new : ℕ) {d : Controller} → d ≡ position_changed key new c → ControllerStep c d
  changes :
      (key : ℕ) (ns : List String) {d : Controller}
      → d ≡ capabilities_changed key ns c
      → ControllerStep c d
  stops : (key : ℕ) {d : Controller} → d ≡ update_robot key stop_robot c → ControllerStep c d

pub data ControllerReach (c : Controller) : Controller → Type 0 where
  here : ControllerReach c c
  next : {d e : Controller} → ControllerReach c d → ControllerStep d e → ControllerReach c e

-- Steps from states that all have a property.
pub data RunWhile (P : Controller → Type 0) (c : Controller) : Controller → Type 0 where
  start : RunWhile P c c
  onward : {d e : Controller} → RunWhile P c d → P d → ControllerStep d e → RunWhile P c e

pub RunWhile-Reach :
    {P : Controller → Type 0} {c d : Controller} → RunWhile P c d → ControllerReach c d
RunWhile-Reach start = here
RunWhile-Reach (onward r p s) = next (RunWhile-Reach r) s

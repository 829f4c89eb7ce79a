-- ===== src/Controller/Directory/Switching.antt =====
-- The beginning of a swap, and the requests, on the directory (controller.cpp).
use opcua_cps_kitchen.Base.{ℕ, suc, ◌≡◌, ◌∙◌, List, [], ◌∷◌}
use opcua_cps_kitchen.Mape.{Request, swap_robot_positions, reconfigure_robot, Decision}
use opcua_cps_kitchen.Controller.State.{Receiver, Controller}
use opcua_cps_kitchen.Controller.Swaps.{AdaptationAnswers, add_swap}
use opcua_cps_kitchen.Controller.Requests.{
  perform_request, perform_requests, robot_to_send, RequestAnswers, answer_request,
}
use opcua_cps_kitchen.Controller.Pending.{KeepsMap, KeepsMap-trans, KeepsKeys, KeepsKeys-refl}
use opcua_cps_kitchen.Controller.Pending.Switching.{Lists, keeps, adds, swap_robot_positions-Lists}
use opcua_cps_kitchen.Controller.Pending.Requests.{
  reconfigure_robot_capability-KeepsKeys, send_next_robot-KeepsKeys,
}

-- What a step keeps that may list a swap.
pub record KeepsRobots (c d : Controller) : Type 0 where
  pub map : KeepsMap c.position_remote_robot_map d.position_remote_robot_map
  pub count : d.registered_robots ≡ c.registered_robots

KeepsRobots-trans : (c d e : Controller) → KeepsRobots c d → KeepsRobots d e → KeepsRobots c e
KeepsRobots-trans c d e g h = record {
  map = KeepsMap-trans _ _ _ g.map h.map;
  count = h.count ∙ g.count;
}

KeepsKeys-KeepsRobots : {c d : Controller} → KeepsKeys c d → KeepsRobots c d
KeepsKeys-KeepsRobots k = record { map = k.map; count = k.count }

-- A swap may be listed after a step.
Lists-KeepsRobots : {from to : ℕ} {c d : Controller} → Lists from to c d → KeepsRobots c d
unfolding add_swap
Lists-KeepsRobots (keeps k) = record { map = k.map; count = k.count }
Lists-KeepsRobots (adds acked k f w) = record { map = k.map; count = k.count }

KeepsRobots-refl : (c : Controller) → KeepsRobots c c
KeepsRobots-refl c = KeepsKeys-KeepsRobots (KeepsKeys-refl c)

perform_requests-KeepsRobots :
    (answers : ℕ → AdaptationAnswers) (i : ℕ) (qs : List Request) (c : Controller)
    → KeepsRobots c (perform_requests answers i qs c)
unfolding perform_requests perform_request
perform_requests-KeepsRobots answers i [] c = KeepsRobots-refl c
perform_requests-KeepsRobots answers i (swap_robot_positions from to ∷ qs) c =
    KeepsRobots-trans c _ _ (Lists-KeepsRobots (swap_robot_positions-Lists (answers i) from to c))
      (perform_requests-KeepsRobots answers (suc i) qs _)
perform_requests-KeepsRobots answers i (reconfigure_robot k profile ∷ qs) c =
    KeepsRobots-trans c _ _
      (KeepsKeys-KeepsRobots (reconfigure_robot_capability-KeepsKeys (answers i) k profile c))
      (perform_requests-KeepsRobots answers (suc i) qs _)

pub answer_request-KeepsRobots :
    (a : RequestAnswers) (x : Receiver) (id : ℕ) (d : Decision) (c : Controller)
    → KeepsRobots c (answer_request a x id d c)
unfolding answer_request
answer_request-KeepsRobots a x id d c =
    let e = perform_requests a.adaptations 0 d.requests c in
    KeepsRobots-trans c e _ (perform_requests-KeepsRobots a.adaptations 0 d.requests c) (
      KeepsKeys-KeepsRobots (
        send_next_robot-KeepsKeys x id (robot_to_send d.suitable_robot e.position_remote_robot_map)
          e))

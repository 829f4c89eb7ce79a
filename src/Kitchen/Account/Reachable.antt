-- ===== src/Kitchen/Account/Reachable.antt =====
-- The account in every state of the event loop of the kitchen (kitchen.cpp).
use opcua_cps_kitchen.Base.{ℕ, refl, inl, inr, find, Bool-cases, Option-cases}
use opcua_cps_kitchen.Kitchen.State.{reflect_swap, Kitchen, new_kitchen}
use opcua_cps_kitchen.Kitchen.Placing.{placing_expired}
use opcua_cps_kitchen.Kitchen.Loop.{
  position_changed, KitchenStep, run, expire, completes, places, answers, moves, stops,
  KitchenReach, here, next,
}
use opcua_cps_kitchen.Kitchen.Orders.{map-KeepsOrders, stop_robot-KeepsOrders}
use opcua_cps_kitchen.Kitchen.Account.{KeepsOrders-IsKept, IsKept}
use opcua_cps_kitchen.Kitchen.Account.Placing.{next_placing-IsKept}
use opcua_cps_kitchen.Kitchen.Account.Tasks.{
  post-IsKept, receive_completed_order-IsKept, place_random_order-IsKept, answer-IsKept,
  run_kitchen_task-IsKept,
}

position_changed-IsKept :
    (key new : ℕ) (k : Kitchen) → IsKept k → IsKept (position_changed key new k)
unfolding position_changed
position_changed-IsKept key new k i = elim (Option-cases (find k.position_remote_robot_map key)) [
  | inl e ↦ rw (position_changed, e) i
  | inr (r, e) ↦ elim (Bool-cases r.initial_subscription) [
    | inl s ↦ rw (position_changed, e, s) (KeepsOrders-IsKept (map-KeepsOrders k _) i)
    | inr s ↦
        rw (position_changed, e, s)
          (post-IsKept (reflect_swap r.cached_position new) _ refl
            (KeepsOrders-IsKept (map-KeepsOrders k _) i))
  ]
]

KitchenStep-IsKept : {k j : Kitchen} → KitchenStep k j → IsKept k → IsKept j
unfolding placing_expired
KitchenStep-IsKept {k} {j} (run a t ts going first h) i =
    run_kitchen_task-IsKept a t ts k j first h i
KitchenStep-IsKept {k} {j} (expire id rounds going timer h) i =
    next_placing-IsKept id k.placing_queue rounds k j timer refl h i
KitchenStep-IsKept {k} (completes vs e) i = rw e (receive_completed_order-IsKept vs k i)
KitchenStep-IsKept {k} (places vs e) i = rw e (place_random_order-IsKept vs k i)
KitchenStep-IsKept {k} (answers p endpoint id ids w e) i =
    rw e (answer-IsKept p endpoint id ids k w i)
KitchenStep-IsKept {k} (moves key new e) i = rw e (position_changed-IsKept key new k i)
KitchenStep-IsKept {k} (stops key e) i = rw e (KeepsOrders-IsKept (stop_robot-KeepsOrders key k) i)

-- Whatever steps a new kitchen has done: while it runs, the received orders are the assigned and the
-- dropped ones, those whose answer is posted and those that await an answer of the controller,
-- modulo 2^32; and the placing gate is open exactly if its timer does not wait, and then no order is
-- queued at it.
pub KitchenReach-IsKept : {k : Kitchen} → KitchenReach new_kitchen k → IsKept k
unfolding new_kitchen
KitchenReach-IsKept here = record {
  balanced = λ r. refl;
  gated = record { closed = refl; queued = λ e. refl };
}
KitchenReach-IsKept (next r s) = KitchenStep-IsKept s (KitchenReach-IsKept r)

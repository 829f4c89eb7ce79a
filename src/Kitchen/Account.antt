-- ===== src/Kitchen/Account.antt =====
-- The account of the orders over the event loop of the kitchen, and its placing gate (kitchen.cpp).
pub mod Placing
pub mod Tasks
pub mod Reachable
use opcua_cps_kitchen.Base.{
  ℕ, zero, suc, ◌+◌, ◌%◌, ◌≡◌, refl, sym, ap, ◌∙◌, subst, inl, inr, String, Bool, true, false, not,
  Option, none, some, List, [], ◌∷◌, ◌++◌, length, length-append, find, if◌then◌else◌, flag,
  Bool-cases, Option-cases, u32_size, arith,
}
use opcua_cps_kitchen.Robot.State.{ok, fault, >>=-eq-ok}
use opcua_cps_kitchen.Robot.Work.{
  Reply, bad_size, bad_type, returned, Attempt, failed, stopped, answered, add32,
}
use opcua_cps_kitchen.Robot.Methods.{Variant, uint32, string}
use opcua_cps_kitchen.Kitchen.State.{
  KitchenRobot, KitchenTask, completed_order, random_order, next_robot, reflect_swap, Kitchen,
  new_kitchen,
}
use opcua_cps_kitchen.Kitchen.Placing.{
  remove_stopped_robots, halt, count_received, count_completed, choose_next_robot_called,
  call_controller, do_place, arm_placing_gate, place_and_arm, pass_gate,
  handle_random_order_request, next_placing, placing_expired,
}
use opcua_cps_kitchen.Kitchen.Robots.{
  RobotAnswers, stop_robot, handle_receive_next_robot, reflect_position_swap,
}
use opcua_cps_kitchen.Kitchen.Loop.{
  post, receive_completed_order, place_random_order, receive_next_robot, position_changed,
  KitchenAnswers, run_kitchen_task, KitchenStep, run, expire, completes, places, answers, moves,
  stops, KitchenReach, here, next,
}
use opcua_cps_kitchen.Kitchen.Orders.{
  KeepsOrders, KeepsOrders-refl, KeepsOrders-trans, map-KeepsOrders, stop_robot-KeepsOrders,
  remove_stopped_robots-KeepsOrders, IsCountedOnce,
}
use opcua_cps_kitchen.Kitchen.Assignment.{
  is_assigned, handle_receive_next_robot-IsCountedOnce, reflect_position_swap-KeepsOrders,
}

-- How many answers of the controller are posted.
abbrev pub posted_answers : List KitchenTask → ℕ
posted_answers [] = 0
posted_answers (completed_order ∷ ts) = posted_answers ts
posted_answers (random_order ∷ ts) = posted_answers ts
posted_answers (next_robot p e id ∷ ts) = suc (posted_answers ts)
posted_answers (reflect_swap old new ∷ ts) = posted_answers ts

-- While the kitchen runs, every received order is assigned, dropped, answered or awaits its answer.
abbrev pub IsBalanced : Kitchen → Type 0
IsBalanced k =
    k.running ≡ true
    → k.received_orders
      ≡ (k.assigned_orders + k.dropped_orders + posted_answers k.tasks + length k.awaiting)
        % u32_size

-- The gate is open unless its timer waits, and no order is queued at an open gate.
pub record IsGated (k : Kitchen) : Type 0 where
  pub closed : k.placing_gate_open ≡ not k.placing_timer
  pub queued : k.placing_gate_open ≡ true → k.placing_queue ≡ 0

pub posted-append :
    (ts : List KitchenTask) (t : KitchenTask)
    → posted_answers (ts ++ t ∷ []) ≡ posted_answers ts + posted_answers (t ∷ [])
posted-append [] t = omega arith
posted-append (completed_order ∷ ts) t = posted-append ts t
posted-append (random_order ∷ ts) t = posted-append ts t
posted-append (next_robot p e id ∷ ts) t = omega (arith, posted-append ts t)
posted-append (reflect_swap old new ∷ ts) t = posted-append ts t

pub KeepsOrders-IsBalanced : {k j : Kitchen} → KeepsOrders k j → IsBalanced k → IsBalanced j
KeepsOrders-IsBalanced h b =
    let a = h.assigned in
    let d = h.dropped in
    let t = h.tasks in
    let w = h.awaiting in
    λ r. let going = sym h.running ∙ r in rw (a, d, t, w) (h.received ∙ b going)

pub KeepsOrders-IsGated : {k j : Kitchen} → KeepsOrders k j → IsGated k → IsGated j
KeepsOrders-IsGated h g =
    let t = h.timer in
    record { closed = rw t (h.gate ∙ g.closed); queued = λ e. h.queue ∙ g.queued (sym h.gate ∙ e) }

-- What every step of the kitchen keeps.
pub record IsKept (k : Kitchen) : Type 0 where
  pub balanced : IsBalanced k
  pub gated : IsGated k

pub KeepsOrders-IsKept : {k j : Kitchen} → KeepsOrders k j → IsKept k → IsKept j
KeepsOrders-IsKept h i = record {
  balanced = KeepsOrders-IsBalanced h i.balanced;
  gated = KeepsOrders-IsGated h i.gated;
}

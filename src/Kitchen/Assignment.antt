-- ===== src/Kitchen/Assignment.antt =====
-- Which orders the kitchen counts as assigned and which as dropped (kitchen.cpp).
use opcua_cps_kitchen.Base.{
  ℕ, ◌≡◌, refl, inl, inr, String, str_eq, Bool, true, false, not, ◌&&◌, ◌||◌, Option, none, some,
  put, erase, ◌==◌, Bool-cases,
}
use opcua_cps_kitchen.Conveyor.Delivery.{Instructed, failed, bad_size, bad_type, result}
use opcua_cps_kitchen.Kitchen.State.{new_kitchen_robot, Kitchen}
use opcua_cps_kitchen.Kitchen.Placing.{remove_stopped_robots}
use opcua_cps_kitchen.Kitchen.Robots.{
  RobotAnswers, is_new_robot, receive_robot_task_called, note_instruct, instruct_robot,
  ask_availability, offer_task, connect_and_offer, offer_order, handle_receive_next_robot,
  stands_elsewhere, note_read, swap_if_elsewhere, reflect_position_swap,
}
use opcua_cps_kitchen.Kitchen.Orders.{
  KeepsOrders-refl, KeepsOrders-trans, map-KeepsOrders, stop_robot-KeepsOrders,
  remove_stopped_robots-KeepsOrders, dropped-IsCountedOnce, assigned-IsCountedOnce,
  before-IsCountedOnce, KeepsOrders, IsCountedOnce,
}

-- The robot stands at the position, is available, and takes the task.
abbrev pub takes_task : RobotAnswers → ℕ → Bool
takes_task a position =
    (elim a.position [ none ↦ false | some p ↦ p == position ])
    && (elim a.available [ none ↦ false | some b ↦ b ])
    && receive_robot_task_called a.instruct

-- The controller named a robot, the kitchen has or gets a client for it, and it takes the task.
abbrev pub is_assigned : RobotAnswers → ℕ → String → Kitchen → Bool
is_assigned a position endpoint k =
    not (position == 0)
    && not (str_eq endpoint "")
    && (not (is_new_robot position endpoint k) || a.starts)
    && takes_task a position

note_instruct-KeepsOrders :
    (answer : Instructed) (p : ℕ) (k : Kitchen) → KeepsOrders k (note_instruct answer p k)
unfolding note_instruct
note_instruct-KeepsOrders failed p k = stop_robot-KeepsOrders p k
note_instruct-KeepsOrders bad_size p k = KeepsOrders-refl k
note_instruct-KeepsOrders bad_type p k = KeepsOrders-refl k
note_instruct-KeepsOrders (result q b) p k = KeepsOrders-refl k

instruct_robot-IsCountedOnce :
    (answer : Instructed) (p : ℕ) (k : Kitchen)
    → IsCountedOnce (receive_robot_task_called answer) k (instruct_robot answer p k)
unfolding instruct_robot
instruct_robot-IsCountedOnce answer p k =
    let h = note_instruct-KeepsOrders answer p k in
    elim (Bool-cases (receive_robot_task_called answer)) [
      | inl e ↦ rw e (assigned-IsCountedOnce h)
      | inr e ↦ rw e (dropped-IsCountedOnce h)
    ]

available-IsCountedOnce :
    (o : Option Bool) (a : RobotAnswers) (p : ℕ) (k : Kitchen)
    → a.available ≡ o
    → IsCountedOnce
        ((elim o [ none ↦ false | some b ↦ b ]) && receive_robot_task_called a.instruct)
        k
        (ask_availability a p k)
unfolding ask_availability
available-IsCountedOnce none a p k e =
    rw (ask_availability, e) (dropped-IsCountedOnce (stop_robot-KeepsOrders p k))
available-IsCountedOnce (some true) a p k e =
    rw (ask_availability, e) (instruct_robot-IsCountedOnce a.instruct p k)
available-IsCountedOnce (some false) a p k e =
    rw (ask_availability, e) (dropped-IsCountedOnce (KeepsOrders-refl k))

offer_task-IsCountedOnce :
    (o : Option ℕ) (a : RobotAnswers) (p : ℕ) (k : Kitchen)
    → a.position ≡ o
    → IsCountedOnce (takes_task a p) k (offer_task a p k)
unfolding offer_task
offer_task-IsCountedOnce none a p k e =
    rw (offer_task, e) (dropped-IsCountedOnce (stop_robot-KeepsOrders p k))
offer_task-IsCountedOnce (some q) a p k e = elim (Bool-cases (q == p)) [
  | inl same ↦ rw (offer_task, e, same) (available-IsCountedOnce a.available a p k refl)
  | inr other ↦ rw (offer_task, e, other) (dropped-IsCountedOnce (KeepsOrders-refl k))
]

connect-IsCountedOnce :
    (a : RobotAnswers) (p : ℕ) (endpoint : String) (k : Kitchen)
    → IsCountedOnce (a.starts && takes_task a p) k (connect_and_offer a p endpoint k)
unfolding connect_and_offer
connect-IsCountedOnce a p endpoint k = elim (Bool-cases a.starts) [
  | inl e ↦ rw e (
      before-IsCountedOnce
        (map-KeepsOrders k (put p (new_kitchen_robot endpoint p) k.position_remote_robot_map))
        (offer_task-IsCountedOnce a.position a p _ refl))
  | inr e ↦ rw e (dropped-IsCountedOnce (map-KeepsOrders k (erase p k.position_remote_robot_map)))
]

offer_order-IsCountedOnce :
    (a : RobotAnswers) (p : ℕ) (endpoint : String) (k : Kitchen)
    → IsCountedOnce (is_assigned a p endpoint k) k (offer_order a p endpoint k)
unfolding offer_order
offer_order-IsCountedOnce a p endpoint k = elim (Bool-cases (p == 0)) [
  | inl z ↦ rw z (dropped-IsCountedOnce (KeepsOrders-refl k))
  | inr z ↦ elim (Bool-cases (str_eq endpoint "")) [
    | inl e ↦ rw (z, e) (dropped-IsCountedOnce (KeepsOrders-refl k))
    | inr e ↦ elim (Bool-cases (is_new_robot p endpoint k)) [
      | inl n ↦ rw (z, e, n) (connect-IsCountedOnce a p endpoint k)
      | inr n ↦ rw (z, e, n) (offer_task-IsCountedOnce a.position a p k refl)
    ]
  ]
]

-- The handler of the controller's answer counts one order, and changes no other counter, the placing
-- gate, its queue and timer, the calls that await an answer or the posted handlers. The order is
-- counted as assigned if the answer names a robot, by a position and an endpoint, the kitchen has a
-- client for it or gets one, and the robot tells this position, is available and takes the task;
-- otherwise it is counted as dropped.
pub handle_receive_next_robot-IsCountedOnce :
    (a : RobotAnswers) (p : ℕ) (endpoint : String) (k : Kitchen)
    → IsCountedOnce
        (is_assigned a p endpoint (remove_stopped_robots k))
        k
        (handle_receive_next_robot a p endpoint k)
unfolding handle_receive_next_robot
handle_receive_next_robot-IsCountedOnce a p endpoint k =
    before-IsCountedOnce (remove_stopped_robots-KeepsOrders k)
      (offer_order-IsCountedOnce a p endpoint (remove_stopped_robots k))

note_read-KeepsOrders : (o : Option ℕ) (p : ℕ) (k : Kitchen) → KeepsOrders k (note_read o p k)
unfolding note_read
note_read-KeepsOrders none p k = stop_robot-KeepsOrders p k
note_read-KeepsOrders (some q) p k = KeepsOrders-refl k

swap_if_elsewhere-KeepsOrders :
    (o : Option ℕ) (old new : ℕ) (k : Kitchen) → KeepsOrders k (swap_if_elsewhere o old new k)
unfolding swap_if_elsewhere
swap_if_elsewhere-KeepsOrders o old new k =
    let h = note_read-KeepsOrders o new k in
    elim (Bool-cases (stands_elsewhere o new k.position_remote_robot_map)) [
      | inl e ↦ rw e (KeepsOrders-trans h (map-KeepsOrders (note_read o new k) _))
      | inr e ↦ rw e h
    ]

pub reflect_position_swap-KeepsOrders :
    (first second : Option ℕ) (old new : ℕ) (k : Kitchen)
    → KeepsOrders k (reflect_position_swap first second old new k)
unfolding reflect_position_swap
reflect_position_swap-KeepsOrders first second old new k =
    let h = note_read-KeepsOrders first old k in
    elim (Bool-cases (stands_elsewhere first old k.position_remote_robot_map)) [
      | inl e ↦ rw e (
          KeepsOrders-trans h
            (swap_if_elsewhere-KeepsOrders second old new (note_read first old k)))
      | inr e ↦ rw e h
    ]

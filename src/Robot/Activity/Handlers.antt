-- ===== src/Robot/Activity/Handlers.antt =====
-- The activity of a robot and the handlers of its worker thread (robot.cpp).
use opcua_cps_kitchen.Base.{
  ◌≡◌, refl, subst, inl, inr, true, false, some, List, [], ◌∷◌, Bool-cases, Option-cases, arith,
}
use opcua_cps_kitchen.Actions.{RobotAction}
use opcua_cps_kitchen.Capabilities.{is_capable_to}
use opcua_cps_kitchen.Recipe.{get_recipe}
use opcua_cps_kitchen.Robot.State.{
  RobotState, available, rearranging, reconfiguring, Order, Timer, Robot, ok,
}
use opcua_cps_kitchen.Robot.Work.{
  Attempt, failed, stopped, answered, bad_size, bad_type, returned, stop, arm, notify_conveyor,
  receive_finished_order_notification_called, go_on, begin_action, reset_in_process_fields,
  determine_next_action, handle_switch_position, handle_reconfiguration, take_order, start_order,
  name_dish, by_state, cook_next_order,
}
use opcua_cps_kitchen.Robot.Activity.{activity, TimerFits, Inv, IsCalm, IsBetween}

pub arm-Inv : (t : Timer) (r : Robot) → IsBetween r → TimerFits (some t) r → Inv (arm t r)
unfolding arm stop activity
arm-Inv t r b f = ground arith

notify_conveyor-Inv :
    (rounds : List Attempt) (r s : Robot)
    → IsBetween r
    → notify_conveyor rounds r ≡ ok s
    → s.running ≡ true
    → Inv s
unfolding notify_conveyor receive_finished_order_notification_called stop activity
notify_conveyor-Inv [] r s b e k = cc
notify_conveyor-Inv (failed ∷ rounds) r s b e k = notify_conveyor-Inv rounds r s b e k
notify_conveyor-Inv (stopped ∷ rounds) r s b e k = ground arith
notify_conveyor-Inv (answered bad_size ∷ rounds) r s b e k = ground arith
notify_conveyor-Inv (answered bad_type ∷ rounds) r s b e k = ground arith
notify_conveyor-Inv (answered (returned true) ∷ rounds) r s b e k = ground arith
notify_conveyor-Inv (answered (returned false) ∷ rounds) r s b e k = ground arith

go_on-Inv :
    (q : List RobotAction) (rounds : List Attempt) (r s : Robot)
    → IsBetween r
    → go_on q rounds r ≡ ok s
    → s.running ≡ true
    → Inv s
unfolding go_on begin_action reset_in_process_fields arm stop activity
go_on-Inv [] rounds r s b e k = notify_conveyor-Inv rounds _ s (ground arith) e k
go_on-Inv (a ∷ q) rounds r s b e k = elim (Bool-cases (is_capable_to r.capability_parser a.name)) [
  | inr no_more ↦
      notify_conveyor-Inv rounds (record (reset_in_process_fields r) { is_dish_finished = false }) s
        (ground arith) (rw no_more at e) k
  | inl capable ↦ ground arith
]

-- From between two actions a robot comes to wait for its timer or for the conveyor.
pub determine_next_action-Inv :
    (rounds : List Attempt) (r s : Robot)
    → IsBetween r
    → determine_next_action rounds r ≡ ok s
    → s.running ≡ true
    → Inv s
unfolding determine_next_action
determine_next_action-Inv rounds r s b e k = go_on-Inv r.action_queue_in_process rounds r s b e k

handle_switch_position-Inv :
    (r : Robot) → IsCalm r → r.robot_state ≡ rearranging → Inv (handle_switch_position r)
unfolding handle_switch_position arm stop activity
handle_switch_position-Inv r c h = ground arith

handle_reconfiguration-Inv :
    (r : Robot) → IsCalm r → r.robot_state ≡ reconfiguring → Inv (handle_reconfiguration r)
unfolding handle_reconfiguration arm stop activity
handle_reconfiguration-Inv r c h = ground arith

take_order-Inv :
    (os : List Order) (rounds : List Attempt) (r s : Robot)
    → IsCalm r
    → r.robot_state ≡ available
    → take_order os rounds r ≡ ok s
    → s.running ≡ true
    → Inv s
unfolding take_order start_order name_dish activity
take_order-Inv [] rounds r s c h e k = ground arith
take_order-Inv (o ∷ os) rounds r s c h e k =
    elim (Option-cases (get_recipe r.recipe_parser o.recipe_id)) [
      | inl unknown ↦ absurd (ground arith)
      | inr (current, known) ↦
          determine_next_action-Inv rounds (name_dish current (start_order o os r)) s (ground arith)
            (rw known at e) k
    ]

by_state-Inv :
    (state : RobotState) (rounds : List Attempt) (r s : Robot)
    → r.robot_state ≡ state
    → IsCalm r
    → by_state state rounds r ≡ ok s
    → s.running ≡ true
    → Inv s
unfolding by_state
by_state-Inv available rounds r s h c e k = take_order-Inv r.order_queue rounds r s c h e k
by_state-Inv rearranging rounds r s h c e k =
    let same : handle_switch_position r ≡ s = cc in
    subst Inv same (handle_switch_position-Inv r c h)
by_state-Inv reconfiguring rounds r s h c e k =
    let same : handle_reconfiguration r ≡ s = cc in
    subst Inv same (handle_reconfiguration-Inv r c h)

-- A calm robot that looks for the next order comes to one activity, or to rest.
pub cook_next_order-Inv :
    (rounds : List Attempt) (r s : Robot)
    → IsCalm r
    → cook_next_order false rounds r ≡ ok s
    → s.running ≡ true
    → Inv s
unfolding cook_next_order
cook_next_order-Inv rounds r s c e k = by_state-Inv r.robot_state rounds r s refl c e k

-- A robot that prepares no dish is calm.
pub Inv-IsCalm : (r : Robot) → Inv r → r.preparing_dish ≡ false → IsCalm r
unfolding activity
Inv-IsCalm r v h = ground arith

-- ===== src/Robot/Load/Starting.antt =====
-- The account of the work and the start of an order or a request (cook_next_order of robot.cpp).
use opcua_cps_kitchen.Base.{
  ℕ, ◌≡◌, ◌≢◌, refl, subst, inl, inr, false, Option, none, some, List, [], ◌∷◌, Option-cases, arith,
}
use opcua_cps_kitchen.Actions.{RobotTool, RobotAction}
use opcua_cps_kitchen.Capabilities.{Capabilities}
use opcua_cps_kitchen.Recipe.{Recipe, get_recipe}
use opcua_cps_kitchen.Robot.State.{
  RobotState, available, rearranging, reconfiguring, Order, Timer, retooling, passing, completing,
  moving, Robot, ok,
}
use opcua_cps_kitchen.Robot.Work.{
  Attempt, stop, arm, start_order, name_dish, take_order, handle_switch_position,
  handle_reconfiguration, by_state, cook_next_order,
}
use opcua_cps_kitchen.Robot.Load.{queue_time, queue_tool, remaining, next_tool, IsAccounted, IsOpen}
use opcua_cps_kitchen.Robot.Load.Cooking.{determine_next_action-IsAccounted}

-- The robot does not work on a dish.
abbrev pub IsResting : Robot → Type 0
IsResting r = (r.timer ≢ some retooling) × (r.timer ≢ some passing)

pub resting-lem :
    (t : Option Timer) (q : List RobotAction) (caps : Capabilities) (tool : RobotTool) (d : ℕ)
    → t ≢ some retooling
    → t ≢ some passing
    → (remaining t q caps tool d ≡ 0) × (next_tool t q caps tool ≡ tool)
resting-lem none q caps tool d h k = (refl, refl)
resting-lem (some retooling) q caps tool d h k = absurd (h refl)
resting-lem (some passing) q caps tool d h k = absurd (k refl)
resting-lem (some completing) q caps tool d h k = (refl, refl)
resting-lem (some (moving ms)) q caps tool d h k = (refl, refl)

start_order-IsOpen :
    (o : Order) (os : List Order) (r : Robot)
    → IsAccounted r
    → r.timer ≡ none
    → r.order_queue ≡ o ∷ os
    → IsOpen (start_order o os r)
unfolding start_order queue_time queue_tool
start_order-IsOpen o os r h t e = ground arith

name_dish-IsOpen : (c : Recipe) (r : Robot) → IsOpen r → IsOpen (name_dish c r)
unfolding name_dish
name_dish-IsOpen c r h = ground arith

take_order-IsAccounted :
    (os : List Order) (rounds : List Attempt) (r s : Robot)
    → r.order_queue ≡ os
    → r.timer ≡ none
    → IsAccounted r
    → take_order os rounds r ≡ ok s
    → IsAccounted s
unfolding take_order name_dish
take_order-IsAccounted [] rounds r s here t h e =
    let same : record r { preparing_dish = false } ≡ s = cc in subst IsAccounted same (ground arith)
take_order-IsAccounted (o ∷ os) rounds r s here t h e =
    elim (Option-cases (get_recipe r.recipe_parser o.recipe_id)) [
      | inl unknown ↦ absurd (ground arith)
      | inr (current, known) ↦
          determine_next_action-IsAccounted rounds (name_dish current (start_order o os r)) s
            (name_dish-IsOpen current (start_order o os r) (start_order-IsOpen o os r h t here))
            (rw known at e)
    ]

pub handle_switch_position-IsAccounted :
    (r : Robot) → IsResting r → IsAccounted r → IsAccounted (handle_switch_position r)
unfolding handle_switch_position arm stop
handle_switch_position-IsAccounted r h v = ground (
  arith,
  resting-lem r.timer r.action_queue_in_process r.capability_parser r.current_tool
      r.current_action_duration,
)

pub handle_reconfiguration-IsAccounted :
    (r : Robot) → IsResting r → IsAccounted r → IsAccounted (handle_reconfiguration r)
unfolding handle_reconfiguration arm stop
handle_reconfiguration-IsAccounted r h v = ground (
  arith,
  resting-lem r.timer r.action_queue_in_process r.capability_parser r.current_tool
      r.current_action_duration,
)

by_state-IsAccounted :
    (state : RobotState) (rounds : List Attempt) (r s : Robot)
    → r.robot_state ≡ state
    → IsResting r
    → (r.robot_state ≡ available → r.timer ≡ none)
    → IsAccounted r
    → by_state state rounds r ≡ ok s
    → IsAccounted s
unfolding by_state
by_state-IsAccounted available rounds r s a h t v e =
    take_order-IsAccounted r.order_queue rounds r s refl (t a) v e
by_state-IsAccounted rearranging rounds r s a h t v e =
    let same : handle_switch_position r ≡ s = cc in
    subst IsAccounted same (handle_switch_position-IsAccounted r h v)
by_state-IsAccounted reconfiguring rounds r s a h t v e =
    let same : handle_reconfiguration r ≡ s = cc in
    subst IsAccounted same (handle_reconfiguration-IsAccounted r h v)

-- Looking for the next order keeps the account of a robot that works on no dish.
pub cook_next_order-IsAccounted :
    (rounds : List Attempt) (r s : Robot)
    → IsResting r
    → (r.robot_state ≡ available → r.timer ≡ none)
    → IsAccounted r
    → cook_next_order false rounds r ≡ ok s
    → IsAccounted s
unfolding cook_next_order
cook_next_order-IsAccounted rounds r s h t v e =
    by_state-IsAccounted r.robot_state rounds r s refl h t v e

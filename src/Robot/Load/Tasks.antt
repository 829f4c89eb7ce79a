-- ===== src/Robot/Load/Tasks.antt =====
-- The account of the work and the posted tasks (robot.cpp).
use opcua_cps_kitchen.Base.{
  ℕ, zero, suc, ◌%◌, ◌≡◌, subst, inl, inr, false, none, List, [], ◌∷◌, All, length, u32_size,
  Bool-cases, arith,
}
use opcua_cps_kitchen.Actions.{RobotAction}
use opcua_cps_kitchen.Recipe.{has_recipe, get_recipe}
use opcua_cps_kitchen.Robot.State.{
  available, Task, receive, target, profile, commit, cook, Robot, ok, >>=-eq-ok, or_fault,
  or_fault-eq-ok, unknown_recipe,
}
use opcua_cps_kitchen.Robot.Work.{
  Attempt, pop_steps, cook_next_order, cook_unless_busy, accept_task, handle_receive_task,
  commit_position, handle_new_position_commit,
}
use opcua_cps_kitchen.Robot.Loop.{set_target, start_profile, run_task}
use opcua_cps_kitchen.Robot.Activity.{activity, Inv, IsCalm}
use opcua_cps_kitchen.Robot.Activity.Handlers.{Inv-IsCalm}
use opcua_cps_kitchen.Robot.Activity.Tasks.{
  rest_of, enqueue-Inv, receive-Inv, commit_position-IsCalm, cook-IsCalm,
}
use opcua_cps_kitchen.Robot.Load.{IsTimed, IsAccounted}
use opcua_cps_kitchen.Robot.Load.Orders.{enqueue-IsAccounted}
use opcua_cps_kitchen.Robot.Load.Starting.{
  IsResting, cook_next_order-IsAccounted, handle_switch_position-IsAccounted,
  handle_reconfiguration-IsAccounted,
}

calm_timer : (r : Robot) → IsCalm r → r.robot_state ≡ available → r.timer ≡ none
unfolding activity
calm_timer r c h = ground arith

pub calm_cook :
    (rounds : List Attempt) (r s : Robot)
    → IsCalm r
    → IsAccounted r
    → cook_next_order false rounds r ≡ ok s
    → IsAccounted s
calm_cook rounds r s c v e =
    cook_next_order-IsAccounted rounds r s (c.no_retooling, c.no_passing) (calm_timer r c) v e

pub pop_steps-All :
    (n : ℕ) (q p : List RobotAction) → pop_steps n q ≡ ok p → All IsTimed q → All IsTimed p
unfolding pop_steps
pop_steps-All zero q p e h = let same : q ≡ p = cc in subst (All IsTimed) same h
pop_steps-All (suc n) [] p e h = cc
pop_steps-All (suc n) (a ∷ q) p e h = pop_steps-All n q p e h.1

cook_unless_busy-IsAccounted :
    (rounds : List Attempt) (r s : Robot)
    → Inv r
    → IsAccounted r
    → cook_unless_busy false rounds r ≡ ok s
    → IsAccounted s
unfolding cook_unless_busy
cook_unless_busy-IsAccounted rounds r s i v e = elim (Bool-cases r.preparing_dish) [
  | inl busy ↦ let same : r ≡ s = ground arith in subst IsAccounted same v
  | inr idle ↦ calm_cook rounds r s (Inv-IsCalm r i idle) v (ground arith)
]

accept_task-IsAccounted :
    (rounds : List Attempt) (id processed : ℕ) (r s : Robot)
    → Inv r
    → IsAccounted r
    → accept_task false rounds id processed r ≡ ok s
    → IsAccounted s
unfolding accept_task
accept_task-IsAccounted rounds id processed r s i v e =
    let (incoming, known, rest) = >>=-eq-ok (or_fault (get_recipe r.recipe_parser id) _) _ e in
    let (q, popped, cooked) = >>=-eq-ok (pop_steps processed incoming.action_queue) _ rest in
    let timed : All IsTimed q = pop_steps-All processed incoming.action_queue q popped (
      v.timed_recipes id incoming
        (or_fault-eq-ok (get_recipe r.recipe_parser id) unknown_recipe known)) in
    cook_unless_busy-IsAccounted rounds _ s
      (enqueue-Inv id processed (length incoming.action_queue % u32_size) q r i)
      (enqueue-IsAccounted id processed (length incoming.action_queue % u32_size) q r timed v)
      cooked

pub handle_receive_task-IsAccounted :
    (rounds : List Attempt) (id processed : ℕ) (r s : Robot)
    → Inv r
    → IsAccounted r
    → handle_receive_task false rounds id processed r ≡ ok s
    → IsAccounted s
unfolding handle_receive_task
handle_receive_task-IsAccounted rounds id processed r s i v e =
    elim (Bool-cases (has_recipe r.recipe_parser id)) [
      | inl known ↦ accept_task-IsAccounted rounds id processed r s i v (rw known at e)
      | inr unknown ↦ let same : r ≡ s = ground arith in subst IsAccounted same v
    ]

pub idle_timer : (r : Robot) → Inv r → r.preparing_dish ≡ false → IsResting r
idle_timer r i h = let c : IsCalm r = Inv-IsCalm r i h in (c.no_retooling, c.no_passing)

with_target-IsAccounted :
    (p : ℕ) (ts : List Task) (r : Robot)
    → IsAccounted r
    → IsAccounted (record r { tasks = ts; new_target_position = p })
with_target-IsAccounted p ts r v = ground arith

rest_of-IsAccounted : (ts : List Task) (r : Robot) → IsAccounted r → IsAccounted (rest_of ts r)
rest_of-IsAccounted ts r v = ground arith

commit_position-IsAccounted : (r : Robot) → IsAccounted r → IsAccounted (commit_position r)
unfolding commit_position
commit_position-IsAccounted r v = ground arith

set_target-IsAccounted :
    (p : ℕ) (ts : List Task) (r : Robot)
    → Inv r
    → IsAccounted r
    → IsAccounted (set_target p (rest_of ts r))
unfolding set_target
set_target-IsAccounted p ts r i v = elim (Bool-cases r.preparing_dish) [
  | inl busy ↦ ground (arith, with_target-IsAccounted p ts r v)
  | inr idle ↦ ground (
    arith,
    handle_switch_position-IsAccounted (record r { tasks = ts; new_target_position = p })
        (idle_timer r i idle) (with_target-IsAccounted p ts r v),
  )
]

start_profile-IsAccounted :
    (ts : List Task) (r : Robot)
    → Inv r
    → IsAccounted r
    → IsAccounted (start_profile (rest_of ts r))
unfolding start_profile
start_profile-IsAccounted ts r i v = elim (Bool-cases r.preparing_dish) [
  | inl busy ↦ ground (arith, rest_of-IsAccounted ts r v)
  | inr idle ↦ ground (
    arith,
    handle_reconfiguration-IsAccounted (rest_of ts r) (idle_timer r i idle)
        (rest_of-IsAccounted ts r v),
  )
]

pub run_task-IsAccounted :
    (rounds : List Attempt) (t : Task) (ts : List Task) (r s : Robot)
    → Inv r
    → IsAccounted r
    → r.tasks ≡ t ∷ ts
    → run_task rounds t (rest_of ts r) ≡ ok s
    → IsAccounted s
unfolding run_task handle_new_position_commit
run_task-IsAccounted rounds (receive id processed) ts r s i v e k =
    handle_receive_task-IsAccounted rounds id processed (rest_of ts r) s
      (receive-Inv id processed ts r i e) (rest_of-IsAccounted ts r v) k
run_task-IsAccounted rounds (target p) ts r s i v e k =
    let same : set_target p (rest_of ts r) ≡ s = cc in
    subst IsAccounted same (set_target-IsAccounted p ts r i v)
run_task-IsAccounted rounds profile ts r s i v e k =
    let same : start_profile (rest_of ts r) ≡ s = cc in
    subst IsAccounted same (start_profile-IsAccounted ts r i v)
run_task-IsAccounted rounds commit ts r s i v e k =
    calm_cook rounds _ s (commit_position-IsCalm ts r i e)
      (commit_position-IsAccounted (rest_of ts r) (rest_of-IsAccounted ts r v)) k
run_task-IsAccounted rounds cook ts r s i v e k =
    calm_cook rounds _ s (cook-IsCalm ts r i e) (rest_of-IsAccounted ts r v) k

-- ===== src/Robot/Load/Timers.antt =====
-- The account of the work and the handlers of the timer (robot.cpp).
use opcua_cps_kitchen.Base.{
  ℕ, ◌%◌, ◌≡◌, ◌≢◌, refl, subst, inl, inr, String, true, Option, none, some, List, [], ◌∷◌, All,
  ◌==◌, length, u32_size, Bool-cases, arith,
}
use opcua_cps_kitchen.Actions.{RobotAction, same_tool_iff}
use opcua_cps_kitchen.Capabilities.{Capabilities}
use opcua_cps_kitchen.Recipe.{has_recipe, get_recipe}
use opcua_cps_kitchen.Robot.State.{
  Order, Timer, retooling, passing, completing, moving, Robot, ok, >>=-eq-ok, or_fault,
  or_fault-eq-ok, unknown_recipe,
}
use opcua_cps_kitchen.Robot.Work.{
  Attempt, stop, arm, pop_steps, retooling_for, cook_next_order, cook_unless_busy, accept_task,
  handle_receive_task, determine_next_action, count_action, perform_action, action_performed, tick,
  go_on_passing, pass_time, change_tool, equip, retool, move_to_new_position,
  set_current_and_last_equipped_tool, load_profile, clear_orders, receive_again,
  end_reconfiguration, reconfigure_locked, complete_reconfiguration,
}
use opcua_cps_kitchen.Robot.Loop.{Settled, run_timer}
use opcua_cps_kitchen.Robot.Activity.{Inv}
use opcua_cps_kitchen.Robot.Activity.Reconfiguration.{reconfigure_locked-IsCalm}
use opcua_cps_kitchen.Robot.Load.{
  work_time, work_tool, queue_time, queue_tool, IsTimed, IsAccounted, IsOpen,
}
use opcua_cps_kitchen.Robot.Load.Orders.{enqueue-IsAccounted}
use opcua_cps_kitchen.Robot.Load.Cooking.{determine_next_action-IsAccounted}
use opcua_cps_kitchen.Robot.Load.Tasks.{calm_cook, pop_steps-All}

-- The timer is taken off.
abbrev fired : Robot → Robot
fired r = record r { timer = none }

change_tool-IsOpen :
    (a : RobotAction) (q : List RobotAction) (r : Robot)
    → IsAccounted r
    → r.timer ≡ some retooling
    → r.action_queue_in_process ≡ a ∷ q
    → IsOpen (change_tool a.required_tool (fired r))
unfolding change_tool work_time work_tool retooling_for
change_tool-IsOpen a q r v t e = ground (
  arith,
  same_tool_iff a.required_tool r.current_tool,
  same_tool_iff r.current_tool a.required_tool,
  same_tool_iff a.required_tool a.required_tool,
)

-- A tick takes one off the running action and off the reported time; the last one ends the action.
last_tick-IsOpen :
    (a : RobotAction) (q : List RobotAction) (r : Robot)
    → IsAccounted r
    → r.timer ≡ some passing
    → r.action_queue_in_process ≡ a ∷ q
    → (tick r).current_action_duration ≡ 0
    → IsOpen (count_action q (tick (fired r)))
unfolding tick count_action
last_tick-IsOpen a q r v t e d = ground arith

tick-IsAccounted :
    (a : RobotAction) (q : List RobotAction) (r : Robot)
    → IsAccounted r
    → r.timer ≡ some passing
    → r.action_queue_in_process ≡ a ∷ q
    → (tick r).current_action_duration ≢ 0
    → IsAccounted (arm passing (tick (fired r)))
unfolding tick arm stop
tick-IsAccounted a q r v t e d = ground arith

equip-IsAccounted :
    (q : List RobotAction) (rounds : List Attempt) (r s : Robot)
    → IsAccounted r
    → r.timer ≡ some retooling
    → r.action_queue_in_process ≡ q
    → equip q rounds (fired r) ≡ ok s
    → IsAccounted s
unfolding equip
equip-IsAccounted [] rounds r s v t e k = cc
equip-IsAccounted (a ∷ q) rounds r s v t e k =
    determine_next_action-IsAccounted rounds (change_tool a.required_tool (fired r)) s
      (change_tool-IsOpen a q r v t e) k

-- A running action has its place at the front of the dish in process.
pass_time-IsAccounted :
    (q : List RobotAction) (rounds : List Attempt) (r s : Robot)
    → IsAccounted r
    → r.timer ≡ some passing
    → r.action_queue_in_process ≡ q
    → pass_time rounds (fired r) ≡ ok s
    → IsAccounted s
unfolding pass_time go_on_passing action_performed
pass_time-IsAccounted [] rounds r s v t e k = absurd (ground arith)
pass_time-IsAccounted (a ∷ q) rounds r s v t e k =
    elim (Bool-cases ((tick r).current_action_duration == 0)) [
      | inl done ↦
          determine_next_action-IsAccounted rounds (count_action q (tick (fired r))) s
            (last_tick-IsOpen a q r v t e (unfold tick in (ground arith))) (performs done)
      | inr more ↦
          let same : arm passing (tick (fired r)) ≡ s = unfold tick in (ground arith) in
          subst IsAccounted same (tick-IsAccounted a q r v t e (unfold tick in (ground arith)))
    ]
  where
    performs :
        ((tick r).current_action_duration == 0) ≡ true
        → determine_next_action rounds (count_action q (tick (fired r))) ≡ ok s
    performs done = unfold tick perform_action in (ground arith)

receive_locked-IsAccounted :
    (rounds : List Attempt) (id processed : ℕ) (r s : Robot)
    → IsAccounted r
    → handle_receive_task true rounds id processed r ≡ ok s
    → IsAccounted s
unfolding handle_receive_task accept_task
receive_locked-IsAccounted rounds id processed r s v e =
    elim (Bool-cases (has_recipe r.recipe_parser id)) [
      | inr unknown ↦ let same : r ≡ s = ground arith in subst IsAccounted same v
      | inl known ↦
          let (incoming, found, rest) =
            >>=-eq-ok (or_fault (get_recipe r.recipe_parser id) _) _ (rw known at e) in
          let (q, popped, cooked) = >>=-eq-ok (pop_steps processed incoming.action_queue) _ rest in
          let timed : All IsTimed q = pop_steps-All processed incoming.action_queue q popped (
            v.timed_recipes id incoming
              (or_fault-eq-ok (get_recipe r.recipe_parser id) unknown_recipe found)) in
          subst IsAccounted (unbusy _ s cooked)
            (enqueue-IsAccounted id processed (length incoming.action_queue % u32_size) q r timed v)
    ]
  where
    unbusy : (x y : Robot) → cook_unless_busy true rounds x ≡ ok y → x ≡ y
    unbusy x y h = unfold cook_unless_busy cook_next_order in (ground arith)

receive_again-IsAccounted :
    (rounds : List Attempt) (os : List Order) (r s : Robot)
    → IsAccounted r
    → receive_again rounds os r ≡ ok s
    → IsAccounted s
unfolding receive_again
receive_again-IsAccounted rounds [] r s v e = let same : r ≡ s = cc in subst IsAccounted same v
receive_again-IsAccounted rounds (o ∷ os) r s v e =
    let (t, first, rest) =
      >>=-eq-ok (handle_receive_task true rounds o.recipe_id o.overall_processed_steps r) _ e in
    receive_again-IsAccounted rounds os t s
      (receive_locked-IsAccounted rounds o.recipe_id o.overall_processed_steps r t v first) rest

-- With the new tool and no orders there is nothing to report.
cleared-IsAccounted :
    (choice : ℕ) (caps : Capabilities) (r t : Robot)
    → IsAccounted r
    → set_current_and_last_equipped_tool choice (load_profile caps (fired r)) ≡ ok t
    → IsAccounted (clear_orders t)
unfolding set_current_and_last_equipped_tool load_profile clear_orders queue_time queue_tool
cleared-IsAccounted choice caps r t v e = ground arith

end-IsAccounted : (r : Robot) → IsAccounted r → IsAccounted (end_reconfiguration r)
unfolding end_reconfiguration
end-IsAccounted r v = ground arith

reconfigure_locked-IsAccounted :
    (profiles : String → Option Capabilities) (choice : ℕ) (rounds : List Attempt) (r s : Robot)
    → IsAccounted r
    → reconfigure_locked profiles choice rounds (fired r) ≡ ok s
    → IsAccounted s
unfolding reconfigure_locked
reconfigure_locked-IsAccounted profiles choice rounds r s v k =
    let (caps, _, k1) = >>=-eq-ok (or_fault (profiles r.new_capabilities_profile) _) _ k in
    let (t, equipped, k2) =
      >>=-eq-ok (set_current_and_last_equipped_tool choice (load_profile caps (fired r))) _ k1 in
    let (u, received, k3) = >>=-eq-ok (receive_again rounds r.order_queue (clear_orders t)) _ k2 in
    let same : end_reconfiguration u ≡ s = cc in
    subst IsAccounted same (
      end-IsAccounted u (
        receive_again-IsAccounted rounds r.order_queue (clear_orders t) u
          (cleared-IsAccounted choice caps r t v equipped) received))

moved-IsAccounted :
    (ms : ℕ) (r : Robot)
    → IsAccounted r
    → r.timer ≡ some (moving ms)
    → IsAccounted (move_to_new_position (fired r))
unfolding move_to_new_position
moved-IsAccounted ms r v t = ground arith

pub run_timer-IsAccounted :
    (profiles : String → Option Capabilities) (choice : ℕ) (rounds : List Attempt) (t : Timer)
    (r s : Robot)
    → Inv r
    → IsAccounted r
    → r.timer ≡ some t
    → Settled t r.tasks
    → run_timer profiles choice rounds t (fired r) ≡ ok s
    → IsAccounted s
unfolding run_timer retool complete_reconfiguration
run_timer-IsAccounted profiles choice rounds retooling r s i v e h k =
    equip-IsAccounted r.action_queue_in_process rounds r s v e refl k
run_timer-IsAccounted profiles choice rounds passing r s i v e h k =
    pass_time-IsAccounted r.action_queue_in_process rounds r s v e refl k
run_timer-IsAccounted profiles choice rounds completing r s i v e h k =
    let (t, locked, cooked) = >>=-eq-ok (reconfigure_locked profiles choice rounds (fired r)) _ k in
    calm_cook rounds t s (reconfigure_locked-IsCalm profiles choice rounds r t i e h locked)
      (reconfigure_locked-IsAccounted profiles choice rounds r t v locked) cooked
run_timer-IsAccounted profiles choice rounds (moving ms) r s i v e h k =
    let same : move_to_new_position (fired r) ≡ s = cc in
    subst IsAccounted same (moved-IsAccounted ms r v e)

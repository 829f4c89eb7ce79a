-- ===== src/Robot/Activity/Reconfiguration.antt =====
-- The activity of a robot and the end of a reconfiguration (complete_reconfiguration of
-- robot.cpp).
use opcua_cps_kitchen.Base.{ℕ, ◌≡◌, subst, String, true, Option, none, some, List, [], ◌∷◌, arith}
use opcua_cps_kitchen.Capabilities.{Capabilities}
use opcua_cps_kitchen.Robot.State.{Order, completing, Robot, ok, >>=-eq-ok, or_fault}
use opcua_cps_kitchen.Robot.Work.{
  Attempt, cook_next_order, enqueue, cook_unless_busy, compute_overall_time_and_determine_last_tool,
  accept_task, handle_receive_task, set_current_and_last_equipped_tool, load_profile, clear_orders,
  receive_again, end_reconfiguration, reconfigure_locked, complete_reconfiguration,
}
use opcua_cps_kitchen.Robot.Loop.{is_profile, count_tasks}
use opcua_cps_kitchen.Robot.Activity.{activity, Inv, IsCalm}
use opcua_cps_kitchen.Robot.Activity.Handlers.{cook_next_order-Inv}

-- Two states that agree on what the activity of a robot depends on.
record SameControl (r s : Robot) : Type 0 where
  preparing : s.preparing_dish ≡ r.preparing_dish
  rearranges : s.already_rearranging ≡ r.already_rearranging
  reconfigures : s.already_reconfiguring ≡ r.already_reconfiguring
  pickup : s.pending_pickup ≡ r.pending_pickup
  state : s.robot_state ≡ r.robot_state
  timer : s.timer ≡ r.timer
  tasks : s.tasks ≡ r.tasks
  commit : s.attributes.new_position_commit_is_pending ≡ r.attributes.new_position_commit_is_pending

receive_locked-SameControl :
    (rounds : List Attempt) (id processed : ℕ) (r s : Robot)
    → handle_receive_task true rounds id processed r ≡ ok s
    → SameControl r s
unfolding handle_receive_task accept_task enqueue compute_overall_time_and_determine_last_tool
    cook_unless_busy cook_next_order
receive_locked-SameControl rounds id processed r s e = ground arith

receive_again-SameControl :
    (rounds : List Attempt) (os : List Order) (r s : Robot)
    → receive_again rounds os r ≡ ok s
    → SameControl r s
unfolding receive_again
receive_again-SameControl rounds [] r s e = ground arith
receive_again-SameControl rounds (o ∷ os) r s e =
    let (t, first, rest) =
      >>=-eq-ok (handle_receive_task true rounds o.recipe_id o.overall_processed_steps r) _ e in
    ground (
      arith,
      receive_locked-SameControl rounds o.recipe_id o.overall_processed_steps r t first,
      receive_again-SameControl rounds os t s rest,
    )

end_reconfiguration-IsCalm :
    (r s : Robot)
    → Inv r
    → r.timer ≡ some completing
    → count_tasks is_profile r.tasks ≡ 0
    → SameControl (record r { timer = none }) s
    → IsCalm (end_reconfiguration s)
unfolding end_reconfiguration activity
end_reconfiguration-IsCalm r s v e h c = ground arith

equip_random-SameControl :
    (choice : ℕ) (r s : Robot)
    → set_current_and_last_equipped_tool choice r ≡ ok s
    → SameControl r s
unfolding set_current_and_last_equipped_tool
equip_random-SameControl choice r s e = ground arith

SameControl-trans : {r s t : Robot} → SameControl r s → SameControl s t → SameControl r t
SameControl-trans h k = ground arith

clear_orders-SameControl :
    (r : Robot) (caps : Capabilities) (t : Robot)
    → SameControl (load_profile caps r) t
    → SameControl r (clear_orders t)
unfolding load_profile clear_orders
clear_orders-SameControl r caps t h = ground arith

-- Under the lock the reconfiguration leaves the activity alone, up to its end.
pub reconfigure_locked-IsCalm :
    (profiles : String → Option Capabilities) (choice : ℕ) (rounds : List Attempt) (r s : Robot)
    → Inv r
    → r.timer ≡ some completing
    → count_tasks is_profile r.tasks ≡ 0
    → reconfigure_locked profiles choice rounds (record r { timer = none }) ≡ ok s
    → IsCalm s
unfolding reconfigure_locked
reconfigure_locked-IsCalm profiles choice rounds r s v e h k =
    let (caps, _, k1) = >>=-eq-ok (or_fault (profiles r.new_capabilities_profile) _) _ k in
    let (t, equipped, k2) =
      >>=-eq-ok
        (set_current_and_last_equipped_tool choice (load_profile caps (record r { timer = none })))
        _ k1 in
    let (u, received, k3) = >>=-eq-ok (receive_again rounds r.order_queue (clear_orders t)) _ k2 in
    let same : end_reconfiguration u ≡ s = cc in
    subst IsCalm same (
      end_reconfiguration-IsCalm r u v e h (
        SameControl-trans
          (clear_orders-SameControl (record r { timer = none }) caps t
            (equip_random-SameControl choice _ t equipped))
          (receive_again-SameControl rounds r.order_queue (clear_orders t) u received)))

pub complete_reconfiguration-Inv :
    (profiles : String → Option Capabilities) (choice : ℕ) (rounds : List Attempt) (r s : Robot)
    → Inv r
    → r.timer ≡ some completing
    → count_tasks is_profile r.tasks ≡ 0
    → complete_reconfiguration profiles choice rounds (record r { timer = none }) ≡ ok s
    → s.running ≡ true
    → Inv s
unfolding complete_reconfiguration
complete_reconfiguration-Inv profiles choice rounds r s v e h k run =
    let (t, locked, cooked) =
      >>=-eq-ok (reconfigure_locked profiles choice rounds (record r { timer = none })) _ k in
    cook_next_order-Inv rounds t s
      (reconfigure_locked-IsCalm profiles choice rounds r t v e h locked) cooked run

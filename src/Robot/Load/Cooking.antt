-- ===== src/Robot/Load/Cooking.antt =====
-- The account of the work and the actions of a dish (determine_next_action of robot.cpp).
use opcua_cps_kitchen.Base.{
  ◌%◌, ◌≡◌, refl, ◌∙◌, subst, inl, inr, Bool, true, false, none, List, [], ◌∷◌, All, u32_size,
  Bool-cases, arith,
}
use opcua_cps_kitchen.Actions.{RobotAction, same_tool, same_tool_iff}
use opcua_cps_kitchen.Capabilities.{is_capable_to}
use opcua_cps_kitchen.Robot.State.{retooling, Robot, ok}
use opcua_cps_kitchen.Robot.Work.{
  Attempt, failed, stopped, answered, Reply, bad_size, bad_type, returned, stop, arm, retooling_for,
  notify_conveyor, receive_finished_order_notification_called, begin_action,
  reset_in_process_fields, go_on, determine_next_action,
}
use opcua_cps_kitchen.Robot.Load.{
  work_time, work_tool, queue_time, queue_tool, IsTimed, AreTimed, IsAccounted, IsOpen,
}

-- With nothing left that the robot can do, the dish in process needs no more time.
record IsServed (r : Robot) : Type 0 where
  time :
      r.attributes.overall_time
      ≡ queue_time r.capability_parser r.current_tool r.order_queue % u32_size
  tool :
      r.attributes.last_equipped_tool ≡ queue_tool r.capability_parser r.current_tool r.order_queue
  waits : r.timer ≡ none
  timed_process : All IsTimed r.action_queue_in_process
  timed_orders : All (λ o. All IsTimed o.action_queue) r.order_queue
  timed_recipes : AreTimed r.recipe_parser

served-IsAccounted : (r : Robot) → IsServed r → IsAccounted r
served-IsAccounted r h = ground arith

called-IsServed :
    (p : Reply) (r : Robot)
    → IsServed r
    → IsServed (receive_finished_order_notification_called p (record r { pending_pickup = true }))
unfolding receive_finished_order_notification_called stop
called-IsServed bad_size r h = ground arith
called-IsServed bad_type r h = ground arith
called-IsServed (returned true) r h = ground arith
called-IsServed (returned false) r h = ground arith

notify_conveyor-IsServed :
    (rounds : List Attempt) (r s : Robot)
    → IsServed r
    → notify_conveyor rounds r ≡ ok s
    → IsServed s
unfolding notify_conveyor
notify_conveyor-IsServed [] r s h e = cc
notify_conveyor-IsServed (failed ∷ rounds) r s h e = notify_conveyor-IsServed rounds r s h e
notify_conveyor-IsServed (stopped ∷ rounds) r s h e =
    let same : stop r ≡ s = cc in subst IsServed same (unfold stop in (ground arith))
notify_conveyor-IsServed (answered p ∷ rounds) r s h e =
    let same : receive_finished_order_notification_called p (record r { pending_pickup = true })
        ≡ s =
      cc in
    subst IsServed same (called-IsServed p r h)

-- The dish in process has no action left, or one that the robot is not capable of.
AtEnd : List RobotAction → Robot → Type 0
AtEnd q r =
    (work_time r.capability_parser r.current_tool q ≡ 0)
    × (work_tool r.capability_parser r.current_tool q ≡ r.current_tool)

end-IsServed :
    (finished : Bool) (r : Robot)
    → IsOpen r
    → AtEnd r.action_queue_in_process r
    → IsServed (record (reset_in_process_fields r) { is_dish_finished = finished })
unfolding AtEnd reset_in_process_fields
end-IsServed finished r h (time, tool) = record {
  time = h.time ∙ rw (time, tool) (omega arith);
  tool = h.tool ∙ rw tool;
  waits = h.waits;
  timed_process = h.timed_process;
  timed_orders = h.timed_orders;
  timed_recipes = h.timed_recipes;
}

retool-IsAccounted :
    (a : RobotAction) (q : List RobotAction) (r : Robot)
    → IsOpen r
    → r.action_queue_in_process ≡ a ∷ q
    → is_capable_to r.capability_parser a.name ≡ true
    → same_tool a.required_tool r.current_tool ≡ false
    → IsAccounted (arm retooling r)
unfolding arm stop
retool-IsAccounted a q r h e capable other = ground arith

begin_action-IsAccounted :
    (a : RobotAction) (q : List RobotAction) (r : Robot)
    → IsOpen r
    → r.action_queue_in_process ≡ a ∷ q
    → is_capable_to r.capability_parser a.name ≡ true
    → same_tool a.required_tool r.current_tool ≡ true
    → IsAccounted (begin_action a r)
unfolding begin_action arm stop work_time work_tool retooling_for
begin_action-IsAccounted a q r h e capable same =
    ground (arith, same_tool_iff a.required_tool r.current_tool)

go_on-IsAccounted :
    (q : List RobotAction) (rounds : List Attempt) (r s : Robot)
    → r.action_queue_in_process ≡ q
    → IsOpen r
    → go_on q rounds r ≡ ok s
    → IsAccounted s
unfolding go_on
go_on-IsAccounted [] rounds r s here h e = served-IsAccounted s (
    notify_conveyor-IsServed rounds _ s
      (end-IsServed true r h (rw here (unfold AtEnd work_time work_tool in (refl, refl)))) e)
go_on-IsAccounted (a ∷ q) rounds r s here h e =
    elim (Bool-cases (is_capable_to r.capability_parser a.name)) [
      | inr no_more ↦ served-IsAccounted s (
          notify_conveyor-IsServed rounds _ s
            (end-IsServed false r h
              (rw here (unfold AtEnd work_time work_tool in (rw no_more (refl, refl)))))
            (rw no_more at e))
      | inl capable ↦ elim (Bool-cases (same_tool a.required_tool r.current_tool)) [
        | inl same ↦
            let done : begin_action a r ≡ s = ground arith in
            subst IsAccounted done (begin_action-IsAccounted a q r h here capable same)
        | inr other ↦
            let done : arm retooling r ≡ s = ground arith in
            subst IsAccounted done (retool-IsAccounted a q r h here capable other)
      ]
    ]

pub determine_next_action-IsAccounted :
    (rounds : List Attempt) (r s : Robot)
    → IsOpen r
    → determine_next_action rounds r ≡ ok s
    → IsAccounted s
unfolding determine_next_action
determine_next_action-IsAccounted rounds r s h e =
    go_on-IsAccounted r.action_queue_in_process rounds r s refl h e

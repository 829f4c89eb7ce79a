-- ===== src/Robot/Load/Orders.antt =====
-- The account of the work and a new order (handle_receive_task of robot.cpp).
use opcua_cps_kitchen.Base.{
  ℕ, ◌+◌, ◌%◌, ◌<◌, ◌≡◌, refl, sym, ap, ◌∙◌, inl, inr, List, [], ◌∷◌, ◌++◌, All, All-append,
  u32_size, Bool-cases, arith,
}
use opcua_cps_kitchen.Actions.{RobotTool, RobotAction}
use opcua_cps_kitchen.Capabilities.{Capabilities, is_capable_to}
use opcua_cps_kitchen.Robot.State.{Order, Robot}
use opcua_cps_kitchen.Robot.Work.{
  add32, retooling_for, compute_loop, compute_overall_time_and_determine_last_tool, enqueue,
  new_order,
}
use opcua_cps_kitchen.Robot.Load.{
  work_time, work_tool, queue_time, queue_tool, next_tool_of, IsTimed, IsAccounted,
}

-- The loop adds the work to the time, and ends with the tool after it.
compute_loop_lem :
    (caps : Capabilities) (time : ℕ) (tool : RobotTool) (steps : ℕ) (q : List RobotAction)
    → time < u32_size
    → ((compute_loop caps time tool steps q).0 ≡ (time + work_time caps tool q) % u32_size)
      × ((compute_loop caps time tool steps q).1 ≡ work_tool caps tool q)
unfolding compute_loop work_time work_tool
compute_loop_lem caps time tool steps [] h = (omega arith, refl)
compute_loop_lem caps time tool steps (a ∷ q) h = elim (Bool-cases (is_capable_to caps a.name)) [
  | inr no_more ↦ rw no_more (omega arith, refl)
  | inl capable ↦
      let (time_rest, tool_rest) =
        compute_loop_lem caps (add32 (add32 time (retooling_for tool a)) a.duration) a.required_tool
          (add32 steps 1) q (omega arith) in
      rw capable (omega (arith, time_rest), tool_rest)
]

queue_time-append :
    (caps : Capabilities) (tool : RobotTool) (os : List Order) (o : Order)
    → queue_time caps tool (os ++ o ∷ [])
      ≡ queue_time caps tool os + work_time caps (queue_tool caps tool os) o.action_queue
unfolding queue_time queue_tool
queue_time-append caps tool [] o = omega arith
queue_time-append caps tool (p ∷ os) o =
    omega (arith, queue_time-append caps (work_tool caps tool p.action_queue) os o)

queue_tool-append :
    (caps : Capabilities) (tool : RobotTool) (os : List Order) (o : Order)
    → queue_tool caps tool (os ++ o ∷ []) ≡ work_tool caps (queue_tool caps tool os) o.action_queue
unfolding queue_tool
queue_tool-append caps tool [] o = refl
queue_tool-append caps tool (p ∷ os) o =
    queue_tool-append caps (work_tool caps tool p.action_queue) os o

-- An order with actions that take time is accounted for when it is appended to the queue.
pub enqueue-IsAccounted :
    (id processed total : ℕ) (q : List RobotAction) (r : Robot)
    → All IsTimed q
    → IsAccounted r
    → IsAccounted (enqueue id processed total q r)
unfolding enqueue compute_overall_time_and_determine_last_tool
enqueue-IsAccounted id processed total q r timed h = record {
  reports = record {
    time = omega (
      arith,
      h.reports.time,
      work.0,
      ap (λ t. work_time r.capability_parser t q) h.reports.tool,
      queue_time-append r.capability_parser (next_tool_of r) r.order_queue
          (new_order id processed total q r),
    );
    tool =
        work.1
        ∙ ap (λ t. work_tool r.capability_parser t q) h.reports.tool
        ∙ sym (
            queue_tool-append r.capability_parser (next_tool_of r) r.order_queue
              (new_order id processed total q r));
  };
  in_process = h.in_process;
  timed_process = h.timed_process;
  timed_orders =
      All-append (λ o. All IsTimed o.action_queue) r.order_queue
        (new_order id processed total q r ∷ []) h.timed_orders (timed, tt);
  timed_recipes = h.timed_recipes;
}
  where
    work :
        ((compute_loop r.capability_parser r.attributes.overall_time r.attributes.last_equipped_tool
            0 q).0
          ≡ (r.attributes.overall_time
              + work_time r.capability_parser r.attributes.last_equipped_tool q)
            % u32_size)
        × ((compute_loop r.capability_parser r.attributes.overall_time
              r.attributes.last_equipped_tool 0 q).1
            ≡ work_tool r.capability_parser r.attributes.last_equipped_tool q)
    work =
        compute_loop_lem r.capability_parser r.attributes.overall_time
          r.attributes.last_equipped_tool 0 q (omega (arith, h.reports.time))

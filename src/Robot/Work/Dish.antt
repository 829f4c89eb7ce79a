-- ===== src/Robot/Work/Dish.antt =====
-- The account of a robot's work, and the actions of the dish in process (robot.cpp). Log lines are
-- left out, and setting an attribute node of the robot's own server is taken to succeed.
use opcua_cps_kitchen.Base.{ℕ, Bool, true, false, List, [], ◌∷◌, ◌==◌, if◌then◌else◌}
use opcua_cps_kitchen.Actions.{
  RobotTool, RobotAction, same_tool, retooling_time, robot_tool_to_string,
}
use opcua_cps_kitchen.Capabilities.{Capabilities, is_capable_to}
use opcua_cps_kitchen.Robot.State.{
  retooling, passing, Robot, Outcome, ok, fault, empty_queue, blocked,
}
use opcua_cps_kitchen.Robot.Work.Timing.{time_unit_update_rate, stop, arm, add32, sub32, sub64}

-- The time to change the tool before an action.
unfoldable pub retooling_for : RobotTool → RobotAction → ℕ
retooling_for t a = if same_tool t a.required_tool then 0 else retooling_time

-- The while loop of compute_overall_time_and_determine_last_tool, over overall_time,
-- last_equipped_tool and processable_steps.
unfoldable pub compute_loop :
    Capabilities → ℕ → RobotTool → ℕ → List RobotAction → ℕ × RobotTool × ℕ
unfolding retooling_for
compute_loop caps time tool steps [] = (time, tool, steps)
compute_loop caps time tool steps (a ∷ q) =
    if is_capable_to caps a.name
    then compute_loop caps (add32 (add32 time (retooling_for tool a)) a.duration) a.required_tool
        (add32 steps 1) q
    else (time, tool, steps)

unfoldable pub compute_overall_time_and_determine_last_tool : List RobotAction → Robot → Robot × ℕ
unfolding compute_loop
compute_overall_time_and_determine_last_tool q r =
    let (time, tool, steps) =
      compute_loop r.capability_parser r.attributes.overall_time r.attributes.last_equipped_tool 0
        q in
    (
      record r {
        attributes = record (r.attributes) { overall_time = time; last_equipped_tool = tool };
      },
      steps,
    )

unfoldable pub reset_in_process_fields : Robot → Robot
reset_in_process_fields r = record r {
  attributes = record (r.attributes) { action_name = "None"; ingredients = "None" };
}

-- What the conveyor's method node gives back: another number of outputs, an output of another
-- type, or the flag.
pub data Reply : Type 0 where
  bad_size bad_type : Reply
  returned : Bool → Reply

unfoldable pub receive_finished_order_notification_called : Reply → Robot → Robot
unfolding stop
receive_finished_order_notification_called bad_size r = stop r
receive_finished_order_notification_called bad_type r = r
receive_finished_order_notification_called (returned received) r = if received then r else stop r

-- One round of the loop that notifies the conveyor: the call fails (or there is no client) and the
-- loop waits for a connection, the robot is found to be stopped, or the call is answered.
pub data Attempt : Type 0 where
  failed stopped : Attempt
  answered : Reply → Attempt

unfoldable pub notify_conveyor : List Attempt → Robot → Outcome Robot
unfolding receive_finished_order_notification_called
notify_conveyor [] r = fault blocked
notify_conveyor (failed ∷ rounds) r = notify_conveyor rounds r
notify_conveyor (stopped ∷ rounds) r = ok (stop r)
notify_conveyor (answered p ∷ rounds) r =
    ok (receive_finished_order_notification_called p (record r { pending_pickup = true }))

-- The three ways to go on with the action in front.
unfoldable pub begin_action : RobotAction → Robot → Robot
unfolding arm
begin_action a r = arm passing (record r {
  attributes = record (r.attributes) { action_name = a.name; ingredients = a.ingredients };
  current_action_duration = a.duration;
})

unfoldable pub go_on : List RobotAction → List Attempt → Robot → Outcome Robot
unfolding notify_conveyor reset_in_process_fields begin_action
go_on [] rounds r =
    notify_conveyor rounds (record (reset_in_process_fields r) { is_dish_finished = true })
go_on (a ∷ q) rounds r =
    if is_capable_to r.capability_parser a.name
    then if same_tool a.required_tool r.current_tool
      then ok (begin_action a r)
      else ok (arm retooling r)
    else notify_conveyor rounds (record (reset_in_process_fields r) { is_dish_finished = false })

unfoldable pub determine_next_action : List Attempt → Robot → Outcome Robot
unfolding go_on
determine_next_action rounds r = go_on r.action_queue_in_process rounds r

unfoldable pub count_action : List RobotAction → Robot → Robot
count_action q r = record r {
  action_queue_in_process = q;
  attributes = record (r.attributes) {
    overall_processed_steps = add32 r.attributes.overall_processed_steps 1;
    processed_steps = add32 r.attributes.processed_steps 1;
  };
}

unfoldable pub perform_action : List RobotAction → List Attempt → Robot → Outcome Robot
unfolding count_action determine_next_action
perform_action [] rounds r = fault empty_queue
perform_action (a ∷ q) rounds r = determine_next_action rounds (count_action q r)

unfoldable pub action_performed : List Attempt → Robot → Outcome Robot
unfolding perform_action
action_performed rounds r = perform_action r.action_queue_in_process rounds r

unfoldable pub tick : Robot → Robot
tick r = record r {
  current_action_duration = sub64 r.current_action_duration time_unit_update_rate;
  attributes = record (r.attributes) {
    overall_time = sub32 r.attributes.overall_time time_unit_update_rate;
  };
}

unfoldable pub go_on_passing : List Attempt → Robot → Outcome Robot
unfolding arm action_performed
go_on_passing rounds r =
    if r.current_action_duration == 0 then action_performed rounds r else ok (arm passing r)

unfoldable pub pass_time : List Attempt → Robot → Outcome Robot
unfolding tick go_on_passing
pass_time rounds r = go_on_passing rounds (tick r)

unfoldable pub change_tool : RobotTool → Robot → Robot
change_tool t r = record r {
  current_tool = t;
  attributes = record (r.attributes) {
    current_tool = robot_tool_to_string t;
    overall_time = sub32 r.attributes.overall_time retooling_time;
  };
}

unfoldable pub equip : List RobotAction → List Attempt → Robot → Outcome Robot
unfolding change_tool determine_next_action
equip [] rounds r = fault empty_queue
equip (a ∷ q) rounds r = determine_next_action rounds (change_tool a.required_tool r)

unfoldable pub retool : List Attempt → Robot → Outcome Robot
unfolding equip
retool rounds r = equip r.action_queue_in_process rounds r

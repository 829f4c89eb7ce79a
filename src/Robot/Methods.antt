-- ===== src/Robot/Methods.antt =====
-- The method nodes of a robot, which run on its server thread (robot.cpp). Each holds the inputs
-- that the OPC UA server hands over; the method context is the robot, and copying a scalar into
-- the outputs is taken to succeed.
use opcua_cps_kitchen.Base.{
  ℕ, ◌+◌, ◌-◌, ◌%◌, String, Bool, true, false, ◌&&◌, ◌||◌, Option, List, [], ◌∷◌, ◌==◌, ltb,
  if◌then◌else◌, u32_size,
}
use opcua_cps_kitchen.Actions.{RobotAction}
use opcua_cps_kitchen.Capabilities.{Capabilities, is_capable_to, same_capabilities}
use opcua_cps_kitchen.Recipe.{get_recipe}
use opcua_cps_kitchen.Robot.State.{
  RobotState, available, rearranging, reconfiguring, receive, target, profile, commit, cook, Robot,
  Outcome, ok, fault, unknown_recipe, empty_queue, invalid_profile, ◌>>=◌, or_fault,
}
use opcua_cps_kitchen.Robot.Work.{post, pop_steps}

-- The scalars that the inputs may hold.
pub data Variant : Type 0 where
  uint32 : ℕ → Variant
  string : String → Variant
  boolean : Bool → Variant

-- UA_STATUSCODE_BAD, or UA_STATUSCODE_GOOD with the outputs.
pub data Answer {ℓ} (A : Type ℓ) : Type ℓ where
  bad : Answer A
  good : A → Answer A

unfoldable pub is_available : RobotState → Bool
is_available available = true
is_available rearranging = false
is_available reconfiguring = false

unfoldable pub is_rearranging : RobotState → Bool
is_rearranging available = false
is_rearranging rearranging = true
is_rearranging reconfiguring = false

unfoldable pub can_begin : Capabilities → List RobotAction → Outcome Bool
can_begin caps [] = fault empty_queue
can_begin caps (a ∷ q) = ok (is_capable_to caps a.name)

unfoldable pub can_prepare : ℕ → ℕ → Robot → Outcome Bool
unfolding pop_steps can_begin
can_prepare id processed r = do
  incoming ← or_fault (get_recipe r.recipe_parser id) unknown_recipe
  q ← pop_steps processed incoming.action_queue
  can_begin r.capability_parser q

-- Whether the robot takes the task.
unfoldable pub task_received : ℕ → ℕ → ℕ → Robot → Outcome Bool
unfolding is_available can_prepare
task_received id processed addressed r =
    if is_available r.robot_state && addressed == r.position
    then can_prepare id processed r
    else ok false

unfoldable pub answer_task : ℕ → ℕ → Robot → Bool → Robot × Answer (ℕ × Bool)
unfolding post
answer_task id processed r received =
    (if received then post (receive id processed) r else r, good (r.position, received))

unfoldable pub receive_task : List Variant → Robot → Outcome (Robot × Answer (ℕ × Bool))
unfolding task_received answer_task
receive_task (uint32 id ∷ uint32 processed ∷ uint32 addressed ∷ []) r = do
  received ← task_received id processed addressed r
  ok (answer_task id processed r received)
receive_task _ r = ok (r, bad)

-- robot_endpoint, robot_position, recipe_id, processed_steps, is_dish_finished.
pub record Handover : Type 0 where
  pub robot_endpoint : String
  pub robot_position : ℕ
  pub recipe_id : ℕ
  pub processed_steps : ℕ
  pub is_dish_finished : Bool

unfoldable pub nothing_to_hand_over : Robot → Handover
nothing_to_hand_over r = record {
  robot_endpoint = r.server_endpoint;
  robot_position = r.position;
  recipe_id = 0;
  processed_steps = 0;
  is_dish_finished = false;
}

unfoldable pub finished_order : Robot → Handover
finished_order r = record {
  robot_endpoint = r.server_endpoint;
  robot_position = r.position;
  recipe_id = r.attributes.recipe_id;
  processed_steps = r.attributes.overall_processed_steps;
  is_dish_finished = r.is_dish_finished;
}

unfoldable pub forget_order : Robot → Robot
forget_order r = record r {
  pending_pickup = false;
  is_dish_finished = false;
  attributes = record (r.attributes) {
    processed_steps = 0;
    processable_steps = 0;
    overall_processed_steps = 0;
    overall_processing_steps = 0;
    recipe_id = 0;
    dish_name = "None";
  };
}

unfoldable pub handle_handover_finished_order : Robot → Robot × Handover
unfolding nothing_to_hand_over finished_order forget_order post
handle_handover_finished_order r =
    if r.pending_pickup
    then (post cook (forget_order r), finished_order r)
    else (r, nothing_to_hand_over r)

unfoldable pub good_handover : Robot × Handover → Robot × Answer Handover
good_handover (r, h) = (r, good h)

unfoldable pub handover_finished_order : List Variant → Robot → Robot × Answer Handover
unfolding handle_handover_finished_order good_handover
handover_finished_order [] r = good_handover (handle_handover_finished_order r)
handover_finished_order (v ∷ vs) r = (r, bad)

-- `new_position <= 0 || new_position > conveyor_size_ - 1 || new_position == position_`, on
-- unsigned numbers.
unfoldable pub refuses_position : ℕ → Robot → Bool
refuses_position p r =
    p == 0 || ltb ((r.conveyor_size + u32_size - 1) % u32_size) p || p == r.position

unfoldable pub request_position : ℕ → Robot → Robot
unfolding post
request_position p r = post (target p) (record r {
  robot_state = rearranging;
  attributes = record (r.attributes) { availability = false };
})

-- `written` tells whether setting the AVAILABILITY attribute returns GOOD.
unfoldable pub switch_position : Bool → List Variant → Robot → Robot × Answer Bool
unfolding refuses_position is_available request_position
switch_position written (uint32 p ∷ []) r =
    if refuses_position p r
    then (r, good false)
    else if is_available r.robot_state && written
    then (request_position p r, good true)
    else (r, good false)
switch_position written _ r = (r, bad)

unfoldable pub commit_new_position : List Variant → Robot → Robot × Answer Bool
unfolding is_rearranging post
commit_new_position [] r =
    if is_rearranging r.robot_state && r.attributes.new_position_commit_is_pending
    then (post commit r, good true)
    else (r, good false)
commit_new_position (v ∷ vs) r = (r, bad)

unfoldable pub request_profile : String → Robot → Robot
unfolding post
request_profile name r = post profile (record r {
  robot_state = reconfiguring;
  new_capabilities_profile = name;
  attributes = record (r.attributes) { availability = false };
})

unfoldable pub begin_reconfiguration : Bool → String → Robot → Robot × Answer Bool
unfolding is_available request_profile
begin_reconfiguration written name r =
    if is_available r.robot_state && written
    then (request_profile name r, good true)
    else (r, good false)

-- `profiles` is the constructor of capability_parser, `none` where it throws.
unfoldable pub reconfigure :
    (String → Option Capabilities) → Bool → List Variant → Robot → Outcome (Robot × Answer Bool)
unfolding begin_reconfiguration
reconfigure profiles written (string name ∷ []) r = do
  caps ← or_fault (profiles name) invalid_profile
  ok (
      if same_capabilities caps r.capability_parser
      then (r, good false)
      else begin_reconfiguration written name r)
reconfigure profiles written _ r = ok (r, bad)

-- ===== src/Controller/Requests.antt =====
-- How the controller registers a robot, chooses one for an order, and changes capabilities
-- (controller.cpp).
use opcua_cps_kitchen.Base.{
  ℕ, suc, String, str_eq, Bool, true, false, not, ◌&&◌, ◌||◌, Option, none, some, List, [], ◌∷◌,
  find, if◌then◌else◌,
}
use opcua_cps_kitchen.Actions.{RobotAction}
use opcua_cps_kitchen.Capabilities.{Capabilities}
use opcua_cps_kitchen.Recipe.{get_recipe}
use opcua_cps_kitchen.Robot.State.{Outcome, ok, unknown_recipe, ◌>>=◌, or_fault}
use opcua_cps_kitchen.Robot.Work.{add32, pop_steps}
use opcua_cps_kitchen.Mape.{RobotView, Request, swap_robot_positions, reconfigure_robot, Decision}
use opcua_cps_kitchen.Conveyor.Delivery.{Flagged, failed, bad_size, bad_type, result}
use opcua_cps_kitchen.Controller.State.{
  RemoteRobot, new_remote_robot, Receiver, reconfigure, receive_next_robot, Controller,
}
use opcua_cps_kitchen.Controller.Registry.{
  enter, is_registered, update_robot, set_adaptivity, stop_robot, call, is_robot_position_swapping,
  remove_stopped_robots, tidy_up,
}
use opcua_cps_kitchen.Controller.Swaps
use opcua_cps_kitchen.Controller.Swaps.{AdaptationAnswers, is_refused_at, after_read, commit_at}

-- What a robot answers when it registers: whether its client starts, the read of
-- NEW_POSITION_COMMIT_IS_PENDING (`none` is a failed read), and the commit.
pub record RegistrationAnswers : Type 0 where
  pub starts : Bool
  pub commit_is_pending : Option Bool
  pub commit : Flagged

-- has_pending_new_position_commit, and the commit that follows.
unfoldable pub read_missed_commit : RegistrationAnswers → ℕ → Controller → Controller
unfolding update_robot stop_robot commit_at
read_missed_commit a position c = elim a.commit_is_pending [
  | none ↦ update_robot position stop_robot c
  | some b ↦ if b then commit_at a.commit position c else c
]

unfoldable pub resolve_missed_new_position_commit :
    RegistrationAnswers → ℕ → Controller → Controller
unfolding is_robot_position_swapping read_missed_commit
resolve_missed_new_position_commit a position c = elim (find c.position_remote_robot_map position) [
  | none ↦ c
  | some r ↦
      if not r.adaptivity_is_pending && not (is_robot_position_swapping position c.pending_swaps)
      then read_missed_commit a position c
      else c
]

unfoldable pub register_at : ℕ → RemoteRobot → Controller → Controller
unfolding enter
register_at position r c = record c {
  position_remote_robot_map = enter position r c.position_remote_robot_map;
  registered_robots = add32 c.registered_robots 1;
}

-- The branches after the clean-up.
unfoldable pub register_if_free :
    RegistrationAnswers → String → ℕ → Capabilities → Controller → Controller
unfolding is_robot_position_swapping is_registered register_at new_remote_robot
    resolve_missed_new_position_commit
register_if_free a endpoint position caps c =
    if is_robot_position_swapping position c.pending_swaps
    then c
    else if is_registered position c.position_remote_robot_map
    then c
    else if a.starts
    then resolve_missed_new_position_commit a position
        (register_at position (new_remote_robot endpoint position caps) c)
    else c

unfoldable pub handle_robot_registration :
    RegistrationAnswers → String → ℕ → Capabilities → Controller → Controller
unfolding tidy_up register_if_free
handle_robot_registration a endpoint position caps c =
    register_if_free a endpoint position caps (tidy_up c)

-- The robot's answer on a profile.
unfoldable pub robot_reconfigures : Flagged → ℕ → Controller → Controller
unfolding update_robot stop_robot set_adaptivity
robot_reconfigures failed position c = update_robot position stop_robot c
robot_reconfigures bad_size position c = c
robot_reconfigures bad_type position c = c
robot_reconfigures (result b) position c =
    if b then update_robot position (set_adaptivity true) c else c

unfoldable pub ask_profile : AdaptationAnswers → ℕ → String → Controller → Controller
unfolding update_robot after_read is_refused_at robot_reconfigures call
ask_profile a position profile c =
    let c' = update_robot position (after_read a.first_available) c in
    if is_refused_at a.first_available position c.position_remote_robot_map
    then c'
    else robot_reconfigures a.first_call position (call (reconfigure position profile) c')

unfoldable pub reconfigure_robot_capability :
    AdaptationAnswers → ℕ → String → Controller → Controller
unfolding is_registered ask_profile
reconfigure_robot_capability a position profile c =
    if is_registered position c.position_remote_robot_map
    then ask_profile a position profile c
    else c

-- The lambda that capabilities_reconfigured_callback posts.
unfoldable pub handle_capabilities_reconfigured : ℕ → Controller → Controller
unfolding remove_stopped_robots update_robot set_adaptivity
handle_capabilities_reconfigured position c =
    update_robot position (set_adaptivity false) (remove_stopped_robots c)

unfoldable pub perform_request : AdaptationAnswers → Request → Controller → Controller
unfolding Swaps.swap_robot_positions reconfigure_robot_capability
perform_request a (swap_robot_positions from to) c = Swaps.swap_robot_positions a from to c
perform_request a (reconfigure_robot position profile) c =
    reconfigure_robot_capability a position profile c

-- The callbacks of a policy, in order; `answers` is what the robots answer on each.
unfoldable pub perform_requests :
    (ℕ → AdaptationAnswers) → ℕ → List Request → Controller → Controller
unfolding perform_request
perform_requests answers i [] c = c
perform_requests answers i (q ∷ qs) c =
    perform_requests answers (suc i) qs (perform_request (answers i) q c)

-- What the policies see of the robots.
unfoldable pub view : ℕ × RemoteRobot → RobotView
view (key, r) = record {
  key = key;
  position = r.position;
  is_adaptivity_pending = r.adaptivity_is_pending;
  capabilities = r.capabilities;
}

unfoldable pub views : List (ℕ × RemoteRobot) → List RobotView
unfolding view
views [] = []
views (x ∷ m) = view x ∷ views m

unfoldable pub same_receiver : Receiver → Receiver → Bool
same_receiver x y = str_eq x.endpoint y.endpoint && str_eq x.kind y.kind

unfoldable pub is_known : Receiver → List Receiver → Bool
unfolding same_receiver
is_known x [] = false
is_known x (y ∷ ys) = same_receiver x y || is_known x ys

unfoldable pub connect_receiver : Bool → Receiver → Controller → Controller
unfolding is_known
connect_receiver starts x c =
    if is_known x c.next_robot_receivers
    then c
    else if starts
    then record c { next_robot_receivers = x ∷ c.next_robot_receivers }
    else c

-- The robot that the policy returned, unless an adaptation is pending by now.
unfoldable pub robot_to_send : Option RobotView → List (ℕ × RemoteRobot) → Option RemoteRobot
robot_to_send none m = none
robot_to_send (some v) m = elim (find m v.key) [
  | none ↦ none
  | some r ↦ if r.adaptivity_is_pending then none else some r
]

-- The answer to a receiver is listed, whatever its own answer is.
unfoldable pub send_next_robot : Receiver → ℕ → Option RemoteRobot → Controller → Controller
unfolding is_known call
send_next_robot x id o c =
    if is_known x c.next_robot_receivers
    then elim o [
      | none ↦ call (receive_next_robot x 0 "" id) c
      | some r ↦ call (receive_next_robot x r.position r.endpoint id) c
    ]
    else c

-- What the other agents answer on a request.
pub record RequestAnswers : Type 0 where
  pub receiver_starts : Bool
  pub adaptations : ℕ → AdaptationAnswers

-- The callbacks of the policy and the answer.
unfoldable pub answer_request : RequestAnswers → Receiver → ℕ → Decision → Controller → Controller
unfolding perform_requests robot_to_send send_next_robot
answer_request a x id d c =
    let c' = perform_requests a.adaptations 0 d.requests c in
    send_next_robot x id (robot_to_send d.suitable_robot c'.position_remote_robot_map) c'

-- The recipe's actions without the processed ones.
unfoldable pub actions_left : ℕ → ℕ → Controller → Outcome (List RobotAction)
unfolding pop_steps
actions_left id processed c = do
  r ← or_fault (get_recipe c.recipes id) unknown_recipe
  pop_steps processed r.action_queue

unfoldable pub choose_robot : RequestAnswers → ℕ → ℕ → Receiver → Controller → Outcome Controller
unfolding actions_left views answer_request
choose_robot a id processed x c = do
  q ← actions_left id processed c
  d ← c.kitchen_mape (views c.position_remote_robot_map) q
  ok (answer_request a x id d c)

unfoldable pub handle_next_robot_request :
    RequestAnswers → ℕ → ℕ → Receiver → Controller → Outcome Controller
unfolding tidy_up connect_receiver choose_robot
handle_next_robot_request a id processed x c =
    choose_robot a id processed x (connect_receiver a.receiver_starts x (tidy_up c))

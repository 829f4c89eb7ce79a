-- ===== src/Kitchen/Robots.antt =====
-- How the kitchen gives an order to the robot that the controller chose (kitchen.cpp, kitchen.hpp).
use opcua_cps_kitchen.Base.{
  ℕ, String, str_eq, Bool, true, false, not, ◌||◌, Option, none, some, List, find, erase, put, ◌==◌,
  if◌then◌else◌,
}
use opcua_cps_kitchen.Conveyor.Delivery.{Instructed, failed, bad_size, bad_type, result}
use opcua_cps_kitchen.Kitchen.State.{KitchenRobot, new_kitchen_robot, Kitchen}
use opcua_cps_kitchen.Kitchen.Placing.{remove_stopped_robots, count_assigned, count_dropped}

-- What the robot answers: whether its client starts, the reads of POSITION and AVAILABILITY (`none`
-- is a failed read), and the call of RECEIVE_TASK.
pub record RobotAnswers : Type 0 where
  pub starts : Bool
  pub position : Option ℕ
  pub available : Option Bool
  pub instruct : Instructed

unfoldable pub stop_robot : ℕ → Kitchen → Kitchen
stop_robot position k = elim (find k.position_remote_robot_map position) [
  | none ↦ k
  | some r ↦ record k {
    position_remote_robot_map =
        put position (record r { running = false }) k.position_remote_robot_map;
  }
]

-- Whether the robot at the position is to be connected to.
unfoldable pub is_new_robot : ℕ → String → Kitchen → Bool
is_new_robot position endpoint k = elim (find k.position_remote_robot_map position) [
  | none ↦ true
  | some r ↦ not (str_eq endpoint r.endpoint)
]

unfoldable pub receive_robot_task_called : Instructed → Bool
receive_robot_task_called failed = false
receive_robot_task_called bad_size = false
receive_robot_task_called bad_type = false
receive_robot_task_called (result position b) = b

-- A failed call stops the robot's client.
unfoldable pub note_instruct : Instructed → ℕ → Kitchen → Kitchen
unfolding stop_robot
note_instruct failed position k = stop_robot position k
note_instruct bad_size position k = k
note_instruct bad_type position k = k
note_instruct (result p b) position k = k

unfoldable pub instruct_robot : Instructed → ℕ → Kitchen → Kitchen
unfolding note_instruct receive_robot_task_called count_assigned count_dropped
instruct_robot answer position k =
    let k' = note_instruct answer position k in
    if receive_robot_task_called answer then count_assigned k' else count_dropped k'

unfoldable pub ask_availability : RobotAnswers → ℕ → Kitchen → Kitchen
unfolding stop_robot instruct_robot count_dropped
ask_availability a position k = elim a.available [
  | none ↦ count_dropped (stop_robot position k)
  | some b ↦ if b then instruct_robot a.instruct position k else count_dropped k
]

-- The robot is asked for its position, its availability, and then to take the task.
unfoldable pub offer_task : RobotAnswers → ℕ → Kitchen → Kitchen
unfolding stop_robot ask_availability count_dropped
offer_task a position k = elim a.position [
  | none ↦ count_dropped (stop_robot position k)
  | some p ↦ if p == position then ask_availability a position k else count_dropped k
]

unfoldable pub connect_and_offer : RobotAnswers → ℕ → String → Kitchen → Kitchen
unfolding new_kitchen_robot offer_task count_dropped
connect_and_offer a position endpoint k =
    if a.starts
    then offer_task a position (record k {
      position_remote_robot_map =
          put position (new_kitchen_robot endpoint position) k.position_remote_robot_map;
    })
    else count_dropped
        (record k { position_remote_robot_map = erase position k.position_remote_robot_map })

unfoldable pub offer_order : RobotAnswers → ℕ → String → Kitchen → Kitchen
unfolding is_new_robot connect_and_offer offer_task count_dropped
offer_order a position endpoint k =
    if position == 0 || str_eq endpoint ""
    then count_dropped k
    else if is_new_robot position endpoint k
    then connect_and_offer a position endpoint k
    else offer_task a position k

unfoldable pub handle_receive_next_robot : RobotAnswers → ℕ → String → Kitchen → Kitchen
unfolding remove_stopped_robots offer_order
handle_receive_next_robot a position endpoint k =
    offer_order a position endpoint (remove_stopped_robots k)

-- A read of the position of the robot under a key, when there is one; a failed read gives 0.
unfoldable pub stands_elsewhere : Option ℕ → ℕ → List (ℕ × KitchenRobot) → Bool
stands_elsewhere answer position m = elim (find m position) [
  | none ↦ true
  | some r ↦ not (elim answer [ none ↦ 0 | some p ↦ p ] == position)
]

unfoldable pub note_read : Option ℕ → ℕ → Kitchen → Kitchen
unfolding stop_robot
note_read none position k = stop_robot position k
note_read (some p) position k = k

unfoldable pub put_or_erase :
    ℕ → Option KitchenRobot → List (ℕ × KitchenRobot) → List (ℕ × KitchenRobot)
put_or_erase position none m = erase position m
put_or_erase position (some r) m = put position r m

unfoldable pub swap_robots : ℕ → ℕ → List (ℕ × KitchenRobot) → List (ℕ × KitchenRobot)
unfolding put_or_erase
swap_robots a b m = put_or_erase b (find m a) (put_or_erase a (find m b) m)

unfoldable pub swap_if_elsewhere : Option ℕ → ℕ → ℕ → Kitchen → Kitchen
unfolding stands_elsewhere note_read swap_robots
swap_if_elsewhere answer old new k =
    let k' = note_read answer new k in
    if stands_elsewhere answer new k.position_remote_robot_map
    then record k' { position_remote_robot_map = swap_robots old new k'.position_remote_robot_map }
    else k'

-- The lambda that position_swapped_callback posts. The robot at the new position is asked only if
-- the one at the old position has gone.
unfoldable pub reflect_position_swap : Option ℕ → Option ℕ → ℕ → ℕ → Kitchen → Kitchen
unfolding stands_elsewhere note_read swap_if_elsewhere
reflect_position_swap first second old new k =
    let k' = note_read first old k in
    if stands_elsewhere first old k.position_remote_robot_map
    then swap_if_elsewhere second old new k'
    else k'

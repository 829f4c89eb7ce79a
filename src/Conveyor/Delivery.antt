-- ===== src/Conveyor/Delivery.antt =====
-- The requests for next robots, the deliveries, and what moves the belt (conveyor.cpp).
use opcua_cps_kitchen.Base.{
  ℕ, String, Bool, not, ◌&&◌, Option, none, some, List, [], ◌∷◌, ◌++◌, find, str_eq, ◌==◌,
  if◌then◌else◌,
}
use opcua_cps_kitchen.Conveyor.State.{Plate, movement, Conveyor}
use opcua_cps_kitchen.Conveyor.Plates.{
  halt, schedule, visit, with_plate, plate_id_at, clear_plate, set_target_position,
}
use opcua_cps_kitchen.Conveyor.Retrieval.{
  HandoverReply, remove_stopped_robots, is_new_robot, connect_robot, retrieve_orders,
}

-- What a method node of the controller or the kitchen gives back: a status other than GOOD, a
-- wrong number or type of outputs, or the flag.
pub data Flagged : Type 0 where
  failed bad_size bad_type : Flagged
  result : Bool → Flagged

unfoldable pub request_next_robot : Flagged → Plate → Conveyor → Conveyor
unfolding halt
request_next_robot failed p c = c
request_next_robot bad_size p c = halt c
request_next_robot bad_type p c = halt c
request_next_robot (result b) p c =
    if b
    then record c { next_robot_request_queue = c.next_robot_request_queue ++ p.position ∷ [] }
    else c

-- The plate carries a dish that is neither finished nor under way.
unfoldable pub has_no_target : Plate → Bool
has_no_target p = not p.dish_finished && p.target_position == 0

-- The loop over the occupied plates; `choices` is what the controller answers for a plate.
unfoldable pub request_robots : (ℕ → Flagged) → List ℕ → Conveyor → Conveyor
unfolding request_next_robot has_no_target with_plate
request_robots choices [] c = c
request_robots choices (i ∷ is) c =
    request_robots choices is
      (with_plate i (λ p. if has_no_target p then request_next_robot (choices i) p c else c) c)

unfoldable pub await_robots : List ℕ → Conveyor → Conveyor
unfolding schedule
await_robots [] c = schedule movement c
await_robots (q ∷ qs) c = c

unfoldable pub request_next_robots : (ℕ → Flagged) → Conveyor → Conveyor
unfolding request_robots await_robots
request_next_robots choices c =
    let c' = request_robots choices c.occupied_plates c in
    await_robots c'.next_robot_request_queue c'

unfoldable pub handle_retrieve_finished_orders :
    (ℕ → Bool) → (ℕ → Option HandoverReply) → (ℕ → Flagged) → Conveyor → Conveyor
unfolding remove_stopped_robots retrieve_orders request_next_robots
handle_retrieve_finished_orders stopped replies choices c =
    let c' = remove_stopped_robots stopped c in
    request_next_robots choices (retrieve_orders replies c'.notifications_map c')

-- Whether the controller found a robot.
unfoldable pub is_robot : ℕ → String → Bool
is_robot position endpoint = not (position == 0) && not (str_eq endpoint "")

unfoldable pub connect_next_robot : Bool → ℕ → String → Conveyor → Conveyor
unfolding is_robot is_new_robot connect_robot
connect_next_robot starts position endpoint c =
    if is_robot position endpoint && is_new_robot position endpoint c
    then connect_robot starts position endpoint c
    else c

unfoldable pub direct_plate : ℕ → String → ℕ → List ℕ → Plate → Conveyor → Conveyor
unfolding is_robot set_target_position await_robots
direct_plate position endpoint i qs p c =
    let c' = record c { next_robot_request_queue = qs } in
    await_robots qs (if is_robot position endpoint then set_target_position i position p c' else c')

unfoldable pub answer_request : ℕ → String → ℕ → List ℕ → Conveyor → Conveyor
unfolding connect_next_robot visit plate_id_at with_plate direct_plate
answer_request position endpoint recipe_id [] c = c
answer_request position endpoint recipe_id (q ∷ qs) c =
    let c' = visit q c in
    let i = plate_id_at q c'.position_plate_id_map in
    with_plate i
      (λ p.
        if p.placed_recipe_id == recipe_id then direct_plate position endpoint i qs p c' else c')
      c'

unfoldable pub handle_receive_next_robot : (ℕ → Bool) → Bool → ℕ → String → ℕ → Conveyor → Conveyor
unfolding remove_stopped_robots connect_next_robot answer_request
handle_receive_next_robot stopped starts position endpoint recipe_id c =
    let c' = remove_stopped_robots stopped c in
    elim c'.next_robot_request_queue [
      | [] ↦ c'
      | q ∷ qs ↦
          answer_request position endpoint recipe_id (q ∷ qs)
            (connect_next_robot starts position endpoint c')
    ]

-- What a robot gives back on a task: the same, with its position.
pub data Instructed : Type 0 where
  failed bad_size bad_type : Instructed
  result : ℕ → Bool → Instructed

-- What the other agents answer in a round of deliveries, for each plate: the kitchen on a finished
-- dish, and the robot on its position, its availability and a task.
pub record Surroundings : Type 0 where
  pub kitchen : ℕ → Flagged
  pub robot_position : ℕ → ℕ
  pub robot_available : ℕ → Bool
  pub instruct : ℕ → Instructed

unfoldable pub receive_completed_order : Flagged → ℕ → Plate → Conveyor → Conveyor
unfolding halt clear_plate
receive_completed_order failed i p c = c
receive_completed_order bad_size i p c = halt c
receive_completed_order bad_type i p c = halt c
receive_completed_order (result b) i p c = if b then clear_plate i p c else c

unfoldable pub receive_robot_task : Instructed → ℕ → Plate → Conveyor → Conveyor
unfolding halt clear_plate set_target_position
receive_robot_task failed i p c = set_target_position i 0 p c
receive_robot_task bad_size i p c = set_target_position i 0 p (halt c)
receive_robot_task bad_type i p c = set_target_position i 0 p (halt c)
receive_robot_task (result position b) i p c =
    if b
    then if p.position == position then clear_plate i p c else set_target_position i 0 p (halt c)
    else set_target_position i 0 p c

unfoldable pub deliver_to_robot : Surroundings → ℕ → Plate → Conveyor → Conveyor
unfolding set_target_position receive_robot_task
deliver_to_robot around i p c = elim (find c.position_remote_robot_map p.position) [
  | none ↦ set_target_position i 0 p c
  | some e ↦
      if around.robot_position i == p.position && around.robot_available i
      then receive_robot_task (around.instruct i) i p c
      else set_target_position i 0 p c
]

-- OUTPUT_POSITION.
abbrev pub output_position : ℕ
output_position = 0

-- One round of the loop over the occupied plates.
unfoldable pub deliver_plate : Surroundings → ℕ → Plate → Conveyor → Conveyor
unfolding has_no_target receive_completed_order deliver_to_robot
deliver_plate around i p c =
    if has_no_target p
    then c
    else if p.dish_finished && p.position == output_position
    then receive_completed_order (around.kitchen i) i p c
    else if not p.dish_finished && p.position == p.target_position
    then deliver_to_robot around i p c
    else c

unfoldable pub deliver_plates : Surroundings → List ℕ → Conveyor → Conveyor
unfolding deliver_plate with_plate
deliver_plates around [] c = c
deliver_plates around (i ∷ is) c =
    deliver_plates around is (with_plate i (λ p. deliver_plate around i p c) c)

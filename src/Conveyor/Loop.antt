-- ===== src/Conveyor/Loop.antt =====
-- What moves the belt, and the conveyor's event loop (conveyor.cpp).
use opcua_cps_kitchen.Base.{
  ℕ, ◌≡◌, String, Bool, true, false, not, ◌&&◌, Option, none, some, List, [], ◌∷◌, find, put, erase,
  ◌==◌, if◌then◌else◌,
}
use opcua_cps_kitchen.Conveyor.State.{BeltTimer, retrieval, movement, idling, Conveyor}
use opcua_cps_kitchen.Conveyor.Retrieval.{
  HandoverReply, remove_stopped_robots, handle_finished_order_notification,
}
use opcua_cps_kitchen.Conveyor.Movement.{turn}
use opcua_cps_kitchen.Conveyor.Delivery.{
  Flagged, request_next_robots, handle_retrieve_finished_orders, handle_receive_next_robot,
  Surroundings, deliver_plates,
}

unfoldable pub without_orders : (ℕ → Flagged) → List ℕ → Conveyor → Conveyor
unfolding request_next_robots
without_orders choices [] c = record c { state_status = idling }
without_orders choices (i ∷ is) c = request_next_robots choices c

-- `stopped` is is_stopped of the robots when the dishes are retrieved.
unfoldable pub determine_next_movement :
    (ℕ → Bool) → (ℕ → Option HandoverReply) → (ℕ → Flagged) → Conveyor → Conveyor
unfolding handle_retrieve_finished_orders without_orders
determine_next_movement stopped replies choices c = elim c.notifications_map [
  | [] ↦ without_orders choices c.occupied_plates c
  | n ∷ ns ↦ handle_retrieve_finished_orders stopped replies choices c
]

-- All that the other agents answer while one handler runs.
pub record Answers : Type 0 where
  pub stopped : ℕ → Bool
  pub stopped_later : ℕ → Bool
  pub around : Surroundings
  pub replies : ℕ → Option HandoverReply
  pub choices : ℕ → Flagged

unfoldable pub deliver_finished_order : Answers → Conveyor → Conveyor
unfolding remove_stopped_robots deliver_plates determine_next_movement
deliver_finished_order a c =
    let c' = remove_stopped_robots a.stopped c in
    determine_next_movement a.stopped_later a.replies a.choices
      (deliver_plates a.around c'.occupied_plates c')

unfoldable pub move_conveyor : Answers → ℕ → Conveyor → Conveyor
unfolding turn deliver_finished_order
move_conveyor a steps c = deliver_finished_order a (turn steps c)

-- A robot is where the map says, as it tells itself; `tells` is get_position of the robot at a key.
unfoldable pub is_in_place : (ℕ → ℕ) → ℕ → List (ℕ × String) → Bool
is_in_place tells position m = elim (find m position) [
  | none ↦ false
  | some e ↦ tells position == position
]

unfoldable pub put_or_erase : ℕ → Option String → List (ℕ × String) → List (ℕ × String)
put_or_erase position none m = erase position m
put_or_erase position (some e) m = put position e m

unfoldable pub swap_robots : ℕ → ℕ → List (ℕ × String) → List (ℕ × String)
unfolding put_or_erase
swap_robots a b m = put_or_erase b (find m a) (put_or_erase a (find m b) m)

-- The lambda that position_swapped_callback posts.
unfoldable pub position_swapped : (ℕ → Bool) → (ℕ → ℕ) → ℕ → ℕ → Conveyor → Conveyor
unfolding remove_stopped_robots is_in_place swap_robots
position_swapped stopped tells old new c =
    let c' = remove_stopped_robots stopped c in
    let m = c'.position_remote_robot_map in
    if not (is_in_place tells old m) && not (is_in_place tells new m)
    then record c' { position_remote_robot_map = swap_robots old new m }
    else c'

-- The handler of a wait that is over.
unfoldable pub run_belt_timer : Answers → BeltTimer → Conveyor → Conveyor
run_belt_timer a retrieval c = handle_retrieve_finished_orders a.stopped a.replies a.choices c
run_belt_timer a movement c = move_conveyor a 1 c

-- One step of the conveyor: its worker runs a posted handler, or the handler of the timer.
pub data BeltStep (c : Conveyor) : Conveyor → Type 0 where
  notified :
      (stopped : ℕ → Bool) (starts : Bool) (position : ℕ) (endpoint : String)
      → c.running ≡ true
      → BeltStep c (handle_finished_order_notification stopped starts position endpoint c)
  next_robot :
      (stopped : ℕ → Bool) (starts : Bool) (position : ℕ) (endpoint : String) (recipe_id : ℕ)
      → c.running ≡ true
      → BeltStep c (handle_receive_next_robot stopped starts position endpoint recipe_id c)
  swapped :
      (stopped : ℕ → Bool) (tells : ℕ → ℕ) (old new : ℕ)
      → c.running ≡ true
      → BeltStep c (position_swapped stopped tells old new c)
  fired :
      (a : Answers) (t : BeltTimer)
      → c.running ≡ true
      → c.timer ≡ some t
      → BeltStep c (run_belt_timer a t (record c { timer = none }))

pub data BeltReach (c : Conveyor) : Conveyor → Type 0 where
  here : BeltReach c c
  next : {d e : Conveyor} → BeltReach c d → BeltStep d e → BeltReach c e

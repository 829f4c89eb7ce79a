-- ===== src/Conveyor/Retrieval.antt =====
-- How the conveyor learns of finished dishes and takes them over (conveyor.cpp).
use opcua_cps_kitchen.Base.{
  ℕ, String, Bool, true, false, not, Option, none, some, List, [], ◌∷◌, find, put, erase, str_eq,
  if◌then◌else◌,
}
use opcua_cps_kitchen.Robot.Methods.{Handover}
use opcua_cps_kitchen.Conveyor.State.{BeltState, idling, moving, retrieval, Conveyor}
use opcua_cps_kitchen.Conveyor.Plates.{
  halt, schedule, visit, is_occupied_at, handle_handover_finished_order,
}

-- The loop over the remote robots; `stopped` is is_stopped of the robot at a position.
unfoldable pub running_robots : (ℕ → Bool) → List (ℕ × String) → List (ℕ × String)
running_robots stopped [] = []
running_robots stopped ((position, e) ∷ m) =
    let rest = running_robots stopped m in if stopped position then rest else (position, e) ∷ rest

unfoldable pub remove_stopped_robots : (ℕ → Bool) → Conveyor → Conveyor
unfolding running_robots
remove_stopped_robots stopped c = record c {
  position_remote_robot_map = running_robots stopped c.position_remote_robot_map;
}

-- Whether the robot at the position is to be connected to: it is not known, or by another endpoint.
unfoldable pub is_new_robot : ℕ → String → Conveyor → Bool
is_new_robot position endpoint c = elim (find c.position_remote_robot_map position) [
  | none ↦ true
  | some e ↦ not (str_eq endpoint e)
]

-- `starts` is the status of initialize_and_start.
unfoldable pub connect_robot : Bool → ℕ → String → Conveyor → Conveyor
connect_robot starts position endpoint c =
    if starts
    then record c { position_remote_robot_map = put position endpoint c.position_remote_robot_map }
    else record c { position_remote_robot_map = erase position c.position_remote_robot_map }

unfoldable pub begin_retrieval : BeltState → Conveyor → Conveyor
unfolding schedule
begin_retrieval idling c = schedule retrieval (record c { state_status = moving })
begin_retrieval moving c = c

unfoldable pub note_finished_order : ℕ → String → Conveyor → Conveyor
unfolding begin_retrieval
note_finished_order position endpoint c =
    begin_retrieval c.state_status
      (record c { notifications_map = put position endpoint c.notifications_map })

unfoldable pub handle_finished_order_notification :
    (ℕ → Bool) → Bool → ℕ → String → Conveyor → Conveyor
unfolding remove_stopped_robots is_new_robot connect_robot note_finished_order
handle_finished_order_notification stopped starts position endpoint c =
    let c' = remove_stopped_robots stopped c in
    if is_new_robot position endpoint c'
    then if starts
      then note_finished_order position endpoint (connect_robot true position endpoint c')
      else connect_robot false position endpoint c'
    else note_finished_order position endpoint c'

-- What the robot's method node gives back, when the call succeeds.
pub data HandoverReply : Type 0 where
  bad_size bad_type : HandoverReply
  handed : Handover → HandoverReply

unfoldable pub handover_finished_order_called : HandoverReply → Conveyor → Conveyor
unfolding halt handle_handover_finished_order
handover_finished_order_called bad_size c = halt c
handover_finished_order_called bad_type c = halt c
handover_finished_order_called (handed h) c = handle_handover_finished_order h c

-- The call is made if the robot is known; `none` is a status other than GOOD.
unfoldable pub call_handover : Option HandoverReply → ℕ → Conveyor → Conveyor
unfolding handover_finished_order_called
call_handover none position c = c
call_handover (some reply) position c = elim (find c.position_remote_robot_map position) [
  | none ↦ c
  | some e ↦ handover_finished_order_called reply c
]

unfoldable pub drop_notification : ℕ → Conveyor → Conveyor
drop_notification position c = record c { notifications_map = erase position c.notifications_map }

-- One round of the loop over the notifications.
unfoldable pub retrieve_order : Option HandoverReply → ℕ → Conveyor → Conveyor
unfolding visit is_occupied_at call_handover drop_notification
retrieve_order reply position c =
    let c' = visit position c in
    if is_occupied_at position c'
    then c'
    else drop_notification position (call_handover reply position c')

unfoldable pub retrieve_orders :
    (ℕ → Option HandoverReply) → List (ℕ × String) → Conveyor → Conveyor
unfolding retrieve_order
retrieve_orders replies [] c = c
retrieve_orders replies ((position, e) ∷ ns) c =
    retrieve_orders replies ns (retrieve_order (replies position) position c)

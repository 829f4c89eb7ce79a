-- ===== src/Controller/Swaps.antt =====
-- How the controller has two robots exchange their positions (controller.cpp).
use opcua_cps_kitchen.Base.{
  ℕ, Bool, true, false, not, ◌&&◌, ◌||◌, Option, none, some, List, [], ◌∷◌, find, erase, ltb, ◌==◌,
  if◌then◌else◌,
}
use opcua_cps_kitchen.Conveyor.Delivery.{Flagged, failed, bad_size, bad_type, result}
use opcua_cps_kitchen.Controller.State.{
  RemoteRobot, PendingSwap, switch_position, commit_new_position, Controller,
}
use opcua_cps_kitchen.Controller.Registry.{
  enter, is_registered, update_robot, set_adaptivity, stop_robot, call, is_robot_position_swapping,
  tidy_up,
}

-- The part of `stop` that the other handlers see.
unfoldable pub halt : Controller → Controller
halt c = record c { running = false }

-- What the robots answer while a change is asked for: the reads of AVAILABILITY (`none` is a failed
-- read) and the calls of the method nodes.
pub record AdaptationAnswers : Type 0 where
  pub first_available : Option Bool
  pub second_available : Option Bool
  pub first_call : Flagged
  pub second_call : Flagged

-- is_adaptivity_pending() || !is_available().
unfoldable pub is_refused : Option Bool → RemoteRobot → Bool
is_refused answer r = r.adaptivity_is_pending || not (elim answer [ none ↦ false | some b ↦ b ])

-- What the test leaves of the robot: a failed read stops it.
unfoldable pub after_read : Option Bool → RemoteRobot → RemoteRobot
unfolding stop_robot
after_read answer r =
    if r.adaptivity_is_pending then r else elim answer [ none ↦ stop_robot r | some b ↦ r ]

unfoldable pub is_refused_at : Option Bool → ℕ → List (ℕ × RemoteRobot) → Bool
unfolding is_refused
is_refused_at answer position m = elim (find m position) [
  | none ↦ false
  | some r ↦ is_refused answer r
]

unfoldable pub new_swap : ℕ → ℕ → Bool → PendingSwap
new_swap from to acked =
    if ltb from to
    then record {
      lower = from;
      greater = to;
      ack_from_lower_position = false;
      ack_from_greater_position = acked;
    }
    else record {
      lower = to;
      greater = from;
      ack_from_lower_position = acked;
      ack_from_greater_position = false;
    }

unfoldable pub has_key : ℕ → ℕ → PendingSwap → Bool
has_key lower greater s = s.lower == lower && s.greater == greater

unfoldable pub find_swap : ℕ → ℕ → List PendingSwap → Option PendingSwap
unfolding has_key
find_swap lower greater [] = none
find_swap lower greater (s ∷ ss) =
    if has_key lower greater s then some s else find_swap lower greater ss

unfoldable pub erase_swap : ℕ → ℕ → List PendingSwap → List PendingSwap
unfolding has_key
erase_swap lower greater [] = []
erase_swap lower greater (s ∷ ss) =
    let rest = erase_swap lower greater ss in if has_key lower greater s then rest else s ∷ rest

unfoldable pub put_swap : PendingSwap → List PendingSwap → List PendingSwap
unfolding erase_swap
put_swap s ss = s ∷ erase_swap s.lower s.greater ss

unfoldable pub add_swap : ℕ → ℕ → Bool → Controller → Controller
unfolding put_swap new_swap
add_swap from to acked c = record c {
  pending_swaps = put_swap (new_swap from to acked) c.pending_swaps;
}

-- The second robot's answer. The flag is set even if the call fails.
unfoldable pub second_switches : Flagged → ℕ → ℕ → Controller → Controller
unfolding update_robot set_adaptivity stop_robot halt add_swap
second_switches failed from to c =
    add_swap from to true (update_robot to (λ r. set_adaptivity true (stop_robot r)) c)
second_switches bad_size from to c = halt c
second_switches bad_type from to c = halt c
second_switches (result b) from to c =
    if b then add_swap from to false (update_robot to (set_adaptivity true) c) else halt c

unfoldable pub switch_second : Flagged → ℕ → ℕ → Controller → Controller
unfolding is_registered call second_switches add_swap
switch_second answer from to c =
    if is_registered to c.position_remote_robot_map
    then second_switches answer from to (call (switch_position to from) c)
    else add_swap from to true c

-- The first robot's answer.
unfoldable pub first_switches : Flagged → Flagged → ℕ → ℕ → Controller → Controller
unfolding update_robot set_adaptivity stop_robot halt switch_second
first_switches failed second from to c = update_robot from stop_robot c
first_switches bad_size second from to c = halt c
first_switches bad_type second from to c = halt c
first_switches (result b) second from to c =
    if b then switch_second second from to (update_robot from (set_adaptivity true) c) else halt c

unfoldable pub switch_first : AdaptationAnswers → ℕ → ℕ → Controller → Controller
unfolding call first_switches
switch_first a from to c =
    first_switches a.first_call a.second_call from to (call (switch_position from to) c)

-- The tests of the robots' availability.
unfoldable pub swap_available : AdaptationAnswers → ℕ → ℕ → Controller → Controller
unfolding is_refused_at update_robot after_read switch_first
swap_available a from to c =
    let c' = update_robot from (after_read a.first_available) c in
    if is_refused_at a.first_available from c.position_remote_robot_map
    then c'
    else let c'' = update_robot to (after_read a.second_available) c' in
      if is_refused_at a.second_available to c'.position_remote_robot_map
      then c''
      else switch_first a from to c''

-- A swap that is pending for both positions is pending at each of them.
unfoldable pub swap_robot_positions : AdaptationAnswers → ℕ → ℕ → Controller → Controller
unfolding is_robot_position_swapping is_registered swap_available
swap_robot_positions a from to c =
    if from == to
    then c
    else if is_robot_position_swapping from c.pending_swaps
        || is_robot_position_swapping to c.pending_swaps
    then c
    else if is_registered from c.position_remote_robot_map
    then swap_available a from to c
    else c

-- The call of COMMIT_NEW_POSITION of the robot under a key; only a failed call leaves a trace.
unfoldable pub commit_at : Flagged → ℕ → Controller → Controller
unfolding call update_robot stop_robot
commit_at failed position c =
    update_robot position stop_robot (call (commit_new_position position) c)
commit_at bad_size position c = call (commit_new_position position) c
commit_at bad_type position c = call (commit_new_position position) c
commit_at (result b) position c = call (commit_new_position position) c

-- A robot that was taken out of the map comes back at the position that it tells.
unfoldable pub settle : Flagged → Option RemoteRobot → Controller → Controller
unfolding enter set_adaptivity commit_at
settle answer none c = c
settle answer (some r) c = commit_at answer r.position (record c {
  position_remote_robot_map = enter r.position (set_adaptivity false r) c.position_remote_robot_map;
})

unfoldable pub take_out : ℕ → Controller → Controller
take_out position c = record c {
  position_remote_robot_map = erase position c.position_remote_robot_map;
}

-- Both robots have acknowledged.
unfoldable pub complete_swap : Flagged → Flagged → PendingSwap → Controller → Controller
unfolding take_out settle erase_swap
complete_swap first_commit second_commit s c =
    let c' = take_out s.lower c in
    let c'' =
      settle second_commit (find c'.position_remote_robot_map s.greater)
        (settle first_commit (find c.position_remote_robot_map s.lower) (take_out s.greater c')) in
    record c'' { pending_swaps = erase_swap s.lower s.greater c''.pending_swaps }

unfoldable pub complete_if_acknowledged : Flagged → Flagged → PendingSwap → Controller → Controller
unfolding put_swap complete_swap
complete_if_acknowledged first_commit second_commit s c =
    let c' = record c { pending_swaps = put_swap s c.pending_swaps } in
    if s.ack_from_lower_position && s.ack_from_greater_position
    then complete_swap first_commit second_commit s c'
    else c'

-- A swap's key is the lower position before the greater.
unfoldable pub swap_at : ℕ → ℕ → List PendingSwap → Option PendingSwap
unfolding find_swap
swap_at old new ss = if ltb old new then find_swap old new ss else find_swap new old ss

-- The acknowledgement of a robot that was at the old position.
unfoldable pub acknowledge : ℕ → PendingSwap → PendingSwap
acknowledge old s =
    if old == s.greater
    then record s { ack_from_greater_position = true }
    else record s { ack_from_lower_position = true }

unfoldable pub acknowledge_swap : Flagged → Flagged → ℕ → ℕ → Controller → Controller
unfolding swap_at acknowledge complete_if_acknowledged
acknowledge_swap first_commit second_commit old new c = elim (swap_at old new c.pending_swaps) [
  | none ↦ c
  | some s ↦ complete_if_acknowledged first_commit second_commit (acknowledge old s) c
]

-- The lambda that position_swapped_callback posts.
unfoldable pub handle_position_swapped : Flagged → Flagged → ℕ → ℕ → Controller → Controller
unfolding tidy_up acknowledge_swap
handle_position_swapped first_commit second_commit old new c =
    acknowledge_swap first_commit second_commit old new (tidy_up c)

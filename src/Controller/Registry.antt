-- ===== src/Controller/Registry.antt =====
-- The map of the remote robots, and how the controller drops those that have stopped
-- (controller.cpp).
use opcua_cps_kitchen.Base.{
  ℕ, Bool, true, false, not, ◌&&◌, ◌||◌, none, some, List, [], ◌∷◌, find, erase, ltb, ◌==◌,
  if◌then◌else◌,
}
use opcua_cps_kitchen.Robot.Work.{sub32}
use opcua_cps_kitchen.Controller.State.{RemoteRobot, PendingSwap, Call, Controller}

-- operator[] of the map by falling positions, assigned to.
unfoldable pub enter {ℓ} : {A : Type ℓ} → ℕ → A → List (ℕ × A) → List (ℕ × A)
enter k a [] = (k, a) ∷ []
enter k a ((i, b) ∷ m) =
    let rest = enter k a m in
    if i == k then (k, a) ∷ m else if ltb i k then (k, a) ∷ (i, b) ∷ m else (i, b) ∷ rest

unfoldable pub is_registered : ℕ → List (ℕ × RemoteRobot) → Bool
is_registered k m = elim (find m k) [ none ↦ false | some r ↦ true ]

-- An assignment to a member of the robot under a key.
unfoldable pub update_robot : ℕ → (RemoteRobot → RemoteRobot) → Controller → Controller
unfolding enter
update_robot k f c = elim (find c.position_remote_robot_map k) [
  | none ↦ c
  | some r ↦ record c { position_remote_robot_map = enter k (f r) c.position_remote_robot_map }
]

unfoldable pub set_adaptivity : Bool → RemoteRobot → RemoteRobot
set_adaptivity pending r = record r { adaptivity_is_pending = pending }

unfoldable pub stop_robot : RemoteRobot → RemoteRobot
stop_robot r = record r { running = false }

-- The call is listed.
unfoldable pub call : Call → Controller → Controller
call x c = record c { calls = x ∷ c.calls }

unfoldable pub involves : ℕ → PendingSwap → Bool
involves position s = s.lower == position || s.greater == position

unfoldable pub is_robot_position_swapping : ℕ → List PendingSwap → Bool
unfolding involves
is_robot_position_swapping position [] = false
is_robot_position_swapping position (s ∷ ss) =
    involves position s || is_robot_position_swapping position ss

-- The acknowledgement in place of a robot that has stopped.
unfoldable pub acknowledge_stopped : ℕ → PendingSwap → PendingSwap
acknowledge_stopped position s =
    if position == s.lower
    then record s { ack_from_lower_position = true }
    else record s { ack_from_greater_position = true }

unfoldable pub acknowledge_for : ℕ → List PendingSwap → List PendingSwap
unfolding involves acknowledge_stopped
acknowledge_for position [] = []
acknowledge_for position (s ∷ ss) =
    let rest = acknowledge_for position ss in
    if involves position s then acknowledge_stopped position s ∷ ss else s ∷ rest

unfoldable pub drop_robot : ℕ → Controller → Controller
unfolding acknowledge_for
drop_robot position c = record c {
  position_remote_robot_map = erase position c.position_remote_robot_map;
  registered_robots = sub32 c.registered_robots 1;
  pending_swaps = acknowledge_for position c.pending_swaps;
}

-- The loop over the robots.
unfoldable pub drop_stopped : List (ℕ × RemoteRobot) → Controller → Controller
unfolding drop_robot
drop_stopped [] c = c
drop_stopped ((position, r) ∷ m) c = drop_stopped m (if r.running then c else drop_robot position c)

unfoldable pub remove_stopped_robots : Controller → Controller
unfolding drop_stopped
remove_stopped_robots c = drop_stopped c.position_remote_robot_map c

-- No robot is registered at either position.
unfoldable pub is_stale : List (ℕ × RemoteRobot) → PendingSwap → Bool
unfolding is_registered
is_stale m s = not (is_registered s.lower m) && not (is_registered s.greater m)

unfoldable pub keep_live : List (ℕ × RemoteRobot) → List PendingSwap → List PendingSwap
unfolding is_stale
keep_live m [] = []
keep_live m (s ∷ ss) = let rest = keep_live m ss in if is_stale m s then rest else s ∷ rest

unfoldable pub erase_stale_pending_swap_entries : Controller → Controller
unfolding keep_live
erase_stale_pending_swap_entries c = record c {
  pending_swaps = keep_live c.position_remote_robot_map c.pending_swaps;
}

-- The two calls that most handlers begin with.
unfoldable pub tidy_up : Controller → Controller
unfolding remove_stopped_robots erase_stale_pending_swap_entries
tidy_up c = erase_stale_pending_swap_entries (remove_stopped_robots c)

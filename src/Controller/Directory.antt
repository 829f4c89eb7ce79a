-- ===== src/Controller/Directory.antt =====
-- What the controller's registry is to the other agents: which endpoint stands at which position,
-- and what each step is to make of it (controller.cpp).
pub mod Registry
pub mod Switching
pub mod Exchange
pub mod Handlers
pub mod Reachable
use opcua_cps_kitchen.Base.{
  ℕ, ◌%◌, ◌<◌, ◌≡◌, ◌∙◌, String, Bool, true, false, not, Option, none, some, List, [], ◌∷◌, find,
  length, ◌==◌, ◌&&◌, if◌then◌else◌, u32_size,
}
use opcua_cps_kitchen.Controller.State.{
  RemoteRobot, PendingSwap, ControllerTask, registration, next_robot_request, position_swapped,
  capabilities_reconfigured, Controller,
}
use opcua_cps_kitchen.Controller.Registry.{tidy_up, is_robot_position_swapping}
use opcua_cps_kitchen.Controller.Loop.{
  TaskAnswers, ControllerStep, run, registers, asks, moves, changes, stops,
}
use opcua_cps_kitchen.Controller.Swaps.{swap_at, acknowledge}
use opcua_cps_kitchen.Controller.Pending.{endpoint_at}

abbrev pub Directory : Type 0
Directory = ℕ → Option String

-- An endpoint joins at a position.
abbrev pub joined : ℕ → String → Directory → Directory
joined k endpoint d j = if k == j then some endpoint else d j

-- What stands at two positions is exchanged.
abbrev pub exchanged : ℕ → ℕ → Directory → Directory
exchanged l g d j = if l == j then d g else if g == j then d l else d j

abbrev pub is_vacant : Option String → Bool
is_vacant none = true
is_vacant (some e) = false

abbrev pub directory : Controller → Directory
directory c = endpoint_at c.position_remote_robot_map

-- The robots that have not stopped.
abbrev pub running_robots : Controller → Directory
running_robots c j = elim (find c.position_remote_robot_map j) [
  | none ↦ none
  | some r ↦ if r.running then some r.endpoint else none
]

-- REGISTERED_ROBOTS counts the robots of the map.
abbrev pub IsCounted : Controller → Type 0
IsCounted c = c.registered_robots ≡ length c.position_remote_robot_map % u32_size

-- What a part of a handler makes of the registry.
pub record Follows (e : Directory) (c d : Controller) : Type 0 where
  pub shows : (j : ℕ) → directory d j ≡ e j
  pub counts : IsCounted c → IsCounted d

pub Follows-trans :
    {e f h : Directory} {c d x : Controller}
    → Follows e c d
    → Follows f d x
    → ((j : ℕ) → f j ≡ h j)
    → Follows h c x
Follows-trans a b same = record {
  shows = λ j. b.shows j ∙ same j;
  counts = λ n. b.counts (a.counts n);
}

-- A robot at either position tells the other one.
abbrev pub IsExchanged : ℕ → ℕ → List (ℕ × RemoteRobot) → Type 0
IsExchanged l g m =
    ((r : RemoteRobot) → find m l ≡ some r → r.position ≡ g)
    × ((r : RemoteRobot) → find m g ≡ some r → r.position ≡ l)

-- The robot at a position, if there is one, tells the other position.
unfoldable pub tells_other : ℕ → ℕ → List (ℕ × RemoteRobot) → Bool
tells_other position other m = elim (find m position) [ none ↦ true | some r ↦ r.position == other ]

unfoldable pub tells_exchanged : PendingSwap → List (ℕ × RemoteRobot) → Bool
unfolding tells_other
tells_exchanged s m = tells_other s.lower s.greater m && tells_other s.greater s.lower m

unfoldable pub is_acknowledged : PendingSwap → Bool
is_acknowledged s = s.ack_from_lower_position && s.ack_from_greater_position

-- If a handler completes a swap, the robots that it is about tell each the other's position.
unfoldable pub tells_for : ℕ → ℕ → Controller → Bool
unfolding tells_exchanged is_acknowledged swap_at acknowledge
tells_for old new c = elim (swap_at old new c.pending_swaps) [
  | none ↦ true
  | some s ↦
      if is_acknowledged (acknowledge old s)
      then tells_exchanged s c.position_remote_robot_map
      else true
]

unfoldable pub tells_in : List ControllerTask → Controller → Bool
unfolding tells_for tidy_up
tells_in (position_swapped old new ∷ ts) c = tells_for old new (tidy_up (record c { tasks = ts }))
tells_in _ c = true

-- The same for the next handler.
unfoldable pub tells_new_places : Controller → Bool
unfolding tells_in
tells_new_places c = tells_in c.tasks c

-- The report of a robot brings the last acknowledgement of a swap.
unfoldable pub completes : ℕ → ℕ → Controller → Bool
unfolding is_acknowledged swap_at acknowledge
completes old new c = elim (swap_at old new c.pending_swaps) [
  | none ↦ false
  | some s ↦ is_acknowledged (acknowledge old s)
]

-- The registry after a handler: the stopped robots have left, a registration at a vacant position
-- that is in no swap has joined if the robot's client starts, and the last report of a swap has
-- exchanged its positions.
unfoldable pub next_directory : TaskAnswers → ControllerTask → Controller → Directory
unfolding completes tidy_up is_robot_position_swapping
next_directory a (registration endpoint k caps) c =
    let d = running_robots c in
    if is_vacant (d k)
      && not (is_robot_position_swapping k (tidy_up c).pending_swaps)
      && a.on_registration.starts
    then joined k endpoint d
    else d
next_directory a (position_swapped old new) c =
    let d = running_robots c in if completes old new (tidy_up c) then exchanged old new d else d
next_directory a (next_robot_request id processed x) c = running_robots c
next_directory a (capabilities_reconfigured k) c = running_robots c

-- The registry after a step: only a handler changes it.
unfoldable pub directory_after : {c d : Controller} → ControllerStep c d → Directory
unfolding next_directory
directory_after {c} (run a t ts going first e) = next_directory a t (record c { tasks = ts })
directory_after {c} (registers vs e) = directory c
directory_after {c} (asks vs e) = directory c
directory_after {c} (moves key new e) = directory c
directory_after {c} (changes key ns e) = directory c
directory_after {c} (stops key e) = directory c

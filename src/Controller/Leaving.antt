-- ===== src/Controller/Leaving.antt =====
-- A robot that stops while it is in a pending swap (controller.cpp).
pub mod Entries
pub mod Dropping
pub mod Others
pub mod Locked
pub mod Staying
pub mod Reachable
use opcua_cps_kitchen.Base.{
  ℕ, ◌≡◌, ◌⊎◌, refl, inl, inr, String, Bool, true, false, Option, none, some, List, [], ◌∷◌, find,
  find-erase, erase, ◌==◌, if◌then◌else◌, Bool-cases, arith,
}
use opcua_cps_kitchen.Capabilities.{Capabilities}
use opcua_cps_kitchen.Controller.State.{RemoteRobot, PendingSwap, Controller}
use opcua_cps_kitchen.Controller.Registry.{
  is_registered, involves, is_robot_position_swapping, acknowledge_stopped, acknowledge_for,
  drop_robot, drop_stopped, remove_stopped_robots, is_stale, keep_live,
  erase_stale_pending_swap_entries, tidy_up,
}
use opcua_cps_kitchen.Controller.Swaps.{has_key, find_swap}
use opcua_cps_kitchen.Controller.Requests.{
  RegistrationAnswers, register_if_free, handle_robot_registration,
}
use opcua_cps_kitchen.Controller.Falling.{IsFalling, erase-IsFalling}
use opcua_cps_kitchen.Controller.Pending.{AreApart, IsOrderly}
use opcua_cps_kitchen.Controller.Pending.Entries.{involves-eq, find_swap-keys, find_swap-swapping}
use opcua_cps_kitchen.Controller.Pending.Awaited.{acknowledge_for-AreApart}
use opcua_cps_kitchen.Controller.Directory.Registry.{AreListed, erase-AreListed, AreListed-self}

-- The positions of a pair: one robot's and the other's.
abbrev pub ArePair : ℕ → ℕ → PendingSwap → Type 0
ArePair k o s = ((s.lower ≡ k) × (s.greater ≡ o)) ⊎ ((s.greater ≡ k) × (s.lower ≡ o))

-- The entry of the pair, and the robots at its positions: one that may have left, and one that stays.
pub record HasPair (l g k o : ℕ) (q : Option RemoteRobot) (r : RemoteRobot) (s : PendingSwap)
    (c : Controller) : Type 0 where
  pub falling : IsFalling c.position_remote_robot_map
  pub apart : AreApart c.pending_swaps
  pub listed : find_swap l g c.pending_swaps ≡ some s
  pub stays : find c.position_remote_robot_map o ≡ some r
  pub leaves : find c.position_remote_robot_map k ≡ q

-- ===== src/Controller/Pending.antt =====
-- The swaps that are pending: what their entries have to do with each other and with the robots
-- (controller.cpp).
pub mod Entries
pub mod Awaited
pub mod Keys
pub mod Switching
pub mod Completion
pub mod Requests
pub mod Reachable
use opcua_cps_kitchen.Base.{
  ℕ, ◌<◌, String, Option, none, some, find, length, ◌≡◌, refl, ap, ◌∙◌, Bool, true, false, List, [],
  ◌∷◌, All,
}
use opcua_cps_kitchen.Controller.State.{RemoteRobot, PendingSwap, Controller}
use opcua_cps_kitchen.Controller.Registry.{is_registered, is_robot_position_swapping}
use opcua_cps_kitchen.Controller.Falling.{IsFalling}

-- Each swap is of two positions, the lower first, and no position is in two swaps.
abbrev pub AreApart : List PendingSwap → Type 0
AreApart [] = Unit
AreApart (s ∷ ss) =
    (s.lower < s.greater)
    × (is_robot_position_swapping s.lower ss ≡ false)
    × (is_robot_position_swapping s.greater ss ≡ false)
    × AreApart ss

-- An acknowledgement is awaited from a registered robot only.
abbrev pub IsAwaited : List (ℕ × RemoteRobot) → PendingSwap → Type 0
IsAwaited m s =
    (is_registered s.lower m ≡ false → s.ack_from_lower_position ≡ true)
    × (is_registered s.greater m ≡ false → s.ack_from_greater_position ≡ true)

pub record IsOrderly (c : Controller) : Type 0 where
  pub falling : IsFalling c.position_remote_robot_map
  pub apart : AreApart c.pending_swaps
  pub awaited : All (IsAwaited c.position_remote_robot_map) c.pending_swaps

-- The endpoint of the robot under a key.
unfoldable pub endpoint_at : List (ℕ × RemoteRobot) → ℕ → Option String
endpoint_at m k = elim (find m k) [ none ↦ none | some r ↦ some r.endpoint ]

-- What an assignment to a robot keeps of the map.
pub record KeepsMap (m n : List (ℕ × RemoteRobot)) : Type 0 where
  pub keys : (k : ℕ) → is_registered k n ≡ is_registered k m
  pub order : IsFalling m → IsFalling n
  pub endpoints : (k : ℕ) → endpoint_at n k ≡ endpoint_at m k
  pub size : IsFalling m → length n ≡ length m

pub KeepsMap-refl : (m : List (ℕ × RemoteRobot)) → KeepsMap m m
KeepsMap-refl m = record {
  keys = λ k. refl;
  order = λ h. h;
  endpoints = λ k. refl;
  size = λ h. refl;
}

pub KeepsMap-trans : (m n o : List (ℕ × RemoteRobot)) → KeepsMap m n → KeepsMap n o → KeepsMap m o
KeepsMap-trans m n o g h = record {
  keys = λ k. h.keys k ∙ g.keys k;
  order = λ f. h.order (g.order f);
  endpoints = λ k. h.endpoints k ∙ g.endpoints k;
  size = λ f. h.size (g.order f) ∙ g.size f;
}

-- What a step that concerns neither the keys nor the swaps keeps.
pub record KeepsKeys (c d : Controller) : Type 0 where
  pub swaps : d.pending_swaps ≡ c.pending_swaps
  pub map : KeepsMap c.position_remote_robot_map d.position_remote_robot_map
  pub count : d.registered_robots ≡ c.registered_robots

pub KeepsKeys-refl : (c : Controller) → KeepsKeys c c
KeepsKeys-refl c = record {
  swaps = refl;
  map = KeepsMap-refl c.position_remote_robot_map;
  count = refl;
}

pub KeepsKeys-trans : (c d e : Controller) → KeepsKeys c d → KeepsKeys d e → KeepsKeys c e
KeepsKeys-trans c d e g h = record {
  swaps = h.swaps ∙ g.swaps;
  map = KeepsMap-trans _ _ _ g.map h.map;
  count = h.count ∙ g.count;
}

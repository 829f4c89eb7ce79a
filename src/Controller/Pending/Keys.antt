-- ===== src/Controller/Pending/Keys.antt =====
-- The parts that handlers share, and the pending swaps (controller.cpp).
use opcua_cps_kitchen.Base.{
  Bool, Option, none, some, ℕ, ◌<◌, ◌≡◌, refl, ◌∙◌, sym, subst, inl, inr, false, List, [], ◌∷◌,
  find, Bool-cases, Option-cases, arith,
}
use opcua_cps_kitchen.Conveyor.Delivery.{Flagged, failed, bad_size, bad_type, result}
use opcua_cps_kitchen.Controller.State.{RemoteRobot, PendingSwap, Call, Controller}
use opcua_cps_kitchen.Controller.Registry.{
  set_adaptivity, enter, update_robot, stop_robot, call, is_robot_position_swapping, drop_robot,
  drop_stopped, remove_stopped_robots, erase_stale_pending_swap_entries, tidy_up,
}
use opcua_cps_kitchen.Controller.Swaps.{after_read, halt, erase_swap, put_swap, commit_at}
use opcua_cps_kitchen.Controller.Falling.{
  find-enter, length-enter-found, enter-IsFalling, erase-IsFalling, is_registered-enter,
  is_registered-update,
}
use opcua_cps_kitchen.Controller.Pending.{
  IsAwaited, IsOrderly, KeepsKeys, KeepsKeys-refl, KeepsMap, KeepsMap-refl, endpoint_at,
  KeepsKeys-trans,
}
use opcua_cps_kitchen.Controller.Pending.Entries.{
  keep_live-AreApart, keep_live-All, erase_swap-AreApart, erase_swap-All,
}
use opcua_cps_kitchen.Controller.Pending.Awaited.{
  IsAwaited-mono, acknowledge_for-AreApart, acknowledge_for-IsAwaited,
}

pub IsOrderly-KeepsKeys : {c d : Controller} → KeepsKeys c d → IsOrderly c → IsOrderly d
IsOrderly-KeepsKeys {c} {d} k h =
    let same = k.swaps in
    record {
      falling = k.map.order h.falling;
      apart = rw same h.apart;
      awaited = rw same (
          IsAwaited-mono c.position_remote_robot_map d.position_remote_robot_map c.pending_swaps
            (λ j e. k.map.keys j ∙ e) h.awaited);
    }

-- A step that changes neither map.
pub KeepsKeys-same :
    (c d : Controller)
    → d.position_remote_robot_map ≡ c.position_remote_robot_map
    → d.pending_swaps ≡ c.pending_swaps
    → d.registered_robots ≡ c.registered_robots
    → KeepsKeys c d
KeepsKeys-same c d m s n = record {
  swaps = s;
  map =
      subst (KeepsMap c.position_remote_robot_map) (sym m)
        (KeepsMap-refl c.position_remote_robot_map);
  count = n;
}

-- Another value for the robot under a key, with the same endpoint.
enter-KeepsMap :
    (k : ℕ) (r s : RemoteRobot) (m : List (ℕ × RemoteRobot))
    → find m k ≡ some r
    → s.endpoint ≡ r.endpoint
    → KeepsMap m (enter k s m)
unfolding endpoint_at
enter-KeepsMap k r s m e same = record {
  keys = λ j. is_registered-update k j r s m e;
  order = enter-IsFalling k s m;
  endpoints = λ j. ground (arith, find-enter k j s m);
  size = λ h. length-enter-found k r s m h e;
}

pub update_robot-KeepsKeys :
    (k : ℕ) (f : RemoteRobot → RemoteRobot) (c : Controller)
    → ((r : RemoteRobot) → (f r).endpoint ≡ r.endpoint)
    → KeepsKeys c (update_robot k f c)
unfolding update_robot
update_robot-KeepsKeys k f c same = elim (Option-cases (find c.position_remote_robot_map k)) [
  | inl e ↦ rw (update_robot, e) (KeepsKeys-refl c)
  | inr (r, e) ↦
      rw (update_robot, e)
        (record {
          swaps = refl;
          map = enter-KeepsMap k r (f r) c.position_remote_robot_map e (same r);
          count = refl;
        })
]

pub set_adaptivity-endpoint :
    (b : Bool) (r : RemoteRobot) → (set_adaptivity b r).endpoint ≡ r.endpoint
unfolding set_adaptivity
set_adaptivity-endpoint b r = refl

pub stop_robot-endpoint : (r : RemoteRobot) → (stop_robot r).endpoint ≡ r.endpoint
unfolding stop_robot
stop_robot-endpoint r = refl

pub after_read-endpoint :
    (o : Option Bool) (r : RemoteRobot) → (after_read o r).endpoint ≡ r.endpoint
unfolding after_read stop_robot
after_read-endpoint none r = ground arith
after_read-endpoint (some b) r = ground arith

pub drop_robot-IsOrderly : (k : ℕ) (c : Controller) → IsOrderly c → IsOrderly (drop_robot k c)
unfolding drop_robot
drop_robot-IsOrderly k c h = record {
  falling = erase-IsFalling k c.position_remote_robot_map h.falling;
  apart = acknowledge_for-AreApart k c.pending_swaps h.apart;
  awaited =
      acknowledge_for-IsAwaited k c.position_remote_robot_map c.pending_swaps h.apart h.awaited;
}

drop_stopped-IsOrderly :
    (m : List (ℕ × RemoteRobot)) (c : Controller) → IsOrderly c → IsOrderly (drop_stopped m c)
unfolding drop_stopped
drop_stopped-IsOrderly [] c h = h
drop_stopped-IsOrderly ((k, r) ∷ m) c h = elim (Bool-cases r.running) [
  | inl e ↦ rw e (drop_stopped-IsOrderly m c h)
  | inr e ↦ rw e (drop_stopped-IsOrderly m (drop_robot k c) (drop_robot-IsOrderly k c h))
]

pub remove_stopped_robots-IsOrderly :
    (c : Controller) → IsOrderly c → IsOrderly (remove_stopped_robots c)
unfolding remove_stopped_robots
remove_stopped_robots-IsOrderly c h = drop_stopped-IsOrderly c.position_remote_robot_map c h

pub tidy_up-IsOrderly : (c : Controller) → IsOrderly c → IsOrderly (tidy_up c)
unfolding tidy_up erase_stale_pending_swap_entries
tidy_up-IsOrderly c h =
    let d = remove_stopped_robots c in
    let k = remove_stopped_robots-IsOrderly c h in
    record {
      falling = k.falling;
      apart = keep_live-AreApart d.position_remote_robot_map d.pending_swaps k.apart;
      awaited =
          keep_live-All (IsAwaited d.position_remote_robot_map) d.position_remote_robot_map
            d.pending_swaps k.awaited;
    }

pub halt-KeepsKeys : (c : Controller) → KeepsKeys c (halt c)
unfolding halt
halt-KeepsKeys c = KeepsKeys-same c (halt c) refl refl refl

pub call-KeepsKeys : (x : Call) (c : Controller) → KeepsKeys c (call x c)
unfolding call
call-KeepsKeys x c = KeepsKeys-same c (call x c) refl refl refl

pub commit_at-KeepsKeys :
    (answer : Flagged) (k : ℕ) (c : Controller) → KeepsKeys c (commit_at answer k c)
unfolding commit_at
commit_at-KeepsKeys failed k c =
    KeepsKeys-trans c _ _ (call-KeepsKeys _ c)
      (update_robot-KeepsKeys k stop_robot _ stop_robot-endpoint)
commit_at-KeepsKeys bad_size k c = call-KeepsKeys _ c
commit_at-KeepsKeys bad_type k c = call-KeepsKeys _ c
commit_at-KeepsKeys (result b) k c = call-KeepsKeys _ c

-- A robot that enters the map leaves the swaps in order.
pub enter-IsOrderly :
    (k : ℕ) (r : RemoteRobot) (c : Controller)
    → IsOrderly c
    → IsOrderly (record c { position_remote_robot_map = enter k r c.position_remote_robot_map })
enter-IsOrderly k r c h = record {
  falling = enter-IsFalling k r c.position_remote_robot_map h.falling;
  apart = h.apart;
  awaited =
      IsAwaited-mono c.position_remote_robot_map _ c.pending_swaps
        (λ j e. ground (arith, is_registered-enter k j r c.position_remote_robot_map)) h.awaited;
}

-- An entry may be put whose positions are in no other, the lower first.
pub put_swap-IsOrderly :
    (s : PendingSwap) (c : Controller)
    → s.lower < s.greater
    → is_robot_position_swapping s.lower (erase_swap s.lower s.greater c.pending_swaps) ≡ false
    → is_robot_position_swapping s.greater (erase_swap s.lower s.greater c.pending_swaps) ≡ false
    → IsAwaited c.position_remote_robot_map s
    → IsOrderly c
    → IsOrderly (record c { pending_swaps = put_swap s c.pending_swaps })
unfolding put_swap
put_swap-IsOrderly s c lt a b w h = record {
  falling = h.falling;
  apart = (lt, a, b, erase_swap-AreApart s.lower s.greater c.pending_swaps h.apart);
  awaited = (
    w,
    erase_swap-All s.lower s.greater (IsAwaited c.position_remote_robot_map) c.pending_swaps
        h.awaited,
  );
}

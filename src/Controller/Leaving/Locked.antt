-- ===== src/Controller/Leaving/Locked.antt =====
-- Swaps with both acknowledgements, and what the handlers share (controller.cpp).
use opcua_cps_kitchen.Base.{
  ℕ, ◌≡◌, ◌⊎◌, refl, ◌∙◌, inl, inr, String, Bool, true, false, none, some, List, [], ◌∷◌, find,
  find-erase, ◌==◌, if◌then◌else◌, Bool-cases, arith,
}
use opcua_cps_kitchen.Capabilities.{Capabilities}
use opcua_cps_kitchen.Controller.State.{RemoteRobot, PendingSwap, Controller, new_remote_robot}
use opcua_cps_kitchen.Controller.Registry.{
  is_registered, involves, is_robot_position_swapping, acknowledge_stopped, drop_robot,
  drop_stopped, remove_stopped_robots, is_stale, erase_stale_pending_swap_entries, tidy_up,
}
use opcua_cps_kitchen.Controller.Swaps.{find_swap, add_swap}
use opcua_cps_kitchen.Controller.Requests.{RegistrationAnswers, register_at, register_if_free}
use opcua_cps_kitchen.Controller.Falling.{IsFalling, is_registered-enter}
use opcua_cps_kitchen.Controller.Pending.{IsOrderly, KeepsKeys}
use opcua_cps_kitchen.Controller.Pending.Entries.{find_swap-keys, find_swap-swapping}
use opcua_cps_kitchen.Controller.Pending.Keys.{drop_robot-IsOrderly}
use opcua_cps_kitchen.Controller.Pending.Switching.{Lists, keeps, adds}
use opcua_cps_kitchen.Controller.Pending.Requests.{resolve-KeepsKeys}
use opcua_cps_kitchen.Controller.Directory.{is_acknowledged}
use opcua_cps_kitchen.Controller.Directory.Registry.{AreListed, erase-AreListed, AreListed-self}
use opcua_cps_kitchen.Controller.Leaving.Entries.{find-acknowledge_for, find-keep_live}
use opcua_cps_kitchen.Controller.Leaving.Others.{find_swap-put_other, new_swap-other}

-- The swap of a pair is listed with both acknowledgements, and a robot is at one of its positions.
pub record IsLocked (l g o : ℕ) (c : Controller) : Type 0 where
  pub entry : PendingSwap
  pub listed : find_swap l g c.pending_swaps ≡ some entry
  pub acked : is_acknowledged entry ≡ true
  pub place : (l ≡ o) ⊎ (g ≡ o)
  pub there : is_registered o c.position_remote_robot_map ≡ true

-- The robot at the position, if there is one, has not stopped.
unfoldable pub is_running_at : ℕ → List (ℕ × RemoteRobot) → Bool
is_running_at o m = elim (find m o) [ none ↦ true | some r ↦ r.running ]

pub IsLocked-KeepsKeys :
    (l g o : ℕ) {c d : Controller} → KeepsKeys c d → IsLocked l g o c → IsLocked l g o d
IsLocked-KeepsKeys l g o k h =
    let same = k.swaps in
    record {
      entry = h.entry;
      listed = rw same h.listed;
      acked = h.acked;
      place = h.place;
      there = k.map.keys o ∙ h.there;
    }

pub IsLocked-Lists :
    (l g o from to : ℕ) {c d : Controller} → Lists from to c d → IsLocked l g o c → IsLocked l g o d
unfolding add_swap
IsLocked-Lists l g o from to (keeps k) h = IsLocked-KeepsKeys l g o k h
IsLocked-Lists l g o from to {c} (adds acked {d = d} k f w) h =
    let n = IsLocked-KeepsKeys l g o k h in
    let same = k.swaps in
    let other =
      new_swap-other l g from to acked h.entry c.pending_swaps h.listed f.from_free f.to_free in
    record {
      entry = n.entry;
      listed = find_swap-put_other l g _ d.pending_swaps other ∙ n.listed;
      acked = n.acked;
      place = n.place;
      there = n.there;
    }

acknowledged_again :
    (k : ℕ) (s : PendingSwap)
    → is_acknowledged s ≡ true
    → is_acknowledged (if involves k s then acknowledge_stopped k s else s) ≡ true
unfolding is_acknowledged acknowledge_stopped
acknowledged_again k s h = ground arith

drop_robot-IsLocked :
    (k l g o : ℕ) (c : Controller)
    → (k == o) ≡ false
    → IsOrderly c
    → IsLocked l g o c
    → IsLocked l g o (drop_robot k c)
unfolding drop_robot is_registered
drop_robot-IsLocked k l g o c x n h = record {
  entry = if involves k h.entry then acknowledge_stopped k h.entry else h.entry;
  listed = find-acknowledge_for l g k h.entry c.pending_swaps n.apart h.listed;
  acked = acknowledged_again k h.entry h.acked;
  place = h.place;
  there = ground (arith, find-erase k o c.position_remote_robot_map, h.there);
}

drop_stopped-IsLocked :
    (l g o : ℕ) (n : List (ℕ × RemoteRobot)) (c : Controller)
    → is_running_at o c.position_remote_robot_map ≡ true
    → IsFalling n
    → AreListed n c.position_remote_robot_map
    → IsOrderly c
    → IsLocked l g o c
    → IsLocked l g o (drop_stopped n c)
unfolding drop_stopped is_running_at
drop_stopped-IsLocked l g o [] c up f a n h = h
drop_stopped-IsLocked l g o ((i, x) ∷ m) c up f a n h =
    let at_i = a.0 in
    elim (Bool-cases x.running) [
      | inl e ↦ rw e (drop_stopped-IsLocked l g o m c up f.1 a.1 n h)
      | inr e ↦
          let not_o : (i == o) ≡ false = ground arith in
          rw e (
            drop_stopped-IsLocked l g o m (drop_robot i c)
              (unfold drop_robot in ground (arith, find-erase i o c.position_remote_robot_map, up))
              f.1 (unfold drop_robot in erase-AreListed i m c.position_remote_robot_map f.0 a.1)
              (drop_robot-IsOrderly i c n) (drop_robot-IsLocked i l g o c not_o n h))
    ]

pub remove_stopped_robots-IsLocked :
    (l g o : ℕ) (c : Controller)
    → is_running_at o c.position_remote_robot_map ≡ true
    → IsOrderly c
    → IsLocked l g o c
    → IsLocked l g o (remove_stopped_robots c)
unfolding remove_stopped_robots
remove_stopped_robots-IsLocked l g o c up n h =
    drop_stopped-IsLocked l g o c.position_remote_robot_map c up n.falling
      (AreListed-self c.position_remote_robot_map n.falling) n h

IsLocked-live :
    (l g o : ℕ) (c : Controller) (h : IsLocked l g o c)
    → is_stale c.position_remote_robot_map h.entry ≡ false
unfolding is_stale
IsLocked-live l g o c h =
    let (a, b) = find_swap-keys l g h.entry c.pending_swaps h.listed in
    let registered = h.there in
    elim h.place [
      | inl same ↦
          let here : is_registered h.entry.lower c.position_remote_robot_map ≡ true =
            rw (a, same) registered in
          ground arith
      | inr same ↦
          let here : is_registered h.entry.greater c.position_remote_robot_map ≡ true =
            rw (b, same) registered in
          ground arith
    ]

pub tidy_up-IsLocked :
    (l g o : ℕ) (c : Controller)
    → is_running_at o c.position_remote_robot_map ≡ true
    → IsOrderly c
    → IsLocked l g o c
    → IsLocked l g o (tidy_up c)
unfolding tidy_up erase_stale_pending_swap_entries
tidy_up-IsLocked l g o c up n h =
    let d = remove_stopped_robots c in
    let k = remove_stopped_robots-IsLocked l g o c up n h in
    record {
      entry = k.entry;
      listed =
          find-keep_live l g d.position_remote_robot_map k.entry d.pending_swaps
            (IsLocked-live l g o d k) k.listed;
      acked = k.acked;
      place = k.place;
      there = k.there;
    }

-- A registration at a position of the pair is refused.
pub IsLocked-refuses :
    (a : RegistrationAnswers) (e : String) (caps : Capabilities) (l g o k : ℕ) (c : Controller)
    → (l ≡ k) ⊎ (g ≡ k)
    → IsLocked l g o c
    → register_if_free a e k caps c ≡ c
unfolding register_if_free
IsLocked-refuses a e caps l g o k c at h =
    let (x, y) = find_swap-swapping l g h.entry c.pending_swaps h.listed in
    elim at [
      | inl same ↦
          let taken : is_robot_position_swapping k c.pending_swaps ≡ true = rw (← same) x in
          rw taken refl
      | inr same ↦
          let taken : is_robot_position_swapping k c.pending_swaps ≡ true = rw (← same) y in
          rw taken refl
    ]

register_at-IsLocked :
    (k l g o : ℕ) (r : RemoteRobot) (c : Controller)
    → IsLocked l g o c
    → IsLocked l g o (register_at k r c)
unfolding register_at
register_at-IsLocked k l g o r c h = record {
  entry = h.entry;
  listed = h.listed;
  acked = h.acked;
  place = h.place;
  there =
      let was = h.there in ground (arith, is_registered-enter k o r c.position_remote_robot_map);
}

pub register_if_free-IsLocked :
    (a : RegistrationAnswers) (e : String) (k : ℕ) (caps : Capabilities) (l g o : ℕ)
    → (c : Controller) → IsLocked l g o c
    → IsLocked l g o (register_if_free a e k caps c)
unfolding register_if_free
register_if_free-IsLocked a e k caps l g o c h =
    elim (Bool-cases (is_robot_position_swapping k c.pending_swaps)) [
      | inl x ↦ rw x h
      | inr x ↦ elim (Bool-cases (is_registered k c.position_remote_robot_map)) [
        | inl y ↦ rw (x, y) h
        | inr y ↦ elim (Bool-cases a.starts) [
          | inl z ↦
              rw (x, y, z)
                (IsLocked-KeepsKeys l g o (resolve-KeepsKeys a k _)
                  (register_at-IsLocked k l g o (new_remote_robot e k caps) c h))
          | inr z ↦ rw (x, y, z) h
        ]
      ]
    ]

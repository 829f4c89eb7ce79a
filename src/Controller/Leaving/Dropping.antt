-- ===== src/Controller/Leaving/Dropping.antt =====
-- The loop that takes stopped robots out, and the entry of a pair (controller.cpp).
use opcua_cps_kitchen.Base.{
  ℕ, ◌≡◌, refl, inl, inr, String, true, false, Option, none, some, List, [], ◌∷◌, find, find-erase,
  ◌==◌, Bool-cases, arith,
}
use opcua_cps_kitchen.Capabilities.{Capabilities}
use opcua_cps_kitchen.Controller.State.{RemoteRobot, PendingSwap, Controller}
use opcua_cps_kitchen.Controller.Registry.{
  acknowledge_stopped, drop_robot, drop_stopped, remove_stopped_robots,
  erase_stale_pending_swap_entries, tidy_up,
}
use opcua_cps_kitchen.Controller.Swaps.{find_swap}
use opcua_cps_kitchen.Controller.Requests.{
  RegistrationAnswers, register_if_free, handle_robot_registration,
}
use opcua_cps_kitchen.Controller.Falling.{IsFalling, erase-IsFalling}
use opcua_cps_kitchen.Controller.Pending.{IsOrderly}
use opcua_cps_kitchen.Controller.Pending.Awaited.{acknowledge_for-AreApart}
use opcua_cps_kitchen.Controller.Directory.Registry.{AreListed, erase-AreListed, AreListed-self}
use opcua_cps_kitchen.Controller.Leaving.{ArePair, HasPair}
use opcua_cps_kitchen.Controller.Leaving.Entries.{
  find-acknowledge_for, find-keep_live, found_swapping, ArePair-third, pair_acknowledged,
  ArePair-involves, registered, ArePair-live,
}

-- The loop over the robots leaves a third robot's removal without a trace.
drop_robot-HasPair :
    (i l g k o : ℕ) (q : Option RemoteRobot) (r : RemoteRobot) (s : PendingSwap) (c : Controller)
    → ArePair k o s
    → (i == k) ≡ false
    → (i == o) ≡ false
    → HasPair l g k o q r s c
    → HasPair l g k o q r s (drop_robot i c)
unfolding drop_robot
drop_robot-HasPair i l g k o q r s c pair x y h =
    let none_of_it = ArePair-third i k o s pair x y in
    let found = find-acknowledge_for l g i s c.pending_swaps h.apart h.listed in
    record {
      falling = erase-IsFalling i c.position_remote_robot_map h.falling;
      apart = acknowledge_for-AreApart i c.pending_swaps h.apart;
      listed = ground arith;
      stays = ground (arith, find-erase i o c.position_remote_robot_map, h.stays);
      leaves = ground (arith, find-erase i k c.position_remote_robot_map, h.leaves);
    }

drop_left :
    (l g k o : ℕ) (q r : RemoteRobot) (s : PendingSwap) (c : Controller)
    → ArePair k o s
    → (k == o) ≡ false
    → HasPair l g k o (some q) r s c
    → HasPair l g k o none r (acknowledge_stopped k s) (drop_robot k c)
unfolding drop_robot
drop_left l g k o q r s c pair x h =
    let mine = ArePair-involves k o s pair in
    let found = find-acknowledge_for l g k s c.pending_swaps h.apart h.listed in
    record {
      falling = erase-IsFalling k c.position_remote_robot_map h.falling;
      apart = acknowledge_for-AreApart k c.pending_swaps h.apart;
      listed = ground arith;
      stays = ground (arith, find-erase k o c.position_remote_robot_map, h.stays);
      leaves = ground (arith, find-erase k k c.position_remote_robot_map);
    }

-- The rest of the loop, when the robot has left.
drop_stopped-after :
    (l g k o : ℕ) (r : RemoteRobot) (s : PendingSwap) (n : List (ℕ × RemoteRobot)) (c : Controller)
    → ArePair k o s
    → r.running ≡ true
    → IsFalling n
    → AreListed n c.position_remote_robot_map
    → HasPair l g k o none r s c
    → HasPair l g k o none r s (drop_stopped n c)
unfolding drop_stopped
drop_stopped-after l g k o r s [] c pair up f a h = h
drop_stopped-after l g k o r s ((i, x) ∷ n) c pair up f a h =
    let at_i = a.0 in
    let here = h.leaves in
    let there = h.stays in
    elim (Bool-cases x.running) [
      | inl e ↦ rw e (drop_stopped-after l g k o r s n c pair up f.1 a.1 h)
      | inr e ↦
          let not_k : (i == k) ≡ false = ground arith in
          let not_o : (i == o) ≡ false = ground arith in
          rw e (
            drop_stopped-after l g k o r s n (drop_robot i c) pair up f.1
              (unfold drop_robot in erase-AreListed i n c.position_remote_robot_map f.0 a.1)
              (drop_robot-HasPair i l g k o none r s c pair not_k not_o h))
    ]

drop_stopped-HasPair :
    (l g k o : ℕ) (q r : RemoteRobot) (s : PendingSwap) (n : List (ℕ × RemoteRobot))
    → (c : Controller) → ArePair k o s
    → q.running ≡ false
    → r.running ≡ true
    → find n k ≡ some q
    → IsFalling n
    → AreListed n c.position_remote_robot_map
    → HasPair l g k o (some q) r s c
    → HasPair l g k o none r (acknowledge_stopped k s) (drop_stopped n c)
unfolding drop_stopped find
drop_stopped-HasPair l g k o q r s [] c pair down up at f a h = absurd cc
drop_stopped-HasPair l g k o q r s ((i, x) ∷ n) c pair down up at f a h =
    let at_i = a.0 in
    let here = h.leaves in
    let there = h.stays in
    elim (Bool-cases x.running) [
      | inl e ↦
          let later : find n k ≡ some q = ground arith in
          rw e (drop_stopped-HasPair l g k o q r s n c pair down up later f.1 a.1 h)
      | inr e ↦
          let rest : AreListed n (drop_robot i c).position_remote_robot_map =
            unfold drop_robot in erase-AreListed i n c.position_remote_robot_map f.0 a.1 in
          let not_o : (i == o) ≡ false = ground arith in
          elim (Bool-cases (i == k)) [
            | inl mine ↦
                let same : i ≡ k = ground arith in
                let apart : (k == o) ≡ false = ground arith in
                let left = drop_left l g k o q r s c pair apart h in
                rw e (
                  drop_stopped-after l g k o r (acknowledge_stopped k s) n (drop_robot i c)
                    (pair_acknowledged k o s pair) up f.1 rest (rw same left))
            | inr other ↦
                let later : find n k ≡ some q = ground arith in
                rw e (
                  drop_stopped-HasPair l g k o q r s n (drop_robot i c) pair down up later f.1 rest
                    (drop_robot-HasPair i l g k o (some q) r s c pair other not_o h))
          ]
    ]

-- A robot of a pending swap has stopped, and the other robot of the swap has not. The first thing
-- that most handlers do then is to take the stopped robot out of the map and to set its
-- acknowledgement, and no other; the swap stays listed even if it now has both acknowledgements,
-- the other robot is as it was, and the handler of a registration at the position that has become
-- free does no more than that.
pub stopped_robot_blocks_position :
    (a : RegistrationAnswers) (endpoint : String) (caps : Capabilities) (l g k o : ℕ)
    → (q r : RemoteRobot) (s : PendingSwap) (c : Controller) → IsOrderly c
    → find_swap l g c.pending_swaps ≡ some s
    → ArePair k o s
    → find c.position_remote_robot_map k ≡ some q
    → q.running ≡ false
    → find c.position_remote_robot_map o ≡ some r
    → r.running ≡ true
    → (handle_robot_registration a endpoint k caps c ≡ tidy_up c)
      × (find_swap l g (tidy_up c).pending_swaps ≡ some (acknowledge_stopped k s))
      × (find (tidy_up c).position_remote_robot_map k ≡ none)
      × (find (tidy_up c).position_remote_robot_map o ≡ some r)
unfolding tidy_up remove_stopped_robots erase_stale_pending_swap_entries handle_robot_registration
    register_if_free
stopped_robot_blocks_position a endpoint caps l g k o q r s c h listed pair at down there up =
    let m = c.position_remote_robot_map in
    let left =
      drop_stopped-HasPair l g k o q r s m c pair down up at h.falling (AreListed-self m h.falling)
        (record {
          falling = h.falling;
          apart = h.apart;
          listed = listed;
          stays = there;
          leaves = at;
        }) in
    let d = drop_stopped m c in
    let t = acknowledge_stopped k s in
    let pair' = pair_acknowledged k o s pair in
    let live =
      ArePair-live k o t d.position_remote_robot_map pair'
        (registered o r d.position_remote_robot_map left.stays) in
    let kept = find-keep_live l g d.position_remote_robot_map t d.pending_swaps live left.listed in
    let taken = found_swapping l g k t _ kept (ArePair-involves k o t pair') in
    (rw taken refl, kept, left.leaves, left.stays)

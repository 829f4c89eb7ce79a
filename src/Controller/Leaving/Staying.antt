-- ===== src/Controller/Leaving/Staying.antt =====
-- Swaps that no handler completes (controller.cpp).
use opcua_cps_kitchen.Base.{
  ℕ, ◌≡◌, refl, ◌∙◌, inl, inr, true, false, ◌&&◌, Option, none, some, find, ◌==◌, Bool-cases,
  Option-cases, arith,
}
use opcua_cps_kitchen.Conveyor.Delivery.{Flagged}
use opcua_cps_kitchen.Controller.State.{RemoteRobot, PendingSwap, Controller}
use opcua_cps_kitchen.Controller.Registry.{is_registered, set_adaptivity}
use opcua_cps_kitchen.Controller.Swaps.{
  has_key, put_swap, settle, take_out, complete_swap, complete_if_acknowledged, swap_at,
  acknowledge, acknowledge_swap,
}
use opcua_cps_kitchen.Controller.Falling.{is_registered-enter, is_registered-erase}
use opcua_cps_kitchen.Controller.Pending.{IsOrderly}
use opcua_cps_kitchen.Controller.Pending.Keys.{commit_at-KeepsKeys}
use opcua_cps_kitchen.Controller.Pending.Completion.{
  settle-swaps, swap_at-found, acknowledged-IsOrderly, found_self,
}
use opcua_cps_kitchen.Controller.Leaving.Others.{
  is_other, find_swap-erase_other, find_swap-put_other, swap_at-other, other-apart,
}
use opcua_cps_kitchen.Controller.Leaving.Locked.{IsLocked}

settle-registered :
    (answer : Flagged) (x : Option RemoteRobot) (o : ℕ) (c : Controller)
    → is_registered o c.position_remote_robot_map ≡ true
    → is_registered o (settle answer x c).position_remote_robot_map ≡ true
unfolding settle
settle-registered answer none o c h = h
settle-registered answer (some r) o c h =
    let k = commit_at-KeepsKeys answer r.position _ in
    k.map.keys o
    ∙ ground (
      arith,
      is_registered-enter r.position o (set_adaptivity false r) c.position_remote_robot_map,
    )

taken_out-registered :
    (k o : ℕ) (c : Controller)
    → (k == o) ≡ false
    → is_registered o c.position_remote_robot_map ≡ true
    → is_registered o (take_out k c).position_remote_robot_map ≡ true
unfolding take_out
taken_out-registered k o c x h = ground (arith, is_registered-erase k o c.position_remote_robot_map)

-- The end of another swap.
complete_swap-IsLocked :
    (first second : Flagged) (l g o : ℕ) (t : PendingSwap) (c : Controller)
    → has_key l g t ≡ false
    → (t.lower == o) ≡ false
    → (t.greater == o) ≡ false
    → IsLocked l g o c
    → IsLocked l g o (complete_swap first second t c)
unfolding complete_swap
complete_swap-IsLocked first second l g o t c other x y h =
    let c' = take_out t.lower c in
    let c'' = take_out t.greater c' in
    let d = settle first (find c.position_remote_robot_map t.lower) c'' in
    let second_one = find c'.position_remote_robot_map t.greater in
    let kept : (settle second second_one d).pending_swaps ≡ c.pending_swaps =
      settle-swaps second second_one d
      ∙ settle-swaps first (find c.position_remote_robot_map t.lower) c''
      ∙ (unfold take_out in refl) in
    record {
      entry = h.entry;
      listed = rw kept (
          find_swap-erase_other l g t.lower t.greater c.pending_swaps (unfold has_key in other)
          ∙ h.listed);
      acked = h.acked;
      place = h.place;
      there = settle-registered second second_one o d (
          settle-registered first (find c.position_remote_robot_map t.lower) o c''
            (taken_out-registered t.greater o c' y (taken_out-registered t.lower o c x h.there)));
    }

acknowledge-has_key :
    (l g old : ℕ) (t : PendingSwap) → has_key l g (acknowledge old t) ≡ has_key l g t
unfolding has_key acknowledge
acknowledge-has_key l g old t = ground arith

pub acknowledge_swap-IsLocked :
    (first second : Flagged) (l g o old new : ℕ) (c : Controller)
    → is_other l g old new ≡ true
    → IsOrderly c
    → IsLocked l g o c
    → IsLocked l g o (acknowledge_swap first second old new c)
unfolding acknowledge_swap complete_if_acknowledged
acknowledge_swap-IsLocked first second l g o old new c other n h =
    elim (Option-cases (swap_at old new c.pending_swaps)) [
      | inl e ↦ rw (acknowledge_swap, e) h
      | inr (s, e) ↦
          let t = acknowledge old s in
          let d = record c { pending_swaps = put_swap t c.pending_swaps } in
          let not_pair : has_key l g t ≡ false =
            acknowledge-has_key l g old s ∙ swap_at-other l g old new s c.pending_swaps other e in
          let (i, j, f) = swap_at-found old new s c.pending_swaps e in
          let listed = find_swap-put_other l g t c.pending_swaps not_pair ∙ h.listed in
          let k : IsLocked l g o d = record {
            entry = h.entry;
            listed = listed;
            acked = h.acked;
            place = h.place;
            there = h.there;
          } in
          let orderly = acknowledged-IsOrderly old i j s c f n in
          let (x, y) =
            other-apart l g o h.entry t d.pending_swaps orderly.apart listed
              (found_self t c.pending_swaps) not_pair h.place in
          elim (Bool-cases (t.ack_from_lower_position && t.ack_from_greater_position)) [
            | inl both ↦
                rw (acknowledge_swap, e, both)
                  (complete_swap-IsLocked first second l g o t d not_pair x y k)
            | inr one ↦ rw (acknowledge_swap, e, one) k
          ]
    ]

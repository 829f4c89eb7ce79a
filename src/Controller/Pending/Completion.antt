-- ===== src/Controller/Pending/Completion.antt =====
-- The end of a swap, and the pending swaps (controller.cpp).
use opcua_cps_kitchen.Base.{
  ℕ, ◌≡◌, refl, ◌∙◌, subst, inl, inr, true, false, ◌&&◌, Option, none, some, List, find, erase, ltb,
  ◌==◌, Bool-cases, Option-cases, arith,
}
use opcua_cps_kitchen.Conveyor.Delivery.{Flagged, failed, bad_size, bad_type, result}
use opcua_cps_kitchen.Controller.State.{RemoteRobot, PendingSwap, Controller}
use opcua_cps_kitchen.Controller.Registry.{
  enter, set_adaptivity, call, is_robot_position_swapping, tidy_up,
}
use opcua_cps_kitchen.Controller.Swaps.{
  has_key, find_swap, erase_swap, put_swap, commit_at, settle, take_out, complete_swap,
  complete_if_acknowledged, swap_at, acknowledge, acknowledge_swap, handle_position_swapped,
}
use opcua_cps_kitchen.Controller.Falling.{erase-IsFalling}
use opcua_cps_kitchen.Controller.Pending.{IsAwaited, IsOrderly}
use opcua_cps_kitchen.Controller.Pending.Entries.{
  erase_swap-AreApart, erase_swap-All, find_swap-keys, find_swap-All, find_swap-ordered,
  erased-free,
}
use opcua_cps_kitchen.Controller.Pending.Awaited.{erase-IsAwaited}
use opcua_cps_kitchen.Controller.Pending.Keys.{
  IsOrderly-KeepsKeys, tidy_up-IsOrderly, commit_at-KeepsKeys, enter-IsOrderly, put_swap-IsOrderly,
}

settle-IsOrderly :
    (answer : Flagged) (o : Option RemoteRobot) (c : Controller)
    → IsOrderly c
    → IsOrderly (settle answer o c)
unfolding settle
settle-IsOrderly answer none c h = h
settle-IsOrderly answer (some r) c h =
    IsOrderly-KeepsKeys (commit_at-KeepsKeys answer r.position _)
      (enter-IsOrderly r.position (set_adaptivity false r) c h)

pub settle-swaps :
    (answer : Flagged) (o : Option RemoteRobot) (c : Controller)
    → (settle answer o c).pending_swaps ≡ c.pending_swaps
unfolding settle
settle-swaps answer none c = refl
settle-swaps answer (some r) c =
    let k = commit_at-KeepsKeys answer r.position (record c {
      position_remote_robot_map =
          enter r.position (set_adaptivity false r) c.position_remote_robot_map;
    }) in
    k.swaps

-- The acknowledged entry takes the place of the one that was found.
pub acknowledged-IsOrderly :
    (old l g : ℕ) (s : PendingSwap) (c : Controller)
    → find_swap l g c.pending_swaps ≡ some s
    → IsOrderly c
    → IsOrderly (record c { pending_swaps = put_swap (acknowledge old s) c.pending_swaps })
unfolding acknowledge
acknowledged-IsOrderly old l g s c e h =
    let (a, b) = find_swap-keys l g s c.pending_swaps e in
    let (x, y) = erased-free l g s c.pending_swaps h.apart e in
    let w =
      find_swap-All l g (IsAwaited c.position_remote_robot_map) s c.pending_swaps e h.awaited in
    let lt = find_swap-ordered l g s c.pending_swaps h.apart e in
    elim (Bool-cases (old == s.greater)) [
      | inl k ↦ rw k (
          put_swap-IsOrderly (record s { ack_from_greater_position = true }) c lt (rw (a, b) x)
            (rw (a, b) y) (w.0, λ q. refl) h)
      | inr k ↦ rw k (
          put_swap-IsOrderly (record s { ack_from_lower_position = true }) c lt (rw (a, b) x)
            (rw (a, b) y) (λ q. refl, w.1) h)
    ]

-- The state in which both robots are out of the map, and their swap is not listed.
taken_out-IsOrderly :
    (s : PendingSwap) (c : Controller)
    → is_robot_position_swapping s.lower (erase_swap s.lower s.greater c.pending_swaps) ≡ false
    → is_robot_position_swapping s.greater (erase_swap s.lower s.greater c.pending_swaps) ≡ false
    → IsOrderly c
    → IsOrderly (record (take_out s.greater (take_out s.lower c)) {
      pending_swaps = erase_swap s.lower s.greater c.pending_swaps;
    })
unfolding take_out
taken_out-IsOrderly s c x y h =
    let m = c.position_remote_robot_map in
    let ss = erase_swap s.lower s.greater c.pending_swaps in
    record {
      falling = erase-IsFalling s.greater (erase s.lower m) (erase-IsFalling s.lower m h.falling);
      apart = erase_swap-AreApart s.lower s.greater c.pending_swaps h.apart;
      awaited = erase-IsAwaited s.greater (erase s.lower m) ss y (
          erase-IsAwaited s.lower m ss x
            (erase_swap-All s.lower s.greater (IsAwaited m) c.pending_swaps h.awaited));
    }

-- What is left of the map after a commit does not depend on the swaps.
settle-unlisted :
    (answer : Flagged) (o : Option RemoteRobot) (c : Controller) (ss : List PendingSwap)
    → settle answer o (record c { pending_swaps = ss })
      ≡ record (settle answer o c) { pending_swaps = ss }
unfolding settle commit_at call
settle-unlisted answer none c ss = refl
settle-unlisted failed (some r) c ss = ground arith
settle-unlisted bad_size (some r) c ss = refl
settle-unlisted bad_type (some r) c ss = refl
settle-unlisted (result b) (some r) c ss = refl

complete_swap-IsOrderly :
    (first second : Flagged) (s : PendingSwap) (c : Controller)
    → find_swap s.lower s.greater c.pending_swaps ≡ some s
    → IsOrderly c
    → IsOrderly (complete_swap first second s c)
unfolding complete_swap
complete_swap-IsOrderly first second s c e h =
    let (x, y) = erased-free s.lower s.greater s c.pending_swaps h.apart e in
    let ss = erase_swap s.lower s.greater c.pending_swaps in
    let c' = take_out s.lower c in
    let c'' = take_out s.greater c' in
    let o = find c.position_remote_robot_map s.lower in
    let o' = find c'.position_remote_robot_map s.greater in
    let d = settle first o c'' in
    let kept : (settle second o' d).pending_swaps ≡ c.pending_swaps =
      settle-swaps second o' d ∙ settle-swaps first o c'' ∙ (unfold take_out in refl) in
    let same : settle second o' (settle first o (record c'' { pending_swaps = ss }))
        ≡ record (settle second o' d) {
          pending_swaps = erase_swap s.lower s.greater (settle second o' d).pending_swaps;
        } =
      rw (kept, settle-unlisted first o c'' ss) (settle-unlisted second o' d ss) in
    subst IsOrderly same
      (settle-IsOrderly second o' _ (settle-IsOrderly first o _ (taken_out-IsOrderly s c x y h)))

pub found_self :
    (s : PendingSwap) (ss : List PendingSwap) → find_swap s.lower s.greater (put_swap s ss) ≡ some s
unfolding find_swap put_swap has_key
found_self s ss = ground arith

acknowledged_step :
    (first second : Flagged) (old l g : ℕ) (s : PendingSwap) (c : Controller)
    → find_swap l g c.pending_swaps ≡ some s
    → IsOrderly c
    → IsOrderly (complete_if_acknowledged first second (acknowledge old s) c)
unfolding complete_if_acknowledged
acknowledged_step first second old l g s c e h =
    let t = acknowledge old s in
    let k = acknowledged-IsOrderly old l g s c e h in
    elim (Bool-cases (t.ack_from_lower_position && t.ack_from_greater_position)) [
      | inl both ↦
          rw both (complete_swap-IsOrderly first second t _ (found_self t c.pending_swaps) k)
      | inr one ↦ rw one k
    ]

pub swap_at-found :
    (old new : ℕ) (s : PendingSwap) (ss : List PendingSwap)
    → swap_at old new ss ≡ some s
    → (l : ℕ) × (g : ℕ) × (find_swap l g ss ≡ some s)
unfolding swap_at
swap_at-found old new s ss e = elim (Bool-cases (ltb old new)) [
  | inl x ↦ (old, new, ground arith)
  | inr x ↦ (new, old, ground arith)
]

acknowledge_swap-IsOrderly :
    (first second : Flagged) (old new : ℕ) (c : Controller)
    → IsOrderly c
    → IsOrderly (acknowledge_swap first second old new c)
unfolding acknowledge_swap
acknowledge_swap-IsOrderly first second old new c h =
    elim (Option-cases (swap_at old new c.pending_swaps)) [
      | inl e ↦ rw (acknowledge_swap, e) h
      | inr (s, e) ↦
          let (l, g, f) = swap_at-found old new s c.pending_swaps e in
          rw (acknowledge_swap, e) (acknowledged_step first second old l g s c f h)
    ]

pub handle_position_swapped-IsOrderly :
    (first second : Flagged) (old new : ℕ) (c : Controller)
    → IsOrderly c
    → IsOrderly (handle_position_swapped first second old new c)
unfolding handle_position_swapped
handle_position_swapped-IsOrderly first second old new c h =
    acknowledge_swap-IsOrderly first second old new (tidy_up c) (tidy_up-IsOrderly c h)

-- ===== src/Controller/Pending/Switching.antt =====
-- The beginning of a swap, and the pending swaps (controller.cpp).
use opcua_cps_kitchen.Base.{
  ℕ, ◌≡◌, refl, ◌∙◌, sym, inl, inr, Bool, true, false, ltb, ◌==◌, Bool-cases, arith,
}
use opcua_cps_kitchen.Conveyor.Delivery.{Flagged, failed, bad_size, bad_type, result}
use opcua_cps_kitchen.Controller.State.{RemoteRobot, switch_position, Controller}
use opcua_cps_kitchen.Controller.Registry.{
  is_registered, update_robot, set_adaptivity, stop_robot, is_robot_position_swapping,
}
use opcua_cps_kitchen.Controller.Swaps.{
  AdaptationAnswers, is_refused_at, after_read, new_swap, add_swap, second_switches, switch_second,
  first_switches, switch_first, swap_available, swap_robot_positions,
}
use opcua_cps_kitchen.Controller.Pending.{IsOrderly, KeepsKeys, KeepsKeys-refl, KeepsKeys-trans}
use opcua_cps_kitchen.Controller.Pending.Entries.{swapping-erase_swap}
use opcua_cps_kitchen.Controller.Pending.Keys.{
  IsOrderly-KeepsKeys, set_adaptivity-endpoint, stop_robot-endpoint, after_read-endpoint,
  update_robot-KeepsKeys, halt-KeepsKeys, call-KeepsKeys, put_swap-IsOrderly,
}

add_swap-IsOrderly :
    (from to : ℕ) (acked : Bool) (c : Controller)
    → (from == to) ≡ false
    → is_robot_position_swapping from c.pending_swaps ≡ false
    → is_robot_position_swapping to c.pending_swaps ≡ false
    → is_registered from c.position_remote_robot_map ≡ true
    → (is_registered to c.position_remote_robot_map ≡ false → acked ≡ true)
    → IsOrderly c
    → IsOrderly (add_swap from to acked c)
unfolding add_swap new_swap
add_swap-IsOrderly from to acked c ne a b r w h = elim (Bool-cases (ltb from to)) [
  | inl l ↦ rw l (
      put_swap-IsOrderly
        (record {
          lower = from;
          greater = to;
          ack_from_lower_position = false;
          ack_from_greater_position = acked;
        })
        c (ground arith) (swapping-erase_swap from to from c.pending_swaps a)
        (swapping-erase_swap from to to c.pending_swaps b) (λ e. absurd cc, w) h)
  | inr l ↦ rw l (
      put_swap-IsOrderly
        (record {
          lower = to;
          greater = from;
          ack_from_lower_position = acked;
          ack_from_greater_position = false;
        })
        c (ground arith) (swapping-erase_swap to from to c.pending_swaps b)
        (swapping-erase_swap to from from c.pending_swaps a) (w, λ e. absurd cc) h)
]

-- Whether two positions can be put in a new swap.
pub record AreFree (from to : ℕ) (c : Controller) : Type 0 where
  pub differ : (from == to) ≡ false
  pub from_free : is_robot_position_swapping from c.pending_swaps ≡ false
  pub to_free : is_robot_position_swapping to c.pending_swaps ≡ false
  pub from_registered : is_registered from c.position_remote_robot_map ≡ true

AreFree-KeepsKeys :
    (from to : ℕ) (c d : Controller) → KeepsKeys c d → AreFree from to c → AreFree from to d
AreFree-KeepsKeys from to c d k f =
    let same = k.swaps in
    record {
      differ = f.differ;
      from_free = rw same f.from_free;
      to_free = rw same f.to_free;
      from_registered = k.map.keys from ∙ f.from_registered;
    }

-- What a handler that begins a swap does to the swaps: nothing, or it lists one that is free.
pub data Lists (from to : ℕ) (c : Controller) : Controller → Type 0 where
  keeps : {d : Controller} → KeepsKeys c d → Lists from to c d
  adds :
      (acked : Bool) {d : Controller}
      → KeepsKeys c d
      → AreFree from to c
      → (is_registered to c.position_remote_robot_map ≡ false → acked ≡ true)
      → Lists from to c (add_swap from to acked d)

before-Lists :
    (from to : ℕ) {c d e : Controller} → KeepsKeys c d → Lists from to d e → Lists from to c e
before-Lists from to k (keeps h) = keeps (KeepsKeys-trans _ _ _ k h)
before-Lists from to {c} {d} k (adds acked h f w) =
    let same = k.swaps in
    adds acked (KeepsKeys-trans _ _ _ k h)
      (record {
        differ = f.differ;
        from_free = rw (← same) f.from_free;
        to_free = rw (← same) f.to_free;
        from_registered = sym (k.map.keys from) ∙ f.from_registered;
      })
      (λ e. w (k.map.keys to ∙ e))

pub Lists-IsOrderly :
    {from to : ℕ} {c d : Controller} → Lists from to c d → IsOrderly c → IsOrderly d
Lists-IsOrderly (keeps k) h = IsOrderly-KeepsKeys k h
Lists-IsOrderly {from} {to} {c} (adds acked {d = d} k f w) h =
    let g = AreFree-KeepsKeys from to c d k f in
    add_swap-IsOrderly from to acked d g.differ g.from_free g.to_free g.from_registered
      (λ e. w (sym (k.map.keys to) ∙ e)) (IsOrderly-KeepsKeys k h)

stopped_endpoint : (r : RemoteRobot) → (set_adaptivity true (stop_robot r)).endpoint ≡ r.endpoint
unfolding set_adaptivity stop_robot
stopped_endpoint r = refl

second_switches-Lists :
    (answer : Flagged) (from to : ℕ) (c : Controller)
    → is_registered to c.position_remote_robot_map ≡ true
    → AreFree from to c
    → Lists from to c (second_switches answer from to c)
unfolding second_switches
second_switches-Lists failed from to c r f =
    adds true
      (update_robot-KeepsKeys to (λ x. set_adaptivity true (stop_robot x)) c stopped_endpoint) f
      (λ e. refl)
second_switches-Lists bad_size from to c r f = keeps (halt-KeepsKeys c)
second_switches-Lists bad_type from to c r f = keeps (halt-KeepsKeys c)
second_switches-Lists (result true) from to c r f =
    adds false (update_robot-KeepsKeys to (set_adaptivity true) c (set_adaptivity-endpoint true)) f
      (λ e. absurd cc)
second_switches-Lists (result false) from to c r f = keeps (halt-KeepsKeys c)

switch_second-Lists :
    (answer : Flagged) (from to : ℕ) (c : Controller)
    → AreFree from to c
    → Lists from to c (switch_second answer from to c)
unfolding switch_second
switch_second-Lists answer from to c f =
    let k = call-KeepsKeys (switch_position to from) c in
    elim (Bool-cases (is_registered to c.position_remote_robot_map)) [
      | inl e ↦ rw e (
          before-Lists from to k (
            second_switches-Lists answer from to _ (k.map.keys to ∙ e)
              (AreFree-KeepsKeys from to c _ k f)))
      | inr e ↦ rw e (adds true (KeepsKeys-refl c) f (λ x. refl))
    ]

first_switches-Lists :
    (first second : Flagged) (from to : ℕ) (c : Controller)
    → AreFree from to c
    → Lists from to c (first_switches first second from to c)
unfolding first_switches
first_switches-Lists failed second from to c f =
    keeps (update_robot-KeepsKeys from stop_robot c stop_robot-endpoint)
first_switches-Lists bad_size second from to c f = keeps (halt-KeepsKeys c)
first_switches-Lists bad_type second from to c f = keeps (halt-KeepsKeys c)
first_switches-Lists (result true) second from to c f =
    let k = update_robot-KeepsKeys from (set_adaptivity true) c (set_adaptivity-endpoint true) in
    before-Lists from to k
      (switch_second-Lists second from to _ (AreFree-KeepsKeys from to c _ k f))
first_switches-Lists (result false) second from to c f = keeps (halt-KeepsKeys c)

swap_available-Lists :
    (a : AdaptationAnswers) (from to : ℕ) (c : Controller)
    → AreFree from to c
    → Lists from to c (swap_available a from to c)
unfolding swap_available switch_first
swap_available-Lists a from to c f =
    let c' = update_robot from (after_read a.first_available) c in
    let k =
      update_robot-KeepsKeys from (after_read a.first_available) c
        (after_read-endpoint a.first_available) in
    let c'' = update_robot to (after_read a.second_available) c' in
    let l = KeepsKeys-trans c c' c'' k (
      update_robot-KeepsKeys to (after_read a.second_available) c'
        (after_read-endpoint a.second_available)) in
    let n = KeepsKeys-trans c c'' _ l (call-KeepsKeys (switch_position from to) c'') in
    elim (Bool-cases (is_refused_at a.first_available from c.position_remote_robot_map)) [
      | inl e ↦ rw e (keeps k)
      | inr e ↦
          elim (Bool-cases (is_refused_at a.second_available to c'.position_remote_robot_map)) [
            | inl e' ↦ rw (e, e') (keeps l)
            | inr e' ↦
                rw (e, e')
                  (before-Lists from to n (
                    first_switches-Lists a.first_call a.second_call from to _
                      (AreFree-KeepsKeys from to c _ n f)))
          ]
    ]

-- The beginning of a swap lists one at most, of two positions that are in no other.
pub swap_robot_positions-Lists :
    (a : AdaptationAnswers) (from to : ℕ) (c : Controller)
    → Lists from to c (swap_robot_positions a from to c)
unfolding swap_robot_positions
swap_robot_positions-Lists a from to c = elim (Bool-cases (from == to)) [
  | inl e ↦ rw e (keeps (KeepsKeys-refl c))
  | inr e ↦ elim (Bool-cases (is_robot_position_swapping from c.pending_swaps)) [
    | inl x ↦ rw (e, x) (keeps (KeepsKeys-refl c))
    | inr x ↦ elim (Bool-cases (is_robot_position_swapping to c.pending_swaps)) [
      | inl y ↦ rw (e, x, y) (keeps (KeepsKeys-refl c))
      | inr y ↦ elim (Bool-cases (is_registered from c.position_remote_robot_map)) [
        | inl z ↦
            rw (e, x, y, z)
              (swap_available-Lists a from to c
                (record { differ = e; from_free = x; to_free = y; from_registered = z }))
        | inr z ↦ rw (e, x, y, z) (keeps (KeepsKeys-refl c))
      ]
    ]
  ]
]

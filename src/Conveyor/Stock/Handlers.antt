-- ===== src/Conveyor/Stock/Handlers.antt =====
-- The stock, the notifications and the handovers (conveyor.cpp).
use opcua_cps_kitchen.Base.{
  ℕ, ◌≡◌, refl, subst, inl, inr, String, Bool, Option, none, some, List, [], ◌∷◌, get_elem?, find,
  ◌==◌, Bool-cases, Option-cases, arith,
}
use opcua_cps_kitchen.Robot.Methods.{Handover}
use opcua_cps_kitchen.Conveyor.State.{Plate, Conveyor}
use opcua_cps_kitchen.Conveyor.Plates.{
  halt, schedule, visit, with_plate, is_occupied_at, plate_id_at, fill,
  handle_handover_finished_order,
}
use opcua_cps_kitchen.Conveyor.Retrieval.{
  remove_stopped_robots, connect_robot, begin_retrieval, note_finished_order,
  handle_finished_order_notification, HandoverReply, bad_size, bad_type, handed,
  handover_finished_order_called, call_handover, drop_notification, retrieve_order, retrieve_orders,
}
use opcua_cps_kitchen.Conveyor.Stock.{IsStocked}
use opcua_cps_kitchen.Conveyor.Stock.Updates.{fill-IsStocked, transfer, visit-IsStocked}

pub halt-IsStocked : (k n : ℕ) (c : Conveyor) → IsStocked k n c → IsStocked k n (halt c)
unfolding halt
halt-IsStocked k n c v = transfer k n c (halt c) refl refl refl refl v

pub stopped-IsStocked :
    (k n : ℕ) (stopped : ℕ → Bool) (c : Conveyor)
    → IsStocked k n c
    → IsStocked k n (remove_stopped_robots stopped c)
unfolding remove_stopped_robots
stopped-IsStocked k n stopped c v =
    transfer k n c (remove_stopped_robots stopped c) refl refl refl refl v

-- What holds of the conveyor as it is, and for every plate that may be found, holds in the end.
pub with_plate-IsStocked :
    (k n i : ℕ) (f : Plate → Conveyor) (c : Conveyor)
    → IsStocked k n c
    → ((p : Plate) → get_elem? c.plates i ≡ some p → IsStocked k n (f p))
    → IsStocked k n (with_plate i f c)
unfolding with_plate
with_plate-IsStocked k n i f c v each = elim (Option-cases (get_elem? c.plates i)) [
  | inl missing ↦ let same : c ≡ with_plate i f c = ground arith in subst (IsStocked k n) same v
  | inr (p, found) ↦
      let same : f p ≡ with_plate i f c = ground arith in subst (IsStocked k n) same (each p found)
]

pub handover-IsStocked :
    (k n : ℕ) (h : Handover) (c : Conveyor)
    → IsStocked k n c
    → IsStocked k n (handle_handover_finished_order h c)
unfolding handle_handover_finished_order
handover-IsStocked k n h c v = elim (Bool-cases (h.recipe_id == 0)) [
  | inl nothing ↦
      let same : c ≡ handle_handover_finished_order h c = ground arith in
      subst (IsStocked k n) same v
  | inr some_dish ↦
      let c' = visit h.robot_position c in
      let w : IsStocked k n c' = visit-IsStocked k n h.robot_position c v in
      let i = plate_id_at h.robot_position c'.position_plate_id_map in
      let same : with_plate i (λ p. fill i h p c') c' ≡ handle_handover_finished_order h c =
        ground arith in
      subst (IsStocked k n) same (
        with_plate-IsStocked k n i (λ p. fill i h p c') c' w
          (λ p found. fill-IsStocked k n i h p c' found (λ e. ground arith) w))
]

called-IsStocked :
    (k n : ℕ) (reply : HandoverReply) (c : Conveyor)
    → IsStocked k n c
    → IsStocked k n (handover_finished_order_called reply c)
unfolding handover_finished_order_called
called-IsStocked k n bad_size c v = halt-IsStocked k n c v
called-IsStocked k n bad_type c v = halt-IsStocked k n c v
called-IsStocked k n (handed h) c v = handover-IsStocked k n h c v

call_handover-IsStocked :
    (k n : ℕ) (reply : Option HandoverReply) (position : ℕ) (c : Conveyor)
    → IsStocked k n c
    → IsStocked k n (call_handover reply position c)
unfolding call_handover
call_handover-IsStocked k n none position c v = v
call_handover-IsStocked k n (some reply) position c v =
    elim (Option-cases (find c.position_remote_robot_map position)) [
      | inl unknown ↦ rw (unknown, call_handover) v
      | inr (e, known) ↦ rw (known, call_handover) (called-IsStocked k n reply c v)
    ]

retrieve_order-IsStocked :
    (k n : ℕ) (reply : Option HandoverReply) (position : ℕ) (c : Conveyor)
    → IsStocked k n c
    → IsStocked k n (retrieve_order reply position c)
unfolding retrieve_order drop_notification
retrieve_order-IsStocked k n reply position c v =
    let c' = visit position c in
    let w : IsStocked k n c' = visit-IsStocked k n position c v in
    let d = call_handover reply position c' in
    elim (Bool-cases (is_occupied_at position c')) [
      | inl taken ↦
          let same : c' ≡ retrieve_order reply position c = ground arith in
          subst (IsStocked k n) same w
      | inr free ↦
          let same : drop_notification position d ≡ retrieve_order reply position c =
            ground arith in
          subst (IsStocked k n) same (
            transfer k n d (drop_notification position d) refl refl refl refl
              (call_handover-IsStocked k n reply position c' w))
    ]

pub retrieve_orders-IsStocked :
    (k n : ℕ) (replies : ℕ → Option HandoverReply) (ns : List (ℕ × String)) (c : Conveyor)
    → IsStocked k n c
    → IsStocked k n (retrieve_orders replies ns c)
unfolding retrieve_orders
retrieve_orders-IsStocked k n replies [] c v = v
retrieve_orders-IsStocked k n replies ((position, e) ∷ ns) c v =
    retrieve_orders-IsStocked k n replies ns _
      (retrieve_order-IsStocked k n (replies position) position c v)

pub notification-IsStocked :
    (k n : ℕ) (stopped : ℕ → Bool) (starts : Bool) (position : ℕ) (endpoint : String) (c : Conveyor)
    → IsStocked k n c
    → IsStocked k n (handle_finished_order_notification stopped starts position endpoint c)
unfolding handle_finished_order_notification remove_stopped_robots connect_robot note_finished_order
    begin_retrieval schedule halt
notification-IsStocked k n stopped starts position endpoint c v =
    transfer k n c (handle_finished_order_notification stopped starts position endpoint c)
      (ground arith) (ground arith) (ground arith) (ground arith) v

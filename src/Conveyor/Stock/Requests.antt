-- ===== src/Conveyor/Stock/Requests.antt =====
-- The stock and the requests for next robots (conveyor.cpp).
use opcua_cps_kitchen.Base.{
  ℕ, ◌≡◌, refl, inl, inr, String, Bool, Option, some, List, [], ◌∷◌, get_elem?, ◌==◌, if◌then◌else◌,
  Bool-cases, arith,
}
use opcua_cps_kitchen.Conveyor.State.{Plate, movement, Conveyor}
use opcua_cps_kitchen.Conveyor.Plates.{halt, visit}
use opcua_cps_kitchen.Conveyor.Retrieval.{connect_robot, remove_stopped_robots, HandoverReply}
use opcua_cps_kitchen.Conveyor.Delivery.{
  Flagged, request_next_robot, has_no_target, request_robots, await_robots, request_next_robots,
  handle_retrieve_finished_orders, is_robot, connect_next_robot, direct_plate, answer_request,
  handle_receive_next_robot,
}
use opcua_cps_kitchen.Conveyor.Stock.{IsStocked}
use opcua_cps_kitchen.Conveyor.Stock.Updates.{
  set_target_position-IsStocked, transfer, schedule-IsStocked, visit-IsStocked,
}
use opcua_cps_kitchen.Conveyor.Stock.Handlers.{
  stopped-IsStocked, with_plate-IsStocked, retrieve_orders-IsStocked,
}

request-IsStocked :
    (k n : ℕ) (choice : Flagged) (p : Plate) (c : Conveyor)
    → IsStocked k n c
    → IsStocked k n (if has_no_target p then request_next_robot choice p c else c)
unfolding request_next_robot halt
request-IsStocked k n choice p c v =
    transfer k n c (if has_no_target p then request_next_robot choice p c else c) (ground arith)
      (ground arith) (ground arith) (ground arith) v

request_robots-IsStocked :
    (k n : ℕ) (choices : ℕ → Flagged) (is : List ℕ) (c : Conveyor)
    → IsStocked k n c
    → IsStocked k n (request_robots choices is c)
unfolding request_robots
request_robots-IsStocked k n choices [] c v = v
request_robots-IsStocked k n choices (i ∷ is) c v = request_robots-IsStocked k n choices is _ (
    with_plate-IsStocked k n i
      (λ p. if has_no_target p then request_next_robot (choices i) p c else c) c v
      (λ p found. request-IsStocked k n (choices i) p c v))

await_robots-IsStocked :
    (k n : ℕ) (qs : List ℕ) (c : Conveyor) → IsStocked k n c → IsStocked k n (await_robots qs c)
unfolding await_robots
await_robots-IsStocked k n [] c v = schedule-IsStocked k n movement c v
await_robots-IsStocked k n (q ∷ qs) c v = v

pub request_next_robots-IsStocked :
    (k n : ℕ) (choices : ℕ → Flagged) (c : Conveyor)
    → IsStocked k n c
    → IsStocked k n (request_next_robots choices c)
unfolding request_next_robots
request_next_robots-IsStocked k n choices c v =
    await_robots-IsStocked k n _ _ (request_robots-IsStocked k n choices c.occupied_plates c v)

pub retrieval-IsStocked :
    (k n : ℕ) (stopped : ℕ → Bool) (replies : ℕ → Option HandoverReply) (choices : ℕ → Flagged)
    (c : Conveyor)
    → IsStocked k n c
    → IsStocked k n (handle_retrieve_finished_orders stopped replies choices c)
unfolding handle_retrieve_finished_orders
retrieval-IsStocked k n stopped replies choices c v = request_next_robots-IsStocked k n choices _ (
    retrieve_orders-IsStocked k n replies (remove_stopped_robots stopped c).notifications_map _
      (stopped-IsStocked k n stopped c v))

direct_plate-IsStocked :
    (k n position : ℕ) (endpoint : String) (i : ℕ) (qs : List ℕ) (p : Plate) (c : Conveyor)
    → get_elem? c.plates i ≡ some p
    → IsStocked k n c
    → IsStocked k n (direct_plate position endpoint i qs p c)
unfolding direct_plate
direct_plate-IsStocked k n position endpoint i qs p c e v =
    let c' = record c { next_robot_request_queue = qs } in
    let w : IsStocked k n c' = transfer k n c c' refl refl refl refl v in
    await_robots-IsStocked k n qs _ (elim (Bool-cases (is_robot position endpoint)) [
      | inl found ↦ rw found (set_target_position-IsStocked k n i position p c' e w)
      | inr missing ↦ rw missing w
    ])

answer_request-IsStocked :
    (k n position : ℕ) (endpoint : String) (recipe_id : ℕ) (qs : List ℕ) (c : Conveyor)
    → IsStocked k n c
    → IsStocked k n (answer_request position endpoint recipe_id qs c)
unfolding answer_request
answer_request-IsStocked k n position endpoint recipe_id [] c v = v
answer_request-IsStocked k n position endpoint recipe_id (q ∷ qs) c v =
    let w = visit-IsStocked k n q c v in
    with_plate-IsStocked k n _ _ (visit q c) w (λ p found.
      elim (Bool-cases (p.placed_recipe_id == recipe_id)) [
        | inl same ↦
            rw same (direct_plate-IsStocked k n position endpoint _ qs p (visit q c) found w)
        | inr other ↦ rw other w
      ])

connect_next_robot-IsStocked :
    (k n : ℕ) (starts : Bool) (position : ℕ) (endpoint : String) (c : Conveyor)
    → IsStocked k n c
    → IsStocked k n (connect_next_robot starts position endpoint c)
unfolding connect_next_robot connect_robot
connect_next_robot-IsStocked k n starts position endpoint c v =
    transfer k n c (connect_next_robot starts position endpoint c) (ground arith) (ground arith)
      (ground arith) (ground arith) v

next_robot-queue :
    (k n : ℕ) (starts : Bool) (position : ℕ) (endpoint : String) (recipe_id : ℕ) (qs : List ℕ)
    (c : Conveyor)
    → IsStocked k n c
    → IsStocked k n (elim qs [
      | [] ↦ c
      | q ∷ rest ↦
          answer_request position endpoint recipe_id
            (q ∷ rest)
            (connect_next_robot starts position endpoint c)
    ])
next_robot-queue k n starts position endpoint recipe_id [] c v = v
next_robot-queue k n starts position endpoint recipe_id (q ∷ rest) c v =
    answer_request-IsStocked k n position endpoint recipe_id (q ∷ rest) _
      (connect_next_robot-IsStocked k n starts position endpoint c v)

pub next_robot-IsStocked :
    (k n : ℕ) (stopped : ℕ → Bool) (starts : Bool) (position : ℕ) (endpoint : String)
    (recipe_id : ℕ) (c : Conveyor)
    → IsStocked k n c
    → IsStocked k n (handle_receive_next_robot stopped starts position endpoint recipe_id c)
unfolding handle_receive_next_robot
next_robot-IsStocked k n stopped starts position endpoint recipe_id c v =
    next_robot-queue k n starts position endpoint recipe_id
      (remove_stopped_robots stopped c).next_robot_request_queue (remove_stopped_robots stopped c)
      (stopped-IsStocked k n stopped c v)

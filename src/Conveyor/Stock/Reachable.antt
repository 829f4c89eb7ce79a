-- ===== src/Conveyor/Stock/Reachable.antt =====
-- The stock over the steps of the conveyor (conveyor.cpp).
use opcua_cps_kitchen.Base.{
  ℕ, zero, suc, ◌+◌, ◌≤◌, ◌<◌, ◌≡◌, refl, subst, Option, none, some, List, [], ◌∷◌, get_elem?,
  u32_size, String, Bool, arith,
}
use opcua_cps_kitchen.Conveyor.State.{
  Plate, retrieval, movement, Conveyor, new_plate, new_plates, new_conveyor,
}
use opcua_cps_kitchen.Conveyor.Plates.{contains}
use opcua_cps_kitchen.Conveyor.Retrieval.{HandoverReply, remove_stopped_robots}
use opcua_cps_kitchen.Conveyor.Movement.{turn}
use opcua_cps_kitchen.Conveyor.Delivery.{handle_retrieve_finished_orders, Flagged}
use opcua_cps_kitchen.Conveyor.Loop.{
  without_orders, determine_next_movement, Answers, deliver_finished_order, move_conveyor,
  position_swapped, run_belt_timer, BeltStep, notified, next_robot, swapped, fired, BeltReach, here,
  next,
}
use opcua_cps_kitchen.Conveyor.Belt.{new_conveyor-IsTurned}
use opcua_cps_kitchen.Conveyor.Stock.{IsTidy, IsStocked}
use opcua_cps_kitchen.Conveyor.Stock.Updates.{transfer}
use opcua_cps_kitchen.Conveyor.Stock.Handlers.{stopped-IsStocked, notification-IsStocked}
use opcua_cps_kitchen.Conveyor.Stock.Requests.{
  request_next_robots-IsStocked, retrieval-IsStocked, next_robot-IsStocked,
}
use opcua_cps_kitchen.Conveyor.Stock.Deliveries.{deliver_plates-IsStocked}
use opcua_cps_kitchen.Conveyor.Stock.Movement.{turn-IsStocked}

without_orders-IsStocked :
    (k n : ℕ) (choices : ℕ → Flagged) (is : List ℕ) (c : Conveyor)
    → IsStocked k n c
    → IsStocked k n (without_orders choices is c)
unfolding without_orders
without_orders-IsStocked k n choices [] c v =
    transfer k n c (without_orders choices [] c) refl refl refl refl v
without_orders-IsStocked k n choices (i ∷ is) c v = request_next_robots-IsStocked k n choices c v

module _ (k n : ℕ) (stopped : ℕ → Bool) (replies : ℕ → Option HandoverReply) (choices : ℕ → Flagged)
    (c : Conveyor) (v : IsStocked k n c) where
  by_notifications-IsStocked :
      (ns : List (ℕ × String))
      → IsStocked k n (elim ns [
        | [] ↦ without_orders choices c.occupied_plates c
        | x ∷ rest ↦ handle_retrieve_finished_orders stopped replies choices c
      ])
  by_notifications-IsStocked [] = without_orders-IsStocked k n choices c.occupied_plates c v
  by_notifications-IsStocked (x ∷ rest) = retrieval-IsStocked k n stopped replies choices c v

  next_movement-IsStocked : IsStocked k n (determine_next_movement stopped replies choices c)
  unfolding determine_next_movement
  next_movement-IsStocked = by_notifications-IsStocked c.notifications_map

move_conveyor-IsStocked :
    (k n : ℕ) (a : Answers) (c : Conveyor)
    → 0 < n
    → n + 1 ≤ u32_size
    → IsStocked k n c
    → IsStocked (k + 1) n (move_conveyor a 1 c)
unfolding move_conveyor deliver_finished_order
move_conveyor-IsStocked k n a c h s v =
    let t = stopped-IsStocked (k + 1) n a.stopped (turn 1 c) (turn-IsStocked 1 k n c h s v) in
    next_movement-IsStocked (k + 1) n a.stopped_later a.replies a.choices _ (
      deliver_plates-IsStocked (k + 1) n a.around
        (remove_stopped_robots a.stopped (turn 1 c)).occupied_plates _ t)

Step-IsStocked :
    (k n : ℕ) {c d : Conveyor}
    → 0 < n
    → n + 1 ≤ u32_size
    → BeltStep c d
    → IsStocked k n c
    → (m : ℕ) × IsStocked m n d
unfolding run_belt_timer position_swapped remove_stopped_robots
Step-IsStocked k n {c} h s (notified stopped starts position endpoint run) v =
    (k, notification-IsStocked k n stopped starts position endpoint c v)
Step-IsStocked k n {c} h s (next_robot stopped starts position endpoint recipe_id run) v =
    (k, next_robot-IsStocked k n stopped starts position endpoint recipe_id c v)
Step-IsStocked k n {c} h s (swapped stopped tells old new run) v = (
  k,
  transfer k n c (position_swapped stopped tells old new c) (ground arith) (ground arith)
      (ground arith) (ground arith) v,
)
Step-IsStocked k n {c} h s (fired a retrieval run waits) v =
    let d = record c { timer = none } in
    (
      k,
      retrieval-IsStocked k n a.stopped a.replies a.choices d
          (transfer k n c d refl refl refl refl v),
    )
Step-IsStocked k n {c} h s (fired a movement run waits) v =
    let d = record c { timer = none } in
    (k + 1, move_conveyor-IsStocked k n a d h s (transfer k n c d refl refl refl refl v))

new_plates-get_elem? :
    (i rounds j : ℕ) (p : Plate)
    → get_elem? (new_plates i rounds) j ≡ some p
    → new_plate (i + j) ≡ p
unfolding new_plates
new_plates-get_elem? i zero j p e = ground arith
new_plates-get_elem? i (suc rounds) zero p e = ground arith
new_plates-get_elem? i (suc rounds) (suc j) p e =
    let rest = new_plates-get_elem? (suc i) rounds j p e in ground (arith, rest)

new_plate-IsTidy : (i : ℕ) → IsTidy (new_plate i)
unfolding new_plate
new_plate-IsTidy i = record {
  free_recipe = λ e. refl;
  free_steps = λ e. refl;
  free_unfinished = λ e. refl;
  carries = λ e. ground arith;
}

pub new_conveyor-IsStocked : (n : ℕ) → IsStocked 0 n (new_conveyor n)
unfolding new_conveyor new_plate contains
new_conveyor-IsStocked n = record {
  turned = new_conveyor-IsTurned n;
  flags = λ i p e. let same = new_plates-get_elem? 0 n i p e in ground (arith, same);
  tidy = λ i p e. subst IsTidy (new_plates-get_elem? 0 n i p e) (new_plate-IsTidy (0 + i));
  within = λ i e. ground arith;
  distinct = tt;
  count = refl;
}

-- On a belt of `n` plates, with at least one and fewer than 2^32, whatever steps the conveyor has
-- done: there is a number of movements such that every plate stands that far from its first place
-- and the map finds it there; the occupied plates are the plates with the flag, each listed once,
-- and the attribute counts them; a free plate carries no recipe, no steps and no finished dish,
-- and an occupied one has a recipe.
pub BeltReach-IsStocked :
    (n : ℕ) (c : Conveyor)
    → 0 < n
    → n + 1 ≤ u32_size
    → BeltReach (new_conveyor n) c
    → (k : ℕ) × IsStocked k n c
BeltReach-IsStocked n c h s here = (0, new_conveyor-IsStocked n)
BeltReach-IsStocked n c h s (next {d} reach step) =
    let (k, v) = BeltReach-IsStocked n d h s reach in Step-IsStocked k n h s step v

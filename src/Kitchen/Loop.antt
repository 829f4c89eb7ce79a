-- ===== src/Kitchen/Loop.antt =====
-- The method nodes of the kitchen, and its event loop (kitchen.cpp).
use opcua_cps_kitchen.Base.{
  ℕ, ◌≡◌, String, Bool, true, false, Option, none, some, List, [], ◌∷◌, ◌++◌, find, put,
  if◌then◌else◌,
}
use opcua_cps_kitchen.Robot.State.{Outcome, ok}
use opcua_cps_kitchen.Robot.Work.{Attempt}
use opcua_cps_kitchen.Robot.Methods.{Variant, uint32, string, Answer, bad, good}
use opcua_cps_kitchen.Kitchen.State.{
  KitchenTask, completed_order, random_order, next_robot, reflect_swap, Kitchen,
}
use opcua_cps_kitchen.Kitchen.Placing.{
  count_completed, handle_random_order_request, placing_expired,
}
use opcua_cps_kitchen.Kitchen.Robots.{
  RobotAnswers, stop_robot, handle_receive_next_robot, reflect_position_swap,
}

unfoldable pub post : KitchenTask → Kitchen → Kitchen
post t k = record k { tasks = k.tasks ++ t ∷ [] }

unfoldable pub receive_completed_order : List Variant → Kitchen → Kitchen × Answer Bool
unfolding post
receive_completed_order (uint32 id ∷ []) k = (post completed_order k, good true)
receive_completed_order _ k = (k, bad)

unfoldable pub place_random_order : List Variant → Kitchen → Kitchen × Answer Bool
unfolding post
place_random_order [] k = (post random_order k, good true)
place_random_order _ k = (k, bad)

unfoldable pub receive_next_robot : List Variant → Kitchen → Kitchen × Answer Bool
unfolding post
receive_next_robot (uint32 position ∷ string endpoint ∷ uint32 id ∷ []) k =
    (post (next_robot position endpoint id) k, good true)
receive_next_robot _ k = (k, bad)

-- The value of a changed position goes to the robot's member; the first one is not passed on.
unfoldable pub position_changed : ℕ → ℕ → Kitchen → Kitchen
unfolding post
position_changed key new k = elim (find k.position_remote_robot_map key) [
  | none ↦ k
  | some r ↦
      let r' = record r { cached_position = new; initial_subscription = false } in
      let k' = record k { position_remote_robot_map = put key r' k.position_remote_robot_map } in
      if r.initial_subscription then k' else post (reflect_swap r.cached_position new) k'
]

-- What the other agents answer while one posted handler runs, and the recipe id that is drawn.
pub record KitchenAnswers : Type 0 where
  pub drawn : ℕ
  pub rounds : List Attempt
  pub robot : RobotAnswers
  pub first_tells : Option ℕ
  pub second_tells : Option ℕ

unfoldable pub run_kitchen_task : KitchenAnswers → KitchenTask → Kitchen → Outcome Kitchen
unfolding count_completed handle_random_order_request handle_receive_next_robot
    reflect_position_swap
run_kitchen_task a completed_order k = ok (count_completed k)
run_kitchen_task a random_order k = handle_random_order_request a.drawn a.rounds k
run_kitchen_task a (next_robot position endpoint id) k =
    ok (handle_receive_next_robot a.robot position endpoint k)
run_kitchen_task a (reflect_swap old new) k =
    ok (reflect_position_swap a.first_tells a.second_tells old new k)

-- One step. The controller calls receive_next_robot to answer the oldest call that awaits it.
pub data KitchenStep (k : Kitchen) : Kitchen → Type 0 where
  run :
      (a : KitchenAnswers) (t : KitchenTask) (ts : List KitchenTask) {j : Kitchen}
      → k.running ≡ true
      → k.tasks ≡ t ∷ ts
      → run_kitchen_task a t (record k { tasks = ts }) ≡ ok j
      → KitchenStep k j
  expire :
      (id : ℕ) (rounds : List Attempt) {j : Kitchen}
      → k.running ≡ true
      → k.placing_timer ≡ true
      → placing_expired id rounds k ≡ ok j
      → KitchenStep k j
  completes :
      (vs : List Variant) {j : Kitchen} → j ≡ (receive_completed_order vs k).0 → KitchenStep k j
  places : (vs : List Variant) {j : Kitchen} → j ≡ (place_random_order vs k).0 → KitchenStep k j
  answers :
      (position : ℕ) (endpoint : String) (id : ℕ) (ids : List ℕ) {j : Kitchen}
      → k.awaiting ≡ id ∷ ids
      → j
        ≡ (receive_next_robot
            (uint32 position ∷ string endpoint ∷ uint32 id ∷ [])
            (record k { awaiting = ids })).0
      → KitchenStep k j
  moves : (key new : ℕ) {j : Kitchen} → j ≡ position_changed key new k → KitchenStep k j
  stops : (key : ℕ) {j : Kitchen} → j ≡ stop_robot key k → KitchenStep k j

pub data KitchenReach (k : Kitchen) : Kitchen → Type 0 where
  here : KitchenReach k k
  next : {i j : Kitchen} → KitchenReach k i → KitchenStep i j → KitchenReach k j

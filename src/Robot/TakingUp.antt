-- ===== src/Robot/TakingUp.antt =====
-- How an accepted order is taken up (handle_receive_task of robot.cpp).
use opcua_cps_kitchen.Base.{
  ℕ, ◌%◌, ◌≡◌, ◌∙◌, refl, sym, ap, subst, inl, inr, true, false, some, List, [], ◌∷◌, ◌++◌, All,
  length, Bool-cases, u32_size, arith,
}
use opcua_cps_kitchen.Actions.{RobotAction, same_tool}
use opcua_cps_kitchen.Capabilities.{is_capable_to}
use opcua_cps_kitchen.Recipe.{Recipe, RecipeMap, has_recipe, get_recipe}
use opcua_cps_kitchen.Robot.State.{retooling, available, Order, Robot, Outcome, ok}
use opcua_cps_kitchen.Robot.Work.{
  reset_in_process_fields, arm, pop_steps, notify_conveyor,
  receive_finished_order_notification_called, start_order, name_dish, new_order, begin_action,
  go_on, determine_next_action, take_order, by_state, cook_next_order, enqueue, cook_unless_busy,
  accept_task, handle_receive_task,
}
use opcua_cps_kitchen.Robot.Progress.{at_once}

-- The robot knows the recipes of its orders.
abbrev pub KnowsOrders : RecipeMap → List Order → Type 0
KnowsOrders m = All (λ o. (c : Recipe) × (get_recipe m o.recipe_id ≡ some c))

-- The handler returns, with these orders in the queue.
abbrev Leaves : List Order → Outcome Robot → Type 0
Leaves os o = (s : Robot) × (o ≡ ok s) × (s.order_queue ≡ os)

go_on-Leaves : (q : List RobotAction) (r : Robot) → Leaves r.order_queue (go_on q at_once r)
unfolding go_on notify_conveyor receive_finished_order_notification_called begin_action arm
    reset_in_process_fields
go_on-Leaves [] r = (_, refl, refl)
go_on-Leaves (a ∷ q) r = elim (Bool-cases (is_capable_to r.capability_parser a.name)) [
  | inl able ↦ elim (Bool-cases (same_tool a.required_tool r.current_tool)) [
    | inl same ↦
        let e : go_on (a ∷ q) at_once r ≡ ok (begin_action a r) = rw (able, same) refl in
        (begin_action a r, e, ground arith)
    | inr other ↦
        let e : go_on (a ∷ q) at_once r ≡ ok (arm retooling r) = rw (able, other) refl in
        (arm retooling r, e, ground arith)
  ]
  | inr unable ↦
      let e : go_on (a ∷ q) at_once r
          ≡ ok (record (reset_in_process_fields r) {
            is_dish_finished = false;
            pending_pickup = true;
          }) =
        rw unable refl in
      (_, e, refl)
]

-- The order is the dish in process.
pub record IsBegun (o : Order) (t : Robot) : Type 0 where
  pub prepares : t.preparing_dish ≡ true
  pub recipe : t.attributes.recipe_id ≡ o.recipe_id
  pub steps : t.attributes.overall_processed_steps ≡ o.overall_processed_steps
  pub actions : t.action_queue_in_process ≡ o.action_queue

-- A dish whose first action the robot is capable of stays in process.
go_on-IsBegun :
    (o : Order) (a : RobotAction) (q : List RobotAction) (r : Robot)
    → is_capable_to r.capability_parser a.name ≡ true
    → IsBegun o r
    → (s : Robot) × (go_on (a ∷ q) at_once r ≡ ok s) × (s.order_queue ≡ r.order_queue) × IsBegun o s
unfolding go_on begin_action arm
go_on-IsBegun o a q r able h = elim (Bool-cases (same_tool a.required_tool r.current_tool)) [
  | inl same ↦
      let e : go_on (a ∷ q) at_once r ≡ ok (begin_action a r) = rw (able, same) refl in
      (begin_action a r, e, ground arith, ground arith)
  | inr other ↦
      let e : go_on (a ∷ q) at_once r ≡ ok (arm retooling r) = rw (able, other) refl in
      (arm retooling r, e, ground arith, ground arith)
]

take_order-Leaves :
    (o : Order) (os : List Order) (r : Robot) (c : Recipe)
    → get_recipe r.recipe_parser o.recipe_id ≡ some c
    → Leaves os (take_order (o ∷ os) at_once r)
unfolding take_order determine_next_action start_order name_dish
take_order-Leaves o os r c known = rw known (go_on-Leaves _ _)

take_order-IsBegun :
    (o : Order) (a : RobotAction) (q : List RobotAction) (r : Robot) (c : Recipe)
    → get_recipe r.recipe_parser o.recipe_id ≡ some c
    → o.action_queue ≡ a ∷ q
    → is_capable_to r.capability_parser a.name ≡ true
    → (s : Robot) × (take_order (o ∷ []) at_once r ≡ ok s) × (s.order_queue ≡ []) × IsBegun o s
unfolding take_order determine_next_action start_order name_dish
take_order-IsBegun o a q r c known first able =
    let r' = name_dish c (start_order o [] r) in
    let begun : IsBegun o r' = record {
      prepares = refl;
      recipe = refl;
      steps = refl;
      actions = refl;
    } in
    let (s, e, empty, h) = go_on-IsBegun o a q r' able begun in
    (s, rw known (ap (λ l. go_on l at_once r') first ∙ e), empty, h)

-- Where an accepted order goes: behind the others of a robot that prepares a dish or takes up
-- another order, or it is taken up itself.
pub data Placed (o : Order) (r t : Robot) : Type 0 where
  queued : r.preparing_dish ≡ true → t.order_queue ≡ r.order_queue ++ o ∷ [] → Placed o r t
  queued_next :
      (first : Order) (os : List Order)
      → r.preparing_dish ≡ false
      → r.order_queue ≡ first ∷ os
      → t.order_queue ≡ os ++ o ∷ []
      → Placed o r t
  taken_up :
      r.preparing_dish ≡ false
      → r.order_queue ≡ []
      → t.order_queue ≡ []
      → IsBegun o t
      → Placed o r t

-- The order of a task: for its recipe, after its processed steps, with the actions that are left.
pub record IsTakenUp (id processed : ℕ) (q : List RobotAction) (r t : Robot) : Type 0 where
  pub order : Order
  pub recipe : order.recipe_id ≡ id
  pub steps : order.overall_processed_steps ≡ processed
  pub actions : order.action_queue ≡ q
  pub placed : Placed order r t

enqueue-fields :
    (id processed total : ℕ) (q : List RobotAction) (r : Robot)
    → ((enqueue id processed total q r).order_queue
        ≡ r.order_queue ++ new_order id processed total q r ∷ [])
      × ((enqueue id processed total q r).preparing_dish ≡ r.preparing_dish)
      × ((enqueue id processed total q r).robot_state ≡ r.robot_state)
      × ((enqueue id processed total q r).recipe_parser ≡ r.recipe_parser)
      × ((enqueue id processed total q r).capability_parser ≡ r.capability_parser)
unfolding enqueue
enqueue-fields id processed total q r = (refl, refl, refl, refl, refl)

idle-Placed :
    (os : List Order) (o : Order) (a : RobotAction) (q : List RobotAction) (c : Recipe)
    (r r' : Robot)
    → r.order_queue ≡ os
    → r.preparing_dish ≡ false
    → get_recipe r'.recipe_parser o.recipe_id ≡ some c
    → KnowsOrders r'.recipe_parser os
    → o.action_queue ≡ a ∷ q
    → is_capable_to r'.capability_parser a.name ≡ true
    → (t : Robot) × (take_order (os ++ o ∷ []) at_once r' ≡ ok t) × Placed o r t
idle-Placed [] o a q c r r' empty idle known all first able =
    let (t, e, none_left, h) = take_order-IsBegun o a q r' c known first able in
    (t, e, taken_up idle empty none_left h)
idle-Placed (x ∷ os) o a q c r r' queue idle known ((d, known_x), all) first able =
    let (t, e, rest) = take_order-Leaves x (os ++ o ∷ []) r' d known_x in
    (t, e, queued_next x os idle queue rest)

-- The robot is available, and the rest of the recipe begins with an action that it is capable of.
pub accept_task-IsTakenUp :
    (id processed : ℕ) (a : RobotAction) (q : List RobotAction) (c : Recipe) (r : Robot)
    → r.robot_state ≡ available
    → get_recipe r.recipe_parser id ≡ some c
    → pop_steps processed c.action_queue ≡ ok (a ∷ q)
    → is_capable_to r.capability_parser a.name ≡ true
    → KnowsOrders r.recipe_parser r.order_queue
    → (t : Robot) × (handle_receive_task false at_once id processed r ≡ ok t)
      × IsTakenUp id processed (a ∷ q) r t
unfolding handle_receive_task accept_task has_recipe get_recipe cook_unless_busy cook_next_order
    by_state
accept_task-IsTakenUp id processed a q c r state known left able h =
    let total = length c.action_queue % u32_size in
    let r' = enqueue id processed total (a ∷ q) r in
    let o = new_order id processed total (a ∷ q) r in
    let (queue, preparing, same_state, recipes, caps) =
      enqueue-fields id processed total (a ∷ q) r in
    let accepted : handle_receive_task false at_once id processed r
        ≡ cook_unless_busy false at_once r' =
      ground (arith, known, left) in
    elim (Bool-cases r.preparing_dish) [
      | inl busy ↦
          let kept : cook_unless_busy false at_once r' ≡ ok r' = rw (preparing ∙ busy) refl in
          (
            r',
            accepted ∙ kept,
            record {
              order = o;
              recipe = refl;
              steps = refl;
              actions = refl;
              placed = queued busy queue;
            },
          )
      | inr idle ↦
          let cooks : cook_unless_busy false at_once r'
              ≡ take_order (r.order_queue ++ o ∷ []) at_once r' =
            rw (preparing ∙ idle, same_state ∙ state, queue) refl in
          let (t, e, p) =
            idle-Placed r.order_queue o a q c r r' refl idle
              (ap (λ m. get_recipe m id) recipes ∙ known)
              (subst (λ m. KnowsOrders m r.order_queue) (sym recipes) h) refl
              (ap (λ x. is_capable_to x a.name) caps ∙ able) in
          (
            t,
            accepted ∙ cooks ∙ e,
            record { order = o; recipe = refl; steps = refl; actions = refl; placed = p },
          )
    ]

-- ===== src/Kitchen/Account/Placing.antt =====
-- The placing of orders, and the account (kitchen.cpp).
use opcua_cps_kitchen.Base.{
  ℕ, zero, suc, ◌+◌, ◌%◌, ◌≡◌, refl, ap, ◌∙◌, subst, Bool, true, false, not, List, [], ◌∷◌, ◌++◌,
  length, length-append, u32_size, arith,
}
use opcua_cps_kitchen.Robot.State.{ok, >>=-eq-ok}
use opcua_cps_kitchen.Robot.Work.{
  Reply, bad_size, bad_type, returned, Attempt, failed, stopped, answered, add32,
}
use opcua_cps_kitchen.Kitchen.State.{Kitchen}
use opcua_cps_kitchen.Kitchen.Placing.{
  remove_stopped_robots, halt, count_received, choose_next_robot_called, call_controller, do_place,
  arm_placing_gate, place_and_arm, pass_gate, handle_random_order_request, next_placing,
}
use opcua_cps_kitchen.Kitchen.Orders.{remove_stopped_robots-KeepsOrders}
use opcua_cps_kitchen.Kitchen.Account.{
  posted_answers, IsBalanced, KeepsOrders-IsKept, IsGated, IsKept,
}

-- What the call of the controller leaves: the order is counted, and awaits an answer unless the
-- kitchen has stopped.
pub record IsPlaced (k j : Kitchen) : Type 0 where
  received : j.received_orders ≡ k.received_orders
  assigned : j.assigned_orders ≡ k.assigned_orders
  dropped : j.dropped_orders ≡ k.dropped_orders
  gate : j.placing_gate_open ≡ k.placing_gate_open
  queue : j.placing_queue ≡ k.placing_queue
  tasks : j.tasks ≡ k.tasks
  ran : j.running ≡ true → k.running ≡ true
  waits : j.running ≡ true → length j.awaiting ≡ suc (length k.awaiting)

pub called-IsPlaced :
    (id : ℕ) (p : Reply) (k : Kitchen)
    → IsPlaced k (choose_next_robot_called p (record k { awaiting = k.awaiting ++ id ∷ [] }))
unfolding choose_next_robot_called halt
called-IsPlaced id bad_size k = record {
  received = refl;
  assigned = refl;
  dropped = refl;
  gate = refl;
  queue = refl;
  tasks = refl;
  ran = λ e. absurd cc;
  waits = λ e. absurd cc;
}
called-IsPlaced id bad_type k = record {
  received = refl;
  assigned = refl;
  dropped = refl;
  gate = refl;
  queue = refl;
  tasks = refl;
  ran = λ e. absurd cc;
  waits = λ e. absurd cc;
}
called-IsPlaced id (returned b) k = record {
  received = refl;
  assigned = refl;
  dropped = refl;
  gate = refl;
  queue = refl;
  tasks = refl;
  ran = λ e. e;
  waits = λ e. omega (arith, length-append k.awaiting (id ∷ []));
}

pub call_controller-IsPlaced :
    (id : ℕ) (rounds : List Attempt) (k j : Kitchen)
    → call_controller id rounds k ≡ ok j
    → IsPlaced k j
unfolding call_controller halt
call_controller-IsPlaced id [] k j h = absurd cc
call_controller-IsPlaced id (failed ∷ rounds) k j h = call_controller-IsPlaced id rounds k j h
call_controller-IsPlaced id (stopped ∷ rounds) k j h =
    let same : record k { running = false } ≡ j = cc in
    subst (IsPlaced k) same (record {
      received = refl;
      assigned = refl;
      dropped = refl;
      gate = refl;
      queue = refl;
      tasks = refl;
      ran = λ e. absurd cc;
      waits = λ e. absurd cc;
    })
call_controller-IsPlaced id (answered p ∷ rounds) k j h =
    let same : choose_next_robot_called p (record k { awaiting = k.awaiting ++ id ∷ [] }) ≡ j =
      cc in
    subst (IsPlaced k) same (called-IsPlaced id p k)

pub one_more : (r n m : ℕ) → r ≡ n % u32_size → m ≡ suc n → add32 r 1 ≡ m % u32_size
one_more r n m h e = rw (h, e) (omega arith)

pub place_and_arm-IsBalanced :
    (id : ℕ) (rounds : List Attempt) (k j : Kitchen)
    → place_and_arm id rounds k ≡ ok j
    → IsBalanced k
    → IsBalanced j
unfolding place_and_arm do_place arm_placing_gate count_received
place_and_arm-IsBalanced id rounds k j h b =
    let (i, placed, armed) = >>=-eq-ok (call_controller id rounds (count_received k)) _ h in
    let same : record i { placing_timer = true } ≡ j = cc in
    let p = call_controller-IsPlaced id rounds (count_received k) i placed in
    subst IsBalanced same (λ r.
      let t = p.tasks in
      let a = p.assigned in
      let d = p.dropped in
      let w = p.waits r in
      let more : i.assigned_orders + i.dropped_orders + posted_answers i.tasks + length i.awaiting
          ≡ suc
              (k.assigned_orders + k.dropped_orders + posted_answers k.tasks + length k.awaiting) =
        rw (t, a, d, w) (omega arith) in
      p.received ∙ one_more k.received_orders _ _ (b (p.ran r)) more)

pub place_and_arm-IsGated :
    (id : ℕ) (rounds : List Attempt) (k j : Kitchen)
    → place_and_arm id rounds k ≡ ok j
    → k.placing_gate_open ≡ false
    → IsGated j
unfolding place_and_arm do_place arm_placing_gate count_received
place_and_arm-IsGated id rounds k j h shut =
    let (i, placed, armed) = >>=-eq-ok (call_controller id rounds (count_received k)) _ h in
    let same : record i { placing_timer = true } ≡ j = cc in
    let p = call_controller-IsPlaced id rounds (count_received k) i placed in
    subst IsGated same
      (record { closed = p.gate ∙ shut; queued = λ e. let g = p.gate ∙ shut in absurd cc })

pub pass_gate-IsKept :
    (id : ℕ) (rounds : List Attempt) (gate : Bool) (k j : Kitchen)
    → k.placing_gate_open ≡ gate
    → pass_gate gate id rounds k ≡ ok j
    → IsKept k
    → IsKept j
unfolding pass_gate
pass_gate-IsKept id rounds true k j e h i =
    let k' = record k { placing_gate_open = false } in
    record {
      balanced = place_and_arm-IsBalanced id rounds k' j h i.balanced;
      gated = place_and_arm-IsGated id rounds k' j h refl;
    }
pass_gate-IsKept id rounds false k j e h i =
    let same : record k { placing_queue = suc k.placing_queue } ≡ j = cc in
    let g = i.gated in
    subst IsKept same (record {
      balanced = i.balanced;
      gated = record { closed = g.closed; queued = λ o. absurd cc };
    })

pub handle_random_order_request-IsKept :
    (id : ℕ) (rounds : List Attempt) (k j : Kitchen)
    → handle_random_order_request id rounds k ≡ ok j
    → IsKept k
    → IsKept j
unfolding handle_random_order_request
handle_random_order_request-IsKept id rounds k j h i =
    let same = remove_stopped_robots-KeepsOrders k in
    pass_gate-IsKept id rounds k.placing_gate_open (remove_stopped_robots k) j same.gate h
      (KeepsOrders-IsKept same i)

pub next_placing-IsKept :
    (id n : ℕ) (rounds : List Attempt) (k j : Kitchen)
    → k.placing_timer ≡ true
    → k.placing_queue ≡ n
    → next_placing n id rounds (record k { placing_timer = false }) ≡ ok j
    → IsKept k
    → IsKept j
unfolding next_placing
next_placing-IsKept id zero rounds k j t q h i =
    let same : record k { placing_timer = false; placing_gate_open = true } ≡ j = cc in
    subst IsKept same
      (record { balanced = i.balanced; gated = record { closed = refl; queued = λ e. q } })
next_placing-IsKept id (suc n) rounds k j t q h i =
    let k' = record k { placing_timer = false; placing_queue = n } in
    let g = i.gated in
    let shut : k.placing_gate_open ≡ false = g.closed ∙ ap not t in
    record {
      balanced = place_and_arm-IsBalanced id rounds k' j h i.balanced;
      gated = place_and_arm-IsGated id rounds k' j h shut;
    }

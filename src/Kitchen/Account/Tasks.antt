-- ===== src/Kitchen/Account/Tasks.antt =====
-- The posted handlers, and the account (kitchen.cpp).
use opcua_cps_kitchen.Base.{
  ℕ, suc, ◌+◌, ◌%◌, ◌≡◌, refl, sym, ap, ◌∙◌, subst, String, Bool, true, false, List, [], ◌∷◌,
  length, if◌then◌else◌, u32_size, arith,
}
use opcua_cps_kitchen.Robot.State.{ok}
use opcua_cps_kitchen.Robot.Work.{add32}
use opcua_cps_kitchen.Robot.Methods.{Variant, uint32, string}
use opcua_cps_kitchen.Kitchen.State.{
  KitchenTask, completed_order, random_order, next_robot, reflect_swap, Kitchen,
}
use opcua_cps_kitchen.Kitchen.Placing.{remove_stopped_robots, count_completed}
use opcua_cps_kitchen.Kitchen.Robots.{handle_receive_next_robot, reflect_position_swap}
use opcua_cps_kitchen.Kitchen.Loop.{
  post, receive_completed_order, place_random_order, receive_next_robot, KitchenAnswers,
  run_kitchen_task,
}
use opcua_cps_kitchen.Kitchen.Orders.{IsCountedOnce}
use opcua_cps_kitchen.Kitchen.Assignment.{
  is_assigned, handle_receive_next_robot-IsCountedOnce, reflect_position_swap-KeepsOrders,
}
use opcua_cps_kitchen.Kitchen.Account.{posted_answers, posted-append, KeepsOrders-IsKept, IsKept}
use opcua_cps_kitchen.Kitchen.Account.Placing.{handle_random_order_request-IsKept}

pub post-IsKept :
    (t : KitchenTask) (k : Kitchen) → posted_answers (t ∷ []) ≡ 0 → IsKept k → IsKept (post t k)
unfolding post
post-IsKept t k none_posted i =
    let b = i.balanced in
    let g = i.gated in
    record {
      balanced = λ r.
          let n = posted-append k.tasks t in
          rw (n, none_posted) (b r ∙ ap (λ x. x % u32_size) (omega arith));
      gated = record { closed = g.closed; queued = g.queued };
    }

pub receive_completed_order-IsKept :
    (vs : List Variant) (k : Kitchen) → IsKept k → IsKept (receive_completed_order vs k).0
unfolding receive_completed_order
receive_completed_order-IsKept (uint32 id ∷ []) k i = post-IsKept completed_order k refl i
receive_completed_order-IsKept _ k i = i

pub place_random_order-IsKept :
    (vs : List Variant) (k : Kitchen) → IsKept k → IsKept (place_random_order vs k).0
unfolding place_random_order
place_random_order-IsKept [] k i = post-IsKept random_order k refl i
place_random_order-IsKept _ k i = i

-- An answer of the controller is posted for the oldest call.
pub answer-IsKept :
    (p : ℕ) (e : String) (id : ℕ) (ids : List ℕ) (k : Kitchen)
    → k.awaiting ≡ id ∷ ids
    → IsKept k
    → IsKept
        (receive_next_robot (uint32 p ∷ string e ∷ uint32 id ∷ []) (record k { awaiting = ids })).0
unfolding receive_next_robot post
answer-IsKept p e id ids k w i =
    let b = i.balanced in
    let g = i.gated in
    record {
      balanced = λ r.
          let n = posted-append k.tasks (next_robot p e id) in
          let longer : length k.awaiting ≡ suc (length ids) = ap length w in
          rw n (b r ∙ ap (λ x. x % u32_size) (rw longer (omega arith)));
      gated = record { closed = g.closed; queued = g.queued };
    }

pub moved_on :
    (accepted : Bool) (a d t w a' d' t' w' : ℕ)
    → a' ≡ (if accepted then add32 a 1 else a)
    → d' ≡ (if accepted then d else add32 d 1)
    → t ≡ suc t'
    → w ≡ w'
    → (a + d + t + w) % u32_size ≡ (a' + d' + t' + w') % u32_size
moved_on true a d t w a' d' t' w' x y z v = rw (x, y, z, v) (omega arith)
moved_on false a d t w a' d' t' w' x y z v = rw (x, y, z, v) (omega arith)

pub counted-IsKept :
    (b : Bool) (p id : ℕ) (e : String) (ts : List KitchenTask) (k j : Kitchen)
    → k.tasks ≡ next_robot p e id ∷ ts
    → IsCountedOnce b (record k { tasks = ts }) j
    → IsKept k
    → IsKept j
counted-IsKept b p id e ts k j first c i =
    let bal = i.balanced in
    let g = i.gated in
    let timer = c.timer in
    record {
      balanced = λ r.
          let before = bal (sym c.running ∙ r) in
          let t = c.tasks in
          let w = c.awaiting in
          let still : posted_answers k.tasks ≡ suc (posted_answers j.tasks) = rw (first, t) refl in
          let same_wait : length k.awaiting ≡ length j.awaiting = rw w refl in
          c.received
          ∙ before
          ∙ moved_on b k.assigned_orders k.dropped_orders (posted_answers k.tasks)
              (length k.awaiting) j.assigned_orders j.dropped_orders (posted_answers j.tasks)
              (length j.awaiting) c.assigned c.dropped still same_wait;
      gated = record {
        closed = rw timer (c.gate ∙ g.closed);
        queued = λ o. c.queue ∙ g.queued (sym c.gate ∙ o);
      };
    }

pub posted_front :
    (t : KitchenTask) (ts : List KitchenTask)
    → posted_answers (t ∷ []) ≡ 0
    → posted_answers (t ∷ ts) ≡ posted_answers ts
posted_front completed_order ts h = refl
posted_front random_order ts h = refl
posted_front (next_robot p e id) ts h = absurd (omega arith)
posted_front (reflect_swap old new) ts h = refl

-- A handler is taken from the front.
pub popped-IsKept :
    (t : KitchenTask) (ts : List KitchenTask) (k : Kitchen)
    → k.tasks ≡ t ∷ ts
    → posted_answers (t ∷ []) ≡ 0
    → IsKept k
    → IsKept (record k { tasks = ts })
popped-IsKept t ts k first none_posted i =
    let b = i.balanced in
    let g = i.gated in
    record {
      balanced = λ r.
          b r
          ∙ ap (λ x. (k.assigned_orders + k.dropped_orders + x + length k.awaiting) % u32_size)
              (ap posted_answers first ∙ posted_front t ts none_posted);
      gated = record { closed = g.closed; queued = g.queued };
    }

pub count_completed-IsKept : (k : Kitchen) → IsKept k → IsKept (count_completed k)
unfolding count_completed
count_completed-IsKept k i =
    let g = i.gated in
    record { balanced = i.balanced; gated = record { closed = g.closed; queued = g.queued } }

pub run_kitchen_task-IsKept :
    (a : KitchenAnswers) (t : KitchenTask) (ts : List KitchenTask) (k j : Kitchen)
    → k.tasks ≡ t ∷ ts
    → run_kitchen_task a t (record k { tasks = ts }) ≡ ok j
    → IsKept k
    → IsKept j
unfolding run_kitchen_task
run_kitchen_task-IsKept a completed_order ts k j first h i =
    let same : count_completed (record k { tasks = ts }) ≡ j = cc in
    subst IsKept same (
      count_completed-IsKept (record k { tasks = ts })
        (popped-IsKept completed_order ts k first refl i))
run_kitchen_task-IsKept a random_order ts k j first h i =
    handle_random_order_request-IsKept a.drawn a.rounds (record k { tasks = ts }) j h
      (popped-IsKept random_order ts k first refl i)
run_kitchen_task-IsKept a (next_robot p e id) ts k j first h i =
    let same : handle_receive_next_robot a.robot p e (record k { tasks = ts }) ≡ j = cc in
    counted-IsKept (is_assigned a.robot p e (remove_stopped_robots (record k { tasks = ts }))) p id
      e ts k j first
      (subst
        (IsCountedOnce (is_assigned a.robot p e (remove_stopped_robots (record k { tasks = ts })))
          (record k { tasks = ts }))
        same (handle_receive_next_robot-IsCountedOnce a.robot p e (record k { tasks = ts })))
      i
run_kitchen_task-IsKept a (reflect_swap old new) ts k j first h i =
    let same : reflect_position_swap a.first_tells a.second_tells old new (record k { tasks = ts })
        ≡ j =
      cc in
    subst IsKept same (
      KeepsOrders-IsKept
        (reflect_position_swap-KeepsOrders a.first_tells a.second_tells old new
          (record k { tasks = ts }))
        (popped-IsKept (reflect_swap old new) ts k first refl i))

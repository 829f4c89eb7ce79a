-- ===== src/Kitchen/Drain.antt =====
-- How the queue of the placing gate empties (kitchen.cpp).
use opcua_cps_kitchen.Base.{
  ℕ, suc, ◌+◌, ◌%◌, ◌<◌, ◌≡◌, refl, sym, ap, ◌∙◌, true, false, List, [], ◌∷◌, ◌++◌, length,
  u32_size, arith,
}
use native.Mathlib.Nat.{mod-eq_of_lt}
use opcua_cps_kitchen.Robot.State.{ok}
use opcua_cps_kitchen.Robot.Work.{returned, Attempt, failed, stopped, answered}
use opcua_cps_kitchen.Kitchen.State.{Kitchen}
use opcua_cps_kitchen.Kitchen.Placing.{
  count_received, choose_next_robot_called, call_controller, do_place, arm_placing_gate,
  place_and_arm, placing_expired,
}

-- The loop that calls the controller meets failures, and then an answer.
abbrev pub IsAnsweredIn : List Attempt → Type 0
IsAnsweredIn [] = ⊥
IsAnsweredIn (failed ∷ rounds) = IsAnsweredIn rounds
IsAnsweredIn (stopped ∷ rounds) = ⊥
IsAnsweredIn (answered (returned b) ∷ rounds) = Unit
IsAnsweredIn (answered _ ∷ rounds) = ⊥

-- The timer is over, and its handler places one order: it is received, its request is sent behind
-- those that await an answer, the queue is shorter by one, and the timer waits anew.
pub record Places (id : ℕ) (rounds : List Attempt) (k j : Kitchen) : Type 0 where
  pub waits : k.placing_timer ≡ true
  pub expires : placing_expired id rounds k ≡ ok j
  pub received : j.received_orders ≡ (k.received_orders + 1) % u32_size
  pub sent : j.awaiting ≡ k.awaiting ++ id ∷ []
  pub shorter : k.placing_queue ≡ suc j.placing_queue
  pub waits_anew : j.placing_timer ≡ true

-- The handler of the placing timer over and over, for the recipe ids that are drawn.
pub data Expirations : List (ℕ × List Attempt) → Kitchen → Kitchen → Type 0 where
  none_left : {k : Kitchen} → Expirations [] k k
  place_next :
      (id : ℕ) (rounds : List Attempt) {xs : List (ℕ × List Attempt)} {k i j : Kitchen}
      → Places id rounds k i
      → Expirations xs i j
      → Expirations ((id, rounds) ∷ xs) k j

abbrev pub AreAnswered : List (ℕ × List Attempt) → Type 0
AreAnswered [] = Unit
AreAnswered ((id, rounds) ∷ xs) = IsAnsweredIn rounds × AreAnswered xs

abbrev pub ids : List (ℕ × List Attempt) → List ℕ
ids [] = []
ids ((id, rounds) ∷ xs) = id ∷ ids xs

call_controller-answered :
    (id : ℕ) (rounds : List Attempt) (k : Kitchen)
    → IsAnsweredIn rounds
    → call_controller id rounds k ≡ ok (record k { awaiting = k.awaiting ++ id ∷ [] })
unfolding call_controller choose_next_robot_called
call_controller-answered id [] k h = absurd h
call_controller-answered id (failed ∷ rounds) k h = call_controller-answered id rounds k h
call_controller-answered id (stopped ∷ rounds) k h = absurd h
call_controller-answered id (answered (returned b) ∷ rounds) k h = refl
call_controller-answered id (answered _ ∷ rounds) k h = absurd h

-- The kitchen after `n` orders have left the queue.
abbrev pub drained : ℕ → List ℕ → Kitchen → Kitchen
drained n is k = record k {
  placing_timer = true;
  placing_queue = n;
  received_orders = (k.received_orders + length is) % u32_size;
  awaiting = k.awaiting ++ is;
}

append-nil : (xs : List ℕ) → xs ++ [] ≡ xs
append-nil [] = refl
append-nil (x ∷ xs) = ap (λ ys. x ∷ ys) (append-nil xs)

append_assoc : (xs : List ℕ) (y : ℕ) (zs : List ℕ) → (xs ++ y ∷ []) ++ zs ≡ xs ++ y ∷ zs
append_assoc [] y zs = refl
append_assoc (x ∷ xs) y zs = ap (λ ys. x ∷ ys) (append_assoc xs y zs)

expired_once :
    (id n : ℕ) (rounds : List Attempt) (k : Kitchen)
    → k.placing_queue ≡ suc n
    → IsAnsweredIn rounds
    → placing_expired id rounds k ≡ ok (drained n (id ∷ []) k)
unfolding placing_expired place_and_arm do_place arm_placing_gate count_received
expired_once id n rounds k q h =
    let k' = count_received (record k { placing_timer = false; placing_queue = n }) in
    rw (q, call_controller-answered id rounds k' h) refl

-- All queued orders are placed.
pub record IsDrained (xs : List (ℕ × List Attempt)) (k j : Kitchen) : Type 0 where
  pub ends : Expirations xs k j
  pub queue : j.placing_queue ≡ 0
  pub timer : j.placing_timer ≡ true
  pub received : j.received_orders ≡ (k.received_orders + length xs) % u32_size
  pub awaiting : j.awaiting ≡ k.awaiting ++ ids xs
  pub opens :
      (id : ℕ) (rounds : List Attempt)
      → placing_expired id rounds j
        ≡ ok (record j { placing_timer = false; placing_gate_open = true })

-- With as many orders in the queue of the closed gate as recipe ids are drawn, and a controller
-- that answers, after failures or at once: the timer, which waits, expires once for each id, and
-- each time one order is received and its request sent behind the others, the queue is shorter
-- by one, and the timer waits anew. Then the queue is empty, the timer waits, and its next
-- expiration opens the gate. The counter stands modulo 2^32.
pub expirations-drains :
    (xs : List (ℕ × List Attempt)) (k : Kitchen)
    → k.placing_queue ≡ length xs
    → k.placing_timer ≡ true
    → k.received_orders < u32_size
    → AreAnswered xs
    → (j : Kitchen) × IsDrained xs k j
expirations-drains [] k q t small h = (
  k,
  record {
    ends = none_left;
    queue = q;
    timer = t;
    received = ground (arith, mod-eq_of_lt {n = k.received_orders} small);
    awaiting = sym (append-nil k.awaiting);
    opens = λ id rounds. unfold placing_expired in rw q refl;
  },
)
expirations-drains ((id, rounds) ∷ xs) k q t small h =
    let k' = drained (length xs) (id ∷ []) k in
    let (j, d) = expirations-drains xs k' refl refl (omega arith) h.1 in
    let once = expired_once id (length xs) rounds k q h.0 in
    (
      j,
      record {
        ends =
            place_next id rounds
              (record {
                waits = t;
                expires = once;
                received = refl;
                sent = refl;
                shorter = q;
                waits_anew = refl;
              })
              d.ends;
        queue = d.queue;
        timer = d.timer;
        received = d.received ∙ omega arith;
        awaiting = d.awaiting ∙ append_assoc k.awaiting id (ids xs);
        opens = d.opens;
      },
    )

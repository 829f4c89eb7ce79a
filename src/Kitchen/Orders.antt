-- ===== src/Kitchen/Orders.antt =====
-- What the handlers of the kitchen do to its counters (kitchen.cpp).
use opcua_cps_kitchen.Base.{
  ℕ, ◌≡◌, refl, ◌∙◌, inl, inr, Bool, true, false, List, find, if◌then◌else◌, Option-cases,
}
use opcua_cps_kitchen.Robot.Work.{add32}
use opcua_cps_kitchen.Kitchen.State.{KitchenRobot, Kitchen}
use opcua_cps_kitchen.Kitchen.Placing.{remove_stopped_robots, count_assigned, count_dropped}
use opcua_cps_kitchen.Kitchen.Robots.{stop_robot}

-- A step that concerns the map of the robots only.
pub record KeepsOrders (k j : Kitchen) : Type 0 where
  pub received : j.received_orders ≡ k.received_orders
  pub assigned : j.assigned_orders ≡ k.assigned_orders
  pub dropped : j.dropped_orders ≡ k.dropped_orders
  pub completed : j.completed_orders ≡ k.completed_orders
  pub gate : j.placing_gate_open ≡ k.placing_gate_open
  pub queue : j.placing_queue ≡ k.placing_queue
  pub timer : j.placing_timer ≡ k.placing_timer
  pub awaiting : j.awaiting ≡ k.awaiting
  pub tasks : j.tasks ≡ k.tasks
  pub running : j.running ≡ k.running

pub KeepsOrders-refl : (k : Kitchen) → KeepsOrders k k
KeepsOrders-refl k = record {
  received = refl;
  assigned = refl;
  dropped = refl;
  completed = refl;
  gate = refl;
  queue = refl;
  timer = refl;
  awaiting = refl;
  tasks = refl;
  running = refl;
}

pub KeepsOrders-trans : {i j k : Kitchen} → KeepsOrders i j → KeepsOrders j k → KeepsOrders i k
KeepsOrders-trans g h = record {
  received = h.received ∙ g.received;
  assigned = h.assigned ∙ g.assigned;
  dropped = h.dropped ∙ g.dropped;
  completed = h.completed ∙ g.completed;
  gate = h.gate ∙ g.gate;
  queue = h.queue ∙ g.queue;
  timer = h.timer ∙ g.timer;
  awaiting = h.awaiting ∙ g.awaiting;
  tasks = h.tasks ∙ g.tasks;
  running = h.running ∙ g.running;
}

-- Another map of robots.
pub map-KeepsOrders :
    (k : Kitchen) (m : List (ℕ × KitchenRobot))
    → KeepsOrders k (record k { position_remote_robot_map = m })
map-KeepsOrders k m = record {
  received = refl;
  assigned = refl;
  dropped = refl;
  completed = refl;
  gate = refl;
  queue = refl;
  timer = refl;
  awaiting = refl;
  tasks = refl;
  running = refl;
}

pub stop_robot-KeepsOrders : (p : ℕ) (k : Kitchen) → KeepsOrders k (stop_robot p k)
unfolding stop_robot
stop_robot-KeepsOrders p k = elim (Option-cases (find k.position_remote_robot_map p)) [
  | inl e ↦ rw (stop_robot, e) (KeepsOrders-refl k)
  | inr (r, e) ↦ rw (stop_robot, e) (map-KeepsOrders k _)
]

pub remove_stopped_robots-KeepsOrders : (k : Kitchen) → KeepsOrders k (remove_stopped_robots k)
unfolding remove_stopped_robots
remove_stopped_robots-KeepsOrders k = map-KeepsOrders k _

-- One order is counted, as assigned or as dropped.
pub record IsCountedOnce (accepted : Bool) (k j : Kitchen) : Type 0 where
  pub received : j.received_orders ≡ k.received_orders
  pub assigned :
      j.assigned_orders ≡ (if accepted then add32 k.assigned_orders 1 else k.assigned_orders)
  pub dropped : j.dropped_orders ≡ (if accepted then k.dropped_orders else add32 k.dropped_orders 1)
  pub completed : j.completed_orders ≡ k.completed_orders
  pub gate : j.placing_gate_open ≡ k.placing_gate_open
  pub queue : j.placing_queue ≡ k.placing_queue
  pub timer : j.placing_timer ≡ k.placing_timer
  pub awaiting : j.awaiting ≡ k.awaiting
  pub tasks : j.tasks ≡ k.tasks
  pub running : j.running ≡ k.running

pub dropped-IsCountedOnce :
    {k j : Kitchen} → KeepsOrders k j → IsCountedOnce false k (count_dropped j)
unfolding count_dropped
dropped-IsCountedOnce h =
    let d = h.dropped in
    record {
      received = h.received;
      assigned = h.assigned;
      dropped = rw d refl;
      completed = h.completed;
      gate = h.gate;
      queue = h.queue;
      timer = h.timer;
      awaiting = h.awaiting;
      tasks = h.tasks;
      running = h.running;
    }

pub assigned-IsCountedOnce :
    {k j : Kitchen} → KeepsOrders k j → IsCountedOnce true k (count_assigned j)
unfolding count_assigned
assigned-IsCountedOnce h =
    let d = h.assigned in
    record {
      received = h.received;
      assigned = rw d refl;
      dropped = h.dropped;
      completed = h.completed;
      gate = h.gate;
      queue = h.queue;
      timer = h.timer;
      awaiting = h.awaiting;
      tasks = h.tasks;
      running = h.running;
    }

pub before-IsCountedOnce :
    {b : Bool} {i j k : Kitchen} → KeepsOrders i j → IsCountedOnce b j k → IsCountedOnce b i k
before-IsCountedOnce g h =
    let a = g.assigned in
    let d = g.dropped in
    record {
      received = h.received ∙ g.received;
      assigned = rw (← a) h.assigned;
      dropped = rw (← d) h.dropped;
      completed = h.completed ∙ g.completed;
      gate = h.gate ∙ g.gate;
      queue = h.queue ∙ g.queue;
      timer = h.timer ∙ g.timer;
      awaiting = h.awaiting ∙ g.awaiting;
      tasks = h.tasks ∙ g.tasks;
      running = h.running ∙ g.running;
    }

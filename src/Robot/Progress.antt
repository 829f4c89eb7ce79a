-- ===== src/Robot/Progress.antt =====
-- How the actions of a dish follow one another (robot.cpp).
pub mod Acting
pub mod Completion
use native.Mathlib.Nat.{mod-add-mod, mod-eq_of_lt}
use opcua_cps_kitchen.Base.{
  ℕ, zero, suc, ◌+◌, ◌%◌, ◌≤◌, ◌<◌, ◌≡◌, ◌∙◌, refl, sym, ap, subst, inl, inr, String, Bool, true,
  false, Option, none, some, List, [], ◌∷◌, All, if◌then◌else◌, Bool-cases, u32_size, u64_size,
  arith,
}
use opcua_cps_kitchen.Actions.{RobotAction, same_tool, same_tool_iff}
use opcua_cps_kitchen.Capabilities.{Capabilities, is_capable_to}
use opcua_cps_kitchen.Robot.State.{Timer, retooling, passing, Task, Robot, Outcome, ok}
use opcua_cps_kitchen.Robot.Work.{
  stop, arm, returned, Attempt, answered, notify_conveyor,
  receive_finished_order_notification_called, reset_in_process_fields, begin_action, go_on,
  determine_next_action, count_action, perform_action, action_performed, tick, go_on_passing,
  pass_time, change_tool, equip, retool, sub64,
}
use opcua_cps_kitchen.Robot.Loop.{Settled, run_timer, Step, fire, Reach, here, next}
use opcua_cps_kitchen.Robot.Load.{IsTimed}

-- The actions that a robot leaves to others, and the number of those before them.
unfoldable pub left_over : Capabilities → List RobotAction → List RobotAction
left_over caps [] = []
left_over caps (a ∷ q) = if is_capable_to caps a.name then left_over caps q else a ∷ q

unfoldable pub done_steps : Capabilities → List RobotAction → ℕ
done_steps caps [] = 0
done_steps caps (a ∷ q) = if is_capable_to caps a.name then suc (done_steps caps q) else 0

abbrev pub is_nil : List RobotAction → Bool
is_nil [] = true
is_nil (a ∷ q) = false

-- The robot waits for the conveyor to pick the dish up.
pub record IsDone (caps : Capabilities) (q : List RobotAction) (steps : ℕ) (s : Robot)
    : Type 0 where
  pub runs : s.running ≡ true
  pub waits : s.pending_pickup ≡ true
  pub no_timer : s.timer ≡ none
  pub rest : s.action_queue_in_process ≡ left_over caps q
  pub finished : s.is_dish_finished ≡ is_nil (left_over caps q)
  pub counted : s.attributes.overall_processed_steps ≡ (steps + done_steps caps q) % u32_size

-- Between two actions of a dish.
pub record IsGoing (caps : Capabilities) (q : List RobotAction) (steps : ℕ) (r : Robot)
    : Type 0 where
  pub runs : r.running ≡ true
  pub no_timer : r.timer ≡ none
  pub able : r.capability_parser ≡ caps
  pub queue : r.action_queue_in_process ≡ q
  pub counted : r.attributes.overall_processed_steps ≡ steps
  pub bounded : steps < u32_size

-- While an action is performed.
pub record IsActing (caps : Capabilities) (a : RobotAction) (q : List RobotAction) (steps d : ℕ)
    (r : Robot) : Type 0 where
  pub runs : r.running ≡ true
  pub waits : r.timer ≡ some passing
  pub able : r.capability_parser ≡ caps
  pub queue : r.action_queue_in_process ≡ a ∷ q
  pub counted : r.attributes.overall_processed_steps ≡ steps
  pub bounded : steps < u32_size
  pub lasts : r.current_action_duration ≡ suc d
  pub fits : suc d < u64_size

-- The conveyor answers the notification at once.
abbrev pub at_once : List Attempt
at_once = answered (returned true) ∷ []

-- The handlers of the timer alone, with a conveyor that answers notifications: nothing that is
-- posted runs in between, and no method node is called.
pub data TimerReach (profiles : String → Option Capabilities) (r : Robot) : Robot → Type 0 where
  not_yet : TimerReach profiles r r
  fired :
      (choice : ℕ) (t : Timer) {s u : Robot}
      → TimerReach profiles r s
      → s.running ≡ true
      → s.timer ≡ some t
      → Settled t s.tasks
      → run_timer profiles choice at_once t (record s { timer = none }) ≡ ok u
      → TimerReach profiles r u

pub TimerReach-trans :
    (profiles : String → Option Capabilities) {r s t : Robot}
    → TimerReach profiles r s
    → TimerReach profiles s t
    → TimerReach profiles r t
TimerReach-trans profiles a not_yet = a
TimerReach-trans profiles a (fired choice t b runs waits settled e) =
    fired choice t (TimerReach-trans profiles a b) runs waits settled e

abbrev pub Goes :
    (String → Option Capabilities) → Capabilities → List RobotAction → ℕ → Robot → Type 0
Goes profiles caps q steps r =
    (r' : Robot) × (s : Robot) × (go_on q at_once r ≡ ok r')
    × TimerReach profiles r' s
    × IsDone caps q steps s

abbrev pub Acts :
    (String → Option Capabilities) → Capabilities → List RobotAction → ℕ → Robot → Type 0
Acts profiles caps q steps r = (s : Robot) × TimerReach profiles r s × IsDone caps q steps s

-- ===== src/Robot/Activity.antt =====
-- What a robot has under way at a time (robot.cpp).
pub mod Handlers
pub mod Tasks
pub mod Reconfiguration
pub mod Timers
pub mod Calls
pub mod Reachable
use opcua_cps_kitchen.Base.{
  ℕ, ◌+◌, ◌≤◌, ◌<◌, ◌≡◌, ◌≢◌, Bool, true, false, ◌||◌, Option, none, some, List, [], ◌∷◌, ◌++◌,
  flag, arith,
}
use opcua_cps_kitchen.Robot.State.{
  RobotState, available, rearranging, reconfiguring, Timer, retooling, passing, completing, moving,
  Task, Robot,
}
use opcua_cps_kitchen.Robot.Loop.{is_target, is_profile, is_commit, is_cook, count_tasks}

pub count_tasks-append :
    (p : Task → Bool) (ts us : List Task)
    → count_tasks p (ts ++ us) ≡ count_tasks p ts + count_tasks p us
count_tasks-append p [] us = omega arith
count_tasks-append p (t ∷ ts) us = omega (arith, count_tasks-append p ts us)

abbrev pub waits : Option Timer → ℕ
waits none = 0
waits (some _) = 1

-- What will make the robot go on: the timer, the conveyor that picks the dish up, a posted
-- cook_next_order, the controller that commits the new position.
unfoldable pub activity : Robot → ℕ
activity r =
    waits r.timer
    + flag r.pending_pickup
    + count_tasks is_cook r.tasks
    + flag r.attributes.new_position_commit_is_pending

abbrev pub IsCooking : Robot → Type 0
IsCooking r =
    (r.preparing_dish ≡ true) × (r.already_rearranging ≡ false) × (r.already_reconfiguring ≡ false)

abbrev pub TimerFits : Option Timer → Robot → Type 0
TimerFits none r = Unit {0}
TimerFits (some retooling) r = IsCooking r
TimerFits (some passing) r = IsCooking r
TimerFits (some completing) r = r.already_reconfiguring ≡ true
TimerFits (some (moving ms)) r = r.already_rearranging ≡ true

-- The requests that are posted or under way match the state.
pub record Matches (r : Robot) : Type 0 where
  pub rearranges : r.already_rearranging ≡ true → r.robot_state ≡ rearranging
  pub reconfigures : r.already_reconfiguring ≡ true → r.robot_state ≡ reconfiguring
  pub commit_fits :
      r.attributes.new_position_commit_is_pending ≡ true → r.already_rearranging ≡ true
  pub commits : count_tasks is_commit r.tasks ≤ flag r.attributes.new_position_commit_is_pending
  pub targets :
      0 < count_tasks is_target r.tasks
      → (r.robot_state ≡ rearranging) × (r.attributes.new_position_commit_is_pending ≡ false)
  pub profiles : 0 < count_tasks is_profile r.tasks → r.robot_state ≡ reconfiguring

pub record Inv (r : Robot) : Type 0 where
  pub matches : Matches r
  pub counted :
      activity r ≡ flag (r.preparing_dish || (r.already_rearranging || r.already_reconfiguring))
  pub timer_fits : TimerFits r.timer r
  pub pickup_fits : r.pending_pickup ≡ true → IsCooking r
  pub cook_fits : 0 < count_tasks is_cook r.tasks → IsCooking r

-- The robot does nothing for a dish: cook_next_order may start one.
pub record IsCalm (r : Robot) : Type 0 where
  pub matches : Matches r
  pub counted : activity r ≡ flag (r.already_rearranging || r.already_reconfiguring)
  pub timer_fits : TimerFits r.timer r
  pub no_retooling : r.timer ≢ some retooling
  pub no_passing : r.timer ≢ some passing
  pub no_pickup : r.pending_pickup ≡ false
  pub no_cook : count_tasks is_cook r.tasks ≡ 0

-- The robot is between two actions of a dish.
pub record IsBetween (r : Robot) : Type 0 where
  pub matches : Matches r
  pub cooking : IsCooking r
  pub quiet : activity r ≡ 0

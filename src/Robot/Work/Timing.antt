-- ===== src/Robot/Work/Timing.antt =====
-- The timer, the counters and the queue of handlers of a robot (robot.cpp).
use opcua_cps_kitchen.Base.{
  ℕ, zero, suc, ◌+◌, ◌-◌, ◌*◌, ◌%◌, false, none, some, List, [], ◌∷◌, ◌++◌, u32_size, u64_size,
}
use opcua_cps_kitchen.Actions.{RobotAction, retooling_time}
use opcua_cps_kitchen.Robot.State.{
  Timer, retooling, passing, completing, moving, Task, Robot, Outcome, ok, fault, empty_queue,
}

-- TIME_UNIT, TIME_UNIT_UPDATE_RATE, MOVE_TIME and RECONFIGURATION_TIME.
abbrev pub time_unit : ℕ
time_unit = 10

abbrev pub time_unit_update_rate : ℕ
time_unit_update_rate = 1

abbrev pub move_time : ℕ
move_time = 5

abbrev pub reconfiguration_time : ℕ
reconfiguration_time = 5

-- The milliseconds that the timer is set to.
unfoldable pub expiry : Timer → ℕ
expiry retooling = retooling_time * time_unit
expiry passing = time_unit_update_rate * time_unit
expiry completing = reconfiguration_time * time_unit
expiry (moving ms) = ms

-- The part of `stop` that the other handlers see: the io_context runs no further handler.
unfoldable pub stop : Robot → Robot
stop r = record r { running = false }

-- Setting the steady timer anew cancels a wait that is not over, and the cancelled handler stops
-- the robot.
unfoldable pub arm : Timer → Robot → Robot
unfolding stop
arm t r = elim r.timer [
  | none ↦ record r { timer = some t }
  | some _ ↦ record (stop r) { timer = some t }
]

unfoldable pub post : Task → Robot → Robot
post t r = record r { tasks = r.tasks ++ t ∷ [] }

-- The loop that removes the processed steps.
unfoldable pub pop_steps : ℕ → List RobotAction → Outcome (List RobotAction)
pop_steps zero q = ok q
pop_steps (suc n) [] = fault empty_queue
pop_steps (suc n) (a ∷ q) = pop_steps n q

-- An UA_UInt32 counter and time.
abbrev pub add32 : ℕ → ℕ → ℕ
add32 a b = (a + b) % u32_size

abbrev pub sub32 : ℕ → ℕ → ℕ
sub32 a b = (a + u32_size - b) % u32_size

abbrev pub sub64 : ℕ → ℕ → ℕ
sub64 a b = (a + u64_size - b) % u64_size

-- ===== src/Robot/Progress/Acting.antt =====
-- The waits of one action (pass_time of robot.cpp).
use opcua_cps_kitchen.Base.{ℕ, zero, suc, ◌+◌, ◌%◌, String, Option, none, List, u32_size, arith}
use opcua_cps_kitchen.Actions.{RobotAction}
use opcua_cps_kitchen.Capabilities.{Capabilities}
use opcua_cps_kitchen.Robot.State.{passing, Robot}
use opcua_cps_kitchen.Robot.Work.{
  arm, determine_next_action, count_action, perform_action, action_performed, tick, go_on_passing,
  pass_time,
}
use opcua_cps_kitchen.Robot.Loop.{run_timer}
use opcua_cps_kitchen.Robot.Progress.{
  IsGoing, IsActing, not_yet, fired, TimerReach-trans, Goes, Acts,
}

count_action-IsGoing :
    (caps : Capabilities) (a : RobotAction) (q : List RobotAction) (steps d : ℕ) (r : Robot)
    → IsActing caps a q steps d r
    → IsGoing caps q ((steps + 1) % u32_size) (count_action q (tick (record r { timer = none })))
unfolding count_action tick
count_action-IsGoing caps a q steps d r g = ground arith

tick-IsActing :
    (caps : Capabilities) (a : RobotAction) (q : List RobotAction) (steps d : ℕ) (r : Robot)
    → IsActing caps a q steps (suc d) r
    → IsActing caps a q steps d (arm passing (tick (record r { timer = none })))
unfolding arm tick
tick-IsActing caps a q steps d r g = ground arith

-- The wait of an action over and over, until its time has passed.
pub acts :
    (profiles : String → Option Capabilities) (caps : Capabilities) (a : RobotAction)
    (q : List RobotAction) (steps d : ℕ) (r : Robot)
    → IsActing caps a q steps d r
    → ((r' : Robot)
        → IsGoing caps q ((steps + 1) % u32_size) r'
        → Goes profiles caps q ((steps + 1) % u32_size) r')
    → Acts profiles caps q ((steps + 1) % u32_size) r
unfolding run_timer pass_time go_on_passing action_performed perform_action determine_next_action
acts profiles caps a q steps zero r g rest =
    let (r', s, on, reach, done) = rest _ (count_action-IsGoing caps a q steps zero r g) in
    (
      s,
      TimerReach-trans profiles (fired 0 passing not_yet g.runs g.waits tt (ground (arith, on)))
          reach,
      done,
    )
acts profiles caps a q steps (suc d) r g rest =
    let (s, reach, done) =
      acts profiles caps a q steps d _ (tick-IsActing caps a q steps d r g) rest in
    (
      s,
      TimerReach-trans profiles (fired 0 passing not_yet g.runs g.waits tt (ground arith)) reach,
      done,
    )

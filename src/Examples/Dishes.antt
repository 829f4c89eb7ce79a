-- ===== src/Examples/Dishes.antt =====
-- A robot with a task and a dish (robot.cpp).
use opcua_cps_kitchen.Robot.Work.{go_on}
use opcua_cps_kitchen.Base.{All, ◌≡◌, refl, true, [], ◌∷◌, arith}
use opcua_cps_kitchen.Examples.Kitchen.{cutting, baking}
use opcua_cps_kitchen.Robot.State.{Robot, ok}
use opcua_cps_kitchen.Robot.Load.{IsTimed}
use opcua_cps_kitchen.Robot.Progress.{IsGoing, IsDone, TimerReach, at_once}
use opcua_cps_kitchen.Robot.Progress.Completion.{go_on-completes}
use opcua_cps_kitchen.Examples.Robots.{profiles, fresh}

-- It is about to go on with a pie.
abbrev going : Robot
going = record fresh { preparing_dish = true; action_queue_in_process = cutting ∷ baking ∷ [] }

going-IsGoing : IsGoing ("cut" ∷ []) (cutting ∷ baking ∷ []) 0 going
going-IsGoing = record {
  runs = refl;
  no_timer = refl;
  able = refl;
  queue = refl;
  counted = refl;
  bounded = omega arith;
}

go_on-completes_example :
    (r' : Robot) × (s : Robot) × (go_on (cutting ∷ baking ∷ []) at_once going ≡ ok r')
    × TimerReach profiles r' s
    × IsDone ("cut" ∷ []) (cutting ∷ baking ∷ []) 0 s
go_on-completes_example =
    go_on-completes profiles ("cut" ∷ []) (cutting ∷ baking ∷ []) 0 going timed going-IsGoing
  where
    timed : All IsTimed (cutting ∷ baking ∷ [])
    timed = ground arith

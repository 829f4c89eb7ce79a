-- ===== src/Examples/Faults.antt =====
-- A robot that is given a task and another profile at once (robot.cpp).
use opcua_cps_kitchen.Base.{◌≡◌, refl, String, true, false, Option, none, some, [], ◌∷◌}
use opcua_cps_kitchen.Capabilities.{Capabilities, is_capable_to, same_capabilities}
use opcua_cps_kitchen.Recipe.{get_recipe}
use opcua_cps_kitchen.Robot.State.{completing, Robot, fault, deadlock}
use opcua_cps_kitchen.Actions.{Action, recipe_timed_action, oven, get_robot_action}
use opcua_cps_kitchen.Robot.Loop.{run_timer, Reach}
use opcua_cps_kitchen.Robot.Deadlock.{IsAtRest, IsRace, reconfigure-deadlock}
use opcua_cps_kitchen.Examples.Kitchen.{pie, cutting, baking}
use opcua_cps_kitchen.Examples.Robots.{fresh}

abbrev bakery : String → Option Capabilities
bakery name = some ("bake" ∷ [])

fresh-IsAtRest : IsAtRest fresh
fresh-IsAtRest = record {
  runs = refl;
  state = refl;
  idle = refl;
  not_reconfiguring = refl;
  no_timer = refl;
  no_tasks = refl;
  no_orders = refl;
}

knows_pie : get_recipe fresh.recipe_parser 1 ≡ some pie
unfolding get_recipe
knows_pie = refl

cuts_leek : is_capable_to fresh.capability_parser cutting.name ≡ true
unfolding is_capable_to
cuts_leek = refl

other_profile : same_capabilities ("bake" ∷ []) fresh.capability_parser ≡ false
unfolding same_capabilities is_capable_to
other_profile = refl

abbrev bake : Action
bake = recipe_timed_action "bake" oven

known_baking : get_robot_action "bake" ≡ some bake
unfolding get_robot_action
known_baking = refl

reconfigure-deadlock_example :
    (s : Robot) × IsRace bakery 1 "bakery" fresh s
    × Reach bakery fresh s
    × (run_timer bakery 0 [] completing (record s { timer = none }) ≡ fault deadlock)
reconfigure-deadlock_example =
    reconfigure-deadlock bakery 1 0 "bakery" "bake" fresh pie cutting bake (baking ∷ [])
      ("bake" ∷ []) [] fresh-IsAtRest knows_pie refl cuts_leek refl other_profile refl known_baking

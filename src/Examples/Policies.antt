-- ===== src/Examples/Policies.antt =====
-- The policies on two robots, of which the one that is needed first stands behind the other
-- (kitchen_mape.cpp).
use opcua_cps_kitchen.Base.{◌≡◌, false, List, [], ◌∷◌, arith}
use opcua_cps_kitchen.Robot.State.{ok}
use opcua_cps_kitchen.Mape.{
  RobotView, Profiles, simple_capability_check, simple_rearranging, on_new_order,
}
use opcua_cps_kitchen.Mape.Choice.{Falls, IsChoice, on_new_order-IsChoice}
use opcua_cps_kitchen.Examples.Kitchen.{cutting, baking}

abbrev robots : List RobotView
robots =
    record { key = 5; position = 5; is_adaptivity_pending = false; capabilities = "cut" ∷ [] }
    ∷ record { key = 2; position = 2; is_adaptivity_pending = false; capabilities = "bake" ∷ [] }
    ∷ []

abbrev files : Profiles
files = ("cutter.json", "cut" ∷ []) ∷ ("oven.json", "bake" ∷ []) ∷ []

robots-Falls : Falls robots
robots-Falls = ground arith

on_new_order-IsChoice_example :
    IsChoice "cut" robots (on_new_order files robots (cutting ∷ baking ∷ [])).suitable_robot
    × ((simple_rearranging robots (cutting ∷ baking ∷ [])).suitable_robot
        ≡ (on_new_order files robots (cutting ∷ baking ∷ [])).suitable_robot)
    × (simple_capability_check robots (cutting ∷ baking ∷ [])
        ≡ ok (record {
          suitable_robot = (on_new_order files robots (cutting ∷ baking ∷ [])).suitable_robot;
          requests = [];
        }))
on_new_order-IsChoice_example =
    on_new_order-IsChoice files robots cutting (baking ∷ []) robots-Falls

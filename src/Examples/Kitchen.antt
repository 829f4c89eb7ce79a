-- ===== src/Examples/Kitchen.antt =====
-- Tests of the recipes, the profiles and the distance (recipe_parser.cpp, capability_parser.cpp).
use opcua_cps_kitchen.Base.{
  ℕ, zero, suc, ◌≤◌, ◌<◌, ◌+◌, ◌*◌, ◌%◌, ◌≡◌, refl, String, false, Option, none, some, List, [],
  ◌∷◌, u64_size, ◌||◌, arith, ◌↔◌, ◌⊎◌,
}
use opcua_cps_kitchen.Actions.{
  same_tool, cutter, oven, RobotAction, get_robot_action, has_action, retooling_time,
}
use opcua_cps_kitchen.Capabilities.{
  Capabilities, is_capable_to, load_capabilities, AreKnown, load_capabilities-some,
  load_capabilities_total,
}
use opcua_cps_kitchen.Recipe.{
  Recipe, get_overall_time, Entry, Document, ok, parse_recipe, recipe_parser, get_recipe,
  has_recipe,
}
use opcua_cps_kitchen.Recipe.Times.{total_duration, tool_changes, parse_recipe_times}
use opcua_cps_kitchen.Recipe.Plans.{CarryOut, parse_recipe_plan}
use opcua_cps_kitchen.Recipe.Lookup.{Answers, recipe_parser_lookup}
use opcua_cps_kitchen.Robot.Distance.{distance, distance_metric}

abbrev pub cutting : RobotAction
cutting = record { name = "cut"; required_tool = cutter; ingredients = "leek"; duration = 3 }

abbrev pub baking : RobotAction
baking = record { name = "bake"; required_tool = oven; ingredients = "leek"; duration = 7 }

abbrev pie_entry : Entry
pie_entry = record {
  name = "pie";
  instructions =
      record { action = some "cut"; ingredients = some "leek"; duration = none }
      ∷ record { action = some "bake"; ingredients = some "leek"; duration = some 7 }
      ∷ [];
}

abbrev pub pie : Recipe
pie = record {
  recipe_id = 1;
  dish_name = "pie";
  action_queue = cutting ∷ baking ∷ [];
  cooking_time = 10;
  retooling_time = retooling_time;
}

pie_parses : parse_recipe 1 pie_entry ≡ ok pie
unfolding parse_recipe get_robot_action same_tool
pie_parses = refl

parse_recipe_times_example :
    (pie.cooking_time ≡ total_duration pie.action_queue % u64_size)
    × (pie.retooling_time ≡ tool_changes pie.action_queue * retooling_time % u64_size)
    × (get_overall_time pie
        ≡ (total_duration pie.action_queue + tool_changes pie.action_queue * retooling_time)
          % u64_size)
parse_recipe_times_example = parse_recipe_times 1 pie_entry pie pie_parses

parse_recipe_plan_example :
    ((r : Recipe)
      → parse_recipe 1 pie_entry ≡ ok r
      → (r.recipe_id ≡ 1)
        × (r.dish_name ≡ pie_entry.name)
        × CarryOut pie_entry.instructions r.action_queue)
    × ((xs : List RobotAction)
        → CarryOut pie_entry.instructions xs
        → (r : Recipe) × (parse_recipe 1 pie_entry ≡ ok r) × (r.action_queue ≡ xs))
parse_recipe_plan_example = parse_recipe_plan 1 pie_entry

-- The entry is under the key 2, and 1 is missing.
abbrev menu_entry : ℕ → Option Entry
menu_entry (suc (suc zero)) = some pie_entry
menu_entry _ = none

abbrev menu : Document
menu = record { size = 2; entry = menu_entry }

abbrev pie_2 : Recipe
pie_2 = record pie { recipe_id = 2 }

menu_parses : recipe_parser menu ≡ ok ((2, pie_2) ∷ [])
unfolding recipe_parser get_robot_action same_tool
menu_parses = refl

recipe_parser_lookup_example :
    ((id : ℕ) → 1 ≤ id → id ≤ 2 → Answers ((2, pie_2) ∷ []) id (menu_entry id))
    × ((id : ℕ)
        → (id ≡ 0) ⊎ (2 < id)
        → (get_recipe ((2, pie_2) ∷ []) id ≡ none) × (has_recipe ((2, pie_2) ∷ []) id ≡ false))
recipe_parser_lookup_example = recipe_parser_lookup menu ((2, pie_2) ∷ []) menu_parses

abbrev pub cutter_profile : List String
cutter_profile = "cut" ∷ "cut" ∷ []

cutter_profile_loads : load_capabilities [] cutter_profile ≡ some ("cut" ∷ [])
unfolding load_capabilities
cutter_profile_loads = refl

load_capabilities-some_example :
    AreKnown cutter_profile
    × ((m : String)
        → is_capable_to ("cut" ∷ []) m ≡ (is_capable_to cutter_profile m || is_capable_to [] m))
load_capabilities-some_example =
    load_capabilities-some [] cutter_profile ("cut" ∷ []) cutter_profile_loads

cutter_profile-AreKnown : AreKnown cutter_profile
unfolding has_action
cutter_profile-AreKnown = (refl, (refl, tt))

load_capabilities_total_example :
    (ds : Capabilities) × (load_capabilities [] cutter_profile ≡ some ds)
load_capabilities_total_example = load_capabilities_total [] cutter_profile cutter_profile-AreKnown

distance_metric_example :
    (distance 10 1 8 ≡ distance 10 8 1)
    × ((distance 10 1 8 ≡ 0) ↔ ◌≡◌ {A = ℕ} 1 8)
    × (distance 10 1 4 ≤ distance 10 1 8 + distance 10 8 4)
    × (2 * distance 10 1 8 ≤ 10)
distance_metric_example =
    distance_metric 10 1 8 4 (omega arith) (omega arith) (omega arith) (omega arith)

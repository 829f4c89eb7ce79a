-- ===== src/Actions.antt =====
-- actions/: the tools of a robot, the actions of a recipe, and the catalogue of known actions
-- (robot_tool.hpp, robot_actions.hpp, robot_actions.cpp).
use opcua_cps_kitchen.Base.{
  ℕ, ◌≡◌, ◌↔◌, refl, ap, sym, ◌∙◌, String, str_eq, Bool, true, false, Option, none, some, List, [],
  ◌∷◌, ◌==◌, ==_iff, if◌then◌else◌,
}

-- enum class robot_tool; ROBOT_TOOLS_COUNT is no tool that a robot holds.
pub data RobotTool : Type 0 where
  fryer pan pot peeler cutter crusher masher mixer stirrer : RobotTool
  ingredient_dispenser layering_dispenser oven whisk : RobotTool

-- The value of the enumerator, which LAST_EQUIPPED_TOOL stores and `!=` compares.
unfoldable pub tool_value : RobotTool → ℕ
tool_value fryer = 0
tool_value pan = 1
tool_value pot = 2
tool_value peeler = 3
tool_value cutter = 4
tool_value crusher = 5
tool_value masher = 6
tool_value mixer = 7
tool_value stirrer = 8
tool_value ingredient_dispenser = 9
tool_value layering_dispenser = 10
tool_value oven = 11
tool_value whisk = 12

unfoldable pub robot_tool_to_string : RobotTool → String
robot_tool_to_string fryer = "FRYER"
robot_tool_to_string pan = "PAN"
robot_tool_to_string pot = "POT"
robot_tool_to_string peeler = "PEELER"
robot_tool_to_string cutter = "CUTTER"
robot_tool_to_string crusher = "CRUSHER"
robot_tool_to_string masher = "MASHER"
robot_tool_to_string mixer = "MIXER"
robot_tool_to_string stirrer = "STIRRER"
robot_tool_to_string ingredient_dispenser = "INGREDIENT_DISPENSER"
robot_tool_to_string layering_dispenser = "LAYERING_DISPENSER"
robot_tool_to_string oven = "OVEN"
robot_tool_to_string whisk = "WHISK"

unfoldable pub same_tool : RobotTool → RobotTool → Bool
unfolding tool_value
same_tool a b = tool_value a == tool_value b

tool_at : ℕ → RobotTool
tool_at n =
    if n == 0
    then fryer
    else if n == 1
    then pan
    else if n == 2
    then pot
    else if n == 3
    then peeler
    else if n == 4
    then cutter
    else if n == 5
    then crusher
    else if n == 6
    then masher
    else if n == 7
    then mixer
    else if n == 8
    then stirrer
    else if n == 9
    then ingredient_dispenser
    else if n == 10
    then layering_dispenser
    else if n == 11
    then oven
    else whisk

tool_at-tool_value : (t : RobotTool) → tool_at (tool_value t) ≡ t
unfolding tool_at tool_value
tool_at-tool_value fryer = refl
tool_at-tool_value _ = refl

-- Comparing enumerators decides equality of tools.
pub same_tool_iff : (a b : RobotTool) → (same_tool a b ≡ true) ↔ (a ≡ b)
unfolding same_tool
same_tool_iff a b = (
  λ h.
      sym (tool_at-tool_value a)
      ∙ ap tool_at ((==_iff (tool_value a) (tool_value b)).0 h)
      ∙ tool_at-tool_value b,
  λ e. (==_iff (tool_value a) (tool_value b)).1 (ap tool_value e),
)

-- struct robot_action; duration_t is 64 bits wide.
pub record RobotAction : Type 0 where
  pub name : String
  pub required_tool : RobotTool
  pub ingredients : String
  pub duration : ℕ

-- struct action with its subclasses autonomous_action and recipe_timed_action.
pub data Action : Type 0 where
  autonomous_action : String → RobotTool → ℕ → Action
  recipe_timed_action : String → RobotTool → Action

unfoldable pub get_name : Action → String
get_name (autonomous_action n t d) = n
get_name (recipe_timed_action n t) = n

unfoldable pub get_required_tool : Action → RobotTool
get_required_tool (autonomous_action n t d) = t
get_required_tool (recipe_timed_action n t) = t

-- action_map_, filled by the constructor of robot_actions.
abbrev pub action_map : List (String × Action)
action_map =
    ("peel", autonomous_action "peel" peeler 5)
    ∷ ("cut", autonomous_action "cut" cutter 3)
    ∷ ("braise", autonomous_action "braise" pan 8)
    ∷ ("mash", autonomous_action "mash" masher 5)
    ∷ ("stir", autonomous_action "stir" stirrer 3)
    ∷ ("sprinkle", autonomous_action "sprinkle" ingredient_dispenser 1)
    ∷ ("pour", autonomous_action "pour" ingredient_dispenser 1)
    ∷ ("whip", autonomous_action "whip" whisk 3)
    ∷ ("mix", autonomous_action "mix" mixer 3)
    ∷ ("crush", autonomous_action "crush" crusher 2)
    ∷ ("layer", autonomous_action "layer" layering_dispenser 2)
    ∷ ("fry", autonomous_action "fry" fryer 3)
    ∷ ("boil", recipe_timed_action "boil" pot)
    ∷ ("bake", recipe_timed_action "bake" oven)
    ∷ []

unfoldable pub find_action : List (String × Action) → String → Option Action
find_action [] n = none
find_action ((k, a) ∷ m) n = if str_eq k n then some a else find_action m n

-- `none` is the std::out_of_range that `at` throws.
unfoldable pub get_robot_action : String → Option Action
unfolding find_action
get_robot_action n = find_action action_map n

unfoldable pub has_action : String → Bool
unfolding get_robot_action
has_action n = elim (get_robot_action n) [ none ↦ false | some a ↦ true ]

-- #define RETOOLING_TIME 1LL
abbrev pub retooling_time : ℕ
retooling_time = 1

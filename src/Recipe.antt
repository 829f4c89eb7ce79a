-- ===== src/Recipe.antt =====
-- recipe/: recipes and the parser that builds them (recipe_parser.hpp, recipe_parser.cpp).
-- jsoncpp and the file system are not modelled: a document is what the parser reads of it. An
-- instruction has its members as options, and a document has the number of its members and the
-- entry under each decimal key.
pub mod Times
pub mod Plans
pub mod Lookup
use opcua_cps_kitchen.Base.{
  ℕ, zero, suc, ◌+◌, ◌%◌, ◌≡◌, refl, String, Bool, true, false, Option, none, some, List, [], ◌∷◌,
  ◌++◌, ◌==◌, if◌then◌else◌, u64_size,
}
use opcua_cps_kitchen.Actions.{
  RobotTool, RobotAction, Action, autonomous_action, recipe_timed_action, get_robot_action,
  same_tool, retooling_time,
}

-- struct recipe.
pub record Recipe : Type 0 where
  pub recipe_id : ℕ
  pub dish_name : String
  pub action_queue : List RobotAction
  pub cooking_time : ℕ
  pub retooling_time : ℕ

-- get_overall_time, a sum of two 64-bit numbers.
unfoldable pub get_overall_time : Recipe → ℕ
get_overall_time r = (r.cooking_time + r.retooling_time) % u64_size

pub record Instruction : Type 0 where
  pub action : Option String
  pub ingredients : Option String
  pub duration : Option ℕ

pub record Entry : Type 0 where
  pub name : String
  pub instructions : List Instruction

pub record Document : Type 0 where
  pub size : ℕ
  pub entry : ℕ → Option Entry

-- The messages of std::invalid_argument, without their text.
pub data RecipeError : Type 0 where
  missing_action unknown_action superfluous_duration missing_duration : RecipeError
  missing_ingredients : RecipeError

pub data Parsed {ℓ} (A : Type ℓ) : Type ℓ where
  ok : A → Parsed A
  err : RecipeError → Parsed A

infixl 5 ◌>>=◌
abbrev pub ◌>>=◌ {κ ℓ} : {B : Type κ} {A : Type ℓ} → Parsed A → (A → Parsed B) → Parsed B
err e >>= next = err e
ok x >>= next = next x

-- Where a chain succeeds, its first part and the rest of it do.
pub >>=-eq-ok {κ ℓ} :
    {B : Type κ} {y : B} {A : Type ℓ} (first : Parsed A) (next : A → Parsed B)
    → (first >>= next) ≡ ok y
    → (x : A) × (first ≡ ok x) × (next x ≡ ok y)
>>=-eq-ok (err e) next h = cc
>>=-eq-ok (ok x) next h = (x, refl, h)

abbrev pub or_throw {ℓ} : {A : Type ℓ} → Option A → RecipeError → Parsed A
or_throw none e = err e
or_throw (some a) e = ok a

-- The checks on the duration, and the time and tool that follow.
timed : Action → Option ℕ → Parsed (String × RobotTool × ℕ)
timed (autonomous_action n t d) none = ok (n, t, d)
timed (autonomous_action n t d) (some _) = err superfluous_duration
timed (recipe_timed_action n t) none = err missing_duration
timed (recipe_timed_action n t) (some d) = ok (n, t, d)

-- One round of the loop over the instructions, up to the new robot_action.
unfoldable pub parse_instruction : Instruction → Parsed RobotAction
unfolding timed
parse_instruction i = do
  key ← or_throw i.action missing_action
  act ← or_throw (get_robot_action key) unknown_action
  (name, tool, time) ← timed act i.duration
  ingredients ← or_throw i.ingredients missing_ingredients
  ok (record { name = name; required_tool = tool; ingredients = ingredients; duration = time })

-- The loop's variables.
pub record Plan : Type 0 where
  pub action_queue : List RobotAction
  pub cooking_time : ℕ
  pub retooling_time : ℕ

abbrev pub back : List RobotAction → Option RobotAction
back [] = none
back (a ∷ []) = some a
back (a ∷ b ∷ xs) = back (b ∷ xs)

pub retooling_before : Option RobotAction → RobotAction → ℕ
retooling_before none a = 0
retooling_before (some b) a =
    if same_tool a.required_tool b.required_tool then 0 else retooling_time

pub push_action : Plan → RobotAction → Plan
unfolding retooling_before
push_action p a = record {
  action_queue = p.action_queue ++ a ∷ [];
  cooking_time = (p.cooking_time + a.duration) % u64_size;
  retooling_time = (p.retooling_time + retooling_before (back p.action_queue) a) % u64_size;
}

unfoldable pub parse_instructions : Plan → List Instruction → Parsed Plan
unfolding parse_instruction push_action
parse_instructions p [] = ok p
parse_instructions p (i ∷ is) = do a ← parse_instruction i; parse_instructions (push_action p a) is

abbrev pub empty_plan : Plan
empty_plan = record { action_queue = []; cooking_time = 0; retooling_time = 0 }

unfoldable pub parse_recipe : ℕ → Entry → Parsed Recipe
unfolding parse_instructions
parse_recipe id e = do
  p ← parse_instructions empty_plan e.instructions
  ok (record {
    recipe_id = id;
    dish_name = e.name;
    action_queue = p.action_queue;
    cooking_time = p.cooking_time;
    retooling_time = p.retooling_time;
  })

-- recipe_map_, as an association list with the newest entry first.
abbrev pub RecipeMap : Type 0
RecipeMap = List (ℕ × Recipe)

unfoldable pub find_recipe : RecipeMap → ℕ → Option Recipe
find_recipe [] id = none
find_recipe ((k, r) ∷ m) id = if k == id then some r else find_recipe m id

-- The `continue` for an id that is no member.
parse_entry : Option Entry → ℕ → RecipeMap → Parsed RecipeMap
unfolding parse_recipe
parse_entry none id m = ok m
parse_entry (some e) id m = do r ← parse_recipe id e; ok ((id, r) ∷ m)

-- The loop of the constructor, from `id` for the rounds that are left.
load_recipes : Document → ℕ → ℕ → RecipeMap → Parsed RecipeMap
unfolding parse_entry
load_recipes d zero id m = ok m
load_recipes d (suc rounds) id m = do
  m' ← parse_entry (d.entry id) id m
  load_recipes d rounds (suc id) m'

unfoldable pub recipe_parser : Document → Parsed RecipeMap
unfolding load_recipes
recipe_parser d = load_recipes d d.size 1 []

unfoldable pub has_recipe : RecipeMap → ℕ → Bool
unfolding find_recipe
has_recipe m id = elim (find_recipe m id) [ none ↦ false | some r ↦ true ]

-- `none` is the std::out_of_range that `at` throws.
unfoldable pub get_recipe : RecipeMap → ℕ → Option Recipe
unfolding find_recipe
get_recipe m id = find_recipe m id

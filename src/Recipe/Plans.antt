-- ===== src/Recipe/Plans.antt =====
-- What the parser accepts, and the queue that it builds (recipe_parser.cpp).
use mathlib.Core.List.{append_assoc, append-nil}
use opcua_cps_kitchen.Base.{
  ℕ, ◌≡◌, ◌⊎◌, inl, inr, refl, sym, ap, ◌∙◌, subst, String, str_eq, eq_iff, Option, none, some,
  List, [], ◌∷◌, ◌++◌, All, Bool-cases, Option-cases, arith,
}
use opcua_cps_kitchen.Actions.{
  RobotAction, Action, autonomous_action, recipe_timed_action, get_name, action_map, find_action,
  get_robot_action,
}
use opcua_cps_kitchen.Recipe.{
  Plan, Instruction, Entry, Recipe, Parsed, ok, missing_ingredients, ◌>>=◌, or_throw, >>=-eq-ok,
  push_action, parse_instruction, parse_instructions, parse_recipe, empty_plan, timed,
}

-- Each action is stored under its own name.
abbrev IsNamed : String × Action → Type 0
IsNamed e = get_name e.1 ≡ e.0

find_action-IsNamed :
    (m : List (String × Action)) (k : String) (a : Action)
    → All IsNamed m
    → find_action m k ≡ some a
    → get_name a ≡ k
unfolding find_action
find_action-IsNamed [] k a h e = cc
find_action-IsNamed ((j, b) ∷ m) k a h e = elim (Bool-cases (str_eq j k)) [
  | inl hit ↦ let same : b ≡ a = ground arith in ap get_name (sym same) ∙ h.0 ∙ (eq_iff j k).0 hit
  | inr miss ↦ find_action-IsNamed m k a h.1 (ground arith)
]

get_robot_action_name : (k : String) (a : Action) → get_robot_action k ≡ some a → get_name a ≡ k
unfolding get_robot_action get_name
get_robot_action_name k a e =
    find_action-IsNamed action_map k a
      (
        refl,
        (
          refl,
          (
            refl,
            (
              refl,
              (refl, (refl, (refl, (refl, (refl, (refl, (refl, (refl, (refl, (refl, tt)))))))))),
            ),
          ),
        ),
      )
      e

-- An action carries out an instruction: it has its ingredients, and the tool that the catalogue
-- gives the action that it names, with the catalogue's duration if the action is autonomous (and
-- the instruction has none), with the instruction's if it is recipe timed.
abbrev pub CarriesOut : Instruction → RobotAction → Type 0
CarriesOut i a =
    (i.action ≡ some a.name)
    × (i.ingredients ≡ some a.ingredients)
    × (((get_robot_action a.name ≡ some (autonomous_action a.name a.required_tool a.duration))
          × (i.duration ≡ none))
        ⊎ ((get_robot_action a.name ≡ some (recipe_timed_action a.name a.required_tool))
            × (i.duration ≡ some a.duration)))

parse_instruction_complete :
    (i : Instruction) (a : RobotAction) → CarriesOut i a → parse_instruction i ≡ ok a
unfolding parse_instruction
parse_instruction_complete i a (k, g, inl (c, d)) = rw (k, c, d, g)
parse_instruction_complete i a (k, g, inr (c, d)) = rw (k, c, d, g)

-- What is left of the round once the catalogue has the action.
finish : Action → Option ℕ → Option String → Parsed RobotAction
finish act d g = do
  (name, tool, time) ← timed act d
  ingredients ← or_throw g missing_ingredients
  ok (record { name = name; required_tool = tool; ingredients = ingredients; duration = time })

finish_sound :
    (key : String) (act : Action) (d : Option ℕ) (g : Option String) (a : RobotAction)
    → get_robot_action key ≡ some act
    → get_name act ≡ key
    → finish act d g ≡ ok a
    → CarriesOut (record { action = some key; ingredients = g; duration = d }) a
unfolding finish timed get_name
finish_sound key (autonomous_action m u e) none (some i) a f n h =
    (ground arith, ground arith, inl (ground arith, refl))
finish_sound key (recipe_timed_action m u) (some e) (some i) a f n h =
    (ground arith, ground arith, inr (ground arith, ground arith))
finish_sound key (autonomous_action m u e) (some _) g a f n h = cc
finish_sound key (autonomous_action m u e) none none a f n h = cc
finish_sound key (recipe_timed_action m u) none g a f n h = cc
finish_sound key (recipe_timed_action m u) (some e) none a f n h = cc

parse_instruction_sound :
    (k : Option String) (g : Option String) (d : Option ℕ) (a : RobotAction)
    → parse_instruction (record { action = k; ingredients = g; duration = d }) ≡ ok a
    → CarriesOut (record { action = k; ingredients = g; duration = d }) a
unfolding parse_instruction finish
parse_instruction_sound none g d a h = cc
parse_instruction_sound (some key) g d a h = elim (Option-cases (get_robot_action key)) [
  | inl e ↦ absurd (ground arith)
  | inr (act, e) ↦ finish_sound key act d g a e (get_robot_action_name key act e) (ground arith)
]

abbrev pub CarryOut : List Instruction → List RobotAction → Type 0
CarryOut [] [] = Unit
CarryOut [] (a ∷ xs) = ⊥
CarryOut (i ∷ is) [] = ⊥
CarryOut (i ∷ is) (a ∷ xs) = CarriesOut i a × CarryOut is xs

parse_instructions_sound :
    (p : Plan) (is : List Instruction) (q : Plan)
    → parse_instructions p is ≡ ok q
    → (xs : List RobotAction) × (q.action_queue ≡ p.action_queue ++ xs) × CarryOut is xs
unfolding parse_instructions push_action
parse_instructions_sound p [] q h = ([], ground (arith, append-nil p.action_queue), tt)
parse_instructions_sound p (i ∷ is) q h =
    let (a, e, rest) = >>=-eq-ok (parse_instruction i) _ h in
    let (xs, queue, all) = parse_instructions_sound (push_action p a) is q rest in
    (
      a ∷ xs,
      queue ∙ append_assoc p.action_queue (a ∷ []) xs,
      (parse_instruction_sound i.action i.ingredients i.duration a e, all),
    )

parse_instructions_complete :
    (p : Plan) (is : List Instruction) (xs : List RobotAction)
    → CarryOut is xs
    → (q : Plan) × (parse_instructions p is ≡ ok q) × (q.action_queue ≡ p.action_queue ++ xs)
unfolding parse_instructions push_action
parse_instructions_complete p [] [] h = (p, refl, sym (append-nil p.action_queue))
parse_instructions_complete p [] (a ∷ xs) h = absurd h
parse_instructions_complete p (i ∷ is) [] h = absurd h
parse_instructions_complete p (i ∷ is) (a ∷ xs) h =
    let (q, e, queue) = parse_instructions_complete (push_action p a) is xs h.1 in
    (q, rw (parse_instruction_complete i a h.0) e, queue ∙ append_assoc p.action_queue (a ∷ []) xs)

-- The parser accepts an entry exactly when there are actions that carry out its instructions in
-- order, and then the recipe has the given id, the entry's name and just these actions as queue.
pub parse_recipe_plan :
    (id : ℕ) (e : Entry)
    → ((r : Recipe)
        → parse_recipe id e ≡ ok r
        → (r.recipe_id ≡ id) × (r.dish_name ≡ e.name) × CarryOut e.instructions r.action_queue)
      × ((xs : List RobotAction)
          → CarryOut e.instructions xs
          → (r : Recipe) × (parse_recipe id e ≡ ok r) × (r.action_queue ≡ xs))
unfolding parse_recipe
parse_recipe_plan id e = (
  λ r h.
      let (p, parsed, built) = >>=-eq-ok (parse_instructions empty_plan e.instructions) _ h in
      let (xs, queue, all) = parse_instructions_sound empty_plan e.instructions p parsed in
      let same : r.action_queue ≡ xs = ground arith in
      (ground arith, ground arith, subst (CarryOut e.instructions) (sym same) all),
  λ xs h.
      let (p, parsed, queue) = parse_instructions_complete empty_plan e.instructions xs h in
      (
        record {
          recipe_id = id;
          dish_name = e.name;
          action_queue = p.action_queue;
          cooking_time = p.cooking_time;
          retooling_time = p.retooling_time;
        },
        rw parsed refl,
        queue,
      ),
)

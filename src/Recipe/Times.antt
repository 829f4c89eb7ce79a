-- ===== src/Recipe/Times.antt =====
-- The times of a parsed recipe against its action queue (recipe_parser.cpp).
use opcua_cps_kitchen.Base.{
  ℕ, ◌+◌, ◌*◌, ◌%◌, ◌≡◌, subst, List, [], ◌∷◌, ◌++◌, if◌then◌else◌, u64_size, arith,
}
use opcua_cps_kitchen.Actions.{RobotAction, same_tool, retooling_time}
use opcua_cps_kitchen.Recipe.{
  Plan, Instruction, Entry, Recipe, ok, back, retooling_before, push_action, parse_instruction,
  parse_instructions, >>=-eq-ok, parse_recipe, empty_plan, get_overall_time,
}

-- The sum of the durations.
unfoldable pub total_duration : List RobotAction → ℕ
total_duration [] = 0
total_duration (a ∷ xs) = a.duration + total_duration xs

-- The number of times that a tool follows another.
unfoldable pub tool_changes : List RobotAction → ℕ
tool_changes [] = 0
tool_changes (a ∷ []) = 0
tool_changes (a ∷ b ∷ xs) =
    (if same_tool b.required_tool a.required_tool then 0 else 1) + tool_changes (b ∷ xs)

total_duration-push :
    (xs : List RobotAction) (a : RobotAction)
    → total_duration (xs ++ a ∷ []) ≡ total_duration xs + a.duration
unfolding total_duration
total_duration-push [] a = omega arith
total_duration-push (b ∷ xs) a = omega (arith, total_duration-push xs a)

tool_changes-push :
    (xs : List RobotAction) (a : RobotAction)
    → tool_changes (xs ++ a ∷ []) ≡ tool_changes xs + retooling_before (back xs) a
unfolding tool_changes retooling_before
tool_changes-push [] a = omega arith
tool_changes-push (b ∷ []) a = omega arith
tool_changes-push (b ∷ c ∷ xs) a = omega (arith, tool_changes-push (c ∷ xs) a)

-- The loop keeps the two times exact, up to the width of duration_t.
pub record IsExact (p : Plan) : Type 0 where
  pub cooking : p.cooking_time ≡ total_duration p.action_queue % u64_size
  pub retooling : p.retooling_time ≡ tool_changes p.action_queue % u64_size

push_action-IsExact : (p : Plan) (a : RobotAction) → IsExact p → IsExact (push_action p a)
unfolding push_action
push_action-IsExact p a h = record {
  cooking = omega (arith, h.cooking, total_duration-push p.action_queue a);
  retooling = omega (arith, h.retooling, tool_changes-push p.action_queue a);
}

empty_plan-IsExact : IsExact empty_plan
unfolding total_duration tool_changes
empty_plan-IsExact = record { cooking = omega arith; retooling = omega arith }

parse_instructions-IsExact :
    (p : Plan) (is : List Instruction) (q : Plan)
    → IsExact p
    → parse_instructions p is ≡ ok q
    → IsExact q
unfolding parse_instructions
parse_instructions-IsExact p [] q h e = let same : p ≡ q = cc in subst IsExact same h
parse_instructions-IsExact p (i ∷ is) q h e =
    let (a, _, rest) = >>=-eq-ok (parse_instruction i) _ e in
    parse_instructions-IsExact (push_action p a) is q (push_action-IsExact p a h) rest

-- A parsed recipe has the sum of its actions' durations as cooking time, one retooling time for
-- each change of tool between consecutive actions, and their sum as overall time, all modulo the
-- width of duration_t.
pub parse_recipe_times :
    (id : ℕ) (e : Entry) (r : Recipe)
    → parse_recipe id e ≡ ok r
    → (r.cooking_time ≡ total_duration r.action_queue % u64_size)
      × (r.retooling_time ≡ tool_changes r.action_queue * retooling_time % u64_size)
      × (get_overall_time r
          ≡ (total_duration r.action_queue + tool_changes r.action_queue * retooling_time)
            % u64_size)
unfolding parse_recipe get_overall_time
parse_recipe_times id e r h =
    let (p, parsed, built) = >>=-eq-ok (parse_instructions empty_plan e.instructions) _ h in
    let exact = parse_instructions-IsExact empty_plan e.instructions p empty_plan-IsExact parsed in
    ground (arith, exact.cooking, exact.retooling)

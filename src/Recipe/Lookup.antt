-- ===== src/Recipe/Lookup.antt =====
-- Which ids the recipe map answers for (recipe_parser.cpp).
use opcua_cps_kitchen.Base.{
  ℕ, zero, suc, ◌+◌, ◌≤◌, ◌<◌, ◌≡◌, ◌⊎◌, ◌≢◌, ◌∙◌, subst, refl, ℕ_discrete, false, Option, none,
  some, [], ◌∷◌, arith,
}
use opcua_cps_kitchen.Recipe.{
  Recipe, Entry, Document, RecipeMap, ok, >>=-eq-ok, parse_recipe, find_recipe, parse_entry,
  load_recipes, recipe_parser, has_recipe, get_recipe,
}

-- What the map answers for an id, given the entry under it.
abbrev pub Answers : RecipeMap → ℕ → Option Entry → Type 0
Answers m id none = get_recipe m id ≡ none
Answers m id (some e) = (r : Recipe) × (get_recipe m id ≡ some r) × (parse_recipe id e ≡ ok r)

Answers-transport :
    (o : Option Entry) (j : ℕ) (m n : RecipeMap)
    → get_recipe n j ≡ get_recipe m j
    → Answers m j o
    → Answers n j o
Answers-transport none j m n e h = e ∙ h
Answers-transport (some x) j m n e h = (h.0, e ∙ h.1, h.2)

parse_entry-other :
    (o : Option Entry) (id j : ℕ) (m n : RecipeMap)
    → id ≢ j
    → parse_entry o id m ≡ ok n
    → get_recipe n j ≡ get_recipe m j
unfolding parse_entry get_recipe
parse_entry-other none id j m n h e = let same : m ≡ n = cc in rw same refl
parse_entry-other (some x) id j m n h e =
    let (r, parsed, built) = >>=-eq-ok (parse_recipe id x) _ e in
    let same : (id, r) ∷ m ≡ n = cc in rw (← same) (ground arith)

parse_entry_self :
    (o : Option Entry) (id : ℕ) (m n : RecipeMap)
    → get_recipe m id ≡ none
    → parse_entry o id m ≡ ok n
    → Answers n id o
unfolding parse_entry get_recipe
parse_entry_self none id m n h e = let same : m ≡ n = cc in rw (← same) h
parse_entry_self (some x) id m n h e =
    let (r, parsed, built) = >>=-eq-ok (parse_recipe id x) _ e in
    let same : (id, r) ∷ m ≡ n = cc in
    let found : get_recipe ((id, r) ∷ m) id ≡ some r = ground arith in
    (r, subst (λ k. get_recipe k id ≡ some r) same found, parsed)

-- The loop changes no answer but those for the ids that it visits.
load_recipes-outside :
    (d : Document) (rounds id j : ℕ) (m n : RecipeMap)
    → (j < id) ⊎ (id + rounds ≤ j)
    → load_recipes d rounds id m ≡ ok n
    → get_recipe n j ≡ get_recipe m j
unfolding load_recipes
load_recipes-outside d zero id j m n h e = let same : m ≡ n = cc in rw same refl
load_recipes-outside d (suc rounds) id j m n h e =
    let (m', entered, rest) = >>=-eq-ok (parse_entry (d.entry id) id m) _ e in
    load_recipes-outside d rounds (suc id) j m' n (omega arith) rest
    ∙ parse_entry-other (d.entry id) id j m m' (omega arith) entered

load_recipes-inside :
    (d : Document) (rounds id j : ℕ) (m n : RecipeMap)
    → id ≤ j
    → j < id + rounds
    → get_recipe m j ≡ none
    → load_recipes d rounds id m ≡ ok n
    → Answers n j (d.entry j)
unfolding load_recipes
load_recipes-inside d zero id j m n h k f e = absurd (omega arith)
load_recipes-inside d (suc rounds) id j m n h k f e =
    let (m', entered, rest) = >>=-eq-ok (parse_entry (d.entry id) id m) _ e in
    elim (ℕ_discrete id j) [
      | yes here ↦
          Answers-transport (d.entry j) j m' n
            (load_recipes-outside d rounds (suc id) j m' n (omega arith) rest)
            (subst (λ k. Answers m' k (d.entry k)) here
              (parse_entry_self (d.entry id) id m m' (rw here f) entered))
      | no there ↦
          load_recipes-inside d rounds (suc id) j m' n (omega arith) (omega arith)
            (parse_entry-other (d.entry id) id j m m' there entered ∙ f) rest
    ]

-- Once the parser is built, an id from 1 to the number of the document's members answers with the
-- recipe that its entry parses to, and with out_of_range if it has no entry; so does any other id.
pub recipe_parser_lookup :
    (d : Document) (m : RecipeMap)
    → recipe_parser d ≡ ok m
    → ((id : ℕ) → 1 ≤ id → id ≤ d.size → Answers m id (d.entry id))
      × ((id : ℕ) → (id ≡ 0) ⊎ (d.size < id) → (get_recipe m id ≡ none) × (has_recipe m id ≡ false))
unfolding recipe_parser has_recipe
recipe_parser_lookup d m e = (
  λ id h k. load_recipes-inside d d.size 1 id [] m h (omega arith) (unfold get_recipe in refl) e,
  λ id h.
      let missing : get_recipe m id ≡ none =
        load_recipes-outside d d.size 1 id [] m (omega arith) e ∙ nothing id in
      (missing, rw (missing_find id missing, has_recipe) refl),
)
  where
    nothing : (id : ℕ) → get_recipe [] id ≡ none
    nothing id = unfold get_recipe in refl

    missing_find : (id : ℕ) → get_recipe m id ≡ none → find_recipe m id ≡ none
    missing_find id h = unfold get_recipe in h

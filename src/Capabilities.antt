-- ===== src/Capabilities.antt =====
-- capabilities/: the profile of actions that a robot can perform (capability_parser.cpp).
-- The JSON file is read by jsoncpp; its array "capabilities" is the argument.
use opcua_cps_kitchen.Base.{
  ◌≡◌, inl, inr, refl, sym, ap, ◌∙◌, String, str_eq, eq_iff, Bool, true, false, ◌||◌, ◌&&◌, Option,
  none, some, List, [], ◌∷◌, ◌==◌, if◌then◌else◌, Bool-cases, length, All, arith,
}
use opcua_cps_kitchen.Actions.{has_action}

-- std::unordered_set<std::string>, its elements listed once, in the order of insertion.
abbrev pub Capabilities : Type 0
Capabilities = List String

unfoldable pub is_capable_to : Capabilities → String → Bool
is_capable_to [] n = false
is_capable_to (c ∷ cs) n = str_eq c n || is_capable_to cs n

unfoldable pub insert : String → Capabilities → Capabilities
unfolding is_capable_to
insert n cs = if is_capable_to cs n then cs else n ∷ cs

-- `none` is the std::invalid_argument for an action that is not in the catalogue.
unfoldable pub load_capabilities : Capabilities → List String → Option Capabilities
unfolding has_action insert
load_capabilities cs [] = some cs
load_capabilities cs (n ∷ ns) =
    let rest = load_capabilities (insert n cs) ns in if has_action n then rest else none

subset : Capabilities → Capabilities → Bool
unfolding is_capable_to
subset [] ds = true
subset (c ∷ cs) ds = is_capable_to ds c && subset cs ds

-- operator== of std::unordered_set.
unfoldable pub same_capabilities : Capabilities → Capabilities → Bool
unfolding subset
same_capabilities cs ds = length cs == length ds && subset cs ds

pub is_capable_to-insert :
    (n m : String) (cs : Capabilities)
    → is_capable_to (insert n cs) m ≡ (str_eq n m || is_capable_to cs m)
unfolding insert is_capable_to
is_capable_to-insert n m cs = elim (Bool-cases (is_capable_to cs n)) [
  | inl old ↦ elim (Bool-cases (str_eq n m)) [
    | inl e ↦ rw (old, e) (rw ((eq_iff n m).0 e) at old)
    | inr e ↦ rw (old, e)
  ]
  | inr new ↦ rw new
]

or_assoc : (a b c : Bool) → ((a || b) || c) ≡ (a || (b || c))
or_assoc true b c = refl
or_assoc false b c = refl

or_swap : (a b c : Bool) → (a || (b || c)) ≡ (b || (a || c))
or_swap true true c = refl
or_swap true false c = refl
or_swap false b c = refl

abbrev pub AreKnown : List String → Type 0
AreKnown = All (λ n. has_action n ≡ true)

-- A profile that loads lists known actions only, and makes the robot capable of exactly the
-- actions that it lists and those of the set that it is added to.
pub load_capabilities-some :
    (cs : Capabilities) (ns : List String) (ds : Capabilities)
    → load_capabilities cs ns ≡ some ds
    → AreKnown ns × ((m : String) → is_capable_to ds m ≡ (is_capable_to ns m || is_capable_to cs m))
unfolding load_capabilities is_capable_to
load_capabilities-some cs [] ds h =
    let same : ds ≡ cs = cc in (tt, λ m. ap (λ e. is_capable_to e m) same)
load_capabilities-some cs (n ∷ ns) ds h = elim (Bool-cases (has_action n)) [
  | inl known ↦
      let (all, capable) = load_capabilities-some (insert n cs) ns ds (ground arith) in
      (
        (known, all),
        λ m.
            capable m
            ∙ ap (λ b. is_capable_to ns m || b) (is_capable_to-insert n m cs)
            ∙ or_swap (is_capable_to ns m) (str_eq n m) (is_capable_to cs m)
            ∙ sym (or_assoc (str_eq n m) (is_capable_to ns m) (is_capable_to cs m)),
      )
  | inr unknown ↦ absurd (ground arith)
]

-- A profile of known actions does load.
pub load_capabilities_total :
    (cs : Capabilities) (ns : List String)
    → AreKnown ns
    → (ds : Capabilities) × (load_capabilities cs ns ≡ some ds)
unfolding load_capabilities
load_capabilities_total cs [] h = (cs, refl)
load_capabilities_total cs (n ∷ ns) h =
    let (ds, e) = load_capabilities_total (insert n cs) ns h.1 in (ds, ground arith)

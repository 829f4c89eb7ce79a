-- ===== src/Mape/Choice.antt =====
-- Which robot the policies choose (kitchen_mape.cpp).
use opcua_cps_kitchen.Base.{
  ℕ, suc, get_elem?, ◌≤◌, ◌≡◌, refl, inl, inr, String, true, false, Option, none, some, List, [],
  ◌∷◌, All, Bool-cases, arith,
}
use opcua_cps_kitchen.Actions.{RobotAction}
use opcua_cps_kitchen.Robot.State.{ok}
use opcua_cps_kitchen.Mape.{
  RobotView, Profiles, is_suitable, find_robot, simple_capability_check, rearrange,
  simple_rearranging, swap_profiles, simple_reconfiguration, on_new_order,
}

-- The robots stand by falling positions.
abbrev pub Falls : List RobotView → Type 0
Falls [] = Unit
Falls (r ∷ rs) = All (λ x. x.position ≤ r.position) rs × Falls rs

-- The robot is one of the list.
abbrev pub IsListed : RobotView → List RobotView → Type 0
IsListed r rs = (i : ℕ) × (get_elem? rs i ≡ some r)

-- What a choice for an action means: no robot is suitable, or the chosen one is, of the list, and
-- it stands at the highest position of those.
abbrev pub IsChoice : String → List RobotView → Option RobotView → Type 0
IsChoice name rs none = All (λ x. is_suitable name x ≡ false) rs
IsChoice name rs (some r) =
    IsListed r rs
    × (is_suitable name r ≡ true)
    × All (λ x. is_suitable name x ≡ true → x.position ≤ r.position) rs

weaken :
    (name : String) (r : RobotView) (rs : List RobotView)
    → All (λ x. x.position ≤ r.position) rs
    → All (λ x. is_suitable name x ≡ true → x.position ≤ r.position) rs
weaken name r [] h = tt
weaken name r (x ∷ rs) h = (λ e. h.0, weaken name r rs h.1)

IsChoice-cons :
    (name : String) (r : RobotView) (rs : List RobotView) (o : Option RobotView)
    → is_suitable name r ≡ false
    → IsChoice name rs o
    → IsChoice name (r ∷ rs) o
IsChoice-cons name r rs none out h = (out, h)
IsChoice-cons name r rs (some x) out ((i, at), good, best) =
    ((suc i, at), good, (λ e. absurd cc, best))

pub find_robot-IsChoice :
    (name : String) (rs : List RobotView) → Falls rs → IsChoice name rs (find_robot name rs)
unfolding find_robot
find_robot-IsChoice name [] h = tt
find_robot-IsChoice name (r ∷ rs) h = elim (Bool-cases (is_suitable name r)) [
  | inl good ↦ rw good ((0, refl), good, (λ e. omega arith, weaken name r rs h.0))
  | inr bad ↦
      rw bad (IsChoice-cons name r rs (find_robot name rs) bad (find_robot-IsChoice name rs h.1))
]

rearrange-suitable :
    (rs : List RobotView) (q : List RobotAction) (o : Option RobotView)
    → (rearrange rs q o).suitable_robot ≡ o
unfolding rearrange
rearrange-suitable rs q none = refl
rearrange-suitable rs q (some r) = refl

pub swap_profiles-suitable :
    (profiles : Profiles) (rs : List RobotView) (name : String) (q : List RobotAction)
    (o : Option RobotView)
    → (swap_profiles profiles rs name q o).suitable_robot ≡ o
unfolding swap_profiles
swap_profiles-suitable profiles rs name q none = refl
swap_profiles-suitable profiles rs name q (some r) = refl

-- For an order with actions left, the three policies return the same robot: of the robots that
-- they are given, which come by falling positions, one that is not being adapted and is capable
-- of the next action, at the highest position of those, or none if there is no such robot.
pub on_new_order-IsChoice :
    (profiles : Profiles) (rs : List RobotView) (a : RobotAction) (q : List RobotAction)
    → Falls rs
    → IsChoice a.name rs (on_new_order profiles rs (a ∷ q)).suitable_robot
      × ((simple_rearranging rs (a ∷ q)).suitable_robot
          ≡ (on_new_order profiles rs (a ∷ q)).suitable_robot)
      × (simple_capability_check rs (a ∷ q)
          ≡ ok (record {
            suitable_robot = (on_new_order profiles rs (a ∷ q)).suitable_robot;
            requests = [];
          }))
unfolding on_new_order simple_reconfiguration simple_rearranging simple_capability_check
on_new_order-IsChoice profiles rs a q h =
    rw
      (
        swap_profiles-suitable profiles rs a.name q (find_robot a.name rs),
        rearrange-suitable rs q (find_robot a.name rs),
      )
      (find_robot-IsChoice a.name rs h, refl, refl)

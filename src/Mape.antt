-- ===== src/Mape.antt =====
-- The adaptation policies of the controller (kitchen_mape.cpp, mape.hpp). A robot is what the
-- policies ask of it, and what they ask of the controller by its two callbacks is a list, in the
-- order of the calls. The robots come in the order of the controller's map, by falling positions.
pub mod Choice
pub mod Requests
use opcua_cps_kitchen.Base.{
  ℕ, String, Bool, true, false, not, ◌&&◌, Option, none, some, List, [], ◌∷◌, ltb, if◌then◌else◌,
}
use opcua_cps_kitchen.Actions.{RobotAction}
use opcua_cps_kitchen.Capabilities.{Capabilities, is_capable_to}
use opcua_cps_kitchen.Robot.State.{Outcome, ok, fault, empty_queue}

-- The getters of remote_robot, and the key under which the controller's map holds the robot, which
-- stands for the pointer.
pub record RobotView : Type 0 where
  pub key : ℕ
  pub position : ℕ
  pub is_adaptivity_pending : Bool
  pub capabilities : Capabilities

-- The profiles by the names of their files.
abbrev pub Profiles : Type 0
Profiles = List (String × Capabilities)

pub data Request : Type 0 where
  swap_robot_positions : ℕ → ℕ → Request
  reconfigure_robot : ℕ → String → Request

-- The robot that a policy returns, and its requests.
pub record Decision : Type 0 where
  pub suitable_robot : Option RobotView
  pub requests : List Request

-- The class mape: what a policy decides on the robots and the actions that are left of an order. It
-- decides before its callbacks run.
abbrev pub Policy : Type 0
Policy = List RobotView → List RobotAction → Outcome Decision

unfoldable pub is_suitable : String → RobotView → Bool
is_suitable name r = not r.is_adaptivity_pending && is_capable_to r.capabilities name

-- The loop that looks for a robot.
unfoldable pub find_robot : String → List RobotView → Option RobotView
unfolding is_suitable
find_robot name [] = none
find_robot name (r ∷ rs) =
    let rest = find_robot name rs in if is_suitable name r then some r else rest

-- The loop that looks for a profile; the name is empty if there is none.
unfoldable pub find_profile : String → Profiles → String
find_profile name [] = ""
find_profile name ((file, caps) ∷ ps) =
    let rest = find_profile name ps in if is_capable_to caps name then file else rest

-- The do-while loop, after its first round.
unfoldable pub drop_capable : Capabilities → List RobotAction → List RobotAction
drop_capable caps [] = []
drop_capable caps (a ∷ q) =
    let rest = drop_capable caps q in if is_capable_to caps a.name then rest else a ∷ q

unfoldable pub simple_capability_check : List RobotView → List RobotAction → Outcome Decision
unfolding find_robot
simple_capability_check rs [] = fault empty_queue
simple_capability_check rs (a ∷ q) =
    ok (record { suitable_robot = find_robot a.name rs; requests = [] })

-- The robot after next, for the actions that are left.
unfoldable pub robot_after_next : List RobotView → List RobotAction → Option RobotView
unfolding find_robot
robot_after_next rs [] = none
robot_after_next rs (a ∷ q) = find_robot a.name rs

-- get_position of the suitable robot is beyond that of the robot after next.
unfoldable pub is_behind : RobotView → RobotView → Bool
is_behind r after = ltb after.position r.position

unfoldable pub swap_requests : RobotView → Option RobotView → List Request
unfolding is_behind
swap_requests r none = []
swap_requests r (some after) =
    if is_behind r after then swap_robot_positions r.position after.position ∷ [] else []

unfoldable pub rearrange : List RobotView → List RobotAction → Option RobotView → Decision
unfolding robot_after_next swap_requests drop_capable
rearrange rs q none = record { suitable_robot = none; requests = [] }
rearrange rs q (some r) = record {
  suitable_robot = some r;
  requests = swap_requests r (robot_after_next rs (drop_capable r.capabilities q));
}

unfoldable pub simple_rearranging : List RobotView → List RobotAction → Decision
unfolding rearrange find_robot
simple_rearranging rs [] = record { suitable_robot = none; requests = [] }
simple_rearranging rs (a ∷ q) = rearrange rs q (find_robot a.name rs)

-- The name of the first action that is left, empty if none is.
unfoldable pub next_name : List RobotAction → String
next_name [] = ""
next_name (a ∷ q) = a.name

-- The test of the profiles' names guards the log line only, so the calls follow in any case.
unfoldable pub reconfigure_requests :
    Profiles → String → String → RobotView → Option RobotView → List Request
unfolding is_behind find_profile
reconfigure_requests profiles first after_next r none = []
reconfigure_requests profiles first after_next r (some after) =
    if is_behind r after
    then reconfigure_robot r.position (find_profile after_next profiles)
      ∷ reconfigure_robot after.position (find_profile first profiles)
      ∷ []
    else []

unfoldable pub swap_profiles :
    Profiles → List RobotView → String → List RobotAction → Option RobotView → Decision
unfolding reconfigure_requests drop_capable robot_after_next next_name
swap_profiles profiles rs first q none = record { suitable_robot = none; requests = [] }
swap_profiles profiles rs first q (some r) =
    let rest = drop_capable r.capabilities q in
    record {
      suitable_robot = some r;
      requests = reconfigure_requests profiles first (next_name rest) r (robot_after_next rs rest);
    }

unfoldable pub simple_reconfiguration : Profiles → List RobotView → List RobotAction → Decision
unfolding swap_profiles find_robot
simple_reconfiguration profiles rs [] = record { suitable_robot = none; requests = [] }
simple_reconfiguration profiles rs (a ∷ q) =
    swap_profiles profiles rs a.name q (find_robot a.name rs)

-- The policy that the controller runs.
unfoldable pub on_new_order : Profiles → List RobotView → List RobotAction → Decision
unfolding simple_reconfiguration
on_new_order profiles rs q = simple_reconfiguration profiles rs q

-- The class kitchen_mape, with the profiles that its constructor has read.
unfoldable pub kitchen_mape : Profiles → Policy
unfolding on_new_order
kitchen_mape profiles rs q = ok (on_new_order profiles rs q)

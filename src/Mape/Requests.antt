-- ===== src/Mape/Requests.antt =====
-- What the policies ask of the controller (kitchen_mape.cpp).
use opcua_cps_kitchen.Base.{◌<◌, ◌≤◌, ◌≡◌, ◌⊎◌, false, none, some, List, [], ◌∷◌}
use opcua_cps_kitchen.Actions.{RobotAction}
use opcua_cps_kitchen.Capabilities.{Capabilities, is_capable_to}
use opcua_cps_kitchen.Mape.Choice.{IsChoice}
use opcua_cps_kitchen.Mape.{
  RobotView, Profiles, swap_robot_positions, reconfigure_robot, find_profile, drop_capable,
  simple_rearranging, on_new_order,
}

-- The requests of a policy are made for the robot that it chooses, which stands behind the robot
-- that would be chosen for the first action that is left over.
pub record IsBehind (profiles : Profiles) (rs : List RobotView) (a : RobotAction)
    (q : List RobotAction) : Type 0 where
  pub robot : RobotView
  pub after : RobotView
  pub action : RobotAction
  pub actions : List RobotAction
  pub left : drop_capable robot.capabilities q ≡ action ∷ actions
  pub beyond : is_capable_to robot.capabilities action.name ≡ false
  pub suitable : (on_new_order profiles rs (a ∷ q)).suitable_robot ≡ some robot
  pub chosen : IsChoice a.name rs (some robot)
  pub chosen_after : IsChoice action.name rs (some after)
  pub before : after.position < robot.position
  pub reconfigures :
      (on_new_order profiles rs (a ∷ q)).requests
      ≡ reconfigure_robot robot.position (find_profile action.name profiles)
        ∷ reconfigure_robot after.position (find_profile a.name profiles)
        ∷ []
  pub swaps :
      (simple_rearranging rs (a ∷ q)).requests
      ≡ swap_robot_positions robot.position after.position ∷ []

-- The chosen robot stands before the one for the first action that is left over, or at its place.
pub record IsBefore (rs : List RobotView) (robot : RobotView) (q : List RobotAction) : Type 0 where
  pub after : RobotView
  pub action : RobotAction
  pub actions : List RobotAction
  pub left : drop_capable robot.capabilities q ≡ action ∷ actions
  pub chosen_after : IsChoice action.name rs (some after)
  pub before : robot.position ≤ after.position

-- No robot is capable of the first action that is left over.
pub record IsAlone (rs : List RobotView) (robot : RobotView) (q : List RobotAction) : Type 0 where
  pub action : RobotAction
  pub actions : List RobotAction
  pub left : drop_capable robot.capabilities q ≡ action ∷ actions
  pub nobody : IsChoice action.name rs none

-- Why a policy asks for nothing: it chooses no robot, or the chosen one leaves no action over,
-- leaves one over that nobody can do, or stands before the robot for it.
pub IsSettled : Profiles → List RobotView → RobotAction → List RobotAction → Type 0
IsSettled profiles rs a q =
    ((on_new_order profiles rs (a ∷ q)).suitable_robot ≡ none)
    ⊎ ((robot : RobotView) × ((on_new_order profiles rs (a ∷ q)).suitable_robot ≡ some robot)
        × ((drop_capable robot.capabilities q ≡ []) ⊎ (IsAlone rs robot q ⊎ IsBefore rs robot q)))

pub Quiet : Profiles → List RobotView → RobotAction → List RobotAction → Type 0
Quiet profiles rs a q =
    ((on_new_order profiles rs (a ∷ q)).requests ≡ [])
    × ((simple_rearranging rs (a ∷ q)).requests ≡ [])
    × IsSettled profiles rs a q

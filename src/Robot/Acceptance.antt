-- ===== src/Robot/Acceptance.antt =====
-- Accepted tasks (receive_task of robot.cpp).
use opcua_cps_kitchen.Base.{ℕ, ◌≡◌, true, some, List, ◌∷◌}
use opcua_cps_kitchen.Actions.{RobotAction}
use opcua_cps_kitchen.Capabilities.{Capabilities, is_capable_to}
use opcua_cps_kitchen.Recipe.{Recipe, get_recipe}
use opcua_cps_kitchen.Robot.State.{available, Robot, ok}
use opcua_cps_kitchen.Robot.Work.{pop_steps}

-- Why a task is accepted: the robot is available where the caller thinks it is, and knows the
-- recipe, whose action after the processed steps it is capable of.
pub record IsAcceptable (id processed addressed : ℕ) (r : Robot) : Type 0 where
  pub incoming : Recipe
  pub action : RobotAction
  pub actions : List RobotAction
  pub state : r.robot_state ≡ available
  pub place : addressed ≡ r.position
  pub known : get_recipe r.recipe_parser id ≡ some incoming
  pub left : pop_steps processed incoming.action_queue ≡ ok (action ∷ actions)
  pub capable : is_capable_to r.capability_parser action.name ≡ true

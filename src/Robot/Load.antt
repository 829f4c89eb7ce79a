-- ===== src/Robot/Load.antt =====
-- The work that a robot has accepted, and the attributes OVERALL_TIME and LAST_EQUIPPED_TOOL
-- (robot.cpp).
pub mod Orders
pub mod Cooking
pub mod Starting
pub mod Tasks
pub mod Timers
pub mod Steps
use opcua_cps_kitchen.Base.{
  ℕ, zero, suc, ◌+◌, ◌%◌, ◌≤◌, ◌<◌, ◌≡◌, Bool, true, false, Option, none, some, List, [], ◌∷◌, All,
  if◌then◌else◌, u32_size, u64_size,
}
use opcua_cps_kitchen.Actions.{RobotTool, RobotAction, same_tool}
use opcua_cps_kitchen.Capabilities.{Capabilities, is_capable_to}
use opcua_cps_kitchen.Recipe.{Recipe, RecipeMap, get_recipe}
use opcua_cps_kitchen.Robot.State.{Order, Timer, retooling, passing, completing, moving, Robot}
use opcua_cps_kitchen.Robot.Work.{retooling_for}

-- The time that a robot with the tool needs for the actions that it is capable of, up to the first
-- other one, and the tool that it has then.
unfoldable pub work_time : Capabilities → RobotTool → List RobotAction → ℕ
unfolding retooling_for
work_time caps tool [] = 0
work_time caps tool (a ∷ q) =
    if is_capable_to caps a.name
    then retooling_for tool a + a.duration + work_time caps a.required_tool q
    else 0

unfoldable pub work_tool : Capabilities → RobotTool → List RobotAction → RobotTool
work_tool caps tool [] = tool
work_tool caps tool (a ∷ q) =
    if is_capable_to caps a.name then work_tool caps a.required_tool q else tool

-- The same for orders in a row.
unfoldable pub queue_time : Capabilities → RobotTool → List Order → ℕ
queue_time caps tool [] = 0
queue_time caps tool (o ∷ os) =
    work_time caps tool o.action_queue + queue_time caps (work_tool caps tool o.action_queue) os

unfoldable pub queue_tool : Capabilities → RobotTool → List Order → RobotTool
queue_tool caps tool [] = tool
queue_tool caps tool (o ∷ os) = queue_tool caps (work_tool caps tool o.action_queue) os

-- What is left of the dish in process: the rest of the running action and the actions behind it,
-- or, before a change of tool, the actions from the one in front.
abbrev pub remaining : Option Timer → List RobotAction → Capabilities → RobotTool → ℕ → ℕ
remaining none q caps tool duration = 0
remaining (some retooling) q caps tool duration = work_time caps tool q
remaining (some passing) [] caps tool duration = 0
remaining (some passing) (a ∷ q) caps tool duration = duration + work_time caps tool q
remaining (some completing) q caps tool duration = 0
remaining (some (moving ms)) q caps tool duration = 0

-- The tool at the end of the dish in process.
abbrev pub next_tool : Option Timer → List RobotAction → Capabilities → RobotTool → RobotTool
next_tool none q caps tool = tool
next_tool (some retooling) q caps tool = work_tool caps tool q
next_tool (some passing) [] caps tool = tool
next_tool (some passing) (a ∷ q) caps tool = work_tool caps tool q
next_tool (some completing) q caps tool = tool
next_tool (some (moving ms)) q caps tool = tool

abbrev pub InProcess : Option Timer → List RobotAction → Capabilities → RobotTool → ℕ → Type 0
InProcess none q caps tool duration = Unit {0}
InProcess (some retooling) [] caps tool duration = ⊥
InProcess (some retooling) (a ∷ q) caps tool duration =
    (is_capable_to caps a.name ≡ true) × (same_tool a.required_tool tool ≡ false)
InProcess (some passing) [] caps tool duration = ⊥
InProcess (some passing) (a ∷ q) caps tool duration = (1 ≤ duration) × (duration < u64_size)
InProcess (some completing) q caps tool duration = Unit {0}
InProcess (some (moving ms)) q caps tool duration = Unit {0}

abbrev pub remaining_of : Robot → ℕ
remaining_of r =
    remaining r.timer r.action_queue_in_process r.capability_parser r.current_tool
      r.current_action_duration

abbrev pub next_tool_of : Robot → RobotTool
next_tool_of r = next_tool r.timer r.action_queue_in_process r.capability_parser r.current_tool

-- An action takes time, and a duration_t holds it.
abbrev pub IsTimed : RobotAction → Type 0
IsTimed a = (1 ≤ a.duration) × (a.duration < u64_size)

abbrev pub AreTimed : RecipeMap → Type 0
AreTimed m = (id : ℕ) (c : Recipe) → get_recipe m id ≡ some c → All IsTimed c.action_queue

-- The attributes report the accepted work, modulo the width of the attribute.
pub record Reports (r : Robot) : Type 0 where
  pub time :
      r.attributes.overall_time
      ≡ (remaining_of r + queue_time r.capability_parser (next_tool_of r) r.order_queue) % u32_size
  pub tool :
      r.attributes.last_equipped_tool
      ≡ queue_tool r.capability_parser (next_tool_of r) r.order_queue

pub record IsAccounted (r : Robot) : Type 0 where
  pub reports : Reports r
  pub in_process :
      InProcess r.timer r.action_queue_in_process r.capability_parser r.current_tool
        r.current_action_duration
  pub timed_process : All IsTimed r.action_queue_in_process
  pub timed_orders : All (λ o. All IsTimed o.action_queue) r.order_queue
  pub timed_recipes : AreTimed r.recipe_parser

-- Between two actions: the dish in process is still to be worked on with the current tool.
pub record IsOpen (r : Robot) : Type 0 where
  pub time :
      r.attributes.overall_time
      ≡ (work_time r.capability_parser r.current_tool r.action_queue_in_process
          + queue_time r.capability_parser
              (work_tool r.capability_parser r.current_tool r.action_queue_in_process)
              r.order_queue)
        % u32_size
  pub tool :
      r.attributes.last_equipped_tool
      ≡ queue_tool r.capability_parser
          (work_tool r.capability_parser r.current_tool r.action_queue_in_process)
          r.order_queue
  pub waits : r.timer ≡ none
  pub timed_process : All IsTimed r.action_queue_in_process
  pub timed_orders : All (λ o. All IsTimed o.action_queue) r.order_queue
  pub timed_recipes : AreTimed r.recipe_parser

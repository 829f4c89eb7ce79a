-- ===== src/Robot/State.antt =====
-- The state of a robot agent (robot.hpp, robot_state.hpp). The members that hold clients, threads
-- and the OPC UA server are left out; the attribute nodes that the handlers read back are a record.
use opcua_cps_kitchen.Base.{ℕ, ◌≡◌, refl, Bool, String, Option, List}
use opcua_cps_kitchen.Actions.{RobotTool, RobotAction}
use opcua_cps_kitchen.Capabilities.{Capabilities}
use opcua_cps_kitchen.Recipe.{RecipeMap}

-- enum class robot_state.
pub data RobotState : Type 0 where
  available rearranging reconfiguring : RobotState

unfoldable pub robot_state_to_string : RobotState → String
robot_state_to_string available = "AVAILABLE"
robot_state_to_string rearranging = "REARRANGING"
robot_state_to_string reconfiguring = "RECONFIGURING"

-- struct order.
pub record Order : Type 0 where
  pub recipe_id : ℕ
  pub overall_processed_steps : ℕ
  pub overall_processing_steps : ℕ
  pub processable_steps : ℕ
  pub action_queue : List RobotAction

-- The attribute nodes of the robot type.
pub record Attributes : Type 0 where
  pub position : ℕ
  pub recipe_id : ℕ
  pub dish_name : String
  pub action_name : String
  pub ingredients : String
  pub overall_time : ℕ
  pub current_tool : String
  pub last_equipped_tool : RobotTool
  pub capabilities : Capabilities
  pub processed_steps : ℕ
  pub processable_steps : ℕ
  pub overall_processed_steps : ℕ
  pub overall_processing_steps : ℕ
  pub availability : Bool
  pub new_position_commit_is_pending : Bool

-- What the steady timer waits for, `moving` with the milliseconds of the wait.
pub data Timer : Type 0 where
  retooling passing completing : Timer
  moving : ℕ → Timer

-- What is posted to the io_context.
pub data Task : Type 0 where
  receive : ℕ → ℕ → Task
  target : ℕ → Task
  profile : Task
  commit : Task
  cook : Task

pub record Robot : Type 0 where
  pub position : ℕ
  pub conveyor_size : ℕ
  pub server_endpoint : String
  pub current_tool : RobotTool
  pub order_queue : List Order
  pub current_action_duration : ℕ
  pub action_queue_in_process : List RobotAction
  pub preparing_dish : Bool
  pub already_rearranging : Bool
  pub already_reconfiguring : Bool
  pub is_dish_finished : Bool
  pub running : Bool
  pub pending_pickup : Bool
  pub robot_state : RobotState
  pub new_target_position : ℕ
  pub new_capabilities_profile : String
  pub recipe_parser : RecipeMap
  pub capability_parser : Capabilities
  pub attributes : Attributes
  pub timer : Option Timer
  pub tasks : List Task

-- The ways in which a handler does not return: an exception that nothing catches, `front` or `pop`
-- on an empty queue, a lock of the mutex that the thread holds already, or a wait on the conveyor
-- that is not over.
pub data Fault : Type 0 where
  unknown_recipe empty_queue deadlock invalid_profile no_capability blocked : Fault

pub data Outcome {ℓ} (A : Type ℓ) : Type ℓ where
  ok : A → Outcome A
  fault : Fault → Outcome A

infixl 5 ◌>>=◌
abbrev pub ◌>>=◌ {κ ℓ} : {B : Type κ} {A : Type ℓ} → Outcome A → (A → Outcome B) → Outcome B
fault e >>= next = fault e
ok x >>= next = next x

abbrev pub or_fault {ℓ} : {A : Type ℓ} → Option A → Fault → Outcome A
or_fault Option.none e = fault e
or_fault (Option.some a) e = ok a

-- Where a chain succeeds, its first part and the rest of it do.
pub >>=-eq-ok {κ ℓ} :
    {B : Type κ} {y : B} {A : Type ℓ} (first : Outcome A) (next : A → Outcome B)
    → (first >>= next) ≡ ok y
    → (x : A) × (first ≡ ok x) × (next x ≡ ok y)
>>=-eq-ok (fault e) next h = cc
>>=-eq-ok (ok x) next h = (x, refl, h)

pub or_fault-eq-ok {ℓ} :
    {A : Type ℓ} (o : Option A) (x : Fault) {a : A} → or_fault o x ≡ ok a → o ≡ Option.some a
or_fault-eq-ok Option.none x h = cc
or_fault-eq-ok (Option.some b) x h = cc

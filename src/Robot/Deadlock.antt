-- ===== src/Robot/Deadlock.antt =====
-- Reconfiguring a robot that was given a task just before (robot.cpp).
use opcua_cps_kitchen.Base.{
  ℕ, ◌%◌, ◌≡◌, refl, ap, ◌∙◌, String, true, false, Option, none, some, List, [], ◌∷◌, ◌++◌,
  get_elem?, u32_size, length, arith,
}
use opcua_cps_kitchen.Capabilities.{Capabilities, is_capable_to, same_capabilities}
use opcua_cps_kitchen.Recipe.{Recipe, get_recipe, has_recipe}
use opcua_cps_kitchen.Actions.{
  Action, RobotAction, get_robot_action, get_required_tool, robot_tool_to_string,
}
use opcua_cps_kitchen.Robot.State.{
  available, reconfiguring, Order, completing, Task, receive, profile, Robot, ok, fault, deadlock,
}
use opcua_cps_kitchen.Robot.Work.{
  Attempt, new_order, pop_steps, enqueue, cook_next_order, handle_receive_task, load_profile,
  set_current_and_last_equipped_tool, clear_orders, receive_again, complete_reconfiguration,
}
use opcua_cps_kitchen.Robot.Methods.{uint32, string, good, receive_task, reconfigure}
use opcua_cps_kitchen.Robot.Loop.{
  start_profile, run_task, run_timer, Step, task, call_receive_task, call_reconfigure, Reach, here,
  next,
}

-- The thread holds state_mutex_ when it gives the first order to a robot that does not cook.
receive_again-deadlock :
    (rounds : List Attempt) (o : Order) (os : List Order) (r : Robot) (c : Recipe)
    (q : List RobotAction)
    → r.preparing_dish ≡ false
    → get_recipe r.recipe_parser o.recipe_id ≡ some c
    → pop_steps o.overall_processed_steps c.action_queue ≡ ok q
    → receive_again rounds (o ∷ os) r ≡ fault deadlock
unfolding receive_again handle_receive_task has_recipe get_recipe enqueue cook_next_order
receive_again-deadlock rounds o os r c q idle known popped = ground arith

-- Loading the profile and choosing a tool leave the orders and the recipes alone.
equipped-keeps :
    (choice : ℕ) (caps : Capabilities) (r equipped : Robot)
    → set_current_and_last_equipped_tool choice (load_profile caps r) ≡ ok equipped
    → (equipped.preparing_dish ≡ r.preparing_dish) × (equipped.recipe_parser ≡ r.recipe_parser)
unfolding load_profile set_current_and_last_equipped_tool
equipped-keeps choice caps r equipped e = ground arith

pub complete_reconfiguration-deadlock :
    (profiles : String → Option Capabilities) (choice : ℕ) (rounds : List Attempt) (o : Order)
    (os : List Order) (r equipped : Robot) (caps : Capabilities) (c : Recipe) (q : List RobotAction)
    → profiles r.new_capabilities_profile ≡ some caps
    → set_current_and_last_equipped_tool choice (load_profile caps r) ≡ ok equipped
    → r.preparing_dish ≡ false
    → r.order_queue ≡ o ∷ os
    → get_recipe r.recipe_parser o.recipe_id ≡ some c
    → pop_steps o.overall_processed_steps c.action_queue ≡ ok q
    → complete_reconfiguration profiles choice rounds r ≡ fault deadlock
unfolding complete_reconfiguration clear_orders
complete_reconfiguration-deadlock profiles choice rounds o os r equipped caps c q loads equips idle
      orders known popped =
    let (idles, recipes) = equipped-keeps choice caps r equipped equips in
    let stuck =
      receive_again-deadlock rounds o os (clear_orders equipped) c q (idles ∙ idle)
        (ap (λ m. get_recipe m o.recipe_id) recipes ∙ known) popped in
    rw (loads, equips, orders, stuck) refl

-- The robot at rest with the task posted, then with the request for the profile behind it, then
-- with the order and the timer set.
abbrev given_task : ℕ → Robot → Robot
given_task id r = record r { tasks = receive id 0 ∷ [] }

abbrev given_profile : ℕ → String → Robot → Robot
given_profile id name r = record r {
  robot_state = reconfiguring;
  new_capabilities_profile = name;
  tasks = receive id 0 ∷ profile ∷ [];
  attributes = record (r.attributes) { availability = false };
}

abbrev accepted : ℕ → String → Recipe → List Task → Robot → Order
accepted id name c ts r =
    new_order id 0 (length c.action_queue % u32_size) c.action_queue
      (record (given_profile id name r) { tasks = ts })

abbrev with_order : ℕ → String → Recipe → List Task → Robot → Robot
with_order id name c ts r =
    let r' =
      enqueue id 0 (length c.action_queue % u32_size) c.action_queue
        (record (given_profile id name r) { tasks = ts }) in
    record r' { already_reconfiguring = true; timer = some completing; tasks = ts }

-- A robot at rest: it is available, and nothing is posted or under way.
pub record IsAtRest (r : Robot) : Type 0 where
  pub runs : r.running ≡ true
  pub state : r.robot_state ≡ available
  pub idle : r.preparing_dish ≡ false
  pub not_reconfiguring : r.already_reconfiguring ≡ false
  pub no_timer : r.timer ≡ none
  pub no_tasks : r.tasks ≡ []
  pub no_orders : r.order_queue ≡ []

task_step :
    (profiles : String → Option Capabilities) (id : ℕ) (r : Robot) (c : Recipe) (a : RobotAction)
    (acts : List RobotAction)
    → IsAtRest r
    → get_recipe r.recipe_parser id ≡ some c
    → c.action_queue ≡ a ∷ acts
    → is_capable_to r.capability_parser a.name ≡ true
    → Step profiles r (given_task id r)
unfolding receive_task
task_step profiles id r c a acts rest known queue capable =
    call_receive_task (uint32 id ∷ uint32 0 ∷ uint32 r.position ∷ []) (good (r.position, true))
      (ground arith)

profile_step :
    (profiles : String → Option Capabilities) (id : ℕ) (name : String) (r : Robot)
    (caps : Capabilities)
    → IsAtRest r
    → profiles name ≡ some caps
    → same_capabilities caps r.capability_parser ≡ false
    → Step profiles (given_task id r) (given_profile id name r)
unfolding reconfigure
profile_step profiles id name r caps rest loads other =
    call_reconfigure true (string name ∷ []) (good true) (ground arith)

order_step :
    (profiles : String → Option Capabilities) (id : ℕ) (name : String) (r : Robot) (c : Recipe)
    → IsAtRest r
    → get_recipe r.recipe_parser id ≡ some c
    → Step profiles (given_profile id name r) (with_order id name c (profile ∷ []) r)
unfolding run_task handle_receive_task enqueue get_recipe has_recipe
order_step profiles id name r c rest known =
    task [] (receive id 0) (profile ∷ []) (rest.runs) refl (ground arith)

wait_step :
    (profiles : String → Option Capabilities) (id : ℕ) (name : String) (r : Robot) (c : Recipe)
    → IsAtRest r
    → Step profiles (with_order id name c (profile ∷ []) r) (with_order id name c [] r)
unfolding run_task enqueue start_profile
wait_step profiles id name r c rest = task [] profile [] (rest.runs) refl (ground arith)

-- The task is posted, then the request for the profile; the worker runs the one, and the other.
pub record IsRace (profiles : String → Option Capabilities) (id : ℕ) (name : String) (r s : Robot)
    : Type 0 where
  pub given : Robot
  pub turned : Robot
  pub holding : Robot
  pub order : Order
  pub accepts_task :
      receive_task (uint32 id ∷ uint32 0 ∷ uint32 r.position ∷ []) r
      ≡ ok (given, good (r.position, true))
  pub accepts_profile : reconfigure profiles true (string name ∷ []) given ≡ ok (turned, good true)
  pub posted : turned.tasks ≡ receive id 0 ∷ profile ∷ []
  pub takes_order : run_task [] (receive id 0) (record turned { tasks = profile ∷ [] }) ≡ ok holding
  pub recipe : order.recipe_id ≡ id
  pub queued : holding.order_queue ≡ order ∷ []
  pub still_posted : holding.tasks ≡ profile ∷ []
  pub begins_wait : run_task [] profile (record holding { tasks = [] }) ≡ ok s
  pub waits : s.timer ≡ some completing
  pub still_queued : s.order_queue ≡ order ∷ []
  pub no_tasks : s.tasks ≡ []
  pub runs : s.running ≡ true

race :
    (profiles : String → Option Capabilities) (id : ℕ) (name : String) (r : Robot) (c : Recipe)
    (a : RobotAction) (acts : List RobotAction) (caps : Capabilities)
    → IsAtRest r
    → get_recipe r.recipe_parser id ≡ some c
    → c.action_queue ≡ a ∷ acts
    → is_capable_to r.capability_parser a.name ≡ true
    → profiles name ≡ some caps
    → same_capabilities caps r.capability_parser ≡ false
    → IsRace profiles id name r (with_order id name c [] r)
unfolding receive_task reconfigure run_task handle_receive_task enqueue get_recipe has_recipe
    start_profile
race profiles id name r c a acts caps rest known queue capable loads other = record {
  given = given_task id r;
  turned = given_profile id name r;
  holding = with_order id name c (profile ∷ []) r;
  order = accepted id name c (profile ∷ []) r;
  accepts_task = ground arith;
  accepts_profile = ground arith;
  posted = refl;
  takes_order = ground arith;
  recipe = refl;
  queued = ap (λ os. os ++ accepted id name c [] r ∷ []) rest.no_orders;
  still_posted = refl;
  begins_wait = ground arith;
  waits = refl;
  still_queued = ap (λ os. os ++ accepted id name c [] r ∷ []) rest.no_orders;
  no_tasks = refl;
  runs = rest.runs;
}

-- The tool of a known action can be set.
tool_set :
    (choice : ℕ) (nm : String) (act : Action) (caps : Capabilities) (r : Robot)
    → get_elem? caps choice ≡ some nm
    → get_robot_action nm ≡ some act
    → (equipped : Robot) × (set_current_and_last_equipped_tool choice (load_profile caps r)
        ≡ ok equipped)
unfolding set_current_and_last_equipped_tool load_profile
tool_set choice nm act caps r drawn known =
    let tool = get_required_tool act in
    let loaded = load_profile caps r in
    (
      record loaded {
        current_tool = tool;
        attributes = record (loaded.attributes) {
          current_tool = robot_tool_to_string tool;
          last_equipped_tool = tool;
        };
      },
      rw (drawn, known) refl,
    )

-- A robot at rest is given a task that it is capable to begin, and then, before its worker has
-- taken the order up, is asked for another profile; both calls answer that they accept. The
-- worker's two handlers put the order into the queue, and make the robot wait for the end of the
-- reconfiguration. When that wait is over, complete_reconfiguration locks state_mutex_ twice,
-- whichever of the profile's capabilities is drawn for the tool, if it is a known action.
pub reconfigure-deadlock :
    (profiles : String → Option Capabilities) (id choice : ℕ) (name nm : String) (r : Robot)
    (c : Recipe) (a : RobotAction) (act : Action) (acts : List RobotAction) (caps : Capabilities)
    (rounds : List Attempt)
    → IsAtRest r
    → get_recipe r.recipe_parser id ≡ some c
    → c.action_queue ≡ a ∷ acts
    → is_capable_to r.capability_parser a.name ≡ true
    → profiles name ≡ some caps
    → same_capabilities caps r.capability_parser ≡ false
    → get_elem? caps choice ≡ some nm
    → get_robot_action nm ≡ some act
    → (s : Robot) × IsRace profiles id name r s
      × Reach profiles r s
      × (run_timer profiles choice rounds completing (record s { timer = none }) ≡ fault deadlock)
unfolding run_timer enqueue pop_steps
reconfigure-deadlock profiles id choice name nm r c a act acts caps rounds rest known queue capable
      loads other drawn known_action =
    let s = with_order id name c [] r in
    let (equipped, equips) =
      tool_set choice nm act caps (record s { timer = none }) drawn known_action in
    (
      s,
      race profiles id name r c a acts caps rest known queue capable loads other,
      next
          (next
            (next (next here (task_step profiles id r c a acts rest known queue capable))
              (profile_step profiles id name r caps rest loads other))
            (order_step profiles id name r c rest known))
          (wait_step profiles id name r c rest),
      complete_reconfiguration-deadlock profiles choice rounds (accepted id name c [] r) []
          (record s { timer = none }) equipped caps c c.action_queue loads equips rest.idle
          (ap (λ os. os ++ accepted id name c [] r ∷ []) rest.no_orders) known refl,
    )

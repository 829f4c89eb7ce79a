-- ===== src/Robot/Loop.antt =====
-- The event loop of a robot: the handlers that the worker thread runs, between calls of the
-- method nodes on the server thread (robot.cpp).
use opcua_cps_kitchen.Base.{
  ℕ, ◌+◌, ◌≡◌, String, Bool, true, false, Option, none, some, List, [], ◌∷◌, if◌then◌else◌, flag,
}
use opcua_cps_kitchen.Capabilities.{Capabilities}
use opcua_cps_kitchen.Robot.State.{
  Timer, retooling, passing, completing, moving, Task, receive, target, profile, commit, cook,
  Robot, Outcome, ok,
}
use opcua_cps_kitchen.Robot.Work.{
  Attempt, handle_receive_task, handle_switch_position, handle_reconfiguration, cook_next_order,
  handle_new_position_commit, retool, pass_time, move_to_new_position, complete_reconfiguration,
}
use opcua_cps_kitchen.Robot.Methods.{
  Variant, Answer, receive_task, handover_finished_order, switch_position, commit_new_position,
  reconfigure,
}

-- The lambda that switch_position posts.
unfoldable pub set_target : ℕ → Robot → Robot
unfolding handle_switch_position
set_target p r =
    let r' = record r { new_target_position = p } in
    if r'.preparing_dish then r' else handle_switch_position r'

-- The lambda that reconfigure posts.
unfoldable pub start_profile : Robot → Robot
unfolding handle_reconfiguration
start_profile r = if r.preparing_dish then r else handle_reconfiguration r

unfoldable pub run_task : List Attempt → Task → Robot → Outcome Robot
unfolding set_target start_profile
run_task rounds (receive id processed) r = handle_receive_task false rounds id processed r
run_task rounds (target p) r = ok (set_target p r)
run_task rounds profile r = ok (start_profile r)
run_task rounds commit r = handle_new_position_commit rounds r
run_task rounds cook r = cook_next_order false rounds r

-- The handler of a wait that is over.
unfoldable pub run_timer :
    (String → Option Capabilities) → ℕ → List Attempt → Timer → Robot → Outcome Robot
run_timer profiles choice rounds retooling r = retool rounds r
run_timer profiles choice rounds passing r = pass_time rounds r
run_timer profiles choice rounds completing r = complete_reconfiguration profiles choice rounds r
run_timer profiles choice rounds (moving ms) r = ok (move_to_new_position r)

abbrev pub is_target : Task → Bool
is_target (target p) = true
is_target (receive _ _) = false
is_target profile = false
is_target commit = false
is_target cook = false

abbrev pub is_profile : Task → Bool
is_profile profile = true
is_profile (receive _ _) = false
is_profile (target p) = false
is_profile commit = false
is_profile cook = false

abbrev pub is_commit : Task → Bool
is_commit commit = true
is_commit (receive _ _) = false
is_commit (target p) = false
is_commit profile = false
is_commit cook = false

abbrev pub is_cook : Task → Bool
is_cook cook = true
is_cook (receive _ _) = false
is_cook (target p) = false
is_cook profile = false
is_cook commit = false

-- How many tasks of a kind are posted.
abbrev pub count_tasks : (Task → Bool) → List Task → ℕ
count_tasks p [] = 0
count_tasks p (t ∷ ts) = flag (p t) + count_tasks p ts

-- A task that a timer's handler has to wait for: the request that made the robot set the timer was
-- posted before the timer was set, and the io_context runs handlers in the order in which they
-- become ready.
abbrev pub Settled : Timer → List Task → Type 0
Settled (moving ms) ts = count_tasks is_target ts ≡ 0
Settled completing ts = count_tasks is_profile ts ≡ 0
Settled retooling ts = Unit {0}
Settled passing ts = Unit {0}

-- One step of a robot: the worker runs the first task or the handler of the timer, or the server
-- answers a call. A handler that faults makes no step. The controller commits a position once: it
-- drops the entry of the swap when it commits, so no second call comes before the first is handled.
pub data Step (profiles : String → Option Capabilities) (r : Robot) : Robot → Type 0 where
  task :
      (rounds : List Attempt) (t : Task) (ts : List Task) {s : Robot}
      → r.running ≡ true
      → r.tasks ≡ t ∷ ts
      → run_task rounds t (record r { tasks = ts }) ≡ ok s
      → Step profiles r s
  fire :
      (choice : ℕ) (rounds : List Attempt) (t : Timer) {s : Robot}
      → r.running ≡ true
      → r.timer ≡ some t
      → Settled t r.tasks
      → run_timer profiles choice rounds t (record r { timer = none }) ≡ ok s
      → Step profiles r s
  call_receive_task :
      (vs : List Variant) (a : Answer (ℕ × Bool)) {s : Robot}
      → receive_task vs r ≡ ok (s, a)
      → Step profiles r s
  call_handover :
      (vs : List Variant) {s : Robot} → s ≡ (handover_finished_order vs r).0 → Step profiles r s
  call_switch_position :
      (written : Bool) (vs : List Variant) {s : Robot}
      → s ≡ (switch_position written vs r).0
      → Step profiles r s
  call_commit :
      (vs : List Variant) {s : Robot}
      → count_tasks is_commit r.tasks ≡ 0
      → s ≡ (commit_new_position vs r).0
      → Step profiles r s
  call_reconfigure :
      (written : Bool) (vs : List Variant) (a : Answer Bool) {s : Robot}
      → reconfigure profiles written vs r ≡ ok (s, a)
      → Step profiles r s

pub data Reach (profiles : String → Option Capabilities) (r : Robot) : Robot → Type 0 where
  here : Reach profiles r r
  next : {s t : Robot} → Reach profiles r s → Step profiles s t → Reach profiles r t

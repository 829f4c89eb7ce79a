-- ===== src/Robot/Activity/Tasks.antt =====
-- The activity of a robot and its posted tasks (robot.cpp).
use opcua_cps_kitchen.Base.{
  ℕ, ◌%◌, ◌≡◌, subst, inl, inr, true, false, List, ◌∷◌, length, u32_size, Bool-cases, arith,
}
use opcua_cps_kitchen.Actions.{RobotAction}
use opcua_cps_kitchen.Recipe.{has_recipe, get_recipe}
use opcua_cps_kitchen.Robot.State.{
  Task, receive, target, profile, commit, cook, Robot, ok, >>=-eq-ok, or_fault,
}
use opcua_cps_kitchen.Robot.Work.{
  Attempt, stop, arm, pop_steps, enqueue, cook_unless_busy,
  compute_overall_time_and_determine_last_tool, accept_task, handle_receive_task, commit_position,
  handle_new_position_commit, handle_switch_position, handle_reconfiguration,
}
use opcua_cps_kitchen.Robot.Loop.{set_target, start_profile, run_task}
use opcua_cps_kitchen.Robot.Activity.{activity, Inv, IsCalm}
use opcua_cps_kitchen.Robot.Activity.Handlers.{cook_next_order-Inv, Inv-IsCalm}

pub enqueue-Inv :
    (id processed total : ℕ) (q : List RobotAction) (r : Robot)
    → Inv r
    → Inv (enqueue id processed total q r)
unfolding enqueue compute_overall_time_and_determine_last_tool activity
enqueue-Inv id processed total q r v = ground arith

cook_unless_busy-Inv :
    (rounds : List Attempt) (r s : Robot)
    → Inv r
    → cook_unless_busy false rounds r ≡ ok s
    → s.running ≡ true
    → Inv s
unfolding cook_unless_busy
cook_unless_busy-Inv rounds r s v e k = elim (Bool-cases r.preparing_dish) [
  | inl busy ↦ let same : r ≡ s = ground arith in subst Inv same v
  | inr idle ↦ cook_next_order-Inv rounds r s (Inv-IsCalm r v idle) (ground arith) k
]

accept_task-Inv :
    (rounds : List Attempt) (id processed : ℕ) (r s : Robot)
    → Inv r
    → accept_task false rounds id processed r ≡ ok s
    → s.running ≡ true
    → Inv s
unfolding accept_task
accept_task-Inv rounds id processed r s v e k =
    let (incoming, known, rest) = >>=-eq-ok (or_fault (get_recipe r.recipe_parser id) _) _ e in
    let (q, popped, cooked) = >>=-eq-ok (pop_steps processed incoming.action_queue) _ rest in
    cook_unless_busy-Inv rounds (enqueue id processed (length incoming.action_queue % u32_size) q r)
      s (enqueue-Inv id processed (length incoming.action_queue % u32_size) q r v) cooked k

handle_receive_task-Inv :
    (rounds : List Attempt) (id processed : ℕ) (r s : Robot)
    → Inv r
    → handle_receive_task false rounds id processed r ≡ ok s
    → s.running ≡ true
    → Inv s
unfolding handle_receive_task
handle_receive_task-Inv rounds id processed r s v e k =
    elim (Bool-cases (has_recipe r.recipe_parser id)) [
      | inl known ↦ accept_task-Inv rounds id processed r s v (rw known at e) k
      | inr unknown ↦ let same : r ≡ s = ground arith in subst Inv same v
    ]

-- The first task taken off the queue.
abbrev pub rest_of : List Task → Robot → Robot
rest_of ts r = record r { tasks = ts }

set_target-Inv :
    (p : ℕ) (ts : List Task) (r : Robot)
    → Inv r
    → r.tasks ≡ target p ∷ ts
    → Inv (set_target p (rest_of ts r))
unfolding set_target handle_switch_position arm stop activity
set_target-Inv p ts r v e = ground arith

start_profile-Inv :
    (ts : List Task) (r : Robot)
    → Inv r
    → r.tasks ≡ profile ∷ ts
    → Inv (start_profile (rest_of ts r))
unfolding start_profile handle_reconfiguration arm stop activity
start_profile-Inv ts r v e = ground arith

pub commit_position-IsCalm :
    (ts : List Task) (r : Robot)
    → Inv r
    → r.tasks ≡ commit ∷ ts
    → IsCalm (commit_position (rest_of ts r))
unfolding commit_position activity
commit_position-IsCalm ts r v e = ground arith

pub cook-IsCalm : (ts : List Task) (r : Robot) → Inv r → r.tasks ≡ cook ∷ ts → IsCalm (rest_of ts r)
unfolding activity
cook-IsCalm ts r v e = ground arith

pub receive-Inv :
    (id processed : ℕ) (ts : List Task) (r : Robot)
    → Inv r
    → r.tasks ≡ receive id processed ∷ ts
    → Inv (rest_of ts r)
unfolding activity
receive-Inv id processed ts r v e = ground arith

pub run_task-Inv :
    (rounds : List Attempt) (t : Task) (ts : List Task) (r s : Robot)
    → Inv r
    → r.tasks ≡ t ∷ ts
    → run_task rounds t (rest_of ts r) ≡ ok s
    → s.running ≡ true
    → Inv s
unfolding run_task handle_new_position_commit
run_task-Inv rounds (receive id processed) ts r s v e k run =
    handle_receive_task-Inv rounds id processed (rest_of ts r) s (receive-Inv id processed ts r v e)
      k run
run_task-Inv rounds (target p) ts r s v e k run =
    let same : set_target p (rest_of ts r) ≡ s = cc in subst Inv same (set_target-Inv p ts r v e)
run_task-Inv rounds profile ts r s v e k run =
    let same : start_profile (rest_of ts r) ≡ s = cc in subst Inv same (start_profile-Inv ts r v e)
run_task-Inv rounds commit ts r s v e k run =
    cook_next_order-Inv rounds _ s (commit_position-IsCalm ts r v e) k run
run_task-Inv rounds cook ts r s v e k run =
    cook_next_order-Inv rounds _ s (cook-IsCalm ts r v e) k run

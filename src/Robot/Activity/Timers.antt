-- ===== src/Robot/Activity/Timers.antt =====
-- The activity of a robot and the handlers of its timer (robot.cpp).
use opcua_cps_kitchen.Base.{
  ℕ, ◌≡◌, ◌⊎◌, subst, inl, inr, String, true, Option, none, some, List, [], ◌∷◌, ◌==◌, Bool-cases,
  arith,
}
use opcua_cps_kitchen.Actions.{RobotAction}
use opcua_cps_kitchen.Capabilities.{Capabilities}
use opcua_cps_kitchen.Robot.State.{Timer, retooling, passing, completing, moving, Robot, ok}
use opcua_cps_kitchen.Robot.Work.{
  Attempt, arm, perform_action, count_action, change_tool, action_performed, tick, go_on_passing,
  pass_time, equip, retool, move_to_new_position,
}
use opcua_cps_kitchen.Robot.Loop.{is_target, count_tasks, run_timer, Settled}
use opcua_cps_kitchen.Robot.Activity.{activity, Inv, IsBetween}
use opcua_cps_kitchen.Robot.Activity.Handlers.{arm-Inv, determine_next_action-Inv}
use opcua_cps_kitchen.Robot.Activity.Reconfiguration.{complete_reconfiguration-Inv}

move_to_new_position-Inv :
    (ms : ℕ) (r : Robot)
    → Inv r
    → r.timer ≡ some (moving ms)
    → count_tasks is_target r.tasks ≡ 0
    → Inv (move_to_new_position (record r { timer = none }))
unfolding move_to_new_position activity
move_to_new_position-Inv ms r v e h = ground arith

-- The timer of a cooking robot has run.
cooking-IsBetween :
    (r : Robot)
    → Inv r
    → (r.timer ≡ some retooling) ⊎ (r.timer ≡ some passing)
    → IsBetween (record r { timer = none })
unfolding activity
cooking-IsBetween r v (inl e) = ground arith
cooking-IsBetween r v (inr e) = ground arith

equip-Inv :
    (q : List RobotAction) (rounds : List Attempt) (r s : Robot)
    → IsBetween r
    → equip q rounds r ≡ ok s
    → s.running ≡ true
    → Inv s
unfolding equip activity
equip-Inv [] rounds r s b e k = cc
equip-Inv (a ∷ q) rounds r s b e k =
    determine_next_action-Inv rounds (change_tool a.required_tool r) s (ground arith) e k

perform_action-Inv :
    (q : List RobotAction) (rounds : List Attempt) (r s : Robot)
    → IsBetween r
    → perform_action q rounds r ≡ ok s
    → s.running ≡ true
    → Inv s
unfolding perform_action activity
perform_action-Inv [] rounds r s b e k = cc
perform_action-Inv (a ∷ q) rounds r s b e k =
    determine_next_action-Inv rounds (count_action q r) s (ground arith) e k

go_on_passing-Inv :
    (rounds : List Attempt) (r s : Robot)
    → IsBetween r
    → go_on_passing rounds r ≡ ok s
    → s.running ≡ true
    → Inv s
unfolding go_on_passing action_performed
go_on_passing-Inv rounds r s b e k = elim (Bool-cases (r.current_action_duration == 0)) [
  | inl done ↦ perform_action-Inv r.action_queue_in_process rounds r s b (rw done at e) k
  | inr more ↦
      let same : arm passing r ≡ s = ground arith in subst Inv same (arm-Inv passing r b b.cooking)
]

tick-IsBetween : (r : Robot) → IsBetween r → IsBetween (tick r)
unfolding tick activity
tick-IsBetween r b = ground arith

pub run_timer-Inv :
    (profiles : String → Option Capabilities) (choice : ℕ) (rounds : List Attempt) (t : Timer)
    (r s : Robot)
    → Inv r
    → r.timer ≡ some t
    → Settled t r.tasks
    → run_timer profiles choice rounds t (record r { timer = none }) ≡ ok s
    → s.running ≡ true
    → Inv s
unfolding run_timer retool pass_time
run_timer-Inv profiles choice rounds retooling r s v e h k run =
    equip-Inv r.action_queue_in_process rounds _ s (cooking-IsBetween r v (inl e)) k run
run_timer-Inv profiles choice rounds passing r s v e h k run =
    go_on_passing-Inv rounds _ s
      (tick-IsBetween (record r { timer = none }) (cooking-IsBetween r v (inr e))) k run
run_timer-Inv profiles choice rounds completing r s v e h k run =
    complete_reconfiguration-Inv profiles choice rounds r s v e h k run
run_timer-Inv profiles choice rounds (moving ms) r s v e h k run =
    let same : move_to_new_position (record r { timer = none }) ≡ s = cc in
    subst Inv same (move_to_new_position-Inv ms r v e h)

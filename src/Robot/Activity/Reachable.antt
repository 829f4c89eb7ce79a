-- ===== src/Robot/Activity/Reachable.antt =====
-- The activity of a robot over its steps (robot.cpp).
use opcua_cps_kitchen.Base.{
  ℕ, ◌+◌, ◌≡◌, refl, sym, ap, ◌∙◌, subst, String, true, ◌||◌, Option, flag, if◌then◌else◌, arith,
}
use opcua_cps_kitchen.Actions.{RobotTool}
use opcua_cps_kitchen.Capabilities.{Capabilities}
use opcua_cps_kitchen.Recipe.{RecipeMap}
use opcua_cps_kitchen.Robot.State.{rearranging, reconfiguring, Robot, ok, >>=-eq-ok, or_fault}
use opcua_cps_kitchen.Robot.Work.{set_current_and_last_equipped_tool}
use opcua_cps_kitchen.Robot.Init.{blank_robot, new_robot}
use opcua_cps_kitchen.Robot.Loop.{
  is_cook, count_tasks, Step, task, fire, call_receive_task, call_handover, call_switch_position,
  call_commit, call_reconfigure, Reach, here, next,
}
use opcua_cps_kitchen.Robot.Activity.{waits, activity, Inv}
use opcua_cps_kitchen.Robot.Activity.Tasks.{run_task-Inv}
use opcua_cps_kitchen.Robot.Activity.Timers.{run_timer-Inv}
use opcua_cps_kitchen.Robot.Activity.Calls.{
  Kept, receive_task-Kept, handover_finished_order-Kept, switch_position-Kept,
  commit_new_position-Kept, reconfigure-Kept,
}

of_call :
    (r s t : Robot) → Kept r t → s ≡ t → s.running ≡ true → (r.running ≡ true) × (Inv r → Inv s)
of_call r s t k e run =
    (sym k.1 ∙ ap (λ x. x.running) (sym e) ∙ run, λ v. subst Inv (sym e) (k.0 v))

-- A running robot was running before the step, and the step keeps the invariant.
pub Step-Inv :
    (profiles : String → Option Capabilities) {r s : Robot}
    → Step profiles r s
    → s.running ≡ true
    → (r.running ≡ true) × (Inv r → Inv s)
Step-Inv profiles {r} {s} (task rounds t ts run e k) h =
    (run, λ v. run_task-Inv rounds t ts r s v e k h)
Step-Inv profiles {r} {s} (fire choice rounds t run e settled k) h =
    (run, λ v. run_timer-Inv profiles choice rounds t r s v e settled k h)
Step-Inv profiles {r} {s} (call_receive_task vs a e) h =
    of_call r s s (receive_task-Kept vs a r s e) refl h
Step-Inv profiles {r} {s} (call_handover vs e) h =
    of_call r s _ (handover_finished_order-Kept vs r) e h
Step-Inv profiles {r} {s} (call_switch_position written vs e) h =
    of_call r s _ (switch_position-Kept written vs r) e h
Step-Inv profiles {r} {s} (call_commit vs n e) h =
    of_call r s _ (commit_new_position-Kept vs r n) e h
Step-Inv profiles {r} {s} (call_reconfigure written vs a e) h =
    of_call r s s (reconfigure-Kept profiles written vs a r s e) refl h

pub Reach-Inv :
    (profiles : String → Option Capabilities) {r s : Robot}
    → Inv r
    → Reach profiles r s
    → s.running ≡ true
    → Inv s
Reach-Inv profiles v here h = v
Reach-Inv profiles v (next reach step) h =
    let (run, kept) = Step-Inv profiles step h in kept (Reach-Inv profiles v reach run)

blank-Inv :
    (choice position size : ℕ) (caps : Capabilities) (recipes : RecipeMap) (tool : RobotTool)
    (r : Robot)
    → set_current_and_last_equipped_tool choice (blank_robot position size caps recipes tool) ≡ ok r
    → Inv r
unfolding set_current_and_last_equipped_tool blank_robot activity
blank-Inv choice position size caps recipes tool r e = ground arith

pub new_robot-Inv :
    (profiles : String → Option Capabilities) (recipes : RecipeMap) (choice position : ℕ)
    (file : String) (size : ℕ) (tool : RobotTool) (r : Robot)
    → new_robot profiles recipes choice position file size tool ≡ ok r
    → Inv r
unfolding new_robot
new_robot-Inv profiles recipes choice position file size tool r e =
    let (caps, _, k) = >>=-eq-ok (or_fault (profiles file) _) _ e in
    blank-Inv choice position size caps recipes tool r k

-- While a robot runs it never has two things under way that would set its timer or take its next
-- order: of the pending wait of the timer, the dish that waits for the conveyor, the posted
-- cook_next_order and the position that waits for the controller's commit there is exactly one
-- if the robot prepares a dish, rearranges or reconfigures, and none otherwise. It rearranges
-- only in the state REARRANGING and reconfigures only in RECONFIGURING. The controller is taken
-- to call commit_new_position only while no earlier call of it is posted.
pub Reach-activity :
    (profiles : String → Option Capabilities) (recipes : RecipeMap) (choice position : ℕ)
    (file : String) (size : ℕ) (tool : RobotTool) (r s : Robot)
    → new_robot profiles recipes choice position file size tool ≡ ok r
    → Reach profiles r s
    → s.running ≡ true
    → (waits s.timer
          + flag s.pending_pickup
          + count_tasks is_cook s.tasks
          + flag s.attributes.new_position_commit_is_pending
        ≡ (if s.preparing_dish || (s.already_rearranging || s.already_reconfiguring) then 1 else 0))
      × (s.already_rearranging ≡ true → s.robot_state ≡ rearranging)
      × (s.already_reconfiguring ≡ true → s.robot_state ≡ reconfiguring)
unfolding activity
Reach-activity profiles recipes choice position file size tool r s e reach run =
    let v : Inv s =
      Reach-Inv profiles (new_robot-Inv profiles recipes choice position file size tool r e) reach
        run in
    (v.counted ∙ ground arith, v.matches.rearranges, v.matches.reconfigures)

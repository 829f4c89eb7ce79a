-- ===== src/Robot/Load/Steps.antt =====
-- The account of the work over the steps of a robot (robot.cpp).
use opcua_cps_kitchen.Base.{
  ℕ, ◌≡◌, refl, sym, subst, String, Bool, true, false, Option, List, [], ◌∷◌, arith,
}
use opcua_cps_kitchen.Actions.{RobotTool}
use opcua_cps_kitchen.Capabilities.{Capabilities}
use opcua_cps_kitchen.Recipe.{RecipeMap}
use opcua_cps_kitchen.Robot.State.{Robot, ok, >>=-eq-ok, or_fault}
use opcua_cps_kitchen.Robot.Work.{post, set_current_and_last_equipped_tool}
use opcua_cps_kitchen.Robot.Methods.{
  Variant, uint32, string, Answer, task_received, answer_task, receive_task, request_position,
  request_profile, forget_order, handle_handover_finished_order, good_handover,
  handover_finished_order, switch_position, commit_new_position, begin_reconfiguration, reconfigure,
}
use opcua_cps_kitchen.Robot.Init.{blank_robot, new_robot}
use opcua_cps_kitchen.Robot.Loop.{
  Step, task, fire, call_receive_task, call_handover, call_switch_position, call_commit,
  call_reconfigure, Reach, here, next,
}
use opcua_cps_kitchen.Robot.Activity.{Inv}
use opcua_cps_kitchen.Robot.Activity.Reachable.{Step-Inv, Reach-Inv, new_robot-Inv}
use opcua_cps_kitchen.Robot.Load.{queue_time, queue_tool, AreTimed, Reports, IsAccounted}
use opcua_cps_kitchen.Robot.Load.Tasks.{idle_timer, run_task-IsAccounted}
use opcua_cps_kitchen.Robot.Load.Starting.{resting-lem}
use opcua_cps_kitchen.Robot.Load.Timers.{run_timer-IsAccounted}

-- A call of a method node changes nothing that the account depends on.
answered-IsAccounted :
    (id processed : ℕ) (received : Bool) (r : Robot)
    → IsAccounted r
    → IsAccounted (answer_task id processed r received).0
unfolding answer_task post
answered-IsAccounted id processed received r v = ground arith

receive_task-IsAccounted :
    (vs : List Variant) (a : Answer (ℕ × Bool)) (r s : Robot)
    → receive_task vs r ≡ ok (s, a)
    → IsAccounted r
    → IsAccounted s
unfolding receive_task
receive_task-IsAccounted (uint32 id ∷ uint32 processed ∷ uint32 addressed ∷ []) a r s e v =
    let (received, _, answered) = >>=-eq-ok (task_received id processed addressed r) _ e in
    let same : (answer_task id processed r received).0 ≡ s = ground arith in
    subst IsAccounted same (answered-IsAccounted id processed received r v)
receive_task-IsAccounted _ a r s e v = let same : r ≡ s = ground arith in subst IsAccounted same v

handover-IsAccounted :
    (vs : List Variant) (r : Robot) → IsAccounted r → IsAccounted (handover_finished_order vs r).0
unfolding handover_finished_order handle_handover_finished_order good_handover forget_order post
handover-IsAccounted [] r v = ground arith
handover-IsAccounted (x ∷ vs) r v = v

switch_position-IsAccounted :
    (written : Bool) (vs : List Variant) (r : Robot)
    → IsAccounted r
    → IsAccounted (switch_position written vs r).0
unfolding switch_position request_position post
switch_position-IsAccounted written (uint32 p ∷ []) r v = ground arith
switch_position-IsAccounted written _ r v = v

commit-IsAccounted :
    (vs : List Variant) (r : Robot) → IsAccounted r → IsAccounted (commit_new_position vs r).0
unfolding commit_new_position post
commit-IsAccounted [] r v = ground arith
commit-IsAccounted (x ∷ vs) r v = v

reconfigure-IsAccounted :
    (profiles : String → Option Capabilities) (written : Bool) (vs : List Variant) (a : Answer Bool)
    (r s : Robot)
    → reconfigure profiles written vs r ≡ ok (s, a)
    → IsAccounted r
    → IsAccounted s
unfolding reconfigure begin_reconfiguration request_profile post
reconfigure-IsAccounted profiles written (string name ∷ []) a r s e v = ground arith
reconfigure-IsAccounted profiles written _ a r s e v =
    let same : r ≡ s = ground arith in subst IsAccounted same v

Step-IsAccounted :
    (profiles : String → Option Capabilities) {r s : Robot}
    → Step profiles r s
    → Inv r
    → IsAccounted r
    → IsAccounted s
Step-IsAccounted profiles {r} {s} (task rounds t ts run e k) i v =
    run_task-IsAccounted rounds t ts r s i v e k
Step-IsAccounted profiles {r} {s} (fire choice rounds t run e settled k) i v =
    run_timer-IsAccounted profiles choice rounds t r s i v e settled k
Step-IsAccounted profiles {r} {s} (call_receive_task vs a e) i v =
    receive_task-IsAccounted vs a r s e v
Step-IsAccounted profiles {r} {s} (call_handover vs e) i v =
    subst IsAccounted (sym e) (handover-IsAccounted vs r v)
Step-IsAccounted profiles {r} {s} (call_switch_position written vs e) i v =
    subst IsAccounted (sym e) (switch_position-IsAccounted written vs r v)
Step-IsAccounted profiles {r} {s} (call_commit vs n e) i v =
    subst IsAccounted (sym e) (commit-IsAccounted vs r v)
Step-IsAccounted profiles {r} {s} (call_reconfigure written vs a e) i v =
    reconfigure-IsAccounted profiles written vs a r s e v

pub Reach-IsAccounted :
    (profiles : String → Option Capabilities) {r s : Robot}
    → Inv r
    → IsAccounted r
    → Reach profiles r s
    → s.running ≡ true
    → IsAccounted s
Reach-IsAccounted profiles i v here h = v
Reach-IsAccounted profiles i v (next reach step) h =
    let (run, kept) = Step-Inv profiles step h in
    Step-IsAccounted profiles step (Reach-Inv profiles i reach run)
      (Reach-IsAccounted profiles i v reach run)

blank-IsAccounted :
    (choice position size : ℕ) (caps : Capabilities) (recipes : RecipeMap) (tool : RobotTool)
    (r : Robot)
    → AreTimed recipes
    → set_current_and_last_equipped_tool choice (blank_robot position size caps recipes tool) ≡ ok r
    → IsAccounted r
unfolding set_current_and_last_equipped_tool blank_robot queue_time queue_tool
blank-IsAccounted choice position size caps recipes tool r timed e = ground arith

-- While a robot runs whose recipes' actions all take time, OVERALL_TIME is the time that is left
-- of the dish in process and of every accepted order in turn, with the changes of tool in
-- between, modulo 2^32, and LAST_EQUIPPED_TOOL is the tool that the robot will have after them.
-- The controller is taken to call commit_new_position only while no earlier call of it is
-- posted.
pub Reach-Reports :
    (profiles : String → Option Capabilities) (recipes : RecipeMap) (choice position : ℕ)
    (file : String) (size : ℕ) (tool : RobotTool) (r s : Robot)
    → AreTimed recipes
    → new_robot profiles recipes choice position file size tool ≡ ok r
    → Reach profiles r s
    → s.running ≡ true
    → Reports s
unfolding new_robot
Reach-Reports profiles recipes choice position file size tool r s timed e reach run =
    let (caps, _, k) = >>=-eq-ok (or_fault (profiles file) _) _ e in
    (Reach-IsAccounted profiles (new_robot-Inv profiles recipes choice position file size tool r e)
      (blank-IsAccounted choice position size caps recipes tool r timed k) reach run).reports

Reports-idle :
    (s : Robot)
    → Inv s
    → Reports s
    → s.preparing_dish ≡ false
    → s.order_queue ≡ []
    → (s.attributes.overall_time ≡ 0) × (s.attributes.last_equipped_tool ≡ s.current_tool)
unfolding queue_time queue_tool
Reports-idle s i v idle empty =
    let (calm, still) = idle_timer s i idle in
    let (left, tool) =
      resting-lem s.timer s.action_queue_in_process s.capability_parser s.current_tool
        s.current_action_duration calm still in
    let times = v.time in
    let tools = v.tool in (rw (times, empty, left) refl, rw (tools, empty, tool) refl)

-- So a running robot at rest, with no dish in process and no order, reports no time, and the
-- tool that it holds. The controller is taken to call commit_new_position only while no earlier
-- call of it is posted.
pub Reach-idle :
    (profiles : String → Option Capabilities) (recipes : RecipeMap) (choice position : ℕ)
    (file : String) (size : ℕ) (tool : RobotTool) (r s : Robot)
    → AreTimed recipes
    → new_robot profiles recipes choice position file size tool ≡ ok r
    → Reach profiles r s
    → s.running ≡ true
    → s.preparing_dish ≡ false
    → s.order_queue ≡ []
    → (s.attributes.overall_time ≡ 0) × (s.attributes.last_equipped_tool ≡ s.current_tool)
Reach-idle profiles recipes choice position file size tool r s timed e reach run =
    Reports-idle s
      (Reach-Inv profiles (new_robot-Inv profiles recipes choice position file size tool r e) reach
        run)
      (Reach-Reports profiles recipes choice position file size tool r s timed e reach run)

-- ===== src/Controller/Leaving/Reachable.antt =====
-- Swaps with both acknowledgements in every state of the event loop (controller.cpp).
use opcua_cps_kitchen.Base.{
  ℕ, suc, ◌≡◌, ◌⊎◌, refl, subst, String, Bool, true, false, ◌&&◌, List, [], ◌∷◌, arith,
}
use opcua_cps_kitchen.Capabilities.{Capabilities}
use opcua_cps_kitchen.Recipe.{RecipeMap}
use opcua_cps_kitchen.Mape.{Policy, Request, swap_robot_positions, reconfigure_robot}
use opcua_cps_kitchen.Robot.State.{ok, >>=-eq-ok}
use opcua_cps_kitchen.Controller.State.{
  Receiver, ControllerTask, registration, next_robot_request, position_swapped,
  capabilities_reconfigured, Controller, new_controller,
}
use opcua_cps_kitchen.Controller.Registry.{
  set_adaptivity, stop_robot, tidy_up, remove_stopped_robots,
}
use opcua_cps_kitchen.Controller.Swaps.{AdaptationAnswers, handle_position_swapped}
use opcua_cps_kitchen.Controller.Requests.{
  RegistrationAnswers, handle_robot_registration, handle_capabilities_reconfigured, perform_request,
  perform_requests, views, connect_receiver, RequestAnswers, answer_request, actions_left,
  choose_robot, handle_next_robot_request,
}
use opcua_cps_kitchen.Controller.Loop.{
  TaskAnswers, run_controller_task, ControllerStep, run, registers, asks, moves, changes, stops,
  ControllerReach, here, next, RunWhile, start, onward, RunWhile-Reach,
}
use opcua_cps_kitchen.Controller.Pending.{IsOrderly}
use opcua_cps_kitchen.Controller.Pending.Keys.{
  IsOrderly-KeepsKeys, KeepsKeys-same, set_adaptivity-endpoint, stop_robot-endpoint,
  update_robot-KeepsKeys, tidy_up-IsOrderly,
}
use opcua_cps_kitchen.Controller.Pending.Switching.{swap_robot_positions-Lists}
use opcua_cps_kitchen.Controller.Pending.Requests.{
  reconfigure_robot_capability-KeepsKeys, send_next_robot-KeepsKeys, connect_receiver-KeepsKeys,
}
use opcua_cps_kitchen.Controller.Pending.Reachable.{
  register_robot-KeepsKeys, choose_next_robot-KeepsKeys, position_changed-KeepsKeys,
  capabilities_changed-KeepsKeys, ControllerReach-IsOrderly,
}
use opcua_cps_kitchen.Controller.Leaving.Others.{is_other}
use opcua_cps_kitchen.Controller.Leaving.Locked.{
  IsLocked, is_running_at, IsLocked-KeepsKeys, IsLocked-Lists, remove_stopped_robots-IsLocked,
  tidy_up-IsLocked, IsLocked-refuses, register_if_free-IsLocked,
}
use opcua_cps_kitchen.Controller.Leaving.Staying.{acknowledge_swap-IsLocked}

perform_requests-IsLocked :
    (answers : ℕ → AdaptationAnswers) (i : ℕ) (qs : List Request) (l g o : ℕ) (c : Controller)
    → IsLocked l g o c
    → IsLocked l g o (perform_requests answers i qs c)
unfolding perform_requests perform_request
perform_requests-IsLocked answers i [] l g o c h = h
perform_requests-IsLocked answers i (swap_robot_positions from to ∷ qs) l g o c h =
    perform_requests-IsLocked answers (suc i) qs l g o _
      (IsLocked-Lists l g o from to (swap_robot_positions-Lists (answers i) from to c) h)
perform_requests-IsLocked answers i (reconfigure_robot k profile ∷ qs) l g o c h =
    perform_requests-IsLocked answers (suc i) qs l g o _
      (IsLocked-KeepsKeys l g o (reconfigure_robot_capability-KeepsKeys (answers i) k profile c) h)

handle_next_robot_request-IsLocked :
    (a : RequestAnswers) (id processed : ℕ) (x : Receiver) (l g o : ℕ) (c d : Controller)
    → handle_next_robot_request a id processed x c ≡ ok d
    → IsLocked l g o (tidy_up c)
    → IsLocked l g o d
unfolding handle_next_robot_request choose_robot answer_request
handle_next_robot_request-IsLocked a id processed x l g o c d e h =
    let c' = connect_receiver a.receiver_starts x (tidy_up c) in
    let k =
      IsLocked-KeepsKeys l g o (connect_receiver-KeepsKeys a.receiver_starts x (tidy_up c)) h in
    let (q, left, rest) = >>=-eq-ok (actions_left id processed c') _ e in
    let (choice, chosen, last) =
      >>=-eq-ok (c'.kitchen_mape (views c'.position_remote_robot_map) q) _ rest in
    let same : answer_request a x id choice c' ≡ d = cc in
    rw (← same) (
      IsLocked-KeepsKeys l g o (send_next_robot-KeepsKeys x id _ _)
        (perform_requests-IsLocked a.adaptations 0 choice.requests l g o c' k))

-- The next handler is not the one that both robots of the pair post.
unfoldable pub is_undisturbing : ℕ → ℕ → List ControllerTask → Bool
unfolding is_other
is_undisturbing l g (position_swapped old new ∷ ts) = is_other l g old new
is_undisturbing l g _ = true

-- The robot at the position has not stopped, and no robot tells that it is in the swap of the pair.
unfoldable pub leaves_alone : ℕ → ℕ → ℕ → Controller → Bool
unfolding is_running_at is_undisturbing
leaves_alone l g o c = is_running_at o c.position_remote_robot_map && is_undisturbing l g c.tasks

run_controller_task-IsLocked :
    (a : TaskAnswers) (t : ControllerTask) (ts : List ControllerTask) (l g o : ℕ) (c d : Controller)
    → is_undisturbing l g (t ∷ ts) ≡ true
    → is_running_at o c.position_remote_robot_map ≡ true
    → run_controller_task a t c ≡ ok d
    → IsOrderly c
    → IsLocked l g o c
    → IsLocked l g o d
unfolding run_controller_task is_undisturbing handle_robot_registration handle_position_swapped
    handle_capabilities_reconfigured
run_controller_task-IsLocked a (registration e k caps) ts l g o c d free up r n h =
    let same : _ ≡ d = cc in
    rw (← same) (
      register_if_free-IsLocked a.on_registration e k caps l g o (tidy_up c)
        (tidy_up-IsLocked l g o c up n h))
run_controller_task-IsLocked a (next_robot_request id processed x) ts l g o c d free up r n h =
    handle_next_robot_request-IsLocked a.on_request id processed x l g o c d r
      (tidy_up-IsLocked l g o c up n h)
run_controller_task-IsLocked a (position_swapped old new) ts l g o c d free up r n h =
    let same : _ ≡ d = cc in
    rw (← same) (
      acknowledge_swap-IsLocked a.first_commit a.second_commit l g o old new (tidy_up c) free
        (tidy_up-IsOrderly c n) (tidy_up-IsLocked l g o c up n h))
run_controller_task-IsLocked a (capabilities_reconfigured k) ts l g o c d free up r n h =
    let same : _ ≡ d = cc in
    rw (← same) (
      IsLocked-KeepsKeys l g o
        (update_robot-KeepsKeys k (set_adaptivity false) (remove_stopped_robots c)
          (set_adaptivity-endpoint false))
        (remove_stopped_robots-IsLocked l g o c up n h))

ControllerStep-IsLocked :
    (l g o : ℕ) {c d : Controller}
    → ControllerStep c d
    → leaves_alone l g o c ≡ true
    → IsOrderly c
    → IsLocked l g o c
    → IsLocked l g o d
unfolding leaves_alone
ControllerStep-IsLocked l g o {c} {d} (run a t ts going first e) free n h =
    let same = KeepsKeys-same c (record c { tasks = ts }) refl refl refl in
    let up : is_running_at o c.position_remote_robot_map ≡ true = ground arith in
    let undisturbed : is_undisturbing l g c.tasks ≡ true = ground arith in
    run_controller_task-IsLocked a t ts l g o _ d
      (subst (λ x. is_undisturbing l g x ≡ true) first undisturbed) up e
      (IsOrderly-KeepsKeys same n) (IsLocked-KeepsKeys l g o same h)
ControllerStep-IsLocked l g o {c} (registers vs e) free n h =
    rw e (IsLocked-KeepsKeys l g o (register_robot-KeepsKeys vs c) h)
ControllerStep-IsLocked l g o {c} (asks vs e) free n h =
    rw e (IsLocked-KeepsKeys l g o (choose_next_robot-KeepsKeys vs c) h)
ControllerStep-IsLocked l g o {c} (moves key new e) free n h =
    rw e (IsLocked-KeepsKeys l g o (position_changed-KeepsKeys key new c) h)
ControllerStep-IsLocked l g o {c} (changes key ns e) free n h =
    rw e (IsLocked-KeepsKeys l g o (capabilities_changed-KeepsKeys key ns c) h)
ControllerStep-IsLocked l g o {c} (stops key e) free n h =
    rw e (IsLocked-KeepsKeys l g o (update_robot-KeepsKeys key stop_robot c stop_robot-endpoint) h)

Reach-trans : {c d e : Controller} → ControllerReach c d → ControllerReach d e → ControllerReach c e
Reach-trans r here = r
Reach-trans r (next q s) = next (Reach-trans r q) s

RunWhile-IsLocked :
    (recipes : RecipeMap) (policy : Policy) (l g o : ℕ) {c d : Controller}
    → ControllerReach (new_controller recipes policy) c
    → RunWhile (λ e. leaves_alone l g o e ≡ true) c d
    → IsLocked l g o c
    → IsLocked l g o d
RunWhile-IsLocked recipes policy l g o r start h = h
RunWhile-IsLocked recipes policy l g o r (onward w p s) h =
    ControllerStep-IsLocked l g o s p
      (ControllerReach-IsOrderly recipes policy (Reach-trans r (RunWhile-Reach w)))
      (RunWhile-IsLocked recipes policy l g o r w h)

-- A new controller has come to a state in which the swap of a pair is listed with both
-- acknowledgements, and a robot is registered at a position of it. Then the swap stays listed
-- with both, and that position stays occupied, whatever steps follow, as long as no robot that
-- stands there has stopped and the next handler is not for a report of that very swap; and a
-- registration at either position is refused: its handler does no more than drop what is stopped
-- or stale.
pub acknowledged_swap_stays :
    (recipes : RecipeMap) (policy : Policy) (a : RegistrationAnswers) (e : String)
    → (caps : Capabilities) (l g o k : ℕ) {c d : Controller}
    → ControllerReach (new_controller recipes policy) c
    → IsLocked l g o c
    → RunWhile (λ x. leaves_alone l g o x ≡ true) c d
    → leaves_alone l g o d ≡ true
    → (l ≡ k) ⊎ (g ≡ k)
    → IsLocked l g o d × (handle_robot_registration a e k caps d ≡ tidy_up d)
unfolding leaves_alone handle_robot_registration
acknowledged_swap_stays recipes policy a e caps l g o k r h w free at =
    let locked = RunWhile-IsLocked recipes policy l g o r w h in
    let n = ControllerReach-IsOrderly recipes policy (Reach-trans r (RunWhile-Reach w)) in
    let up : is_running_at o _ ≡ true = ground arith in
    (locked, IsLocked-refuses a e caps l g o k _ at (tidy_up-IsLocked l g o _ up n locked))

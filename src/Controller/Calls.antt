-- ===== src/Controller/Calls.antt =====
-- The answers to requests, among the calls of other agents (controller.cpp).
use opcua_cps_kitchen.Base.{
  ℕ, suc, ◌≡◌, refl, ◌∙◌, inl, inr, Bool, true, false, List, [], ◌∷◌, find, ◌==◌, Bool-cases,
  Option-cases, arith,
}
use opcua_cps_kitchen.Conveyor.Delivery.{Flagged, failed, bad_size, bad_type, result}
use opcua_cps_kitchen.Mape.{Request, swap_robot_positions, reconfigure_robot}
use opcua_cps_kitchen.Controller.State.{
  RemoteRobot, Receiver, Call, switch_position, reconfigure, commit_new_position,
  receive_next_robot, Controller,
}
use opcua_cps_kitchen.Controller.Registry.{
  is_registered, update_robot, set_adaptivity, stop_robot, call, is_robot_position_swapping,
  drop_robot, drop_stopped, remove_stopped_robots, erase_stale_pending_swap_entries, tidy_up,
}
use opcua_cps_kitchen.Controller.Swaps.{
  AdaptationAnswers, is_refused_at, after_read, halt, add_swap, second_switches, switch_second,
  first_switches, switch_first, swap_available,
}
use opcua_cps_kitchen.Controller.Swaps
use opcua_cps_kitchen.Controller.Requests.{
  robot_reconfigures, ask_profile, reconfigure_robot_capability, perform_request, perform_requests,
  connect_receiver,
}

-- The calls of receivers, the newest first.
abbrev pub answers_in : List Call → List Call
answers_in [] = []
answers_in (receive_next_robot x p e id ∷ cs) = receive_next_robot x p e id ∷ answers_in cs
answers_in (switch_position _ _ ∷ cs) = answers_in cs
answers_in (reconfigure _ _ ∷ cs) = answers_in cs
answers_in (commit_new_position _ ∷ cs) = answers_in cs

-- A step that calls no receiver.
abbrev AnswersNobody : Controller → Controller → Type 0
AnswersNobody c d = answers_in d.calls ≡ answers_in c.calls

update_robot-calls :
    (k : ℕ) (f : RemoteRobot → RemoteRobot) (c : Controller) → (update_robot k f c).calls ≡ c.calls
unfolding update_robot
update_robot-calls k f c = elim (Option-cases (find c.position_remote_robot_map k)) [
  | inl e ↦ rw (update_robot, e) refl
  | inr (r, e) ↦ rw (update_robot, e) refl
]

updated :
    (k : ℕ) (f : RemoteRobot → RemoteRobot) (c : Controller) → AnswersNobody c (update_robot k f c)
updated k f c = let same = update_robot-calls k f c in rw same refl

drop_stopped-calls :
    (m : List (ℕ × RemoteRobot)) (c : Controller) → (drop_stopped m c).calls ≡ c.calls
unfolding drop_stopped drop_robot
drop_stopped-calls [] c = refl
drop_stopped-calls ((k, r) ∷ m) c = elim (Bool-cases r.running) [
  | inl e ↦ rw e (drop_stopped-calls m c)
  | inr e ↦ rw e (drop_stopped-calls m (drop_robot k c))
]

pub tidy_up-calls : (c : Controller) → (tidy_up c).calls ≡ c.calls
unfolding tidy_up remove_stopped_robots erase_stale_pending_swap_entries
tidy_up-calls c = drop_stopped-calls c.position_remote_robot_map c

pub connect_receiver-calls :
    (starts : Bool) (x : Receiver) (c : Controller) → (connect_receiver starts x c).calls ≡ c.calls
unfolding connect_receiver
connect_receiver-calls starts x c = ground arith

second_switches-answers :
    (answer : Flagged) (from to : ℕ) (c : Controller)
    → AnswersNobody c (second_switches answer from to c)
unfolding second_switches add_swap halt
second_switches-answers failed from to c = updated to (λ r. set_adaptivity true (stop_robot r)) c
second_switches-answers bad_size from to c = refl
second_switches-answers bad_type from to c = refl
second_switches-answers (result true) from to c = updated to (set_adaptivity true) c
second_switches-answers (result false) from to c = refl

switch_second-answers :
    (answer : Flagged) (from to : ℕ) (c : Controller)
    → AnswersNobody c (switch_second answer from to c)
unfolding switch_second call add_swap
switch_second-answers answer from to c =
    elim (Bool-cases (is_registered to c.position_remote_robot_map)) [
      | inl e ↦ rw e (second_switches-answers answer from to (call (switch_position to from) c))
      | inr e ↦ rw e refl
    ]

first_switches-answers :
    (first second : Flagged) (from to : ℕ) (c : Controller)
    → AnswersNobody c (first_switches first second from to c)
unfolding first_switches halt
first_switches-answers failed second from to c = updated from stop_robot c
first_switches-answers bad_size second from to c = refl
first_switches-answers bad_type second from to c = refl
first_switches-answers (result true) second from to c =
    switch_second-answers second from to _ ∙ updated from (set_adaptivity true) c
first_switches-answers (result false) second from to c = refl

swap_available-answers :
    (a : AdaptationAnswers) (from to : ℕ) (c : Controller)
    → AnswersNobody c (swap_available a from to c)
unfolding swap_available switch_first call
swap_available-answers a from to c =
    let c' = update_robot from (after_read a.first_available) c in
    let c'' = update_robot to (after_read a.second_available) c' in
    let first = updated from (after_read a.first_available) c in
    let both = updated to (after_read a.second_available) c' ∙ first in
    elim (Bool-cases (is_refused_at a.first_available from c.position_remote_robot_map)) [
      | inl e ↦ rw e first
      | inr e ↦
          elim (Bool-cases (is_refused_at a.second_available to c'.position_remote_robot_map)) [
            | inl e' ↦ rw (e, e') both
            | inr e' ↦
                rw (e, e')
                  (first_switches-answers a.first_call a.second_call from to
                      (call (switch_position from to) c'')
                    ∙ both)
          ]
    ]

swap_robot_positions-answers :
    (a : AdaptationAnswers) (from to : ℕ) (c : Controller)
    → AnswersNobody c (Swaps.swap_robot_positions a from to c)
unfolding Swaps.swap_robot_positions
swap_robot_positions-answers a from to c = elim (Bool-cases (from == to)) [
  | inl e ↦ rw e refl
  | inr e ↦ elim (Bool-cases (is_robot_position_swapping from c.pending_swaps)) [
    | inl x ↦ rw (e, x) refl
    | inr x ↦ elim (Bool-cases (is_robot_position_swapping to c.pending_swaps)) [
      | inl y ↦ rw (e, x, y) refl
      | inr y ↦ elim (Bool-cases (is_registered from c.position_remote_robot_map)) [
        | inl z ↦ rw (e, x, y, z) (swap_available-answers a from to c)
        | inr z ↦ rw (e, x, y, z) refl
      ]
    ]
  ]
]

robot_reconfigures-answers :
    (answer : Flagged) (k : ℕ) (c : Controller) → AnswersNobody c (robot_reconfigures answer k c)
unfolding robot_reconfigures
robot_reconfigures-answers failed k c = updated k stop_robot c
robot_reconfigures-answers bad_size k c = refl
robot_reconfigures-answers bad_type k c = refl
robot_reconfigures-answers (result true) k c = updated k (set_adaptivity true) c
robot_reconfigures-answers (result false) k c = refl

reconfigure-answers :
    (a : AdaptationAnswers) (k : ℕ) (profile : _) (c : Controller)
    → AnswersNobody c (reconfigure_robot_capability a k profile c)
unfolding reconfigure_robot_capability ask_profile call
reconfigure-answers a k profile c =
    let read = updated k (after_read a.first_available) c in
    elim (Bool-cases (is_registered k c.position_remote_robot_map)) [
      | inl x ↦ elim (Bool-cases (is_refused_at a.first_available k c.position_remote_robot_map)) [
        | inl y ↦ rw (x, y) read
        | inr y ↦
            rw (x, y)
              (robot_reconfigures-answers a.first_call k
                  (call (reconfigure k profile) (update_robot k (after_read a.first_available) c))
                ∙ read)
      ]
      | inr x ↦ rw x refl
    ]

pub perform_requests-answers :
    (answers : ℕ → AdaptationAnswers) (i : ℕ) (qs : List Request) (c : Controller)
    → answers_in (perform_requests answers i qs c).calls ≡ answers_in c.calls
unfolding perform_requests perform_request
perform_requests-answers answers i [] c = refl
perform_requests-answers answers i (swap_robot_positions from to ∷ qs) c =
    perform_requests-answers answers (suc i) qs _
    ∙ swap_robot_positions-answers (answers i) from to c
perform_requests-answers answers i (reconfigure_robot k profile ∷ qs) c =
    perform_requests-answers answers (suc i) qs _ ∙ reconfigure-answers (answers i) k profile c

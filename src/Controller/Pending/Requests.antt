-- ===== src/Controller/Pending/Requests.antt =====
-- The registrations and requests, and the pending swaps (controller.cpp).
use opcua_cps_kitchen.Base.{
  ℕ, suc, ◌≡◌, String, refl, inl, inr, Bool, true, false, not, ◌&&◌, Option, none, some, List, [],
  ◌∷◌, find, Bool-cases, Option-cases,
}
use opcua_cps_kitchen.Capabilities.{Capabilities}
use opcua_cps_kitchen.Robot.State.{ok, >>=-eq-ok}
use opcua_cps_kitchen.Conveyor.Delivery.{Flagged, failed, bad_size, bad_type, result}
use opcua_cps_kitchen.Mape.{Request, swap_robot_positions, reconfigure_robot, Decision}
use opcua_cps_kitchen.Controller.State.{RemoteRobot, new_remote_robot, Receiver, Controller}
use opcua_cps_kitchen.Controller.Registry.{
  is_registered, set_adaptivity, stop_robot, is_robot_position_swapping, remove_stopped_robots,
  tidy_up,
}
use opcua_cps_kitchen.Controller.Swaps.{AdaptationAnswers, is_refused_at, after_read}
use opcua_cps_kitchen.Controller.Requests.{
  RegistrationAnswers, read_missed_commit, resolve_missed_new_position_commit, register_at,
  register_if_free, handle_robot_registration, robot_reconfigures, ask_profile,
  reconfigure_robot_capability, handle_capabilities_reconfigured, perform_request, perform_requests,
  views, is_known, connect_receiver, send_next_robot, RequestAnswers, answer_request, actions_left,
  choose_robot, handle_next_robot_request,
}
use opcua_cps_kitchen.Controller.Pending.{IsOrderly, KeepsKeys, KeepsKeys-refl, KeepsKeys-trans}
use opcua_cps_kitchen.Controller.Pending.Keys.{
  IsOrderly-KeepsKeys, KeepsKeys-same, set_adaptivity-endpoint, stop_robot-endpoint,
  after_read-endpoint, update_robot-KeepsKeys, call-KeepsKeys, commit_at-KeepsKeys, enter-IsOrderly,
  remove_stopped_robots-IsOrderly, tidy_up-IsOrderly,
}
use opcua_cps_kitchen.Controller.Pending.Switching.{Lists-IsOrderly, swap_robot_positions-Lists}

pub read_missed_commit-KeepsKeys :
    (a : RegistrationAnswers) (k : ℕ) (c : Controller) → KeepsKeys c (read_missed_commit a k c)
unfolding read_missed_commit
read_missed_commit-KeepsKeys a k c = elim (Option-cases a.commit_is_pending) [
  | inl e ↦ rw (read_missed_commit, e) (update_robot-KeepsKeys k stop_robot c stop_robot-endpoint)
  | inr (b, e) ↦ elim (Bool-cases b) [
    | inl t ↦ rw (read_missed_commit, e, t) (commit_at-KeepsKeys a.commit k c)
    | inr f ↦ rw (read_missed_commit, e, f) (KeepsKeys-refl c)
  ]
]

pub resolve-KeepsKeys :
    (a : RegistrationAnswers) (k : ℕ) (c : Controller)
    → KeepsKeys c (resolve_missed_new_position_commit a k c)
unfolding resolve_missed_new_position_commit
resolve-KeepsKeys a k c = elim (Option-cases (find c.position_remote_robot_map k)) [
  | inl e ↦ rw (resolve_missed_new_position_commit, e) (KeepsKeys-refl c)
  | inr (r, e) ↦
      elim (Bool-cases
        (not r.adaptivity_is_pending && not (is_robot_position_swapping k c.pending_swaps))) [
          | inl t ↦
              rw (resolve_missed_new_position_commit, e, t) (read_missed_commit-KeepsKeys a k c)
          | inr f ↦ rw (resolve_missed_new_position_commit, e, f) (KeepsKeys-refl c)
        ]
]

pub register_at-IsOrderly :
    (k : ℕ) (r : RemoteRobot) (c : Controller) → IsOrderly c → IsOrderly (register_at k r c)
unfolding register_at
register_at-IsOrderly k r c h =
    let k' = enter-IsOrderly k r c h in
    record { falling = k'.falling; apart = k'.apart; awaited = k'.awaited }

register_if_free-IsOrderly :
    (a : RegistrationAnswers) (e : String) (k : ℕ) (caps : Capabilities) (c : Controller)
    → IsOrderly c
    → IsOrderly (register_if_free a e k caps c)
unfolding register_if_free
register_if_free-IsOrderly a e k caps c h =
    elim (Bool-cases (is_robot_position_swapping k c.pending_swaps)) [
      | inl x ↦ rw x h
      | inr x ↦ elim (Bool-cases (is_registered k c.position_remote_robot_map)) [
        | inl y ↦ rw (x, y) h
        | inr y ↦ elim (Bool-cases a.starts) [
          | inl z ↦
              rw (x, y, z)
                (IsOrderly-KeepsKeys (resolve-KeepsKeys a k _)
                  (register_at-IsOrderly k (new_remote_robot e k caps) c h))
          | inr z ↦ rw (x, y, z) h
        ]
      ]
    ]

pub handle_robot_registration-IsOrderly :
    (a : RegistrationAnswers) (e : String) (k : ℕ) (caps : Capabilities) (c : Controller)
    → IsOrderly c
    → IsOrderly (handle_robot_registration a e k caps c)
unfolding handle_robot_registration
handle_robot_registration-IsOrderly a e k caps c h =
    register_if_free-IsOrderly a e k caps (tidy_up c) (tidy_up-IsOrderly c h)

robot_reconfigures-KeepsKeys :
    (answer : Flagged) (k : ℕ) (c : Controller) → KeepsKeys c (robot_reconfigures answer k c)
unfolding robot_reconfigures
robot_reconfigures-KeepsKeys failed k c = update_robot-KeepsKeys k stop_robot c stop_robot-endpoint
robot_reconfigures-KeepsKeys bad_size k c = KeepsKeys-refl c
robot_reconfigures-KeepsKeys bad_type k c = KeepsKeys-refl c
robot_reconfigures-KeepsKeys (result true) k c =
    update_robot-KeepsKeys k (set_adaptivity true) c (set_adaptivity-endpoint true)
robot_reconfigures-KeepsKeys (result false) k c = KeepsKeys-refl c

pub reconfigure_robot_capability-KeepsKeys :
    (a : AdaptationAnswers) (k : ℕ) (profile : String) (c : Controller)
    → KeepsKeys c (reconfigure_robot_capability a k profile c)
unfolding reconfigure_robot_capability ask_profile
reconfigure_robot_capability-KeepsKeys a k profile c =
    let read =
      update_robot-KeepsKeys k (after_read a.first_available) c
        (after_read-endpoint a.first_available) in
    elim (Bool-cases (is_registered k c.position_remote_robot_map)) [
      | inl x ↦ elim (Bool-cases (is_refused_at a.first_available k c.position_remote_robot_map)) [
        | inl y ↦ rw (x, y) read
        | inr y ↦
            rw (x, y)
              (KeepsKeys-trans c _ _ read (
                KeepsKeys-trans _ _ _ (call-KeepsKeys _ _)
                  (robot_reconfigures-KeepsKeys a.first_call k _)))
      ]
      | inr x ↦ rw x (KeepsKeys-refl c)
    ]

pub handle_capabilities_reconfigured-IsOrderly :
    (k : ℕ) (c : Controller) → IsOrderly c → IsOrderly (handle_capabilities_reconfigured k c)
unfolding handle_capabilities_reconfigured
handle_capabilities_reconfigured-IsOrderly k c h =
    IsOrderly-KeepsKeys
      (update_robot-KeepsKeys k (set_adaptivity false) (remove_stopped_robots c)
        (set_adaptivity-endpoint false))
      (remove_stopped_robots-IsOrderly c h)

perform_requests-IsOrderly :
    (answers : ℕ → AdaptationAnswers) (i : ℕ) (qs : List Request) (c : Controller)
    → IsOrderly c
    → IsOrderly (perform_requests answers i qs c)
unfolding perform_requests perform_request
perform_requests-IsOrderly answers i [] c h = h
perform_requests-IsOrderly answers i (swap_robot_positions from to ∷ qs) c h =
    perform_requests-IsOrderly answers (suc i) qs _
      (Lists-IsOrderly (swap_robot_positions-Lists (answers i) from to c) h)
perform_requests-IsOrderly answers i (reconfigure_robot k profile ∷ qs) c h =
    perform_requests-IsOrderly answers (suc i) qs _
      (IsOrderly-KeepsKeys (reconfigure_robot_capability-KeepsKeys (answers i) k profile c) h)

pub send_next_robot-KeepsKeys :
    (x : Receiver) (id : ℕ) (o : Option RemoteRobot) (c : Controller)
    → KeepsKeys c (send_next_robot x id o c)
unfolding send_next_robot
send_next_robot-KeepsKeys x id none c = elim (Bool-cases (is_known x c.next_robot_receivers)) [
  | inl e ↦ rw e (call-KeepsKeys _ c)
  | inr e ↦ rw e (KeepsKeys-refl c)
]
send_next_robot-KeepsKeys x id (some r) c = elim (Bool-cases (is_known x c.next_robot_receivers)) [
  | inl e ↦ rw e (call-KeepsKeys _ c)
  | inr e ↦ rw e (KeepsKeys-refl c)
]

answer_request-IsOrderly :
    (a : RequestAnswers) (x : Receiver) (id : ℕ) (d : Decision) (c : Controller)
    → IsOrderly c
    → IsOrderly (answer_request a x id d c)
unfolding answer_request
answer_request-IsOrderly a x id d c h =
    IsOrderly-KeepsKeys (send_next_robot-KeepsKeys x id _ _)
      (perform_requests-IsOrderly a.adaptations 0 d.requests c h)

pub connect_receiver-KeepsKeys :
    (starts : Bool) (x : Receiver) (c : Controller) → KeepsKeys c (connect_receiver starts x c)
unfolding connect_receiver
connect_receiver-KeepsKeys starts x c = elim (Bool-cases (is_known x c.next_robot_receivers)) [
  | inl e ↦ rw e (KeepsKeys-refl c)
  | inr e ↦ elim (Bool-cases starts) [
    | inl s ↦ rw (e, s) (KeepsKeys-same c _ refl refl refl)
    | inr s ↦ rw (e, s) (KeepsKeys-refl c)
  ]
]

pub handle_next_robot_request-IsOrderly :
    (a : RequestAnswers) (id processed : ℕ) (x : Receiver) (c d : Controller)
    → handle_next_robot_request a id processed x c ≡ ok d
    → IsOrderly c
    → IsOrderly d
unfolding handle_next_robot_request choose_robot
handle_next_robot_request-IsOrderly a id processed x c d e h =
    let c' = connect_receiver a.receiver_starts x (tidy_up c) in
    let k =
      IsOrderly-KeepsKeys (connect_receiver-KeepsKeys a.receiver_starts x (tidy_up c))
        (tidy_up-IsOrderly c h) in
    let (q, left, rest) = >>=-eq-ok (actions_left id processed c') _ e in
    let (choice, chosen, last) =
      >>=-eq-ok (c'.kitchen_mape (views c'.position_remote_robot_map) q) _ rest in
    let same : answer_request a x id choice c' ≡ d = cc in
    rw (← same) (answer_request-IsOrderly a x id choice c' k)

-- ===== src/Controller/Reconfiguring.antt =====
-- Orders that make a robot reconfigure (controller.cpp, kitchen_mape.cpp).
use opcua_cps_kitchen.Base.{
  ℕ, ◌<◌, ◌≡◌, ◌≢◌, ◌⊎◌, refl, sym, ap, ◌∙◌, subst, inl, inr, String, true, false, Option, none,
  some, List, [], ◌∷◌, find, ◌==◌, Bool-cases, Option-cases, arith,
}
use opcua_cps_kitchen.Actions.{RobotAction}
use opcua_cps_kitchen.Robot.State.{ok}
use opcua_cps_kitchen.Conveyor.Delivery.{Flagged, failed, bad_size, bad_type, result}
use opcua_cps_kitchen.Mape.{
  RobotView, Profiles, reconfigure_robot, is_suitable, find_robot, drop_capable, robot_after_next,
  reconfigure_requests, is_behind, find_profile, next_name, swap_profiles, simple_reconfiguration,
  on_new_order, kitchen_mape,
}
use opcua_cps_kitchen.Controller.State.{
  RemoteRobot, Receiver, Call, receive_next_robot, reconfigure, Controller,
}
use opcua_cps_kitchen.Controller.Registry.{
  is_registered, update_robot, set_adaptivity, stop_robot, call,
}
use opcua_cps_kitchen.Controller.Swaps.{AdaptationAnswers, is_refused_at, after_read}
use opcua_cps_kitchen.Controller.Requests.{
  robot_reconfigures, ask_profile, reconfigure_robot_capability, perform_request, perform_requests,
  view, views, is_known, robot_to_send, send_next_robot, RequestAnswers, answer_request,
  actions_left, choose_robot,
}
use opcua_cps_kitchen.Controller.Falling.{AreBelow, IsFalling}
use opcua_cps_kitchen.Controller.Adapting.{is_pending_at, ask-pending, asked-pending}

-- What the policy asks for, if it asks: its robot is the first.
policy_shape :
    (profiles : Profiles) (rs : List RobotView) (b : RobotAction) (q : List RobotAction)
    → ((on_new_order profiles rs (b ∷ q)).requests ≡ [])
      ⊎ ((v : RobotView) × (after : ℕ) × (f : String) × (g : String) × (find_robot b.name rs
            ≡ some v)
          × ((on_new_order profiles rs (b ∷ q)).suitable_robot ≡ some v)
          × ((on_new_order profiles rs (b ∷ q)).requests
              ≡ reconfigure_robot v.position f ∷ reconfigure_robot after g ∷ []))
unfolding on_new_order simple_reconfiguration swap_profiles reconfigure_requests
policy_shape profiles rs b q = elim (Option-cases (find_robot b.name rs)) [
  | inl e ↦ inl (rw e refl)
  | inr (v, e) ↦ elim (Option-cases (robot_after_next rs (drop_capable v.capabilities q))) [
    | inl e' ↦ inl (rw (e, e') refl)
    | inr (after, e') ↦ elim (Bool-cases (is_behind v after)) [
      | inl x ↦ inr (
        v,
        after.position,
        find_profile (next_name (drop_capable v.capabilities q)) profiles,
        find_profile b.name profiles,
        e,
        rw e refl,
        rw (e, e', x) refl,
      )
      | inr x ↦ inl (rw (e, e', x) refl)
    ]
  ]
]

found_below :
    (j k : ℕ) (r : RemoteRobot) (m : List (ℕ × RemoteRobot))
    → AreBelow j m
    → find m k ≡ some r
    → k < j
unfolding find
found_below j k r [] h e = absurd cc
found_below j k r ((i, s) ∷ m) h e = elim (Bool-cases (i == k)) [
  | inl x ↦ let lt : i < j = h.0 in ground arith
  | inr x ↦ found_below j k r m h.1 (ground arith)
]

-- A robot that the search finds is registered under its key and is not being adapted.
found_registered :
    (name : String) (m : List (ℕ × RemoteRobot)) (v : RobotView)
    → IsFalling m
    → find_robot name (views m) ≡ some v
    → (r : RemoteRobot) × (find m v.key ≡ some r) × (r.adaptivity_is_pending ≡ false)
unfolding find find_robot views view is_suitable
found_registered name [] v h e = absurd cc
found_registered name ((k, r) ∷ m) v h e = elim (Bool-cases (is_suitable name (view (k, r)))) [
  | inl s ↦
      let same : view (k, r) ≡ v = ground arith in
      let key : k ≡ v.key = ap (λ w. w.key) same in (r, ground arith, ground arith)
  | inr s ↦
      let (r', there, free) = found_registered name m v h.1 (ground arith) in
      let below : v.key < k = found_below k v.key r' m h.0 there in (r', ground arith, free)
]

pending_not_sent :
    (v : RobotView) (m : List (ℕ × RemoteRobot))
    → is_pending_at v.key m ≡ true
    → robot_to_send (some v) m ≡ none
unfolding robot_to_send
pending_not_sent v m h = elim (Option-cases (find m v.key)) [
  | inl e ↦ rw (robot_to_send, e) refl
  | inr (r, e) ↦
      let p : r.adaptivity_is_pending ≡ true = ground arith in rw (robot_to_send, e, p) refl
]

update_robot-receivers :
    (k : ℕ) (f : RemoteRobot → RemoteRobot) (c : Controller)
    → (update_robot k f c).next_robot_receivers ≡ c.next_robot_receivers
unfolding update_robot
update_robot-receivers k f c = elim (Option-cases (find c.position_remote_robot_map k)) [
  | inl e ↦ rw (update_robot, e) refl
  | inr (r, e) ↦ rw (update_robot, e) refl
]

robot_reconfigures-receivers :
    (answer : Flagged) (k : ℕ) (c : Controller)
    → (robot_reconfigures answer k c).next_robot_receivers ≡ c.next_robot_receivers
unfolding robot_reconfigures
robot_reconfigures-receivers failed k c = update_robot-receivers k stop_robot c
robot_reconfigures-receivers bad_size k c = refl
robot_reconfigures-receivers bad_type k c = refl
robot_reconfigures-receivers (result true) k c = update_robot-receivers k (set_adaptivity true) c
robot_reconfigures-receivers (result false) k c = refl

ask-receivers :
    (a : AdaptationAnswers) (k : ℕ) (profile : String) (c : Controller)
    → (reconfigure_robot_capability a k profile c).next_robot_receivers ≡ c.next_robot_receivers
unfolding reconfigure_robot_capability ask_profile call
ask-receivers a k profile c =
    let c' = update_robot k (after_read a.first_available) c in
    let read = update_robot-receivers k (after_read a.first_available) c in
    elim (Bool-cases (is_registered k c.position_remote_robot_map)) [
      | inl x ↦ elim (Bool-cases (is_refused_at a.first_available k c.position_remote_robot_map)) [
        | inl y ↦ rw (x, y) read
        | inr y ↦
            rw (x, y)
              (robot_reconfigures-receivers a.first_call k (call (reconfigure k profile) c')
                ∙ (unfold call in read))
      ]
      | inr x ↦ rw x refl
    ]

sends_nobody :
    (x : Receiver) (id : ℕ) (o : Option RobotView) (c d : Controller)
    → c ≡ d
    → robot_to_send o d.position_remote_robot_map ≡ none
    → is_known x d.next_robot_receivers ≡ true
    → send_next_robot x id (robot_to_send o c.position_remote_robot_map) c
      ≡ call (receive_next_robot x 0 "" id) d
unfolding send_next_robot
sends_nobody x id o c d same gone known =
    subst
      (λ e.
        send_next_robot x id (robot_to_send o e.position_remote_robot_map) e
        ≡ call (receive_next_robot x 0 "" id) d)
      (sym same) (rw (gone, send_next_robot, known) refl)

-- If the policy that the controller runs has its chosen robot reconfigure for an order, and the
-- robot, which tells the position under which it is registered, is available and agrees, then the
-- request is answered with no robot.
pub reconfiguring_robot_not_sent :
    (profiles : Profiles) (a : RequestAnswers) (id processed : ℕ) (x : Receiver) (c : Controller)
    (b : RobotAction) (q : List RobotAction)
    → c.kitchen_mape ≡ kitchen_mape profiles
    → IsFalling c.position_remote_robot_map
    → actions_left id processed c ≡ ok (b ∷ q)
    → ((v : RobotView)
        → find_robot b.name (views c.position_remote_robot_map) ≡ some v
        → v.position ≡ v.key)
    → (on_new_order profiles (views c.position_remote_robot_map) (b ∷ q)).requests ≢ []
    → (a.adaptations 0).first_available ≡ some true
    → (a.adaptations 0).first_call ≡ result true
    → is_known x c.next_robot_receivers ≡ true
    → (d : Controller) × (before : List Call) × (choose_robot a id processed x c ≡ ok d)
      × (d.calls ≡ receive_next_robot x 0 "" id ∷ before)
unfolding choose_robot kitchen_mape
reconfiguring_robot_not_sent profiles a id processed x c b q policy h left tells asks av agreed
      known =
    elim (policy_shape profiles (views c.position_remote_robot_map) b q) [
      | inl quiet ↦ absurd (asks quiet)
      | inr (v, after, f, g, found, suitable, requests) ↦
          let choice = on_new_order profiles (views c.position_remote_robot_map) (b ∷ q) in
          let (r, there, free) = found_registered b.name c.position_remote_robot_map v h found in
          let at_key : v.position ≡ v.key = tells v found in
          let c' = reconfigure_robot_capability (a.adaptations 0) v.key f c in
          let c'' = reconfigure_robot_capability (a.adaptations 1) after g c' in
          let performed : perform_requests a.adaptations 0 choice.requests c ≡ c'' =
            rw (requests, at_key) (unfold perform_requests perform_request in refl) in
          let pending =
            ask-pending (a.adaptations 1) after v.key g c'
              (asked-pending (a.adaptations 0) v.key f c r av agreed there free) in
          let gone : robot_to_send choice.suitable_robot c''.position_remote_robot_map ≡ none =
            rw suitable (pending_not_sent v c''.position_remote_robot_map pending) in
          let still_known : is_known x c''.next_robot_receivers ≡ true =
            rw
              (
                ask-receivers (a.adaptations 1) after g c',
                ask-receivers (a.adaptations 0) v.key f c,
              )
              known in
          let sent : answer_request a x id choice c ≡ call (receive_next_robot x 0 "" id) c'' =
            unfold answer_request in
            sends_nobody x id choice.suitable_robot
              (perform_requests a.adaptations 0 choice.requests c) c'' performed gone still_known in
          let decided : c.kitchen_mape (views c.position_remote_robot_map) (b ∷ q) ≡ ok choice =
            ap (λ p. p (views c.position_remote_robot_map) (b ∷ q)) policy in
          (
            answer_request a x id choice c,
            c''.calls,
            rw (left, decided) refl,
            rw sent (unfold call in refl),
          )
    ]

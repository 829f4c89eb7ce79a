-- ===== src/Controller/Answers.antt =====
-- What the controller answers a request for a robot (controller.cpp).
use opcua_cps_kitchen.Base.{
  ℕ, ◌≡◌, ◌⊎◌, refl, sym, ap, ◌∙◌, subst, inl, inr, String, true, false, Option, none, some, List,
  ◌∷◌, find, Bool-cases, Option-cases, arith,
}
use opcua_cps_kitchen.Actions.{RobotAction}
use opcua_cps_kitchen.Robot.State.{ok, >>=-eq-ok}
use opcua_cps_kitchen.Mape.{RobotView, Decision}
use opcua_cps_kitchen.Controller.State.{RemoteRobot, Receiver, Call, receive_next_robot, Controller}
use opcua_cps_kitchen.Controller.Registry.{call, tidy_up}
use opcua_cps_kitchen.Controller.Calls.{
  answers_in, tidy_up-calls, connect_receiver-calls, perform_requests-answers,
}
use opcua_cps_kitchen.Controller.Requests.{
  perform_requests, views, is_known, connect_receiver, robot_to_send, send_next_robot,
  RequestAnswers, answer_request, actions_left, choose_robot, handle_next_robot_request,
}

-- The robot that stands behind an answer: registered, not being adapted, and the policy's choice
-- for the actions that are left.
pub record IsSent (c d : Controller) (id processed p : ℕ) (e : String) : Type 0 where
  pub key : ℕ
  pub robot : RemoteRobot
  pub found : find d.position_remote_robot_map key ≡ some robot
  pub steady : robot.adaptivity_is_pending ≡ false
  pub position : p ≡ robot.position
  pub endpoint : e ≡ robot.endpoint
  pub actions : List RobotAction
  pub left : actions_left id processed c ≡ ok actions
  pub decision : Decision
  pub decided : c.kitchen_mape (views c.position_remote_robot_map) actions ≡ ok decision
  pub chosen : RobotView
  pub suitable : decision.suitable_robot ≡ some chosen
  pub same : chosen.key ≡ key

-- One call of the receiver, the last one, besides the calls of receivers before.
pub record IsAnswered (c d : Controller) (id processed : ℕ) (x : Receiver) : Type 0 where
  pub position : ℕ
  pub endpoint : String
  pub before : List Call
  pub last_call : d.calls ≡ receive_next_robot x position endpoint id ∷ before
  pub only_one : answers_in before ≡ answers_in c.calls
  pub meaning : ((position ≡ 0) × (endpoint ≡ "")) ⊎ IsSent c d id processed position endpoint

pub robot_to_send-some :
    (v : RobotView) (m : List (ℕ × RemoteRobot)) (r : RemoteRobot)
    → robot_to_send (some v) m ≡ some r
    → (find m v.key ≡ some r) × (r.adaptivity_is_pending ≡ false)
unfolding robot_to_send
robot_to_send-some v m r h = elim (Option-cases (find m v.key)) [
  | inl e ↦ absurd (ground arith)
  | inr (s, e) ↦ elim (Bool-cases s.adaptivity_is_pending) [
    | inl p ↦ absurd (ground arith)
    | inr p ↦
        let same : s ≡ r = ground arith in
        (e ∙ ap (λ y. some y) same, subst (λ y. y.adaptivity_is_pending ≡ false) same p)
  ]
]

pub sent_by :
    (c after : Controller) (id processed : ℕ) (x : Receiver) (q : List RobotAction)
    (choice : Decision) (o : Option RobotView)
    → actions_left id processed c ≡ ok q
    → c.kitchen_mape (views c.position_remote_robot_map) q ≡ ok choice
    → choice.suitable_robot ≡ o
    → is_known x after.next_robot_receivers ≡ true
    → answers_in after.calls ≡ answers_in c.calls
    → IsAnswered c
        (send_next_robot x id (robot_to_send o after.position_remote_robot_map) after)
        id
        processed
        x
unfolding send_next_robot call
sent_by c after id processed x q choice none left decided e known quiet =
    unfold robot_to_send in
    rw known (record {
      position = 0;
      endpoint = "";
      before = after.calls;
      last_call = refl;
      only_one = quiet;
      meaning = inl (refl, refl);
    })
sent_by c after id processed x q choice (some v) left decided e known quiet =
    elim (Option-cases (robot_to_send (some v) after.position_remote_robot_map)) [
      | inl gone ↦
          rw (gone, known)
            (record {
              position = 0;
              endpoint = "";
              before = after.calls;
              last_call = refl;
              only_one = quiet;
              meaning = inl (refl, refl);
            })
      | inr (r, there) ↦
          let (found, steady) = robot_to_send-some v after.position_remote_robot_map r there in
          rw (there, known)
            (record {
              position = r.position;
              endpoint = r.endpoint;
              before = after.calls;
              last_call = refl;
              only_one = quiet;
              meaning = inr (record {
                key = v.key;
                robot = r;
                found = found;
                steady = steady;
                position = refl;
                endpoint = refl;
                actions = q;
                left = left;
                decision = choice;
                decided = decided;
                chosen = v;
                suitable = e;
                same = refl;
              });
            })
    ]

pub send-receivers :
    (x y : Receiver) (id : ℕ) (o : Option RemoteRobot) (c : Controller)
    → is_known y (send_next_robot x id o c).next_robot_receivers ≡ is_known y c.next_robot_receivers
unfolding send_next_robot call
send-receivers x y id none c = ground arith
send-receivers x y id (some r) c = ground arith

-- A handled request of a receiver that the controller is connected to calls a receiver exactly
-- once: the one that asked, with the last call that it makes. It names either no robot, by
-- position 0 and an empty endpoint, or a registered robot that is not being adapted, and which
-- the policy has chosen, for the recipe's actions that are left, from the robots after the
-- clean-up.
pub handle_next_robot_request_answer :
    (a : RequestAnswers) (id processed : ℕ) (x : Receiver) (c d : Controller)
    → handle_next_robot_request a id processed x c ≡ ok d
    → is_known x d.next_robot_receivers ≡ true
    → IsAnswered (connect_receiver a.receiver_starts x (tidy_up c)) d id processed x
      × ((connect_receiver a.receiver_starts x (tidy_up c)).calls ≡ c.calls)
unfolding handle_next_robot_request choose_robot answer_request
handle_next_robot_request_answer a id processed x c d h known =
    let c' = connect_receiver a.receiver_starts x (tidy_up c) in
    let (q, left, rest) = >>=-eq-ok (actions_left id processed c') _ h in
    let (choice, decided, last) =
      >>=-eq-ok (c'.kitchen_mape (views c'.position_remote_robot_map) q) _ rest in
    let after = perform_requests a.adaptations 0 choice.requests c' in
    let o = robot_to_send choice.suitable_robot after.position_remote_robot_map in
    let same : send_next_robot x id o after ≡ d = cc in
    let known' : is_known x after.next_robot_receivers ≡ true =
      sym (send-receivers x x id o after)
      ∙ ap (λ y. is_known x y.next_robot_receivers) same
      ∙ known in
    (
      subst (λ y. IsAnswered c' y id processed x) same
          (sent_by c' after id processed x q choice choice.suitable_robot left decided refl known'
            (perform_requests-answers a.adaptations 0 choice.requests c')),
      connect_receiver-calls a.receiver_starts x (tidy_up c) ∙ tidy_up-calls c,
    )

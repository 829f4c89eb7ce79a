-- ===== src/Robot/Activity/Calls.antt =====
-- The activity of a robot and its method nodes (robot.cpp).
use opcua_cps_kitchen.Base.{
  ℕ, ◌≡◌, refl, subst, String, Bool, true, false, ◌&&◌, Option, List, [], ◌∷◌, if◌then◌else◌, arith,
}
use opcua_cps_kitchen.Capabilities.{Capabilities, same_capabilities}
use opcua_cps_kitchen.Robot.State.{
  receive, target, profile, commit, cook, Robot, ok, >>=-eq-ok, or_fault,
}
use opcua_cps_kitchen.Robot.Work.{post}
use opcua_cps_kitchen.Robot.Methods.{
  Variant, uint32, string, Answer, good, is_available, is_rearranging, task_received, answer_task,
  receive_task, request_position, request_profile, forget_order, finished_order,
  nothing_to_hand_over, handle_handover_finished_order, good_handover, handover_finished_order,
  refuses_position, switch_position, commit_new_position, begin_reconfiguration, reconfigure,
}
use opcua_cps_kitchen.Robot.Loop.{is_target, is_profile, is_commit, is_cook, count_tasks}
use opcua_cps_kitchen.Robot.Activity.{activity, Inv, count_tasks-append}

-- What a call leaves: the invariant, if it held, and the running flag.
abbrev pub Kept : Robot → Robot → Type 0
Kept r s = (Inv r → Inv s) × (s.running ≡ r.running)

Kept-refl : (r : Robot) → Kept r r
Kept-refl r = (λ v. v, refl)

Kept-if : (b : Bool) (r s t : Robot) → Kept r s → Kept r t → Kept r (if b then s else t)
Kept-if true r s t h k = h
Kept-if false r s t h k = k

post_receive-Inv : (id processed : ℕ) (r : Robot) → Inv r → Inv (post (receive id processed) r)
unfolding post activity
post_receive-Inv id processed r v = ground (
  arith,
  count_tasks-append is_cook r.tasks (receive id processed ∷ []),
  count_tasks-append is_commit r.tasks (receive id processed ∷ []),
  count_tasks-append is_target r.tasks (receive id processed ∷ []),
  count_tasks-append is_profile r.tasks (receive id processed ∷ []),
)

answer_task-Kept :
    (id processed : ℕ) (r : Robot) (received : Bool)
    → Kept r (answer_task id processed r received).0
unfolding answer_task
answer_task-Kept id processed r true = (post_receive-Inv id processed r, unfold post in refl)
answer_task-Kept id processed r false = Kept-refl r

pub receive_task-Kept :
    (vs : List Variant) (a : Answer (ℕ × Bool)) (r s : Robot)
    → receive_task vs r ≡ ok (s, a)
    → Kept r s
unfolding receive_task
receive_task-Kept (uint32 id ∷ uint32 processed ∷ uint32 addressed ∷ []) a r s e =
    let (received, _, answered) = >>=-eq-ok (task_received id processed addressed r) _ e in
    let same : (answer_task id processed r received).0 ≡ s = ground arith in
    subst (Kept r) same (answer_task-Kept id processed r received)
receive_task-Kept _ a r s e = let same : r ≡ s = ground arith in subst (Kept r) same (Kept-refl r)

-- The conveyor's pickup hands the activity on to a posted cook_next_order.
handover-Inv : (r : Robot) → Inv r → r.pending_pickup ≡ true → Inv (post cook (forget_order r))
unfolding post forget_order activity
handover-Inv r v h = ground (
  arith,
  count_tasks-append is_cook r.tasks (cook ∷ []),
  count_tasks-append is_commit r.tasks (cook ∷ []),
  count_tasks-append is_target r.tasks (cook ∷ []),
  count_tasks-append is_profile r.tasks (cook ∷ []),
)

Kept-choice :
    {A : Type 0} (b : Bool) (r : Robot) (x y : Robot × A)
    → (b ≡ true → Kept r x.0)
    → (b ≡ false → Kept r y.0)
    → Kept r (if b then x else y).0
Kept-choice true r x y h k = h refl
Kept-choice false r x y h k = k refl

pub handover_finished_order-Kept :
    (vs : List Variant) (r : Robot) → Kept r (handover_finished_order vs r).0
unfolding handover_finished_order handle_handover_finished_order good_handover forget_order post
handover_finished_order-Kept (v ∷ vs) r = Kept-refl r
handover_finished_order-Kept [] r =
    Kept-choice r.pending_pickup r (post cook (forget_order r), finished_order r)
      (r, nothing_to_hand_over r) (λ h. (λ v. handover-Inv r v h, refl)) (λ _. Kept-refl r)

request_position-Inv :
    (p : ℕ) (r : Robot) → Inv r → is_available r.robot_state ≡ true → Inv (request_position p r)
unfolding request_position is_available activity
request_position-Inv p r v h = ground (
  arith,
  count_tasks-append is_cook r.tasks (target p ∷ []),
  count_tasks-append is_commit r.tasks (target p ∷ []),
  count_tasks-append is_target r.tasks (target p ∷ []),
  count_tasks-append is_profile r.tasks (target p ∷ []),
)

both : (a b : Bool) → (a && b) ≡ true → (a ≡ true) × (b ≡ true)
both true b h = (refl, h)
both false b h = cc

pub switch_position-Kept :
    (written : Bool) (vs : List Variant) (r : Robot) → Kept r (switch_position written vs r).0
unfolding switch_position request_position
switch_position-Kept written (uint32 p ∷ []) r =
    Kept-choice (refuses_position p r) r (r, good false) _ (λ _. Kept-refl r)
      (λ _.
        Kept-choice (is_available r.robot_state && written) r (request_position p r, good true)
          (r, good false)
          (λ h.
            (λ v. request_position-Inv p r v (both (is_available r.robot_state) written h).0, refl))
          (λ _. Kept-refl r))
switch_position-Kept written _ r = Kept-refl r

-- A commit is posted only if none is.
posted_commit-Inv :
    (r : Robot)
    → Inv r
    → r.attributes.new_position_commit_is_pending ≡ true
    → count_tasks is_commit r.tasks ≡ 0
    → Inv (post commit r)
unfolding post activity
posted_commit-Inv r v h n = ground (
  arith,
  count_tasks-append is_cook r.tasks (commit ∷ []),
  count_tasks-append is_commit r.tasks (commit ∷ []),
  count_tasks-append is_target r.tasks (commit ∷ []),
  count_tasks-append is_profile r.tasks (commit ∷ []),
)

pub commit_new_position-Kept :
    (vs : List Variant) (r : Robot)
    → count_tasks is_commit r.tasks ≡ 0
    → Kept r (commit_new_position vs r).0
unfolding commit_new_position post
commit_new_position-Kept (v ∷ vs) r n = Kept-refl r
commit_new_position-Kept [] r n =
    Kept-choice (is_rearranging r.robot_state && r.attributes.new_position_commit_is_pending) r
      (post commit r, good true) (r, good false)
      (λ h. (λ v. posted_commit-Inv r v (both (is_rearranging r.robot_state) _ h).1 n, refl))
      (λ _. Kept-refl r)

request_profile-Inv :
    (name : String) (r : Robot)
    → Inv r
    → is_available r.robot_state ≡ true
    → Inv (request_profile name r)
unfolding request_profile is_available activity
request_profile-Inv name r v h = ground (
  arith,
  count_tasks-append is_cook r.tasks (profile ∷ []),
  count_tasks-append is_commit r.tasks (profile ∷ []),
  count_tasks-append is_target r.tasks (profile ∷ []),
  count_tasks-append is_profile r.tasks (profile ∷ []),
)

begin_reconfiguration-Kept :
    (written : Bool) (name : String) (r : Robot) → Kept r (begin_reconfiguration written name r).0
unfolding begin_reconfiguration request_profile
begin_reconfiguration-Kept written name r =
    Kept-choice (is_available r.robot_state && written) r (request_profile name r, good true)
      (r, good false)
      (λ h.
        (λ v. request_profile-Inv name r v (both (is_available r.robot_state) written h).0, refl))
      (λ _. Kept-refl r)

pub reconfigure-Kept :
    (profiles : String → Option Capabilities) (written : Bool) (vs : List Variant) (a : Answer Bool)
    (r s : Robot)
    → reconfigure profiles written vs r ≡ ok (s, a)
    → Kept r s
unfolding reconfigure
reconfigure-Kept profiles written (string name ∷ []) a r s e =
    let (caps, _, k) = >>=-eq-ok (or_fault (profiles name) _) _ e in
    let same : (if same_capabilities caps r.capability_parser
          then (r, good false)
          else begin_reconfiguration written name r)
        ≡ (s, a) =
      cc in
    subst (λ x. Kept r x.0) same
      (Kept-choice (same_capabilities caps r.capability_parser) r (r, good false)
        (begin_reconfiguration written name r) (λ _. Kept-refl r)
        (λ _. begin_reconfiguration-Kept written name r))
reconfigure-Kept profiles written _ a r s e =
    let same : r ≡ s = ground arith in subst (Kept r) same (Kept-refl r)

-- ===== src/Controller/Adapting.antt =====
-- Robots that are being adapted (controller.cpp).
use opcua_cps_kitchen.Base.{
  ℕ, ◌≡◌, ◌⊎◌, refl, inl, inr, String, Bool, true, false, Option, none, some, List, find, ◌==◌,
  if◌then◌else◌, Bool-cases, Option-cases, arith,
}
use opcua_cps_kitchen.Conveyor.Delivery.{Flagged, failed, bad_size, bad_type, result}
use opcua_cps_kitchen.Controller.State.{RemoteRobot, reconfigure, Controller}
use opcua_cps_kitchen.Controller.Registry.{
  enter, is_registered, update_robot, set_adaptivity, stop_robot, call,
}
use opcua_cps_kitchen.Controller.Swaps.{AdaptationAnswers, is_refused, is_refused_at, after_read}
use opcua_cps_kitchen.Controller.Requests.{
  robot_reconfigures, ask_profile, reconfigure_robot_capability,
}
use opcua_cps_kitchen.Controller.Falling.{find-enter}

-- The robot under a key is being adapted.
abbrev pub is_pending_at : ℕ → List (ℕ × RemoteRobot) → Bool
is_pending_at k m = elim (find m k) [ none ↦ false | some r ↦ r.adaptivity_is_pending ]

-- An assignment that does not end an adaptation.
abbrev pub KeepsPending : (RemoteRobot → RemoteRobot) → Type 0
KeepsPending f =
    (r : RemoteRobot) → r.adaptivity_is_pending ≡ true → (f r).adaptivity_is_pending ≡ true

pub is_pending_at-enter :
    (k j : ℕ) (r : RemoteRobot) (m : List (ℕ × RemoteRobot))
    → is_pending_at j (enter k r m)
      ≡ (if k == j then r.adaptivity_is_pending else is_pending_at j m)
is_pending_at-enter k j r m = ground (arith, find-enter k j r m)

pub update-pending :
    (k j : ℕ) (f : RemoteRobot → RemoteRobot) (c : Controller)
    → KeepsPending f
    → is_pending_at j c.position_remote_robot_map ≡ true
    → is_pending_at j (update_robot k f c).position_remote_robot_map ≡ true
unfolding update_robot
update-pending k j f c keeps h = elim (Option-cases (find c.position_remote_robot_map k)) [
  | inl e ↦ rw (update_robot, e) h
  | inr (r, e) ↦ rw (update_robot, e) (go (Bool-cases (k == j)) r e)
]
  where
    go :
        ((k == j) ≡ true) ⊎ ((k == j) ≡ false)
        → (r : RemoteRobot) → find c.position_remote_robot_map k ≡ some r
        → is_pending_at j (enter k (f r) c.position_remote_robot_map) ≡ true
    go (inl s) r e =
        let same : k ≡ j = ground arith in
        let was : r.adaptivity_is_pending ≡ true = ground arith in
        rw (is_pending_at-enter k j (f r) c.position_remote_robot_map, s) (keeps r was)
    go (inr s) r e = rw (is_pending_at-enter k j (f r) c.position_remote_robot_map, s) h

pub reads :
    (o : Option Bool) (r : RemoteRobot)
    → r.adaptivity_is_pending ≡ true
    → (after_read o r).adaptivity_is_pending ≡ true
unfolding after_read
reads o r e = ground arith

pub reconfigures-pending :
    (answer : Flagged) (k j : ℕ) (c : Controller)
    → is_pending_at j c.position_remote_robot_map ≡ true
    → is_pending_at j (robot_reconfigures answer k c).position_remote_robot_map ≡ true
unfolding robot_reconfigures
reconfigures-pending failed k j c h =
    update-pending k j stop_robot c (λ r e. unfold stop_robot in e) h
reconfigures-pending bad_size k j c h = h
reconfigures-pending bad_type k j c h = h
reconfigures-pending (result true) k j c h =
    update-pending k j (set_adaptivity true) c (λ r e. unfold set_adaptivity in refl) h
reconfigures-pending (result false) k j c h = h

pub ask-pending :
    (a : AdaptationAnswers) (k j : ℕ) (profile : String) (c : Controller)
    → is_pending_at j c.position_remote_robot_map ≡ true
    → is_pending_at j (reconfigure_robot_capability a k profile c).position_remote_robot_map ≡ true
unfolding reconfigure_robot_capability ask_profile call
ask-pending a k j profile c h = elim (Bool-cases (is_registered k c.position_remote_robot_map)) [
  | inl x ↦ elim (Bool-cases (is_refused_at a.first_available k c.position_remote_robot_map)) [
    | inl y ↦ rw (x, y) read
    | inr y ↦ rw (x, y) (answered a.first_call)
  ]
  | inr x ↦ rw x h
]
  where
    c' : Controller
    c' = update_robot k (after_read a.first_available) c

    read : is_pending_at j c'.position_remote_robot_map ≡ true
    read =
        update-pending k j (after_read a.first_available) c (λ r e. reads a.first_available r e) h

    answered :
        (answer : Flagged)
        → is_pending_at j
            (robot_reconfigures answer k
              (call (reconfigure k profile) c')).position_remote_robot_map
          ≡ true
    answered answer = reconfigures-pending answer k j (call (reconfigure k profile) c') read

-- The first request is agreed to, so its robot is being adapted from then on.
pub asked-pending :
    (a : AdaptationAnswers) (k : ℕ) (profile : String) (c : Controller) (r : RemoteRobot)
    → a.first_available ≡ some true
    → a.first_call ≡ result true
    → find c.position_remote_robot_map k ≡ some r
    → r.adaptivity_is_pending ≡ false
    → is_pending_at k (reconfigure_robot_capability a k profile c).position_remote_robot_map ≡ true
unfolding reconfigure_robot_capability ask_profile robot_reconfigures call update_robot
    set_adaptivity is_registered is_refused_at is_refused after_read
asked-pending a k profile c r av agreed e free = ground (
  arith,
  find-enter k k r c.position_remote_robot_map,
  find-enter k k (set_adaptivity true r) (enter k r c.position_remote_robot_map),
)

-- ===== src/Controller/Directory/Handlers.antt =====
-- The handlers, on the directory (controller.cpp).
use opcua_cps_kitchen.Base.{
  ℕ, ◌<◌, ◌≡◌, refl, ap, sym, ◌∙◌, ◌⊎◌, ltb, ◌==◌, subst, inl, inr, String, true, not, ◌&&◌, none,
  some, List, find, if◌then◌else◌, Bool-cases, Option-cases, arith,
}
use opcua_cps_kitchen.Capabilities.{Capabilities}
use opcua_cps_kitchen.Robot.State.{ok, >>=-eq-ok}
use opcua_cps_kitchen.Conveyor.Delivery.{Flagged}
use opcua_cps_kitchen.Controller.State.{
  RemoteRobot, PendingSwap, Receiver, new_remote_robot, Controller,
}
use opcua_cps_kitchen.Controller.Registry.{is_registered, is_robot_position_swapping, tidy_up}
use opcua_cps_kitchen.Controller.Swaps.{
  put_swap, complete_swap, complete_if_acknowledged, swap_at, acknowledge, acknowledge_swap,
  handle_position_swapped,
}
use opcua_cps_kitchen.Controller.Requests.{
  RegistrationAnswers, register_at, register_if_free, handle_robot_registration, views,
  connect_receiver, RequestAnswers, answer_request, actions_left, choose_robot,
  handle_next_robot_request,
}
use opcua_cps_kitchen.Controller.Falling.{IsFalling}
use opcua_cps_kitchen.Controller.Pending.{IsOrderly, endpoint_at}
use opcua_cps_kitchen.Controller.Pending.Keys.{tidy_up-IsOrderly}
use opcua_cps_kitchen.Controller.Pending.Entries.{find_swap-ordered, find_swap-keys}
use opcua_cps_kitchen.Controller.Pending.Completion.{swap_at-found}
use opcua_cps_kitchen.Controller.Pending.Requests.{
  resolve-KeepsKeys, connect_receiver-KeepsKeys, register_at-IsOrderly,
}
use opcua_cps_kitchen.Controller.Directory.{
  Directory, joined, exchanged, is_vacant, completes, running_robots, directory, Follows,
  Follows-trans, IsExchanged, tells_other, tells_exchanged, is_acknowledged, tells_for,
}
use opcua_cps_kitchen.Controller.Directory.Registry.{
  KeepsMap-Follows, KeepsKeys-Follows, tidy_up-Follows, register_at-Follows,
}
use opcua_cps_kitchen.Controller.Directory.Switching.{answer_request-KeepsRobots}
use opcua_cps_kitchen.Controller.Directory.Exchange.{settle_both-Follows}

Follows-refl : (c : Controller) → Follows (directory c) c c
Follows-refl c = record { shows = λ j. refl; counts = λ n. n }

complete_swap-Follows :
    (first second : Flagged) (s : PendingSwap) (c : Controller)
    → s.lower < s.greater
    → IsFalling c.position_remote_robot_map
    → IsExchanged s.lower s.greater c.position_remote_robot_map
    → Follows (exchanged s.lower s.greater (directory c)) c (complete_swap first second s c)
unfolding complete_swap
complete_swap-Follows first second s c lt h x =
    let k = settle_both-Follows first second s.lower s.greater c lt h x in
    record { shows = k.shows; counts = k.counts }

-- The two keys are those of the entry that was found.
acknowledged-keys :
    (old : ℕ) (s : PendingSwap)
    → ((acknowledge old s).lower ≡ s.lower) × ((acknowledge old s).greater ≡ s.greater)
unfolding acknowledge
acknowledged-keys old s = (ground arith, ground arith)

complete_if_acknowledged-Follows :
    (first second : Flagged) (s : PendingSwap) (c : Controller)
    → s.lower < s.greater
    → IsFalling c.position_remote_robot_map
    → ((s.ack_from_lower_position && s.ack_from_greater_position) ≡ true
        → IsExchanged s.lower s.greater c.position_remote_robot_map)
    → Follows
        (if is_acknowledged s then exchanged s.lower s.greater (directory c) else directory c)
        c
        (complete_if_acknowledged first second s c)
unfolding complete_if_acknowledged is_acknowledged
complete_if_acknowledged-Follows first second s c lt h x =
    let c' = record c { pending_swaps = put_swap s c.pending_swaps } in
    elim (Bool-cases (s.ack_from_lower_position && s.ack_from_greater_position)) [
      | inl both ↦
          let k = complete_swap-Follows first second s c' lt h (x both) in
          rw both (record { shows = k.shows; counts = k.counts })
      | inr one ↦ rw one (record { shows = λ j. refl; counts = λ n. n })
    ]

tells_other-eq :
    (p q : ℕ) (m : List (ℕ × RemoteRobot))
    → tells_other p q m ≡ true
    → (r : RemoteRobot) → find m p ≡ some r
    → r.position ≡ q
unfolding tells_other
tells_other-eq p q m h r e = ground arith

tells-IsExchanged :
    (old new : ℕ) (s : PendingSwap) (c : Controller)
    → swap_at old new c.pending_swaps ≡ some s
    → tells_for old new c ≡ true
    → is_acknowledged (acknowledge old s) ≡ true
    → IsExchanged s.lower s.greater c.position_remote_robot_map
unfolding tells_for tells_exchanged
tells-IsExchanged old new s c e h both =
    let m = c.position_remote_robot_map in
    let t : (if is_acknowledged (acknowledge old s)
          then tells_other s.lower s.greater m && tells_other s.greater s.lower m
          else true)
        ≡ true =
      subst
        (λ o.
          elim o [
            | none ↦ true
            | some y ↦
                if is_acknowledged (acknowledge old y)
                then tells_other y.lower y.greater m && tells_other y.greater y.lower m
                else true
          ]
          ≡ true)
        e h in
    (
      tells_other-eq s.lower s.greater m (ground arith),
      tells_other-eq s.greater s.lower m (ground arith),
    )

swap_at-keys :
    (old new : ℕ) (s : PendingSwap) (ss : List PendingSwap)
    → swap_at old new ss ≡ some s
    → ((s.lower ≡ old) × (s.greater ≡ new)) ⊎ ((s.lower ≡ new) × (s.greater ≡ old))
unfolding swap_at
swap_at-keys old new s ss e = elim (Bool-cases (ltb old new)) [
  | inl x ↦ inl (find_swap-keys old new s ss (ground arith))
  | inr x ↦ inr (find_swap-keys new old s ss (ground arith))
]

exchanged_sym : (l g : ℕ) (d : Directory) (j : ℕ) → exchanged l g d j ≡ exchanged g l d j
exchanged_sym l g d j = elim (Bool-cases (l == j)) [
  | inl a ↦ elim (Bool-cases (g == j)) [
    | inl b ↦ let same : l ≡ g = ground arith in rw (a, b) (ap d (sym same))
    | inr b ↦ rw (a, b) refl
  ]
  | inr a ↦ elim (Bool-cases (g == j)) [ inl b ↦ rw (a, b) refl | inr b ↦ rw (a, b) refl ]
]

exchanged-either :
    (l g old new : ℕ) (d : Directory) (j : ℕ)
    → ((l ≡ old) × (g ≡ new)) ⊎ ((l ≡ new) × (g ≡ old))
    → exchanged l g d j ≡ exchanged old new d j
exchanged-either l g old new d j (inl (a, b)) = rw (a, b) refl
exchanged-either l g old new d j (inr (a, b)) = rw (a, b) (exchanged_sym new old d j)

-- The positions of the entry are those of the report.
exchanged_keys :
    (old new : ℕ) (s : PendingSwap) (c : Controller)
    → swap_at old new c.pending_swaps ≡ some s
    → (j : ℕ)
    → (if is_acknowledged (acknowledge old s)
          then exchanged (acknowledge old s).lower (acknowledge old s).greater (directory c)
          else directory c)
        j
      ≡ (if is_acknowledged (acknowledge old s)
            then exchanged old new (directory c)
            else directory c)
          j
exchanged_keys old new s c e j =
    let (a, b) = acknowledged-keys old s in
    let same =
      exchanged-either s.lower s.greater old new (directory c) j
        (swap_at-keys old new s c.pending_swaps e) in
    elim (Bool-cases (is_acknowledged (acknowledge old s))) [
      | inl x ↦ rw (x, a, b) same
      | inr x ↦ rw x refl
    ]

is_vacant_lem :
    (k : ℕ) (c : Controller)
    → is_vacant (directory c k) ≡ not (is_registered k c.position_remote_robot_map)
unfolding endpoint_at is_registered
is_vacant_lem k c = ground arith

register_if_free-Follows :
    (a : RegistrationAnswers) (e : String) (k : ℕ) (caps : Capabilities) (c : Controller)
    → IsOrderly c
    → Follows
        (if is_vacant (directory c k)
            && not (is_robot_position_swapping k c.pending_swaps)
            && a.starts
          then joined k e (directory c)
          else directory c)
        c
        (register_if_free a e k caps c)
unfolding register_if_free
register_if_free-Follows a e k caps c h =
    let vacant = is_vacant_lem k c in
    elim (Bool-cases (is_robot_position_swapping k c.pending_swaps)) [
      | inl x ↦ elim (Bool-cases (is_registered k c.position_remote_robot_map)) [
        | inl y ↦ rw (vacant, x, y) (Follows-refl c)
        | inr y ↦ rw (vacant, x, y) (Follows-refl c)
      ]
      | inr x ↦ elim (Bool-cases (is_registered k c.position_remote_robot_map)) [
        | inl y ↦ rw (vacant, x, y) (Follows-refl c)
        | inr y ↦ elim (Bool-cases a.starts) [
          | inl z ↦
              let r = new_remote_robot e k caps in
              let d = register_at k r c in
              let o = register_at-IsOrderly k r c h in
              let resolved = resolve-KeepsKeys a k d in
              let joins = register_at-Follows k r c y in
              rw (vacant, x, y, z)
                (Follows-trans joins (KeepsKeys-Follows o.falling resolved)
                  (λ j. joins.shows j ∙ (unfold new_remote_robot in refl)))
          | inr z ↦ rw (vacant, x, y, z) (Follows-refl c)
        ]
      ]
    ]

acknowledge_swap-Follows :
    (first second : Flagged) (old new : ℕ) (c : Controller)
    → IsOrderly c
    → tells_for old new c ≡ true
    → Follows
        (if completes old new c then exchanged old new (directory c) else directory c)
        c
        (acknowledge_swap first second old new c)
unfolding acknowledge_swap is_acknowledged completes
acknowledge_swap-Follows first second old new c h x =
    elim (Option-cases (swap_at old new c.pending_swaps)) [
      | inl e ↦ rw (acknowledge_swap, completes, e) (Follows-refl c)
      | inr (s, e) ↦
          let t = acknowledge old s in
          let (l, g, f) = swap_at-found old new s c.pending_swaps e in
          let (a, b) = acknowledged-keys old s in
          let k =
            complete_if_acknowledged-Follows first second t c
              (rw (a, b) (find_swap-ordered l g s c.pending_swaps h.apart f)) h.falling
              (λ both.
                rw (a, b) (tells-IsExchanged old new s c e x (unfold is_acknowledged in both))) in
          rw (acknowledge_swap, completes, e)
            (record { shows = λ j. k.shows j ∙ exchanged_keys old new s c e j; counts = k.counts })
    ]

-- The stopped robots leave, and then the rest of a handler runs.
module _ (c : Controller) (h : IsOrderly c) where
  pub handle_position_swapped-Follows :
      (first second : Flagged) (old new : ℕ)
      → tells_for old new (tidy_up c) ≡ true
      → Follows
          (if completes old new (tidy_up c)
            then exchanged old new (running_robots c)
            else running_robots c)
          c
          (handle_position_swapped first second old new c)
  unfolding handle_position_swapped
  handle_position_swapped-Follows first second old new x =
      let k = tidy_up-Follows c h.falling in
      Follows-trans k
        (acknowledge_swap-Follows first second old new (tidy_up c) (tidy_up-IsOrderly c h) x)
        (λ j. elim (Bool-cases (completes old new (tidy_up c))) [
          | inl e ↦ rw e (ground (arith, k.shows j, k.shows old, k.shows new))
          | inr e ↦ rw e (k.shows j)
        ])

  pub handle_robot_registration-Follows :
      (a : RegistrationAnswers) (e : String) (k : ℕ) (caps : Capabilities)
      → Follows
          (if is_vacant (running_robots c k)
              && not (is_robot_position_swapping k (tidy_up c).pending_swaps)
              && a.starts
            then joined k e (running_robots c)
            else running_robots c)
          c
          (handle_robot_registration a e k caps c)
  unfolding handle_robot_registration
  handle_robot_registration-Follows a e k caps =
      let t = tidy_up-Follows c h.falling in
      let here = t.shows k in
      let goes =
        is_vacant (running_robots c k)
        && not (is_robot_position_swapping k (tidy_up c).pending_swaps)
        && a.starts in
      Follows-trans t (register_if_free-Follows a e k caps (tidy_up c) (tidy_up-IsOrderly c h))
        (λ j. elim (Bool-cases goes) [
          | inl x ↦ rw (here, x) (ground (arith, t.shows j))
          | inr x ↦ rw (here, x) (t.shows j)
        ])

  pub handle_next_robot_request-Follows :
      (a : RequestAnswers) (id processed : ℕ) (x : Receiver) (d : Controller)
      → handle_next_robot_request a id processed x c ≡ ok d
      → Follows (running_robots c) c d
  unfolding handle_next_robot_request choose_robot
  handle_next_robot_request-Follows a id processed x d e =
      let o = tidy_up-IsOrderly c h in
      let c' = connect_receiver a.receiver_starts x (tidy_up c) in
      let k = connect_receiver-KeepsKeys a.receiver_starts x (tidy_up c) in
      let (q, left, rest) = >>=-eq-ok (actions_left id processed c') _ e in
      let (choice, chosen, last) =
        >>=-eq-ok (c'.kitchen_mape (views c'.position_remote_robot_map) q) _ rest in
      let same : answer_request a x id choice c' ≡ d = cc in
      let j = answer_request-KeepsRobots a x id choice c' in
      let t = tidy_up-Follows c h.falling in
      Follows-trans t
        (Follows-trans (KeepsKeys-Follows o.falling k)
          (subst (Follows (directory c') c') same
            (KeepsMap-Follows (k.map.order o.falling) j.map j.count))
          k.map.endpoints)
        t.shows

-- ===== src/Robot/Progress/Completion.antt =====
-- From one action of a dish to the next (determine_next_action of robot.cpp).
use native.Mathlib.Nat.{mod-add-mod, mod-eq_of_lt}
use opcua_cps_kitchen.Base.{
  ℕ, zero, suc, ◌+◌, ◌%◌, ◌≤◌, ◌<◌, ◌≡◌, ◌∙◌, refl, sym, ap, inl, inr, String, Bool, true, false,
  Option, none, some, List, [], ◌∷◌, All, Bool-cases, u32_size, u64_size, arith,
}
use opcua_cps_kitchen.Actions.{RobotAction, same_tool, same_tool_iff}
use opcua_cps_kitchen.Capabilities.{Capabilities, is_capable_to}
use opcua_cps_kitchen.Robot.State.{retooling, Robot, ok}
use opcua_cps_kitchen.Robot.Work.{
  arm, notify_conveyor, receive_finished_order_notification_called, reset_in_process_fields,
  begin_action, go_on, determine_next_action, change_tool, equip, retool,
}
use opcua_cps_kitchen.Robot.Loop.{run_timer}
use opcua_cps_kitchen.Robot.Load.{IsTimed}
use opcua_cps_kitchen.Robot.Progress.{
  left_over, done_steps, is_nil, IsDone, IsGoing, IsActing, at_once, TimerReach, not_yet, fired,
  TimerReach-trans, Goes, Acts,
}
use opcua_cps_kitchen.Robot.Progress.Acting.{acts}

-- The robot that has notified the conveyor.
abbrev notified : Bool → Robot → Robot
notified finished r = record (reset_in_process_fields r) {
  is_dish_finished = finished;
  pending_pickup = true;
}

IsDone-cons :
    (caps : Capabilities) (a : RobotAction) (q : List RobotAction) (steps : ℕ) (s : Robot)
    → is_capable_to caps a.name ≡ true
    → IsDone caps q ((steps + 1) % u32_size) s
    → IsDone caps (a ∷ q) steps s
unfolding left_over done_steps
IsDone-cons caps a q steps s able d =
    let sum = mod-add-mod (steps + 1) u32_size (done_steps caps q) in
    let rest = d.rest in
    let finished = d.finished in
    let counted = d.counted in
    record {
      runs = d.runs;
      waits = d.waits;
      no_timer = d.no_timer;
      rest = rw able rest;
      finished = rw able finished;
      counted = rw able (counted ∙ sum ∙ ap (λ x. x % u32_size) (omega arith));
    }

begin_action-IsActing :
    (caps : Capabilities) (a : RobotAction) (q : List RobotAction) (steps d : ℕ) (r : Robot)
    → IsGoing caps (a ∷ q) steps r
    → a.duration ≡ suc d
    → a.duration < u64_size
    → IsActing caps a q steps d (begin_action a r)
unfolding begin_action arm
begin_action-IsActing caps a q steps d r g long fits = ground arith

-- The robot that waits for its change of tool, and the robot after it.
abbrev changing : Robot → Robot
changing r = record r { timer = some retooling }

abbrev changed : RobotAction → Robot → Robot
changed a r = change_tool a.required_tool (record r { timer = none })

changed-IsGoing :
    (caps : Capabilities) (a : RobotAction) (q : List RobotAction) (steps : ℕ) (r : Robot)
    → IsGoing caps (a ∷ q) steps r
    → IsGoing caps (a ∷ q) steps (changed a r)
unfolding change_tool
changed-IsGoing caps a q steps r g = ground arith

changed_tool :
    (a : RobotAction) (r : Robot) → same_tool a.required_tool (changed a r).current_tool ≡ true
unfolding change_tool
changed_tool a r = (same_tool_iff a.required_tool a.required_tool).1 refl

go_on-same :
    (caps : Capabilities) (a : RobotAction) (q : List RobotAction) (steps : ℕ) (r : Robot)
    → IsGoing caps (a ∷ q) steps r
    → is_capable_to caps a.name ≡ true
    → same_tool a.required_tool r.current_tool ≡ true
    → go_on (a ∷ q) at_once r ≡ ok (begin_action a r)
unfolding go_on
go_on-same caps a q steps r g able same =
    let known : is_capable_to r.capability_parser a.name ≡ true =
      ap (λ c. is_capable_to c a.name) g.able ∙ able in
    rw (known, same) refl

go_on-other :
    (caps : Capabilities) (a : RobotAction) (q : List RobotAction) (steps : ℕ) (r : Robot)
    → IsGoing caps (a ∷ q) steps r
    → is_capable_to caps a.name ≡ true
    → same_tool a.required_tool r.current_tool ≡ false
    → go_on (a ∷ q) at_once r ≡ ok (changing r)
unfolding go_on arm
go_on-other caps a q steps r g able other =
    let known : is_capable_to r.capability_parser a.name ≡ true =
      ap (λ c. is_capable_to c a.name) g.able ∙ able in
    let still = g.no_timer in rw (known, other) (ground arith)

retools :
    (profiles : String → Option Capabilities) (caps : Capabilities) (a : RobotAction)
    (q : List RobotAction) (steps : ℕ) (r : Robot)
    → IsGoing caps (a ∷ q) steps r
    → is_capable_to caps a.name ≡ true
    → TimerReach profiles (changing r) (begin_action a (changed a r))
unfolding run_timer retool equip determine_next_action
retools profiles caps a q steps r g able =
    let on =
      go_on-same caps a q steps (changed a r) (changed-IsGoing caps a q steps r g) able
        (changed_tool a r) in
    let queue = g.queue in
    fired 0 retooling not_yet g.runs refl tt (
      ap (λ x. equip x at_once (record r { timer = none })) queue
      ∙ ap (λ x. go_on x at_once (changed a r)) queue
      ∙ on)

-- From the change of tool on, or from the action itself, the robot acts.
begins :
    (profiles : String → Option Capabilities) (caps : Capabilities) (a : RobotAction)
    (q : List RobotAction) (steps : ℕ) (r : Robot)
    → IsGoing caps (a ∷ q) steps r
    → is_capable_to caps a.name ≡ true
    → ((r' : Robot)
        → IsGoing caps (a ∷ q) steps r'
        → Acts profiles caps (a ∷ q) steps (begin_action a r'))
    → Goes profiles caps (a ∷ q) steps r
begins profiles caps a q steps r g able acted =
    elim (Bool-cases (same_tool a.required_tool r.current_tool)) [
      | inl same ↦
          let (s, reach, done) = acted r g in
          (begin_action a r, s, go_on-same caps a q steps r g able same, reach, done)
      | inr other ↦
          let (s, reach, done) = acted (changed a r) (changed-IsGoing caps a q steps r g) in
          (
            changing r,
            s,
            go_on-other caps a q steps r g able other,
            TimerReach-trans profiles (retools profiles caps a q steps r g able) reach,
            done,
          )
    ]

stays_behind :
    (profiles : String → Option Capabilities) (caps : Capabilities) (q : List RobotAction)
    (steps : ℕ) (r : Robot) (finished : Bool)
    → IsGoing caps q steps r
    → left_over caps q ≡ q
    → done_steps caps q ≡ 0
    → is_nil q ≡ finished
    → go_on q at_once r ≡ ok (notified finished r)
    → Goes profiles caps q steps r
unfolding reset_in_process_fields
stays_behind profiles caps q steps r finished g left none_done nil on = (
  notified finished r,
  notified finished r,
  on,
  not_yet,
  record {
    runs = g.runs;
    waits = refl;
    no_timer = g.no_timer;
    rest = g.queue ∙ sym left;
    finished = sym (ap is_nil left ∙ nil);
    counted =
        g.counted
        ∙ sym (
            ap (λ x. (steps + x) % u32_size) none_done
            ∙ ap (λ x. x % u32_size) (omega arith)
            ∙ mod-eq_of_lt g.bounded);
  },
)

-- A running robot whose actions all take time, and which is about to go on with the dish in
-- process, does so without a fault, and with a conveyor that answers notifications the handlers of
-- its timer alone lead it to a state where the dish waits for the conveyor: exactly the actions
-- before the first that it is not capable of are done and counted, modulo 2^32, and the dish is
-- finished if none is left.
pub go_on-completes :
    (profiles : String → Option Capabilities) (caps : Capabilities) (q : List RobotAction)
    (steps : ℕ) (r : Robot)
    → All IsTimed q
    → IsGoing caps q steps r
    → (r' : Robot) × (s : Robot) × (go_on q at_once r ≡ ok r')
      × TimerReach profiles r' s
      × IsDone caps q steps s
unfolding go_on notify_conveyor receive_finished_order_notification_called left_over done_steps
go_on-completes profiles caps [] steps r timed g =
    stays_behind profiles caps [] steps r true g refl refl refl refl
go_on-completes profiles caps (a ∷ q) steps r timed g =
    elim (Bool-cases (is_capable_to caps a.name)) [
      | inl able ↦ begins profiles caps a q steps r g able (λ r' g'.
          let (d, long) = positive a.duration timed.0.0 in
          let (s, reach, done) =
            acts profiles caps a q steps d (begin_action a r')
              (begin_action-IsActing caps a q steps d r' g' long timed.0.1)
              (λ x y. go_on-completes profiles caps q ((steps + 1) % u32_size) x timed.1 y) in
          (s, reach, IsDone-cons caps a q steps s able done))
      | inr unable ↦
          let known : is_capable_to r.capability_parser a.name ≡ false =
            ap (λ c. is_capable_to c a.name) g.able ∙ unable in
          stays_behind profiles caps (a ∷ q) steps r false g (rw unable refl) (rw unable refl) refl
            (rw known refl)
    ]
  where
    positive : (n : ℕ) → 1 ≤ n → (d : ℕ) × (n ≡ suc d)
    positive zero h = absurd (omega arith)
    positive (suc d) h = (d, refl)

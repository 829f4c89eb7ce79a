-- ===== src/Controller/Returns.antt =====
-- When the handler of a request returns (controller.cpp).
use opcua_cps_kitchen.Base.{
  ℕ, zero, suc, ◌≤◌, ◌≡◌, ◌↔◌, refl, sym, subst, inl, inr, Bool, some, List, [], ◌∷◌, length,
  Bool-cases, arith,
}
use opcua_cps_kitchen.Actions.{RobotAction}
use opcua_cps_kitchen.Recipe.{Recipe, get_recipe}
use opcua_cps_kitchen.Robot.State.{ok, unknown_recipe, >>=-eq-ok, or_fault, or_fault-eq-ok}
use opcua_cps_kitchen.Robot.Work.{pop_steps}
use opcua_cps_kitchen.Mape.{RobotView, Decision}
use opcua_cps_kitchen.Controller.State.{RemoteRobot, Receiver, Controller}
use opcua_cps_kitchen.Controller.Registry.{
  drop_robot, drop_stopped, remove_stopped_robots, erase_stale_pending_swap_entries, tidy_up,
}
use opcua_cps_kitchen.Controller.Requests.{
  views, is_known, connect_receiver, RequestAnswers, answer_request, actions_left, choose_robot,
  handle_next_robot_request,
}

-- The steps can be taken off a recipe that has as many actions.
pop_steps_iff :
    (n : ℕ) (q : List RobotAction)
    → ((rest : List RobotAction) × (pop_steps n q ≡ ok rest)) ↔ (n ≤ length q)
unfolding pop_steps
pop_steps_iff zero q = (λ h. omega arith, λ h. (q, refl))
pop_steps_iff (suc n) [] = (λ h. absurd cc, λ h. absurd (omega arith))
pop_steps_iff (suc n) (a ∷ q) =
    let (there, back) = pop_steps_iff n q in
    (λ h. let le = there h in omega arith, λ h. back (omega arith))

-- Neither the recipes nor the policy change.
record SameMenu (c d : Controller) : Type 0 where
  recipes : d.recipes ≡ c.recipes
  policy : d.kitchen_mape ≡ c.kitchen_mape

drop_stopped-SameMenu :
    (m : List (ℕ × RemoteRobot)) (c : Controller) → SameMenu c (drop_stopped m c)
unfolding drop_stopped drop_robot
drop_stopped-SameMenu [] c = record { recipes = refl; policy = refl }
drop_stopped-SameMenu ((k, r) ∷ m) c = elim (Bool-cases r.running) [
  | inl e ↦ rw e (drop_stopped-SameMenu m c)
  | inr e ↦
      let h = drop_stopped-SameMenu m (drop_robot k c) in
      rw e (record { recipes = h.recipes; policy = h.policy })
]

connect-SameMenu :
    (starts : Bool) (x : Receiver) (c : Controller)
    → SameMenu c (connect_receiver starts x (tidy_up c))
unfolding connect_receiver tidy_up remove_stopped_robots erase_stale_pending_swap_entries
connect-SameMenu starts x c =
    let h = drop_stopped-SameMenu c.position_remote_robot_map c in
    elim (Bool-cases (is_known x (tidy_up c).next_robot_receivers)) [
      | inl e ↦ rw e (record { recipes = h.recipes; policy = h.policy })
      | inr e ↦ elim (Bool-cases starts) [
        | inl s ↦ rw (e, s) (record { recipes = h.recipes; policy = h.policy })
        | inr s ↦ rw (e, s) (record { recipes = h.recipes; policy = h.policy })
      ]
    ]

-- With a policy that decides, the handler of a request returns exactly for a known recipe that has
-- at least as many actions as are processed.
pub handle_next_robot_request_returns :
    (a : RequestAnswers) (id processed : ℕ) (x : Receiver) (c : Controller)
    → ((rs : List RobotView) (q : List RobotAction)
        → (choice : Decision) × (c.kitchen_mape rs q ≡ ok choice))
    → ((d : Controller) × (handle_next_robot_request a id processed x c ≡ ok d))
      ↔ ((r : Recipe) × (get_recipe c.recipes id ≡ some r) × (processed ≤ length r.action_queue))
unfolding handle_next_robot_request choose_robot actions_left
handle_next_robot_request_returns a id processed x c decides = (
  λ (d, h).
      let (q, left, rest) = >>=-eq-ok (actions_left id processed c') _ h in
      let (r, known, popped) =
        >>=-eq-ok (or_fault (get_recipe c'.recipes id) unknown_recipe) _ left in
      let some_r = or_fault-eq-ok (get_recipe c'.recipes id) unknown_recipe known in
      (
        r,
        subst (λ m. get_recipe m id ≡ some r) recipes some_r,
        (pop_steps_iff processed r.action_queue).0 (q, popped),
      ),
  λ (r, known, le).
      let (q, popped) = (pop_steps_iff processed r.action_queue).1 le in
      let some_r : get_recipe c'.recipes id ≡ some r =
        subst (λ m. get_recipe m id ≡ some r) (sym recipes) known in
      let (choice, decided) = decides (views c'.position_remote_robot_map) q in
      let here : c'.kitchen_mape (views c'.position_remote_robot_map) q ≡ ok choice =
        subst (λ p. p (views c'.position_remote_robot_map) q ≡ ok choice) (sym policy) decided in
      (answer_request a x id choice c', rw (some_r, popped, here) refl),
)
  where
    c' : Controller
    c' = connect_receiver a.receiver_starts x (tidy_up c)

    recipes : c'.recipes ≡ c.recipes
    recipes = let h = connect-SameMenu a.receiver_starts x c in h.recipes

    policy : c'.kitchen_mape ≡ c.kitchen_mape
    policy = let h = connect-SameMenu a.receiver_starts x c in h.policy

-- ===== src/Controller/Directory/Exchange.antt =====
-- The end of a swap, on the directory (controller.cpp).
use opcua_cps_kitchen.Base.{
  ℕ, ◌+◌, ◌%◌, ◌<◌, ◌≡◌, refl, sym, ap, ◌∙◌, inl, inr, String, false, Option, none, some, List,
  find, find-erase, erase, length, ◌==◌, if◌then◌else◌, Bool-cases, Option-cases, u32_size, arith,
}
use opcua_cps_kitchen.Conveyor.Delivery.{Flagged}
use opcua_cps_kitchen.Controller.State.{RemoteRobot, Controller}
use opcua_cps_kitchen.Controller.Registry.{enter, set_adaptivity}
use opcua_cps_kitchen.Controller.Swaps.{settle, take_out}
use opcua_cps_kitchen.Controller.Falling.{
  IsFalling, enter-IsFalling, erase-IsFalling, find-enter, length-enter-new, length-erase-found,
  length-erase-absent,
}
use opcua_cps_kitchen.Controller.Pending.{endpoint_at}
use opcua_cps_kitchen.Controller.Pending.Keys.{commit_at-KeepsKeys}
use opcua_cps_kitchen.Controller.Directory.Registry.{no_endpoint}
use opcua_cps_kitchen.Controller.Directory.{exchanged, directory, Follows, IsExchanged}

-- One more robot if there is one.
abbrev pub held : Option RemoteRobot → ℕ
held none = 0
held (some r) = 1

-- The robot's place is free.
abbrev pub Fits : Option RemoteRobot → List (ℕ × RemoteRobot) → Type 0
Fits none m = Unit {0}
Fits (some r) m = find m r.position ≡ none

abbrev pub settled_at : Option RemoteRobot → List (ℕ × RemoteRobot) → ℕ → Option String
settled_at none m j = endpoint_at m j
settled_at (some r) m j = if r.position == j then some r.endpoint else endpoint_at m j

-- What a robot does that comes back to the map.
pub record Settles (o : Option RemoteRobot) (c d : Controller) : Type 0 where
  pub endpoints : (j : ℕ) → directory d j ≡ settled_at o c.position_remote_robot_map j
  pub order : IsFalling d.position_remote_robot_map
  pub size :
      Fits o c.position_remote_robot_map
      → length d.position_remote_robot_map ≡ held o + length c.position_remote_robot_map
  pub count : d.registered_robots ≡ c.registered_robots

endpoint_at-enter :
    (k j : ℕ) (r : RemoteRobot) (m : List (ℕ × RemoteRobot))
    → endpoint_at (enter k r m) j ≡ (if k == j then some r.endpoint else endpoint_at m j)
unfolding endpoint_at
endpoint_at-enter k j r m = ground (arith, find-enter k j r m)

endpoint_at-erase :
    (k j : ℕ) (m : List (ℕ × RemoteRobot))
    → endpoint_at (erase k m) j ≡ (if k == j then none else endpoint_at m j)
unfolding endpoint_at
endpoint_at-erase k j m = ground (arith, find-erase k j m)

settle-Settles :
    (answer : Flagged) (o : Option RemoteRobot) (c : Controller)
    → IsFalling c.position_remote_robot_map
    → Settles o c (settle answer o c)
unfolding settle set_adaptivity
settle-Settles answer none c h = record {
  endpoints = λ j. refl;
  order = h;
  size = λ f. omega arith;
  count = refl;
}
settle-Settles answer (some r) c h =
    let m = c.position_remote_robot_map in
    let n = enter r.position (set_adaptivity false r) m in
    let k = commit_at-KeepsKeys answer r.position (record c { position_remote_robot_map = n }) in
    record {
      endpoints =
          λ j. k.map.endpoints j ∙ endpoint_at-enter r.position j (set_adaptivity false r) m;
      order = k.map.order (enter-IsFalling r.position (set_adaptivity false r) m h);
      size = λ f.
          let kept = k.map.size (enter-IsFalling r.position (set_adaptivity false r) m h) in
          omega (arith, kept, length-enter-new r.position (set_adaptivity false r) m f);
      count = k.count;
    }

length-take :
    (k : ℕ) (m : List (ℕ × RemoteRobot))
    → IsFalling m
    → held (find m k) + length (erase k m) ≡ length m
length-take k m h = elim (Option-cases (find m k)) [
  | inl e ↦ rw e (omega (arith, length-erase-absent k m e))
  | inr (r, e) ↦ rw e (omega (arith, length-erase-found k r m h e))
]

-- A robot goes to the other place, which was emptied.
Fits-other :
    (k other : ℕ) (o : Option RemoteRobot) (m : List (ℕ × RemoteRobot))
    → ((r : RemoteRobot) → o ≡ some r → r.position ≡ other)
    → find m other ≡ none
    → Fits o m
Fits-other k other none m tells e = tt
Fits-other k other (some r) m tells e = rw (tells r refl) e

-- A robot's own endpoint, at the place that it tells.
settled_at_other :
    (k other j : ℕ) (o : Option RemoteRobot) (m n : List (ℕ × RemoteRobot))
    → o ≡ find m k
    → ((r : RemoteRobot) → o ≡ some r → r.position ≡ other)
    → endpoint_at n other ≡ none
    → settled_at o n j ≡ (if other == j then endpoint_at m k else endpoint_at n j)
settled_at_other k other j none m n at_k tells e =
    let gone = no_endpoint k m (sym at_k) in
    elim (Bool-cases (other == j)) [
      | inl s ↦ let same : other ≡ j = ground arith in rw (s, gone) (rw (← same) e)
      | inr s ↦ rw s refl
    ]
settled_at_other k other j (some r) m n at_k tells e =
    let there : endpoint_at m k ≡ some r.endpoint = unfold endpoint_at in ground arith in
    rw (tells r refl, there) refl

module _ (l g : ℕ) (m : List (ℕ × RemoteRobot)) (lt : l < g) where
  abbrev emptied : List (ℕ × RemoteRobot)
  emptied = erase g (erase l m)

  find_second : find (erase l m) g ≡ find m g
  find_second = ground (arith, find-erase l g m)

  emptied_lower : find emptied l ≡ none
  emptied_lower = ground (arith, find-erase g l (erase l m), find-erase l l m)

  emptied_greater : find emptied g ≡ none
  emptied_greater = ground (arith, find-erase g g (erase l m))

  emptied_at :
      (j : ℕ)
      → endpoint_at emptied j ≡ (if l == j then none else if g == j then none else endpoint_at m j)
  emptied_at j = ground (arith, endpoint_at-erase g j (erase l m), endpoint_at-erase l j m)

no_robot : (k : ℕ) (m : List (ℕ × RemoteRobot)) → endpoint_at m k ≡ none → find m k ≡ none
unfolding endpoint_at
no_robot k m h = ground arith

-- Both places are empty, and then the robots come back.
pub settle_both-Follows :
    (first second : Flagged) (l g : ℕ) (c : Controller)
    → l < g
    → IsFalling c.position_remote_robot_map
    → IsExchanged l g c.position_remote_robot_map
    → Follows (exchanged l g (directory c)) c (
        settle second
          (find (take_out l c).position_remote_robot_map g)
          (settle first (find c.position_remote_robot_map l) (take_out g (take_out l c))))
unfolding take_out
settle_both-Follows first second l g c lt h x =
    let m = c.position_remote_robot_map in
    let n = emptied l g m lt in
    let o = find m l in
    let o' = find (erase l m) g in
    let c' = take_out g (take_out l c) in
    let a = settle-Settles first o c' (erase-IsFalling g (erase l m) (erase-IsFalling l m h)) in
    let d = settle first o c' in
    let b = settle-Settles second o' d a.order in
    let same = find_second l g m lt in
    let lower = x.0 in
    let greater : (r : RemoteRobot) → o' ≡ some r → r.position ≡ l = λ r e. x.1 r (sym same ∙ e) in
    let after_first : (j : ℕ)
        → directory d j ≡ (if g == j then endpoint_at m l else endpoint_at n j) =
      λ j.
        a.endpoints j
        ∙ settled_at_other l g j o m n refl lower (no_endpoint g n (emptied_greater l g m lt)) in
    let still_free : endpoint_at d.position_remote_robot_map l ≡ none =
      ground (arith, after_first l, emptied_at l g m lt l) in
    let after_second : (j : ℕ)
        → directory (settle second o' d) j
          ≡ (if l == j then endpoint_at m g else endpoint_at d.position_remote_robot_map j) =
      λ j.
        b.endpoints j
        ∙ settled_at_other g l j o' m d.position_remote_robot_map same greater still_free in
    record {
      shows = λ j. ground (arith, after_second j, after_first j, emptied_at l g m lt j);
      counts = λ k.
          let fits = Fits-other l g o n lower (emptied_greater l g m lt) in
          let fits' =
            Fits-other g l o' d.position_remote_robot_map greater
              (no_robot l d.position_remote_robot_map still_free) in
          let whole : length (settle second o' d).position_remote_robot_map ≡ length m = omega (
            arith,
            a.size fits,
            b.size fits',
            length-take l m h,
            length-take g (erase l m) (erase-IsFalling l m h),
          ) in
          b.count ∙ a.count ∙ k ∙ ap (λ i. i % u32_size) (sym whole);
    }

-- ===== src/Controller/Directory/Registry.antt =====
-- The registry's own operations, on the directory (controller.cpp).
use opcua_cps_kitchen.Base.{
  ℕ, suc, ◌+◌, ◌-◌, ◌%◌, ◌<◌, ◌≡◌, refl, sym, ap, ◌∙◌, subst, inl, inr, false, none, some, List, [],
  ◌∷◌, All, find, find-erase, erase, length, Bool-cases, u32_size, ◌==◌, if◌then◌else◌, true, arith,
}
use opcua_cps_kitchen.Controller.State.{RemoteRobot, Controller}
use opcua_cps_kitchen.Controller.Registry.{
  is_registered, drop_robot, drop_stopped, remove_stopped_robots, erase_stale_pending_swap_entries,
  tidy_up,
}
use opcua_cps_kitchen.Controller.Requests.{register_at}
use opcua_cps_kitchen.Controller.Falling.{
  AreBelow, IsFalling, erase-IsFalling, find-AreBelow, find-enter, length-enter-new,
  length-erase-found,
}
use opcua_cps_kitchen.Controller.Pending.{KeepsMap, KeepsKeys, endpoint_at}
use opcua_cps_kitchen.Controller.Directory.{
  Directory, joined, directory, running_robots, IsCounted, Follows,
}

pub KeepsMap-Follows :
    {c d : Controller}
    → IsFalling c.position_remote_robot_map
    → KeepsMap c.position_remote_robot_map d.position_remote_robot_map
    → d.registered_robots ≡ c.registered_robots
    → Follows (directory c) c d
KeepsMap-Follows h k n = record {
  shows = k.endpoints;
  counts = λ e. let same = k.size h in n ∙ e ∙ ap (λ x. x % u32_size) (sym same);
}

pub KeepsKeys-Follows :
    {c d : Controller}
    → IsFalling c.position_remote_robot_map
    → KeepsKeys c d
    → Follows (directory c) c d
KeepsKeys-Follows h k = KeepsMap-Follows h k.map k.count

counts_down : (n m : ℕ) → n ≡ suc m → (n % u32_size + u32_size - 1) % u32_size ≡ m % u32_size
counts_down n m e = omega arith

counts_up : (n : ℕ) → (n % u32_size + 1) % u32_size ≡ suc n % u32_size
counts_up n = omega arith

drop_robot-counts :
    (k : ℕ) (r : RemoteRobot) (c : Controller)
    → IsFalling c.position_remote_robot_map
    → find c.position_remote_robot_map k ≡ some r
    → IsCounted c
    → IsCounted (drop_robot k c)
unfolding drop_robot
drop_robot-counts k r c h e n =
    let less = length-erase-found k r c.position_remote_robot_map h e in
    rw n (
      counts_down (length c.position_remote_robot_map)
        (length (erase k c.position_remote_robot_map)) (sym less))

-- The entries of a list are those of the map.
abbrev pub AreListed : List (ℕ × RemoteRobot) → List (ℕ × RemoteRobot) → Type 0
AreListed n m = All (λ x. find m x.0 ≡ some x.1) n

pub erase-AreListed :
    (k : ℕ) (n m : List (ℕ × RemoteRobot)) → AreBelow k n → AreListed n m → AreListed n (erase k m)
erase-AreListed k [] m b h = tt
erase-AreListed k ((i, r) ∷ n) m b h =
    let other : i < k = b.0 in
    (ground (arith, find-erase k i m, h.0), erase-AreListed k n m b.1 h.1)

cons-AreListed :
    (k : ℕ) (r : RemoteRobot) (n m : List (ℕ × RemoteRobot))
    → AreBelow k n
    → AreListed n m
    → AreListed n ((k, r) ∷ m)
unfolding find
cons-AreListed k r [] m b h = tt
cons-AreListed k r ((i, s) ∷ n) m b h =
    let other : i < k = b.0 in (ground (arith, h.0), cons-AreListed k r n m b.1 h.1)

pub AreListed-self : (m : List (ℕ × RemoteRobot)) → IsFalling m → AreListed m m
unfolding find
AreListed-self [] h = tt
AreListed-self ((k, r) ∷ m) h = (ground arith, cons-AreListed k r m m h.0 (AreListed-self m h.1))

-- A directory without the robots of a list that have stopped.
abbrev without_stopped : List (ℕ × RemoteRobot) → Directory → Directory
without_stopped n e j = elim (find n j) [ none ↦ e j | some r ↦ if r.running then e j else none ]

dropped-shows :
    (k j : ℕ) (r : RemoteRobot) (n : List (ℕ × RemoteRobot)) (c : Controller)
    → AreBelow k n
    → r.running ≡ false
    → without_stopped n (directory (drop_robot k c)) j
      ≡ without_stopped ((k, r) ∷ n) (directory c) j
unfolding drop_robot endpoint_at find
dropped-shows k j r n c b stopped =
    let gone = find-AreBelow k k n b (omega arith) in
    let e = find-erase k j c.position_remote_robot_map in
    elim (Bool-cases (k == j)) [
      | inl here ↦
          let same : k ≡ j = ground arith in
          let absent : find n j ≡ none = rw (← same) gone in ground arith
      | inr there ↦ ground arith
    ]

kept-shows :
    (k j : ℕ) (r : RemoteRobot) (n : List (ℕ × RemoteRobot)) (c : Controller)
    → AreBelow k n
    → r.running ≡ true
    → without_stopped n (directory c) j ≡ without_stopped ((k, r) ∷ n) (directory c) j
unfolding find
kept-shows k j r n c b goes =
    let gone = find-AreBelow k k n b (omega arith) in
    elim (Bool-cases (k == j)) [
      | inl here ↦
          let same : k ≡ j = ground arith in
          let absent : find n j ≡ none = rw (← same) gone in ground arith
      | inr there ↦ ground arith
    ]

drop_stopped-Follows :
    (n : List (ℕ × RemoteRobot)) (c : Controller)
    → IsFalling n
    → IsFalling c.position_remote_robot_map
    → AreListed n c.position_remote_robot_map
    → Follows (without_stopped n (directory c)) c (drop_stopped n c)
unfolding drop_stopped find
drop_stopped-Follows [] c f h l = record { shows = λ j. refl; counts = λ n. n }
drop_stopped-Follows ((k, r) ∷ n) c f h l = elim (Bool-cases r.running) [
  | inl e ↦
      let rest = drop_stopped-Follows n c f.1 h l.1 in
      let same : drop_stopped n c ≡ drop_stopped ((k, r) ∷ n) c = rw e refl in
      subst (Follows (without_stopped ((k, r) ∷ n) (directory c)) c) same
        (record { shows = λ j. rest.shows j ∙ kept-shows k j r n c f.0 e; counts = rest.counts })
  | inr e ↦
      let rest =
        drop_stopped-Follows n (drop_robot k c) f.1
          (unfold drop_robot in erase-IsFalling k c.position_remote_robot_map h)
          (unfold drop_robot in erase-AreListed k n c.position_remote_robot_map f.0 l.1) in
      let same : drop_stopped n (drop_robot k c) ≡ drop_stopped ((k, r) ∷ n) c = rw e refl in
      subst (Follows (without_stopped ((k, r) ∷ n) (directory c)) c) same (record {
        shows = λ j. rest.shows j ∙ dropped-shows k j r n c f.0 e;
        counts = λ m. rest.counts (drop_robot-counts k r c h l.0 m);
      })
]

stopped_left :
    (c : Controller) (j : ℕ)
    → without_stopped c.position_remote_robot_map (directory c) j ≡ running_robots c j
unfolding endpoint_at
stopped_left c j = ground arith

pub remove_stopped_robots-Follows :
    (c : Controller)
    → IsFalling c.position_remote_robot_map
    → Follows (running_robots c) c (remove_stopped_robots c)
unfolding remove_stopped_robots
remove_stopped_robots-Follows c h =
    let k =
      drop_stopped-Follows c.position_remote_robot_map c h h
        (AreListed-self c.position_remote_robot_map h) in
    record { shows = λ j. k.shows j ∙ stopped_left c j; counts = k.counts }

pub tidy_up-Follows :
    (c : Controller)
    → IsFalling c.position_remote_robot_map
    → Follows (running_robots c) c (tidy_up c)
unfolding tidy_up erase_stale_pending_swap_entries
tidy_up-Follows c h =
    let k = remove_stopped_robots-Follows c h in record { shows = k.shows; counts = k.counts }

pub no_endpoint : (k : ℕ) (m : List (ℕ × RemoteRobot)) → find m k ≡ none → endpoint_at m k ≡ none
unfolding endpoint_at
no_endpoint k m h = ground arith

unregistered : (k : ℕ) (m : List (ℕ × RemoteRobot)) → is_registered k m ≡ false → find m k ≡ none
unfolding is_registered
unregistered k m h = ground arith

pub register_at-Follows :
    (k : ℕ) (r : RemoteRobot) (c : Controller)
    → is_registered k c.position_remote_robot_map ≡ false
    → Follows (joined k r.endpoint (directory c)) c (register_at k r c)
unfolding register_at endpoint_at
register_at-Follows k r c free =
    let gone = unregistered k c.position_remote_robot_map free in
    record {
      shows = λ j. ground (arith, find-enter k j r c.position_remote_robot_map);
      counts = λ n.
          let more = length-enter-new k r c.position_remote_robot_map gone in
          rw (n, more) (counts_up (length c.position_remote_robot_map));
    }

-- ===== src/Controller/Leaving/Entries.antt =====
-- The entry of a pair of positions, and the robots that leave (controller.cpp).
use opcua_cps_kitchen.Base.{
  ℕ, ◌≡◌, inl, inr, true, false, some, List, [], ◌∷◌, find, ◌==◌, if◌then◌else◌, Bool-cases, arith,
}
use opcua_cps_kitchen.Controller.State.{RemoteRobot, PendingSwap}
use opcua_cps_kitchen.Controller.Registry.{
  is_registered, involves, is_robot_position_swapping, acknowledge_stopped, acknowledge_for,
  is_stale, keep_live,
}
use opcua_cps_kitchen.Controller.Swaps.{has_key, find_swap}
use opcua_cps_kitchen.Controller.Pending.{AreApart}
use opcua_cps_kitchen.Controller.Pending.Entries.{involves-eq, find_swap-keys, find_swap-swapping}
use opcua_cps_kitchen.Controller.Leaving.{ArePair}

pub has_key-acknowledge_stopped :
    (l g k : ℕ) (s : PendingSwap) → has_key l g (acknowledge_stopped k s) ≡ has_key l g s
unfolding has_key acknowledge_stopped
has_key-acknowledge_stopped l g k s = ground arith

-- A position of an entry that comes later is in no entry before it.
pub apart_from :
    (k : ℕ) (x : PendingSwap) (ss : List PendingSwap)
    → AreApart (x ∷ ss)
    → involves k x ≡ true
    → is_robot_position_swapping k ss ≡ false
apart_from k x ss h i = elim (involves-eq k x i) [ inl e ↦ rw (← e) h.1 | inr e ↦ rw (← e) h.2 ]

module _ (l g : ℕ) where
  pub found_swapping :
      (k : ℕ) (s : PendingSwap) (ss : List PendingSwap)
      → find_swap l g ss ≡ some s
      → involves k s ≡ true
      → is_robot_position_swapping k ss ≡ true
  found_swapping k s ss e i =
      let (a, b) = find_swap-keys l g s ss e in
      let (x, y) = find_swap-swapping l g s ss e in
      elim (involves-eq k s i) [ inl same ↦ rw (← same, a) x | inr same ↦ rw (← same, b) y ]

  -- The entry of a pair gets the acknowledgement of a robot that it is about, and only then.
  pub find-acknowledge_for :
      (k : ℕ) (s : PendingSwap) (ss : List PendingSwap)
      → AreApart ss
      → find_swap l g ss ≡ some s
      → find_swap l g (acknowledge_for k ss)
        ≡ some (if involves k s then acknowledge_stopped k s else s)
  unfolding find_swap acknowledge_for acknowledge_stopped has_key
  find-acknowledge_for k s [] h e = absurd cc
  find-acknowledge_for k s (x ∷ ss) h e = elim (Bool-cases (has_key l g x)) [
    | inl here ↦
        let same : x ≡ s = ground arith in
        let key = has_key-acknowledge_stopped l g k x in ground arith
    | inr there ↦
        let rest : find_swap l g ss ≡ some s = ground arith in
        let key = has_key-acknowledge_stopped l g k x in
        elim (Bool-cases (involves k x)) [
          | inl i ↦
              let free = apart_from k x ss h i in
              let other : involves k s ≡ false = elim (Bool-cases (involves k s)) [
                | inl j ↦ let taken = found_swapping k s ss rest j in absurd cc
                | inr j ↦ j
              ] in
              ground arith
          | inr i ↦ let later = find-acknowledge_for k s ss h.3 rest in ground arith
        ]
  ]

  pub find-keep_live :
      (m : List (ℕ × RemoteRobot)) (s : PendingSwap) (ss : List PendingSwap)
      → is_stale m s ≡ false
      → find_swap l g ss ≡ some s
      → find_swap l g (keep_live m ss) ≡ some s
  unfolding find_swap keep_live
  find-keep_live m s [] live e = absurd cc
  find-keep_live m s (x ∷ ss) live e = elim (Bool-cases (has_key l g x)) [
    | inl here ↦ let same : x ≡ s = ground arith in ground arith
    | inr there ↦
        let rest : find_swap l g (keep_live m ss) ≡ some s =
          find-keep_live m s ss live (ground arith) in
        ground arith
  ]

-- A third position is in no entry of the pair.
pub ArePair-third :
    (i k o : ℕ) (s : PendingSwap)
    → ArePair k o s
    → (i == k) ≡ false
    → (i == o) ≡ false
    → involves i s ≡ false
unfolding involves
ArePair-third i k o s (inl (a, b)) x y = ground arith
ArePair-third i k o s (inr (a, b)) x y = ground arith

pub pair_acknowledged :
    (k o : ℕ) (s : PendingSwap) → ArePair k o s → ArePair k o (acknowledge_stopped k s)
unfolding acknowledge_stopped
pair_acknowledged k o s (inl (a, b)) = inl (ground arith, ground arith)
pair_acknowledged k o s (inr (a, b)) = inr (ground arith, ground arith)

pub ArePair-involves : (k o : ℕ) (s : PendingSwap) → ArePair k o s → involves k s ≡ true
unfolding involves
ArePair-involves k o s (inl (a, b)) = ground arith
ArePair-involves k o s (inr (a, b)) = ground arith

pub registered :
    (k : ℕ) (r : RemoteRobot) (m : List (ℕ × RemoteRobot))
    → find m k ≡ some r
    → is_registered k m ≡ true
unfolding is_registered
registered k r m h = ground arith

pub ArePair-live :
    (k o : ℕ) (s : PendingSwap) (m : List (ℕ × RemoteRobot))
    → ArePair k o s
    → is_registered o m ≡ true
    → is_stale m s ≡ false
unfolding is_stale
ArePair-live k o s m (inl (a, b)) h = rw b (ground arith)
ArePair-live k o s m (inr (a, b)) h = rw b (ground arith)

-- ===== src/Controller/Pending/Entries.antt =====
-- The lists of pending swaps (controller.cpp).
use opcua_cps_kitchen.Base.{
  ℕ, ◌<◌, ◌≡◌, ◌⊎◌, refl, subst, inl, inr, true, false, some, List, [], ◌∷◌, All, ◌==◌, Bool-cases,
  arith,
}
use opcua_cps_kitchen.Controller.State.{RemoteRobot, PendingSwap}
use opcua_cps_kitchen.Controller.Registry.{
  involves, is_robot_position_swapping, is_stale, keep_live,
}
use opcua_cps_kitchen.Controller.Swaps.{has_key, find_swap, erase_swap}
use opcua_cps_kitchen.Controller.Pending.{AreApart}

-- The predicates follow the lists that lose entries.
swapping-keep_live :
    (k : ℕ) (m : List (ℕ × RemoteRobot)) (ss : List PendingSwap)
    → is_robot_position_swapping k ss ≡ false
    → is_robot_position_swapping k (keep_live m ss) ≡ false
unfolding is_robot_position_swapping keep_live
swapping-keep_live k m [] h = refl
swapping-keep_live k m (s ∷ ss) h = ground (arith, swapping-keep_live k m ss)

pub keep_live-AreApart :
    (m : List (ℕ × RemoteRobot)) (ss : List PendingSwap) → AreApart ss → AreApart (keep_live m ss)
unfolding keep_live
keep_live-AreApart m [] h = tt
keep_live-AreApart m (s ∷ ss) h = elim (Bool-cases (is_stale m s)) [
  | inl e ↦ rw e (keep_live-AreApart m ss h.3)
  | inr e ↦ rw e (
    h.0,
    swapping-keep_live s.lower m ss h.1,
    swapping-keep_live s.greater m ss h.2,
    keep_live-AreApart m ss h.3,
  )
]

pub keep_live-All :
    (P : PendingSwap → Type 0) (m : List (ℕ × RemoteRobot)) (ss : List PendingSwap)
    → All P ss
    → All P (keep_live m ss)
unfolding keep_live
keep_live-All P m [] h = tt
keep_live-All P m (s ∷ ss) h = elim (Bool-cases (is_stale m s)) [
  | inl e ↦ rw e (keep_live-All P m ss h.1)
  | inr e ↦ rw e (h.0, keep_live-All P m ss h.1)
]

has_key-eq : (l g : ℕ) (s : PendingSwap) → has_key l g s ≡ true → (s.lower ≡ l) × (s.greater ≡ g)
unfolding has_key
has_key-eq l g s h = (ground arith, ground arith)

pub involves-eq : (k : ℕ) (s : PendingSwap) → involves k s ≡ true → (s.lower ≡ k) ⊎ (s.greater ≡ k)
unfolding involves
involves-eq k s h = elim (Bool-cases (s.lower == k)) [
  | inl e ↦ inl (ground arith)
  | inr e ↦ inr (ground arith)
]

module _ (l g : ℕ) where
  pub swapping-erase_swap :
      (k : ℕ) (ss : List PendingSwap)
      → is_robot_position_swapping k ss ≡ false
      → is_robot_position_swapping k (erase_swap l g ss) ≡ false
  unfolding is_robot_position_swapping erase_swap
  swapping-erase_swap k [] h = refl
  swapping-erase_swap k (s ∷ ss) h = ground (arith, swapping-erase_swap k ss)

  pub erase_swap-AreApart : (ss : List PendingSwap) → AreApart ss → AreApart (erase_swap l g ss)
  unfolding erase_swap
  erase_swap-AreApart [] h = tt
  erase_swap-AreApart (s ∷ ss) h = elim (Bool-cases (has_key l g s)) [
    | inl e ↦ rw e (erase_swap-AreApart ss h.3)
    | inr e ↦ rw e (
      h.0,
      swapping-erase_swap s.lower ss h.1,
      swapping-erase_swap s.greater ss h.2,
      erase_swap-AreApart ss h.3,
    )
  ]

  pub erase_swap-All :
      (P : PendingSwap → Type 0) (ss : List PendingSwap) → All P ss → All P (erase_swap l g ss)
  unfolding erase_swap
  erase_swap-All P [] h = tt
  erase_swap-All P (s ∷ ss) h = elim (Bool-cases (has_key l g s)) [
    | inl e ↦ rw e (erase_swap-All P ss h.1)
    | inr e ↦ rw e (h.0, erase_swap-All P ss h.1)
  ]

  -- What is found has the key, is in the list, and has what all entries have.
  pub find_swap-keys :
      (s : PendingSwap) (ss : List PendingSwap)
      → find_swap l g ss ≡ some s
      → (s.lower ≡ l) × (s.greater ≡ g)
  unfolding find_swap
  find_swap-keys s [] h = absurd cc
  find_swap-keys s (x ∷ ss) h = elim (Bool-cases (has_key l g x)) [
    | inl e ↦
        let same : x ≡ s = ground arith in
        subst (λ y. (y.lower ≡ l) × (y.greater ≡ g)) same (has_key-eq l g x e)
    | inr e ↦ find_swap-keys s ss (ground arith)
  ]

  pub find_swap-All :
      (P : PendingSwap → Type 0) (s : PendingSwap) (ss : List PendingSwap)
      → find_swap l g ss ≡ some s
      → All P ss
      → P s
  unfolding find_swap
  find_swap-All P s [] h all = absurd cc
  find_swap-All P s (x ∷ ss) h all = elim (Bool-cases (has_key l g x)) [
    | inl e ↦ let same : x ≡ s = ground arith in subst P same all.0
    | inr e ↦ find_swap-All P s ss (ground arith) all.1
  ]

  pub find_swap-ordered :
      (s : PendingSwap) (ss : List PendingSwap)
      → AreApart ss
      → find_swap l g ss ≡ some s
      → s.lower < s.greater
  unfolding find_swap
  find_swap-ordered s [] h e = absurd cc
  find_swap-ordered s (x ∷ ss) h e = elim (Bool-cases (has_key l g x)) [
    | inl k ↦ let same : x ≡ s = ground arith in subst (λ y. y.lower < y.greater) same h.0
    | inr k ↦ find_swap-ordered s ss h.3 (ground arith)
  ]

  pub find_swap-swapping :
      (s : PendingSwap) (ss : List PendingSwap)
      → find_swap l g ss ≡ some s
      → (is_robot_position_swapping l ss ≡ true) × (is_robot_position_swapping g ss ≡ true)
  unfolding find_swap has_key is_robot_position_swapping
  find_swap-swapping s [] h = absurd cc
  find_swap-swapping s (x ∷ ss) h = elim (Bool-cases (has_key l g x)) [
    | inl e ↦ (ground arith, ground arith)
    | inr e ↦ let (a, b) = find_swap-swapping s ss (ground arith) in (ground arith, ground arith)
  ]

  -- An entry apart from the others leaves a position of theirs as free as it is.
  still_free :
      (k : ℕ) (x : PendingSwap) (ss : List PendingSwap)
      → AreApart (x ∷ ss)
      → is_robot_position_swapping k ss ≡ true
      → is_robot_position_swapping k (erase_swap l g ss) ≡ false
      → is_robot_position_swapping k (x ∷ erase_swap l g ss) ≡ false
  unfolding is_robot_position_swapping involves
  still_free k x ss h inside outside = elim (Bool-cases (involves k x)) [
    | inl e ↦ absurd (taken (involves-eq k x (unfold involves in e)))
    | inr e ↦ ground arith
  ]
    where
      taken : (x.lower ≡ k) ⊎ (x.greater ≡ k) → ⊥
      taken (inl e) = let free : is_robot_position_swapping k ss ≡ false = rw (← e) h.1 in cc
      taken (inr e) = let free : is_robot_position_swapping k ss ≡ false = rw (← e) h.2 in cc

  -- Without its entry, a pair is in no swap.
  pub erased-free :
      (s : PendingSwap) (ss : List PendingSwap)
      → AreApart ss
      → find_swap l g ss ≡ some s
      → (is_robot_position_swapping l (erase_swap l g ss) ≡ false)
        × (is_robot_position_swapping g (erase_swap l g ss) ≡ false)
  unfolding find_swap erase_swap
  erased-free s [] h f = absurd cc
  erased-free s (x ∷ ss) h f = elim (Bool-cases (has_key l g x)) [
    | inl e ↦ rw e (
      swapping-erase_swap l ss
          (subst (λ k. is_robot_position_swapping k ss ≡ false) (has_key-eq l g x e).0 h.1),
      swapping-erase_swap g ss
          (subst (λ k. is_robot_position_swapping k ss ≡ false) (has_key-eq l g x e).1 h.2),
    )
    | inr e ↦
        let rest : find_swap l g ss ≡ some s = ground arith in
        let (a, b) = erased-free s ss h.3 rest in
        let (c, d) = find_swap-swapping s ss rest in
        rw e (still_free l x ss h c a, still_free g x ss h d b)
  ]

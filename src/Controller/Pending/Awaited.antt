-- ===== src/Controller/Pending/Awaited.antt =====
-- Which acknowledgements the pending swaps wait for (controller.cpp).
use opcua_cps_kitchen.Base.{
  ℕ, ◌<◌, ◌≡◌, refl, inl, inr, true, false, List, [], ◌∷◌, All, erase, ◌==◌, if◌then◌else◌,
  Bool-cases, arith,
}
use opcua_cps_kitchen.Controller.State.{RemoteRobot, PendingSwap}
use opcua_cps_kitchen.Controller.Registry.{
  is_registered, involves, is_robot_position_swapping, acknowledge_stopped, acknowledge_for,
}
use opcua_cps_kitchen.Controller.Falling.{is_registered-erase}
use opcua_cps_kitchen.Controller.Pending.{AreApart, IsAwaited}

-- Another entry's acknowledgement is as it was, and its keys are free of the position.
pub erase-IsAwaited :
    (k : ℕ) (m : List (ℕ × RemoteRobot)) (ss : List PendingSwap)
    → is_robot_position_swapping k ss ≡ false
    → All (IsAwaited m) ss
    → All (IsAwaited (erase k m)) ss
unfolding is_robot_position_swapping involves
erase-IsAwaited k m [] free h = tt
erase-IsAwaited k m (s ∷ ss) free h =
    let a : is_registered s.lower (erase k m) ≡ is_registered s.lower m =
      ground (arith, is_registered-erase k s.lower m) in
    let b : is_registered s.greater (erase k m) ≡ is_registered s.greater m =
      ground (arith, is_registered-erase k s.greater m) in
    ((λ e. h.0.0 (rw (← a) e), λ e. h.0.1 (rw (← b) e)), erase-IsAwaited k m ss (ground arith) h.1)

-- More robots leave fewer acknowledgements to be given in their place.
pub IsAwaited-mono :
    (m n : List (ℕ × RemoteRobot)) (ss : List PendingSwap)
    → ((k : ℕ) → is_registered k m ≡ true → is_registered k n ≡ true)
    → All (IsAwaited m) ss
    → All (IsAwaited n) ss
IsAwaited-mono m n [] more h = tt
IsAwaited-mono m n (s ∷ ss) more h = (
  (λ e. h.0.0 (absent s.lower e), λ e. h.0.1 (absent s.greater e)),
  IsAwaited-mono m n ss more h.1,
)
  where
    absent : (k : ℕ) → is_registered k n ≡ false → is_registered k m ≡ false
    absent k e = elim (Bool-cases (is_registered k m)) [
      | inl there ↦ let found : is_registered k n ≡ true = more k there in absurd cc
      | inr gone ↦ gone
    ]

-- The acknowledgements in place of a robot keep the keys.
pub swapping-acknowledge_for :
    (j k : ℕ) (ss : List PendingSwap)
    → is_robot_position_swapping j (acknowledge_for k ss) ≡ is_robot_position_swapping j ss
unfolding is_robot_position_swapping acknowledge_for acknowledge_stopped involves
swapping-acknowledge_for j k [] = refl
swapping-acknowledge_for j k (s ∷ ss) = ground (arith, swapping-acknowledge_for j k ss)

pub acknowledge_for-AreApart :
    (k : ℕ) (ss : List PendingSwap) → AreApart ss → AreApart (acknowledge_for k ss)
unfolding acknowledge_for acknowledge_stopped
acknowledge_for-AreApart k [] h = tt
acknowledge_for-AreApart k (s ∷ ss) h = elim (Bool-cases (involves k s)) [
  | inl e ↦ elim (Bool-cases (k == s.lower)) [
    | inl here ↦ rw (e, here) h
    | inr there ↦ rw (e, there) h
  ]
  | inr e ↦
      rw (e, swapping-acknowledge_for s.lower k ss, swapping-acknowledge_for s.greater k ss)
        (h.0, h.1, h.2, acknowledge_for-AreApart k ss h.3)
]

-- A robot that leaves is acknowledged for, and every other acknowledgement is as it was.
pub acknowledge_for-IsAwaited :
    (k : ℕ) (m : List (ℕ × RemoteRobot)) (ss : List PendingSwap)
    → AreApart ss
    → All (IsAwaited m) ss
    → All (IsAwaited (erase k m)) (acknowledge_for k ss)
unfolding acknowledge_for acknowledge_stopped involves
acknowledge_for-IsAwaited k m [] h all = tt
acknowledge_for-IsAwaited k m (s ∷ ss) h all =
    let a : is_registered s.lower (erase k m)
        ≡ (if k == s.lower then false else is_registered s.lower m) =
      is_registered-erase k s.lower m in
    let b : is_registered s.greater (erase k m)
        ≡ (if k == s.greater then false else is_registered s.greater m) =
      is_registered-erase k s.greater m in
    elim (Bool-cases (s.lower == k)) [
      | inl e ↦
          let same : s.lower ≡ k = ground arith in
          let apart : s.lower < s.greater = h.0 in
          let other : (k == s.greater) ≡ false = ground arith in
          let here : (k == s.lower) ≡ true = ground arith in
          rw (e, here)
            (
              (λ x. refl, λ x. all.0.1 (ground arith)),
              erase-IsAwaited k m ss (rw (← same) h.1) all.1,
            )
      | inr e ↦
          let here : (k == s.lower) ≡ false = ground arith in
          elim (Bool-cases (s.greater == k)) [
            | inl e' ↦
                let same : s.greater ≡ k = ground arith in
                rw (e, e', here)
                  (
                    (λ x. all.0.0 (ground arith), λ x. refl),
                    erase-IsAwaited k m ss (rw (← same) h.2) all.1,
                  )
            | inr e' ↦
                rw (e, e')
                  (
                    (λ x. all.0.0 (ground arith), λ x. all.0.1 (ground arith)),
                    acknowledge_for-IsAwaited k m ss h.3 all.1,
                  )
          ]
    ]

-- ===== src/Controller/Falling.antt =====
-- The map of the robots by falling positions (controller.hpp).
use opcua_cps_kitchen.Base.{
  ℕ, suc, ap, refl, ◌≤◌, ◌<◌, ◌≡◌, inl, inr, true, false, none, some, List, [], ◌∷◌, find, erase,
  find-erase, length, ltb, ◌==◌, if◌then◌else◌, Bool-cases, arith,
}
use opcua_cps_kitchen.Controller.State.{RemoteRobot}
use opcua_cps_kitchen.Controller.Registry.{enter, is_registered}

module _ {ℓ} {A : Type ℓ} where
  -- Every key is below the bound.
  abbrev pub AreBelow : ℕ → List (ℕ × A) → Type 0
  AreBelow k [] = Unit
  AreBelow k ((i, a) ∷ m) = (i < k) × AreBelow k m

  abbrev pub IsFalling : List (ℕ × A) → Type 0
  IsFalling [] = Unit
  IsFalling ((k, a) ∷ m) = AreBelow k m × IsFalling m

  AreBelow-mono : (j k : ℕ) (m : List (ℕ × A)) → j < k → AreBelow j m → AreBelow k m
  AreBelow-mono j k [] lt h = tt
  AreBelow-mono j k ((i, a) ∷ m) lt h = (omega (arith, h.0), AreBelow-mono j k m lt h.1)

  enter-AreBelow :
      (j k : ℕ) (a : A) (m : List (ℕ × A)) → k < j → AreBelow j m → AreBelow j (enter k a m)
  unfolding enter
  enter-AreBelow j k a [] lt h = (lt, tt)
  enter-AreBelow j k a ((i, b) ∷ m) lt h = elim (Bool-cases (i == k)) [
    | inl e ↦ rw e (lt, h.1)
    | inr e ↦ elim (Bool-cases (ltb i k)) [
      | inl l ↦ rw (e, l) (lt, h)
      | inr l ↦ rw (e, l) (h.0, enter-AreBelow j k a m lt h.1)
    ]
  ]

  pub enter-IsFalling : (k : ℕ) (a : A) (m : List (ℕ × A)) → IsFalling m → IsFalling (enter k a m)
  unfolding enter
  enter-IsFalling k a [] h = (tt, tt)
  enter-IsFalling k a ((i, b) ∷ m) h = elim (Bool-cases (i == k)) [
    | inl e ↦ let same : i ≡ k = ground arith in rw e (rw (← same) h)
    | inr e ↦ elim (Bool-cases (ltb i k)) [
      | inl l ↦ let lt : i < k = ground arith in rw (e, l) ((lt, AreBelow-mono i k m lt h.0), h)
      | inr l ↦
          let lt : k < i = ground arith in
          rw (e, l) (enter-AreBelow i k a m lt h.0, enter-IsFalling k a m h.1)
    ]
  ]

  erase-AreBelow : (j k : ℕ) (m : List (ℕ × A)) → AreBelow j m → AreBelow j (erase k m)
  unfolding erase
  erase-AreBelow j k [] h = tt
  erase-AreBelow j k ((i, b) ∷ m) h = elim (Bool-cases (i == k)) [
    | inl e ↦ rw e (erase-AreBelow j k m h.1)
    | inr e ↦ rw e (h.0, erase-AreBelow j k m h.1)
  ]

  pub erase-IsFalling : (k : ℕ) (m : List (ℕ × A)) → IsFalling m → IsFalling (erase k m)
  unfolding erase
  erase-IsFalling k [] h = tt
  erase-IsFalling k ((i, b) ∷ m) h = elim (Bool-cases (i == k)) [
    | inl e ↦ rw e (erase-IsFalling k m h.1)
    | inr e ↦ rw e (erase-AreBelow i k m h.0, erase-IsFalling k m h.1)
  ]

  pub find-enter :
      (k j : ℕ) (a : A) (m : List (ℕ × A))
      → find (enter k a m) j ≡ (if k == j then some a else find m j)
  unfolding find enter
  find-enter k j a [] = ground arith
  find-enter k j a ((i, b) ∷ m) = ground (arith, find-enter k j a m)

pub is_registered-enter :
    (k j : ℕ) (r : RemoteRobot) (m : List (ℕ × RemoteRobot))
    → is_registered j (enter k r m) ≡ (if k == j then true else is_registered j m)
unfolding is_registered
is_registered-enter k j r m = ground (arith, find-enter k j r m)

pub is_registered-erase :
    (k j : ℕ) (m : List (ℕ × RemoteRobot))
    → is_registered j (erase k m) ≡ (if k == j then false else is_registered j m)
unfolding is_registered
is_registered-erase k j m = ground (arith, find-erase k j m)

-- Assigning to the robot at a key leaves the keys.
pub is_registered-update :
    (k j : ℕ) (r s : RemoteRobot) (m : List (ℕ × RemoteRobot))
    → find m k ≡ some r
    → is_registered j (enter k s m) ≡ is_registered j m
unfolding is_registered
is_registered-update k j r s m h = ground (arith, find-enter k j s m)

module _ {ℓ} {A : Type ℓ} where
  -- A key above all others is not in the map.
  pub find-AreBelow : (j k : ℕ) (m : List (ℕ × A)) → AreBelow j m → j ≤ k → find m k ≡ none
  unfolding find
  find-AreBelow j k [] h le = refl
  find-AreBelow j k ((i, a) ∷ m) h le = ground (arith, h.0, find-AreBelow j k m h.1 le)

  pub length-enter-found :
      (k : ℕ) (a b : A) (m : List (ℕ × A))
      → IsFalling m
      → find m k ≡ some a
      → length (enter k b m) ≡ length m
  unfolding find enter
  length-enter-found k a b [] h e = absurd cc
  length-enter-found k a b ((i, x) ∷ m) h e = elim (Bool-cases (i == k)) [
    | inl s ↦ rw s refl
    | inr s ↦ elim (Bool-cases (ltb i k)) [
      | inl l ↦
          let gone : find m k ≡ none = find-AreBelow i k m h.0 (ground arith) in
          absurd (ground arith)
      | inr l ↦ rw (s, l) (ap suc (length-enter-found k a b m h.1 (ground arith)))
    ]
  ]

  pub length-enter-new :
      (k : ℕ) (b : A) (m : List (ℕ × A)) → find m k ≡ none → length (enter k b m) ≡ suc (length m)
  unfolding find enter
  length-enter-new k b [] e = refl
  length-enter-new k b ((i, x) ∷ m) e = ground (arith, length-enter-new k b m)

  length-erase-below :
      (j k : ℕ) (m : List (ℕ × A)) → AreBelow j m → j ≤ k → length (erase k m) ≡ length m
  unfolding erase
  length-erase-below j k [] h le = refl
  length-erase-below j k ((i, a) ∷ m) h le = ground (arith, h.0, length-erase-below j k m h.1 le)

  pub length-erase-found :
      (k : ℕ) (a : A) (m : List (ℕ × A))
      → IsFalling m
      → find m k ≡ some a
      → suc (length (erase k m)) ≡ length m
  unfolding find erase
  length-erase-found k a [] h e = absurd cc
  length-erase-found k a ((i, x) ∷ m) h e = elim (Bool-cases (i == k)) [
    | inl s ↦
        let below : length (erase k m) ≡ length m = length-erase-below i k m h.0 (ground arith) in
        rw s (ap suc below)
    | inr s ↦ rw s (ap suc (length-erase-found k a m h.1 (ground arith)))
  ]

  pub length-erase-absent :
      (k : ℕ) (m : List (ℕ × A)) → find m k ≡ none → length (erase k m) ≡ length m
  unfolding find erase
  length-erase-absent k [] e = refl
  length-erase-absent k ((i, x) ∷ m) e = ground (arith, length-erase-absent k m)

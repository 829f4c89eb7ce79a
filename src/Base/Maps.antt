-- ===== src/Base/Maps.antt =====
-- Maps from numbers as association lists with at most one entry for a key.
use Prim.Native.Nat.{ℕ}
use mathlib.Core.Path.{◌≡◌}
use mathlib.Core.Option.{Option, none, some}
use mathlib.Core.List.{List, [], ◌∷◌}
use native.Mathlib.Omega.{arith}
use opcua_cps_kitchen.Base.Tests.{◌==◌, if◌then◌else◌}

module _ {ℓ} {A : Type ℓ} where
  unfoldable pub find : List (ℕ × A) → ℕ → Option A
  find [] k = none
  find ((i, a) ∷ m) k = if i == k then some a else find m k

  unfoldable pub erase : ℕ → List (ℕ × A) → List (ℕ × A)
  erase k [] = []
  erase k ((i, a) ∷ m) = let rest = erase k m in if i == k then rest else (i, a) ∷ rest

  unfoldable pub put : ℕ → A → List (ℕ × A) → List (ℕ × A)
  unfolding erase
  put k a m = (k, a) ∷ erase k m

  pub find-erase :
      (k j : ℕ) (m : List (ℕ × A)) → find (erase k m) j ≡ (if k == j then none else find m j)
  unfolding find erase
  find-erase k j [] = ground arith
  find-erase k j ((i, a) ∷ m) = ground (arith, find-erase k j m)

  pub find-put :
      (k j : ℕ) (a : A) (m : List (ℕ × A))
      → find (put k a m) j ≡ (if k == j then some a else find m j)
  unfolding find put
  find-put k j a m = ground (arith, find-erase k j m)

-- ===== src/Conveyor/Stock/Bounds.antt =====
-- The bounds of what the conveyor counts and where its plates are (conveyor.cpp).
use native.Mathlib.Nat.{mod-lt, mod-eq_of_lt}
use opcua_cps_kitchen.Base.{
  ℕ, zero, suc, ◌+◌, ◌≤◌, ◌<◌, ◌≡◌, ◌∙◌, refl, inl, inr, true, false, List, [], ◌∷◌, length, All,
  ◌==◌, Bool-cases, u32_size, arith,
}
use opcua_cps_kitchen.Conveyor.State.{Plate, Conveyor, new_conveyor}
use opcua_cps_kitchen.Conveyor.Plates.{contains, erase_id}
use opcua_cps_kitchen.Conveyor.Loop.{BeltReach}
use opcua_cps_kitchen.Conveyor.Belt.{AreTurned}
use opcua_cps_kitchen.Conveyor.Stock.{AreDistinct}
use opcua_cps_kitchen.Conveyor.Stock.Sets.{contains-erase_id, erase_id-AreDistinct}
use opcua_cps_kitchen.Conveyor.Stock.Reachable.{BeltReach-IsStocked}

erase_id-absent : (i : ℕ) (js : List ℕ) → contains i js ≡ false → erase_id i js ≡ js
unfolding contains erase_id
erase_id-absent i [] h = refl
erase_id-absent i (j ∷ js) h = ground (arith, erase_id-absent i js)

-- Without one of them, a list of distinct numbers is shorter by one at most.
length-erase_id : (i : ℕ) (js : List ℕ) → AreDistinct js → length js ≤ suc (length (erase_id i js))
unfolding erase_id
length-erase_id i [] d = omega arith
length-erase_id i (j ∷ js) d = elim (Bool-cases (j == i)) [
  | inl e ↦
      let same : j ≡ i = ground arith in
      let out : erase_id i js ≡ js = erase_id-absent i js (rw (← same) d.0) in
      rw (e, out) (omega arith)
  | inr e ↦ let rest = length-erase_id i js d.1 in rw e (omega (arith, rest))
]

-- Distinct numbers below a bound are no more than the bound.
length-AreDistinct :
    (n : ℕ) (js : List ℕ)
    → AreDistinct js
    → ((j : ℕ) → contains j js ≡ true → j < n)
    → length js ≤ n
length-AreDistinct zero [] d h = omega arith
length-AreDistinct zero (j ∷ js) d h =
    let inside : j < 0 = h j (unfold contains in ground arith) in omega (arith, inside)
length-AreDistinct (suc n) js d h =
    let less = length-AreDistinct n (erase_id n js) (erase_id-AreDistinct n js d) (λ j e.
      let c = contains-erase_id n j js in
      let inside : contains j js ≡ true = ground arith in
      let low = h j inside in let other : (n == j) ≡ false = ground arith in ground arith) in
    let one = length-erase_id n js d in omega (arith, less, one)

AreTurned-All :
    (k n i : ℕ) (ps : List Plate) → 0 < n → AreTurned k n i ps → All (λ p. p.position < n) ps
AreTurned-All k n i [] h t = tt
AreTurned-All k n i (p ∷ ps) h (same, there, rest) =
    (rw there (mod-lt (i + k) h), AreTurned-All k n (suc i) ps h rest)

-- On a belt of n plates, with at least one and fewer than 2^32, whatever steps the conveyor has
-- done: no more plates than n are occupied, the attribute is their number itself, without a wrap,
-- and every plate stands at a place below n.
pub BeltReach-bounds :
    (n : ℕ) (c : Conveyor)
    → 0 < n
    → n + 1 ≤ u32_size
    → BeltReach (new_conveyor n) c
    → (length c.occupied_plates ≤ n)
      × (c.occupied_plates_count ≡ length c.occupied_plates)
      × All (λ p. p.position < n) c.plates
BeltReach-bounds n c h s r =
    let (k, v) = BeltReach-IsStocked n c h s r in
    let few = length-AreDistinct n c.occupied_plates v.distinct v.within in
    (
      few,
      v.count ∙ mod-eq_of_lt (omega (arith, few)),
      AreTurned-All k n 0 c.plates h v.turned.plates,
    )

-- ===== src/Conveyor/Belt.antt =====
-- The belt: where the plates are, and the map that finds them (conveyor.cpp).
use native.Mathlib.Nat.{mod-add-mod, add-mod-mod, mod-eq_of_lt, mod-lt, mod-eq-sub-mod}
use opcua_cps_kitchen.Base.{
  ℕ, zero, suc, ◌+◌, ◌-◌, ◌%◌, ◌≤◌, ◌<◌, ◌≡◌, refl, sym, ap, ◌∙◌, inl, inr, ◌&&◌, some, List, [],
  ◌∷◌, length, find, put, find-put, ltb, leb, if◌then◌else◌, Bool-cases, u32_size, arith,
}
use opcua_cps_kitchen.Conveyor.State.{Plate, Conveyor, new_plates, new_positions, new_conveyor}
use opcua_cps_kitchen.Conveyor.Movement.{new_position, move_plates, turn}

-- The place of plate `i` on a belt of `n` places that has moved `k` steps.
abbrev pub place : ℕ → ℕ → ℕ → ℕ
place k n i = (i + k) % n

-- The plates from number `i` on carry their numbers and stand at their places.
abbrev pub AreTurned : ℕ → ℕ → ℕ → List Plate → Type 0
AreTurned k n i [] = Unit
AreTurned k n i (p ∷ ps) = (p.id ≡ i) × (p.position ≡ place k n i) × AreTurned k n (suc i) ps

mod_cases : (n i r : ℕ) → i < n → r < n → (i + r) % n ≡ (if ltb (i + r) n then i + r else i + r - n)
mod_cases n i r h k = elim (Bool-cases (ltb (i + r) n)) [
  | inl low ↦ mod-eq_of_lt (ground arith) ∙ ground arith
  | inr high ↦ mod-eq-sub-mod (ground arith) ∙ mod-eq_of_lt (ground arith) ∙ ground arith
]

-- Different plates stand at different places.
pub place_injective : (k n i j : ℕ) → i < n → j < n → place k n i ≡ place k n j → i ≡ j
place_injective k n i j h l e =
    let a = mod_cases n i (k % n) h (mod-lt k (omega arith)) in
    let b = mod_cases n j (k % n) l (mod-lt k (omega arith)) in
    let p = add-mod-mod i k n in
    let q = add-mod-mod j k n in
    let s : (i + k % n) % n ≡ (j + k % n) % n = p ∙ e ∙ sym q in ground (arith, a, b, s)

new_position-place :
    (steps k n i : ℕ) (p : Plate)
    → 0 < n
    → n + steps ≤ u32_size
    → p.position ≡ place k n i
    → new_position steps n p ≡ place (k + steps) n i
unfolding new_position
new_position-place steps k n i p h s e =
    let below = mod-lt (i + k) h in
    ap (λ x. x % n) (mod-eq_of_lt (omega arith) ∙ ap (λ x. x + steps) e)
    ∙ mod-add-mod (i + k) n steps
    ∙ ap (λ x. x % n) (omega arith)

move_plates-AreTurned :
    (steps k n i : ℕ) (ps : List Plate) (m : List (ℕ × ℕ))
    → 0 < n
    → n + steps ≤ u32_size
    → AreTurned k n i ps
    → AreTurned (k + steps) n i (move_plates steps n ps m).0
unfolding move_plates
move_plates-AreTurned steps k n i [] m h s t = tt
move_plates-AreTurned steps k n i (p ∷ ps) m h s (same, there, rest) = (
  same,
  new_position-place steps k n i p h s there,
  move_plates-AreTurned steps k n (suc i) ps _ h s rest,
)

-- The loop writes the places of its plates into the map, and no other place.
move_plates-find :
    (steps k n i j : ℕ) (ps : List Plate) (m : List (ℕ × ℕ))
    → n + steps ≤ u32_size
    → i + length ps ≤ n
    → j < n
    → AreTurned k n i ps
    → find (move_plates steps n ps m).1 (place (k + steps) n j)
      ≡ (if leb i j && ltb j (i + length ps) then some j else find m (place (k + steps) n j))
unfolding move_plates
move_plates-find steps k n i j [] m s l h t = ground arith
move_plates-find steps k n i j (p ∷ ps) m s l h (same, there, rest) =
    let moved = new_position-place steps k n i p (omega arith) s there in
    let others =
      move_plates-find steps k n (suc i) j ps (put (new_position steps n p) p.id m) s (omega arith)
        h rest in
    let written = find-put (new_position steps n p) (place (k + steps) n j) p.id m in
    let apart = place_injective (k + steps) n i j (omega arith) h in
    grind (arith, others, written, moved, apart)

-- The belt of `n` places has moved `k` steps: the plates stand at their places, and the map finds
-- each plate by its place.
pub record IsTurned (k n : ℕ) (c : Conveyor) : Type 0 where
  pub size : length c.plates ≡ n
  pub plates : AreTurned k n 0 c.plates
  pub found : (i : ℕ) → i < n → find c.position_plate_id_map (place k n i) ≡ some i

move_plates-length :
    (steps n : ℕ) (ps : List Plate) (m : List (ℕ × ℕ))
    → length (move_plates steps n ps m).0 ≡ length ps
unfolding move_plates
move_plates-length steps n [] m = refl
move_plates-length steps n (p ∷ ps) m = ap suc (move_plates-length steps n ps _)

pub turn-IsTurned :
    (steps k n : ℕ) (c : Conveyor)
    → 0 < n
    → n + steps ≤ u32_size
    → IsTurned k n c
    → IsTurned (k + steps) n (turn steps c)
unfolding turn
turn-IsTurned steps k n c h s t =
    let size = t.size in
    let moved = move_plates-AreTurned steps k n 0 c.plates c.position_plate_id_map h s t.plates in
    record {
      size = move_plates-length steps (length c.plates) c.plates c.position_plate_id_map ∙ size;
      plates = rw size moved;
      found = λ i l. rw size (
          move_plates-find steps k n 0 i c.plates c.position_plate_id_map s (omega (arith, size)) l
            t.plates
          ∙ ground arith);
    }

new_plates-AreTurned : (n i rounds : ℕ) → i + rounds ≤ n → AreTurned 0 n i (new_plates i rounds)
unfolding new_plates
new_plates-AreTurned n i zero h = tt
new_plates-AreTurned n i (suc rounds) h = (
  refl,
  sym (ap (λ x. x % n) (omega arith) ∙ mod-eq_of_lt {n = i} {m = n} (omega arith)),
  new_plates-AreTurned n (suc i) rounds (omega arith),
)

new_plates-length : (i rounds : ℕ) → length (new_plates i rounds) ≡ rounds
unfolding new_plates
new_plates-length i zero = refl
new_plates-length i (suc rounds) = ap suc (new_plates-length (suc i) rounds)

new_positions-find :
    (i rounds j : ℕ) (m : List (ℕ × ℕ))
    → find (new_positions i rounds m) j
      ≡ (if leb i j && ltb j (i + rounds) then some j else find m j)
unfolding new_positions
new_positions-find i zero j m = ground arith
new_positions-find i (suc rounds) j m =
    grind (arith, new_positions-find (suc i) rounds j (put i i m), find-put i j i m)

pub new_conveyor-IsTurned : (n : ℕ) → IsTurned 0 n (new_conveyor n)
unfolding new_conveyor
new_conveyor-IsTurned n = record {
  size = new_plates-length 0 n;
  plates = new_plates-AreTurned n 0 n (omega arith);
  found = λ i l.
      ap (find (new_positions 0 n []))
        (ap (λ x. x % n) (omega arith) ∙ mod-eq_of_lt {n = i} {m = n} l)
      ∙ new_positions-find 0 n i []
      ∙ ground arith;
}

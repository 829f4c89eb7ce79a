-- ===== src/Conveyor/Output.antt =====
-- The belt after a number of movements, and the output (move_conveyor of conveyor.cpp).
use native.Mathlib.Nat.{mod-lt, mod_self, add-mul-mod_self_left, zero-mod, mod-add-mod}
use opcua_cps_kitchen.Base.{
  sym, ◌%◌, ◌-◌, ◌==◌, inl, inr, Bool-cases, ℕ, zero, suc, ◌+◌, ◌≤◌, ◌<◌, ◌≡◌, ◌∙◌, refl, subst, ap,
  some, List, [], ◌∷◌, find, length, get_elem?, u32_size, arith,
}
use opcua_cps_kitchen.Conveyor.State.{Plate, Conveyor}
use opcua_cps_kitchen.Conveyor.Movement.{new_position, move_plates, turn}
use opcua_cps_kitchen.Conveyor.Delivery.{output_position}
use opcua_cps_kitchen.Conveyor.Belt.{place, IsTurned, turn-IsTurned}
use opcua_cps_kitchen.Conveyor.Stock.Sets.{AreTurned-get_elem?, get_elem?-lt-length}

place-after : (k n i j : ℕ) → place (k + j) n i ≡ ((i + k) % n + j) % n
place-after k n i j = ap (λ x. x % n) (omega arith) ∙ sym (mod-add-mod (i + k) n j)

place-output : (k n i : ℕ) → 0 < n → (j : ℕ) × (j < n) × (place (k + j) n i ≡ output_position)
place-output k n i h =
    let r = (i + k) % n in
    let below = mod-lt (i + k) h in
    elim (Bool-cases (r == 0)) [
      | inl there ↦ (0, h, place-after k n i 0 ∙ ap (λ x. x % n) (ground arith) ∙ zero-mod n)
      | inr away ↦ (
        n - r,
        ground arith,
        place-after k n i (n - r) ∙ ap (λ x. x % n) (ground arith) ∙ mod_self n,
      )
    ]

-- The belt after a number of movements by one step.
unfoldable pub turns : ℕ → Conveyor → Conveyor
turns zero c = c
turns (suc j) c = turn 1 (turns j c)

move_plates-some :
    (steps n i : ℕ) (ps : List Plate) (m : List (ℕ × ℕ)) (p : Plate)
    → get_elem? ps i ≡ some p
    → get_elem? (move_plates steps n ps m).0 i
      ≡ some (record p { position = new_position steps n p })
unfolding move_plates
move_plates-some steps n i [] m p e = ground arith
move_plates-some steps n zero (q ∷ ps) m p e = ground arith
move_plates-some steps n (suc i) (q ∷ ps) m p e = move_plates-some steps n i ps _ p e

-- Moving changes nothing of a plate but its position.
abbrev pub IsMoved : Plate → Plate → Type 0
IsMoved p q = record p { position = q.position } ≡ q

abbrev at_position : ℕ → Plate → Plate
at_position a p = record p { position = a }

turns-some :
    (j i : ℕ) (c : Conveyor) (p : Plate)
    → get_elem? c.plates i ≡ some p
    → (q : Plate) × (get_elem? (turns j c).plates i ≡ some q) × IsMoved p q
unfolding turns turn
turns-some zero i c p e = (p, e, refl)
turns-some (suc j) i c p e =
    let (q, found, moved) = turns-some j i c p e in
    let d = turns j c in
    (
      record q { position = new_position 1 (length d.plates) q },
      move_plates-some 1 (length d.plates) i d.plates d.position_plate_id_map q found,
      ap (at_position (new_position 1 (length d.plates) q)) moved,
    )

turns-IsTurned :
    (j k n : ℕ) (c : Conveyor)
    → 0 < n
    → n + 1 ≤ u32_size
    → IsTurned k n c
    → IsTurned (k + j) n (turns j c)
unfolding turns
turns-IsTurned zero k n c h s t = subst (λ x. IsTurned x n c) (omega arith) t
turns-IsTurned (suc j) k n c h s t =
    subst (λ x. IsTurned x n (turns (suc j) c)) (omega arith)
      (turn-IsTurned 1 (k + j) n (turns j c) h s (turns-IsTurned j k n c h s t))

-- On a belt whose plates stand in order, each plate comes to the output after fewer movements than
-- there are plates, and carries what it carried before.
pub turns-output :
    (k n i : ℕ) (c : Conveyor) (p : Plate)
    → n + 1 ≤ u32_size
    → IsTurned k n c
    → get_elem? c.plates i ≡ some p
    → (j : ℕ) × (j < n)
      × (q : Plate) × (get_elem? (turns j c).plates i ≡ some q)
      × (q.position ≡ output_position)
      × IsMoved p q
turns-output k n i c p s t e =
    let range = get_elem?-lt-length i p c.plates e in
    let size = t.size in
    let h : 0 < n = ground (arith, range, size) in
    let (j, near, out) = place-output k n i h in
    let (q, found, moved) = turns-some j i c p e in
    let (_, there) =
      AreTurned-get_elem? (k + j) n i 0 q (turns j c).plates (turns-IsTurned j k n c h s t).plates
        found in
    (j, near, q, found, there ∙ ap (place (k + j) n) (omega arith) ∙ out, moved)

place-around : (k n i : ℕ) → place (k + n) n i ≡ place k n i
place-around k n i = ap (λ x. x % n) (omega arith) ∙ add-mul-mod_self_left (i + k) n 1

-- On a belt of fewer than 2^32 plates that stand in order: after as many movements as there are
-- plates, each plate is the one that it was, with what it carries and where it stands, and the
-- map finds it there as before.
pub turns-around :
    (k n i : ℕ) (c : Conveyor) (p : Plate)
    → n + 1 ≤ u32_size
    → IsTurned k n c
    → get_elem? c.plates i ≡ some p
    → (get_elem? (turns n c).plates i ≡ some p)
      × (find (turns n c).position_plate_id_map p.position ≡ some i)
      × (find c.position_plate_id_map p.position ≡ some i)
turns-around k n i c p s t e =
    let range = get_elem?-lt-length i p c.plates e in
    let size = t.size in
    let near : i < n = ground (arith, range, size) in
    let h : 0 < n = omega arith in
    let after = turns-IsTurned n k n c h s t in
    let (q, found, moved) = turns-some n i c p e in
    let (_, first) = AreTurned-get_elem? k n i 0 p c.plates t.plates e in
    let (_, last) = AreTurned-get_elem? (k + n) n i 0 q (turns n c).plates after.plates found in
    let was : p.position ≡ place k n i = first ∙ ap (place k n) (omega arith) in
    let is : q.position ≡ place (k + n) n i = last ∙ ap (place (k + n) n) (omega arith) in
    let back : q.position ≡ p.position = is ∙ place-around k n i ∙ sym was in
    let same : p ≡ q = subst (λ x. at_position x p ≡ q) back moved in
    (
      found ∙ ap some (sym same),
      ap (find (turns n c).position_plate_id_map) (was ∙ sym (place-around k n i))
          ∙ after.found i near,
      ap (find c.position_plate_id_map) was ∙ t.found i near,
    )

-- ===== src/Conveyor/Journey.antt =====
-- Which dishes leave the belt in a round of deliveries (deliver_finished_order of conveyor.cpp).
use opcua_cps_kitchen.Base.{
  ℕ, zero, suc, ◌≡◌, ◌∙◌, refl, sym, ap, ◌⊎◌, inl, inr, String, Bool, true, false, not, ◌&&◌, none,
  some, List, [], ◌∷◌, get_elem?, set_elem, find, ◌==◌, if◌then◌else◌, Option-cases, ℕ_discrete,
  subst, arith,
}
use opcua_cps_kitchen.Conveyor.State.{Plate, Conveyor}
use opcua_cps_kitchen.Conveyor.Plates.{halt, with_plate, contains, clear_plate, set_target_position}
use opcua_cps_kitchen.Conveyor.Delivery.{
  Flagged, failed, bad_size, bad_type, result, Instructed, Surroundings, output_position,
  deliver_plate, deliver_plates,
}
use opcua_cps_kitchen.Conveyor.Stock.{AreDistinct, IsStocked}
use opcua_cps_kitchen.Conveyor.Stock.Sets.{contains-erase_id}

-- The kitchen takes the dish.
abbrev pub accepts : Flagged → Bool
accepts failed = false
accepts bad_size = false
accepts bad_type = false
accepts (result b) = b

-- The robot takes the task, and stands where the plate is.
abbrev pub takes : ℕ → Instructed → Bool
takes position failed = false
takes position bad_size = false
takes position bad_type = false
takes position (result p b) = b && position == p

-- A known robot stands at the position, is available and takes the task.
unfoldable pub is_taken : Surroundings → List (ℕ × String) → ℕ → Plate → Bool
is_taken around robots i p = elim (find robots p.position) [
  | none ↦ false
  | some e ↦
      (around.robot_position i == p.position && around.robot_available i)
      && takes p.position (around.instruct i)
]

-- Whether the dish of a plate leaves the belt: a finished one at the output to the kitchen, an
-- unfinished one at its target to the robot there.
unfoldable pub leaves : Surroundings → List (ℕ × String) → ℕ → Plate → Bool
unfolding is_taken
leaves around robots i p =
    if p.dish_finished
    then p.position == output_position && accepts (around.kitchen i)
    else not (p.target_position == 0)
      && (p.position == p.target_position && is_taken around robots i p)

-- A round for one plate clears it exactly if its dish leaves; at most the target is reset and the
-- conveyor stops otherwise.
deliver_plate-cases :
    (around : Surroundings) (i : ℕ) (p : Plate) (c : Conveyor)
    → ((leaves around c.position_remote_robot_map i p ≡ true)
        × (deliver_plate around i p c ≡ clear_plate i p c))
      ⊎ ((leaves around c.position_remote_robot_map i p ≡ false)
          × ((deliver_plate around i p c ≡ c)
              ⊎ ((deliver_plate around i p c ≡ halt c)
                  ⊎ ((deliver_plate around i p c ≡ set_target_position i 0 p c)
                      ⊎ (deliver_plate around i p c ≡ set_target_position i 0 p (halt c))))))
unfolding deliver_plate leaves
deliver_plate-cases around i p c = ground arith

-- What a round for plate `i` leaves alone.
record Spares (i : ℕ) (c d : Conveyor) : Type 0 where
  plates : (j : ℕ) → i == j ≡ false → get_elem? d.plates j ≡ get_elem? c.plates j
  members : (j : ℕ) → i == j ≡ false → contains j d.occupied_plates ≡ contains j c.occupied_plates
  robots : d.position_remote_robot_map ≡ c.position_remote_robot_map

set_elem-other :
    (i j : ℕ) (q : Plate) (ps : List Plate)
    → i == j ≡ false
    → get_elem? (set_elem i q ps) j ≡ get_elem? ps j
unfolding set_elem
set_elem-other i j q [] h = refl
set_elem-other zero zero q (p ∷ ps) h = ground arith
set_elem-other zero (suc j) q (p ∷ ps) h = refl
set_elem-other (suc i) zero q (p ∷ ps) h = refl
set_elem-other (suc i) (suc j) q (p ∷ ps) h = set_elem-other i j q ps (ground arith)

clear_plate-Spares : (i : ℕ) (p : Plate) (c : Conveyor) → Spares i c (clear_plate i p c)
unfolding clear_plate
clear_plate-Spares i p c = record {
  plates = λ j h. set_elem-other i j _ c.plates h;
  members = λ j h. contains-erase_id i j c.occupied_plates ∙ ground arith;
  robots = refl;
}

target-Spares : (i : ℕ) (p : Plate) (c : Conveyor) → Spares i c (set_target_position i 0 p c)
unfolding set_target_position
target-Spares i p c = record {
  plates = λ j h. set_elem-other i j _ c.plates h;
  members = λ j h. refl;
  robots = refl;
}

halt-Spares : (i : ℕ) (c : Conveyor) → Spares i c (halt c)
unfolding halt
halt-Spares i c = record { plates = λ j h. refl; members = λ j h. refl; robots = refl }

halted-Spares : (i : ℕ) (p : Plate) (c : Conveyor) → Spares i c (set_target_position i 0 p (halt c))
unfolding set_target_position halt
halted-Spares i p c = record {
  plates = λ j h. set_elem-other i j _ c.plates h;
  members = λ j h. refl;
  robots = refl;
}

same-Spares : (i : ℕ) (c : Conveyor) → Spares i c c
same-Spares i c = record { plates = λ j h. refl; members = λ j h. refl; robots = refl }

-- One round: the dish of the plate stays exactly if it does not leave, and no other plate changes.
deliver_plate-round :
    (around : Surroundings) (i : ℕ) (p : Plate) (c : Conveyor)
    → (contains i (deliver_plate around i p c).occupied_plates
        ≡ (not (leaves around c.position_remote_robot_map i p) && contains i c.occupied_plates))
      × Spares i c (deliver_plate around i p c)
unfolding clear_plate set_target_position halt
deliver_plate-round around i p c = elim (deliver_plate-cases around i p c) [
  | inl (goes, e) ↦
      rw (e, goes)
        (contains-erase_id i i c.occupied_plates ∙ ground arith, clear_plate-Spares i p c)
  | inr (stays, inl e) ↦ rw (e, stays) (refl, same-Spares i c)
  | inr (stays, inr (inl e)) ↦ rw (e, stays) (refl, halt-Spares i c)
  | inr (stays, inr (inr (inl e))) ↦ rw (e, stays) (refl, target-Spares i p c)
  | inr (stays, inr (inr (inr e))) ↦ rw (e, stays) (refl, halted-Spares i p c)
]

-- The round of the loop for plate `i`.
abbrev turn_of : Surroundings → ℕ → Conveyor → Conveyor
turn_of around i c = with_plate i (λ p. deliver_plate around i p c) c

turn_of-Spares : (around : Surroundings) (i : ℕ) (c : Conveyor) → Spares i c (turn_of around i c)
unfolding with_plate
turn_of-Spares around i c = elim (Option-cases (get_elem? c.plates i)) [
  | inl missing ↦ rw (missing, with_plate) (same-Spares i c)
  | inr (p, found) ↦ rw (found, with_plate) ((deliver_plate-round around i p c).1)
]

turn_of-contains :
    (around : Surroundings) (i : ℕ) (p : Plate) (c : Conveyor)
    → get_elem? c.plates i ≡ some p
    → contains i (turn_of around i c).occupied_plates
      ≡ (not (leaves around c.position_remote_robot_map i p) && contains i c.occupied_plates)
unfolding with_plate
turn_of-contains around i p c found = rw (found, with_plate) ((deliver_plate-round around i p c).0)

deliver_plates-skip :
    (around : Surroundings) (i : ℕ) (is : List ℕ) (c : Conveyor)
    → contains i is ≡ false
    → contains i (deliver_plates around is c).occupied_plates ≡ contains i c.occupied_plates
unfolding deliver_plates contains
deliver_plates-skip around i [] c h = refl
deliver_plates-skip around i (x ∷ is) c h =
    deliver_plates-skip around i is (turn_of around x c) (ground arith)
    ∙ (turn_of-Spares around x c).members i (ground arith)

deliver_plates-hit :
    (around : Surroundings) (i : ℕ) (p : Plate) (is : List ℕ) (c : Conveyor)
    → AreDistinct is
    → contains i is ≡ true
    → get_elem? c.plates i ≡ some p
    → contains i (deliver_plates around is c).occupied_plates
      ≡ (not (leaves around c.position_remote_robot_map i p) && contains i c.occupied_plates)
unfolding deliver_plates contains
deliver_plates-hit around i p [] c d h found = ground arith
deliver_plates-hit around i p (x ∷ is) c d h found = elim (ℕ_discrete x i) [
  | yes here ↦
      let out : contains i is ≡ false = ap (λ j. contains j is) (sym here) ∙ d.0 in
      deliver_plates-skip around i is (turn_of around x c) out
      ∙ subst
          (λ j.
            contains i (turn_of around j c).occupied_plates
            ≡ (not (leaves around c.position_remote_robot_map i p) && contains i c.occupied_plates))
          (sym here) (turn_of-contains around i p c found)
  | no there ↦
      let apart : x == i ≡ false = ground arith in
      let spares = turn_of-Spares around x c in
      let rest =
        deliver_plates-hit around i p is (turn_of around x c) d.1 (ground arith)
          (spares.plates i apart ∙ found) in
      let robots = spares.robots in
      let members = spares.members i apart in
      rest
      ∙ ap (λ m. not (leaves around m i p) && contains i (turn_of around x c).occupied_plates)
          robots
      ∙ ap (λ b. not (leaves around c.position_remote_robot_map i p) && b) members
]

-- After the deliveries of a movement, of the plates that were occupied those are free whose dish
-- leaves: a finished dish at the output that the kitchen takes, or an unfinished one at its target
-- that a known and available robot there takes. The others are still occupied.
pub deliver_plates-leaves :
    (k n : ℕ) (around : Surroundings) (i : ℕ) (p : Plate) (c : Conveyor)
    → IsStocked k n c
    → get_elem? c.plates i ≡ some p
    → p.occupied ≡ true
    → contains i (deliver_plates around c.occupied_plates c).occupied_plates
      ≡ not (leaves around c.position_remote_robot_map i p)
deliver_plates-leaves k n around i p c v found occupied =
    let flag = v.flags i p found ∙ occupied in
    deliver_plates-hit around i p c.occupied_plates c v.distinct flag found
    ∙ ap (λ b. not (leaves around c.position_remote_robot_map i p) && b) flag
    ∙ and_true _
  where
    and_true : (b : Bool) → (b && true) ≡ b
    and_true b = ground arith

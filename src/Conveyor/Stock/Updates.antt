-- ===== src/Conveyor/Stock/Updates.antt =====
-- The stock and the changes of one plate (conveyor.cpp).
use opcua_cps_kitchen.Base.{
  ℕ, ◌%◌, ◌≡◌, ◌≢◌, ◌∙◌, refl, sym, ap, subst, inl, inr, none, some, List, ==_iff, length,
  get_elem?, set_elem, find, put, find-put, ◌==◌, if◌then◌else◌, Bool-cases, Option-cases, arith,
  u32_size,
}
use opcua_cps_kitchen.Robot.Methods.{Handover}
use opcua_cps_kitchen.Conveyor.State.{Plate, BeltTimer, Conveyor}
use opcua_cps_kitchen.Conveyor.Plates.{
  halt, schedule, visit, contains, insert_id, erase_id, place_dish, reset_plate,
  set_occupied_plates, fill, clear_plate, set_target_position,
}
use opcua_cps_kitchen.Conveyor.Belt.{IsTurned, place}
use opcua_cps_kitchen.Conveyor.Stock.{AreDistinct, IsTidy, IsStocked}
use opcua_cps_kitchen.Conveyor.Stock.Sets.{
  contains-insert_id, contains-erase_id, insert_id-AreDistinct, erase_id-AreDistinct,
  set_elem-length, set_elem-cases, get_elem?-lt-length, AreTurned-get_elem?, set_elem-AreTurned,
}

-- A plate changed in its place.
pub set_elem-IsTurned :
    (k n i : ℕ) (p q : Plate) (c : Conveyor)
    → get_elem? c.plates i ≡ some p
    → q.id ≡ p.id
    → q.position ≡ p.position
    → IsTurned k n c
    → IsTurned k n (record c { plates = set_elem i q c.plates })
set_elem-IsTurned k n i p q c e a b t = record {
  size = set_elem-length i q c.plates ∙ t.size;
  plates = set_elem-AreTurned k n i 0 p q c.plates t.plates e a b;
  found = t.found;
}

-- The plates, the set and the count after one plate has changed.
pub update-IsStocked :
    (k n i : ℕ) (p q : Plate) (is : List ℕ) (count : ℕ) (c : Conveyor)
    → get_elem? c.plates i ≡ some p
    → q.id ≡ p.id
    → q.position ≡ p.position
    → IsTidy q
    → ((j : ℕ) → contains j is ≡ (if i == j then q.occupied else contains j c.occupied_plates))
    → AreDistinct is
    → count ≡ length is % u32_size
    → IsStocked k n c
    → IsStocked k n (record c {
      plates = set_elem i q c.plates;
      occupied_plates = is;
      occupied_plates_count = count;
    })
update-IsStocked k n i p q is count c e a b tidied members distinct counted v =
    let t = set_elem-IsTurned k n i p q c e a b v.turned in
    let size = v.turned.size in
    record {
      turned = record { size = t.size; plates = t.plates; found = t.found };
      flags = λ j x h. elim (set_elem-cases i j p q x c.plates e h) [
        | inl (here, same) ↦ members j ∙ rw here (ap (λ y. y.occupied) same)
        | inr (there, found) ↦ members j ∙ rw there (v.flags j x found)
      ];
      tidy = λ j x h. elim (set_elem-cases i j p q x c.plates e h) [
        | inl (here, same) ↦ subst IsTidy same tidied
        | inr (there, found) ↦ v.tidy j x found
      ];
      within = λ j h.
          let m = members j in
          let old = v.within j in
          let range = get_elem?-lt-length i p c.plates e in ground (arith, m, old, range);
      distinct = distinct;
      count = counted;
    }

pub fill-IsStocked :
    (k n i : ℕ) (h : Handover) (p : Plate) (c : Conveyor)
    → get_elem? c.plates i ≡ some p
    → h.recipe_id ≢ 0
    → IsStocked k n c
    → IsStocked k n (fill i h p c)
unfolding fill place_dish set_occupied_plates
fill-IsStocked k n i h p c e some_recipe v =
    let (own, _) = AreTurned-get_elem? k n i 0 p c.plates v.turned.plates e in
    update-IsStocked k n i p (place_dish h p) (insert_id p.id c.occupied_plates)
      (length (insert_id p.id c.occupied_plates) % u32_size) c e refl refl
      (record {
        free_recipe = λ x. ground arith;
        free_steps = λ x. ground arith;
        free_unfinished = λ x. ground arith;
        carries = λ x. some_recipe;
      })
      (λ j. contains-insert_id p.id j c.occupied_plates ∙ ground (arith, own))
      (insert_id-AreDistinct p.id c.occupied_plates v.distinct) refl v

pub clear_plate-IsStocked :
    (k n i : ℕ) (p : Plate) (c : Conveyor)
    → get_elem? c.plates i ≡ some p
    → IsStocked k n c
    → IsStocked k n (clear_plate i p c)
unfolding clear_plate reset_plate set_occupied_plates
clear_plate-IsStocked k n i p c e v =
    update-IsStocked k n i p (reset_plate p) (erase_id i c.occupied_plates)
      (length (erase_id i c.occupied_plates) % u32_size) c e refl refl
      (record {
        free_recipe = λ x. refl;
        free_steps = λ x. refl;
        free_unfinished = λ x. refl;
        carries = λ x. ground arith;
      })
      (λ j. contains-erase_id i j c.occupied_plates ∙ ground arith)
      (erase_id-AreDistinct i c.occupied_plates v.distinct) refl v

pub set_target_position-IsStocked :
    (k n i position : ℕ) (p : Plate) (c : Conveyor)
    → get_elem? c.plates i ≡ some p
    → IsStocked k n c
    → IsStocked k n (set_target_position i position p c)
unfolding set_target_position
set_target_position-IsStocked k n i position p c e v =
    let t = v.tidy i p e in
    let flag = v.flags i p e in
    update-IsStocked k n i p (record p { target_position = position }) c.occupied_plates
      c.occupied_plates_count c e refl refl
      (record {
        free_recipe = t.free_recipe;
        free_steps = t.free_steps;
        free_unfinished = t.free_unfinished;
        carries = t.carries;
      })
      (λ j. elim (Bool-cases (i == j)) [
        | inl here ↦
            rw here (ap (λ x. contains x c.occupied_plates) (sym ((==_iff i j).0 here)) ∙ flag)
        | inr there ↦ rw there refl
      ])
      v.distinct v.count v

-- The other members do not matter to the stock.
pub transfer :
    (k n : ℕ) (c d : Conveyor)
    → c.plates ≡ d.plates
    → c.occupied_plates ≡ d.occupied_plates
    → c.occupied_plates_count ≡ d.occupied_plates_count
    → c.position_plate_id_map ≡ d.position_plate_id_map
    → IsStocked k n c
    → IsStocked k n d
transfer k n c d ps os x m v = record {
  turned = record {
    size = rw (← ps) v.turned.size;
    plates = rw (← ps) v.turned.plates;
    found = rw (← m) v.turned.found;
  };
  flags = rw (← ps, ← os) v.flags;
  tidy = rw (← ps) v.tidy;
  within = rw (← os) v.within;
  distinct = rw (← os) v.distinct;
  count = rw (← x, ← os) v.count;
}

pub schedule-IsStocked :
    (k n : ℕ) (t : BeltTimer) (c : Conveyor) → IsStocked k n c → IsStocked k n (schedule t c)
unfolding schedule halt
schedule-IsStocked k n t c v =
    transfer k n c (schedule t c) (ground arith) (ground arith) (ground arith) (ground arith) v

-- A place of the belt is in the map already, so operator[] adds none that the belt has.
new_key-IsStocked :
    (k n position : ℕ) (c : Conveyor)
    → find c.position_plate_id_map position ≡ none
    → IsStocked k n c
    → IsStocked k n (record c { position_plate_id_map = put position 0 c.position_plate_id_map })
new_key-IsStocked k n position c missing v = record {
  turned = record {
    size = v.turned.size;
    plates = v.turned.plates;
    found = λ i h.
        let old = v.turned.found i h in
        let new = find-put position (place k n i) 0 c.position_plate_id_map in
        grind (arith, old, new, missing);
  };
  flags = v.flags;
  tidy = v.tidy;
  within = v.within;
  distinct = v.distinct;
  count = v.count;
}

pub visit-IsStocked :
    (k n position : ℕ) (c : Conveyor) → IsStocked k n c → IsStocked k n (visit position c)
unfolding visit
visit-IsStocked k n position c v = elim (Option-cases (find c.position_plate_id_map position)) [
  | inl missing ↦
      let same : record c { position_plate_id_map = put position 0 c.position_plate_id_map }
          ≡ visit position c =
        ground arith in
      subst (IsStocked k n) same (new_key-IsStocked k n position c missing v)
  | inr (i, known) ↦ let same : c ≡ visit position c = ground arith in subst (IsStocked k n) same v
]

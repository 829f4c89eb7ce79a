-- ===== src/Conveyor/Stock/Sets.antt =====
-- The set of the occupied plates as a list without repetitions, and plates by their number.
use opcua_cps_kitchen.Base.{
  ℕ, zero, suc, ◌+◌, ◌<◌, ◌≡◌, ◌∙◌, refl, ap, ◌⊎◌, inl, inr, true, false, not, ◌&&◌, ◌||◌, some,
  List, [], ◌∷◌, length, get_elem?, set_elem, ◌==◌, if◌then◌else◌, Bool-cases, arith,
}
use opcua_cps_kitchen.Conveyor.State.{Plate}
use opcua_cps_kitchen.Conveyor.Plates.{contains, insert_id, erase_id}
use opcua_cps_kitchen.Conveyor.Belt.{AreTurned, place}
use opcua_cps_kitchen.Conveyor.Stock.{AreDistinct}

pub contains-insert_id :
    (i j : ℕ) (js : List ℕ) → contains j (insert_id i js) ≡ (i == j || contains j js)
unfolding insert_id contains
contains-insert_id i j js = grind arith

pub contains-erase_id :
    (i j : ℕ) (js : List ℕ) → contains j (erase_id i js) ≡ (not (i == j) && contains j js)
unfolding erase_id contains
contains-erase_id i j [] = ground arith
contains-erase_id i j (x ∷ js) = ground (arith, contains-erase_id i j js)

pub insert_id-AreDistinct : (i : ℕ) (js : List ℕ) → AreDistinct js → AreDistinct (insert_id i js)
unfolding insert_id
insert_id-AreDistinct i js d = elim (Bool-cases (contains i js)) [
  | inl old ↦ rw old d
  | inr new ↦ rw new (new, d)
]

pub erase_id-AreDistinct : (i : ℕ) (js : List ℕ) → AreDistinct js → AreDistinct (erase_id i js)
unfolding erase_id
erase_id-AreDistinct i [] d = tt
erase_id-AreDistinct i (x ∷ js) d =
    let rest = erase_id-AreDistinct i js d.1 in
    let out = contains-erase_id i x js in
    elim (Bool-cases (x == i)) [
      | inl same ↦ rw same rest
      | inr other ↦ rw other (out ∙ ground (arith, d.0), rest)
    ]

module _ {ℓ} {A : Type ℓ} where
  pub set_elem-length : (i : ℕ) (y : A) (xs : List A) → length (set_elem i y xs) ≡ length xs
  unfolding set_elem
  set_elem-length i y [] = refl
  set_elem-length zero y (x ∷ xs) = refl
  set_elem-length (suc i) y (x ∷ xs) = ap suc (set_elem-length i y xs)

  pub get_elem?-set_elem :
      (i j : ℕ) (x y : A) (xs : List A)
      → get_elem? xs i ≡ some x
      → get_elem? (set_elem i y xs) j ≡ (if i == j then some y else get_elem? xs j)
  unfolding set_elem
  get_elem?-set_elem i j x y [] e = ground arith
  get_elem?-set_elem zero zero x y (z ∷ xs) e = ground arith
  get_elem?-set_elem zero (suc j) x y (z ∷ xs) e = ground arith
  get_elem?-set_elem (suc i) zero x y (z ∷ xs) e = ground arith
  get_elem?-set_elem (suc i) (suc j) x y (z ∷ xs) e =
      ground (arith, get_elem?-set_elem i j x y xs e)

  -- What stands in the list after a change is the new element, or an old one elsewhere.
  pub set_elem-cases :
      (i j : ℕ) (x y z : A) (xs : List A)
      → get_elem? xs i ≡ some x
      → get_elem? (set_elem i y xs) j ≡ some z
      → ((i == j ≡ true) × (y ≡ z)) ⊎ ((i == j ≡ false) × (get_elem? xs j ≡ some z))
  set_elem-cases i j x y z xs e h =
      let g = get_elem?-set_elem i j x y xs e in
      elim (Bool-cases (i == j)) [
        | inl here ↦ inl (here, ground arith)
        | inr there ↦ inr (there, ground arith)
      ]

  pub get_elem?-lt-length : (i : ℕ) (x : A) (xs : List A) → get_elem? xs i ≡ some x → i < length xs
  get_elem?-lt-length i x [] e = ground arith
  get_elem?-lt-length zero x (y ∷ xs) e = omega arith
  get_elem?-lt-length (suc i) x (y ∷ xs) e = omega (arith, get_elem?-lt-length i x xs e)

pub AreTurned-get_elem? :
    (k n i j : ℕ) (p : Plate) (ps : List Plate)
    → AreTurned k n j ps
    → get_elem? ps i ≡ some p
    → (p.id ≡ j + i) × (p.position ≡ place k n (j + i))
AreTurned-get_elem? k n i j p [] t e = ground arith
AreTurned-get_elem? k n zero j p (q ∷ ps) t e = ground arith
AreTurned-get_elem? k n (suc i) j p (q ∷ ps) (own, at, rest) e =
    let (same, there) = AreTurned-get_elem? k n i (suc j) p ps rest e in
    (omega (arith, same), there ∙ ap (place k n) (omega arith))

pub set_elem-AreTurned :
    (k n i j : ℕ) (p q : Plate) (ps : List Plate)
    → AreTurned k n j ps
    → get_elem? ps i ≡ some p
    → q.id ≡ p.id
    → q.position ≡ p.position
    → AreTurned k n j (set_elem i q ps)
unfolding set_elem
set_elem-AreTurned k n i j p q [] t e a b = tt
set_elem-AreTurned k n zero j p q (x ∷ ps) t e a b = ground arith
set_elem-AreTurned k n (suc i) j p q (x ∷ ps) (same, there, rest) e a b =
    (same, there, set_elem-AreTurned k n i (suc j) p q ps rest e a b)

-- ===== src/Controller/Leaving/Others.antt =====
-- The entry of a pair, among the other entries (controller.cpp).
use opcua_cps_kitchen.Base.{
  ℕ, ◌≡◌, ◌⊎◌, refl, ◌∙◌, inl, inr, Bool, true, false, not, ◌&&◌, ◌||◌, some, List, [], ◌∷◌, ltb,
  ◌==◌, Bool-cases, arith,
}
use opcua_cps_kitchen.Controller.State.{PendingSwap}
use opcua_cps_kitchen.Controller.Registry.{is_robot_position_swapping}
use opcua_cps_kitchen.Controller.Swaps.{has_key, find_swap, erase_swap, put_swap, swap_at, new_swap}
use opcua_cps_kitchen.Controller.Pending.{AreApart}
use opcua_cps_kitchen.Controller.Pending.Entries.{find_swap-keys, find_swap-swapping, erased-free}

-- The report of a robot that is in another swap.
unfoldable pub is_other : ℕ → ℕ → ℕ → ℕ → Bool
is_other l g old new = not ((old == l && new == g) || (old == g && new == l))

pub find_swap-erase_other :
    (l g i j : ℕ) (ss : List PendingSwap)
    → (i == l && j == g) ≡ false
    → find_swap l g (erase_swap i j ss) ≡ find_swap l g ss
unfolding find_swap erase_swap has_key
find_swap-erase_other l g i j [] h = refl
find_swap-erase_other l g i j (s ∷ ss) h =
    let rest = find_swap-erase_other l g i j ss h in ground arith

pub find_swap-put_other :
    (l g : ℕ) (t : PendingSwap) (ss : List PendingSwap)
    → has_key l g t ≡ false
    → find_swap l g (put_swap t ss) ≡ find_swap l g ss
unfolding find_swap put_swap
find_swap-put_other l g t ss h =
    rw h (find_swap-erase_other l g t.lower t.greater ss (unfold has_key in h))

-- A swap of two positions that are free is another one.
pub new_swap-other :
    (l g from to : ℕ) (acked : Bool) (s : PendingSwap) (ss : List PendingSwap)
    → find_swap l g ss ≡ some s
    → is_robot_position_swapping from ss ≡ false
    → is_robot_position_swapping to ss ≡ false
    → has_key l g (new_swap from to acked) ≡ false
unfolding has_key new_swap
new_swap-other l g from to acked s ss e a b =
    let (x, y) = find_swap-swapping l g s ss e in
    let not_from : (from == l) ≡ false = elim (Bool-cases (from == l)) [
      | inl i ↦
          let same : from ≡ l = ground arith in
          let taken : is_robot_position_swapping from ss ≡ true = rw same x in absurd cc
      | inr i ↦ i
    ] in
    let not_to : (to == l) ≡ false = elim (Bool-cases (to == l)) [
      | inl i ↦
          let same : to ≡ l = ground arith in
          let taken : is_robot_position_swapping to ss ≡ true = rw same x in absurd cc
      | inr i ↦ i
    ] in
    ground arith

pub swap_at-other :
    (l g old new : ℕ) (t : PendingSwap) (ss : List PendingSwap)
    → is_other l g old new ≡ true
    → swap_at old new ss ≡ some t
    → has_key l g t ≡ false
unfolding is_other swap_at has_key
swap_at-other l g old new t ss h e = elim (Bool-cases (ltb old new)) [
  | inl x ↦
      let found : find_swap old new ss ≡ some t = ground arith in
      let (a, b) = find_swap-keys old new t ss found in ground arith
  | inr x ↦
      let found : find_swap new old ss ≡ some t = ground arith in
      let (a, b) = find_swap-keys new old t ss found in ground arith
]

-- The positions of another entry are not those of the pair.
pub other-apart :
    (l g o : ℕ) (s t : PendingSwap) (ss : List PendingSwap)
    → AreApart ss
    → find_swap l g ss ≡ some s
    → find_swap t.lower t.greater ss ≡ some t
    → has_key l g t ≡ false
    → (l ≡ o) ⊎ (g ≡ o)
    → ((t.lower == o) ≡ false) × ((t.greater == o) ≡ false)
other-apart l g o s t ss h e f other place =
    let (a, b) = erased-free t.lower t.greater t ss h f in
    let rest = erase_swap t.lower t.greater ss in
    let (x, y) =
      find_swap-swapping l g s rest
        (find_swap-erase_other l g t.lower t.greater ss (unfold has_key in other) ∙ e) in
    let taken : is_robot_position_swapping o rest ≡ true = elim place [
      | inl same ↦ rw (← same) x
      | inr same ↦ rw (← same) y
    ] in
    (apart t.lower rest taken a, apart t.greater rest taken b)
  where
    apart :
        (k : ℕ) (rest : List PendingSwap)
        → is_robot_position_swapping o rest ≡ true
        → is_robot_position_swapping k rest ≡ false
        → (k == o) ≡ false
    apart k rest taken free = elim (Bool-cases (k == o)) [
      | inl i ↦
          let same : k ≡ o = ground arith in
          let twice : is_robot_position_swapping o rest ≡ false = rw (← same) free in absurd cc
      | inr i ↦ i
    ]

-- ===== src/Robot/Distance.antt =====
-- The way of a robot that changes its place at the conveyor (handle_switch_position of robot.cpp).
use native.Mathlib.Nat.{mod-eq_of_lt}
use opcua_cps_kitchen.Base.{
  ℕ, ◌+◌, ◌-◌, ◌*◌, ◌%◌, ◌≤◌, ◌<◌, ◌≡◌, ◌↔◌, ◌∙◌, inl, inr, ap, ap₂, min, u32_size, if◌then◌else◌,
  leb, leb→le, Bool-cases, arith,
}

-- uint32_t cw; both steps wrap.
pub clockwise : ℕ → ℕ → ℕ → ℕ
clockwise size from to = (to + u32_size - from + size) % u32_size % size

unfoldable pub distance : ℕ → ℕ → ℕ → ℕ
unfolding clockwise
distance size from to = min (clockwise size from to) (clockwise size to from)

-- How far two places are apart along the belt on the side that does not pass place 0.
abbrev pub gap : ℕ → ℕ → ℕ
gap a b = if leb a b then b - a else a - b

mod_wrap : (n x : ℕ) → x < n → (x + n) % n ≡ x
mod_wrap n x h = grind arith

clockwise_up : (n a b : ℕ) → a ≤ b → b < n → n + n ≤ u32_size → clockwise n a b ≡ b - a
unfolding clockwise
clockwise_up n a b h k s = ap (λ x. x % n) (omega arith) ∙ mod_wrap n (b - a) (omega arith)

clockwise_down : (n a b : ℕ) → b < a → a < n → n + n ≤ u32_size → clockwise n a b ≡ n - (a - b)
unfolding clockwise
clockwise_down n a b h k s =
    ap (λ x. x % n) (omega arith) ∙ mod-eq_of_lt {n = n - (a - b)} {m = n} (omega arith)

distance-gap :
    (n a b : ℕ) → a < n → b < n → n + n ≤ u32_size → distance n a b ≡ min (gap a b) (n - gap a b)
unfolding distance
distance-gap n a b h k s = elim (Bool-cases (leb a b)) [
  | inl up ↦ elim (Bool-cases (leb b a)) [
    | inl same ↦
        ap₂ min (clockwise_up n a b (leb→le a b up) k s) (clockwise_up n b a (leb→le b a same) h s)
        ∙ ground arith
    | inr less ↦
        ap₂ min (clockwise_up n a b (leb→le a b up) k s) (clockwise_down n b a (ground arith) k s)
        ∙ ground arith
  ]
  | inr down ↦
      ap₂ min (clockwise_down n a b (ground arith) h s) (clockwise_up n b a (ground arith) h s)
      ∙ ground arith
]

-- On a belt of at most 2^31 places the distance is a metric: it does not depend on the direction,
-- it is 0 only between a place and itself, no way round by a third place is shorter, and it never
-- exceeds half the belt.
pub distance_metric :
    (n a b c : ℕ)
    → a < n
    → b < n
    → c < n
    → n + n ≤ u32_size
    → (distance n a b ≡ distance n b a)
      × ((distance n a b ≡ 0) ↔ (a ≡ b))
      × (distance n a c ≤ distance n a b + distance n b c)
      × (2 * distance n a b ≤ n)
distance_metric n a b c ha hb hc s =
    rw
      (
        distance-gap n a b ha hb s,
        distance-gap n b a hb ha s,
        distance-gap n a c ha hc s,
        distance-gap n b c hb hc s,
      )
      (ground arith, (λ e. ground arith, λ e. ground arith), ground arith, ground arith)

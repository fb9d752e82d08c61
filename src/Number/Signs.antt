-- ===== src/Number/Signs.antt =====
-- Signs of numbers, and the larger of two numbers.
use copytrade_dashboard.Base.{◌<◌, ◌≤◌, ◌≡◌, true, false, arith, Bool-cases, inl, inr}
use copytrade_dashboard.Number.Defs.{
  Number, cross, Less, AtMost, Same, of_nat, add, subtract, negate, multiply, divide, max_of,
  is_less,
}
use copytrade_dashboard.Number.Order.{
  Less-AtMost_trans, mul_mono, mul_mono_lt, product_of_denominators,
}

-- Signs of a number, by its parts.
abbrev pub IsPositive : Number → Type 0
IsPositive x = x.minus < x.plus

abbrev pub IsNotNegative : Number → Type 0
IsNotNegative x = x.minus ≤ x.plus

abbrev pub IsZero : Number → Type 0
IsZero x = x.plus ≡ x.minus

pub subtract-IsPositive : (x y : Number) → Less y x → IsPositive (subtract x y)
unfolding subtract add negate cross
subtract-IsPositive x y h = omega arith

pub subtract-IsZero : (x y : Number) → Same x y → IsZero (subtract x y)
unfolding subtract add negate cross
subtract-IsZero x y h = omega arith

module _ (x y : Number) (pos : IsPositive y) where
  pub divide-IsPositive : IsPositive x → IsPositive (divide x y)
  unfolding divide
  divide-IsPositive h = ground (arith, mul_mono_lt x.minus x.plus y.den_pred h)

  pub divide-IsZero : IsZero x → IsZero (divide x y)
  unfolding divide
  divide-IsZero h = ground arith

pub percent-IsPositive : (x : Number) → IsPositive x → IsPositive (multiply x (of_nat 100))
unfolding multiply
percent-IsPositive x h = omega arith

pub percent-IsZero : (x : Number) → IsZero x → IsZero (multiply x (of_nat 100))
unfolding multiply
percent-IsZero x h = omega arith

pub add_loss : (e p : Number) → p.plus < p.minus → Less (add e p) e
unfolding add cross
add_loss e p h =
    rw (product_of_denominators e p)
      (omega (arith, mul_mono_lt _ _ e.den_pred (mul_mono_lt p.plus p.minus e.den_pred h)))

pub add_gain : (e p : Number) → p.minus ≤ p.plus → AtMost e (add e p)
unfolding add cross
add_gain e p h =
    rw (product_of_denominators e p)
      (omega (arith, mul_mono _ _ e.den_pred (mul_mono p.minus p.plus e.den_pred h)))

pub is_less-false : (x y : Number) → is_less x y ≡ false → AtMost y x
is_less-false x y h = ground arith

pub is_less-true : (x y : Number) → is_less x y ≡ true → Less x y
is_less-true x y h = ground arith

pub max_of-left : (x y : Number) → AtMost x (max_of x y)
max_of-left x y = elim (Bool-cases (is_less x y)) [
  | inl e ↦ rw e (omega (arith, is_less-true x y e))
  | inr e ↦ rw e (omega arith)
]

pub max_of-right : (x y : Number) → AtMost y (max_of x y)
max_of-right x y = elim (Bool-cases (is_less x y)) [
  | inl e ↦ rw e (omega arith)
  | inr e ↦ rw e (is_less-false x y e)
]

-- A bound of both is a bound of the larger.
pub max_of-least : (x y z : Number) → AtMost x z → AtMost y z → AtMost (max_of x y) z
max_of-least x y z h k = elim (Bool-cases (is_less x y)) [ inl e ↦ rw e k | inr e ↦ rw e h ]

pub max_of-IsNotNegative :
    (x y : Number) → IsNotNegative x → IsNotNegative y → IsNotNegative (max_of x y)
max_of-IsNotNegative x y h k = ground arith

pub max_of-IsZero : (x y : Number) → IsZero x → IsZero y → IsZero (max_of x y)
max_of-IsZero x y h k = elim (Bool-cases (is_less x y)) [ inl e ↦ rw e k | inr e ↦ rw e h ]

pub IsPositive-above : (x y : Number) → IsPositive x → AtMost x y → IsPositive y
unfolding cross
IsPositive-above x y h k =
    let above_zero : Less (of_nat 0) y = Less-AtMost_trans (of_nat 0) x y (omega arith) k in
    omega (arith, above_zero)

pub above_zero : (x : Number) → IsPositive x → is_less (of_nat 0) x ≡ true
unfolding cross
above_zero x h = ground arith

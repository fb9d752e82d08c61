-- ===== src/Number/Order.antt =====
-- The order of numbers is a total preorder, and min and max are its bounds.
use copytrade_dashboard.Base.{ℕ, suc, ◌-◌, ◌*◌, ◌≡◌, ◌≤◌, ◌<◌, arith}
use copytrade_dashboard.Number.Defs.{Number, denominator, cross, Less, AtMost, add}

pub mul_cancel_le : (a b k : ℕ) → a * suc k ≤ b * suc k → a ≤ b
mul_cancel_le a b k h = grind arith

pub mul_cancel_lt : (a b k : ℕ) → a * suc k < b * suc k → a < b
mul_cancel_lt a b k h = grind arith

pub mul_mono : (a b k : ℕ) → a ≤ b → a * suc k ≤ b * suc k
mul_mono a b k h = grind arith

pub mul_mono_lt : (a b k : ℕ) → a < b → a * suc k < b * suc k
mul_mono_lt a b k h = grind arith

pub AtMost-trans : (x y z : Number) → AtMost x y → AtMost y z → AtMost x z
unfolding cross
AtMost-trans x y z h k =
    mul_cancel_le _ _ y.den_pred
      (omega (arith, mul_mono _ _ z.den_pred h, mul_mono _ _ x.den_pred k))

pub Less-AtMost_trans : (x y z : Number) → Less x y → AtMost y z → Less x z
unfolding cross
Less-AtMost_trans x y z h k =
    mul_cancel_lt _ _ y.den_pred
      (omega (arith, mul_mono_lt _ _ z.den_pred h, mul_mono _ _ x.den_pred k))

pub AtMost-Less_trans : (x y z : Number) → AtMost x y → Less y z → Less x z
unfolding cross
AtMost-Less_trans x y z h k =
    mul_cancel_lt _ _ y.den_pred
      (omega (arith, mul_mono _ _ z.den_pred h, mul_mono_lt _ _ x.den_pred k))

pub product_of_denominators :
    (x y : Number) → suc (denominator x * denominator y - 1) ≡ denominator x * denominator y
product_of_denominators x y = omega arith

-- Adding the same number keeps the order.
pub add-AtMost : (z x y : Number) → AtMost x y → AtMost (add z x) (add z y)
unfolding cross add
add-AtMost z x y h =
    rw (product_of_denominators z x, product_of_denominators z y)
      (omega (arith, mul_mono _ _ z.den_pred (mul_mono _ _ z.den_pred h)))

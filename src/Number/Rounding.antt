-- ===== src/Number/Rounding.antt =====
-- What `Math.floor` and `toFixed` do to multiples of a decimal step.
use native.Mathlib.Nat.{mul_comm, mul-sub}
use copytrade_dashboard.Base.{
  ℕ, suc, ◌+◌, ◌-◌, ◌*◌, ◌/◌, ◌≤◌, ◌<◌, ◌≡◌, sym, ap, arith, leb, ltb, true,
}
use copytrade_dashboard.Number.Order.{mul_cancel_le, mul_cancel_lt, mul_mono}
use copytrade_dashboard.Number.Defs.{
  Number, denominator, cross, Less, AtMost, Same, decimal, of_nat, nearest, multiply, divide, floor,
  to_fixed,
}

-- A quotient by a positive number lies below the exact ratio by less than one.
-- A quotient.
pub div_bounds : (a d : ℕ) → (a / suc d * suc d ≤ a) × (a < (a / suc d + 1) * suc d)
div_bounds a d = (omega arith, omega arith)

pub below_by_factor : (a b k : ℕ) → a * suc k < (b + 1) * suc k → a ≤ b
below_by_factor a b k h = grind arith

div_unique : (a d m : ℕ) → m * suc d ≤ a → a < (m + 1) * suc d → a / suc d ≡ m
div_unique a d m lo hi = omega (
  arith,
  below_by_factor (a / suc d) m d (omega (arith, div_bounds a d)),
  below_by_factor m (a / suc d) d (omega (arith, div_bounds a d)),
)

-- A multiple of the divisor is not moved by rounding to the nearest.
pub nearest-exact : (m d : ℕ) → nearest (m * suc d) (suc d) ≡ m
nearest-exact m d =
    let twice : 2 * suc d ≡ suc (d + suc d) = omega arith in
    rw twice (div_unique (2 * (m * suc d) + suc d) (d + suc d) m (omega arith) (omega arith))

sub-mul : (a b d : ℕ) → a * suc d - b * suc d ≡ (a - b) * suc d
sub-mul a b d =
    rw (mul_comm a (suc d), mul_comm b (suc d), mul_comm (a - b) (suc d))
      (sym (mul-sub (suc d) a b))

pub leb-true : (a b : ℕ) → a ≤ b → leb a b ≡ true
leb-true a b h = ground arith

pub ltb-true : (a b : ℕ) → a < b → ltb a b ≡ true
ltb-true a b h = ground arith

-- A positive product of a denominator.
suc_of_product : (d s : ℕ) → 0 < s → suc (suc d * s - 1) ≡ suc d * s
suc_of_product d s h = grind arith

-- `x` is a number of ten-thousandths: a whole multiple of 0.0001 that is not negative.
abbrev pub IsTenThousandths : Number → ℕ → Type 0
IsTenThousandths x n = Same x (decimal n 9999)

-- Rounding to four places keeps such a number.
pub to_fixed-exact : (x : Number) (n : ℕ) → IsTenThousandths x n → to_fixed 9999 x ≡ decimal n 9999
unfolding to_fixed cross
to_fixed-exact x n h =
    let whole : (x.plus - x.minus) * 10000 ≡ n * denominator x = omega arith in
    let up : x.minus ≤ x.plus = grind arith in
    rw (leb-true _ _ up, whole) (rw (nearest-exact n x.den_pred))

-- A whole number of steps.
pub multiply-steps :
    (k : ℕ) (step : Number) (n : ℕ)
    → IsTenThousandths step n
    → IsTenThousandths (multiply (of_nat k) step) (k * n)
unfolding multiply cross
multiply-steps k step n h =
    let same : suc (1 * denominator step - 1) ≡ denominator step = omega arith in
    rw same (omega (arith, ap (λ (t : ℕ). k * t) h))

-- The number of whole steps in `w`.
abbrev pub steps_in : Number → Number → ℕ
steps_in w step =
    ((w.plus - w.minus) * denominator step) / (denominator w * (step.plus - step.minus))

pub floor-divide :
    (w step : Number)
    → w.minus ≤ w.plus
    → step.minus < step.plus
    → floor (divide w step) ≡ of_nat (steps_in w step)
unfolding floor divide
floor-divide w step up pos = rw (
  ltb-true _ _ pos,
  leb-true _ _ (mul_mono w.minus w.plus step.den_pred up),
  suc_of_product w.den_pred (step.plus - step.minus) (omega arith),
  sub-mul,
)

module _ (q w s n dw ds : ℕ) (step : s * 10000 ≡ n * suc ds) where
  below_steps : q * (suc dw * s) ≤ w * suc ds → q * n * suc dw ≤ w * 10000
  below_steps h = mul_cancel_le _ _ ds (omega (arith, ap (λ (t : ℕ). q * suc dw * t) step, h))

  above_steps : w * suc ds < q * (suc dw * s) → w * 10000 < q * n * suc dw
  above_steps h = mul_cancel_lt _ _ ds (omega (arith, ap (λ (t : ℕ). q * suc dw * t) step, h))

-- `floor(w / step)` steps come to at most `w`, and one more step is above it.
pub steps_in-bounds :
    (w step : Number) (n : ℕ)
    → w.minus ≤ w.plus
    → step.minus < step.plus
    → IsTenThousandths step n
    → AtMost (decimal (steps_in w step * n) 9999) w
      × Less w (decimal ((steps_in w step + 1) * n) 9999)
unfolding cross
steps_in-bounds w step n up pos h =
    let width = step.plus - step.minus in
    let whole : width * 10000 ≡ n * denominator step = omega arith in
    let e = suc_of_product w.den_pred width (omega arith) in
    let bounds =
      rw e at (div_bounds ((w.plus - w.minus) * denominator step) (denominator w * width - 1)) in
    (
      omega
          (arith, below_steps (steps_in w step) _ width n w.den_pred step.den_pred whole bounds.0),
      omega (
        arith,
        above_steps (steps_in w step + 1) _ width n w.den_pred step.den_pred whole bounds.1,
      ),
    )

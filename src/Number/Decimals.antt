-- ===== src/Number/Decimals.antt =====
-- What `toFixed(2)` does to bounds that are whole.
use copytrade_dashboard.Base.{ℕ, suc, ◌+◌, ◌-◌, ◌*◌, ◌/◌, ◌≤◌, ap, ◌≡◌, refl, arith}
use copytrade_dashboard.Number.Defs.{
  Number, denominator, cross, AtMost, of_nat, to_fixed, nearest, hundredths,
}
use copytrade_dashboard.Number.Rounding.{nearest-exact, below_by_factor, leb-true, div_bounds}
use copytrade_dashboard.Number.Signs.{IsZero, IsNotNegative}

pub to_fixed-up :
    (x : Number)
    → IsNotNegative x
    → to_fixed 99 x ≡ hundredths (nearest ((x.plus - x.minus) * 100) (denominator x))
unfolding to_fixed
to_fixed-up x h = rw (leb-true x.minus x.plus h) refl

pub to_fixed-zero : (x : Number) → IsZero x → to_fixed 99 x ≡ hundredths 0
to_fixed-zero x h =
    let nothing : (x.plus - x.minus) * 100 ≡ 0 * suc x.den_pred = omega arith in
    rw (to_fixed-up x (omega arith), nothing) (ap hundredths (nearest-exact 0 x.den_pred))

-- A quotient that is at most a whole number is rounded to at most that number.
pub nearest-bound : (m d k : ℕ) → m ≤ k * suc d → nearest m (suc d) ≤ k
nearest-bound m d k h =
    let twice : 2 * suc d ≡ suc (d + suc d) = omega arith in
    rw twice (
      below_by_factor ((2 * m + suc d) / suc (d + suc d)) k (d + suc d)
        (omega (arith, div_bounds (2 * m + suc d) (d + suc d))))

pub to_fixed-bound :
    (x : Number) (k : ℕ) → IsNotNegative x → AtMost x (of_nat k) → AtMost (to_fixed 99 x) (of_nat k)
unfolding cross
to_fixed-bound x k h le = rw (to_fixed-up x h) (
    omega
      (arith, nearest-bound ((x.plus - x.minus) * 100) x.den_pred (k * 100) (omega (arith, le))))

pub to_fixed-not_negative : (x : Number) → IsNotNegative x → AtMost (of_nat 0) (to_fixed 99 x)
unfolding cross
to_fixed-not_negative x h = rw (to_fixed-up x h) (omega arith)

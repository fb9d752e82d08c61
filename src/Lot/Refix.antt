-- ===== src/Lot/Refix.antt =====
-- Fixed lots that fit the step of the broker and all bounds.
use copytrade_dashboard.Base.{ℕ, suc, ◌+◌, ◌-◌, ◌*◌, ◌≤◌, ◌<◌, ◌≡◌, false, arith}
use copytrade_dashboard.Number.Defs.{
  Number, cross, AtMost, decimal, add, negate, subtract, absolute, is_less, is_at_most, min_of,
  max_of, denominator,
}
use copytrade_dashboard.Number.Order.{AtMost-trans, AtMost-Less_trans}
use copytrade_dashboard.Number.Rounding.{IsTenThousandths, to_fixed-exact}
use copytrade_dashboard.Types.{LotMode}
use copytrade_dashboard.Lot.{
  LotInputs, sized, zero_lot, nano, round_to_step, volume_of_mode, ceiling_of, bounded_of,
  accept_rounded, fit_to_broker, bound_volume, finish, calculate_lot,
}
use copytrade_dashboard.Lot.Bounds.{round_to_step_lem, within_tolerance}

same_refl : (x : Number) → AtMost x x
same_refl x = omega arith

add-nano_above : (v : Number) (m : ℕ) → IsTenThousandths v m → AtMost (decimal m 9999) (add v nano)
unfolding cross add
add-nano_above v m h =
    let e : suc (denominator v * 1000000000 - 1) ≡ denominator v * 1000000000 = omega arith in
    rw e (omega (arith, h))

steps_same : (a b s : ℕ) → 0 < s → a * s ≤ b * s → b * s < (a + 1) * s → a ≡ b
steps_same a b s pos le lt = grind arith

rounds_to_itself :
    (v step : Number) (k s : ℕ)
    → 0 < s
    → IsTenThousandths step s
    → IsTenThousandths v (k * s)
    → v.minus ≤ v.plus
    → round_to_step v step ≡ decimal (k * s) 9999
unfolding cross
rounds_to_itself v step k s pos hs hv up =
    let r = round_to_step_lem v step s pos hs up in
    let under = within_tolerance (r.steps * s) (k * s) v v (rw r.exact at r.low) (same_refl v) hv in
    let over : k * s < (r.steps + 1) * s = omega (
      arith,
      AtMost-Less_trans (decimal (k * s) 9999) (add v nano) _ (add-nano_above v (k * s) hv) r.high,
    ) in
    let same : r.steps ≡ k = steps_same r.steps k s pos under over in rw r.exact (rw same)

difference_small :
    (m : ℕ) (v : Number)
    → IsTenThousandths v m
    → is_less nano (absolute (subtract (decimal m 9999) v)) ≡ false
unfolding absolute subtract add negate cross
difference_small m v h = grind (arith, h)

fits_bounds : (x lo hi : Number) → AtMost lo x → AtMost x hi → min_of (max_of x lo) hi ≡ x
fits_bounds x lo hi h k = ground arith

ten_thousandths_positive :
    (x : Number) (n : ℕ) → 0 < n → IsTenThousandths x n → is_at_most x zero_lot ≡ false
unfolding cross
ten_thousandths_positive x n pos h = grind arith

ten_thousandths_up : (x : Number) (n : ℕ) → IsTenThousandths x n → x.minus ≤ x.plus
unfolding cross
ten_thousandths_up x n h = grind arith

at_least : (x y : Number) → AtMost x y → is_less y x ≡ false
at_least x y h = ground arith

at_least_exact :
    (x y : Number) (n : ℕ) → IsTenThousandths y n → AtMost x y → is_less (decimal n 9999) x ≡ false
at_least_exact x y n h le = at_least _ _ (AtMost-trans x y (decimal n 9999) le (omega (arith, h)))

steps_positive : (k s : ℕ) → 0 < k → 0 < s → 0 < k * s
steps_positive k s h p = grind arith

-- What an input must satisfy for its fixed lot, which is k steps of s ten-thousandths, to fit.
pub record Fits (i : LotInputs) (k s : ℕ) : Type 0 where
  pub fixed_mode : i.mode ≡ LotMode.fixed
  pub step_positive : 0 < s
  pub step_exact : IsTenThousandths i.broker_lot_step s
  pub lot_positive : 0 < k
  pub lot_exact : IsTenThousandths i.fixed_lot (k * s)
  pub above_min : AtMost i.min_lot i.fixed_lot
  pub under_ceiling : AtMost i.fixed_lot (ceiling_of i)
  pub above_broker_min : AtMost i.broker_min_lot i.fixed_lot

-- In the fixed mode a positive lot that is a whole number of the broker's steps, not under the two
-- minima and not over the two maxima, is returned unchanged and is not reported as clamped.
pub calculate_lot-Fits :
    (i : LotInputs) (k s : ℕ)
    → Fits i k s
    → calculate_lot i ≡ sized (decimal (k * s) 9999) (decimal (k * s) 9999) false
unfolding calculate_lot volume_of_mode finish bound_volume fit_to_broker accept_rounded
calculate_lot-Fits i k s h =
    let x = i.fixed_lot in
    let up = ten_thousandths_up x (k * s) h.lot_exact in
    let b : bounded_of i x ≡ x =
      fits_bounds x i.min_lot (ceiling_of i) h.above_min h.under_ceiling in
    let v = rounds_to_itself x i.broker_lot_step k s h.step_positive h.step_exact h.lot_exact up in
    rw
      (
        h.fixed_mode,
        ten_thousandths_positive x (k * s) (steps_positive k s h.lot_positive h.step_positive)
            h.lot_exact,
      )
      (rw (b, at_least _ _ h.above_broker_min)
        (rw (
          v,
          at_least_exact _ _ _ h.lot_exact h.above_broker_min,
          to_fixed-exact x (k * s) h.lot_exact,
          difference_small (k * s) x h.lot_exact,
        )))

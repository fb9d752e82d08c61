-- ===== src/Lot/Bounds.antt =====
-- The sizes that the calculator returns and the bounds of the member and of the broker.
use copytrade_dashboard.Base.{
  ℕ, suc, ◌+◌, ◌*◌, ◌≤◌, ◌<◌, ◌≡◌, inl, inr, Bool, true, false, arith, Bool-cases, refl, ◌-◌,
}
use mathlib.Core.Path.{subst}
use copytrade_dashboard.Number.Defs.{
  Number, cross, Less, AtMost, decimal, add, is_at_most, denominator, min_of, is_less,
}
use copytrade_dashboard.Number.Order.{AtMost-trans}
use copytrade_dashboard.Number.Rounding.{
  below_by_factor, IsTenThousandths, to_fixed-exact, multiply-steps, steps_in, floor-divide,
  steps_in-bounds,
}
use copytrade_dashboard.Lot.{
  LotInputs, LotResult, sized, refused, RawVolume, raw, no_volume, zero_lot, nano, round_to_step,
  volume_of_mode, ceiling_of, bounded_of, below_minimum, fit_to_broker, bound_volume, finish,
  calculate_lot,
}

-- What rounding a volume to a step of n ten-thousandths yields: a whole number of steps, at most
-- the volume (up to the tolerance of 1e-9), and less than one step below it.
pub record IsRounded (volume : Number) (n : ℕ) (result : Number) : Type 0 where
  pub steps : ℕ
  pub exact : result ≡ decimal (steps * n) 9999
  pub low : AtMost result (add volume nano)
  pub high : Less (add volume nano) (decimal ((steps + 1) * n) 9999)

add-nano_up : (v : Number) → v.minus ≤ v.plus → (add v nano).minus ≤ (add v nano).plus
unfolding add
add-nano_up v h = grind arith

positive_step : (step : Number) (n : ℕ) → 0 < n → IsTenThousandths step n → step.minus < step.plus
unfolding cross
positive_step step n pos h = grind arith

above_zero : (x : Number) → x.minus < x.plus → is_at_most x zero_lot ≡ false
unfolding cross
above_zero x h = ground arith

pub round_to_step_lem :
    (v step : Number) (n : ℕ)
    → 0 < n
    → IsTenThousandths step n
    → v.minus ≤ v.plus
    → IsRounded v n (round_to_step v step)
unfolding round_to_step
round_to_step_lem v step n pos h up =
    let w = add v nano in
    let w_up = add-nano_up v up in
    let wide = positive_step step n pos h in
    let bounds = steps_in-bounds w step n w_up wide h in
    let exact : round_to_step v step ≡ decimal (steps_in w step * n) 9999 =
      rw (above_zero step wide, floor-divide w step w_up wide)
        (to_fixed-exact _ _ (multiply-steps (steps_in w step) step n h)) in
    record { steps = steps_in w step; exact = exact; low = rw exact bounds.0; high = bounds.1 }

-- A multiple of 0.0001 that exceeds `v` by no more than the tolerance exceeds no such bound of `v`.
pub within_tolerance :
    (a n : ℕ) (v x : Number)
    → AtMost (decimal a 9999) (add v nano)
    → AtMost v x
    → IsTenThousandths x n
    → a ≤ n
unfolding add cross
within_tolerance a n v x low bound whole =
    let bound' : AtMost v (decimal n 9999) =
      AtMost-trans v x (decimal n 9999) bound (omega (arith, whole)) in
    let e : suc (denominator v * 1000000000 - 1) ≡ denominator v * 1000000000 = omega arith in
    let low' = rw e at low in below_by_factor a n v.den_pred (omega (arith, low', bound'))

min_of_bounds : (x y : Number) → AtMost (min_of x y) x × AtMost (min_of x y) y
min_of_bounds x y = ground arith

-- The limits are given in multiples of 0.0001, and the broker's minimum is not negative.
pub record HasDecimalLimits (i : LotInputs) : Type 0 where
  pub step : ℕ
  pub step_positive : 0 < step
  pub step_exact : IsTenThousandths i.broker_lot_step step
  pub max_lot : ℕ
  pub max_lot_exact : IsTenThousandths i.max_lot max_lot
  pub broker_max_lot : ℕ
  pub broker_max_lot_exact : IsTenThousandths i.broker_max_lot broker_max_lot
  pub broker_min_lot_nonneg : AtMost zero_lot i.broker_min_lot

-- The ceiling is one of the two maxima.
ceiling_exact : (i : LotInputs) → HasDecimalLimits i → (n : ℕ) × IsTenThousandths (ceiling_of i) n
ceiling_exact i h = elim (Bool-cases (is_less i.broker_max_lot i.max_lot)) [
  | inl e ↦ (h.broker_max_lot, rw e h.broker_max_lot_exact)
  | inr e ↦ (h.max_lot, rw e h.max_lot_exact)
]

pub nonneg_up : (x : Number) → AtMost zero_lot x → x.minus ≤ x.plus
unfolding cross
nonneg_up x h = omega arith

decimal_le : (a n : ℕ) (x : Number) → a ≤ n → IsTenThousandths x n → AtMost (decimal a 9999) x
unfolding cross
decimal_le a n x le whole = grind arith

-- Rounding a volume to a step keeps it under a bound that is a multiple of 0.0001.
rounded_under :
    (v x step : Number) (s n : ℕ)
    → 0 < s
    → IsTenThousandths step s
    → IsTenThousandths x n
    → AtMost zero_lot v
    → AtMost v x
    → AtMost (round_to_step v step) x
rounded_under v x step s n pos hs hx nonneg bound =
    let r = round_to_step_lem v step s pos hs (nonneg_up v nonneg) in
    let a = r.steps * s in
    rw r.exact (decimal_le a n x (within_tolerance a n v x (rw r.exact at r.low) bound hx) hx)

-- A bounded volume that is not under the broker's minimum is rounded to a size under the ceiling.
rounded_under_ceiling :
    (i : LotInputs) (r : Number)
    → HasDecimalLimits i
    → AtMost i.broker_min_lot (bounded_of i r)
    → AtMost (round_to_step (bounded_of i r) i.broker_lot_step) (ceiling_of i)
rounded_under_ceiling i r h big =
    let (n, whole) = ceiling_exact i h in
    rounded_under (bounded_of i r) (ceiling_of i) i.broker_lot_step h.step n h.step_positive
      h.step_exact whole
      (AtMost-trans zero_lot i.broker_min_lot (bounded_of i r) h.broker_min_lot_nonneg big)
      (min_of_bounds _ (ceiling_of i)).1

not_less : (x y : Number) → is_less x y ≡ false → AtMost y x
not_less x y h = ground arith

-- How a size relates to the limits: it is the broker's minimum, which the member allowed as a
-- replacement, or it lies between that minimum and the ceiling and is the bounded volume `b`,
-- rounded to the broker's step of `step` ten-thousandths.
pub data IsBounded (i : LotInputs) (step : ℕ) (b v : Number) : Type 0 where
  at_minimum : i.allow_min_lot_rounding ≡ true → v ≡ i.broker_min_lot → IsBounded i step b v
  in_range :
      AtMost i.broker_min_lot v
      → AtMost v (ceiling_of i)
      → IsRounded b step v
      → IsBounded i step b v

abbrev Sound : LotInputs → ℕ → Number → LotResult → Type 0
Sound i step b (sized v _ _) = IsBounded i step b v
Sound i step b (refused _) = Unit

below_minimum-Sound :
    (i : LotInputs) (r : Number) (step : ℕ) (b : Number) → Sound i step b (below_minimum i r)
unfolding below_minimum
below_minimum-Sound i r step b = elim (Bool-cases i.allow_min_lot_rounding) [
  | inl e ↦ simp e (at_minimum e refl)
  | inr e ↦ simp e tt
]

module _ (i : LotInputs) (r : Number) (h : HasDecimalLimits i) where
  fit_to_broker-Sound : Sound i h.step (bounded_of i r) (fit_to_broker i r (bounded_of i r))
  unfolding fit_to_broker
  fit_to_broker-Sound =
      let b = bounded_of i r in
      let v = round_to_step b i.broker_lot_step in
      elim (Bool-cases (is_less b i.broker_min_lot)) [
        | inl e ↦ rw e (below_minimum-Sound i r h.step b)
        | inr e ↦ rw e (elim (Bool-cases (is_less v i.broker_min_lot)) [
          | inl e' ↦ rw e' (below_minimum-Sound i r h.step b)
          | inr e' ↦ rw e' (
              in_range (not_less _ _ e') (rounded_under_ceiling i r h (not_less _ _ e)) (
                round_to_step_lem b i.broker_lot_step h.step h.step_positive h.step_exact (
                  nonneg_up b (
                    AtMost-trans zero_lot i.broker_min_lot b h.broker_min_lot_nonneg
                      (not_less _ _ e)))))
        ])
      ]

  bound_volume-Sound : Sound i h.step (bounded_of i r) (bound_volume i r)
  unfolding bound_volume
  bound_volume-Sound = elim (Bool-cases (is_at_most r zero_lot)) [
    | inl e ↦ rw e tt
    | inr e ↦ rw e fit_to_broker-Sound
  ]

-- Whenever the calculator returns a size, it comes from a raw volume of the mode, and the size is
-- within the bounds: either it is the broker's minimum, and the member allowed that, or it lies
-- between the broker's minimum and the smaller of the member's and the broker's maximum, and is
-- the bounded volume rounded down by less than one step to a whole number of steps. The limits are
-- multiples of 0.0001, the step is positive and the broker's minimum is not negative.
pub calculate_lot-IsBounded :
    (i : LotInputs) (h : HasDecimalLimits i) {v shown : Number} {clamped : Bool}
    → calculate_lot i ≡ sized v shown clamped
    → (r : Number) × (volume_of_mode i.mode i ≡ raw r) × IsBounded i h.step (bounded_of i r) v
unfolding calculate_lot finish
calculate_lot-IsBounded i h {v} {shown} {clamped} e = from (volume_of_mode i.mode i) e
  where
    from :
        (m : RawVolume)
        → finish i m ≡ sized v shown clamped
        → (r : Number) × (m ≡ raw r) × IsBounded i h.step (bounded_of i r) v
    from (no_volume code) d = cc
    from (raw r) d = (r, refl, subst (Sound i h.step (bounded_of i r)) d (bound_volume-Sound i r h))

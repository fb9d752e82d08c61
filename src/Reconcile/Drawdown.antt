-- ===== src/Reconcile/Drawdown.antt =====
-- The equity curve of a strategy: the largest fall from a peak.
use native.Mathlib.Decide.{dec_lt}
use copytrade_dashboard.Base.{
  ◌<◌, ◌≤◌, sym, ◌≡◌, refl, Bool, true, false, ◌||◌, List, [], ◌∷◌, any, arith, ltb, Bool-cases,
  inl, inr,
}
use copytrade_dashboard.Number.Defs.{
  Number, cross, Less, AtMost, Same, add, subtract, divide, max_of,
}
use copytrade_dashboard.Number.Order.{AtMost-trans, Less-AtMost_trans}
use copytrade_dashboard.Number.Signs.{
  IsNotNegative, IsPositive, IsPositive-above, IsZero, above_zero, add_gain, add_loss,
  divide-IsPositive, divide-IsZero, max_of-least, max_of-left, max_of-right, max_of-IsNotNegative,
  max_of-IsZero, percent-IsPositive, percent-IsZero, subtract-IsPositive, subtract-IsZero,
}
use copytrade_dashboard.Reconcile.Stats.{
  EquityCurve, start_curve, fall_pct, deepest, curve_step, equity_curve,
}

pub fall_pct-IsPositive :
    (peak equity : Number) → IsPositive peak → Less equity peak → IsPositive (fall_pct peak equity)
unfolding fall_pct
fall_pct-IsPositive peak equity pos h =
    percent-IsPositive (divide (subtract peak equity) peak)
      (divide-IsPositive (subtract peak equity) peak pos (subtract-IsPositive peak equity h))

pub fall_pct-IsZero :
    (peak equity : Number) → IsPositive peak → Same peak equity → IsZero (fall_pct peak equity)
unfolding fall_pct
fall_pct-IsZero peak equity pos h =
    percent-IsZero (divide (subtract peak equity) peak)
      (divide-IsZero (subtract peak equity) peak pos (subtract-IsZero peak equity h))

pub fall_pct-IsNotNegative :
    (peak equity : Number)
    → IsPositive peak
    → AtMost equity peak
    → IsNotNegative (fall_pct peak equity)
fall_pct-IsNotNegative peak equity pos h = elim (dec_lt (cross equity peak) (cross peak equity)) [
  | yes k ↦ omega (arith, fall_pct-IsPositive peak equity pos k)
  | no k ↦ omega (arith, fall_pct-IsZero peak equity pos (omega arith))
]

abbrev pub is_loss : Number → Bool
is_loss p = ltb p.plus p.minus

-- A curve with a positive peak, at or above the equity. A fall was measured when a loss was
-- seen; before the first loss the equity stands at the peak.
pub record IsCurve (seen : Bool) (c : EquityCurve) : Type 0 where
  pub peak_positive : IsPositive c.peak
  pub below_peak : AtMost c.equity c.peak
  pub fall_not_negative : IsNotNegative c.max_drawdown
  pub fall_seen : seen ≡ true → IsPositive c.max_drawdown
  pub none_seen : seen ≡ false → AtMost c.peak c.equity × IsZero c.max_drawdown

pub deepest-positive_peak :
    (peak equity before : Number)
    → IsPositive peak
    → deepest peak equity before ≡ max_of before (fall_pct peak equity)
unfolding deepest
deepest-positive_peak peak equity before h = rw (above_zero peak h) refl

module _ (seen : Bool) (c : EquityCurve) (p : Number) (h : IsCurve seen c) where
  abbrev next_equity : Number
  next_equity = add c.equity p

  abbrev next_peak : Number
  next_peak = max_of c.peak (add c.equity p)

  next_peak-IsPositive : IsPositive (max_of c.peak (add c.equity p))
  next_peak-IsPositive =
      IsPositive-above c.peak next_peak h.peak_positive (max_of-left c.peak next_equity)

  next_below_peak : AtMost (add c.equity p) (max_of c.peak (add c.equity p))
  next_below_peak = max_of-right c.peak next_equity

  curve_step-drawdown :
      (curve_step c p).max_drawdown
      ≡ max_of c.max_drawdown (fall_pct (max_of c.peak (add c.equity p)) (add c.equity p))
  unfolding curve_step
  curve_step-drawdown =
      deepest-positive_peak next_peak next_equity c.max_drawdown next_peak-IsPositive

  loss_below_peak : p.plus < p.minus → Less (add c.equity p) (max_of c.peak (add c.equity p))
  loss_below_peak loss =
      Less-AtMost_trans next_equity c.equity next_peak (add_loss c.equity p loss)
        (AtMost-trans c.equity c.peak next_peak h.below_peak (max_of-left c.peak next_equity))

  curve_step-IsNotNegative : IsNotNegative (curve_step c p).max_drawdown
  curve_step-IsNotNegative = rw curve_step-drawdown (
      max_of-IsNotNegative c.max_drawdown (fall_pct next_peak next_equity) h.fall_not_negative
        (fall_pct-IsNotNegative next_peak next_equity next_peak-IsPositive next_below_peak))

  step_keeps : IsPositive c.max_drawdown → IsPositive (curve_step c p).max_drawdown
  step_keeps pos =
      rw curve_step-drawdown
        (IsPositive-above _ _ pos (max_of-left c.max_drawdown (fall_pct next_peak next_equity)))

  step_loss : p.plus < p.minus → IsPositive (curve_step c p).max_drawdown
  step_loss loss = rw curve_step-drawdown (
      IsPositive-above _ _
        (fall_pct-IsPositive next_peak next_equity next_peak-IsPositive (loss_below_peak loss))
        (max_of-right c.max_drawdown (fall_pct next_peak next_equity)))

  step_gain :
      p.minus ≤ p.plus
      → seen ≡ false
      → AtMost (curve_step c p).peak (curve_step c p).equity × IsZero (curve_step c p).max_drawdown
  unfolding curve_step
  step_gain gain none =
      let at_peak : AtMost next_peak next_equity =
        max_of-least c.peak next_equity next_equity
          (AtMost-trans c.peak c.equity next_equity (h.none_seen none).0 (add_gain c.equity p gain))
          (omega arith) in
      (
        at_peak,
        rw curve_step-drawdown (
            max_of-IsZero c.max_drawdown (fall_pct next_peak next_equity) (h.none_seen none).1 (
              fall_pct-IsZero next_peak next_equity next_peak-IsPositive
                (omega (arith, at_peak, next_below_peak)))),
      )

  step_seen : (seen || is_loss p) ≡ true → IsPositive (curve_step c p).max_drawdown
  step_seen e = elim (Bool-cases seen) [
    | inl was ↦ step_keeps (h.fall_seen was)
    | inr not_yet ↦ step_loss (ground arith)
  ]

  step_none_seen :
      (seen || is_loss p) ≡ false
      → AtMost (curve_step c p).peak (curve_step c p).equity × IsZero (curve_step c p).max_drawdown
  step_none_seen e = step_gain (ground arith) (ground arith)

  curve_step-IsCurve : IsCurve (seen || is_loss p) (curve_step c p)
  unfolding curve_step
  curve_step-IsCurve = record {
    peak_positive = next_peak-IsPositive;
    below_peak = next_below_peak;
    fall_not_negative = curve_step-IsNotNegative;
    fall_seen = step_seen;
    none_seen = step_none_seen;
  }

pub or_none : (a : Bool) → (a || false) ≡ a
or_none a = ground arith

pub or_assoc : (a b c : Bool) → ((a || b) || c) ≡ (a || (b || c))
or_assoc a b c = ground arith

pub equity_curve-IsCurve :
    (seen : Bool) (c : EquityCurve) (ps : List Number)
    → IsCurve seen c
    → IsCurve (seen || any is_loss ps) (equity_curve c ps)
unfolding equity_curve
equity_curve-IsCurve seen c [] h = rw (or_none seen) h
equity_curve-IsCurve seen c (p ∷ ps) h =
    rw (sym (or_assoc seen (is_loss p) (any is_loss ps)))
      (equity_curve-IsCurve (seen || is_loss p) (curve_step c p) ps (curve_step-IsCurve seen c p h))

pub start_curve-IsCurve : IsCurve false start_curve
start_curve-IsCurve = record {
  peak_positive = omega arith;
  below_peak = omega arith;
  fall_not_negative = omega arith;
  fall_seen = λ e. ground arith;
  none_seen = λ e. (omega arith, refl);
}

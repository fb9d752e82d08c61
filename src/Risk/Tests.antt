-- ===== src/Risk/Tests.antt =====
-- Decisions at concrete contexts.
use copytrade_dashboard.Base.{◌≡◌, ◌↔◌, refl, true, false, [], ◌∷◌, arith}
use copytrade_dashboard.Number.Defs.{cross, hundredths, of_nat, add, negate, subtract, AtMost}
use copytrade_dashboard.Text.{text_eq, to_upper}
use copytrade_dashboard.Types.{OrderType}
use copytrade_dashboard.Risk.{
  RiskContext, RiskCode, RiskReason, allowed, refused, skipped, risk_limit_reached,
  symbol_not_allowed, daily_loss_reached, symbol_refused, daily_loss, check_account, check_exposure,
  evaluate_risk,
}
use copytrade_dashboard.Risk.Spec.{
  IsWanted, IsWithinExposure, IsHealthy, evaluate_risk-allowed_iff, evaluate_risk-pauses_iff,
}
use copytrade_dashboard.Risk.Monotone.{evaluate_risk_mono}

-- A buy of 0.5 lots of `xau` where `XAU` is allowed, with a daily limit of 100 and no other.
abbrev calm : RiskContext
calm = record {
  symbol = b'x' ∷ b'a' ∷ b'u' ∷ [];
  order_type = OrderType.buy;
  volume = hundredths 50;
  allowed_symbols = (b'X' ∷ b'A' ∷ b'U' ∷ []) ∷ [];
  copy_buy = true;
  copy_sell = false;
  copy_pending_orders = false;
  max_open_trades = 3;
  max_daily_loss = of_nat 100;
  max_daily_loss_pct = of_nat 0;
  max_drawdown_pct = of_nat 0;
  max_lot_per_trade = of_nat 1;
  max_total_lot = of_nat 0;
  open_trades = 2;
  open_volume = of_nat 7;
  equity = of_nat 950;
  peak_equity = of_nat 1000;
  daily_start_equity = of_nat 1000;
  daily_realized_pnl = of_nat 0;
  already_breached = false;
}

calm_allowed : evaluate_risk calm ≡ allowed
unfolding evaluate_risk check_exposure check_account symbol_refused daily_loss text_eq to_upper
    subtract add negate cross
calm_allowed = refl

abbrev losing : RiskContext
losing = record calm { equity = of_nat 900 }

losing_paused : evaluate_risk losing ≡ refused risk_limit_reached daily_loss_reached true
unfolding evaluate_risk check_exposure check_account symbol_refused daily_loss text_eq to_upper
    subtract add negate cross
losing_paused = refl

abbrev unlisted : RiskContext
unlisted = record losing { symbol = b'e' ∷ [] }

unlisted_skipped : evaluate_risk unlisted ≡ refused skipped symbol_not_allowed false
unfolding evaluate_risk symbol_refused text_eq to_upper
unlisted_skipped = refl

evaluate_risk-allowed_iff_example :
    (evaluate_risk calm ≡ allowed) ↔ (IsWanted calm × IsWithinExposure calm × IsHealthy calm)
evaluate_risk-allowed_iff_example = evaluate_risk-allowed_iff calm

evaluate_risk-pauses_iff_example :
    ((code : RiskCode) × (reason : RiskReason) × (evaluate_risk losing ≡ refused code reason true))
    ↔ (IsWanted losing × IsWithinExposure losing × ¬ IsHealthy losing)
evaluate_risk-pauses_iff_example = evaluate_risk-pauses_iff losing

smaller : AtMost (hundredths 20) (hundredths 50)
unfolding cross
smaller = omega arith

evaluate_risk_mono_example : evaluate_risk (record calm { volume = hundredths 20 }) ≡ allowed
evaluate_risk_mono_example = evaluate_risk_mono calm (hundredths 20) smaller calm_allowed

-- ===== src/Risk/Monotone.antt =====
-- Decisions of `evaluateRisk` on orders that differ in their volume.
use copytrade_dashboard.Base.{◌≡◌, inl, inr}
use copytrade_dashboard.Number.Defs.{Number, AtMost, add}
use copytrade_dashboard.Number.Order.{AtMost-trans, add-AtMost}
use copytrade_dashboard.Risk.{
  RiskContext, allowed, evaluate_risk, daily_loss, loss_pct, drawdown_pct,
}
use copytrade_dashboard.Risk.Spec.{Within, evaluate_risk-allowed_iff}

Within-mono : (limit x y : Number) → AtMost x y → Within limit y → Within limit x
Within-mono limit x y h (inl off) = inl off
Within-mono limit x y h (inr under) = inr (AtMost-trans x y limit h under)

-- If an order is allowed, so is the same order with a volume that is not larger.
pub evaluate_risk_mono :
    (c : RiskContext) (v : Number)
    → AtMost v c.volume
    → evaluate_risk c ≡ allowed
    → evaluate_risk (record c { volume = v }) ≡ allowed
unfolding daily_loss loss_pct drawdown_pct
evaluate_risk_mono c v h ok =
    let (w, e, k) = (evaluate_risk-allowed_iff c).0 ok in
    let smaller = record c { volume = v } in
    (evaluate_risk-allowed_iff smaller).1 (
      record {
        not_breached = w.not_breached;
        pending_wanted = w.pending_wanted;
        buy_wanted = w.buy_wanted;
        sell_wanted = w.sell_wanted;
        symbol_wanted = w.symbol_wanted;
      },
      record {
        trades = e.trades;
        lot = Within-mono c.max_lot_per_trade v c.volume h e.lot;
        total =
            Within-mono c.max_total_lot (add c.open_volume v) (add c.open_volume c.volume)
              (add-AtMost c.open_volume v c.volume h) e.total;
      },
      record { loss = k.loss; pct = k.pct; drawdown = k.drawdown },
    )

-- ===== src/Reconcile/Tests.antt =====
-- The sweep at the member of the engine's scenario, whose position the broker has closed.
use copytrade_dashboard.Base.{
  ℕ, ◌+◌, ◌≡◌, ◌≤◌, refl, false, none, some, List, [], ◌∷◌, any, filter, length,
}
use copytrade_dashboard.Number.Defs.{
  Number, AtMost, of_nat, hundredths, add, subtract, negate, multiply, divide, to_fixed, cross,
  is_less,
}
use copytrade_dashboard.Types.{AccountInfo, PositionMode, OrderType, PositionStatus}
use copytrade_dashboard.Store.Monad.{ok}
use copytrade_dashboard.Engine.Scenario.{broker, account, holding}
use copytrade_dashboard.Ingest.State.{MasterTrade}
use copytrade_dashboard.Reconcile.Stats.{
  start_curve, curve_step, equity_curve, profits_of, stats_of,
}
use copytrade_dashboard.Reconcile.Figures.{is_reported_loss, stats_of_bounds}
use copytrade_dashboard.Reconcile.Account.{ReconcileResult, is_vanished, reconcile_with}
use copytrade_dashboard.Reconcile.Vanished.{reconcile_with_lem}
use copytrade_dashboard.Reconcile.Sweep.{
  SweepResult, reconcile_all_accounts, reconcile_all_accounts_answers,
}

abbrev info : AccountInfo
info = record {
  balance = of_nat 1000;
  equity = of_nat 1010;
  margin = of_nat 0;
  free_margin = of_nat 1010;
  currency = [];
  position_mode = PositionMode.hedging;
}

-- The broker has no position left, so the one of the table has vanished.
one_vanished : length (filter (is_vanished 7 []) holding.mappings) ≡ 1
one_vanished = refl

reconcile_with_lem_example :
    let after = reconcile_with broker account 77 info [] holding in
    ((r : ReconcileResult) × (after.0 ≡ ok r) × (r.open_positions ≡ 0) × (r.closed_mappings ≡ 1))
    × (any (is_vanished 7 []) after.1.mappings ≡ false)
reconcile_with_lem_example = reconcile_with_lem broker account 77 info [] holding

reconcile_all_accounts_answers_example :
    (r : SweepResult) × ((reconcile_all_accounts broker holding).0 ≡ ok r)
    × (r.accounts ≡ 1)
    × (r.failed ≤ r.accounts)
reconcile_all_accounts_answers_example = reconcile_all_accounts_answers broker holding

-- Three closed trades of strategy 5, the newest first in the table, and one that is open.
abbrev closed_trade : ℕ → Number → ℕ → MasterTrade
closed_trade id profit closed_at = record {
  id = id;
  strategy_id = 5;
  ticket = 300 + id;
  symbol = [];
  order_type = OrderType.buy;
  volume = hundredths 10;
  open_price = of_nat 2;
  close_price = some (of_nat 2);
  sl = none;
  tp = none;
  profit = some profit;
  status = PositionStatus.closed;
  opened_at = 1;
  closed_at = some closed_at;
}

abbrev history : List MasterTrade
history =
    closed_trade 3 (of_nat 70) 30
    ∷ closed_trade 2 (negate (of_nat 30)) 20
    ∷ closed_trade 1 (of_nat 20) 10
    ∷ record (closed_trade 4 (of_nat 0) 40) { status = PositionStatus.opened; profit = none }
    ∷ []

-- 100, 120, 90, 160: a fall of a quarter, two wins of three, and a gain of 60.
history_figures : stats_of 5 history [] ≡ record {
  strategy_id = 5;
  total_trades = 4;
  win_rate_pct = hundredths 6667;
  total_return_pct = hundredths 6000;
  max_drawdown_pct = hundredths 2500;
  member_count = 0;
}
unfolding stats_of add subtract negate multiply divide to_fixed cross curve_step
history_figures = refl

stats_of_bounds_example :
    length (profits_of 5 history) ≤ (stats_of 5 history []).total_trades
    × AtMost (of_nat 0) (stats_of 5 history []).win_rate_pct
    × AtMost (stats_of 5 history []).win_rate_pct (of_nat 100)
    × AtMost (of_nat 0) (stats_of 5 history []).max_drawdown_pct
    × (is_less (of_nat 0) (equity_curve start_curve (profits_of 5 history)).max_drawdown
        ≡ any (is_reported_loss 5) history)
stats_of_bounds_example = stats_of_bounds 5 history []

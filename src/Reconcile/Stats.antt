-- ===== src/Reconcile/Stats.antt =====
-- `recomputeStrategyStats` and `recomputeAllStats`: the figures of the marketplace.
use copytrade_dashboard.Base.{
  ℕ, ◌+◌, Bool, true, false, ◌&&◌, Option, none, some, List, [], ◌∷◌, any, filter, map, length, ltb,
  ◌==◌, if◌then◌else◌,
}
use copytrade_dashboard.Number.Defs.{
  Number, of_nat, add, subtract, multiply, divide, max_of, is_less, to_fixed,
}
use copytrade_dashboard.Types.{PositionStatus}
use copytrade_dashboard.Symbol.{is_id}
use copytrade_dashboard.Store.Rows.{Subscription}
use copytrade_dashboard.Store.Tables.{update_where}
use copytrade_dashboard.Control.State.{is_active_status}
use copytrade_dashboard.Ingest.State.{MasterTrade}

pub record StrategyStats : Type 0 where
  pub strategy_id : ℕ
  pub total_trades : ℕ
  pub win_rate_pct : Number
  pub total_return_pct : Number
  pub max_drawdown_pct : Number
  pub member_count : ℕ

-- The columns of a strategy and of a provider that are recomputed.
pub record StrategyRow : Type 0 where
  pub id : ℕ
  pub provider_id : Option ℕ
  pub stats : StrategyStats

pub record ProviderRow : Type 0 where
  pub id : ℕ
  pub total_strategies : ℕ
  pub total_subscribers : ℕ

pub record Marketplace : Type 0 where
  pub trades : List MasterTrade
  pub subscriptions : List Subscription
  pub strategies : List StrategyRow
  pub providers : List ProviderRow

abbrev is_closed : PositionStatus → Bool
is_closed PositionStatus.closed = true
is_closed _ = false

abbrev has_profit : Option Number → Bool
has_profit none = false
has_profit (some x) = true

abbrev pub is_of_strategy : ℕ → MasterTrade → Bool
is_of_strategy id t = t.strategy_id == id

-- A closed trade whose profit was reported.
abbrev pub is_reported : ℕ → MasterTrade → Bool
is_reported id t = is_of_strategy id t && (is_closed t.status && has_profit t.profit)

-- `closedAt` ascending, a missing date last.
abbrev pub is_before : Option ℕ → Option ℕ → Bool
is_before none _ = false
is_before (some x) none = true
is_before (some x) (some y) = ltb x y

unfoldable pub insert_oldest : MasterTrade → List MasterTrade → List MasterTrade
insert_oldest t [] = t ∷ []
insert_oldest t (u ∷ rows) =
    let rest = insert_oldest t rows in
    if is_before u.closed_at t.closed_at then u ∷ rest else t ∷ u ∷ rows

unfoldable pub oldest_first : List MasterTrade → List MasterTrade
oldest_first [] = []
oldest_first (t ∷ rows) = insert_oldest t (oldest_first rows)

abbrev pub profit_number : Option Number → Number
profit_number none = of_nat 0
profit_number (some x) = x

unfoldable pub profits_of : ℕ → List MasterTrade → List Number
unfolding oldest_first insert_oldest
profits_of id trades =
    map (λ (t : MasterTrade). profit_number t.profit)
      (oldest_first (filter (is_reported id) trades))

-- The equity from a notional 100, its peak and the largest fall from a peak, in per cent.
pub record EquityCurve : Type 0 where
  pub equity : Number
  pub peak : Number
  pub max_drawdown : Number

abbrev pub start_curve : EquityCurve
start_curve = record { equity = of_nat 100; peak = of_nat 100; max_drawdown = of_nat 0 }

unfoldable pub fall_pct : Number → Number → Number
fall_pct peak equity = multiply (divide (subtract peak equity) peak) (of_nat 100)

unfoldable pub deepest : Number → Number → Number → Number
unfolding fall_pct
deepest peak equity before =
    if is_less (of_nat 0) peak then max_of before (fall_pct peak equity) else before

unfoldable pub curve_step : EquityCurve → Number → EquityCurve
unfolding deepest
curve_step c profit =
    let equity = add c.equity profit in
    let peak = max_of c.peak equity in
    record { equity = equity; peak = peak; max_drawdown = deepest peak equity c.max_drawdown }

unfoldable pub equity_curve : EquityCurve → List Number → EquityCurve
equity_curve c [] = c
equity_curve c (p ∷ ps) = equity_curve (curve_step c p) ps

abbrev pub is_win : Number → Bool
is_win p = is_less (of_nat 0) p

-- The share of the trades that were won, in per cent.
unfoldable pub win_rate : ℕ → ℕ → Number
win_rate wins trades =
    if ltb 0 trades
    then to_fixed 99 (multiply (divide (of_nat wins) (of_nat trades)) (of_nat 100))
    else of_nat 0

unfoldable pub total_return : List Number → Number → Number
total_return [] equity = of_nat 0
total_return (p ∷ ps) equity = to_fixed 99 (subtract equity (of_nat 100))

abbrev pub is_member : ℕ → Subscription → Bool
is_member id s = s.strategy_id == id && is_active_status s.status

unfoldable pub stats_of : ℕ → List MasterTrade → List Subscription → StrategyStats
unfolding profits_of equity_curve win_rate total_return
stats_of id trades subscriptions =
    let profits = profits_of id trades in
    let curve = equity_curve start_curve profits in
    record {
      strategy_id = id;
      total_trades = length (filter (is_of_strategy id) trades);
      win_rate_pct = win_rate (length (filter is_win profits)) (length profits);
      total_return_pct = total_return profits curve.equity;
      max_drawdown_pct = to_fixed 99 curve.max_drawdown;
      member_count = length (filter (is_member id) subscriptions);
    }

unfoldable pub recompute_strategy_stats : ℕ → Marketplace → StrategyStats × Marketplace
unfolding stats_of
recompute_strategy_stats id m =
    let stats = stats_of id m.trades m.subscriptions in
    (
      stats,
      record m {
        strategies =
            update_where (λ s. s.id == id) (λ (s : StrategyRow). record s { stats = stats })
              m.strategies;
      },
    )

unfoldable pub recompute_each : List StrategyRow → Marketplace → Marketplace
recompute_each [] m = m
recompute_each (s ∷ rows) m = recompute_each rows (recompute_strategy_stats s.id m).1

-- The members that follow some strategy of the provider, each once.
abbrev follows_provider : ℕ → List StrategyRow → Subscription → Bool
follows_provider id strategies s =
    is_active_status s.status
    && any (λ (r : StrategyRow). r.id == s.strategy_id && is_id r.provider_id id) strategies

unfoldable pub distinct_users : List Subscription → ℕ
distinct_users [] = 0
distinct_users (s ∷ rows) =
    (if any (λ (r : Subscription). r.user_id == s.user_id) rows then 0 else 1) + distinct_users rows

unfoldable pub recount_provider : Marketplace → ProviderRow → ProviderRow
recount_provider m p = record p {
  total_strategies = length (filter (λ (s : StrategyRow). is_id s.provider_id p.id) m.strategies);
  total_subscribers = distinct_users (filter (follows_provider p.id m.strategies) m.subscriptions);
}

-- The counts that are answered, and the tables.
unfoldable pub recompute_all_stats : Marketplace → (ℕ × ℕ) × Marketplace
recompute_all_stats m =
    let after = recompute_each m.strategies m in
    (
      (length m.strategies, length m.providers),
      record after { providers = map (recount_provider after) m.providers },
    )

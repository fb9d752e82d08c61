-- ===== src/Engine/Scenario.antt =====
-- One master, one member and a broker that counts the orders it executes.
use copytrade_dashboard.Base.{ℕ, ◌+◌, true, false, none, some, [], ◌∷◌}
use copytrade_dashboard.Base.Int.{pos}
use copytrade_dashboard.Number.Defs.{hundredths, of_nat}
use copytrade_dashboard.Text.{Text}
use copytrade_dashboard.Types
use copytrade_dashboard.Types.{
  Platform, PositionMode, OrderType, EventType, LotMode, PositionStatus, CopyStatus,
  ConnectionStatus, OrderResult, ProviderPosition, SymbolSpec, ErrorCode,
}
use copytrade_dashboard.Store.Rows.{
  TradeEvent, EventStatus, CopySettings, RiskProfile, TradingAccount, Subscription,
  SubscriptionStatus, CopyTrade, CopyTradeStatus, PositionMapping, RiskState,
}
use copytrade_dashboard.Store.Monad.{ok, err, app_error}
use copytrade_dashboard.Store.Tables.{TradeProvider, World}
use copytrade_dashboard.Engine.Open.{MemberContext}

abbrev pub euro : Text
euro = b'E' ∷ b'U' ∷ b'R' ∷ []

abbrev pub fill : OrderResult
fill = record {
  executed = true;
  ticket = some 900;
  remainder_ticket = none;
  price = some (of_nat 2);
  volume = some (hundredths 20);
  error_code = none;
}

-- A response without a ticket, as a broker gives that has only queued the order.
abbrev pub accepted_only : OrderResult
accepted_only = record fill { ticket = none }

abbrev pub euro_spec : SymbolSpec
euro_spec = record {
  symbol = euro;
  min_lot = hundredths 1;
  max_lot = of_nat 100;
  lot_step = hundredths 1;
  digits = 5;
  trade_allowed = true;
}

abbrev pub broker : TradeProvider ℕ
broker = record {
  get_account_info = λ id n. err (app_error Types.timeout);
  get_positions = λ id n. ok [];
  get_symbol_spec = λ id symbol n. ok (some euro_spec);
  get_closed_position = λ id ticket n. ok none;
  connect_account = λ a n. (
    ok (record {
      provider_account_id = 77;
      platform = Platform.mt5;
      position_mode = PositionMode.hedging;
      currency = [];
      balance = of_nat 1000;
      min_lot = hundredths 1;
      max_lot = of_nat 100;
      lot_step = hundredths 1;
    }),
    n,
  );
  open_position = λ id request n. (ok fill, n + 1);
  modify_position = λ id request n. (ok fill, n + 1);
  close_position = λ id request n. (ok fill, n + 1);
}

abbrev pub opening : TradeEvent
opening = record {
  event_id = 1;
  strategy_id = 5;
  master_trade_id = some 40;
  event_type = EventType.open_trade;
  ticket = 300;
  symbol = euro;
  order_type = OrderType.buy;
  volume = hundredths 10;
  price = of_nat 2;
  sl = none;
  tp = none;
  master_balance = none;
  close_fraction = none;
  status = EventStatus.queued;
  processed_at = none;
  fan_out_count = 0;
}

abbrev pub settings : CopySettings
settings = record {
  lot_mode = LotMode.multiplier;
  fixed_lot = hundredths 1;
  multiplier = of_nat 2;
  balance_ratio = of_nat 1;
  risk_percent = of_nat 1;
  max_lot = of_nat 10;
  min_lot = hundredths 1;
  allow_min_lot_rounding = false;
  copy_buy = true;
  copy_sell = true;
  copy_sl = true;
  copy_tp = true;
  copy_pending_orders = false;
  max_open_trades = 5;
  allowed_symbols = [];
  slippage_points = 30;
}

abbrev pub profile : RiskProfile
profile = record {
  max_daily_loss = of_nat 100;
  max_daily_loss_pct = of_nat 0;
  max_drawdown_pct = of_nat 0;
  max_lot_per_trade = of_nat 0;
  max_total_lot = of_nat 0;
  stop_copy_on_breach = true;
}

abbrev pub account : TradingAccount
account = record {
  id = 7;
  user_id = 70;
  platform = Platform.mt5;
  login = 123;
  encrypted_password = some 8;
  provider_account_id = some 76;
  connection_status = ConnectionStatus.connected;
  copy_status = CopyStatus.copying;
  broker_min_lot = hundredths 1;
  broker_max_lot = of_nat 50;
  broker_lot_step = hundredths 1;
  balance = of_nat 1000;
  equity = of_nat 1000;
  peak_equity = of_nat 1000;
  open_trades = pos 0;
}

abbrev pub subscription : Subscription
subscription = record {
  id = 20;
  user_id = 70;
  strategy_id = 5;
  account_id = 7;
  status = SubscriptionStatus.active;
  copy_status = CopyStatus.copying;
  paused_at = none;
  copy_settings = some settings;
  risk_profile = some profile;
}

abbrev pub start : World ℕ
start = record {
  events = opening ∷ [];
  subscriptions = subscription ∷ [];
  accounts = account ∷ [];
  copy_trades = [];
  mappings = [];
  risk_states = [];
  symbol_mappings = [];
  outbox = [];
  next_id = 1000;
  now = 90000000;
  broker = 0;
}

abbrev pub member : MemberContext
member = record {
  event = opening;
  subscription = subscription;
  account = account;
  provider_account_id = 77;
}

-- The copy's row before the order, and the account's position after it.
abbrev pub pending_copy : CopyTrade
pending_copy = record {
  id = 1000;
  event_id = 1;
  strategy_id = 5;
  subscription_id = 20;
  account_id = 7;
  master_trade_id = some 40;
  event_type = EventType.open_trade;
  master_ticket = 300;
  master_symbol = euro;
  member_symbol = euro;
  order_type = OrderType.buy;
  master_volume = hundredths 10;
  member_volume = of_nat 0;
  master_price = of_nat 2;
  member_price = none;
  member_ticket = none;
  sl = none;
  tp = none;
  status = CopyTradeStatus.pending;
  attempts = 0;
  skip_reason = none;
  error_code = none;
  executed_at = none;
}

abbrev pub position : PositionMapping
position = record {
  id = 1001;
  master_trade_id = some 40;
  subscription_id = 20;
  account_id = 7;
  master_ticket = 300;
  member_ticket = 900;
  ticket_history = [];
  symbol = euro;
  order_type = OrderType.buy;
  volume = hundredths 20;
  open_price = of_nat 2;
  sl = none;
  tp = none;
  status = PositionStatus.opened;
  closed_at = none;
  close_price = none;
  profit = none;
  close_reason = none;
}

abbrev pub ordered : World ℕ
ordered = record start { copy_trades = pending_copy ∷ [] }

abbrev pub holding : World ℕ
holding = record ordered { mappings = position ∷ [] }

abbrev pub closing : MemberContext
closing = record member { event = record opening { event_id = 2; event_type = EventType.close } }

-- An account that has lost 150 today.
abbrev pub losing_member : MemberContext
losing_member = record member { account = record account { equity = of_nat 850 } }

abbrev pub today : RiskState
today = record {
  account_id = 7;
  trading_day = 86400000;
  daily_start_equity = of_nat 1000;
  daily_realized_pnl = of_nat 0;
  breached = false;
  breach_reason = none;
  breached_at = none;
}

-- ===== src/Watch/Tests.antt =====
-- A strategy that starts to watch an account with two open positions.
use copytrade_dashboard.Base.{ℕ, refl, true, none, some, List, [], ◌∷◌}
use copytrade_dashboard.Number.Defs.{hundredths, of_nat}
use copytrade_dashboard.Types.{
  EventType, OrderType, PositionMode, AccountInfo, ProviderPosition, timeout,
}
use copytrade_dashboard.Store.Monad.{ok, err, app_error}
use copytrade_dashboard.Store.Tables.{TradeProvider, World}
use copytrade_dashboard.Engine.Scenario.{euro, account, fill}
use copytrade_dashboard.Ingest.State.{StrategyStatus, StrategyOwner}
use copytrade_dashboard.Watch.State.{WatchedStrategy, Detail, Watchtower}
use copytrade_dashboard.Watch.Silent.{Reports}

abbrev info : AccountInfo
info = record {
  balance = of_nat 1000;
  equity = of_nat 1000;
  margin = of_nat 0;
  free_margin = of_nat 1000;
  currency = [];
  position_mode = PositionMode.hedging;
}

-- A broker whose state is what it reports.
abbrev reporter : TradeProvider (List ProviderPosition)
reporter = record {
  get_account_info = λ id b. ok info;
  get_positions = λ id b. ok b;
  get_symbol_spec = λ id symbol b. ok none;
  get_closed_position = λ id ticket b. ok none;
  connect_account = λ a b. (err (app_error timeout), b);
  open_position = λ id request b. (ok fill, b);
  modify_position = λ id request b. (ok fill, b);
  close_position = λ id request b. (ok fill, b);
}

abbrev position_at : ℕ → ℕ → ProviderPosition
position_at ticket price = record {
  ticket = ticket;
  symbol = euro;
  order_type = OrderType.buy;
  volume = hundredths 10;
  open_price = of_nat 2;
  current_price = of_nat price;
  sl = some (of_nat 1);
  tp = none;
  profit = of_nat 0;
  opened_at = 50;
  comment = none;
}

abbrev report : ℕ → List ProviderPosition
report price = position_at 300 price ∷ position_at 301 price ∷ []

abbrev watched : WatchedStrategy
watched = record {
  strategy = record {
    id = 5;
    code = euro;
    owner_type = StrategyOwner.provider;
    status = StrategyStatus.active;
  };
  master_account_id = some 7;
  watch_started_at = none;
  watch_last_poll_at = none;
}

abbrev world_at : ℕ → World (List ProviderPosition)
world_at price = record {
  events = [];
  subscriptions = [];
  accounts = account ∷ [];
  copy_trades = [];
  mappings = [];
  risk_states = [];
  symbol_mappings = [];
  outbox = [];
  next_id = 1000;
  now = 90000000;
  broker = report price;
}

abbrev tower : Watchtower (List ProviderPosition)
tower = record {
  strategies = watched ∷ [];
  inbox = record {
    redis_up = true;
    nonces = [];
    jobs = [];
    trades = [];
    events = [];
    next_id = 1;
    now = 90000000;
  };
  world = world_at 2;
}

abbrev reported : (price : ℕ) → Reports reporter 7 76 (report price) (world_at price)
reported price = record {
  account = account;
  found = refl;
  connected = refl;
  known_id = refl;
  password = 8;
  has_password = refl;
  info = info;
  alive = refl;
  positions = refl;
}

-- Event ids by ticket alone.
abbrev id_for : ℕ → EventType → ℕ → Detail → ℕ
id_for strategy_id event_type ticket detail = ticket

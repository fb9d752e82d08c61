-- ===== src/MetaApi/Tests.antt =====
-- A terminal with one account and one position, which counts the accounts that it creates.
use copytrade_dashboard.Base.{
  ℕ, suc, ◌≡◌, refl, none, some, List, [], ◌∷◌, map, take, if◌then◌else◌,
}
use copytrade_dashboard.Base.Descending.{IsNewestFirst}
use copytrade_dashboard.Base.Sorting.{newest_first, distinct}
use copytrade_dashboard.Number.Defs.{Number, of_nat, is_less, cross, hundredths}
use copytrade_dashboard.Text.{Text, text_eq}
use copytrade_dashboard.Types.{
  Platform, OrderType, OpenPositionRequest, ErrorCode, AccountTrade, ModifyPositionRequest,
  ClosePositionRequest,
}
use copytrade_dashboard.Mock.State.{codes}
use copytrade_dashboard.MetaApi.Sdk.{
  SdkError, sdk, answered, RemoteAccount, RemoteInfo, NewAccount, Deal, TradeResponse, MarketOrder,
  Call, Sdk, Adapter, pure, throw,
}
use copytrade_dashboard.MetaApi.Codes.{
  map_trade_error_code, look_up, string_code_map, numeric_code_map,
}
use copytrade_dashboard.MetaApi.Session.{connection, opening, open_connection}
use copytrade_dashboard.MetaApi.Account.{RemoteLogin, connect_account, connect_provisioned}
use copytrade_dashboard.MetaApi.Deals.{collect, group_deals_into_trades}
use copytrade_dashboard.MetaApi.Grouped.{positions, trade_at, group_deals_into_trades_lem}
use copytrade_dashboard.MetaApi.Trading.{
  open_position, modify_position, close_position, rejected, trade, trade_failed, with_details,
}
use copytrade_dashboard.MetaApi.Trades.{ComesTo}
use copytrade_dashboard.MetaApi.Orders.{IsOpened, IsModified, IsClosed, every_order-ComesTo}
use copytrade_dashboard.MetaApi.Reuse.{connect_account_reuses}

abbrev live : RemoteAccount
live = record { id = 7; login = codes "1001"; server = codes "Live"; state = codes "DEPLOYED" }

abbrev no_money : SdkError
no_money = record {
  message = codes "no money";
  status = none;
  details = none;
  string_code = some (codes "ERR_NOT_ENOUGH_MONEY");
  numeric_code = some 134;
}

abbrev response : TradeResponse
response = record { order_id = some 31; position_id = some 30 }

abbrev info : RemoteInfo
info = record {
  platform = codes "mt5";
  currency = codes "USD";
  balance = of_nat 1000;
  equity = of_nat 1000;
  margin = of_nat 0;
  free_margin = of_nat 1000;
  margin_mode = some (codes "retail-netting");
}

-- Orders of more than ten lots are refused, and a position cannot be read back.
abbrev ordered : MarketOrder → Call ℕ TradeResponse
ordered r = if is_less (of_nat 10) r.volume then throw (sdk no_money) else pure response

abbrev terminal : Sdk ℕ
terminal = record {
  get_account = λ id. pure live;
  find_accounts = λ login. pure (live ∷ []);
  create_account = λ a n. (answered (record live { id = 8 }), suc n);
  deploy = λ id. pure tt;
  undeploy = λ id. pure tt;
  wait_connected = λ id. pure tt;
  wait_deployed = λ id. pure tt;
  wait_undeployed = λ id. pure tt;
  connect = λ id. pure tt;
  wait_synchronized = λ id. pure tt;
  close = λ id. pure tt;
  get_account_information = λ id. pure info;
  get_positions = λ id. pure [];
  get_position = λ id ticket. throw (sdk no_money);
  get_symbol_specification = λ id symbol. pure none;
  get_deals_by_position = λ id ticket. pure none;
  get_deals_by_time_range = λ id from_time to_time limit. pure none;
  create_market_order = λ id r. ordered r;
  modify_position = λ id ticket sl tp. pure response;
  close_position = λ id ticket. pure response;
  close_position_partially = λ id ticket volume. pure response;
}

abbrev idle : Adapter ℕ
idle = record { cached = []; remote = 0 }

abbrev buy : ℕ → OpenPositionRequest
buy lots = record {
  symbol = codes "EURUSD";
  order_type = OrderType.buy;
  volume = of_nat lots;
  sl = none;
  tp = none;
  slippage_points = some 20;
  client_id = 4;
}

abbrev stop_at : ModifyPositionRequest
stop_at = record { ticket = 30; sl = some (of_nat 1); tp = none }

abbrev close_half : ClosePositionRequest
close_half = record { ticket = 29; volume = some (hundredths 50) }

-- The first use of the account opens its connection, and the next finds it.
every_order-ComesTo_example :
    ComesTo IsOpened (answered response) (open_position terminal 7 (buy 1) idle).0
    × ComesTo (IsModified stop_at) (answered response) (modify_position terminal 7 stop_at idle).0
    × ComesTo
        (IsClosed close_half)
        (answered response)
        (close_position terminal 7 close_half idle).0
unfolding connection opening open_connection text_eq cross open_position modify_position
    close_position
every_order-ComesTo_example =
    every_order-ComesTo terminal 7 (buy 1) stop_at close_half idle (record idle { cached = 7 ∷ [] })
      refl

-- A refused order is an answer, with the code of MT4 for it.
refused_runs :
    open_position terminal 7 (buy 11) idle
    ≡ (answered (rejected ErrorCode.insufficient_margin), record idle { cached = 7 ∷ [] })
unfolding open_position connection opening open_connection text_eq cross trade trade_failed
    map_trade_error_code look_up string_code_map numeric_code_map with_details
refused_runs = refl

abbrev login : RemoteLogin
login = record {
  platform = Platform.mt5;
  broker = codes "Broker";
  server = codes "Live";
  login = codes "1001";
  password = codes "secret";
}

abbrev refuse_creation : NewAccount → Call ℕ RemoteAccount
refuse_creation a = throw (sdk no_money)

connect_account_reuses_example :
    connect_account (record terminal { create_account = refuse_creation }) login idle
    ≡ connect_provisioned terminal login live idle
unfolding text_eq
connect_account_reuses_example =
    connect_account_reuses terminal refuse_creation login idle 0 (live ∷ []) live refl refl refl

abbrev deal : Text → Text → ℕ → ℕ → Number → Deal
deal kind entry_type position_id time profit = record {
  kind = kind;
  entry_type = entry_type;
  symbol = some (codes "EURUSD");
  time = time;
  volume = some (of_nat 1);
  price = some (of_nat 2);
  commission = none;
  swap = none;
  profit = some profit;
  position_id = some position_id;
  reason = some (codes "DEAL_REASON_TP");
}

abbrev buying : ℕ → ℕ → Deal
buying id time = deal (codes "DEAL_TYPE_BUY") (codes "DEAL_ENTRY_IN") id time (of_nat 0)

abbrev selling : ℕ → ℕ → Deal
selling id time = deal (codes "DEAL_TYPE_SELL") (codes "DEAL_ENTRY_OUT") id time (of_nat 3)

abbrev history : List Deal
history = buying 1 10 ∷ buying 2 11 ∷ selling 2 12 ∷ buying 3 13 ∷ selling 1 14 ∷ []

-- Two of the three positions are closed: their trades are listed, the newest first.
group_deals_into_trades_lem_example :
    (group_deals_into_trades history 10
      ≡ take 10 (
          newest_first
            (λ t. t.closed_at)
            (collect (trade_at history) (distinct (positions history)))))
    × IsNewestFirst (λ (t : AccountTrade). t.closed_at) (group_deals_into_trades history 10)
group_deals_into_trades_lem_example = group_deals_into_trades_lem history 10

grouping_runs : map (λ t. t.ticket) (group_deals_into_trades history 10) ≡ 1 ∷ 2 ∷ []
unfolding group_deals_into_trades text_eq
grouping_runs = refl

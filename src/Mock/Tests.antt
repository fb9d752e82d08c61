-- ===== src/Mock/Tests.antt =====
-- The simulated broker on one account of each platform.
use copytrade_dashboard.Base.{ℕ, ◌+◌, ◌*◌, ◌≡◌, refl, true, false, some, none, [], ◌∷◌, arith, find}
use copytrade_dashboard.Number.Defs.{
  Number, hundredths, decimal, of_nat, add, multiply, divide, to_fixed, cross,
}
use copytrade_dashboard.Text.{Text, text_eq, to_upper}
use copytrade_dashboard.Types.{
  Platform, OrderType, OpenPositionRequest, ClosePositionRequest, OrderResult, CloseReason,
}
use copytrade_dashboard.Types
use copytrade_dashboard.Store.Monad.{app_error, ok, err}
use copytrade_dashboard.Account.State.{deployed}
use copytrade_dashboard.Mock.Deploying.{mock_deployment}
use copytrade_dashboard.Mock.Past.{trade_of, get_trade_history}
use copytrade_dashboard.Store.Tables.{TradeProvider}
use copytrade_dashboard.Mock.Partial.{closing_part}
use copytrade_dashboard.Mock.Lookup.{Left}
use copytrade_dashboard.Mock.State.{
  ConnectAccountInput, MockPosition, MockClose, MockAccount, MockBroker, is_close_of, codes,
  symbol_rows,
}
use copytrade_dashboard.Mock.Prices.{seeded, current_price}
use copytrade_dashboard.Mock.Orders.{open_position, close_position}
use copytrade_dashboard.Mock.Calls.{
  mock_provider, connect_account, mock_id, require, connected_account,
}
use copytrade_dashboard.Mock.History.{connect, open_order, close_order, after_all}
use copytrade_dashboard.Mock.Accounted.{Accounted, open_position-Accounted}
use copytrade_dashboard.Mock.Remainder.{nobody, close_position_reached}

-- Logins end in different characters here, and the sine is flat.
abbrev number_of : Text → ℕ
number_of [] = 0
number_of (c ∷ s) = c + 256 * number_of s

abbrev flat : Number → Number
flat x = of_nat 0

abbrev credentials : Platform → ConnectAccountInput
credentials platform = record { platform = platform; login = codes "77"; password = codes "p" }

abbrev gold : ℕ → OpenPositionRequest
gold v = record {
  symbol = codes "xauusd";
  order_type = OrderType.buy;
  volume = hundredths v;
  sl = none;
  tp = none;
  slippage_points = none;
  client_id = 4;
}

abbrev account_id : Platform → ℕ
account_id platform = number_of (mock_id platform (codes "77"))

abbrev after_opening : Platform → MockBroker
after_opening platform =
    after_all number_of flat
      (connect (credentials platform) ∷ open_order (account_id platform) (gold 30) ∷ []) (nobody 0)

-- `seeded("77")` and the price that a flat sine leaves.
seeded_runs : seeded (codes "77") ≡ decimal 4963 9999
unfolding seeded
seeded_runs = refl

price_runs : current_price flat 0 (codes "xauusd") ≡ decimal 334520 99
unfolding current_price add multiply divide to_fixed symbol_rows text_eq to_upper
price_runs = refl

-- The position of 0.30 lots under the first ticket of the account.
abbrev bought : ℕ → MockPosition
bought v = record {
  position = record {
    ticket = 497040;
    symbol = codes "XAUUSD";
    order_type = OrderType.buy;
    volume = hundredths v;
    open_price = decimal 334520 99;
    current_price = decimal 334520 99;
    sl = none;
    tp = none;
    profit = of_nat 0;
    opened_at = 0;
    comment = some 4;
  };
  closed = false;
}

abbrev gold_account : Platform → MockAccount
gold_account platform = record {
  provider_account_id = account_id platform;
  platform = platform;
  login = codes "77";
  balance = of_nat 16781;
  netting = false;
  positions = bought 30 ∷ [];
  closes = [];
  next_ticket = 497041;
}

after_opening_runs : (after_opening Platform.mt4).accounts ≡ gold_account Platform.mt4 ∷ []
unfolding after_all connect_account open_position mock_id connected_account current_price seeded
    require text_eq symbol_rows to_upper cross add multiply to_fixed
after_opening_runs = refl

abbrev mock : TradeProvider MockBroker
mock = mock_provider number_of flat (λ account. credentials account.platform)

abbrev at_mt5 : ℕ
at_mt5 = account_id Platform.mt5

abbrev connected_mt5 : MockBroker
connected_mt5 = after_all number_of flat (connect (credentials Platform.mt5) ∷ []) (nobody 0)

abbrev closing_gold : ClosePositionRequest
closing_gold = record { ticket = 497040; volume = none }

abbrev filled : OrderResult
filled = record {
  executed = true;
  ticket = some 497040;
  remainder_ticket = none;
  price = some (decimal 334520 99);
  volume = some (hundredths 30);
  error_code = none;
}

open_position-Accounted_example : Accounted mock at_mt5 497040 (
    after_all number_of flat
      (close_order at_mt5 closing_gold ∷ connect (credentials Platform.mt5) ∷ [])
      (after_opening Platform.mt5))
unfolding after_all connect_account open_position mock_id connected_account current_price seeded
    require text_eq symbol_rows to_upper cross add multiply to_fixed mock_provider
open_position-Accounted_example =
    open_position-Accounted number_of flat (λ account. credentials account.platform) at_mt5 497040
      (gold 30) connected_mt5 (after_opening Platform.mt5) filled
      (close_order at_mt5 closing_gold ∷ connect (credentials Platform.mt5) ∷ []) refl refl

abbrev part : OrderResult × MockAccount
part = close_position flat 5 (closing_part 497040 10) (gold_account Platform.mt4)

close_position_reached_example :
    (part.0.executed ≡ true)
    × (part.0.volume ≡ some (hundredths 10))
    × ((k : MockClose) × (find (is_close_of 497040) part.1.closes ≡ some k)
        × (k.volume ≡ hundredths 10))
    × Left Platform.mt4 497040
        (bought 30)
        (hundredths 20)
        (gold_account Platform.mt4)
        part.0.remainder_ticket
        part.1
unfolding after_all connect_account open_position mock_id connected_account current_price seeded
    require text_eq symbol_rows to_upper cross add multiply to_fixed
close_position_reached_example =
    close_position_reached number_of flat
      (connect (credentials Platform.mt4) ∷ open_order (account_id Platform.mt4) (gold 30) ∷ []) 0
      (account_id Platform.mt4) 5 497040 30 10 (gold_account Platform.mt4) (bought 30) refl refl
      refl (omega arith)

-- Three closes, of which the newest lies behind the range: the newer of the other two is first.
abbrev gold_close : ℕ → ℕ → MockClose
gold_close ticket closed_at = record {
  ticket = ticket;
  symbol = codes "XAUUSD";
  order_type = OrderType.buy;
  open_price = of_nat 3345;
  close_price = of_nat 3346;
  profit = of_nat 3;
  volume = hundredths 30;
  opened_at = 1;
  closed_at = closed_at;
  reason = CloseReason.manual;
}

abbrev seasoned : MockBroker
seasoned = record {
  accounts =
      record (gold_account Platform.mt5) {
        closes = gold_close 1 10 ∷ gold_close 2 30 ∷ gold_close 3 20 ∷ [];
      }
      ∷ [];
  now = 40;
}

get_trade_history_runs :
    get_trade_history at_mt5 (record { from_time = 5; to_time = 20; limit = none }) seasoned
    ≡ ok (record {
      trades = trade_of (gold_close 3 20) ∷ trade_of (gold_close 1 10) ∷ [];
      synchronizing = false;
    })
unfolding get_trade_history mock_id
get_trade_history_runs = refl

-- An account that never connected cannot be switched on, but it can be disconnected.
deployment_runs :
    (mock_deployment.deploy_account 1 seasoned
      ≡ (err (app_error Types.platform_connection_error), seasoned))
    × (mock_deployment.disconnect_account 1 seasoned ≡ (ok tt, seasoned))
    × (mock_deployment.get_deployment_state at_mt5 seasoned ≡ ok deployed)
unfolding mock_deployment mock_id
deployment_runs = (refl, refl, refl)

-- ===== src/Mock/Past.antt =====
-- The trade history of a simulated account, read from its closes.
use copytrade_dashboard.Base.{ℕ, Bool, false, ◌&&◌, Option, none, some, filter, map, take, leb}
use copytrade_dashboard.Base.Sorting.{newest_first}
use copytrade_dashboard.Types.{AccountTrade, AccountTradeHistory, HistoryRange}
use copytrade_dashboard.Store.Monad.{Result}
use copytrade_dashboard.Mock.State.{MockAccount, MockBroker, MockClose}
use copytrade_dashboard.Mock.Calls.{require, query}

abbrev pub is_in_range : HistoryRange → MockClose → Bool
is_in_range range c = leb range.from_time c.closed_at && leb c.closed_at range.to_time

abbrev pub trade_of : MockClose → AccountTrade
trade_of c = record {
  ticket = c.ticket;
  symbol = c.symbol;
  order_type = c.order_type;
  volume = c.volume;
  open_price = some c.open_price;
  close_price = some c.close_price;
  profit = c.profit;
  opened_at = some c.opened_at;
  closed_at = c.closed_at;
  commission = none;
  swap = none;
  reason = some c.reason;
}

abbrev pub limit_of : Option ℕ → ℕ
limit_of none = 500
limit_of (some n) = n

unfoldable pub history_of : HistoryRange → MockAccount → AccountTradeHistory
unfolding newest_first
history_of range a = record {
  trades = map trade_of (
      take (limit_of range.limit)
        (newest_first (λ c. c.closed_at) (filter (is_in_range range) a.closes)));
  synchronizing = false;
}

-- `getTradeHistory`
unfoldable pub get_trade_history : ℕ → HistoryRange → MockBroker → Result AccountTradeHistory
unfolding require history_of
get_trade_history id range b = query id (history_of range) b

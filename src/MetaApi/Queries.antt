-- ===== src/MetaApi/Queries.antt =====
-- The queries of an account: figures, positions, symbols and history.
use copytrade_dashboard.Base.{
  ℕ, Bool, true, false, not, ◌||◌, Option, none, some, List, [], filter, map, if◌then◌else◌,
}
use copytrade_dashboard.Text.{Text, text_eq}
use copytrade_dashboard.Types.{
  Platform, OrderType, AccountInfo, ProviderPosition, SymbolSpec, ClosedPositionResult,
  HistoryRange, AccountTradeHistory,
}
use copytrade_dashboard.Mock.State.{codes}
use copytrade_dashboard.MetaApi.Sdk.{
  RemoteInfo, RemotePosition, RemoteSymbol, Deal, Deals, Call, Sdk, Adapter, ◌>>=◌, ◌>>◌, pure,
  try_catch, remotely,
}
use copytrade_dashboard.MetaApi.Codes.{connection_error}
use copytrade_dashboard.MetaApi.Session.{connection}
use copytrade_dashboard.MetaApi.Account.{position_mode_of, or_error}
use copytrade_dashboard.MetaApi.Deals.{is_exit, last_of, closed_with, group_deals_into_trades}

abbrev platform_of : Text → Platform
platform_of s = if text_eq s (codes "mt4") then Platform.mt4 else Platform.mt5

abbrev account_info_of : RemoteInfo → AccountInfo
account_info_of info = record {
  balance = info.balance;
  equity = info.equity;
  margin = info.margin;
  free_margin = info.free_margin;
  currency = info.currency;
  position_mode = position_mode_of (platform_of info.platform) info.margin_mode;
}

-- `a ?? b`
abbrev or_other : Option ℕ → Option ℕ → Option ℕ
or_other none b = b
or_other (some a) b = some a

-- `toProviderPosition`: the correlation id was sent as the client id.
unfoldable pub to_provider_position : RemotePosition → ProviderPosition
to_provider_position p = record {
  ticket = p.id;
  symbol = p.symbol;
  order_type =
      if text_eq p.kind (codes "POSITION_TYPE_SELL") then OrderType.sell else OrderType.buy;
  volume = p.volume;
  open_price = p.open_price;
  current_price = p.current_price;
  sl = p.stop_loss;
  tp = p.take_profit;
  profit = p.profit;
  opened_at = p.time;
  comment = or_other p.client_id p.comment;
}

abbrev is_tradable : Option Text → Bool
is_tradable none = true
is_tradable (some mode) = not (text_eq mode (codes "DISABLED") || text_eq mode (codes "CLOSEONLY"))

unfoldable pub symbol_spec_of : Option RemoteSymbol → Option SymbolSpec
symbol_spec_of none = none
symbol_spec_of (some x) = some (record {
  symbol = x.symbol;
  min_lot = x.min_volume;
  max_lot = x.max_volume;
  lot_step = x.volume_step;
  digits = x.digits;
  trade_allowed = is_tradable x.trade_mode;
})

-- `response?.deals ?? []` and `response?.synchronizing === true`
abbrev deals_of : Option Deals → List Deal
deals_of none = []
deals_of (some r) = r.deals

abbrev is_synchronizing : Option Deals → Bool
is_synchronizing none = false
is_synchronizing (some r) = r.synchronizing

abbrev limit_or : ℕ → Option ℕ → ℕ
limit_or n none = n
limit_or n (some m) = m

-- The result of a closed position, if some deal closed it.
unfoldable pub closed_position_of : ℕ → List Deal → Option ClosedPositionResult
unfolding closed_with
closed_position_of ticket deals = closed_with ticket deals (last_of (filter is_exit deals))

module _ {S : Type 0} (api : Sdk S) where
  unfoldable pub get_account_info : ℕ → Call (Adapter S) AccountInfo
  unfolding connection position_mode_of
  get_account_info id = do
    connection api id
    info ← or_error connection_error (remotely (api.get_account_information id))
    pure (account_info_of info)

  unfoldable pub get_positions : ℕ → Call (Adapter S) (List ProviderPosition)
  unfolding connection to_provider_position
  get_positions id = do
    connection api id
    positions ← or_error connection_error (remotely (api.get_positions id))
    pure (map to_provider_position positions)

  -- A symbol that the broker does not offer is no error.
  unfoldable pub get_symbol_spec : ℕ → Text → Call (Adapter S) (Option SymbolSpec)
  unfolding connection symbol_spec_of
  get_symbol_spec id symbol = do
    connection api id
    spec ← try_catch (remotely (api.get_symbol_specification id symbol)) (λ e. pure none)
    pure (symbol_spec_of spec)

  -- A failed look-up of the deals leaves the figure open. Then there are no deals here, and no result.
  unfoldable pub get_closed_position : ℕ → ℕ → Call (Adapter S) (Option ClosedPositionResult)
  unfolding connection closed_position_of
  get_closed_position id ticket = do
    connection api id
    response ← try_catch (remotely (api.get_deals_by_position id ticket)) (λ e. pure none)
    pure (closed_position_of ticket (deals_of response))

  unfoldable pub get_trade_history : ℕ → HistoryRange → Call (Adapter S) AccountTradeHistory
  unfolding connection group_deals_into_trades
  get_trade_history id range = do
    connection api id
    response ← or_error connection_error (
        remotely (
          api.get_deals_by_time_range id range.from_time range.to_time (limit_or 1000 range.limit)))
    pure (record {
      trades = group_deals_into_trades (deals_of response) (limit_or 500 range.limit);
      synchronizing = is_synchronizing response;
    })

-- ===== src/MetaApi/Trading.antt =====
-- The orders of an account.
use copytrade_dashboard.Base.{ℕ, Bool, true, false, Option, none, some, ltb, ◌==◌, if◌then◌else◌}
use copytrade_dashboard.Number.Defs.{Number}
use copytrade_dashboard.Types.{
  OrderType, OpenPositionRequest, ModifyPositionRequest, ClosePositionRequest, OrderResult,
  ErrorCode,
}
use copytrade_dashboard.MetaApi.Sdk.{
  Fault, app, sdk, TradeResponse, MarketOrder, Call, Sdk, Adapter, ◌>>=◌, ◌>>◌, pure, throw,
  try_catch, remotely,
}
use copytrade_dashboard.MetaApi.Codes.{map_trade_error_code, is_trade_error, connection_error}
use copytrade_dashboard.MetaApi.Session.{connection}

-- `a || b || c`, where an empty id is none.
abbrev pub first_id : Option ℕ → Option ℕ → Option ℕ → Option ℕ
first_id (some a) b c = some a
first_id none (some b) c = some b
first_id none none c = c

abbrev pub filled : Option ℕ → TradeResponse → OrderResult
filled fallback response = record {
  executed = true;
  ticket = first_id response.position_id fallback response.order_id;
  remainder_ticket = none;
  price = none;
  volume = none;
  error_code = none;
}

abbrev pub rejected : ErrorCode → OrderResult
rejected code = record {
  executed = false;
  ticket = none;
  remainder_ticket = none;
  price = none;
  volume = none;
  error_code = some code;
}

-- The answer, with the response behind it (`raw`).
abbrev pub Outcome : Type 0
Outcome = OrderResult × Option TradeResponse

module _ {S : Type 0} where
  -- A rejection becomes a result; any other error is thrown on, to be retried.
  unfoldable pub trade_failed : Fault → Call (Adapter S) Outcome
  trade_failed (app code) = throw (app code)
  trade_failed (sdk e) =
      if is_trade_error e
      then pure (rejected (map_trade_error_code e.string_code e.numeric_code), none)
      else throw (connection_error (sdk e))

  unfoldable pub trade : Call S TradeResponse → Option ℕ → Call (Adapter S) Outcome
  unfolding trade_failed
  trade send fallback =
      try_catch (remotely send >>= λ response. pure (filled fallback response, some response))
        trade_failed

abbrev slippage_of : Option ℕ → Option ℕ
slippage_of none = none
slippage_of (some points) = if ltb 0 points then some points else none

abbrev is_plain_buy : OrderType → Bool
is_plain_buy OrderType.buy = true
is_plain_buy _ = false

abbrev pub market_order : OpenPositionRequest → MarketOrder
market_order r = record {
  is_buy = is_plain_buy r.order_type;
  symbol = r.symbol;
  volume = r.volume;
  sl = r.sl;
  tp = r.tp;
  client_id = r.client_id;
  slippage = slippage_of r.slippage_points;
}

-- The result of a partial close: another position in the response is the remainder.
abbrev pub remainder_of : ℕ → Option TradeResponse → Option ℕ
remainder_of ticket none = none
remainder_of ticket (some response) = elim response.position_id [
  | none ↦ none
  | some k ↦ if k == ticket then none else some k
]

unfoldable pub closed_part : ℕ → Option Number → Outcome → OrderResult
closed_part ticket none (result, raw) = result
closed_part ticket (some volume) (result, raw) =
    if result.executed
    then record result {
      ticket = some ticket;
      remainder_ticket = remainder_of ticket raw;
      volume = some volume;
    }
    else result

module _ {S : Type 0} (api : Sdk S) where
  -- `fillDetails`: the position as it was filled, if it can be read.
  unfoldable pub fill_details : ℕ → ℕ → Number → OrderResult → Call (Adapter S) OrderResult
  fill_details id ticket requested result =
      try_catch
        (remotely (api.get_position id ticket) >>= λ p.
          pure (record result { price = some p.open_price; volume = some p.volume }))
        (λ e. pure (record result { volume = some requested }))

  unfoldable pub with_details :
      ℕ → Number → Bool → Option ℕ → OrderResult → Call (Adapter S) OrderResult
  unfolding fill_details
  with_details id requested true (some ticket) result = fill_details id ticket requested result
  with_details id requested _ _ result = pure result

  unfoldable pub open_position : ℕ → OpenPositionRequest → Call (Adapter S) OrderResult
  unfolding connection trade with_details
  open_position id r = do
    connection api id
    outcome ← trade (api.create_market_order id (market_order r)) none
    with_details id r.volume outcome.0.executed outcome.0.ticket outcome.0

  unfoldable pub modify_position : ℕ → ModifyPositionRequest → Call (Adapter S) OrderResult
  unfolding connection trade
  modify_position id r = do
    connection api id
    outcome ← trade (api.modify_position id r.ticket r.sl r.tp) (some r.ticket)
    pure outcome.0

  abbrev pub close_call : ℕ → ℕ → Option Number → Call S TradeResponse
  close_call id ticket none = api.close_position id ticket
  close_call id ticket (some volume) = api.close_position_partially id ticket volume

  unfoldable pub close_position : ℕ → ClosePositionRequest → Call (Adapter S) OrderResult
  unfolding connection trade closed_part
  close_position id r = do
    connection api id
    outcome ← trade (close_call id r.ticket r.volume) (some r.ticket)
    pure (closed_part r.ticket r.volume outcome)

-- ===== src/Types.antt =====
-- The trading types that every part shares: the enums of the database schema and
-- src/types/trading.ts. Ids, tickets and times are only compared or copied, so they are numbers.
use copytrade_dashboard.Base.{ℕ, Bool, true, false, Option, List}
use copytrade_dashboard.Number.Defs.{Number}
use copytrade_dashboard.Text.{Text}

pub data Platform : Type 0 where
  mt4 mt5 : Platform

pub data PositionMode : Type 0 where
  hedging netting : PositionMode

pub data OrderType : Type 0 where
  buy sell buy_limit sell_limit buy_stop sell_stop : OrderType

pub data EventType : Type 0 where
  open_trade modify close partial_close pending_order delete_pending : EventType

pub data LotMode : Type 0 where
  fixed multiplier balance_ratio risk_percent : LotMode

pub data PositionStatus : Type 0 where
  opened closed partially_closed pending cancelled : PositionStatus

pub data CloseReason : Type 0 where
  stop_loss take_profit copied_close manual other : CloseReason

pub data ConnectionStatus : Type 0 where
  disconnected connecting connected error : ConnectionStatus

pub data CopyStatus : Type 0 where
  idle copying paused stopped error : CopyStatus

-- The codes of `ErrorCode` (src/lib/errors.ts).
pub data ErrorCode : Type 0 where
  unauthorized forbidden invalid_credentials account_locked rate_limited : ErrorCode
  validation_error not_found conflict invalid_signature stale_request duplicate_event : ErrorCode
  platform_connection_error broker_auth_failed platform_not_supported invalid_symbol : ErrorCode
  insufficient_margin market_closed invalid_volume invalid_stops timeout provider_error : ErrorCode
  position_not_found risk_limit_reached plan_limit_reached internal_error : ErrorCode

pub record ConnectionResult : Type 0 where
  pub provider_account_id : ℕ
  pub platform : Platform
  pub position_mode : PositionMode
  pub currency : Text
  pub balance : Number
  pub min_lot : Number
  pub max_lot : Number
  pub lot_step : Number

pub record AccountInfo : Type 0 where
  pub balance : Number
  pub equity : Number
  pub margin : Number
  pub free_margin : Number
  pub currency : Text
  pub position_mode : PositionMode

pub record ProviderPosition : Type 0 where
  pub ticket : ℕ
  pub symbol : Text
  pub order_type : OrderType
  pub volume : Number
  pub open_price : Number
  pub current_price : Number
  pub sl : Option Number
  pub tp : Option Number
  pub profit : Number
  pub opened_at : ℕ
  pub comment : Option ℕ

pub record OpenPositionRequest : Type 0 where
  pub symbol : Text
  pub order_type : OrderType
  pub volume : Number
  pub sl : Option Number
  pub tp : Option Number
  pub slippage_points : Option ℕ
  pub client_id : ℕ

pub record ModifyPositionRequest : Type 0 where
  pub ticket : ℕ
  pub sl : Option Number
  pub tp : Option Number

pub record ClosePositionRequest : Type 0 where
  pub ticket : ℕ
  pub volume : Option Number

-- The field `raw` of a response is only stored for support, and is left out.
pub record OrderResult : Type 0 where
  pub executed : Bool
  pub ticket : Option ℕ
  pub remainder_ticket : Option ℕ
  pub price : Option Number
  pub volume : Option Number
  pub error_code : Option ErrorCode

pub record ClosedPositionResult : Type 0 where
  pub ticket : ℕ
  pub close_price : Option Number
  pub profit : Number
  pub volume : Option Number
  pub closed_at : Option ℕ
  pub reason : Option CloseReason

pub record SymbolSpec : Type 0 where
  pub symbol : Text
  pub min_lot : Number
  pub max_lot : Number
  pub lot_step : Number
  pub digits : ℕ
  pub trade_allowed : Bool

-- `orderType.startsWith("BUY")`
abbrev pub is_buy : OrderType → Bool
is_buy OrderType.buy = true
is_buy OrderType.buy_limit = true
is_buy OrderType.buy_stop = true
is_buy _ = false

-- Membership in `PENDING_TYPES` (src/services/risk/risk-engine.ts).
abbrev pub is_pending_type : OrderType → Bool
is_pending_type OrderType.buy = false
is_pending_type OrderType.sell = false
is_pending_type _ = true

pub record AccountTrade : Type 0 where
  pub ticket : ℕ
  pub symbol : Text
  pub order_type : OrderType
  pub volume : Number
  pub open_price : Option Number
  pub close_price : Option Number
  pub profit : Number
  pub commission : Option Number
  pub swap : Option Number
  pub opened_at : Option ℕ
  pub closed_at : ℕ
  pub reason : Option CloseReason

pub record AccountTradeHistory : Type 0 where
  pub trades : List AccountTrade
  pub synchronizing : Bool

-- The range that is asked for, both ends included.
pub record HistoryRange : Type 0 where
  pub from_time : ℕ
  pub to_time : ℕ
  pub limit : Option ℕ

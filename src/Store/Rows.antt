-- ===== src/Store/Rows.antt =====
-- The rows of the tables (prisma/schema.prisma) with the columns that the engine reads or writes.
-- Texts of messages, latencies and stored payloads are left out.
use copytrade_dashboard.Base.{ℕ, Bool, Option, List}
use copytrade_dashboard.Base.Int.{ℤ}
use copytrade_dashboard.Number.Defs.{Number}
use copytrade_dashboard.Text.{Text}
use copytrade_dashboard.Types.{
  Platform, OrderType, EventType, LotMode, PositionStatus, CloseReason, ConnectionStatus,
  CopyStatus, ErrorCode,
}
use copytrade_dashboard.Lot.{LotCode}
use copytrade_dashboard.Risk.{RiskReason}

pub data EventStatus : Type 0 where
  received queued processing processed failed : EventStatus

pub data CopyTradeStatus : Type 0 where
  pending success failed retrying skipped : CopyTradeStatus

pub data SubscriptionStatus : Type 0 where
  active paused cancelled : SubscriptionStatus

pub record TradeEvent : Type 0 where
  pub event_id : ℕ
  pub strategy_id : ℕ
  pub master_trade_id : Option ℕ
  pub event_type : EventType
  pub ticket : ℕ
  pub symbol : Text
  pub order_type : OrderType
  pub volume : Number
  pub price : Number
  pub sl : Option Number
  pub tp : Option Number
  pub master_balance : Option Number
  pub close_fraction : Option Number
  pub status : EventStatus
  pub processed_at : Option ℕ
  pub fan_out_count : ℕ

pub record CopySettings : Type 0 where
  pub lot_mode : LotMode
  pub fixed_lot : Number
  pub multiplier : Number
  pub balance_ratio : Number
  pub risk_percent : Number
  pub max_lot : Number
  pub min_lot : Number
  pub allow_min_lot_rounding : Bool
  pub copy_buy : Bool
  pub copy_sell : Bool
  pub copy_sl : Bool
  pub copy_tp : Bool
  pub copy_pending_orders : Bool
  pub max_open_trades : ℕ
  pub allowed_symbols : List Text
  pub slippage_points : ℕ

pub record RiskProfile : Type 0 where
  pub max_daily_loss : Number
  pub max_daily_loss_pct : Number
  pub max_drawdown_pct : Number
  pub max_lot_per_trade : Number
  pub max_total_lot : Number
  pub stop_copy_on_breach : Bool

pub record TradingAccount : Type 0 where
  pub id : ℕ
  pub user_id : ℕ
  pub platform : Platform
  pub login : ℕ
  pub encrypted_password : Option ℕ
  pub provider_account_id : Option ℕ
  pub connection_status : ConnectionStatus
  pub copy_status : CopyStatus
  pub broker_min_lot : Number
  pub broker_max_lot : Number
  pub broker_lot_step : Number
  pub balance : Number
  pub equity : Number
  pub peak_equity : Number
  pub open_trades : ℤ

pub record Subscription : Type 0 where
  pub id : ℕ
  pub user_id : ℕ
  pub strategy_id : ℕ
  pub account_id : ℕ
  pub status : SubscriptionStatus
  pub copy_status : CopyStatus
  pub paused_at : Option ℕ
  pub copy_settings : Option CopySettings
  pub risk_profile : Option RiskProfile

-- Why a copy was skipped, one constructor for each reason text.
pub data SkipReason : Type 0 where
  no_settings no_open_position : SkipReason
  not_tradable : Text → SkipReason
  lot_refused : LotCode → SkipReason
  risk_refused : RiskReason → SkipReason

-- The `errorCode` of a copy: a code of `ErrorCode`, or the risk engine's "SKIPPED".
pub data CopyErrorCode : Type 0 where
  of_code : ErrorCode → CopyErrorCode
  skipped_code : CopyErrorCode

pub record CopyTrade : Type 0 where
  pub id : ℕ
  pub event_id : ℕ
  pub strategy_id : ℕ
  pub subscription_id : ℕ
  pub account_id : ℕ
  pub master_trade_id : Option ℕ
  pub event_type : EventType
  pub master_ticket : ℕ
  pub master_symbol : Text
  pub member_symbol : Text
  pub order_type : OrderType
  pub master_volume : Number
  pub member_volume : Number
  pub master_price : Number
  pub member_price : Option Number
  pub member_ticket : Option ℕ
  pub sl : Option Number
  pub tp : Option Number
  pub status : CopyTradeStatus
  pub attempts : ℕ
  pub skip_reason : Option SkipReason
  pub error_code : Option CopyErrorCode
  pub executed_at : Option ℕ

pub record PositionMapping : Type 0 where
  pub id : ℕ
  pub master_trade_id : Option ℕ
  pub subscription_id : ℕ
  pub account_id : ℕ
  pub master_ticket : ℕ
  pub member_ticket : ℕ
  pub ticket_history : List ℕ
  pub symbol : Text
  pub order_type : OrderType
  pub volume : Number
  pub open_price : Number
  pub sl : Option Number
  pub tp : Option Number
  pub status : PositionStatus
  pub closed_at : Option ℕ
  pub close_price : Option Number
  pub profit : Option Number
  pub close_reason : Option CloseReason

pub record RiskState : Type 0 where
  pub account_id : ℕ
  pub trading_day : ℕ
  pub daily_start_equity : Number
  pub daily_realized_pnl : Number
  pub breached : Bool
  pub breach_reason : Option RiskReason
  pub breached_at : Option ℕ

pub record SymbolMapping : Type 0 where
  pub master_symbol : Text
  pub member_symbol : Text
  pub enabled : Bool
  pub account_id : Option ℕ
  pub strategy_id : Option ℕ

-- What leaves the engine besides its tables: audit entries, live events, notices, system errors.
pub data Effect : Type 0 where
  trade_copied trade_failed : ℕ → ℕ → Effect
  risk_triggered : ℕ → ℕ → RiskReason → Effect
  copy_trade_published : ℕ → CopyTradeStatus → Text → Number → Effect
  risk_breach_published : ℕ → RiskReason → Effect
  breach_notified : ℕ → RiskReason → Effect
  system_error : ErrorCode → ℕ → ℕ → Effect

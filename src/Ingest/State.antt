-- ===== src/Ingest/State.antt =====
-- Strategies, master trades, and what the ingest keeps.
use copytrade_dashboard.Base.{ℕ, Bool, Option, List}
use copytrade_dashboard.Number.Defs.{Number}
use copytrade_dashboard.Text.{Text}
use copytrade_dashboard.Types.{EventType, OrderType, PositionStatus}
use copytrade_dashboard.Store.Rows.{TradeEvent}

pub data StrategyStatus : Type 0 where
  draft active paused stopped archived : StrategyStatus

pub data StrategyOwner : Type 0 where
  platform provider : StrategyOwner

pub record Strategy : Type 0 where
  pub id : ℕ
  pub code : Text
  pub owner_type : StrategyOwner
  pub status : StrategyStatus

pub record MasterTrade : Type 0 where
  pub id : ℕ
  pub strategy_id : ℕ
  pub ticket : ℕ
  pub symbol : Text
  pub order_type : OrderType
  pub volume : Number
  pub open_price : Number
  pub close_price : Option Number
  pub sl : Option Number
  pub tp : Option Number
  pub profit : Option Number
  pub status : PositionStatus
  pub opened_at : ℕ
  pub closed_at : Option ℕ

-- The validated payload, without the columns that only a support view reads.
pub record MasterEventInput : Type 0 where
  pub event_id : ℕ
  pub event_type : EventType
  pub ticket : ℕ
  pub symbol : Text
  pub order_type : OrderType
  pub volume : Number
  pub price : Number
  pub sl : Option Number
  pub tp : Option Number
  pub profit : Option Number
  pub master_balance : Option Number
  pub timestamp : ℕ

-- The nonces and the jobs are in Redis, which may be down; the rest is in the database.
pub record Inbox : Type 0 where
  pub redis_up : Bool
  pub nonces : List ℕ
  pub jobs : List ℕ
  pub trades : List MasterTrade
  pub events : List TradeEvent
  pub next_id : ℕ
  pub now : ℕ

pub data IngestResult : Type 0 where
  queued duplicate ignored : IngestResult

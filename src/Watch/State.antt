-- ===== src/Watch/State.antt =====
-- The strategies that are watched, the result of a poll, and a change to publish.
use copytrade_dashboard.Base.{ℕ, Bool, false, Option, List, find, ◌==◌}
use copytrade_dashboard.Number.Defs.{Number}
use copytrade_dashboard.Text.{Text}
use copytrade_dashboard.Types.{EventType, OrderType}
use copytrade_dashboard.Store.Monad.{Action}
use copytrade_dashboard.Store.Tables.{World}
use copytrade_dashboard.Ingest.State.{Strategy, Inbox}

pub record WatchedStrategy : Type 0 where
  pub strategy : Strategy
  pub master_account_id : Option ℕ
  pub watch_started_at : Option ℕ
  pub watch_last_poll_at : Option ℕ

pub record WatchResult : Type 0 where
  pub strategy_id : ℕ
  pub baseline : Bool
  pub opened : ℕ
  pub modified : ℕ
  pub partially_closed : ℕ
  pub closed : ℕ
  pub skipped : ℕ

-- `empty`
abbrev pub empty : ℕ → WatchResult
empty strategy_id = record {
  strategy_id = strategy_id;
  baseline = false;
  opened = 0;
  modified = 0;
  partially_closed = 0;
  closed = 0;
  skipped = 0;
}

-- What makes a change distinct: the text after the ticket in the event's id, by its numbers.
pub data Detail : Type 0 where
  entry : Number → Number → Detail
  shrink : Number → Number → Detail
  stops : Number → Number → Detail
  gone : Detail

pub record Change : Type 0 where
  pub event_type : EventType
  pub ticket : ℕ
  pub symbol : Text
  pub order_type : OrderType
  pub volume : Number
  pub price : Number
  pub sl : Option Number
  pub tp : Option Number
  pub profit : Option Number
  pub detail : Detail
  pub occurred_at : Option ℕ

-- The strategies, the ingest with the master trades, and the accounts with their broker.
pub record Watchtower (B : Type 0) : Type 0 where
  pub strategies : List WatchedStrategy
  pub inbox : Inbox
  pub world : World B

module _ {B : Type 0} where
  abbrev pub in_world : {A : Type 0} → Action (World B) A → Action (Watchtower B) A
  in_world m s = let (r, w) = m s.world in (r, record s { world = w })

  abbrev pub in_inbox : {A : Type 0} → Action Inbox A → Action (Watchtower B) A
  in_inbox m s = let (r, w) = m s.inbox in (r, record s { inbox = w })

  abbrev pub find_watched : ℕ → Watchtower B → Option WatchedStrategy
  find_watched id s = find (λ x. x.strategy.id == id) s.strategies

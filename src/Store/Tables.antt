-- ===== src/Store/Tables.antt =====
-- The tables and the broker as one state, and queries on a table.
use copytrade_dashboard.Base.{ℕ, ◌-◌, ◌%◌, Bool, Option, List, [], ◌∷◌, if◌then◌else◌}
use copytrade_dashboard.Types.{
  AccountInfo, ProviderPosition, ConnectionResult, OpenPositionRequest, ModifyPositionRequest,
  ClosePositionRequest, OrderResult, ClosedPositionResult, SymbolSpec,
}
use copytrade_dashboard.Text.{Text}
use copytrade_dashboard.Store.Rows.{
  TradeEvent, TradingAccount, Subscription, CopyTrade, PositionMapping, RiskState, SymbolMapping,
  Effect,
}
use copytrade_dashboard.Store.Monad.{Result}

-- `ITradeProvider` over a broker state `B`: queries read the broker, orders change it.
pub record TradeProvider (B : Type 0) : Type 0 where
  pub get_account_info : ℕ → B → Result AccountInfo
  pub get_positions : ℕ → B → Result (List ProviderPosition)
  pub get_symbol_spec : ℕ → Text → B → Result (Option SymbolSpec)
  pub get_closed_position : ℕ → ℕ → B → Result (Option ClosedPositionResult)
  pub connect_account : TradingAccount → B → Result ConnectionResult × B
  pub open_position : ℕ → OpenPositionRequest → B → Result OrderResult × B
  pub modify_position : ℕ → ModifyPositionRequest → B → Result OrderResult × B
  pub close_position : ℕ → ClosePositionRequest → B → Result OrderResult × B

-- `next_id` is the id of the next row, `now` the clock in milliseconds.
pub record World (B : Type 0) : Type 0 where
  pub events : List TradeEvent
  pub subscriptions : List Subscription
  pub accounts : List TradingAccount
  pub copy_trades : List CopyTrade
  pub mappings : List PositionMapping
  pub risk_states : List RiskState
  pub symbol_mappings : List SymbolMapping
  pub outbox : List Effect
  pub next_id : ℕ
  pub now : ℕ
  pub broker : B

module _ {R : Type 0} where
  -- `update({ where, data })` on every row that fits.
  abbrev pub update_where : (R → Bool) → (R → R) → List R → List R
  update_where p f [] = []
  update_where p f (r ∷ rs) = (if p r then f r else r) ∷ update_where p f rs

-- `date.setUTCHours(0, 0, 0, 0)`
abbrev pub start_of_day : ℕ → ℕ
start_of_day now = now - now % 86400000

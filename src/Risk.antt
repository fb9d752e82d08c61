-- ===== src/Risk.antt =====
-- Whether one order may be placed: src/services/risk/risk-engine.ts.
pub mod Spec
pub mod Monotone
mod Tests
use copytrade_dashboard.Base.{
  ℕ, Bool, true, false, not, ◌&&◌, ◌||◌, ◌≡◌, List, [], ◌∷◌, leb, any, if◌then◌else◌,
}
use copytrade_dashboard.Number.Defs.{
  Number, is_less, is_at_most, of_nat, add, subtract, multiply, divide,
}
use copytrade_dashboard.Text.{Text, text_eq, to_upper}
use copytrade_dashboard.Types.{OrderType, is_buy, is_pending_type}

pub record RiskContext : Type 0 where
  pub symbol : Text
  pub order_type : OrderType
  pub volume : Number
  pub allowed_symbols : List Text
  pub copy_buy : Bool
  pub copy_sell : Bool
  pub copy_pending_orders : Bool
  pub max_open_trades : ℕ
  pub max_daily_loss : Number
  pub max_daily_loss_pct : Number
  pub max_drawdown_pct : Number
  pub max_lot_per_trade : Number
  pub max_total_lot : Number
  pub open_trades : ℕ
  pub open_volume : Number
  pub equity : Number
  pub peak_equity : Number
  pub daily_start_equity : Number
  pub daily_realized_pnl : Number
  pub already_breached : Bool

pub data RiskCode : Type 0 where
  risk_limit_reached skipped : RiskCode

-- One constructor for each reason text.
pub data RiskReason : Type 0 where
  earlier_breach pending_not_copied buy_not_copied sell_not_copied symbol_not_allowed : RiskReason
  max_open_trades_reached lot_per_trade_exceeded total_lot_exceeded : RiskReason
  daily_loss_reached daily_loss_pct_reached drawdown_reached : RiskReason

-- A refusal has a code, a reason, and whether it pauses copying.
pub data RiskDecision : Type 0 where
  allowed : RiskDecision
  refused : RiskCode → RiskReason → Bool → RiskDecision

abbrev pub zero_limit : Number
zero_limit = of_nat 0

-- A limit of zero or less is disabled.
abbrev pub is_set : Number → Bool
is_set limit = is_less zero_limit limit

abbrev is_empty : List Text → Bool
is_empty [] = true
is_empty (_ ∷ _) = false

-- The test of the symbol against the list of the member; an empty list allows every symbol.
unfoldable pub symbol_refused : RiskContext → Bool
symbol_refused c =
    not (is_empty c.allowed_symbols) && not (any (text_eq (to_upper c.symbol)) c.allowed_symbols)

unfoldable pub daily_loss : RiskContext → Number
daily_loss c = subtract c.daily_start_equity c.equity

-- `part / whole * 100`
unfoldable pub percent_of : Number → Number → Number
percent_of part whole = multiply (divide part whole) (of_nat 100)

unfoldable pub loss_pct : RiskContext → Number
unfolding daily_loss percent_of
loss_pct c = percent_of (daily_loss c) c.daily_start_equity

unfoldable pub drawdown_pct : RiskContext → Number
unfolding percent_of
drawdown_pct c = percent_of (subtract c.peak_equity c.equity) c.peak_equity

-- The three limits on the account's losses.
abbrev pub reaches_daily_loss : RiskContext → Bool
reaches_daily_loss c = is_set c.max_daily_loss && is_at_most c.max_daily_loss (daily_loss c)

abbrev pub reaches_daily_loss_pct : RiskContext → Bool
reaches_daily_loss_pct c =
    is_set c.max_daily_loss_pct
    && is_set c.daily_start_equity
    && is_at_most c.max_daily_loss_pct (loss_pct c)

abbrev pub reaches_drawdown : RiskContext → Bool
reaches_drawdown c =
    is_set c.max_drawdown_pct
    && is_set c.peak_equity
    && is_at_most c.max_drawdown_pct (drawdown_pct c)

-- The breaches of the account, which pause copying.
unfoldable pub check_account : RiskContext → RiskDecision
check_account c =
    if reaches_daily_loss c
    then refused risk_limit_reached daily_loss_reached true
    else if reaches_daily_loss_pct c
    then refused risk_limit_reached daily_loss_pct_reached true
    else if reaches_drawdown c
    then refused risk_limit_reached drawdown_reached true
    else allowed

-- The limits on the trade's size and number.
unfoldable pub check_exposure : RiskContext → RiskDecision
check_exposure c =
    if leb c.max_open_trades c.open_trades
    then refused risk_limit_reached max_open_trades_reached false
    else if is_set c.max_lot_per_trade && is_less c.max_lot_per_trade c.volume
    then refused risk_limit_reached lot_per_trade_exceeded false
    else if is_set c.max_total_lot && is_less c.max_total_lot (add c.open_volume c.volume)
    then refused risk_limit_reached total_lot_exceeded false
    else check_account c

unfoldable pub evaluate_risk : RiskContext → RiskDecision
evaluate_risk c =
    if c.already_breached
    then refused risk_limit_reached earlier_breach false
    else if is_pending_type c.order_type && not c.copy_pending_orders
    then refused skipped pending_not_copied false
    else if is_buy c.order_type && not c.copy_buy
    then refused skipped buy_not_copied false
    else if not (is_buy c.order_type) && not c.copy_sell
    then refused skipped sell_not_copied false
    else if symbol_refused c
    then refused skipped symbol_not_allowed false
    else check_exposure c

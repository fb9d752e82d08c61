-- ===== src/Engine/Open/Request.antt =====
-- What `openForMember` derives from its context: the inputs of the calculator and of the risk
-- engine, the order, and the rows that it writes.
use copytrade_dashboard.Base.{
  ℕ, ◌+◌, Bool, true, false, ◌||◌, Option, none, some, List, [], ◌∷◌, length, ◌==◌, if◌then◌else◌,
}
use copytrade_dashboard.Number.Defs.{Number, of_nat, min_of, max_of, add, subtract, absolute}
use copytrade_dashboard.Text.{Text, text_eq}
use copytrade_dashboard.Types.{
  ProviderPosition, OpenPositionRequest, OrderResult, SymbolSpec, ErrorCode, provider_error,
}
use copytrade_dashboard.Lot.{LotInputs}
use copytrade_dashboard.Risk
use copytrade_dashboard.Risk.{RiskContext, RiskCode}
use copytrade_dashboard.Store.Rows.{
  TradeEvent, TradingAccount, Subscription, CopySettings, RiskProfile, RiskState, CopyTrade,
  CopyTradeStatus, CopyErrorCode, of_code, skipped_code,
}
use copytrade_dashboard.Engine.Records.{or_else}

-- `MemberContext`: the event and one of its subscriptions, with the account as it was read and the
-- provider's id of the session.
pub record MemberContext : Type 0 where
  pub event : TradeEvent
  pub subscription : Subscription
  pub account : TradingAccount
  pub provider_account_id : ℕ

-- The key of `CONTRACT_SIZES` and its value.
abbrev xauusd : Text
xauusd = b'X' ∷ b'A' ∷ b'U' ∷ b'U' ∷ b'S' ∷ b'D' ∷ []

abbrev xagusd : Text
xagusd = b'X' ∷ b'A' ∷ b'G' ∷ b'U' ∷ b'S' ∷ b'D' ∷ []

abbrev btcusd : Text
btcusd = b'B' ∷ b'T' ∷ b'C' ∷ b'U' ∷ b'S' ∷ b'D' ∷ []

abbrev us30 : Text
us30 = b'U' ∷ b'S' ∷ b'3' ∷ b'0' ∷ []

abbrev nas100 : Text
nas100 = b'N' ∷ b'A' ∷ b'S' ∷ b'1' ∷ b'0' ∷ b'0' ∷ []

-- `CONTRACT_SIZES[symbol] ?? 100_000`
unfoldable pub contract_size : Text → Number
contract_size symbol =
    if text_eq symbol xauusd
    then of_nat 100
    else if text_eq symbol xagusd
    then of_nat 5000
    else if text_eq symbol btcusd || text_eq symbol us30 || text_eq symbol nas100
    then of_nat 1
    else of_nat 100000

-- `event.sl ? Math.abs(price - sl) : null`
abbrev pub stop_distance : TradeEvent → Option Number → Option Number
stop_distance event none = none
stop_distance event (some sl) = some (absolute (subtract event.price sl))

unfoldable pub lot_inputs : MemberContext → CopySettings → SymbolSpec → Text → LotInputs
lot_inputs c settings spec symbol = record {
  mode = settings.lot_mode;
  master_volume = c.event.volume;
  fixed_lot = settings.fixed_lot;
  multiplier = settings.multiplier;
  balance_ratio = settings.balance_ratio;
  risk_percent = settings.risk_percent;
  min_lot = settings.min_lot;
  max_lot = settings.max_lot;
  broker_min_lot = max_of c.account.broker_min_lot spec.min_lot;
  broker_max_lot = min_of c.account.broker_max_lot spec.max_lot;
  broker_lot_step = max_of c.account.broker_lot_step spec.lot_step;
  allow_min_lot_rounding = settings.allow_min_lot_rounding;
  member_balance = c.account.balance;
  member_equity = c.account.equity;
  master_balance = c.event.master_balance;
  stop_distance = stop_distance c.event c.event.sl;
  contract_size = some (contract_size symbol);
}

abbrev total_volume : Number → List ProviderPosition → Number
total_volume total [] = total
total_volume total (p ∷ ps) = total_volume (add total p.volume) ps

-- `toNumber(risk?.limit ?? 0)`
abbrev pub limit_or_zero : (RiskProfile → Number) → Option RiskProfile → Number
limit_or_zero limit none = of_nat 0
limit_or_zero limit (some risk) = limit risk

unfoldable pub risk_context :
    MemberContext → CopySettings → Text → Number → List ProviderPosition → RiskState → RiskContext
risk_context c settings symbol volume positions state =
    let risk = c.subscription.risk_profile in
    record {
      symbol = symbol;
      order_type = c.event.order_type;
      volume = volume;
      allowed_symbols = settings.allowed_symbols;
      copy_buy = settings.copy_buy;
      copy_sell = settings.copy_sell;
      copy_pending_orders = settings.copy_pending_orders;
      max_open_trades = settings.max_open_trades;
      max_daily_loss = limit_or_zero (λ r. r.max_daily_loss) risk;
      max_daily_loss_pct = limit_or_zero (λ r. r.max_daily_loss_pct) risk;
      max_drawdown_pct = limit_or_zero (λ r. r.max_drawdown_pct) risk;
      max_lot_per_trade = limit_or_zero (λ r. r.max_lot_per_trade) risk;
      max_total_lot = limit_or_zero (λ r. r.max_total_lot) risk;
      open_trades = length positions;
      open_volume = total_volume (of_nat 0) positions;
      equity = c.account.equity;
      peak_equity = c.account.peak_equity;
      daily_start_equity = state.daily_start_equity;
      daily_realized_pnl = state.daily_realized_pnl;
      already_breached = state.breached;
    }

-- `copy && value ? value : undefined`
abbrev pub given_if : Bool → Option Number → Option Number
given_if copy value = if copy then value else none

unfoldable pub open_request : MemberContext → CopySettings → Text → Number → ℕ → OpenPositionRequest
open_request c settings symbol volume copy_trade_id = record {
  symbol = symbol;
  order_type = c.event.order_type;
  volume = volume;
  sl = given_if settings.copy_sl c.event.sl;
  tp = given_if settings.copy_tp c.event.tp;
  slippage_points = some settings.slippage_points;
  client_id = copy_trade_id;
}

-- `subscription.risk?.stopCopyOnBreach !== false`
abbrev pub stops_on_breach : Option RiskProfile → Bool
stops_on_breach none = true
stops_on_breach (some risk) = risk.stop_copy_on_breach

abbrev pub risk_error_code : RiskCode → CopyErrorCode
risk_error_code Risk.risk_limit_reached = of_code ErrorCode.risk_limit_reached
risk_error_code Risk.skipped = skipped_code

-- The ticket of an execution: `executed` with a ticket, or nothing.
abbrev pub fill_ticket : OrderResult → Option ℕ
fill_ticket r = if r.executed then r.ticket else none

-- The row of a copy after the order was sent, and after it was not confirmed.
abbrev pub attempted : CopyTrade → CopyTrade
attempted t = record t { attempts = t.attempts + 1 }

abbrev pub order_failed : Number → OrderResult → CopyTrade → CopyTrade
order_failed volume result t = record t {
  status = CopyTradeStatus.failed;
  member_volume = volume;
  error_code = some (of_code (or_else result.error_code provider_error));
}

abbrev pub carries_id : ℕ → ProviderPosition → Bool
carries_id copy_trade_id position = elim position.comment [
  | none ↦ false
  | some comment ↦ comment == copy_trade_id
]

-- ===== src/Engine/Open.antt =====
-- `openForMember`: size the trade, check the risk, then send the order.
mod Request
unfoldable pub use Request.*
use copytrade_dashboard.Base.{ℕ, Bool, ◌&&◌, Option, none, some, List, find, if◌then◌else◌}
use copytrade_dashboard.Number.Defs.{Number}
use copytrade_dashboard.Text.{Text}
use copytrade_dashboard.Types.{ProviderPosition, OrderResult, SymbolSpec, ErrorCode, invalid_symbol}
use copytrade_dashboard.Lot
use copytrade_dashboard.Lot.{LotResult, sized, calculate_lot}
use copytrade_dashboard.Risk
use copytrade_dashboard.Risk.{RiskDecision, RiskReason, evaluate_risk}
use copytrade_dashboard.Store.Rows.{
  CopySettings, RiskState, CopyTradeStatus, of_code, SkipReason, trade_failed, copy_trade_published,
}
use copytrade_dashboard.Store.Monad.{Action, ◌>>=◌, ◌>>◌, pure}
use copytrade_dashboard.Store.Tables.{TradeProvider, World}
use copytrade_dashboard.Engine.Session.{broker_call, broker_query}
use copytrade_dashboard.Engine.Records.{
  Verdict, success, failed, emit, update_copy_trade, record_fill, skip, load_risk_state,
  pause_for_breach,
}

module _ {B : Type 0} where
  -- The broker's answer to the order: a fill, or a failure.
  unfoldable pub settle_order :
      MemberContext → Text → Number → ℕ → OrderResult → Option ℕ → Action (World B) Verdict
  settle_order c symbol volume copy_trade_id result (some ticket) = do
    record_fill copy_trade_id ticket result.price volume c.subscription c.event symbol
    pure success
  settle_order c symbol volume copy_trade_id result none = do
    update_copy_trade copy_trade_id (order_failed volume result)
    emit (trade_failed c.subscription.user_id copy_trade_id)
    emit (copy_trade_published c.subscription.user_id CopyTradeStatus.failed symbol volume)
    pure failed

  -- A response is not a fill: only an execution with a ticket counts.
  unfoldable pub order_answered :
      MemberContext → Text → Number → ℕ → OrderResult → Action (World B) Verdict
  order_answered c symbol volume copy_trade_id result = do
    update_copy_trade copy_trade_id attempted
    settle_order c symbol volume copy_trade_id result (fill_ticket result)

  unfoldable pub send_order :
      TradeProvider B → MemberContext → CopySettings → Text → Number → ℕ → Action (World B) Verdict
  send_order p c settings symbol volume copy_trade_id = do
    result ← broker_call (
        p.open_position c.provider_account_id (open_request c settings symbol volume copy_trade_id))
    order_answered c symbol volume copy_trade_id result

  unfoldable pub pause_if : Bool → MemberContext → RiskReason → Action (World B) (Unit {0})
  pause_if pause c reason =
      if pause && stops_on_breach c.subscription.risk_profile
      then pause_for_breach c.subscription reason
      else pure tt

  -- From the risk engine's decision on.
  unfoldable pub apply_decision :
      TradeProvider B
      → MemberContext
      → CopySettings
      → Text
      → Number
      → ℕ
      → RiskDecision
      → Action (World B) Verdict
  apply_decision p c settings symbol volume copy_trade_id Risk.allowed =
      send_order p c settings symbol volume copy_trade_id
  apply_decision p c settings symbol volume copy_trade_id (Risk.refused code reason pause) = do
    pause_if pause c reason
    skip copy_trade_id (SkipReason.risk_refused reason) (some (risk_error_code code))

  unfoldable pub apply_state :
      TradeProvider B
      → MemberContext
      → CopySettings
      → List ProviderPosition
      → Text
      → Number
      → ℕ
      → RiskState
      → Action (World B) Verdict
  apply_state p c settings positions symbol volume copy_trade_id state =
      apply_decision p c settings symbol volume copy_trade_id
        (evaluate_risk (risk_context c settings symbol volume positions state))

  -- From the calculator's size on.
  unfoldable pub apply_lot :
      TradeProvider B
      → MemberContext
      → CopySettings
      → List ProviderPosition
      → Text
      → ℕ
      → LotResult
      → Action (World B) Verdict
  apply_lot p c settings positions symbol copy_trade_id (Lot.refused code) =
      skip copy_trade_id (SkipReason.lot_refused code) (some (of_code ErrorCode.invalid_volume))
  apply_lot p c settings positions symbol copy_trade_id (sized volume shown clamped) = do
    state ← load_risk_state c.account
    apply_state p c settings positions symbol volume copy_trade_id state

  -- From the broker's specification of the symbol on.
  unfoldable pub apply_spec :
      TradeProvider B
      → MemberContext
      → CopySettings
      → List ProviderPosition
      → Text
      → ℕ
      → Option SymbolSpec
      → Action (World B) Verdict
  apply_spec p c settings positions symbol copy_trade_id none =
      skip copy_trade_id (SkipReason.not_tradable symbol) (some (of_code invalid_symbol))
  apply_spec p c settings positions symbol copy_trade_id (some spec) =
      if spec.trade_allowed
      then apply_lot p c settings positions symbol copy_trade_id
          (calculate_lot (lot_inputs c settings spec symbol))
      else skip copy_trade_id (SkipReason.not_tradable symbol) (some (of_code invalid_symbol))

  -- From the open positions on: an order that carries this copy's id has landed already.
  unfoldable pub recover_or_open :
      TradeProvider B
      → MemberContext
      → CopySettings
      → List ProviderPosition
      → Text
      → ℕ
      → Option ProviderPosition
      → Action (World B) Verdict
  recover_or_open p c settings positions symbol copy_trade_id (some existing) = do
    record_fill copy_trade_id existing.ticket (some existing.open_price) existing.volume
        c.subscription c.event symbol
    pure success
  recover_or_open p c settings positions symbol copy_trade_id none = do
    spec ← broker_query (p.get_symbol_spec c.provider_account_id symbol)
    apply_spec p c settings positions symbol copy_trade_id spec

  unfoldable pub open_beside :
      TradeProvider B
      → MemberContext
      → CopySettings
      → Text
      → ℕ
      → List ProviderPosition
      → Action (World B) Verdict
  open_beside p c settings symbol copy_trade_id positions =
      recover_or_open p c settings positions symbol copy_trade_id
        (find (carries_id copy_trade_id) positions)

  unfoldable pub open_with_settings :
      TradeProvider B → MemberContext → CopySettings → Text → ℕ → Action (World B) Verdict
  open_with_settings p c settings symbol copy_trade_id = do
    positions ← broker_query (p.get_positions c.provider_account_id)
    open_beside p c settings symbol copy_trade_id positions

  unfoldable pub open_for_member :
      TradeProvider B → MemberContext → Text → ℕ → Option CopySettings → Action (World B) Verdict
  open_for_member p c symbol copy_trade_id none = skip copy_trade_id SkipReason.no_settings none
  open_for_member p c symbol copy_trade_id (some settings) =
      open_with_settings p c settings symbol copy_trade_id

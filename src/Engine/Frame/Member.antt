-- ===== src/Engine/Frame/Member.antt =====
-- Opening a member's position.
use copytrade_dashboard.Base.{ℕ, refl, Bool, Option, none, some, List, find, arith, ◌==◌, ◌&&◌}
use copytrade_dashboard.Number.Defs.{Number}
use copytrade_dashboard.Text.{Text}
use copytrade_dashboard.Types.{OrderResult, SymbolSpec, ProviderPosition}
use copytrade_dashboard.Lot
use copytrade_dashboard.Lot.{LotResult, sized, calculate_lot}
use copytrade_dashboard.Risk
use copytrade_dashboard.Risk.{RiskDecision, RiskReason}
use copytrade_dashboard.Store.Rows.{CopySettings, RiskState, SkipReason}
use copytrade_dashboard.Store.Monad.{pure}
use copytrade_dashboard.Store.Tables.{TradeProvider}
use copytrade_dashboard.Engine.Session.{broker_call, broker_query}
use copytrade_dashboard.Engine.Records.{
  Verdict, update_copy_trade, record_fill, skip, load_risk_state, pause_for_breach,
}
use copytrade_dashboard.Engine.Open.{
  MemberContext, attempted, order_failed, carries_id, open_request, settle_order, order_answered,
  send_order, pause_if, stops_on_breach, apply_decision, apply_state, apply_lot, apply_spec,
  recover_or_open, open_beside, open_with_settings, open_for_member, fill_ticket, risk_error_code,
}
use copytrade_dashboard.Engine.Frame.{
  IsSteady, Steady-refl, if-IsSteady, bind-IsSteady, broker_call-IsSteady, keys-update_where,
  update_copy_trade-IsSteady,
}
use copytrade_dashboard.Engine.Frame.Writes.{
  record_fill-IsSteady, skip-IsSteady, load_risk_state-IsSteady, pause_for_breach-IsSteady,
}

module _ {B : Type 0} where
  settle_order-IsSteady :
      (c : MemberContext) (symbol : Text) (v : Number) (id : ℕ) (r : OrderResult) (t : Option ℕ)
      → IsSteady {B = B} (settle_order c symbol v id r t)
  unfolding settle_order
  settle_order-IsSteady c symbol v id r (some t) w =
      bind-IsSteady (record_fill id t r.price v c.subscription c.event symbol)
        (λ _. pure Verdict.success)
        (record_fill-IsSteady id t r.price v c.subscription c.event symbol) (λ _ u. Steady-refl u) w
  settle_order-IsSteady c symbol v id r none w = ground (
    arith,
    keys-update_where (λ t. t.id == id) (order_failed v r) w.copy_trades (λ t. (refl, refl)),
  )

  order_answered-IsSteady :
      (c : MemberContext) (symbol : Text) (v : Number) (id : ℕ) (r : OrderResult)
      → IsSteady {B = B} (order_answered c symbol v id r)
  unfolding order_answered
  order_answered-IsSteady c symbol v id r =
      bind-IsSteady (update_copy_trade id attempted)
        (λ _. settle_order c symbol v id r (fill_ticket r))
        (update_copy_trade-IsSteady id attempted (λ t. (refl, refl)))
        (λ _. settle_order-IsSteady c symbol v id r (fill_ticket r))

  send_order-IsSteady :
      (p : TradeProvider B) (c : MemberContext) (s : CopySettings) (symbol : Text) (v : Number)
      (id : ℕ)
      → IsSteady (send_order p c s symbol v id)
  unfolding send_order
  send_order-IsSteady p c s symbol v id =
      let order = p.open_position c.provider_account_id (open_request c s symbol v id) in
      bind-IsSteady (broker_call order) (order_answered c symbol v id) (broker_call-IsSteady order)
        (order_answered-IsSteady c symbol v id)

  pause_if-IsSteady :
      (pause : Bool) (c : MemberContext) (reason : RiskReason)
      → IsSteady {B = B} (pause_if pause c reason)
  unfolding pause_if
  pause_if-IsSteady pause c reason =
      if-IsSteady (pause && stops_on_breach c.subscription.risk_profile)
        (pause_for_breach c.subscription reason) (pure tt)
        (pause_for_breach-IsSteady c.subscription reason) (λ w. Steady-refl w)

  apply_decision-IsSteady :
      (p : TradeProvider B) (c : MemberContext) (s : CopySettings) (symbol : Text) (v : Number)
      (id : ℕ) (d : RiskDecision)
      → IsSteady (apply_decision p c s symbol v id d)
  unfolding apply_decision
  apply_decision-IsSteady p c s symbol v id Risk.allowed w = send_order-IsSteady p c s symbol v id w
  apply_decision-IsSteady p c s symbol v id (Risk.refused code reason pause) w =
      bind-IsSteady (pause_if pause c reason)
        (λ _. skip id (SkipReason.risk_refused reason) (some (risk_error_code code)))
        (pause_if-IsSteady pause c reason)
        (λ _. skip-IsSteady id (SkipReason.risk_refused reason) (some (risk_error_code code))) w

  apply_state-IsSteady :
      (p : TradeProvider B) (c : MemberContext) (s : CopySettings) (ps : List ProviderPosition)
      (symbol : Text) (v : Number) (id : ℕ) (state : RiskState)
      → IsSteady (apply_state p c s ps symbol v id state)
  unfolding apply_state
  apply_state-IsSteady p c s ps symbol v id state = apply_decision-IsSteady p c s symbol v id _

  apply_lot-IsSteady :
      (p : TradeProvider B) (c : MemberContext) (s : CopySettings) (ps : List ProviderPosition)
      (symbol : Text) (id : ℕ) (lot : LotResult)
      → IsSteady (apply_lot p c s ps symbol id lot)
  unfolding apply_lot
  apply_lot-IsSteady p c s ps symbol id (Lot.refused code) w = skip-IsSteady id _ _ w
  apply_lot-IsSteady p c s ps symbol id (sized v shown clamped) w =
      bind-IsSteady (load_risk_state c.account) (apply_state p c s ps symbol v id)
        (load_risk_state-IsSteady c.account) (apply_state-IsSteady p c s ps symbol v id) w

  apply_spec-IsSteady :
      (p : TradeProvider B) (c : MemberContext) (s : CopySettings) (ps : List ProviderPosition)
      (symbol : Text) (id : ℕ) (spec : Option SymbolSpec)
      → IsSteady (apply_spec p c s ps symbol id spec)
  unfolding apply_spec
  apply_spec-IsSteady p c s ps symbol id none w = skip-IsSteady id _ _ w
  apply_spec-IsSteady p c s ps symbol id (some spec) w =
      if-IsSteady spec.trade_allowed (apply_lot p c s ps symbol id _) (skip id _ _)
        (apply_lot-IsSteady p c s ps symbol id _) (skip-IsSteady id _ _) w

  recover_or_open-IsSteady :
      (p : TradeProvider B) (c : MemberContext) (s : CopySettings) (ps : List ProviderPosition)
      (symbol : Text) (id : ℕ) (found : Option ProviderPosition)
      → IsSteady (recover_or_open p c s ps symbol id found)
  unfolding recover_or_open
  recover_or_open-IsSteady p c s ps symbol id (some e) w =
      bind-IsSteady
        (record_fill id e.ticket (some e.open_price) e.volume c.subscription c.event symbol)
        (λ _. pure Verdict.success)
        (record_fill-IsSteady id e.ticket (some e.open_price) e.volume c.subscription c.event
          symbol)
        (λ _ u. Steady-refl u) w
  recover_or_open-IsSteady p c s ps symbol id none w =
      bind-IsSteady (broker_query (p.get_symbol_spec c.provider_account_id symbol))
        (apply_spec p c s ps symbol id) (λ u. Steady-refl u)
        (apply_spec-IsSteady p c s ps symbol id) w

  open_beside-IsSteady :
      (p : TradeProvider B) (c : MemberContext) (s : CopySettings) (symbol : Text) (id : ℕ)
      (ps : List ProviderPosition)
      → IsSteady (open_beside p c s symbol id ps)
  unfolding open_beside
  open_beside-IsSteady p c s symbol id ps =
      recover_or_open-IsSteady p c s ps symbol id (find (carries_id id) ps)

  pub open_for_member-IsSteady :
      (p : TradeProvider B) (c : MemberContext) (symbol : Text) (id : ℕ) (s : Option CopySettings)
      → IsSteady (open_for_member p c symbol id s)
  unfolding open_for_member open_with_settings
  open_for_member-IsSteady p c symbol id none w = skip-IsSteady id _ _ w
  open_for_member-IsSteady p c symbol id (some s) w =
      bind-IsSteady (broker_query (p.get_positions c.provider_account_id))
        (open_beside p c s symbol id) (λ u. Steady-refl u) (open_beside-IsSteady p c s symbol id) w

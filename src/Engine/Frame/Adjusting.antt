-- ===== src/Engine/Frame/Adjusting.antt =====
-- Adjusting a member's position.
use copytrade_dashboard.Base.{ℕ, refl, Option, none, some, arith, if◌then◌else◌}
use copytrade_dashboard.Types.{EventType, OrderResult}
use copytrade_dashboard.Store.Rows.{PositionMapping}
use copytrade_dashboard.Store.Tables.{TradeProvider}
use copytrade_dashboard.Engine.Records.{update_copy_trade, skip}
use copytrade_dashboard.Engine.Open.{MemberContext}
use copytrade_dashboard.Engine.Adjust.{
  adjustment_sent, adjustment_failed, adjusted, is_closed, send_adjustment, close_position_row,
  adjust_mapping, apply_remainder, confirm_adjustment, finish_adjustment, fail_adjustment,
  settle_adjustment, adjust_open, adjust_mapped, adjust_for_member,
}
use copytrade_dashboard.Engine.Frame.{
  IsSteady, Steady-refl, if-IsSteady, bind-IsSteady, update_copy_trade-IsSteady,
}
use copytrade_dashboard.Engine.Frame.Writes.{skip-IsSteady}

module _ {B : Type 0} where
  send_adjustment-IsSteady :
      (p : TradeProvider B) (c : MemberContext) (m : PositionMapping) (e : EventType)
      → IsSteady (send_adjustment p c m e)
  unfolding send_adjustment
  send_adjustment-IsSteady p c m EventType.modify w = ground arith
  send_adjustment-IsSteady p c m _ w = ground arith

  adjust_mapping-IsSteady :
      (p : TradeProvider B) (c : MemberContext) (m : PositionMapping) (r : OrderResult)
      (e : EventType)
      → IsSteady (adjust_mapping p c m r e)
  unfolding adjust_mapping close_position_row
  adjust_mapping-IsSteady p c m r EventType.partial_close w = ground arith
  adjust_mapping-IsSteady p c m r EventType.close w = ground arith
  adjust_mapping-IsSteady p c m r EventType.delete_pending w = ground arith
  adjust_mapping-IsSteady p c m r _ w = Steady-refl w

  apply_remainder-IsSteady :
      (p : TradeProvider B) (c : MemberContext) (m : PositionMapping) (r : OrderResult)
      (t : Option ℕ)
      → IsSteady (apply_remainder p c m r t)
  unfolding apply_remainder
  apply_remainder-IsSteady p c m r none w = adjust_mapping-IsSteady p c m r c.event.event_type w
  apply_remainder-IsSteady p c m r (some t) w = ground arith

  confirm_adjustment-IsSteady :
      (id : ℕ) (m : PositionMapping) (r : OrderResult)
      → IsSteady {B = B} (confirm_adjustment id m r)
  unfolding confirm_adjustment
  confirm_adjustment-IsSteady id m r w =
      update_copy_trade-IsSteady id (adjusted m r w.now) (λ t. (refl, refl)) w

  settle_adjustment-IsSteady :
      (p : TradeProvider B) (c : MemberContext) (id : ℕ) (m : PositionMapping) (r : OrderResult)
      → IsSteady (settle_adjustment p c id m r)
  unfolding settle_adjustment finish_adjustment fail_adjustment
  settle_adjustment-IsSteady p c id m r =
      bind-IsSteady (update_copy_trade id (adjustment_sent m))
        (λ _. if r.executed then finish_adjustment p c id m r else fail_adjustment id r)
        (update_copy_trade-IsSteady id (adjustment_sent m) (λ t. (refl, refl)))
        (λ _.
          if-IsSteady r.executed (finish_adjustment p c id m r) (fail_adjustment id r)
            (bind-IsSteady (apply_remainder p c m r r.remainder_ticket)
              (λ _. confirm_adjustment id m r) (apply_remainder-IsSteady p c m r r.remainder_ticket)
              (λ _. confirm_adjustment-IsSteady id m r))
            (update_copy_trade-IsSteady id (adjustment_failed r) (λ t. (refl, refl))))

  adjust_mapped-IsSteady :
      (p : TradeProvider B) (c : MemberContext) (id : ℕ) (m : Option PositionMapping)
      → IsSteady (adjust_mapped p c id m)
  unfolding adjust_mapped adjust_open
  adjust_mapped-IsSteady p c id none w = skip-IsSteady id _ _ w
  adjust_mapped-IsSteady p c id (some m) w =
      if-IsSteady (is_closed m.status) (skip id _ _) (adjust_open p c id m) (skip-IsSteady id _ _)
        (bind-IsSteady (send_adjustment p c m c.event.event_type) (settle_adjustment p c id m)
          (send_adjustment-IsSteady p c m c.event.event_type) (settle_adjustment-IsSteady p c id m))
        w

  pub adjust_for_member-IsSteady :
      (p : TradeProvider B) (c : MemberContext) (id : ℕ) → IsSteady (adjust_for_member p c id)
  unfolding adjust_for_member
  adjust_for_member-IsSteady p c id w = adjust_mapped-IsSteady p c id _ w

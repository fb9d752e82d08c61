-- ===== src/Engine/Adjust.antt =====
-- `adjustForMember`: modify or close the member's position that a master ticket is mapped to.
use copytrade_dashboard.Base.{
  ℕ, ◌+◌, Bool, true, false, Option, none, some, [], ◌∷◌, ◌++◌, find, ◌==◌, if◌then◌else◌,
}
use copytrade_dashboard.Base.Int.{decrement}
use copytrade_dashboard.Number.Defs.{
  Number, of_nat, hundredths, max_of, subtract, multiply, to_fixed,
}
use copytrade_dashboard.Types.{
  EventType, PositionStatus, OrderResult, ClosedPositionResult, CloseReason, copied_close,
  position_not_found, provider_error, closed, partially_closed,
}
use copytrade_dashboard.Store.Rows.{
  TradeEvent, CopySettings, CopyTrade, CopyTradeStatus, of_code, SkipReason, PositionMapping,
}
use copytrade_dashboard.Store.Monad.{Result, ok, err, Action, ◌>>=◌, ◌>>◌, pure, modify}
use copytrade_dashboard.Store.Tables.{TradeProvider, World, update_where}
use copytrade_dashboard.Engine.Session.{broker_call, update_account}
use copytrade_dashboard.Engine.Records.{
  Verdict, success, failed, or_else, is_mapping, update_copy_trade, skip,
}
use copytrade_dashboard.Engine.Open.{MemberContext, given_if}

abbrev pub is_closed : PositionStatus → Bool
is_closed PositionStatus.closed = true
is_closed _ = false

abbrev pub is_partial_close : EventType → Bool
is_partial_close EventType.partial_close = true
is_partial_close _ = false

-- `settings?.copySl !== false`
abbrev pub copies : (CopySettings → Bool) → Option CopySettings → Bool
copies flag none = true
copies flag (some settings) = flag settings

-- The volume to close: the master's fraction of the member's position, and all of it where the
-- event closes the position.
unfoldable pub close_volume : TradeEvent → PositionMapping → Option Number
close_volume event m =
    if is_partial_close event.event_type
    then some (
        max_of (to_fixed 99 (multiply m.volume (or_else event.close_fraction (of_nat 1))))
          (hundredths 1))
    else none

-- What is left after the broker has closed a part.
abbrev pub remaining_volume : PositionMapping → OrderResult → Number
remaining_volume m result = to_fixed 99 (subtract m.volume (or_else result.volume (of_nat 0)))

-- A close leaves the rest of a position under a new ticket.
unfoldable pub remap : ℕ → OrderResult → PositionMapping → PositionMapping
remap ticket result m = record m {
  member_ticket = ticket;
  ticket_history = m.ticket_history ++ m.member_ticket ∷ [];
  volume = remaining_volume m result;
  status = partially_closed;
}

unfoldable pub shrink : OrderResult → PositionMapping → PositionMapping
shrink result m = record m { volume = remaining_volume m result; status = partially_closed }

-- What the broker recorded, if it answered.
abbrev pub closed_result : Result (Option ClosedPositionResult) → Option ClosedPositionResult
closed_result (ok r) = r
closed_result (err _) = none

abbrev pub closed_at_of : Option ClosedPositionResult → ℕ → ℕ
closed_at_of none now = now
closed_at_of (some r) now = or_else r.closed_at now

abbrev pub close_price_of : Option ClosedPositionResult → Option Number
close_price_of none = none
close_price_of (some r) = r.close_price

abbrev pub profit_of : Option ClosedPositionResult → Option Number
profit_of none = none
profit_of (some r) = some r.profit

abbrev reason_of : Option ClosedPositionResult → CloseReason
reason_of none = copied_close
reason_of (some r) = or_else r.reason copied_close

unfoldable pub close_mapping : Option ClosedPositionResult → ℕ → PositionMapping → PositionMapping
close_mapping result now m = record m {
  status = closed;
  closed_at = some (closed_at_of result now);
  close_price = close_price_of result;
  profit = profit_of result;
  close_reason = some (reason_of result);
}

-- The row of a copy after the order was sent, after it failed, and after it was executed.
abbrev pub adjustment_sent : PositionMapping → CopyTrade → CopyTrade
adjustment_sent m t = record t { attempts = t.attempts + 1; member_ticket = some m.member_ticket }

abbrev pub adjustment_failed : OrderResult → CopyTrade → CopyTrade
adjustment_failed result t = record t {
  status = CopyTradeStatus.failed;
  error_code = some (of_code (or_else result.error_code provider_error));
}

abbrev pub adjusted : PositionMapping → OrderResult → ℕ → CopyTrade → CopyTrade
adjusted m result now t = record t {
  status = CopyTradeStatus.success;
  executed_at = some now;
  member_volume = or_else result.volume m.volume;
}

module _ {B : Type 0} where
  abbrev pub update_mapping : ℕ → (PositionMapping → PositionMapping) → Action (World B) (Unit {0})
  update_mapping id f =
      modify (λ w. record w { mappings = update_where (λ m. m.id == id) f w.mappings })

  -- The order to the broker.
  unfoldable pub send_adjustment :
      TradeProvider B → MemberContext → PositionMapping → EventType → Action (World B) OrderResult
  send_adjustment p c m EventType.modify = broker_call (
      p.modify_position c.provider_account_id (record {
        ticket = m.member_ticket;
        sl = given_if (copies (λ s. s.copy_sl) c.subscription.copy_settings) c.event.sl;
        tp = given_if (copies (λ s. s.copy_tp) c.subscription.copy_settings) c.event.tp;
      }))
  send_adjustment p c m _ = broker_call (
      p.close_position c.provider_account_id
        (record { ticket = m.member_ticket; volume = close_volume c.event m }))

  unfoldable pub close_position_row :
      TradeProvider B → MemberContext → PositionMapping → Action (World B) (Unit {0})
  close_position_row p c m w =
      let result =
        closed_result (p.get_closed_position c.provider_account_id m.member_ticket w.broker) in
      (update_mapping m.id (close_mapping result w.now)
          >> update_account c.account.id (λ a. record a { open_trades = decrement a.open_trades }))
        w

  -- The mapping after an executed adjustment without a new ticket.
  unfoldable pub adjust_mapping :
      TradeProvider B
      → MemberContext
      → PositionMapping
      → OrderResult
      → EventType
      → Action (World B) (Unit {0})
  adjust_mapping p c m result EventType.partial_close = update_mapping m.id (shrink result)
  adjust_mapping p c m result EventType.close = close_position_row p c m
  adjust_mapping p c m result EventType.delete_pending = close_position_row p c m
  adjust_mapping p c m result _ = pure tt

  unfoldable pub apply_remainder :
      TradeProvider B
      → MemberContext
      → PositionMapping
      → OrderResult
      → Option ℕ
      → Action (World B) (Unit {0})
  apply_remainder p c m result (some ticket) = update_mapping m.id (remap ticket result)
  apply_remainder p c m result none = adjust_mapping p c m result c.event.event_type

  unfoldable pub confirm_adjustment : ℕ → PositionMapping → OrderResult → Action (World B) Verdict
  confirm_adjustment copy_trade_id m result w =
      (update_copy_trade copy_trade_id (adjusted m result w.now) >> pure success) w

  unfoldable pub finish_adjustment :
      TradeProvider B → MemberContext → ℕ → PositionMapping → OrderResult → Action (World B) Verdict
  finish_adjustment p c copy_trade_id m result = do
    apply_remainder p c m result result.remainder_ticket
    confirm_adjustment copy_trade_id m result

  unfoldable pub fail_adjustment : ℕ → OrderResult → Action (World B) Verdict
  fail_adjustment copy_trade_id result = do
    update_copy_trade copy_trade_id (adjustment_failed result)
    pure failed

  unfoldable pub settle_adjustment :
      TradeProvider B → MemberContext → ℕ → PositionMapping → OrderResult → Action (World B) Verdict
  settle_adjustment p c copy_trade_id m result = do
    update_copy_trade copy_trade_id (adjustment_sent m)
    if result.executed
        then finish_adjustment p c copy_trade_id m result
        else fail_adjustment copy_trade_id result

  unfoldable pub adjust_open :
      TradeProvider B → MemberContext → ℕ → PositionMapping → Action (World B) Verdict
  adjust_open p c copy_trade_id m = do
    result ← send_adjustment p c m c.event.event_type
    settle_adjustment p c copy_trade_id m result

  unfoldable pub adjust_mapped :
      TradeProvider B → MemberContext → ℕ → Option PositionMapping → Action (World B) Verdict
  adjust_mapped p c copy_trade_id none =
      skip copy_trade_id SkipReason.no_open_position (some (of_code position_not_found))
  adjust_mapped p c copy_trade_id (some m) =
      if is_closed m.status
      then skip copy_trade_id SkipReason.no_open_position (some (of_code position_not_found))
      else adjust_open p c copy_trade_id m

  unfoldable pub adjust_for_member : TradeProvider B → MemberContext → ℕ → Action (World B) Verdict
  adjust_for_member p c copy_trade_id w =
      adjust_mapped p c copy_trade_id (find (is_mapping c.account.id c.event.ticket) w.mappings) w

-- ===== src/Engine/Tests.antt =====
-- The engine at a concrete member and broker.
use copytrade_dashboard.Base.{ℕ, ◌+◌, ◌≡◌, refl, true, some, [], ◌∷◌, length}
use copytrade_dashboard.Number.Defs.{
  hundredths, of_nat, cross, add, negate, subtract, multiply, divide, floor, to_fixed, absolute,
}
use copytrade_dashboard.Text.{text_eq, to_upper}
use copytrade_dashboard.Types.{EventType, OrderResult, opened, partially_closed}
use copytrade_dashboard.Risk
use copytrade_dashboard.Risk.{evaluate_risk}
use copytrade_dashboard.Store.Rows.{
  TradeEvent, CopyTrade, CopyTradeStatus, PositionMapping, RiskState,
}
use copytrade_dashboard.Store.Monad.{ok, ◌>>◌}
use copytrade_dashboard.Store.Tables.{TradeProvider}
use copytrade_dashboard.Engine.Session.{
  ensure_provider_session, session_of, session_with, probe_session, reconnect,
}
use copytrade_dashboard.Lot.{calculate_lot, round_to_step, volume_of_mode}
use copytrade_dashboard.Symbol.{is_candidate, resolve_member_symbol}
use copytrade_dashboard.Engine.Records.{
  skip, upsert_mapping, use_risk_state, success, skipped, record_fill, load_risk_state,
}
use copytrade_dashboard.Engine.Open.{
  open_with_settings, open_beside, apply_decision, apply_lot, apply_spec, lot_inputs, open_request,
  pause_if, recover_or_open, send_order, settle_order, MemberContext, order_answered, apply_state,
  open_for_member, risk_context, contract_size,
}
use copytrade_dashboard.Engine.Adjust.{
  is_closed, close_position_row, adjust_for_member, send_adjustment,
}
use copytrade_dashboard.Engine.Process.{
  process_if_found, process_found, fan_out, process_subscription, copy_in_session,
  create_copy_trade, copy_with_row, finish_event, new_copy_trade, record_failure, CopyOutcome,
  no_outcome, copy_to_member, process_trade_event, select_eligible, is_processed,
}
use copytrade_dashboard.Engine.Frame.{keys}
use copytrade_dashboard.Engine.Frame.Copying.{IsUnique}
use copytrade_dashboard.Engine.Once.{IsBalanced}
use copytrade_dashboard.Engine.Delivery.{
  find_event, eligible, deliver, deliver-IsUnique, process_trade_event_answers,
  process_trade_event_again,
}
use copytrade_dashboard.Engine.Gates.{Guarded, open_for_member-IsGuarded}
use copytrade_dashboard.Engine.Fill.{find_copy, find_mapping, order_answered_confirmed}
use copytrade_dashboard.Engine.Breach.{Excludes, find_risk_state, apply_state_pausing}
use copytrade_dashboard.Engine.Closing.{
  adjust_for_member_final, adjust_for_member_remapped, record_fill-close_position_row,
}
use copytrade_dashboard.Engine.Scenario.{
  euro, fill, broker, opening, settings, account, subscription, start, member, position, ordered,
  holding, closing, losing_member, today,
}

process_trade_event_again_example :
    process_trade_event broker 1 (process_trade_event broker 1 start).1
    ≡ (ok no_outcome, (process_trade_event broker 1 start).1)
process_trade_event_again_example =
    process_trade_event_again broker 1 start
      (process_trade_event_answers broker 1 start refl refl).1

process_trade_event_answers_example :
    (o : CopyOutcome) × ((process_trade_event broker 1 start).0 ≡ ok o)
    × (o.processed ≡ length (eligible opening start))
    × IsBalanced o
    × (e' : TradeEvent) × (find_event 1 (process_trade_event broker 1 start).1.events ≡ some e')
    × (is_processed e'.status ≡ true)
    × (e'.fan_out_count ≡ o.processed)
process_trade_event_answers_example = process_trade_event_answers broker 1 start refl refl

deliver-IsUnique_example : IsUnique (keys (deliver broker (1 ∷ 1 ∷ 2 ∷ 1 ∷ []) start).copy_trades)
deliver-IsUnique_example = deliver-IsUnique broker (1 ∷ 1 ∷ 2 ∷ 1 ∷ []) start tt

open_for_member-IsGuarded_example :
    Guarded broker member settings euro 1000 ordered
      (open_for_member broker member euro 1000 (some settings) ordered).1.broker
open_for_member-IsGuarded_example =
    open_for_member-IsGuarded broker member settings euro 1000 ordered

order_answered_confirmed_example :
    let after = order_answered member euro (hundredths 20) 1000 fill ordered in
    (after.0 ≡ ok success)
    × ((t : CopyTrade) × (find_copy 1000 after.1.copy_trades ≡ some t)
        × (t.status ≡ CopyTradeStatus.success)
        × (t.member_ticket ≡ some 900)
        × (t.member_volume ≡ hundredths 20)
        × (t.attempts ≡ 1))
    × ((m : PositionMapping) × (find_mapping 7 300 after.1.mappings ≡ some m)
        × (m.member_ticket ≡ 900)
        × (m.volume ≡ hundredths 20)
        × (m.status ≡ opened))
order_answered_confirmed_example =
    order_answered_confirmed member euro (hundredths 20) 1000 fill ordered refl refl

losing_member-refused :
    evaluate_risk (risk_context losing_member settings euro (hundredths 20) [] today)
    ≡ Risk.refused Risk.risk_limit_reached Risk.daily_loss_reached true
unfolding risk_context evaluate_risk Risk.check_exposure Risk.check_account Risk.symbol_refused
    Risk.daily_loss subtract add negate cross
losing_member-refused = refl

apply_state_pausing_example :
    let after =
      apply_state broker losing_member settings [] euro (hundredths 20) 1000 today ordered in
    (after.0 ≡ ok skipped)
    × (after.1.broker ≡ 0)
    × Excludes 20 (select_eligible 5 after.1 after.1.subscriptions)
    × ((r : RiskState) × (find_risk_state 7 after.1.risk_states ≡ some r)
        × (r.breached ≡ true)
        × (r.breach_reason ≡ some Risk.daily_loss_reached))
apply_state_pausing_example =
    apply_state_pausing broker losing_member settings [] euro (hundredths 20) 1000 5 today ordered
      losing_member-refused refl

adjust_for_member_final_example :
    let after = adjust_for_member broker closing 1000 holding in
    (after.0 ≡ ok success)
    × (after.1.broker ≡ 1)
    × ((m : PositionMapping) × (find_mapping 7 300 after.1.mappings ≡ some m)
        × (is_closed m.status ≡ true))
    × ((adjust_for_member broker closing 1002 after.1).1.broker ≡ 1)
adjust_for_member_final_example =
    adjust_for_member_final broker closing 1000 holding closing 1002 refl refl refl refl refl refl
      refl refl

-- The broker leaves the rest of a partial close under ticket 901.
abbrev partial : MemberContext
partial = record member {
  event = record opening {
    event_id = 3;
    event_type = EventType.partial_close;
    close_fraction = some (hundredths 50);
  };
}

abbrev part_closed : OrderResult
part_closed = record fill { remainder_ticket = some 901; volume = some (hundredths 10) }

abbrev renaming_broker : TradeProvider ℕ
renaming_broker = record broker { close_position = λ id request n. (ok part_closed, n + 1) }

part_sent :
    send_adjustment renaming_broker partial position EventType.partial_close holding
    ≡ (ok part_closed, record holding { broker = 1 })
unfolding send_adjustment
part_sent = refl

adjust_for_member_remapped_example :
    let after = adjust_for_member renaming_broker partial 1000 holding in
    (after.0 ≡ ok success)
    × ((m : PositionMapping) × (find_mapping 7 300 after.1.mappings ≡ some m)
        × (m.member_ticket ≡ 901)
        × (m.ticket_history ≡ 900 ∷ [])
        × (m.status ≡ partially_closed))
adjust_for_member_remapped_example =
    adjust_for_member_remapped renaming_broker partial 1000 holding {m = position} {r = part_closed}
      {b = 1} refl refl part_sent refl refl

record_fill-close_position_row_example :
    ((record_fill 1000 900 (some (of_nat 2)) (hundredths 20) subscription opening euro
        >> close_position_row broker closing position)
      ordered).1.accounts
    ≡ account ∷ []
record_fill-close_position_row_example =
    record_fill-close_position_row broker closing position 1000 900 (some (of_nat 2))
      (hundredths 20) subscription opening euro ordered refl

-- One eligible member, one copy, one order.
one_copy :
    (process_trade_event broker 1 start).0
    ≡ ok (record { processed = 1; succeeded = 1; failed_count = 0; skipped_count = 0 })
unfolding process_trade_event select_eligible copy_to_member open_for_member order_answered
    apply_state contract_size risk_context load_risk_state record_fill absolute add cross divide
    floor multiply negate subtract to_fixed Risk.check_account Risk.check_exposure Risk.daily_loss
    evaluate_risk Risk.symbol_refused text_eq to_upper process_if_found process_found fan_out
    process_subscription copy_in_session create_copy_trade copy_with_row finish_event new_copy_trade
    record_failure ensure_provider_session session_of session_with probe_session reconnect
    open_with_settings open_beside apply_decision apply_lot apply_spec lot_inputs open_request
    pause_if recover_or_open send_order settle_order skip upsert_mapping use_risk_state
    calculate_lot round_to_step volume_of_mode is_candidate resolve_member_symbol
one_copy = refl

-- ===== src/Ingest/Record.antt =====
-- `storeEvent`: the master trade is brought up to date, then the event is stored.
use copytrade_dashboard.Base.{
  ℕ, ◌+◌, Bool, true, false, ◌&&◌, Option, none, some, [], ◌∷◌, ◌++◌, find, any, ◌==◌,
  if◌then◌else◌,
}
use copytrade_dashboard.Number.Defs.{
  Number, of_nat, min_of, max_of, subtract, divide, is_less, to_fixed,
}
use copytrade_dashboard.Types.{EventType, PositionStatus, opened, pending, closed, partially_closed}
use copytrade_dashboard.Store.Rows.{TradeEvent, EventStatus}
use copytrade_dashboard.Store.Monad.{ok, Action, ◌>>=◌}
use copytrade_dashboard.Store.Tables.{update_where}
use copytrade_dashboard.Engine.Adjust.{is_partial_close}
use copytrade_dashboard.Engine.Process.{is_processed}
use copytrade_dashboard.Ingest.State.{Strategy, MasterTrade, MasterEventInput, Inbox}

-- The pair of the unique constraint on master trades.
abbrev pub is_trade : ℕ → ℕ → MasterTrade → Bool
is_trade strategy_id ticket t = t.strategy_id == strategy_id && t.ticket == ticket

-- The fraction and the rest of a position of this open volume, if the volume is positive.
abbrev fraction_of : Number → MasterEventInput → Option Number
fraction_of open_volume input =
    if is_less (of_nat 0) open_volume
    then some (min_of (divide input.volume open_volume) (of_nat 1))
    else none

abbrev rest_of : Number → MasterEventInput → Option Number
rest_of open_volume input =
    if is_less (of_nat 0) open_volume
    then some (to_fixed 99 (max_of (subtract open_volume input.volume) (of_nat 0)))
    else none

unfoldable pub close_fraction : MasterEventInput → Option MasterTrade → Option Number
close_fraction input none = none
close_fraction input (some trade) =
    if is_partial_close input.event_type then fraction_of trade.volume input else none

unfoldable pub remaining_volume : MasterEventInput → Option MasterTrade → Option Number
remaining_volume input none = none
remaining_volume input (some trade) =
    if is_partial_close input.event_type then rest_of trade.volume input else none

-- The volume of the trade after the event.
abbrev volume_after : MasterEventInput → Option Number → Number
volume_after input none = input.volume
volume_after input (some rest) = if is_partial_close input.event_type then rest else input.volume

abbrev profit_after : MasterEventInput → MasterTrade → Option Number
profit_after input t = elim input.profit [ none ↦ t.profit | some p ↦ some p ]

-- What each kind of event does to the status of an existing trade.
unfoldable pub settle_trade : EventType → MasterEventInput → MasterTrade → MasterTrade
settle_trade EventType.close input t = record t {
  status = closed;
  close_price = some input.price;
  closed_at = some input.timestamp;
  profit = profit_after input t;
}
settle_trade EventType.partial_close input t = record t { status = partially_closed }
settle_trade _ input t = t

unfoldable pub updated_trade : MasterEventInput → Option Number → MasterTrade → MasterTrade
updated_trade input rest t =
    settle_trade input.event_type input
      (record t { volume = volume_after input rest; sl = input.sl; tp = input.tp })

abbrev first_status : EventType → PositionStatus
first_status EventType.pending_order = pending
first_status _ = opened

unfoldable pub new_trade : ℕ → Strategy → MasterEventInput → MasterTrade
new_trade id strategy input = record {
  id = id;
  strategy_id = strategy.id;
  ticket = input.ticket;
  symbol = input.symbol;
  order_type = input.order_type;
  volume = input.volume;
  open_price = input.price;
  close_price = none;
  sl = input.sl;
  tp = input.tp;
  profit = none;
  status = first_status input.event_type;
  opened_at = input.timestamp;
  closed_at = none;
}

-- The upsert, which answers with the id of the trade.
unfoldable pub upsert_trade :
    Strategy → MasterEventInput → Option Number → Option MasterTrade → Action Inbox ℕ
upsert_trade strategy input rest (some trade) w = (
  ok trade.id,
  record w {
    trades = update_where (is_trade strategy.id input.ticket) (updated_trade input rest) w.trades;
  },
)
upsert_trade strategy input rest none w = (
  ok w.next_id,
  record w {
    trades = w.trades ++ new_trade w.next_id strategy input ∷ [];
    next_id = w.next_id + 1;
  },
)

unfoldable pub new_event :
    Strategy → MasterEventInput → EventStatus → Option Number → ℕ → ℕ → TradeEvent
new_event strategy input status fraction trade_id now = record {
  event_id = input.event_id;
  strategy_id = strategy.id;
  master_trade_id = some trade_id;
  event_type = input.event_type;
  ticket = input.ticket;
  symbol = input.symbol;
  order_type = input.order_type;
  volume = input.volume;
  price = input.price;
  sl = input.sl;
  tp = input.tp;
  master_balance = input.master_balance;
  close_fraction = fraction;
  status = status;
  processed_at = if is_processed status then some now else none;
  fan_out_count = 0;
}

-- `prisma.tradeEvent.create`: `false` is the violation of the unique constraint on the event's id.
unfoldable pub create_event :
    Strategy → MasterEventInput → EventStatus → Option Number → ℕ → Action Inbox Bool
create_event strategy input status fraction trade_id w =
    if any (λ e. e.event_id == input.event_id) w.events then (ok false, w) else (
      ok true,
      record w {
        events = w.events ++ new_event strategy input status fraction trade_id w.now ∷ [];
      },
    )

unfoldable pub store_beside :
    Strategy → MasterEventInput → EventStatus → Option MasterTrade → Action Inbox Bool
store_beside strategy input status existing = do
  trade_id ← upsert_trade strategy input (remaining_volume input existing) existing
  create_event strategy input status (close_fraction input existing) trade_id

unfoldable pub store_event : Strategy → MasterEventInput → EventStatus → Action Inbox Bool
store_event strategy input status w =
    store_beside strategy input status (find (is_trade strategy.id input.ticket) w.trades) w

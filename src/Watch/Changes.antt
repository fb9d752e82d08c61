-- ===== src/Watch/Changes.antt =====
-- The difference between a live position and what the strategy has recorded, and its publication.
use copytrade_dashboard.Base.{
  ℕ, ◌+◌, Bool, true, false, ◌&&◌, ◌||◌, Option, none, some, List, filter, ◌==◌, if◌then◌else◌,
}
use copytrade_dashboard.Number.Defs.{Number, decimal, of_nat, subtract, absolute, is_less, to_fixed}
use copytrade_dashboard.Types.{EventType, ProviderPosition, ClosedPositionResult}
use copytrade_dashboard.Store.Monad.{Action, ◌>>=◌, pure, try_catch}
use copytrade_dashboard.Reconcile.Account.{is_open_status}
use copytrade_dashboard.Ingest.State.{
  Strategy, MasterTrade, MasterEventInput, Inbox, IngestResult, queued,
}
use copytrade_dashboard.Ingest.Receive.{ingest_master_event}
use copytrade_dashboard.Watch.State.{WatchResult, Detail, entry, shrink, stops, gone, Change}

-- `VOLUME_EPSILON` and `PRICE_EPSILON`
abbrev pub volume_epsilon : Number
volume_epsilon = decimal 1 9999

abbrev pub price_epsilon : Number
price_epsilon = decimal 1 99999

-- `toNumber(x)` of a column, and `x ?? 0`.
abbrev pub or_zero : Option Number → Number
or_zero none = of_nat 0
or_zero (some x) = x

-- `knownPositions`
abbrev pub is_known : ℕ → MasterTrade → Bool
is_known strategy_id t = t.strategy_id == strategy_id && is_open_status t.status

unfoldable pub known_positions : ℕ → Inbox → List MasterTrade
known_positions strategy_id w = filter (is_known strategy_id) w.trades

abbrev pub change_at : EventType → Number → Number → Detail → ProviderPosition → Change
change_at event_type volume price detail p = record {
  event_type = event_type;
  ticket = p.ticket;
  symbol = p.symbol;
  order_type = p.order_type;
  volume = volume;
  price = price;
  sl = p.sl;
  tp = p.tp;
  profit = none;
  detail = detail;
  occurred_at = none;
}

abbrev pub opening : ProviderPosition → Change
opening p =
    record (change_at EventType.open_trade p.volume p.open_price (entry p.volume p.open_price) p) {
      occurred_at = some p.opened_at;
    }

abbrev pub shrinking : MasterTrade → ProviderPosition → Change
shrinking t p =
    change_at EventType.partial_close (to_fixed 99 (subtract t.volume p.volume)) p.current_price
      (shrink t.volume p.volume) p

abbrev pub restopping : ProviderPosition → Change
restopping p =
    change_at EventType.modify p.volume p.current_price (stops (or_zero p.sl) (or_zero p.tp)) p

abbrev closed_price : Option ClosedPositionResult → Number
closed_price none = of_nat 0
closed_price (some c) = or_zero c.close_price

abbrev closed_profit : Option ClosedPositionResult → Option Number
closed_profit none = none
closed_profit (some c) = some c.profit

abbrev closed_time : Option ClosedPositionResult → Option ℕ
closed_time none = none
closed_time (some c) = c.closed_at

-- The close of a position that the broker no longer reports, with the broker's record of it.
unfoldable pub vanishing : MasterTrade → Option ClosedPositionResult → Change
vanishing t c = record {
  event_type = EventType.close;
  ticket = t.ticket;
  symbol = t.symbol;
  order_type = t.order_type;
  volume = t.volume;
  price = closed_price c;
  sl = none;
  tp = none;
  profit = closed_profit c;
  detail = gone;
  occurred_at = closed_time c;
}

-- `slChanged`, `tpChanged`
unfoldable pub moved : Option Number → Option Number → Bool
moved before now = is_less price_epsilon (absolute (subtract (or_zero before) (or_zero now)))

pub record PublishContext : Type 0 where
  pub strategy : Strategy
  pub master_balance : Option Number

abbrev pub one_if : Bool → ℕ
one_if b = if b then 1 else 0

-- `event_id_for` is the hash of the strategy, the kind, the ticket and the detail.
module _ (event_id_for : ℕ → EventType → ℕ → Detail → ℕ) (context : PublishContext) where
  abbrev or_now : Option ℕ → ℕ → ℕ
  or_now none now = now
  or_now (some t) now = t

  unfoldable pub input_of : Change → ℕ → MasterEventInput
  input_of c now = record {
    event_id = event_id_for context.strategy.id c.event_type c.ticket c.detail;
    event_type = c.event_type;
    ticket = c.ticket;
    symbol = c.symbol;
    order_type = c.order_type;
    volume = c.volume;
    price = c.price;
    sl = c.sl;
    tp = c.tp;
    profit = c.profit;
    master_balance = context.master_balance;
    timestamp = or_now c.occurred_at now;
  }

  abbrev is_queued : IngestResult → Bool
  is_queued queued = true
  is_queued _ = false

  -- `publish`: an error of the ingest is only logged.
  unfoldable pub publish : Change → Action Inbox Bool
  unfolding input_of
  publish c w =
      try_catch
        (ingest_master_event context.strategy (input_of c w.now) >>= λ r. pure (is_queued r))
        (λ e. pure false) w

  -- A stop that moved.
  unfoldable pub watch_stops :
      MasterTrade → ProviderPosition → WatchResult → Action Inbox WatchResult
  watch_stops t p total =
      if moved t.sl p.sl || moved t.tp p.tp
      then (publish (restopping p) >>= λ sent.
          pure (record total { modified = total.modified + one_if sent }))
      else pure total

  -- A position that grew is counted and not published.
  unfoldable pub watch_growth :
      MasterTrade → ProviderPosition → WatchResult → Action Inbox WatchResult
  unfolding watch_stops
  watch_growth t p total =
      if is_less volume_epsilon (subtract p.volume t.volume)
      then pure (record total { skipped = total.skipped + 1 })
      else watch_stops t p total

  unfoldable pub watch_position :
      Option MasterTrade → ProviderPosition → WatchResult → Action Inbox WatchResult
  unfolding watch_growth
  watch_position none p total =
      publish (opening p) >>= λ sent. pure (record total { opened = total.opened + one_if sent })
  watch_position (some t) p total =
      if is_less volume_epsilon (subtract t.volume p.volume)
      then (publish (shrinking t p) >>= λ sent.
          pure (record total { partially_closed = total.partially_closed + one_if sent }))
      else watch_growth t p total

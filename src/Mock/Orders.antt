-- ===== src/Mock/Orders.antt =====
-- `openPosition`, `modifyPosition` and `closePosition` on the account that is connected.
use copytrade_dashboard.Base.{
  ℕ, ◌+◌, Bool, true, false, not, ◌&&◌, ◌||◌, Option, none, some, find, if◌then◌else◌,
}
use copytrade_dashboard.Number.Defs.{
  Number, of_nat, add, subtract, multiply, divide, is_less, is_at_most,
}
use copytrade_dashboard.Text.{text_eq, to_upper}
use copytrade_dashboard.Types
use copytrade_dashboard.Types.{
  Platform, OrderType, ErrorCode, CloseReason, ProviderPosition, OpenPositionRequest,
  ModifyPositionRequest, ClosePositionRequest, OrderResult,
}
use copytrade_dashboard.Store.Tables.{update_where}
use copytrade_dashboard.Mock.State.{
  MockPosition, MockClose, MockAccount, SymbolRow, symbol_row, has_ticket, is_close_of, map_set,
}
use copytrade_dashboard.Mock.Prices.{round, current_price, profit_of}

-- `failure`
abbrev pub failure : ErrorCode → OrderResult
failure code = record {
  executed = false;
  ticket = none;
  remainder_ticket = none;
  price = none;
  volume = none;
  error_code = some code;
}

abbrev pub executed : ℕ → OrderResult
executed ticket = record {
  executed = true;
  ticket = some ticket;
  remainder_ticket = none;
  price = none;
  volume = none;
  error_code = none;
}

abbrev pub same_type : OrderType → OrderType → Bool
same_type OrderType.buy OrderType.buy = true
same_type OrderType.sell OrderType.sell = true
same_type OrderType.buy_limit OrderType.buy_limit = true
same_type OrderType.sell_limit OrderType.sell_limit = true
same_type OrderType.buy_stop OrderType.buy_stop = true
same_type OrderType.sell_stop OrderType.sell_stop = true
same_type _ _ = false

abbrev pub is_mt4 : Platform → Bool
is_mt4 Platform.mt4 = true
is_mt4 Platform.mt5 = false

-- A write to the fields of the position that the map holds under a ticket.
abbrev pub write_position : ℕ → (ProviderPosition → ProviderPosition) → MockAccount → MockAccount
write_position t f a = record a {
  positions =
      update_where (has_ticket t) (λ (p : MockPosition). record p { position = f p.position })
        a.positions;
}

-- `position.closed = true`
abbrev pub mark_closed : ℕ → MockAccount → MockAccount
mark_closed t a = record a {
  positions =
      update_where (has_ticket t) (λ (p : MockPosition). record p { closed = true }) a.positions;
}

-- A position under the next ticket.
abbrev pub add_position : ProviderPosition → MockAccount → MockAccount
add_position p a = record a {
  positions =
      map_set (has_ticket a.next_ticket)
        (record { position = record p { ticket = a.next_ticket }; closed = false }) a.positions;
  next_ticket = a.next_ticket + 1;
}

-- `existing.volume + request.volume`, at the average price.
abbrev pub merged_into :
    OpenPositionRequest → Number → SymbolRow → ProviderPosition → ProviderPosition
merged_into r price s p =
    let total = round (add p.volume r.volume) 2 in
    record p {
      open_price =
          round (divide (add (multiply p.open_price p.volume) (multiply price r.volume)) total)
            s.digits;
      volume = total;
    }

abbrev pub new_position : ℕ → OpenPositionRequest → Number → ℕ → ProviderPosition
new_position ticket r price now = record {
  ticket = ticket;
  symbol = to_upper r.symbol;
  order_type = r.order_type;
  volume = r.volume;
  open_price = price;
  current_price = price;
  sl = r.sl;
  tp = r.tp;
  profit = of_nat 0;
  opened_at = now;
  comment = some r.client_id;
}

abbrev open_new : ℕ → OpenPositionRequest → Number → MockAccount → OrderResult × MockAccount
open_new now r price a = (
  record (executed a.next_ticket) { price = some price; volume = some r.volume },
  add_position (new_position a.next_ticket r price now) a,
)

abbrev merge :
    OpenPositionRequest
    → Number
    → SymbolRow
    → ProviderPosition
    → MockAccount
    → OrderResult × MockAccount
merge r price s p a = (
  record (executed p.ticket) { price = some price; volume = some r.volume },
  write_position p.ticket (merged_into r price s) a,
)

-- The open position of the symbol on a netting account.
unfoldable pub netted : OpenPositionRequest → MockAccount → Option MockPosition
netted r a =
    if a.netting
    then find (λ p. not p.closed && text_eq p.position.symbol (to_upper r.symbol)) a.positions
    else none

unfoldable pub fill_order :
    ℕ
    → OpenPositionRequest
    → Number
    → SymbolRow
    → Option MockPosition
    → MockAccount
    → OrderResult × MockAccount
fill_order now r price s none a = open_new now r price a
fill_order now r price s (some p) a =
    if same_type p.position.order_type r.order_type
    then merge r price s p.position a
    else open_new now r price a

module _ (sine : Number → Number) (now : ℕ) where
  unfoldable pub open_row :
      OpenPositionRequest → Option SymbolRow → MockAccount → OrderResult × MockAccount
  unfolding netted fill_order
  open_row r none a = (failure Types.invalid_symbol, a)
  open_row r (some s) a =
      if is_less r.volume s.min_lot || is_less s.max_lot r.volume
      then (failure Types.invalid_volume, a)
      else fill_order now r (current_price sine now r.symbol) s (netted r a) a

  unfoldable pub open_position : OpenPositionRequest → MockAccount → OrderResult × MockAccount
  unfolding open_row
  open_position r a = open_row r (symbol_row r.symbol) a

  -- What the broker remembers of a close.
  unfoldable pub close_record : ProviderPosition → Number → Number → MockClose
  close_record p volume profit = record {
    ticket = p.ticket;
    symbol = p.symbol;
    order_type = p.order_type;
    open_price = p.open_price;
    close_price = p.current_price;
    profit = profit;
    volume = volume;
    opened_at = p.opened_at;
    closed_at = now;
    reason = CloseReason.copied_close;
  }

  -- The profit is booked and the close recorded, before the position itself changes.
  unfoldable pub book_close : ProviderPosition → Number → MockAccount → MockAccount
  unfolding close_record
  book_close p volume a =
      let profit = round (multiply (profit_of sine now p) (divide volume p.volume)) 2 in
      record a {
        balance = round (add a.balance profit) 2;
        closes = map_set (is_close_of p.ticket) (close_record p volume profit) a.closes;
      }

-- MT4 closes the ticket and opens a new one for the remainder; MT5 reduces the volume.
unfoldable pub reduce :
    Platform → ProviderPosition → Number → MockAccount → OrderResult × MockAccount
reduce Platform.mt4 p volume a = (
  record (executed p.ticket) { remainder_ticket = some a.next_ticket; volume = some volume },
  add_position (record p { volume = round (subtract p.volume volume) 2 }) (mark_closed p.ticket a),
)
reduce Platform.mt5 p volume a = (
  record (executed p.ticket) { volume = some volume },
  write_position p.ticket (λ q. record q { volume = round (subtract p.volume volume) 2 }) a,
)

unfoldable pub settle_close : ProviderPosition → Number → MockAccount → OrderResult × MockAccount
unfolding reduce
settle_close p volume a =
    if is_at_most p.volume volume
    then (record (executed p.ticket) { volume = some volume }, mark_closed p.ticket a)
    else reduce a.platform p volume a

-- `request.volume ?? position.volume`
abbrev pub closing_volume : Option Number → ProviderPosition → Number
closing_volume none p = p.volume
closing_volume (some v) p = v

-- `request.sl ?? position.sl`
abbrev pub or_kept : Option Number → Option Number → Option Number
or_kept none old = old
or_kept (some x) old = some x

-- `account.positions.get(ticket)`, where a position that has ended counts as missing.
abbrev pub find_open : ℕ → MockAccount → Option MockPosition
find_open t a = elim (find (has_ticket t) a.positions) [
  | none ↦ none
  | some p ↦ if p.closed then none else some p
]

unfoldable pub modify_found :
    ModifyPositionRequest → Option MockPosition → MockAccount → OrderResult × MockAccount
modify_found r none a = (failure Types.position_not_found, a)
modify_found r (some p) a = (
  executed p.position.ticket,
  write_position r.ticket (λ q. record q { sl = or_kept r.sl q.sl; tp = or_kept r.tp q.tp }) a,
)

unfoldable pub modify_position : ModifyPositionRequest → MockAccount → OrderResult × MockAccount
unfolding modify_found
modify_position r a = modify_found r (find_open r.ticket a) a

module _ (sine : Number → Number) (now : ℕ) where
  unfoldable pub close_found :
      ClosePositionRequest → Option MockPosition → MockAccount → OrderResult × MockAccount
  unfolding book_close settle_close
  close_found r none a = (failure Types.position_not_found, a)
  close_found r (some p) a =
      let volume = closing_volume r.volume p.position in
      settle_close p.position volume (book_close sine now p.position volume a)

  unfoldable pub close_position : ClosePositionRequest → MockAccount → OrderResult × MockAccount
  unfolding close_found
  close_position r a = close_found r (find_open r.ticket a) a

-- ===== src/MetaApi/Deals.antt =====
-- Closed positions and trades, rebuilt from the deals of an account.
use copytrade_dashboard.Base.{
  ℕ, Bool, false, not, Option, none, some, List, [], ◌∷◌, ◌++◌, find, filter, take, ◌==◌,
  if◌then◌else◌,
}
use copytrade_dashboard.Base.Sorting.{newest_first}
use copytrade_dashboard.Number.Defs.{Number, of_nat, add, is_less, to_fixed}
use copytrade_dashboard.Text.{Text, text_eq}
use copytrade_dashboard.Types.{OrderType, CloseReason, ClosedPositionResult, AccountTrade}
use copytrade_dashboard.Mock.State.{codes}
use copytrade_dashboard.Strategy.Slug.{is_empty}
use copytrade_dashboard.MetaApi.Sdk.{Deal}

abbrev pub is_entry : Deal → Bool
is_entry d = text_eq d.entry_type (codes "DEAL_ENTRY_IN")

abbrev pub is_exit : Deal → Bool
is_exit d = not (is_entry d)

abbrev pub is_sell : Text → Bool
is_sell kind = text_eq kind (codes "DEAL_TYPE_SELL")

-- `value ?? 0`, and the sum of a column.
abbrev pub or_zero : Option Number → Number
or_zero none = of_nat 0
or_zero (some x) = x

unfoldable pub sum_from : Number → (Deal → Option Number) → List Deal → Number
sum_from total pick [] = total
sum_from total pick (d ∷ ds) = sum_from (add total (or_zero (pick d))) pick ds

abbrev pub sum : List Deal → (Deal → Option Number) → Number
sum deals pick = sum_from (of_nat 0) pick deals

-- `closeReasonOf`
unfoldable pub reason_of : Text → CloseReason
reason_of reason =
    if text_eq reason (codes "DEAL_REASON_SL")
    then CloseReason.stop_loss
    else if text_eq reason (codes "DEAL_REASON_TP")
    then CloseReason.take_profit
    else if text_eq reason (codes "DEAL_REASON_EXPERT")
    then CloseReason.copied_close
    else if text_eq reason (codes "DEAL_REASON_CLIENT")
    then CloseReason.manual
    else if text_eq reason (codes "DEAL_REASON_MOBILE")
    then CloseReason.manual
    else if text_eq reason (codes "DEAL_REASON_WEB")
    then CloseReason.manual
    else CloseReason.other

unfoldable pub close_reason_of : Option Text → Option CloseReason
unfolding reason_of
close_reason_of none = none
close_reason_of (some reason) = some (reason_of reason)

abbrev pub last_of : List Deal → Option Deal
last_of [] = none
last_of (d ∷ []) = some d
last_of (d ∷ e ∷ ds) = last_of (e ∷ ds)

-- What a position earned: profit, commission and swap of each deal in turn.
unfoldable pub earned_from : Number → List Deal → Number
earned_from total [] = total
earned_from total (d ∷ ds) =
    earned_from (add (add (add total (or_zero d.profit)) (or_zero d.commission)) (or_zero d.swap))
      ds

-- `x || undefined`
abbrev non_zero : Number → Option Number
non_zero x = if is_less (of_nat 0) x then some x else if is_less x (of_nat 0) then some x else none

unfoldable pub closed_with : ℕ → List Deal → Option Deal → Option ClosedPositionResult
unfolding sum_from earned_from close_reason_of
closed_with ticket deals none = none
closed_with ticket deals (some last) = some (record {
  ticket = ticket;
  close_price = last.price;
  profit = to_fixed 99 (earned_from (of_nat 0) deals);
  volume = non_zero (sum (filter is_exit deals) (λ d. d.volume));
  closed_at = some last.time;
  reason = close_reason_of last.reason;
})

-- `directionOf`: the entry says it, or the exit by opposition.
abbrev pub direction_of : Option Deal → Deal → OrderType
direction_of (some entry) exit = if is_sell entry.kind then OrderType.sell else OrderType.buy
direction_of none exit = if is_sell exit.kind then OrderType.buy else OrderType.sell

abbrev symbol_or_empty : Option Text → Text
symbol_or_empty none = []
symbol_or_empty (some s) = s

abbrev symbol_of : Option Deal → Deal → Text
symbol_of none last = symbol_or_empty last.symbol
symbol_of (some entry) last = elim entry.symbol [ none ↦ symbol_or_empty last.symbol | some s ↦ s ]

abbrev price_of : Option Deal → Option Number
price_of none = none
price_of (some d) = d.price

abbrev time_of : Option Deal → Option ℕ
time_of none = none
time_of (some d) = some d.time

abbrev round2 : Number → Number
round2 x = to_fixed 99 x

unfoldable pub trade_with : ℕ → List Deal → Option Deal → Option Deal → Option AccountTrade
unfolding sum_from close_reason_of
trade_with ticket group entry none = none
trade_with ticket group entry (some last) =
    let commission = sum group (λ d. d.commission) in
    let swap = sum group (λ d. d.swap) in
    some (record {
      ticket = ticket;
      symbol = symbol_of entry last;
      order_type = direction_of entry last;
      volume = sum (filter is_exit group) (λ d. d.volume);
      open_price = price_of entry;
      close_price = last.price;
      profit = round2 (add (add (sum group (λ d. d.profit)) commission) swap);
      commission = some (round2 commission);
      swap = some (round2 swap);
      opened_at = time_of entry;
      closed_at = last.time;
      reason = close_reason_of last.reason;
    })

-- The trade of a position, if some deal closed it.
unfoldable pub trade_of_group : ℕ × List Deal → Option AccountTrade
unfolding trade_with
trade_of_group (ticket, group) =
    trade_with ticket group (find is_entry group) (last_of (filter is_exit group))

-- The `Map` of the groups, in the order of insertion.
unfoldable pub add_to : ℕ → Deal → List (ℕ × List Deal) → List (ℕ × List Deal)
add_to id d [] = (id, d ∷ []) ∷ []
add_to id d ((k, group) ∷ m) =
    let rest = add_to id d m in if k == id then (k, group ++ d ∷ []) ∷ m else (k, group) ∷ rest

abbrev has_symbol : Option Text → Bool
has_symbol none = false
has_symbol (some s) = not (is_empty s)

-- The position of a deal that has one and a symbol.
abbrev pub position_of : Deal → Option ℕ
position_of d = if has_symbol d.symbol then d.position_id else none

unfoldable pub add_deal : Deal → Option ℕ → List (ℕ × List Deal) → List (ℕ × List Deal)
unfolding add_to
add_deal d none m = m
add_deal d (some id) m = add_to id d m

unfoldable pub group_from : List (ℕ × List Deal) → List Deal → List (ℕ × List Deal)
unfolding add_deal
group_from m [] = m
group_from m (d ∷ ds) = group_from (add_deal d (position_of d) m) ds

-- The trades that there are.
unfoldable pub collect : {A : Type 0} → (A → Option AccountTrade) → List A → List AccountTrade
collect f [] = []
collect f (x ∷ xs) = let rest = collect f xs in elim (f x) [ none ↦ rest | some t ↦ t ∷ rest ]

-- `groupDealsIntoTrades`
unfoldable pub group_deals_into_trades : List Deal → ℕ → List AccountTrade
unfolding group_from trade_of_group collect newest_first
group_deals_into_trades deals limit =
    take limit (newest_first (λ t. t.closed_at) (collect trade_of_group (group_from [] deals)))

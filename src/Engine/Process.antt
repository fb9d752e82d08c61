-- ===== src/Engine/Process.antt =====
-- `processTradeEvent` and `copyToMember`: one master event, fanned out to every subscriber.
use copytrade_dashboard.Base.{
  ℕ, ◌+◌, Bool, true, false, ◌&&◌, Option, none, some, List, [], ◌∷◌, ◌++◌, find, any, ◌==◌,
  if◌then◌else◌,
}
use copytrade_dashboard.Number.Defs.{of_nat}
use copytrade_dashboard.Text.{Text}
use copytrade_dashboard.Types.{EventType, CopyStatus, not_found}
use copytrade_dashboard.Store.Rows.{
  TradeEvent, EventStatus, Subscription, SubscriptionStatus, TradingAccount, CopyTrade,
  CopyTradeStatus, of_code, system_error,
}
use copytrade_dashboard.Store.Monad.{
  Failure, app_error, code_of, ok, Action, ◌>>=◌, ◌>>◌, pure, throw, gets, modify, try_catch,
}
use copytrade_dashboard.Store.Tables.{TradeProvider, World, update_where}
use copytrade_dashboard.Symbol.{resolve_member_symbol}
use copytrade_dashboard.Engine.Session.{is_connected, find_account, ensure_provider_session}
use copytrade_dashboard.Engine.Records.{Verdict, success, failed, skipped, emit, update_copy_trade}
use copytrade_dashboard.Engine.Open.{MemberContext, open_for_member}
use copytrade_dashboard.Engine.Adjust.{adjust_for_member}

pub record CopyOutcome : Type 0 where
  pub processed : ℕ
  pub succeeded : ℕ
  pub failed_count : ℕ
  pub skipped_count : ℕ

abbrev pub no_outcome : CopyOutcome
no_outcome = record { processed = 0; succeeded = 0; failed_count = 0; skipped_count = 0 }

-- The pair of the unique constraint on copies.
abbrev pub is_copy_of : ℕ → ℕ → CopyTrade → Bool
is_copy_of event_id account_id t = t.event_id == event_id && t.account_id == account_id

abbrev pub opens : EventType → Bool
opens EventType.open_trade = true
opens EventType.pending_order = true
opens _ = false

-- The row that `copyToMember` creates first.
unfoldable pub new_copy_trade : MemberContext → Text → ℕ → CopyTrade
new_copy_trade c member_symbol id = record {
  id = id;
  event_id = c.event.event_id;
  strategy_id = c.event.strategy_id;
  subscription_id = c.subscription.id;
  account_id = c.account.id;
  master_trade_id = c.event.master_trade_id;
  event_type = c.event.event_type;
  master_ticket = c.event.ticket;
  master_symbol = c.event.symbol;
  member_symbol = member_symbol;
  order_type = c.event.order_type;
  master_volume = c.event.volume;
  member_volume = of_nat 0;
  master_price = c.event.price;
  member_price = none;
  member_ticket = none;
  sl = c.event.sl;
  tp = c.event.tp;
  status = CopyTradeStatus.pending;
  attempts = 0;
  skip_reason = none;
  error_code = none;
  executed_at = none;
}

-- The row after an error was thrown.
abbrev pub copy_failed : Failure → CopyTrade → CopyTrade
copy_failed e t = record t {
  status = CopyTradeStatus.failed;
  error_code = some (of_code (code_of e));
  attempts = t.attempts + 1;
}

-- The eligible subscriptions of a strategy, each with its account.
abbrev pub is_eligible : ℕ → Subscription → Bool
is_eligible strategy_id s =
    s.strategy_id == strategy_id
    && elim s.status [ SubscriptionStatus.active ↦ true | _ ↦ false ]
    && elim s.copy_status [ CopyStatus.copying ↦ true | _ ↦ false ]

abbrev pub with_account :
    Subscription → Option TradingAccount → List (Subscription × TradingAccount)
with_account s none = []
with_account s (some account) =
    if is_connected account.connection_status then (s, account) ∷ [] else []

module _ {B : Type 0} where
  unfoldable pub select_eligible :
      ℕ → World B → List Subscription → List (Subscription × TradingAccount)
  select_eligible strategy_id w [] = []
  select_eligible strategy_id w (s ∷ ss) =
      let rest = select_eligible strategy_id w ss in
      if is_eligible strategy_id s
      then with_account s (find_account s.account_id w) ++ rest
      else rest

  -- `prisma.copyTrade.create`: `none` is the violation of the unique constraint.
  unfoldable pub create_copy_trade : MemberContext → Text → Action (World B) (Option ℕ)
  create_copy_trade c member_symbol w =
      if any (is_copy_of c.event.event_id c.account.id) w.copy_trades then (ok none, w) else (
        ok (some w.next_id),
        record w {
          copy_trades = w.copy_trades ++ new_copy_trade c member_symbol w.next_id ∷ [];
          next_id = w.next_id + 1;
        },
      )

  -- The `catch` branch of `copyToMember`.
  unfoldable pub record_failure : MemberContext → ℕ → Failure → Action (World B) Verdict
  record_failure c copy_trade_id e = do
    update_copy_trade copy_trade_id (copy_failed e)
    emit (system_error (code_of e) c.account.id c.event.event_id)
    pure failed

  unfoldable pub copy_with_row :
      TradeProvider B → MemberContext → Text → Option ℕ → Action (World B) Verdict
  copy_with_row p c member_symbol none = pure skipped
  copy_with_row p c member_symbol (some copy_trade_id) =
      try_catch
        (if opens c.event.event_type
          then open_for_member p c member_symbol copy_trade_id c.subscription.copy_settings
          else adjust_for_member p c copy_trade_id)
        (record_failure c copy_trade_id)

  unfoldable pub copy_to_member : TradeProvider B → MemberContext → Action (World B) Verdict
  copy_to_member p c w =
      let member_symbol =
        resolve_member_symbol c.event.symbol c.event.strategy_id c.account.id w.symbol_mappings in
      (create_copy_trade c member_symbol >>= copy_with_row p c member_symbol) w

  unfoldable pub copy_in_session :
      TradeProvider B → TradeEvent → Subscription → TradingAccount → ℕ → Action (World B) Verdict
  copy_in_session p event s account session =
      copy_to_member p (record {
        event = event;
        subscription = s;
        account = account;
        provider_account_id = session;
      })

  -- The body of the loop, with its `catch`.
  unfoldable pub process_subscription :
      TradeProvider B → TradeEvent → Subscription × TradingAccount → Action (World B) Verdict
  process_subscription p event (s, account) =
      try_catch (ensure_provider_session p s.account_id false >>= copy_in_session p event s account)
        (λ e. pure failed)

-- The counters after one more subscription.
abbrev pub tally : Verdict → CopyOutcome → CopyOutcome
tally success o = record o { processed = o.processed + 1; succeeded = o.succeeded + 1 }
tally failed o = record o { processed = o.processed + 1; failed_count = o.failed_count + 1 }
tally skipped o = record o { processed = o.processed + 1; skipped_count = o.skipped_count + 1 }

abbrev pub mark_processing : TradeEvent → TradeEvent
mark_processing e = record e { status = EventStatus.processing }

abbrev pub mark_processed : ℕ → ℕ → TradeEvent → TradeEvent
mark_processed now count e = record e {
  status = EventStatus.processed;
  processed_at = some now;
  fan_out_count = count;
}

abbrev pub is_processed : EventStatus → Bool
is_processed EventStatus.processed = true
is_processed _ = false

module _ {B : Type 0} where
  unfoldable pub fan_out :
      TradeProvider B
      → TradeEvent
      → CopyOutcome
      → List (Subscription × TradingAccount)
      → Action (World B) CopyOutcome
  fan_out p event o [] = pure o
  fan_out p event o (s ∷ ss) = do
    verdict ← process_subscription p event s
    fan_out p event (tally verdict o) ss

  abbrev pub update_event : ℕ → (TradeEvent → TradeEvent) → Action (World B) (Unit {0})
  update_event id f =
      modify (λ w. record w { events = update_where (λ e. e.event_id == id) f w.events })

  unfoldable pub finish_event : TradeEvent → CopyOutcome → Action (World B) CopyOutcome
  finish_event event outcome = do
    now ← gets (λ w. w.now)
    update_event event.event_id (mark_processed now outcome.processed)
    pure outcome

  unfoldable pub process_found : TradeProvider B → TradeEvent → Action (World B) CopyOutcome
  process_found p event = do
    update_event event.event_id mark_processing
    eligible ← gets (λ w. select_eligible event.strategy_id w w.subscriptions)
    outcome ← fan_out p event no_outcome eligible
    finish_event event outcome

  unfoldable pub process_if_found :
      TradeProvider B → Option TradeEvent → Action (World B) CopyOutcome
  process_if_found p none = throw (app_error not_found)
  process_if_found p (some event) =
      if is_processed event.status then pure no_outcome else process_found p event

  unfoldable pub process_trade_event : TradeProvider B → ℕ → Action (World B) CopyOutcome
  process_trade_event p event_id w =
      process_if_found p (find (λ e. e.event_id == event_id) w.events) w

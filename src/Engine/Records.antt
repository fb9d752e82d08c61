-- ===== src/Engine/Records.antt =====
-- What the engine writes about one copy: `recordFill`, `skip`, `loadRiskState`, `pauseForBreach`.
use copytrade_dashboard.Base.{
  ℕ, ◌+◌, Bool, true, false, ◌&&◌, Option, none, some, [], ◌∷◌, ◌++◌, find, any, ◌==◌,
  if◌then◌else◌,
}
use copytrade_dashboard.Base.Int.{increment}
use copytrade_dashboard.Number.Defs.{Number, of_nat}
use copytrade_dashboard.Text.{Text}
use copytrade_dashboard.Types.{CopyStatus, opened}
use copytrade_dashboard.Risk.{RiskReason}
use copytrade_dashboard.Store.Rows.{
  TradeEvent, TradingAccount, Subscription, CopyTrade, CopyTradeStatus, CopyErrorCode, SkipReason,
  PositionMapping, RiskState, Effect, trade_copied, copy_trade_published, breach_notified,
  risk_triggered, risk_breach_published,
}
use copytrade_dashboard.Store.Monad.{ok, Action, ◌>>=◌, ◌>>◌, pure, gets, modify}
use copytrade_dashboard.Store.Tables.{World, update_where, start_of_day}
use copytrade_dashboard.Engine.Session.{update_account}

-- The answer for one member.
pub data Verdict : Type 0 where
  success failed skipped : Verdict

-- `a ?? b`
abbrev pub or_else : {A : Type 0} → Option A → A → A
or_else none b = b
or_else (some a) _ = a

abbrev pub is_mapping : ℕ → ℕ → PositionMapping → Bool
is_mapping account_id master_ticket m =
    m.account_id == account_id && m.master_ticket == master_ticket

-- The state of an account whose row does not exist yet.
abbrev pub new_risk_state : TradingAccount → ℕ → RiskState
new_risk_state account today = record {
  account_id = account.id;
  trading_day = today;
  daily_start_equity = account.equity;
  daily_realized_pnl = of_nat 0;
  breached = false;
  breach_reason = none;
  breached_at = none;
}

-- A new trading day resets the daily counters.
abbrev pub reset_risk_state : TradingAccount → ℕ → RiskState → RiskState
reset_risk_state account today s = record s {
  trading_day = today;
  daily_start_equity = account.equity;
  daily_realized_pnl = of_nat 0;
  breached = false;
  breach_reason = none;
  breached_at = none;
}

abbrev pub breach : RiskReason → ℕ → RiskState → RiskState
breach reason now s = record s {
  breached = true;
  breach_reason = some reason;
  breached_at = some now;
}

-- The row of a copy after a fill, and after a skip.
abbrev pub filled : ℕ → Number → Option Number → ℕ → CopyTrade → CopyTrade
filled ticket volume price now c = record c {
  status = CopyTradeStatus.success;
  member_ticket = some ticket;
  member_volume = volume;
  member_price = price;
  executed_at = some now;
}

abbrev pub skipped_for : SkipReason → Option CopyErrorCode → CopyTrade → CopyTrade
skipped_for reason code c = record c {
  status = CopyTradeStatus.skipped;
  skip_reason = some reason;
  error_code = code;
}

module _ {B : Type 0} where
  abbrev pub emit : Effect → Action (World B) (Unit {0})
  emit e = modify (λ w. record w { outbox = e ∷ w.outbox })

  abbrev pub update_copy_trade : ℕ → (CopyTrade → CopyTrade) → Action (World B) (Unit {0})
  update_copy_trade id f =
      modify (λ w. record w { copy_trades = update_where (λ c. c.id == id) f w.copy_trades })

  -- The upsert on the unique pair of account and master ticket.
  unfoldable pub upsert_mapping :
      Subscription → TradeEvent → ℕ → Number → Number → Text → Action (World B) (Unit {0})
  upsert_mapping s event ticket volume open_price symbol w =
      let at = is_mapping s.account_id event.ticket in
      (
        ok tt,
        if any at w.mappings
            then record w {
              mappings =
                  update_where at
                    (λ m. record m { member_ticket = ticket; volume = volume; status = opened })
                    w.mappings;
            }
            else record w {
              mappings =
                  w.mappings
                  ++ (record {
                    id = w.next_id;
                    master_trade_id = event.master_trade_id;
                    subscription_id = s.id;
                    account_id = s.account_id;
                    master_ticket = event.ticket;
                    member_ticket = ticket;
                    ticket_history = [];
                    symbol = symbol;
                    order_type = event.order_type;
                    volume = volume;
                    open_price = open_price;
                    sl = event.sl;
                    tp = event.tp;
                    status = opened;
                    closed_at = none;
                    close_price = none;
                    profit = none;
                    close_reason = none;
                  })
                    ∷ [];
              next_id = w.next_id + 1;
            },
      )

  -- `ticket` is the broker's ticket, which the callers have checked to be there.
  unfoldable pub record_fill :
      ℕ
      → ℕ
      → Option Number
      → Number
      → Subscription
      → TradeEvent
      → Text
      → Action (World B) (Unit {0})
  record_fill copy_trade_id ticket price volume s event symbol = do
    now ← gets (λ w. w.now)
    update_copy_trade copy_trade_id (filled ticket volume price now)
    upsert_mapping s event ticket volume (or_else price event.price) symbol
    update_account s.account_id (λ a. record a { open_trades = increment a.open_trades })
    emit (trade_copied s.user_id copy_trade_id)
    emit (copy_trade_published s.user_id CopyTradeStatus.success symbol volume)

  unfoldable pub skip : ℕ → SkipReason → Option CopyErrorCode → Action (World B) Verdict
  skip copy_trade_id reason code = do
    update_copy_trade copy_trade_id (skipped_for reason code)
    pure skipped

  unfoldable pub use_risk_state : TradingAccount → Option RiskState → Action (World B) RiskState
  use_risk_state account none w =
      let s = new_risk_state account (start_of_day w.now) in
      (ok s, record w { risk_states = w.risk_states ++ s ∷ [] })
  use_risk_state account (some s) w =
      let today = start_of_day w.now in
      if s.trading_day == today then (ok s, w) else (
        ok (reset_risk_state account today s),
        record w {
          risk_states =
              update_where (λ r. r.account_id == account.id) (reset_risk_state account today)
                w.risk_states;
        },
      )

  unfoldable pub load_risk_state : TradingAccount → Action (World B) RiskState
  load_risk_state account w =
      use_risk_state account (find (λ r. r.account_id == account.id) w.risk_states) w

  unfoldable pub mark_breached : ℕ → RiskReason → World B → World B
  mark_breached account_id reason w =
      if any (λ r. r.account_id == account_id) w.risk_states
      then record w {
        risk_states =
            update_where (λ r. r.account_id == account_id) (breach reason w.now) w.risk_states;
      }
      else record w {
        risk_states =
            w.risk_states
            ++ (record {
              account_id = account_id;
              trading_day = start_of_day w.now;
              daily_start_equity = of_nat 0;
              daily_realized_pnl = of_nat 0;
              breached = true;
              breach_reason = some reason;
              breached_at = some w.now;
            })
              ∷ [];
      }

  unfoldable pub pause_for_breach : Subscription → RiskReason → Action (World B) (Unit {0})
  pause_for_breach s reason = do
    modify λ w. record w {
      subscriptions =
          update_where (λ t. t.id == s.id)
            (λ t. record t { copy_status = CopyStatus.paused; paused_at = some w.now })
            w.subscriptions;
    }
    modify (mark_breached s.account_id reason)
    emit (breach_notified s.user_id reason)
    emit (risk_triggered s.user_id s.id reason)
    emit (risk_breach_published s.user_id reason)

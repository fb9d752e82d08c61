-- ===== src/Reconcile/Account.antt =====
-- `reconcileAccount`: one account.
use copytrade_dashboard.Base.Sorting.{newest_first}
use copytrade_dashboard.Base.{
  take, ℕ, ◌-◌, Bool, true, false, ◌&&◌, ◌||◌, not, Option, none, some, List, [], ◌∷◌, filter, any,
  length, ◌==◌, leb, if◌then◌else◌,
}
use copytrade_dashboard.Base.Int.{pos}
use copytrade_dashboard.Number.Defs.{Number, max_of, of_nat}
use copytrade_dashboard.Types.{
  AccountInfo, ProviderPosition, ConnectionStatus, PositionStatus, closed, ClosedPositionResult,
  CloseReason,
}
use copytrade_dashboard.Store.Rows.{PositionMapping, TradingAccount}
use copytrade_dashboard.Store.Monad.{Action, ◌>>=◌, ◌>>◌, pure}
use copytrade_dashboard.Store.Tables.{TradeProvider, World}
use copytrade_dashboard.Engine.Session.{
  is_connected, is_error, broker_query, find_account, update_account, ensure_provider_session,
}
use copytrade_dashboard.Engine.Records.{or_else}
use copytrade_dashboard.Engine.Adjust.{
  is_closed, closed_result, update_mapping, closed_at_of, close_price_of, profit_of,
}

pub record ReconcileResult : Type 0 where
  pub open_positions : ℕ
  pub closed_mappings : ℕ
  pub equity : Number

abbrev pub nothing_reconciled : ReconcileResult
nothing_reconciled = record { open_positions = 0; closed_mappings = 0; equity = of_nat 0 }

abbrev pub is_reachable : TradingAccount → Bool
is_reachable a = is_connected a.connection_status || is_error a.connection_status

-- The broker reports the ticket.
abbrev pub is_live : List ProviderPosition → ℕ → Bool
is_live positions ticket = any (λ p. p.ticket == ticket) positions

-- `status: { in: ["OPEN", "PARTIALLY_CLOSED"] }`
abbrev pub is_open_status : PositionStatus → Bool
is_open_status PositionStatus.opened = true
is_open_status PositionStatus.partially_closed = true
is_open_status _ = false

-- Believed open for the account, and not reported by its broker.
abbrev pub is_vanished : ℕ → List ProviderPosition → PositionMapping → Bool
is_vanished account_id positions m =
    m.account_id == account_id && is_open_status m.status && not (is_live positions m.member_ticket)

abbrev broker_reason : Option ClosedPositionResult → Option CloseReason
broker_reason none = none
broker_reason (some r) = r.reason

-- Closed outside the platform: what the broker recorded, and nothing where it recorded nothing.
unfoldable pub closed_at_broker :
    Option ClosedPositionResult → ℕ → PositionMapping → PositionMapping
closed_at_broker result now m = record m {
  status = closed;
  closed_at = some (closed_at_of result now);
  close_price = close_price_of result;
  profit = profit_of result;
  close_reason = broker_reason result;
}

-- A result that the broker had not recorded at the time of the close.
unfoldable pub backfilled : ClosedPositionResult → PositionMapping → PositionMapping
backfilled r m = record m {
  close_price = r.close_price;
  profit = some r.profit;
  close_reason = elim r.reason [ none ↦ m.close_reason | some reason ↦ some reason ];
}

abbrev closed_since : ℕ → Option ℕ → Bool
closed_since time none = false
closed_since time (some at) = leb time at

abbrev has_no_profit : Option Number → Bool
has_no_profit none = true
has_no_profit (some p) = false

-- Closed within a day and still without a profit.
abbrev pub misses_result : ℕ → ℕ → PositionMapping → Bool
misses_result account_id now m =
    m.account_id == account_id
    && is_closed m.status
    && has_no_profit m.profit
    && closed_since (now - 86400000) m.closed_at

-- `orderBy: { closedAt: "desc" }`
abbrev pub closing_time : PositionMapping → ℕ
closing_time m = or_else m.closed_at 0

-- The account after its broker has answered.
unfoldable pub refreshed :
    AccountInfo → List ProviderPosition → Number → TradingAccount → TradingAccount
refreshed info positions peak a = record a {
  balance = info.balance;
  equity = info.equity;
  peak_equity = peak;
  open_trades = pos (length positions);
  connection_status =
      if is_error a.connection_status then ConnectionStatus.connected else a.connection_status;
}

module _ {B : Type 0} where
  unfoldable pub close_vanished :
      TradeProvider B → ℕ → List PositionMapping → Action (World B) (Unit {0})
  close_vanished p session [] w = pure tt w
  close_vanished p session (m ∷ ms) w =
      let result = closed_result (p.get_closed_position session m.member_ticket w.broker) in
      (update_mapping m.id (closed_at_broker result w.now) >> close_vanished p session ms) w

  unfoldable pub backfill_one :
      PositionMapping → Option ClosedPositionResult → Action (World B) (Unit {0})
  backfill_one m none = pure tt
  backfill_one m (some r) = update_mapping m.id (backfilled r)

  unfoldable pub backfill : TradeProvider B → ℕ → List PositionMapping → Action (World B) (Unit {0})
  backfill p session [] w = pure tt w
  backfill p session (m ∷ ms) w =
      let result = closed_result (p.get_closed_position session m.member_ticket w.broker) in
      (backfill_one m result >> backfill p session ms) w

  unfoldable pub backfill_missing : TradeProvider B → ℕ → ℕ → Action (World B) (Unit {0})
  unfolding newest_first
  backfill_missing p session account_id w =
      backfill p session
        (take 20 (newest_first closing_time (filter (misses_result account_id w.now) w.mappings))) w

  unfoldable pub reconcile_with :
      TradeProvider B
      → TradingAccount
      → ℕ
      → AccountInfo
      → List ProviderPosition
      → Action (World B) ReconcileResult
  reconcile_with p account session info positions w =
      let vanished = filter (is_vanished account.id positions) w.mappings in
      (close_vanished p session vanished
          >> (backfill_missing p session account.id
              >> (update_account account.id
                    (refreshed info positions (max_of account.peak_equity info.equity))
                  >> pure (record {
                    open_positions = length positions;
                    closed_mappings = length vanished;
                    equity = info.equity;
                  }))))
        w

  unfoldable pub reconcile_session :
      TradeProvider B → TradingAccount → ℕ → Action (World B) ReconcileResult
  reconcile_session p account session = do
    info ← broker_query (p.get_account_info session)
    positions ← broker_query (p.get_positions session)
    reconcile_with p account session info positions

  unfoldable pub reconcile_found :
      TradeProvider B → Option TradingAccount → Action (World B) ReconcileResult
  reconcile_found p none = pure nothing_reconciled
  reconcile_found p (some account) =
      if is_reachable account
      then ensure_provider_session p account.id true >>= reconcile_session p account
      else pure nothing_reconciled

  unfoldable pub reconcile_account : TradeProvider B → ℕ → Action (World B) ReconcileResult
  reconcile_account p account_id w = reconcile_found p (find_account account_id w) w

-- ===== src/Watch/Poll.antt =====
-- `pollMasterAccount` and `pollAllMasterAccounts`.
use copytrade_dashboard.Base.{
  ℕ, ◌+◌, Bool, true, false, ◌&&◌, Option, none, some, List, [], ◌∷◌, ◌++◌, any, find, filter,
  length, ◌==◌, if◌then◌else◌,
}
use copytrade_dashboard.Number.Defs.{Number}
use copytrade_dashboard.Types.{EventType, opened, AccountInfo, ProviderPosition}
use copytrade_dashboard.Store.Rows.{TradingAccount}
use copytrade_dashboard.Store.Monad.{Result, ok, err, Action, ◌>>=◌, ◌>>◌, pure, modify, try_catch}
use copytrade_dashboard.Store.Tables.{TradeProvider, update_where}
use copytrade_dashboard.Engine.Session.{
  is_connected, broker_query, find_account, ensure_provider_session,
}
use copytrade_dashboard.Ingest.State.{MasterTrade, Inbox}
use copytrade_dashboard.Ingest.Receive.{is_active}
use copytrade_dashboard.Ingest.Record.{is_trade}
use copytrade_dashboard.Reconcile.Sweep.{has_value}
use copytrade_dashboard.Watch.State.{
  WatchedStrategy, WatchResult, empty, Detail, Watchtower, in_world, in_inbox, find_watched,
}
use copytrade_dashboard.Watch.Changes.{
  PublishContext, known_positions, vanishing, publish, one_if, watch_position,
}

-- `x.catch(() => null)`
abbrev pub or_null : {A : Type 0} → Result (Option A) → Option A
or_null (ok x) = x
or_null (err e) = none

unfoldable pub baseline_trade : ℕ → ℕ → ProviderPosition → MasterTrade
baseline_trade id strategy_id p = record {
  id = id;
  strategy_id = strategy_id;
  ticket = p.ticket;
  symbol = p.symbol;
  order_type = p.order_type;
  volume = p.volume;
  open_price = p.open_price;
  close_price = none;
  sl = p.sl;
  tp = p.tp;
  profit = none;
  status = opened;
  opened_at = p.opened_at;
  closed_at = none;
}

-- The upsert that updates nothing.
unfoldable pub record_position : ℕ → ProviderPosition → Inbox → Inbox
record_position strategy_id p w =
    if any (is_trade strategy_id p.ticket) w.trades then w else record w {
      trades = w.trades ++ baseline_trade w.next_id strategy_id p ∷ [];
      next_id = w.next_id + 1;
    }

-- `recordBaseline`
unfoldable pub record_baseline : ℕ → List ProviderPosition → Inbox → Inbox
record_baseline strategy_id [] w = w
record_baseline strategy_id (p ∷ ps) w =
    record_baseline strategy_id ps (record_position strategy_id p w)

abbrev pub recorded : ℕ → List MasterTrade → Option MasterTrade
recorded ticket known = find (λ t. t.ticket == ticket) known

abbrev pub is_live : List ProviderPosition → ℕ → Bool
is_live positions ticket = any (λ p. p.ticket == ticket) positions

-- `info?.balance ?? null`
abbrev pub balance_of : Result AccountInfo → Option Number
balance_of (ok info) = some info.balance
balance_of (err e) = none

module _ (event_id_for : ℕ → EventType → ℕ → Detail → ℕ) where
  -- The loop over what the broker reports.
  unfoldable pub watch_live :
      PublishContext
      → List MasterTrade
      → List ProviderPosition
      → WatchResult
      → Action Inbox WatchResult
  watch_live context known [] total = pure total
  watch_live context known (p ∷ ps) total =
      watch_position event_id_for context (recorded p.ticket known) p total
      >>= watch_live context known ps

  module _ {B : Type 0} (p : TradeProvider B) where
    unfoldable pub watch_gone :
        PublishContext → ℕ → B → MasterTrade → WatchResult → Action Inbox WatchResult
    watch_gone context session broker t total =
        publish event_id_for context
          (vanishing t (or_null (p.get_closed_position session t.ticket broker)))
        >>= λ sent. pure (record total { closed = total.closed + one_if sent })

    -- The loop over what was recorded.
    unfoldable pub watch_vanished :
        PublishContext
        → ℕ
        → B
        → List ProviderPosition
        → List MasterTrade
        → WatchResult
        → Action Inbox WatchResult
    unfolding watch_gone
    watch_vanished context session broker positions [] total = pure total
    watch_vanished context session broker positions (t ∷ ts) total =
        (if is_live positions t.ticket
          then pure total
          else watch_gone context session broker t total)
        >>= watch_vanished context session broker positions ts

    unfoldable pub publish_changes :
        PublishContext
        → ℕ
        → B
        → List ProviderPosition
        → List MasterTrade
        → ℕ
        → Action Inbox WatchResult
    publish_changes context session broker positions known strategy_id =
        watch_live context known positions (empty strategy_id)
        >>= watch_vanished context session broker positions known

    abbrev pub update_watched :
        ℕ → (WatchedStrategy → WatchedStrategy) → Action (Watchtower B) (Unit {0})
    update_watched id f =
        modify
          (λ s. record s { strategies = update_where (λ x. x.strategy.id == id) f s.strategies })

    unfoldable pub first_poll :
        WatchedStrategy → List ProviderPosition → Action (Watchtower B) WatchResult
    first_poll x positions s =
        (in_inbox (modify (record_baseline x.strategy.id positions))
            >> (update_watched x.strategy.id (λ y. record y {
              watch_started_at = some s.world.now;
              watch_last_poll_at = some s.world.now;
            })
                >> pure (record (empty x.strategy.id) { baseline = true })))
          s

    unfoldable pub later_poll :
        WatchedStrategy → ℕ → List ProviderPosition → Action (Watchtower B) WatchResult
    later_poll x session positions s =
        let context : PublishContext = record {
          strategy = x.strategy;
          master_balance = balance_of (p.get_account_info session s.world.broker);
        } in
        (in_inbox (
              publish_changes context session s.world.broker positions
                (known_positions x.strategy.id s.inbox) x.strategy.id)
            >>= λ total.
                update_watched x.strategy.id
                  (λ y. record y { watch_last_poll_at = some s.world.now })
                >> pure total)
          s

    unfoldable pub poll_positions :
        WatchedStrategy → ℕ → Option ℕ → List ProviderPosition → Action (Watchtower B) WatchResult
    poll_positions x session none positions = first_poll x positions
    poll_positions x session (some started) positions = later_poll x session positions

    unfoldable pub poll_session : WatchedStrategy → ℕ → Action (Watchtower B) WatchResult
    poll_session x account_id = do
      session ← in_world (ensure_provider_session p account_id false)
      positions ← in_world (broker_query (p.get_positions session))
      poll_positions x session x.watch_started_at positions

    -- The account must be connected and known to the provider.
    unfoldable pub poll_account :
        WatchedStrategy → Option TradingAccount → Action (Watchtower B) WatchResult
    poll_account x none = pure (empty x.strategy.id)
    poll_account x (some a) =
        if is_connected a.connection_status && has_value a.provider_account_id
        then poll_session x a.id
        else pure (empty x.strategy.id)

    unfoldable pub poll_linked : WatchedStrategy → Option ℕ → Action (Watchtower B) WatchResult
    poll_linked x none s = pure (empty x.strategy.id) s
    poll_linked x (some account_id) s = poll_account x (find_account account_id s.world) s

    unfoldable pub poll_found : ℕ → Option WatchedStrategy → Action (Watchtower B) WatchResult
    poll_found id none = pure (empty id)
    poll_found id (some x) = poll_linked x x.master_account_id

    unfoldable pub poll_master_account : ℕ → Action (Watchtower B) WatchResult
    poll_master_account id s = poll_found id (find_watched id s) s

    -- How many polls failed.
    unfoldable pub poll_all : List WatchedStrategy → ℕ → Action (Watchtower B) ℕ
    poll_all [] failed = pure failed
    poll_all (x ∷ xs) failed =
        try_catch (poll_master_account x.strategy.id >> pure 0) (λ e. pure 1) >>= λ n.
        poll_all xs (failed + n)

    abbrev is_watched : WatchedStrategy → Bool
    is_watched x = is_active x.strategy.status && has_value x.master_account_id

    -- `pollAllMasterAccounts`: the strategies polled and the failures.
    unfoldable pub poll_all_master_accounts : Action (Watchtower B) (ℕ × ℕ)
    poll_all_master_accounts s =
        let xs = filter is_watched s.strategies in
        (poll_all xs 0 >>= λ failed. pure (length xs, failed)) s

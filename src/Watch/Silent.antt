-- ===== src/Watch/Silent.antt =====
-- Two polls of a strategy that starts to watch an account.
use copytrade_dashboard.Base.{ℕ, ◌≡◌, some, List, ◌==◌}
use copytrade_dashboard.Types.{EventType, ConnectionStatus, AccountInfo, ProviderPosition}
use copytrade_dashboard.Store.Rows.{TradingAccount}
use copytrade_dashboard.Store.Monad.{ok}
use copytrade_dashboard.Store.Tables.{TradeProvider, World, update_where}
use copytrade_dashboard.Engine.Session.{find_account}
use copytrade_dashboard.Watch.State.{WatchedStrategy, Detail, Watchtower, find_watched}
use copytrade_dashboard.Watch.Poll.{record_baseline}
use copytrade_dashboard.Watch.Baseline.{AreDistinct, AreUnmoved, IsBlank}

module _ {B : Type 0} (p : TradeProvider B) where
  -- The master account is connected, its session is alive, and the broker reports these positions.
  pub record Reports (account_id session : ℕ) (ps : List ProviderPosition) (w : World B)
      : Type 0 where
    pub account : TradingAccount
    pub found : find_account account_id w ≡ some account
    pub connected : account.connection_status ≡ ConnectionStatus.connected
    pub known_id : account.provider_account_id ≡ some session
    pub password : ℕ
    pub has_password : account.encrypted_password ≡ some password
    pub info : AccountInfo
    pub alive : p.get_account_info session w.broker ≡ ok info
    pub positions : p.get_positions session w.broker ≡ ok ps

  module _ (event_id_for : ℕ → EventType → ℕ → Detail → ℕ) (account_id session : ℕ) where
    -- The state after the poll that records the baseline.
    abbrev started : WatchedStrategy → List ProviderPosition → Watchtower B → Watchtower B
    started x ps s = record s {
      inbox = record_baseline x.strategy.id ps s.inbox;
      strategies =
          update_where (λ y. y.strategy.id == x.strategy.id)
            (λ (y : WatchedStrategy). record y {
              watch_started_at = some s.world.now;
              watch_last_poll_at = some s.world.now;
            })
            s.strategies;
    }

    abbrev polled : WatchedStrategy → Watchtower B → Watchtower B
    polled x s = record s {
      strategies =
          update_where (λ y. y.strategy.id == x.strategy.id)
            (λ (y : WatchedStrategy). record y { watch_last_poll_at = some s.world.now })
            s.strategies;
    }

  module _ (event_id_for : ℕ → EventType → ℕ → Detail → ℕ) (account_id session session' : ℕ)
      (x : WatchedStrategy) (ps qs : List ProviderPosition) (s : Watchtower B) (later : World B)
      (found : find_watched x.strategy.id s ≡ some x)
      (linked : x.master_account_id ≡ some account_id) (blank : IsBlank x.strategy.id s.inbox)
      (distinct : AreDistinct ps) (unmoved : AreUnmoved ps qs)
      (there : Reports account_id session' qs later) where
    -- The strategy with the baseline, and the state of the second poll.
    abbrev watching : WatchedStrategy
    watching = record x {
      watch_started_at = some s.world.now;
      watch_last_poll_at = some s.world.now;
    }

    abbrev moved_on : Watchtower B
    moved_on = record (started event_id_for account_id session x ps s) { world = later }

-- ===== src/Account/Tests.antt =====
-- One account, with a broker that counts its connections and rejects the credentials.
use copytrade_dashboard.Base.{ℕ, ◌+◌, ◌≡◌, refl, true, false, none, some, List, [], ◌∷◌}
use copytrade_dashboard.Number.Defs.{of_nat}
use copytrade_dashboard.Types.{
  Platform, PositionMode, ConnectionStatus, CopyStatus, broker_auth_failed,
}
use copytrade_dashboard.Store.Monad.{ok, err, app_error}
use copytrade_dashboard.Store.Tables.{TradeProvider}
use copytrade_dashboard.Engine.Scenario.{account, broker, euro}
use copytrade_dashboard.Account.State.{Deployment, deployed, ManagedAccount, Book}
use copytrade_dashboard.Account.Connection.{
  connecting_row, failed_row, attempt, give_up, begin_connection, connect_unrejected,
  connect_with_password, connect_owned, connect_account,
}
use copytrade_dashboard.Account.Commands.{
  Command, create, connect, disconnect, set_enabled, wait, after_all,
}
use copytrade_dashboard.Account.Sound.{AreSound}
use copytrade_dashboard.Account.Keeping.{after_all-AreSound}

abbrev rejecting : TradeProvider ℕ
rejecting = record broker { connect_account = λ a n. (err (app_error broker_auth_failed), n + 1) }

abbrev cloud : Deployment ℕ
cloud = record {
  supports = λ platform. true;
  disconnect_account = λ id n. (ok tt, n);
  undeploy_account = λ id n. (ok tt, n);
  deploy_account = λ id n. (ok tt, n);
  get_deployment_state = λ id n. ok deployed;
}

abbrev managed : ManagedAccount
managed = record {
  row = record account {
    connection_status = ConnectionStatus.disconnected;
    copy_status = CopyStatus.idle;
  };
  server = euro;
  position_mode = PositionMode.hedging;
  is_enabled = true;
  provider_state = none;
  last_error_code = none;
  last_sync_at = none;
  connected_at = none;
  margin = of_nat 0;
  free_margin = of_nat 0;
  floating_pnl = of_nat 0;
}

abbrev book : Book ℕ
book = record {
  accounts = managed ∷ [];
  memberships = [];
  free_plan = some (record { max_accounts = 3; max_strategies = 1 });
  subscriptions = [];
  strategies = [];
  next_id = 8;
  now = 90000000;
  broker = 0;
}

abbrev commands : List Command
commands =
    connect 7 70
    ∷ create 70 (record { platform = Platform.mt4; login = 5; server = euro; password = 9 })
    ∷ set_enabled 7 70 false
    ∷ wait 60
    ∷ set_enabled 8 70 true
    ∷ disconnect 7 70
    ∷ []

-- The broker sees one connection of two that are asked for.
counted : (after_all rejecting cloud (λ n. n) (connect 7 70 ∷ connect 7 70 ∷ []) book).broker ≡ 1
unfolding after_all connect_account connect_owned connect_with_password connect_unrejected
    begin_connection attempt give_up connecting_row failed_row
counted = refl

after_all-AreSound_example : AreSound (after_all rejecting cloud (λ n. n) commands book)
after_all-AreSound_example =
    after_all-AreSound rejecting cloud (λ n. n) commands book
      (record { live = λ h. cc; off = λ h. cc }, tt)

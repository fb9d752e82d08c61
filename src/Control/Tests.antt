-- ===== src/Control/Tests.antt =====
-- The commands at one member with one subscription.
use copytrade_dashboard.Base.{◌≡◌, ◌⊎◌, refl, true, false, some, [], ◌∷◌, any, ◌==◌}
use copytrade_dashboard.Base.Int.{pos}
use copytrade_dashboard.Types.{conflict, CopyStatus, not_found}
use copytrade_dashboard.Store.Rows.{Subscription, TradingAccount}
use copytrade_dashboard.Store.Monad.{app_error, ok, err}
use copytrade_dashboard.Engine.Session.{is_connected}
use copytrade_dashboard.Engine.Process.{is_eligible, select_eligible}
use copytrade_dashboard.Engine.Breach.{Excludes}
use copytrade_dashboard.Engine.Scenario.{account, subscription, settings, profile, start, euro}
use copytrade_dashboard.Ingest.State.{StrategyStatus, StrategyOwner}
use copytrade_dashboard.Control.State.{
  Listing, Registry, is_copying, find_owned_account, effective_plan, assert_strategy_limit,
}
use copytrade_dashboard.Control.Commands.{
  require_owned, start_owned, start_copying, pause_copying, unsubscribe, subscribe,
  update_copy_settings,
}
use copytrade_dashboard.Control.Sync.{pause_copying_lem, unsubscribe_lem, start_copying_lem}
use copytrade_dashboard.Control.Synced.{IsSynced, find_owned}

abbrev listing : Listing
listing = record {
  strategy = record {
    id = 5;
    code = euro;
    owner_type = StrategyOwner.provider;
    status = StrategyStatus.active;
  };
  is_public = true;
  member_count = pos 1;
}

abbrev registry : Registry
registry = record {
  accounts = account ∷ [];
  subscriptions = subscription ∷ [];
  strategies = listing ∷ [];
  memberships = [];
  free_plan = some (record { max_accounts = 1; max_strategies = 2 });
  next_id = 1000;
  now = 90000000;
}

pause_copying_lem_example :
    let after = pause_copying 20 70 registry in
    (after.0 ≡ ok tt)
    × Excludes 20 (select_eligible 5 start after.1.subscriptions)
    × IsSynced 7 70 after.1
pause_copying_lem_example =
    pause_copying_lem 20 70 5 registry start {s = subscription} {a = account} refl refl

unsubscribe_lem_example :
    let after = unsubscribe 20 70 registry in
    ((is_copying CopyStatus.copying ≡ true) × (after ≡ (err (app_error conflict), registry)))
    ⊎ ((is_copying CopyStatus.copying ≡ false)
        × (after.0 ≡ ok tt)
        × (any (λ t. t.id == 20) after.1.subscriptions ≡ false)
        × IsSynced 7 70 after.1)
unsubscribe_lem_example = unsubscribe_lem 20 70 registry {s = subscription} {a = account} refl refl

started_again : (start_copying 20 70 registry).0 ≡ ok tt
unfolding start_copying require_owned start_owned
started_again = refl

start_copying_lem_example :
    let after = (start_copying 20 70 registry).1 in
    (is_connected account.connection_status ≡ true)
    × ((t : Subscription) × (find_owned 20 70 after.subscriptions ≡ some t)
        × (is_eligible 5 t ≡ true))
    × ((a : TradingAccount) × (find_owned_account 7 70 after ≡ some a)
        × (is_copying a.copy_status ≡ true))
start_copying_lem_example =
    start_copying_lem 20 70 registry {s = subscription} {a = account} refl refl started_again

-- One more strategy is within the free plan, and a second subscription to the same one is refused.
subscribed :
    (subscribe 70 7 5 settings profile (record registry { subscriptions = [] })).0 ≡ ok 1000
unfolding subscribe assert_strategy_limit effective_plan
subscribed = refl

already_following : (subscribe 70 7 5 settings profile registry).0 ≡ err (app_error conflict)
unfolding subscribe
already_following = refl

-- Settings of somebody else's subscription cannot be changed.
not_owned : (update_copy_settings 20 71 settings registry).0 ≡ err (app_error not_found)
unfolding update_copy_settings require_owned
not_owned = refl

-- ===== src/Strategy/Tests.antt =====
-- A provider with one strategy, one follower and one key.
use copytrade_dashboard.Base.{◌≡◌, refl, true, false, none, some, [], ◌∷◌, ◌++◌}
use copytrade_dashboard.Text.{Text, text_eq}
use copytrade_dashboard.Types.{ErrorCode, Platform, forbidden}
use copytrade_dashboard.Store.Monad.{app_error, ok, err}
use copytrade_dashboard.Engine.Process.{select_eligible}
use copytrade_dashboard.Engine.Scenario.{account, subscription, start, euro}
use copytrade_dashboard.Ingest.State.{StrategyStatus, StrategyOwner}
use copytrade_dashboard.Ingest.Access.{SignedRequest, Environment, authenticate_master_request}
use copytrade_dashboard.Mock.State.{codes}
use copytrade_dashboard.Strategy.State.{
  PlanTier, ProviderStatus, ProviderProfile, ManagedStrategy, ApiKeyRow, Catalog, Actor,
}
use copytrade_dashboard.Strategy.Slug.{slugify}
use copytrade_dashboard.Strategy.Providers.{require_approved_provider}
use copytrade_dashboard.Strategy.Access.{require_strategy_access}
use copytrade_dashboard.Strategy.Commands.{revoke_strategy_api_key}
use copytrade_dashboard.Strategy.Status.{set_strategy_status}
use copytrade_dashboard.Strategy.Keys.{keys_of, revoke_strategy_api_key_final}
use copytrade_dashboard.Strategy.Pausing.{AreInStep, set_strategy_status_pausing}

abbrev provider : ProviderProfile
provider = record {
  id = 2;
  user_id = 80;
  display_name = codes "Ann";
  slug = codes "ann";
  fields = 0;
  status = ProviderStatus.approved;
  applied_at = 1;
  reviewed_at = some 2;
  reviewed_by_id = some 1;
  review_note = none;
  public_reason = none;
  total_strategies = 1;
}

abbrev strategy_with : StrategyStatus → ManagedStrategy
strategy_with status = record {
  watched = record {
    strategy = record { id = 5; code = euro; owner_type = StrategyOwner.provider; status = status };
    master_account_id = none;
    watch_started_at = none;
    watch_last_poll_at = none;
  };
  name = codes "Euro";
  description = none;
  provider_id = some 2;
  master_platform = Platform.mt5;
  master_account_code = none;
  min_plan_tier = PlanTier.free;
  is_public = true;
}

abbrev key : ApiKeyRow
key = record {
  id = 9;
  strategy_id = 5;
  label = codes "EA";
  key_id = codes "ct_1";
  secret = codes "s";
  revoked_at = none;
}

abbrev catalog : StrategyStatus → Catalog
catalog status = record {
  providers = provider ∷ [];
  strategies = strategy_with status ∷ [];
  accounts = account ∷ [];
  subscriptions = subscription ∷ [];
  api_keys = key ∷ [];
  next_id = 1000;
  now = 90000000;
}

abbrev running : Catalog
running = catalog StrategyStatus.active

abbrev owner : Actor
owner = record { user_id = 80; is_admin = false }

owner_reaches :
    require_strategy_access 5 owner running ≡ (ok (strategy_with StrategyStatus.active), running)
unfolding require_strategy_access require_approved_provider
owner_reaches = refl

set_strategy_status_pausing_example :
    let after = set_strategy_status 5 StrategyStatus.paused owner running in
    (after.0 ≡ ok tt)
    × (select_eligible 5 start after.1.subscriptions ≡ [])
    × (select_eligible 6 start after.1.subscriptions
        ≡ select_eligible 6 start running.subscriptions)
    × AreInStep after.1
set_strategy_status_pausing_example =
    set_strategy_status_pausing 5 6 StrategyStatus.paused owner running start
      {x = strategy_with StrategyStatus.active} owner_reaches refl refl (refl, tt)

-- A provider may not put a draft live, but pausing it first gets around that.
live_in_one_step :
    (set_strategy_status 5 StrategyStatus.active owner (catalog StrategyStatus.draft)).0
    ≡ err (app_error forbidden)
unfolding set_strategy_status require_strategy_access require_approved_provider
live_in_one_step = refl

live_in_two_steps :
    let paused = set_strategy_status 5 StrategyStatus.paused owner (catalog StrategyStatus.draft) in
    let live = set_strategy_status 5 StrategyStatus.active owner paused.1 in
    live.1.strategies ≡ strategy_with StrategyStatus.active ∷ []
unfolding set_strategy_status require_strategy_access require_approved_provider
live_in_two_steps = refl

-- A stand-in for the HMAC: the three texts, one behind the other.
abbrev sign : Text → Text → Text → Text
sign secret timestamp body = secret ++ timestamp ++ body

abbrev environment : Environment
environment = record {
  max_skew_seconds = 60;
  master_api_key = codes "master";
  master_api_secret = codes "m";
  now_ms = 90000000;
}

abbrev request : SignedRequest
request = record {
  api_key = codes "ct_1";
  timestamp = codes "90000";
  seconds = some 90000;
  signature = codes "s90000{}";
  body = codes "{}";
}

request_names : text_eq (codes "ct_1") (codes "ct_1") ≡ true
unfolding text_eq
request_names = refl

revoke_strategy_api_key_final_example :
    let after = revoke_strategy_api_key 9 owner running in
    (after.0 ≡ ok tt)
    × ((code : ErrorCode) × (authenticate_master_request sign
            (λ b. none)
            environment
            (keys_of after.1 after.1.api_keys)
            []
            request
          ≡ err (app_error code)))
revoke_strategy_api_key_final_example =
    revoke_strategy_api_key_final sign (λ b. none) environment [] request 9 owner running {k = key}
      {x = strategy_with StrategyStatus.active} refl owner_reaches (request_names, tt)

slug_runs : slugify (λ s. s) (codes "--ann & bob's  desk!") ≡ codes "ann-bob-s-desk"
unfolding slugify
slug_runs = refl

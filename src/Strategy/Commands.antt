-- ===== src/Strategy/Commands.antt =====
-- The commands on a strategy: create, update, link a master account, delete, and its keys.
use copytrade_dashboard.Base.{
  ℕ, ◌+◌, Bool, true, false, ◌&&◌, not, Option, none, some, [], ◌∷◌, ◌++◌, find, filter, length,
  ltb, ◌==◌, if◌then◌else◌,
}
use copytrade_dashboard.Text.{Text, text_eq}
use copytrade_dashboard.Types.{Platform, conflict, not_found, validation_error}
use copytrade_dashboard.Store.Rows.{TradingAccount, Subscription}
use copytrade_dashboard.Store.Monad.{app_error, Action, ◌>>=◌, ◌>>◌, pure, throw, throw_if, modify}
use copytrade_dashboard.Store.Tables.{update_where}
use copytrade_dashboard.Ingest.State.{StrategyStatus, StrategyOwner}
use copytrade_dashboard.Control.State.{is_active_status}
use copytrade_dashboard.Strategy.Slug.{is_empty}
use copytrade_dashboard.Strategy.State.{
  PlanTier, ManagedStrategy, ApiKeyRow, Catalog, Actor, id_of, has_code, update_strategy_row,
}
use copytrade_dashboard.Strategy.Providers.{require_approved_provider, update_provider}
use copytrade_dashboard.Strategy.Access.{require_strategy_access}

-- The parsed form: a text that was left out is empty.
pub record StrategyInput : Type 0 where
  pub code : Text
  pub name : Text
  pub description : Text
  pub master_platform : Platform
  pub master_account_code : Text
  pub min_plan_tier : PlanTier
  pub is_public : Bool

-- `text || null`
abbrev or_null : Text → Option Text
or_null text = if is_empty text then none else some text

-- `toStrategyData`, written over a row.
unfoldable pub strategy_data : StrategyInput → ManagedStrategy → ManagedStrategy
strategy_data input x = record x {
  watched = record x.watched { strategy = record x.watched.strategy { code = input.code } };
  name = input.name;
  description = or_null input.description;
  master_platform = input.master_platform;
  master_account_code = or_null input.master_account_code;
  min_plan_tier = input.min_plan_tier;
  is_public = input.is_public;
}

-- A row with the defaults of the schema: a draft that watches no account.
abbrev blank_strategy : ℕ → StrategyOwner → Option ℕ → ManagedStrategy
blank_strategy id owner provider_id = record {
  watched = record {
    strategy = record { id = id; code = []; owner_type = owner; status = StrategyStatus.draft };
    master_account_id = none;
    watch_started_at = none;
    watch_last_poll_at = none;
  };
  name = [];
  description = none;
  provider_id = provider_id;
  master_platform = Platform.mt5;
  master_account_code = none;
  min_plan_tier = PlanTier.free;
  is_public = true;
}

unfoldable pub assert_code_available : Text → Action Catalog (Unit {0})
assert_code_available code w = throw_if (has_code code w) (app_error conflict) w

abbrev insert_strategy : StrategyInput → StrategyOwner → Option ℕ → Action Catalog (Unit {0})
insert_strategy input owner provider_id = modify λ w. record w {
  strategies =
      w.strategies ++ strategy_data input (blank_strategy w.next_id owner provider_id) ∷ [];
  next_id = w.next_id + 1;
}

unfoldable pub create_platform_strategy : StrategyInput → Action Catalog (Unit {0})
unfolding strategy_data assert_code_available
create_platform_strategy input = do
  assert_code_available input.code
  insert_strategy input StrategyOwner.platform none

unfoldable pub create_provider_strategy : ℕ → StrategyInput → Action Catalog (Unit {0})
unfolding strategy_data assert_code_available
create_provider_strategy user_id input = do
  provider ← require_approved_provider user_id
  assert_code_available input.code
  insert_strategy input StrategyOwner.provider (some provider.id)
  update_provider provider.id (λ p. record p { total_strategies = p.total_strategies + 1 })

unfoldable pub update_strategy : ℕ → StrategyInput → Actor → Action Catalog (Unit {0})
unfolding strategy_data assert_code_available
update_strategy id input actor = do
  x ← require_strategy_access id actor
  if text_eq x.watched.strategy.code input.code then pure tt else assert_code_available input.code
  update_strategy_row id (strategy_data input)

abbrev pub same_platform : Platform → Platform → Bool
same_platform Platform.mt4 Platform.mt4 = true
same_platform Platform.mt5 Platform.mt5 = true
same_platform _ _ = false

-- Linking and unlinking clear the baseline of the watch.
abbrev pub linked : Option ℕ → ManagedStrategy → ManagedStrategy
linked account_id x = record x {
  watched = record x.watched {
    master_account_id = account_id;
    watch_started_at = none;
    watch_last_poll_at = none;
  };
}

unfoldable pub check_account : ManagedStrategy → Option TradingAccount → Action Catalog (Unit {0})
check_account x none = throw (app_error not_found)
check_account x (some a) =
    throw_if (not (same_platform a.platform x.master_platform)) (app_error validation_error)

-- The account must be the actor's own and of the platform that the strategy publishes.
unfoldable pub check_link : ManagedStrategy → Option ℕ → ℕ → Action Catalog (Unit {0})
unfolding check_account
check_link x none user_id = pure tt
check_link x (some account_id) user_id =
    λ w. check_account x (find (λ a. a.id == account_id && a.user_id == user_id) w.accounts) w

unfoldable pub set_strategy_master_account : ℕ → Option ℕ → Actor → Action Catalog (Unit {0})
set_strategy_master_account id account_id actor = do
  x ← require_strategy_access id actor
  check_link x account_id actor.user_id
  update_strategy_row id (linked account_id)

-- `subscriptionRepository.countActiveForStrategy`
abbrev active_subscribers : ℕ → Catalog → ℕ
active_subscribers id w =
    length (filter (λ s. s.strategy_id == id && is_active_status s.status) w.subscriptions)

-- Deleting a row deletes the subscriptions and the keys that refer to it (`onDelete: Cascade`).
abbrev delete_row : ℕ → Action Catalog (Unit {0})
delete_row id = modify λ w. record w {
  strategies = filter (λ (x : ManagedStrategy). not (id_of x == id)) w.strategies;
  subscriptions = filter (λ (s : Subscription). not (s.strategy_id == id)) w.subscriptions;
  api_keys = filter (λ (k : ApiKeyRow). not (k.strategy_id == id)) w.api_keys;
}

unfoldable pub delete_strategy : ℕ → Actor → Action Catalog (Unit {0})
delete_strategy id actor = do
  x ← require_strategy_access id actor
  λ w. throw_if (ltb 0 (active_subscribers id w)) (app_error conflict) w
  delete_row id

-- The id and the secret of a key are random texts, and are arguments here.
unfoldable pub issue_strategy_api_key : ℕ → Actor → Text → Text → Text → Action Catalog ApiKeyRow
issue_strategy_api_key strategy_id actor label key_id secret = do
  x ← require_strategy_access strategy_id actor
  λ w.
      let key : ApiKeyRow = record {
        id = w.next_id;
        strategy_id = strategy_id;
        label = label;
        key_id = key_id;
        secret = secret;
        revoked_at = none;
      } in
      (modify (λ v. record v { api_keys = v.api_keys ++ key ∷ []; next_id = v.next_id + 1 })
          >> pure key)
        w

abbrev pub find_key : ℕ → Catalog → Option ApiKeyRow
find_key id w = find (λ k. k.id == id) w.api_keys

unfoldable pub revoke_found : Actor → Option ApiKeyRow → Action Catalog (Unit {0})
revoke_found actor none = throw (app_error not_found)
revoke_found actor (some k) = do
  x ← require_strategy_access k.strategy_id actor
  modify λ w. record w {
    api_keys =
        update_where (λ y. y.id == k.id) (λ (y : ApiKeyRow). record y { revoked_at = some w.now })
          w.api_keys;
  }

unfoldable pub revoke_strategy_api_key : ℕ → Actor → Action Catalog (Unit {0})
unfolding revoke_found
revoke_strategy_api_key id actor w = revoke_found actor (find_key id w) w

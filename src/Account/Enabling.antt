-- ===== src/Account/Enabling.antt =====
-- `createAccount`, `setAccountEnabled` and the state at the provider.
use copytrade_dashboard.Base.{
  ℕ, ◌+◌, Bool, true, false, not, ◌&&◌, Option, none, some, List, [], ◌∷◌, ◌++◌, any, filter, find,
  length, ltb, leb, ◌==◌, if◌then◌else◌,
}
use copytrade_dashboard.Base.Int.{pos}
use copytrade_dashboard.Number.Defs.{of_nat, hundredths}
use copytrade_dashboard.Text.{Text, text_eq}
use copytrade_dashboard.Types
use copytrade_dashboard.Types.{
  Platform, PositionMode, ConnectionStatus, CopyStatus, ErrorCode, ProviderPosition,
}
use copytrade_dashboard.Symbol.{is_id}
use copytrade_dashboard.Store.Rows.{Subscription, SubscriptionStatus}
use copytrade_dashboard.Store.Monad.{
  app_error, Result, Action, ◌>>=◌, ◌>>◌, pure, throw, throw_if, read, modify, try_catch,
}
use copytrade_dashboard.Control.State.{is_copying, Plan, effective_plan}
use copytrade_dashboard.Reconcile.Sweep.{has_value}
use copytrade_dashboard.Watch.State.{WatchedStrategy}
use copytrade_dashboard.Account.State.{
  DeploymentState, unknown, Deployment, ManagedAccount, Book, find_owned, write_account, at_broker,
  ask_broker,
}

pub record CreateAccountInput : Type 0 where
  pub platform : Platform
  pub login : ℕ
  pub server : Text
  pub password : ℕ

-- The defaults of the columns are those of the table.
unfoldable pub created_row : (ℕ → ℕ) → ℕ → ℕ → CreateAccountInput → ManagedAccount
created_row encrypt id user_id input = record {
  row = record {
    id = id;
    user_id = user_id;
    platform = input.platform;
    login = input.login;
    encrypted_password = some (encrypt input.password);
    provider_account_id = none;
    connection_status = ConnectionStatus.disconnected;
    copy_status = CopyStatus.idle;
    broker_min_lot = hundredths 1;
    broker_max_lot = of_nat 100;
    broker_lot_step = hundredths 1;
    balance = of_nat 0;
    equity = of_nat 0;
    peak_equity = of_nat 0;
    open_trades = pos 0;
  };
  server = input.server;
  position_mode = PositionMode.hedging;
  is_enabled = true;
  provider_state = none;
  last_error_code = none;
  last_sync_at = none;
  connected_at = none;
  margin = of_nat 0;
  free_margin = of_nat 0;
  floating_pnl = of_nat 0;
}

abbrev is_cancelled : SubscriptionStatus → Bool
is_cancelled SubscriptionStatus.cancelled = true
is_cancelled _ = false

abbrev pub same_flag : Bool → Bool → Bool
same_flag true b = b
same_flag false b = not b

-- Enabling forgets the last error; disabling ends the session and the copying.
unfoldable pub switched_row : Bool → Option DeploymentState → ManagedAccount → ManagedAccount
switched_row true state a = record a {
  is_enabled = true;
  provider_state = state;
  last_error_code = none;
}
switched_row false state a = record a {
  row = record a.row {
    connection_status = ConnectionStatus.disconnected;
    copy_status = CopyStatus.idle;
    open_trades = pos 0;
  };
  is_enabled = false;
  provider_state = state;
  connected_at = none;
}

abbrev is_follower : ℕ → Subscription → Bool
is_follower strategy_id s = s.strategy_id == strategy_id && not (is_cancelled s.status)

unfoldable pub followers_of : List WatchedStrategy → List Subscription → ℕ → ℕ
followers_of [] subscriptions id = 0
followers_of (x ∷ xs) subscriptions id =
    (if is_id x.master_account_id id
      then length (filter (is_follower x.strategy.id) subscriptions)
      else 0)
    + followers_of xs subscriptions id

module _ {B : Type 0} where
  abbrev pub count_for : ℕ → Book B → ℕ
  count_for user_id s =
      length (filter (λ (a : ManagedAccount). a.row.user_id == user_id) s.accounts)

  abbrev exists_for : ℕ → CreateAccountInput → Book B → Bool
  exists_for user_id input s =
      any
        (λ (a : ManagedAccount).
          a.row.user_id == user_id && a.row.login == input.login && text_eq a.server input.server)
        s.accounts

  -- `assertWithinPlanLimits(userId, "ACCOUNT")`
  unfoldable pub effective_plan_of : ℕ → Book B → Result Plan
  unfolding effective_plan
  effective_plan_of user_id s =
      effective_plan (find (λ m. m.user_id == user_id) s.memberships) s.free_plan s.now

  unfoldable pub assert_within : ℕ → Plan → Action (Book B) (Unit {0})
  assert_within user_id plan s =
      throw_if (leb plan.max_accounts (count_for user_id s)) (app_error Types.plan_limit_reached) s

  unfoldable pub assert_account_limit : ℕ → Action (Book B) (Unit {0})
  assert_account_limit user_id = read (effective_plan_of user_id) >>= assert_within user_id

  unfoldable pub insert_account : (ℕ → ℕ) → ℕ → CreateAccountInput → Action (Book B) (Unit {0})
  insert_account encrypt user_id input = modify (λ s. record s {
    accounts = s.accounts ++ created_row encrypt s.next_id user_id input ∷ [];
    next_id = s.next_id + 1;
  })

  -- `assertPlatformSupported`
  unfoldable pub assert_supported : Deployment B → Platform → Action (Book B) (Unit {0})
  assert_supported d platform s =
      throw_if (not (d.supports platform)) (app_error Types.platform_not_supported) s

  -- `MAX_ACCOUNTS_PER_USER`
  unfoldable pub assert_below_maximum : ℕ → Action (Book B) (Unit {0})
  assert_below_maximum user_id s =
      throw_if (leb 20 (count_for user_id s)) (app_error Types.conflict) s

  unfoldable pub assert_new_login : ℕ → CreateAccountInput → Action (Book B) (Unit {0})
  assert_new_login user_id input s =
      throw_if (exists_for user_id input s) (app_error Types.conflict) s

  unfoldable pub create_new : (ℕ → ℕ) → ℕ → CreateAccountInput → Action (Book B) (Unit {0})
  create_new encrypt user_id input =
      assert_new_login user_id input >> insert_account encrypt user_id input

  unfoldable pub create_within_plan : (ℕ → ℕ) → ℕ → CreateAccountInput → Action (Book B) (Unit {0})
  create_within_plan encrypt user_id input =
      assert_account_limit user_id >> create_new encrypt user_id input

  unfoldable pub create_supported : (ℕ → ℕ) → ℕ → CreateAccountInput → Action (Book B) (Unit {0})
  create_supported encrypt user_id input =
      assert_below_maximum user_id >> create_within_plan encrypt user_id input

  unfoldable pub create_account :
      Deployment B → (ℕ → ℕ) → ℕ → CreateAccountInput → Action (Book B) (Unit {0})
  create_account d encrypt user_id input =
      assert_supported d input.platform >> create_supported encrypt user_id input

  -- `getFollowerCounts` of one account.
  abbrev pub follower_count : ℕ → Book B → ℕ
  follower_count id s = followers_of s.strategies s.subscriptions id

module _ {B : Type 0} (d : Deployment B) where
  -- `readDeploymentState`
  unfoldable pub read_state : Option ℕ → Action (Book B) (Option DeploymentState)
  read_state none = pure none
  read_state (some provider_id) =
      try_catch (ask_broker (d.get_deployment_state provider_id) >>= λ state. pure (some state))
        (λ e. pure (some unknown))

  -- An account is disabled whether the provider answers or not; enabling it needs the answer.
  unfoldable pub switch_provider : Bool → Option ℕ → Action (Book B) (Unit {0})
  switch_provider enabled none = pure tt
  switch_provider true (some provider_id) =
      try_catch (at_broker (d.deploy_account provider_id))
        (λ e. throw (app_error Types.platform_connection_error))
  switch_provider false (some provider_id) =
      try_catch (at_broker (d.undeploy_account provider_id)) (λ e. pure tt)

  unfoldable pub store_switched :
      Bool → ManagedAccount → Option DeploymentState → Action (Book B) (Unit {0})
  store_switched enabled a state = write_account a.row.id (switched_row enabled state)

  -- What the provider did is read back, not assumed.
  unfoldable pub read_back : Bool → ManagedAccount → Action (Book B) (Unit {0})
  read_back enabled a = read_state a.row.provider_account_id >>= store_switched enabled a

  unfoldable pub switch_account : Bool → ManagedAccount → Action (Book B) (Unit {0})
  switch_account enabled a =
      switch_provider enabled a.row.provider_account_id >> read_back enabled a

  unfoldable pub set_changed : Bool → ManagedAccount → Action (Book B) (Unit {0})
  set_changed enabled a s =
      if not enabled && is_copying a.row.copy_status
      then throw (app_error Types.conflict) s
      else if not enabled && ltb 0 (follower_count a.row.id s)
      then throw (app_error Types.conflict) s
      else switch_account enabled a s

  unfoldable pub set_owned : Bool → Option ManagedAccount → Action (Book B) (Unit {0})
  set_owned enabled none = throw (app_error Types.not_found)
  set_owned enabled (some a) =
      if same_flag a.is_enabled enabled then pure tt else set_changed enabled a

  unfoldable pub set_account_enabled : ℕ → ℕ → Bool → Action (Book B) (Unit {0})
  set_account_enabled id user_id enabled s = set_owned enabled (find_owned id user_id s) s

  unfoldable pub store_state : ManagedAccount → Option DeploymentState → Action (Book B) (Unit {0})
  store_state a state =
      write_account a.row.id (λ (x : ManagedAccount). record x { provider_state = state })

  unfoldable pub refresh_state : ManagedAccount → Action (Book B) (Unit {0})
  refresh_state a = read_state a.row.provider_account_id >>= store_state a

  -- `refreshProviderStates`: every account of the user that the provider knows.
  unfoldable pub refresh_states : List ManagedAccount → Action (Book B) (Unit {0})
  refresh_states [] = pure tt
  refresh_states (a ∷ rows) = refresh_state a >> refresh_states rows

  unfoldable pub refresh_provider_states : ℕ → Action (Book B) (Unit {0})
  refresh_provider_states user_id s =
      refresh_states
        (filter
          (λ (a : ManagedAccount). a.row.user_id == user_id && has_value a.row.provider_account_id)
          s.accounts)
        s

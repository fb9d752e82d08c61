-- ===== src/Account/Frame.antt =====
-- What the writes of the service keep, its commands keep. Connecting is left to the property.
use copytrade_dashboard.Base.{
  ℕ, ◌≡◌, refl, Bool, true, false, not, ◌&&◌, Option, none, some, List, [], ◌∷◌, Bool-cases, inl,
  inr, ltb,
}
use copytrade_dashboard.Types.{AccountInfo, ProviderPosition, platform_connection_error}
use copytrade_dashboard.Number.Defs.{Number}
use copytrade_dashboard.Store.Monad.{Result, app_error, ◌>>=◌, pure, throw, read}
use copytrade_dashboard.Store.Preserve.{
  Preserves, bind-Preserves, try_catch-Preserves, if-Preserves,
}
use copytrade_dashboard.Store.Tables.{TradeProvider}
use copytrade_dashboard.Engine.Session.{is_connected}
use copytrade_dashboard.Control.State.{is_copying}
use copytrade_dashboard.Account.State.{
  Deployment, DeploymentState, unknown, ManagedAccount, Book, write_account, at_broker, ask_broker,
}
use copytrade_dashboard.Account.Connection.{
  disconnected_row, synced_row, end_session, disconnect_owned, refresh_metrics, sync_connected,
  sync_owned,
}
use copytrade_dashboard.Account.Enabling.{
  CreateAccountInput, assert_account_limit, assert_within, effective_plan_of, create_within_plan,
  create_new, assert_new_login, create_supported, assert_supported, assert_below_maximum,
  insert_account, create_account, read_state, switch_provider, store_switched, read_back,
  switch_account, store_state, refresh_state, set_changed, set_owned, refresh_states, same_flag,
  follower_count,
}

-- The writes of every command but connecting and enabling, and the calls that change the broker.
pub record KeepsWrites {B : Type 0} (Q : Book B → Type 0) : Type 0 where
  pub called : (f : B → Result (Unit {0}) × B) → Preserves Q (at_broker f)
  pub disconnected : (j : ℕ) → Preserves Q (write_account j disconnected_row)
  pub synced :
      (j : ℕ) (peak : Number) (info : AccountInfo) (positions : List ProviderPosition) (now : ℕ)
      → Preserves Q (write_account j (synced_row peak info positions now))
  pub stated :
      (j : ℕ) (state : Option DeploymentState)
      → Preserves Q (write_account j (λ (x : ManagedAccount). record x { provider_state = state }))
  pub inserted :
      (encrypt : ℕ → ℕ) (user_id : ℕ) (input : CreateAccountInput)
      → Preserves Q (insert_account encrypt user_id input)

module _ {B : Type 0} (p : TradeProvider B) (d : Deployment B) (Q : Book B → Type 0)
    (writes : KeepsWrites Q) where
  end_session-Preserves : (o : Option ℕ) → Preserves Q (end_session d o)
  unfolding end_session
  end_session-Preserves none = λ s h. h
  end_session-Preserves (some n) =
      try_catch-Preserves Q (at_broker (d.disconnect_account n)) (λ e. pure tt)
        (writes.called (d.disconnect_account n)) (λ e s h. h)

  pub disconnect_owned-Preserves : (o : Option ManagedAccount) → Preserves Q (disconnect_owned d o)
  unfolding disconnect_owned
  disconnect_owned-Preserves none = λ s h. h
  disconnect_owned-Preserves (some a) =
      bind-Preserves Q (end_session d a.row.provider_account_id)
        (λ _. write_account a.row.id disconnected_row)
        (end_session-Preserves a.row.provider_account_id) (λ _. writes.disconnected a.row.id)

  refresh_metrics-Preserves : (a : ManagedAccount) (n : ℕ) → Preserves Q (refresh_metrics p a n)
  unfolding refresh_metrics
  refresh_metrics-Preserves a n =
      bind-Preserves Q (ask_broker (p.get_account_info n)) _ (λ s h. h)
        (λ info.
          bind-Preserves Q (ask_broker (p.get_positions n)) _ (λ s h. h)
            (λ positions s. writes.synced a.row.id a.row.peak_equity info positions s.now s))

  sync_connected-Preserves :
      (a : ManagedAccount) (o : Option ℕ) → Preserves Q (sync_connected p a o)
  unfolding sync_connected
  sync_connected-Preserves a none = λ s h. h
  sync_connected-Preserves a (some n) =
      if-Preserves Q (is_connected a.row.connection_status) (refresh_metrics p a n) _
        (refresh_metrics-Preserves a n) (λ s h. h)

  pub sync_owned-Preserves : (o : Option ManagedAccount) → Preserves Q (sync_owned p o)
  unfolding sync_owned
  sync_owned-Preserves none = λ s h. h
  sync_owned-Preserves (some a) =
      if-Preserves Q a.is_enabled (sync_connected p a a.row.provider_account_id) _
        (sync_connected-Preserves a a.row.provider_account_id) (λ s h. h)

  create_within_plan-Preserves :
      (encrypt : ℕ → ℕ) (user_id : ℕ) (input : CreateAccountInput)
      → Preserves Q (create_within_plan encrypt user_id input)
  unfolding create_within_plan create_new assert_account_limit assert_within assert_new_login
  create_within_plan-Preserves encrypt user_id input =
      bind-Preserves Q (assert_account_limit user_id) (λ _. create_new encrypt user_id input)
        (bind-Preserves Q (read (effective_plan_of user_id)) (assert_within user_id) (λ s h. h)
          (λ plan s h. h))
        (λ _.
          bind-Preserves Q (assert_new_login user_id input)
            (λ _. insert_account encrypt user_id input) (λ s h. h)
            (λ _. writes.inserted encrypt user_id input))

  pub create_account-Preserves :
      (encrypt : ℕ → ℕ) (user_id : ℕ) (input : CreateAccountInput)
      → Preserves Q (create_account d encrypt user_id input)
  unfolding create_account create_supported assert_supported assert_below_maximum
  create_account-Preserves encrypt user_id input =
      bind-Preserves Q (assert_supported d input.platform)
        (λ _. create_supported encrypt user_id input) (λ s h. h)
        (λ _.
          bind-Preserves Q (assert_below_maximum user_id)
            (λ _. create_within_plan encrypt user_id input) (λ s h. h)
            (λ _. create_within_plan-Preserves encrypt user_id input))

  read_state-Preserves : (o : Option ℕ) → Preserves Q (read_state d o)
  unfolding read_state
  read_state-Preserves none = λ s h. h
  read_state-Preserves (some n) =
      try_catch-Preserves Q (ask_broker (d.get_deployment_state n) >>= λ state. pure (some state))
        (λ e. pure (some unknown))
        (bind-Preserves Q (ask_broker (d.get_deployment_state n)) (λ state. pure (some state))
          (λ s h. h) (λ state s h. h))
        (λ e s h. h)

  switch_provider-Preserves :
      (enabled : Bool) (o : Option ℕ) → Preserves Q (switch_provider d enabled o)
  unfolding switch_provider
  switch_provider-Preserves enabled none = λ s h. h
  switch_provider-Preserves true (some n) =
      try_catch-Preserves Q (at_broker (d.deploy_account n))
        (λ e. throw (app_error platform_connection_error)) (writes.called (d.deploy_account n))
        (λ e s h. h)
  switch_provider-Preserves false (some n) =
      try_catch-Preserves Q (at_broker (d.undeploy_account n)) (λ e. pure tt)
        (writes.called (d.undeploy_account n)) (λ e s h. h)

  refresh_state-Preserves : (a : ManagedAccount) → Preserves Q (refresh_state d a)
  unfolding refresh_state store_state
  refresh_state-Preserves a =
      bind-Preserves Q (read_state d a.row.provider_account_id) (store_state d a)
        (read_state-Preserves a.row.provider_account_id) (λ state. writes.stated a.row.id state)

  pub refresh_states-Preserves : (rows : List ManagedAccount) → Preserves Q (refresh_states d rows)
  unfolding refresh_states
  refresh_states-Preserves [] = λ s h. h
  refresh_states-Preserves (a ∷ rows) =
      bind-Preserves Q (refresh_state d a) (λ _. refresh_states d rows) (refresh_state-Preserves a)
        (λ _. refresh_states-Preserves rows)

  -- Enabling and disabling, for what the write of the switched row keeps.
  module _ (enabled : Bool) where
    switch_account-Preserves :
        (a : ManagedAccount)
        → ((state : Option DeploymentState) → Preserves Q (store_switched d enabled a state))
        → Preserves Q (switch_account d enabled a)
    unfolding switch_account read_back
    switch_account-Preserves a stored =
        bind-Preserves Q (switch_provider d enabled a.row.provider_account_id)
          (λ _. read_back d enabled a) (switch_provider-Preserves enabled a.row.provider_account_id)
          (λ _.
            bind-Preserves Q (read_state d a.row.provider_account_id) (store_switched d enabled a)
              (read_state-Preserves a.row.provider_account_id) stored)

    set_changed-Preserves :
        (a : ManagedAccount)
        → ((state : Option DeploymentState) → Preserves Q (store_switched d enabled a state))
        → Preserves Q (set_changed d enabled a)
    unfolding set_changed
    set_changed-Preserves a stored s h =
        elim (Bool-cases (not enabled && is_copying a.row.copy_status)) [
          | inl e ↦ rw e h
          | inr e ↦ elim (Bool-cases (not enabled && ltb 0 (follower_count a.row.id s))) [
            | inl k ↦ rw (e, k) h
            | inr k ↦ rw (e, k) (switch_account-Preserves a stored s h)
          ]
        ]

    pub set_owned-Preserves :
        (o : Option ManagedAccount)
        → ((a : ManagedAccount)
            → o ≡ some a
            → (state : Option DeploymentState) → Preserves Q (store_switched d enabled a state))
        → Preserves Q (set_owned d enabled o)
    unfolding set_owned
    set_owned-Preserves none stored = λ s h. h
    set_owned-Preserves (some a) stored =
        if-Preserves Q (same_flag a.is_enabled enabled) (pure tt) (set_changed d enabled a)
          (λ s h. h) (set_changed-Preserves a (stored a refl))

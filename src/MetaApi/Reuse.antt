-- ===== src/MetaApi/Reuse.antt =====
-- An account that MetaApi has for the credentials is connected again, and no second one is created.
use copytrade_dashboard.Base.{◌≡◌, refl, false, some, List, [], find, ◌∙◌}
use copytrade_dashboard.Strategy.Slug.{is_empty}
use copytrade_dashboard.MetaApi.Sdk.{
  RemoteAccount, NewAccount, Call, Sdk, Adapter, answered, remotely, pure, throw,
}
use copytrade_dashboard.MetaApi.Steps.{bind-answered, try_catch-answered, remotely_lem}
use copytrade_dashboard.MetaApi.Account.{
  or_error, provisioning_error, RemoteLogin, is_match, existing_accounts, or_create, provision,
  connect_provisioned, connect_account,
}

module _ {S : Type 0} (api : Sdk S) where
  provision_match :
      (input : RemoteLogin) (s : Adapter S) (t : S) (existing : List RemoteAccount)
      (a : RemoteAccount)
      → api.find_accounts input.login s.remote ≡ (answered existing, t)
      → find (is_match input) existing ≡ some a
      → provision api input s ≡ (answered a, record s { remote = t })
  unfolding provision existing_accounts or_create
  provision_match input s t existing a looked_up found =
      bind-answered (existing_accounts api input.login)
        (λ l. or_create api input (find (is_match input) l)) s
        (try_catch-answered (remotely (api.find_accounts input.login)) (λ e. pure []) s
          (remotely_lem (api.find_accounts input.login) s looked_up))
      ∙ rw found refl

  connect_account_match :
      (input : RemoteLogin) (s : Adapter S) (t : S) (existing : List RemoteAccount)
      (a : RemoteAccount)
      → is_empty input.password ≡ false
      → api.find_accounts input.login s.remote ≡ (answered existing, t)
      → find (is_match input) existing ≡ some a
      → connect_account api input s ≡ connect_provisioned api input a (record s { remote = t })
  unfolding connect_account
  connect_account_match input s t existing a given looked_up found =
      let reached = provision_match input s t existing a looked_up found in
      rw given (
        bind-answered (or_error provisioning_error (provision api input))
          (connect_provisioned api input) s
          (try_catch-answered (provision api input) (λ e. throw (provisioning_error e)) s reached))

-- If a password is given and the look-up at MetaApi, which succeeds, finds an account of the login and
-- the server, connectAccount goes on with that account, to the same answer and the same state whatever
-- createAccount would do: it is not called.
pub connect_account_reuses :
    {S : Type 0} (api : Sdk S) (create : NewAccount → Call S RemoteAccount) (input : RemoteLogin)
    (s : Adapter S) (t : S) (existing : List RemoteAccount) (a : RemoteAccount)
    → is_empty input.password ≡ false
    → api.find_accounts input.login s.remote ≡ (answered existing, t)
    → find (is_match input) existing ≡ some a
    → connect_account (record api { create_account = create }) input s
      ≡ connect_provisioned api input a (record s { remote = t })
unfolding connect_provisioned
connect_account_reuses api create input s t existing a given looked_up found =
    connect_account_match (record api { create_account = create }) input s t existing a given
      looked_up found

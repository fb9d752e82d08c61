-- ===== src/MetaApi/Session.antt =====
-- The cached connections, and starting and stopping an account at MetaApi.
use copytrade_dashboard.Base.{ℕ, Bool, not, ◌∷◌, any, filter, ◌==◌, if◌then◌else◌}
use copytrade_dashboard.Text.{Text, text_eq, to_upper}
use copytrade_dashboard.Account.State.{
  DeploymentState, deployed, undeployed, deploying, undeploying, unknown,
}
use copytrade_dashboard.Mock.State.{codes}
use copytrade_dashboard.MetaApi.Sdk.{
  Fault, RemoteAccount, Call, Sdk, Adapter, ◌>>=◌, ◌>>◌, pure, throw, try_catch, remotely,
}
use copytrade_dashboard.MetaApi.Codes.{connection_error}

module _ {S : Type 0} where
  abbrev pub is_cached : ℕ → Adapter S → Bool
  is_cached id s = any (λ k. k == id) s.cached

  abbrev pub cache : ℕ → Call (Adapter S) (Unit {0})
  cache id s = pure tt (record s { cached = id ∷ s.cached })

  abbrev pub uncache : ℕ → Call (Adapter S) (Unit {0})
  uncache id s = pure tt (record s { cached = filter (λ k. not (k == id)) s.cached })

module _ {S : Type 0} (api : Sdk S) where
  -- `openConnection`: deploy the account if need be, and wait until its terminal is ready.
  unfoldable pub open_connection : RemoteAccount → Call (Adapter S) (Unit {0})
  open_connection account = do
    if text_eq account.state (codes "DEPLOYED") then pure tt else remotely (api.deploy account.id)
    remotely (api.wait_connected account.id)
    remotely (api.connect account.id)
    remotely (api.wait_synchronized account.id)

  unfoldable pub opening : ℕ → Call (Adapter S) (Unit {0})
  unfolding open_connection
  opening id = do account ← remotely (api.get_account id); open_connection account; cache id

  abbrev pub opening_failed : ℕ → Fault → Call (Adapter S) (Unit {0})
  opening_failed id e = uncache id >> throw (connection_error e)

  -- `connection`: the cached connection, or a new one. A failed one is not kept.
  unfoldable pub connection : ℕ → Call (Adapter S) (Unit {0})
  unfolding opening
  connection id s =
      (if is_cached id s then pure tt else try_catch (opening id) (opening_failed id)) s

  abbrev pub swallowed : Fault → Call (Adapter S) (Unit {0})
  swallowed e = pure tt

  unfoldable pub disconnect_account : ℕ → Call (Adapter S) (Unit {0})
  disconnect_account id s =
      (if is_cached id s
          then uncache id >> try_catch (remotely (api.close id)) swallowed
          else pure tt)
        s

  unfoldable pub undeploy_account : ℕ → Call (Adapter S) (Unit {0})
  unfolding disconnect_account
  undeploy_account id = do
    disconnect_account id
    account ← remotely (api.get_account id)
    remotely (api.undeploy account.id)
    try_catch (remotely (api.wait_undeployed account.id)) swallowed

  unfoldable pub deploy_account : ℕ → Call (Adapter S) (Unit {0})
  deploy_account id = do
    account ← remotely (api.get_account id)
    remotely (api.deploy account.id)
    try_catch (remotely (api.wait_deployed account.id)) swallowed

  -- Any state but the four is unknown.
  unfoldable pub deployment_state_of : Text → DeploymentState
  deployment_state_of state =
      if text_eq state (codes "DEPLOYED")
      then deployed
      else if text_eq state (codes "UNDEPLOYED")
      then undeployed
      else if text_eq state (codes "DEPLOYING")
      then deploying
      else if text_eq state (codes "UNDEPLOYING")
      then undeploying
      else unknown

  unfoldable pub get_deployment_state : ℕ → Call (Adapter S) DeploymentState
  unfolding deployment_state_of
  get_deployment_state id = do
    account ← remotely (api.get_account id)
    pure (deployment_state_of (to_upper account.state))

-- ===== src/Engine/Session.antt =====
-- `ensureProviderSession`: a live provider session for an account, re-established if it is lost.
use copytrade_dashboard.Base.{
  ℕ, Bool, true, false, ◌&&◌, ◌||◌, Option, none, some, find, ◌==◌, if◌then◌else◌,
}
use copytrade_dashboard.Types.{ConnectionStatus, not_found, platform_connection_error}
use copytrade_dashboard.Store.Rows.{TradingAccount}
use copytrade_dashboard.Store.Monad.{
  Failure, app_error, Result, ok, err, Action, ◌>>=◌, ◌>>◌, pure, throw, modify,
}
use copytrade_dashboard.Store.Tables.{TradeProvider, World, update_where}

abbrev pub is_connected : ConnectionStatus → Bool
is_connected ConnectionStatus.connected = true
is_connected _ = false

abbrev pub is_error : ConnectionStatus → Bool
is_error ConnectionStatus.error = true
is_error _ = false

-- `a ?? throw e`
abbrev pub or_throw : {S A : Type 0} → Option A → Failure → Action S A
or_throw none e = throw e
or_throw (some a) _ = pure a

module _ {B : Type 0} where
  -- An order or another call that changes the broker.
  abbrev pub broker_call : {A : Type 0} → (B → Result A × B) → Action (World B) A
  broker_call f w = let (r, b) = f w.broker in (r, record w { broker = b })

  -- A query of the broker.
  abbrev pub broker_query : {A : Type 0} → (B → Result A) → Action (World B) A
  broker_query f w = (f w.broker, w)

  abbrev pub find_account : ℕ → World B → Option TradingAccount
  find_account id w = find (λ a. a.id == id) w.accounts

  abbrev pub update_account : ℕ → (TradingAccount → TradingAccount) → Action (World B) (Unit {0})
  update_account id f =
      modify (λ w. record w { accounts = update_where (λ a. a.id == id) f w.accounts })

  -- The `catch` branch: connect again with the stored credentials.
  unfoldable pub reconnect : TradeProvider B → TradingAccount → ℕ → Action (World B) ℕ
  reconnect p account known = do
    result ← broker_call (p.connect_account account)
    let fresh = result.provider_account_id
    if fresh == known
        then pure tt
        else update_account account.id (λ a. record a { provider_account_id = some fresh })
    pure fresh

  -- The session is alive if the provider answers for the account.
  unfoldable pub probe_session : TradeProvider B → TradingAccount → ℕ → Action (World B) ℕ
  probe_session p account known w = elim (p.get_account_info known w.broker) [
    | ok info ↦ (ok known, w)
    | err e ↦ reconnect p account known w
  ]

  -- With the stored id and credentials, if both are there.
  unfoldable pub session_with :
      TradeProvider B → TradingAccount → Option ℕ → Option ℕ → Action (World B) ℕ
  session_with p account none _ = throw (app_error platform_connection_error)
  session_with p account (some known) none = throw (app_error platform_connection_error)
  session_with p account (some known) (some password) = probe_session p account known

  unfoldable pub session_of : TradeProvider B → Bool → Option TradingAccount → Action (World B) ℕ
  session_of p allow_recovery none = throw (app_error not_found)
  session_of p allow_recovery (some account) =
      if is_connected account.connection_status
        || (allow_recovery && is_error account.connection_status)
      then session_with p account account.provider_account_id account.encrypted_password
      else throw (app_error platform_connection_error)

  unfoldable pub ensure_provider_session : TradeProvider B → ℕ → Bool → Action (World B) ℕ
  ensure_provider_session p account_id allow_recovery w =
      session_of p allow_recovery (find_account account_id w) w

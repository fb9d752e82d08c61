-- ===== src/MetaApi/Account.antt =====
-- `connectAccount`: the account of the credentials is reused, or created, and connected.
use copytrade_dashboard.Base.{
  ℕ, Bool, false, ◌&&◌, ◌||◌, Option, none, some, List, [], ◌++◌, find, take, ◌==◌, if◌then◌else◌,
}
use copytrade_dashboard.Number.Defs.{of_nat, hundredths}
use copytrade_dashboard.Text.{Text, text_eq}
use copytrade_dashboard.Types.{Platform, PositionMode, ErrorCode, ConnectionResult}
use copytrade_dashboard.Mock.State.{codes, includes}
use copytrade_dashboard.Strategy.Slug.{is_empty}
use copytrade_dashboard.MetaApi.Sdk.{
  Fault, app, sdk, RemoteAccount, RemoteInfo, NewAccount, Call, Sdk, Adapter, ◌>>=◌, ◌>>◌, pure,
  throw, try_catch, remotely,
}
use copytrade_dashboard.MetaApi.Codes.{lower, is_broker_auth_failure, connection_error}
use copytrade_dashboard.MetaApi.Session.{cache, open_connection}

-- The part of `ConnectAccountInput` that is read, the password decrypted.
pub record RemoteLogin : Type 0 where
  pub platform : Platform
  pub broker : Text
  pub server : Text
  pub login : Text
  pub password : Text

abbrev text_or_empty : Option Text → Text
text_or_empty none = []
text_or_empty (some s) = s

-- `positionModeOf`: MT4 is hedging only.
unfoldable pub position_mode_of : Platform → Option Text → PositionMode
position_mode_of Platform.mt4 margin_mode = PositionMode.hedging
position_mode_of Platform.mt5 margin_mode =
    let mode = lower (text_or_empty margin_mode) in
    if includes (codes "netting") mode || text_eq mode (codes "exchange")
    then PositionMode.netting
    else PositionMode.hedging

abbrev pub is_match : RemoteLogin → RemoteAccount → Bool
is_match input a = text_eq a.login input.login && text_eq a.server input.server

abbrev new_account : RemoteLogin → NewAccount
new_account input = record {
  name = take 64 (input.broker ++ codes " " ++ input.login);
  login = input.login;
  password = input.password;
  server = input.server;
  platform = input.platform;
}

abbrev is_forbidden : Option ℕ → Bool
is_forbidden none = false
is_forbidden (some status) = status == 401 || status == 403

-- The error of a failed provisioning: bad credentials, a token without the right, or a connection.
unfoldable pub provisioning_error : Fault → Fault
provisioning_error (app code) = app code
provisioning_error (sdk e) =
    if is_broker_auth_failure e
    then app ErrorCode.broker_auth_failed
    else if is_forbidden e.status
    then app ErrorCode.provider_error
    else app ErrorCode.platform_connection_error

abbrev connection_result : RemoteLogin → ℕ → RemoteInfo → ConnectionResult
connection_result input id info = record {
  provider_account_id = id;
  platform = input.platform;
  position_mode = position_mode_of input.platform info.margin_mode;
  currency = info.currency;
  balance = info.balance;
  min_lot = hundredths 1;
  max_lot = of_nat 100;
  lot_step = hundredths 1;
}

module _ {S : Type 0} where
  -- A failed call is thrown on as an `AppError`.
  abbrev pub or_error : {A : Type 0} → (Fault → Fault) → Call (Adapter S) A → Call (Adapter S) A
  or_error f m = try_catch m (λ e. throw (f e))

module _ {S : Type 0} (api : Sdk S) where
  -- A failed look-up finds nothing.
  unfoldable pub existing_accounts : Text → Call (Adapter S) (List RemoteAccount)
  existing_accounts login = try_catch (remotely (api.find_accounts login)) (λ e. pure [])

  unfoldable pub or_create : RemoteLogin → Option RemoteAccount → Call (Adapter S) RemoteAccount
  or_create input none = remotely (api.create_account (new_account input))
  or_create input (some a) = pure a

  unfoldable pub provision : RemoteLogin → Call (Adapter S) RemoteAccount
  unfolding existing_accounts or_create
  provision input = do
    existing ← existing_accounts input.login
    or_create input (find (is_match input) existing)

  unfoldable pub connect_provisioned :
      RemoteLogin → RemoteAccount → Call (Adapter S) ConnectionResult
  unfolding position_mode_of open_connection
  connect_provisioned input account = do
    or_error connection_error (open_connection api account >> cache account.id)
    info ← or_error connection_error (remotely (api.get_account_information account.id))
    pure (connection_result input account.id info)

  unfoldable pub connect_account : RemoteLogin → Call (Adapter S) ConnectionResult
  unfolding provision provisioning_error connect_provisioned
  connect_account input =
      if is_empty input.password
      then throw (app ErrorCode.platform_connection_error)
      else (or_error provisioning_error (provision input) >>= connect_provisioned input)

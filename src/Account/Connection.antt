-- ===== src/Account/Connection.antt =====
-- `connectAccount`, `disconnectAccount` and `syncAccount`.
use copytrade_dashboard.Base.{ℕ, Bool, true, false, Option, none, some, List, length, if◌then◌else◌}
use copytrade_dashboard.Base.Int.{pos}
use copytrade_dashboard.Number.Defs.{Number, subtract, to_fixed, max_of}
use copytrade_dashboard.Types
use copytrade_dashboard.Types.{
  Platform, ConnectionStatus, CopyStatus, ErrorCode, ConnectionResult, AccountInfo,
  ProviderPosition,
}
use copytrade_dashboard.Store.Monad.{
  Failure, app_error, other_error, Action, ◌>>=◌, ◌>>◌, pure, throw, try_catch,
}
use copytrade_dashboard.Store.Tables.{TradeProvider}
use copytrade_dashboard.Engine.Session.{is_connected}
use copytrade_dashboard.Account.State.{
  Deployment, ManagedAccount, Book, find_owned, write_account, at_broker, ask_broker,
}

-- `Number((info.equity - info.balance).toFixed(2))`
abbrev floating_of : AccountInfo → Number
floating_of info = to_fixed 99 (subtract info.equity info.balance)

-- What a successful connection stores.
unfoldable pub connected_row :
    ConnectionResult → AccountInfo → List ProviderPosition → ℕ → ManagedAccount → ManagedAccount
connected_row result info positions now a = record a {
  row = record a.row {
    provider_account_id = some result.provider_account_id;
    broker_min_lot = result.min_lot;
    broker_max_lot = result.max_lot;
    broker_lot_step = result.lot_step;
    balance = info.balance;
    equity = info.equity;
    peak_equity = info.equity;
    open_trades = pos (length positions);
    connection_status = ConnectionStatus.connected;
  };
  position_mode = result.position_mode;
  margin = info.margin;
  free_margin = info.free_margin;
  floating_pnl = floating_of info;
  connected_at = some now;
  last_sync_at = some now;
  last_error_code = none;
}

unfoldable pub connecting_row : ManagedAccount → ManagedAccount
connecting_row a = record a {
  row = record a.row { connection_status = ConnectionStatus.connecting };
  last_error_code = none;
}

-- `error instanceof AppError ? error.code : null`
abbrev pub app_code : Failure → Option ErrorCode
app_code (app_error code) = some code
app_code other_error = none

unfoldable pub failed_row : Failure → ManagedAccount → ManagedAccount
failed_row e a = record a {
  row = record a.row { connection_status = ConnectionStatus.error };
  last_error_code = app_code e;
}

-- An error that is no `AppError` is thrown on as PLATFORM_CONNECTION_ERROR.
abbrev pub connection_error : Failure → Failure
connection_error (app_error code) = app_error code
connection_error other_error = app_error Types.platform_connection_error

abbrev pub is_auth_failure : Option ErrorCode → Bool
is_auth_failure (some ErrorCode.broker_auth_failed) = true
is_auth_failure _ = false

unfoldable pub disconnected_row : ManagedAccount → ManagedAccount
disconnected_row a = record a {
  row = record a.row {
    connection_status = ConnectionStatus.disconnected;
    copy_status = CopyStatus.idle;
  };
  connected_at = none;
}

-- The peak is taken from the row that was read.
unfoldable pub synced_row :
    Number → AccountInfo → List ProviderPosition → ℕ → ManagedAccount → ManagedAccount
synced_row peak info positions now a = record a {
  row = record a.row {
    balance = info.balance;
    equity = info.equity;
    peak_equity = max_of peak info.equity;
    open_trades = pos (length positions);
  };
  margin = info.margin;
  free_margin = info.free_margin;
  floating_pnl = floating_of info;
  last_sync_at = some now;
}

module _ {B : Type 0} (p : TradeProvider B) (d : Deployment B) where
  -- The `try` block.
  unfoldable pub attempt : ManagedAccount → Action (Book B) (Unit {0})
  attempt a = do
    result ← at_broker (p.connect_account a.row)
    info ← ask_broker (p.get_account_info result.provider_account_id)
    positions ← ask_broker (p.get_positions result.provider_account_id)
    λ s. write_account a.row.id (connected_row result info positions s.now) s

  -- The `catch` block.
  unfoldable pub give_up : ManagedAccount → Failure → Action (Book B) (Unit {0})
  give_up a e = write_account a.row.id (failed_row e) >> throw (connection_error e)

  unfoldable pub begin_connection : ManagedAccount → Action (Book B) (Unit {0})
  begin_connection a = write_account a.row.id connecting_row >> try_catch (attempt a) (give_up a)

  unfoldable pub connect_unrejected : ManagedAccount → Action (Book B) (Unit {0})
  connect_unrejected a =
      if is_auth_failure a.last_error_code
      then throw (app_error Types.broker_auth_failed)
      else begin_connection a

  unfoldable pub connect_with_password : ManagedAccount → Option ℕ → Action (Book B) (Unit {0})
  connect_with_password a none = throw (app_error Types.platform_connection_error)
  connect_with_password a (some password) =
      if d.supports a.row.platform
      then connect_unrejected a
      else throw (app_error Types.platform_not_supported)

  unfoldable pub connect_owned : Option ManagedAccount → Action (Book B) (Unit {0})
  connect_owned none = throw (app_error Types.not_found)
  connect_owned (some a) =
      if a.is_enabled
      then connect_with_password a a.row.encrypted_password
      else throw (app_error Types.conflict)

  unfoldable pub connect_account : ℕ → ℕ → Action (Book B) (Unit {0})
  connect_account id user_id s = connect_owned (find_owned id user_id s) s

module _ {B : Type 0} (d : Deployment B) where
  -- A provider that cannot end its session does not keep the account connected.
  unfoldable pub end_session : Option ℕ → Action (Book B) (Unit {0})
  end_session none = pure tt
  end_session (some provider_id) =
      try_catch (at_broker (d.disconnect_account provider_id)) (λ e. pure tt)

  unfoldable pub disconnect_owned : Option ManagedAccount → Action (Book B) (Unit {0})
  disconnect_owned none = throw (app_error Types.not_found)
  disconnect_owned (some a) =
      end_session a.row.provider_account_id >> write_account a.row.id disconnected_row

  unfoldable pub disconnect_account : ℕ → ℕ → Action (Book B) (Unit {0})
  disconnect_account id user_id s = disconnect_owned (find_owned id user_id s) s

module _ {B : Type 0} (p : TradeProvider B) where
  unfoldable pub refresh_metrics : ManagedAccount → ℕ → Action (Book B) (Unit {0})
  refresh_metrics a provider_id = do
    info ← ask_broker (p.get_account_info provider_id)
    positions ← ask_broker (p.get_positions provider_id)
    λ s. write_account a.row.id (synced_row a.row.peak_equity info positions s.now) s

  unfoldable pub sync_connected : ManagedAccount → Option ℕ → Action (Book B) (Unit {0})
  sync_connected a none = throw (app_error Types.platform_connection_error)
  sync_connected a (some provider_id) =
      if is_connected a.row.connection_status
      then refresh_metrics a provider_id
      else throw (app_error Types.platform_connection_error)

  unfoldable pub sync_owned : Option ManagedAccount → Action (Book B) (Unit {0})
  sync_owned none = throw (app_error Types.not_found)
  sync_owned (some a) =
      if a.is_enabled
      then sync_connected a a.row.provider_account_id
      else throw (app_error Types.conflict)

  unfoldable pub sync_account : ℕ → ℕ → Action (Book B) (Unit {0})
  sync_account id user_id s = sync_owned (find_owned id user_id s) s

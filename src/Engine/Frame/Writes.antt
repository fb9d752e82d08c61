-- ===== src/Engine/Frame/Writes.antt =====
-- The session and the records of a copy.
use copytrade_dashboard.Base.{ℕ, refl, Bool, Option, none, some, arith, ◌==◌, ◌||◌, ◌&&◌}
use copytrade_dashboard.Number.Defs.{Number}
use copytrade_dashboard.Text.{Text}
use copytrade_dashboard.Risk.{RiskReason}
use copytrade_dashboard.Store.Rows.{
  TradeEvent, TradingAccount, Subscription, RiskState, CopyErrorCode, SkipReason,
}
use copytrade_dashboard.Store.Monad.{app_error, throw}
use copytrade_dashboard.Types.{platform_connection_error}
use copytrade_dashboard.Store.Tables.{TradeProvider}
use copytrade_dashboard.Engine.Session.{
  is_connected, is_error, find_account, reconnect, probe_session, session_with, session_of,
  ensure_provider_session,
}
use copytrade_dashboard.Engine.Records.{
  filled, skipped_for, upsert_mapping, record_fill, skip, use_risk_state, load_risk_state,
  mark_breached, pause_for_breach,
}
use copytrade_dashboard.Engine.Frame.{IsSteady, Steady-refl, if-IsSteady, keys-update_where}

module _ {B : Type 0} where
  reconnect-IsSteady :
      (p : TradeProvider B) (a : TradingAccount) (known : ℕ) → IsSteady (reconnect p a known)
  unfolding reconnect
  reconnect-IsSteady p a known w = ground arith

  probe_session-IsSteady :
      (p : TradeProvider B) (a : TradingAccount) (known : ℕ) → IsSteady (probe_session p a known)
  unfolding probe_session
  probe_session-IsSteady p a known w = ground (arith, reconnect-IsSteady p a known w)

  session_with-IsSteady :
      (p : TradeProvider B) (a : TradingAccount) (known password : Option ℕ)
      → IsSteady (session_with p a known password)
  unfolding session_with
  session_with-IsSteady p a none password w = Steady-refl w
  session_with-IsSteady p a (some known) none w = Steady-refl w
  session_with-IsSteady p a (some known) (some password) w = probe_session-IsSteady p a known w

  session_of-IsSteady :
      (p : TradeProvider B) (recover : Bool) (a : Option TradingAccount)
      → IsSteady (session_of p recover a)
  unfolding session_of
  session_of-IsSteady p recover none w = Steady-refl w
  session_of-IsSteady p recover (some a) w =
      if-IsSteady (is_connected a.connection_status || (recover && is_error a.connection_status))
        (session_with p a a.provider_account_id a.encrypted_password)
        (throw (app_error platform_connection_error))
        (session_with-IsSteady p a a.provider_account_id a.encrypted_password) (λ u. Steady-refl u)
        w

  pub ensure_provider_session-IsSteady :
      (p : TradeProvider B) (id : ℕ) (recover : Bool)
      → IsSteady (ensure_provider_session p id recover)
  unfolding ensure_provider_session
  ensure_provider_session-IsSteady p id recover w =
      session_of-IsSteady p recover (find_account id w) w

  pub record_fill-IsSteady :
      (id ticket : ℕ) (price : Option Number) (v : Number) (s : Subscription) (event : TradeEvent)
      (symbol : Text)
      → IsSteady {B = B} (record_fill id ticket price v s event symbol)
  unfolding record_fill upsert_mapping
  record_fill-IsSteady id ticket price v s event symbol w = ground (
    arith,
    keys-update_where (λ c. c.id == id) (filled ticket v price w.now) w.copy_trades
        (λ t. (refl, refl)),
  )

  pub skip-IsSteady :
      (id : ℕ) (reason : SkipReason) (code : Option CopyErrorCode)
      → IsSteady {B = B} (skip id reason code)
  unfolding skip
  skip-IsSteady id reason code w = record {
    events_kept = refl;
    keys_kept =
        keys-update_where (λ c. c.id == id) (skipped_for reason code) w.copy_trades
          (λ t. (refl, refl));
  }

  use_risk_state-IsSteady :
      (a : TradingAccount) (s : Option RiskState) → IsSteady {B = B} (use_risk_state a s)
  unfolding use_risk_state
  use_risk_state-IsSteady a none w = ground arith
  use_risk_state-IsSteady a (some s) w = ground arith

  pub load_risk_state-IsSteady : (a : TradingAccount) → IsSteady {B = B} (load_risk_state a)
  unfolding load_risk_state
  load_risk_state-IsSteady a w = use_risk_state-IsSteady a _ w

  pub pause_for_breach-IsSteady :
      (s : Subscription) (reason : RiskReason) → IsSteady {B = B} (pause_for_breach s reason)
  unfolding pause_for_breach mark_breached
  pause_for_breach-IsSteady s reason w = ground arith

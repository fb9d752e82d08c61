-- ===== src/Account/Sound.antt =====
-- What holds of every account through all commands of the service.
use copytrade_dashboard.Base.{ℕ, ◌≡◌, refl, true, false, some, List, find, All, inl, inr}
use copytrade_dashboard.Number.Defs.{Number}
use copytrade_dashboard.Types.{
  ConnectionStatus, CopyStatus, ConnectionResult, AccountInfo, ProviderPosition,
}
use copytrade_dashboard.Store.Monad.{Failure, try_catch-ok, try_catch-err}
use copytrade_dashboard.Store.Tables.{TradeProvider}
use copytrade_dashboard.Engine.Session.{is_connected}
use copytrade_dashboard.Reconcile.Sweep.{has_value}
use copytrade_dashboard.Account.State.{Deployment, ManagedAccount, Book, has_id, update_row}
use copytrade_dashboard.Account.Connection.{
  connected_row, connecting_row, failed_row, disconnected_row, synced_row, attempt, give_up,
  begin_connection,
}
use copytrade_dashboard.Account.Rows.{find-update_row, All-update_row}
use copytrade_dashboard.Account.Attempt.{Outcome, attempt_lem}

-- A connected account is enabled, known to the provider and has credentials. One that is disabled
-- is disconnected and does not copy.
pub record IsSound (a : ManagedAccount) : Type 0 where
  pub live :
      is_connected a.row.connection_status ≡ true
      → (a.is_enabled ≡ true)
        × (has_value a.row.provider_account_id ≡ true)
        × (has_value a.row.encrypted_password ≡ true)
  pub off :
      a.is_enabled ≡ false
      → (a.row.connection_status ≡ ConnectionStatus.disconnected)
        × (a.row.copy_status ≡ CopyStatus.idle)

module _ {B : Type 0} where
  abbrev pub AreSound : Book B → Type 0
  AreSound s = All IsSound s.accounts

connecting_row-IsSound : (a : ManagedAccount) → a.is_enabled ≡ true → IsSound (connecting_row a)
unfolding connecting_row
connecting_row-IsSound a e = record { live = λ h. cc; off = λ h. cc }

failed_row-IsSound :
    (f : Failure) (a : ManagedAccount) → a.is_enabled ≡ true → IsSound (failed_row f a)
unfolding failed_row
failed_row-IsSound f a e = record { live = λ h. cc; off = λ h. cc }

connected_row-IsSound :
    (result : ConnectionResult) (info : AccountInfo) (positions : List ProviderPosition) (now : ℕ)
    (a : ManagedAccount)
    → a.is_enabled ≡ true
    → has_value a.row.encrypted_password ≡ true
    → IsSound (connected_row result info positions now a)
unfolding connected_row
connected_row-IsSound result info positions now a e k = record {
  live = λ h. (e, refl, k);
  off = λ h. cc;
}

pub disconnected_row-IsSound : (a : ManagedAccount) → IsSound (disconnected_row a)
unfolding disconnected_row
disconnected_row-IsSound a = record { live = λ h. cc; off = λ h. (refl, refl) }

pub synced_row-IsSound :
    (peak : Number) (info : AccountInfo) (positions : List ProviderPosition) (now : ℕ)
    (a : ManagedAccount)
    → IsSound a
    → IsSound (synced_row peak info positions now a)
unfolding synced_row
synced_row-IsSound peak info positions now a h = record { live = h.live; off = h.off }

module _ {B : Type 0} (p : TradeProvider B) (d : Deployment B) where
  -- The row of an account that may be connected, as the table has it.
  abbrev pub IsReady : ℕ → ManagedAccount → List ManagedAccount → Type 0
  IsReady id a rows =
      (find (has_id id) rows ≡ some a)
      × (a.is_enabled ≡ true)
      × (has_value a.row.encrypted_password ≡ true)

  -- The three writes of a connection, at a row that may be connected.
  write-AreSound :
      (f : ManagedAccount → ManagedAccount) (id : ℕ) (a : ManagedAccount)
      (rows : List ManagedAccount)
      → ((x : ManagedAccount)
          → x.is_enabled ≡ true
          → has_value x.row.encrypted_password ≡ true
          → IsSound (f x))
      → IsReady id a rows
      → All IsSound rows
      → All IsSound (update_row id f rows)
  write-AreSound f id a rows keep (found, enabled, password) h =
      All-update_row id f IsSound rows
        (λ x e k. let same : a ≡ x = cc in rw (← same) (keep a enabled password)) h

  -- After the row is marked as connecting it may still be connected.
  connecting-IsReady :
      (a : ManagedAccount) (rows : List ManagedAccount)
      → IsReady a.row.id a rows
      → IsReady a.row.id (connecting_row a) (update_row a.row.id connecting_row rows)
  unfolding connecting_row
  connecting-IsReady a rows (found, enabled, password) =
      (find-update_row a.row.id connecting_row rows (λ x. refl) found, enabled, password)

  pub begin_connection-AreSound :
      (a : ManagedAccount) (s : Book B)
      → IsReady a.row.id a s.accounts
      → AreSound s
      → AreSound (begin_connection p d a s).1
  unfolding begin_connection give_up
  begin_connection-AreSound a s ready h = from (attempt_lem p d a s1)
    where
      s1 : Book B
      s1 = record s { accounts = update_row a.row.id connecting_row s.accounts }

      ready1 : IsReady a.row.id (connecting_row a) s1.accounts
      ready1 = connecting-IsReady a s.accounts ready

      sound1 : AreSound s1
      sound1 =
          write-AreSound connecting_row a.row.id a s.accounts (λ x e k. connecting_row-IsSound x e)
            ready h

      from : Outcome p d a s1 (attempt p d a s1) → AreSound (begin_connection p d a s).1
      from (inl (e, failed, same)) =
          rw (try_catch-err (attempt p d a) (give_up p d a) s1 failed, same)
            (write-AreSound (failed_row e) a.row.id (connecting_row a) s1.accounts
              (λ x k l. failed_row-IsSound e x k) ready1 sound1)
      from (inr (done, (result, info, positions, same))) =
          rw (try_catch-ok (attempt p d a) (give_up p d a) s1 done, same)
            (write-AreSound (connected_row result info positions s.now) a.row.id (connecting_row a)
              s1.accounts (connected_row-IsSound result info positions s.now) ready1 sound1)

-- ===== src/Account/Keeping.antt =====
-- Every command keeps the accounts sound.
use copytrade_dashboard.Base.{
  ℕ, ◌≡◌, refl, ap, Bool, true, false, Option, none, some, List, [], ◌∷◌, Bool-cases, inl, inr,
}
use copytrade_dashboard.Store.Preserve.{Preserves}
use copytrade_dashboard.Store.Tables.{TradeProvider}
use copytrade_dashboard.Reconcile.Sweep.{has_value}
use copytrade_dashboard.Account.State.{
  Deployment, DeploymentState, ManagedAccount, Book, find_row, find_owned, write_account,
}
use copytrade_dashboard.Account.Connection.{
  disconnected_row, synced_row, connect_unrejected, connect_with_password, connect_owned,
  connect_account, disconnect_account, sync_account, is_auth_failure,
}
use copytrade_dashboard.Account.Enabling.{
  CreateAccountInput, created_row, insert_account, switched_row, store_switched, set_owned,
  set_account_enabled, refresh_provider_states,
}
use copytrade_dashboard.Account.Commands.{
  Command, create, connect, disconnect, sync, set_enabled, refresh, wait, after, after_all,
}
use copytrade_dashboard.Account.Rows.{All-update_row, All-append, owned-found}
use copytrade_dashboard.Account.Frame.{
  KeepsWrites, disconnect_owned-Preserves, sync_owned-Preserves, create_account-Preserves,
  refresh_states-Preserves, set_owned-Preserves,
}
use copytrade_dashboard.Account.Sound.{
  IsSound, AreSound, disconnected_row-IsSound, synced_row-IsSound, begin_connection-AreSound,
}

module _ {B : Type 0} where
  -- A write that keeps each row sound.
  write_account-AreSound :
      (id : ℕ) (f : ManagedAccount → ManagedAccount)
      → ((a : ManagedAccount) → IsSound a → IsSound (f a))
      → Preserves AreSound (write_account {B = B} id f)
  write_account-AreSound id f keep s h = All-update_row id f IsSound s.accounts (λ a e. keep a) h

  insert_account-AreSound :
      (encrypt : ℕ → ℕ) (user_id : ℕ) (input : CreateAccountInput)
      → Preserves AreSound (insert_account {B = B} encrypt user_id input)
  unfolding insert_account created_row
  insert_account-AreSound encrypt user_id input s h =
      All-append IsSound s.accounts (created_row encrypt s.next_id user_id input) h
        (record { live = λ k. cc; off = λ k. cc })

switched_row-IsSound :
    (enabled : Bool) (state : Option DeploymentState) (a : ManagedAccount)
    → IsSound a
    → IsSound (switched_row enabled state a)
unfolding switched_row
switched_row-IsSound true state a h = record {
  live = λ k. (refl, (h.live k).1, (h.live k).2);
  off = λ k. cc;
}
switched_row-IsSound false state a h = record { live = λ k. cc; off = λ k. (refl, refl) }

AreSound-KeepsWrites : {B : Type 0} → KeepsWrites (AreSound {B = B})
AreSound-KeepsWrites = record {
  called = λ f s h. h;
  disconnected = λ j. write_account-AreSound j disconnected_row (λ x k. disconnected_row-IsSound x);
  synced = λ j peak info positions now.
      write_account-AreSound j (synced_row peak info positions now)
        (synced_row-IsSound peak info positions now);
  stated = λ j state.
      write_account-AreSound j (λ (x : ManagedAccount). record x { provider_state = state })
        (λ x k. record { live = k.live; off = k.off });
  inserted = insert_account-AreSound;
}

module _ {B : Type 0} (p : TradeProvider B) (d : Deployment B) where
  connect_with_password-AreSound :
      (a : ManagedAccount) (o : Option ℕ) (s : Book B)
      → a.row.encrypted_password ≡ o
      → find_row a.row.id s ≡ some a
      → a.is_enabled ≡ true
      → AreSound s
      → AreSound (connect_with_password p d a o s).1
  unfolding connect_with_password connect_unrejected
  connect_with_password-AreSound a none s e found enabled h = h
  connect_with_password-AreSound a (some password) s e found enabled h =
      elim (Bool-cases (d.supports a.row.platform)) [
        | inl k ↦ elim (Bool-cases (is_auth_failure a.last_error_code)) [
          | inl r ↦ rw (k, r) h
          | inr r ↦ rw (k, r) (begin_connection-AreSound p d a s (found, enabled, ap has_value e) h)
        ]
        | inr k ↦ rw k h
      ]

  connect_owned-AreSound :
      (o : Option ManagedAccount) (s : Book B)
      → ((a : ManagedAccount) → o ≡ some a → find_row a.row.id s ≡ some a)
      → AreSound s
      → AreSound (connect_owned p d o s).1
  unfolding connect_owned
  connect_owned-AreSound none s found h = h
  connect_owned-AreSound (some a) s found h = elim (Bool-cases a.is_enabled) [
    | inl e ↦
        simp e (connect_with_password-AreSound a a.row.encrypted_password s refl (found a refl) e h)
    | inr e ↦ simp e h
  ]

  connect_account-AreSound : (id user_id : ℕ) → Preserves AreSound (connect_account p d id user_id)
  unfolding connect_account
  connect_account-AreSound id user_id s h =
      connect_owned-AreSound (find_owned id user_id s) s
        (λ a e. let (found, same) = owned-found id user_id s a e in simp same found) h

  set_owned-AreSound :
      (enabled : Bool) (o : Option ManagedAccount) → Preserves AreSound (set_owned d enabled o)
  unfolding store_switched
  set_owned-AreSound enabled o =
      set_owned-Preserves p d AreSound AreSound-KeepsWrites enabled o (λ a e state.
        write_account-AreSound a.row.id (switched_row enabled state)
          (switched_row-IsSound enabled state))

  after-AreSound :
      (encrypt : ℕ → ℕ) (c : Command) (s : Book B) → AreSound s → AreSound (after p d encrypt c s)
  unfolding disconnect_account sync_account set_account_enabled refresh_provider_states
  after-AreSound encrypt (create user_id input) s h =
      create_account-Preserves p d AreSound AreSound-KeepsWrites encrypt user_id input s h
  after-AreSound encrypt (connect id user_id) s h = connect_account-AreSound id user_id s h
  after-AreSound encrypt (disconnect id user_id) s h =
      disconnect_owned-Preserves p d AreSound AreSound-KeepsWrites (find_owned id user_id s) s h
  after-AreSound encrypt (sync id user_id) s h =
      sync_owned-Preserves p d AreSound AreSound-KeepsWrites (find_owned id user_id s) s h
  after-AreSound encrypt (set_enabled id user_id enabled) s h =
      set_owned-AreSound enabled (find_owned id user_id s) s h
  after-AreSound encrypt (refresh user_id) s h =
      refresh_states-Preserves p d AreSound AreSound-KeepsWrites _ s h
  after-AreSound encrypt (wait n) s h = h

  -- Any commands, each with any answers of the provider, keep this of every account: one that is
  -- connected is enabled, known to the provider and has credentials, and one that is disabled is
  -- disconnected and does not copy.
  pub after_all-AreSound :
      (encrypt : ℕ → ℕ) (cs : List Command) (s : Book B)
      → AreSound s
      → AreSound (after_all p d encrypt cs s)
  unfolding after_all
  after_all-AreSound encrypt [] s h = h
  after_all-AreSound encrypt (c ∷ cs) s h =
      after_all-AreSound encrypt cs (after p d encrypt c s) (after-AreSound encrypt c s h)

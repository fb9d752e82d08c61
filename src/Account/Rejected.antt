-- ===== src/Account/Rejected.antt =====
-- Credentials that the broker has rejected.
use mathlib.Core.Path.{subst}
use copytrade_dashboard.Base.{
  ℕ, ◌≡◌, ◌∙◌, ◌⊎◌, refl, sym, ap, true, false, Option, none, some, Bool-cases, inl, inr,
}
use copytrade_dashboard.Types.{broker_auth_failed}
use copytrade_dashboard.Store.Monad.{
  Failure, app_error, other_error, Result, err, try_catch-ok, try_catch-err,
}
use copytrade_dashboard.Store.Tables.{TradeProvider}
use copytrade_dashboard.Account.State.{
  Deployment, ManagedAccount, Book, update_row, find_row, find_owned,
}
use copytrade_dashboard.Account.Connection.{
  connecting_row, failed_row, attempt, give_up, begin_connection, connect_unrejected,
  connect_with_password, connect_owned, connect_account, is_auth_failure, connection_error,
  app_code,
}
use copytrade_dashboard.Account.Rows.{find-update_row, owned-found}
use copytrade_dashboard.Account.Attempt.{Outcome, attempt_lem}

module _ {B : Type 0} where
  -- The account's last error is that the broker rejected its credentials.
  abbrev pub IsRejected : ℕ → Book B → Type 0
  IsRejected id s =
      (a : ManagedAccount) × (find_row id s ≡ some a) × (is_auth_failure a.last_error_code ≡ true)

-- Only a rejection is thrown on as one.
code_of_rejection :
    (e : Failure)
    → connection_error e ≡ app_error broker_auth_failed
    → is_auth_failure (app_code e) ≡ true
code_of_rejection (app_error code) h = let same : code ≡ broker_auth_failed = cc in rw same refl
code_of_rejection other_error h = cc

rejection : {e f : Failure} → ◌≡◌ {A = Result (Unit {0})} (err e) (err f) → e ≡ f
rejection h = cc

module _ {B : Type 0} (p : TradeProvider B) (d : Deployment B) where
  refused_with_password :
      (a : ManagedAccount) (o : Option ℕ) (s : Book B)
      → is_auth_failure a.last_error_code ≡ true
      → (e : Failure) × (connect_with_password p d a o s ≡ (err e, s))
  unfolding connect_with_password connect_unrejected
  refused_with_password a none s h = (_, refl)
  refused_with_password a (some n) s h = elim (Bool-cases (d.supports a.row.platform)) [
    | inl k ↦ rw (k, h) (app_error broker_auth_failed, refl)
    | inr k ↦ rw k (_, refl)
  ]

  refused :
      (o : Option ManagedAccount) (s : Book B)
      → ((a : ManagedAccount) → o ≡ some a → is_auth_failure a.last_error_code ≡ true)
      → (e : Failure) × (connect_owned p d o s ≡ (err e, s))
  unfolding connect_owned
  refused none s h = (_, refl)
  refused (some a) s h = elim (Bool-cases a.is_enabled) [
    | inl k ↦ simp k (refused_with_password a a.row.encrypted_password s (h a refl))
    | inr k ↦ simp k (_, refl)
  ]

  -- Connecting a rejected account throws and changes nothing, at the broker neither.
  pub connect_account_refused :
      (id user_id : ℕ) (s : Book B)
      → IsRejected id s
      → (e : Failure) × (connect_account p d id user_id s ≡ (err e, s))
  unfolding connect_account
  connect_account_refused id user_id s (a, found, rejected) =
      refused (find_owned id user_id s) s (λ x e.
        let (found', same) = owned-found id user_id s x e in
        let a_is_x : a ≡ x = cc in rw (← a_is_x) rejected)

  -- An attempt that fails because the broker rejects the credentials leaves the account rejected.
  begin-IsRejected :
      (a : ManagedAccount) (s : Book B)
      → find_row a.row.id s ≡ some a
      → (begin_connection p d a s).0 ≡ err (app_error broker_auth_failed)
      → IsRejected a.row.id (begin_connection p d a s).1
  unfolding begin_connection give_up failed_row connecting_row
  begin-IsRejected a s found h = from (attempt_lem p d a s1)
    where
      s1 : Book B
      s1 = record s { accounts = update_row a.row.id connecting_row s.accounts }

      found1 : find_row a.row.id s1 ≡ some (connecting_row a)
      found1 = find-update_row a.row.id connecting_row s.accounts (λ x. refl) found

      from : Outcome p d a s1 (attempt p d a s1) → IsRejected a.row.id (begin_connection p d a s).1
      from (inl (e, failed, same)) =
          let path = try_catch-err (attempt p d a) (give_up p d a) s1 failed in
          let thrown : connection_error e ≡ app_error broker_auth_failed =
            rejection (ap (λ x. x.0) (sym path) ∙ h) in
          rw (path, same)
            (
              failed_row e (connecting_row a),
              find-update_row a.row.id (failed_row e) s1.accounts (λ x. refl) found1,
              code_of_rejection e thrown,
            )
      from (inr (done, stored)) =
          absurd (let path = try_catch-ok (attempt p d a) (give_up p d a) s1 done in cc)

  module _ (id : ℕ) (s : Book B) (a : ManagedAccount) (found : find_row id s ≡ some a)
      (same : a.row.id ≡ id) where
    unrejected-IsRejected :
        (connect_unrejected p d a s).0 ≡ err (app_error broker_auth_failed)
        → IsRejected id (connect_unrejected p d a s).1
    unfolding connect_unrejected
    unrejected-IsRejected h = from (Bool-cases (is_auth_failure a.last_error_code)) h
      where
        from :
            ((is_auth_failure a.last_error_code ≡ true)
              ⊎ (is_auth_failure a.last_error_code ≡ false))
            → (connect_unrejected p d a s).0 ≡ err (app_error broker_auth_failed)
            → IsRejected id (connect_unrejected p d a s).1
        from (inl e) k = rw e (a, found, e)
        from (inr e) k =
            let k' = rw e at k in
            rw e (
              subst (λ n. IsRejected n (begin_connection p d a s).1) same
                (begin-IsRejected a s (simp same found) k'))

    password-IsRejected :
        (o : Option ℕ)
        → (connect_with_password p d a o s).0 ≡ err (app_error broker_auth_failed)
        → IsRejected id (connect_with_password p d a o s).1
    unfolding connect_with_password
    password-IsRejected none h = absurd (let e = rejection h in cc)
    password-IsRejected (some n) h = from (Bool-cases (d.supports a.row.platform)) h
      where
        from :
            ((d.supports a.row.platform ≡ true) ⊎ (d.supports a.row.platform ≡ false))
            → (connect_with_password p d a (some n) s).0 ≡ err (app_error broker_auth_failed)
            → IsRejected id (connect_with_password p d a (some n) s).1
        from (inl e) k = let k' = rw e at k in rw e (unrejected-IsRejected k')
        from (inr e) k = absurd (let k' = rejection (rw e at k) in cc)

  owned-IsRejected :
      (id : ℕ) (o : Option ManagedAccount) (s : Book B)
      → ((a : ManagedAccount) → o ≡ some a → (find_row id s ≡ some a) × (a.row.id ≡ id))
      → (connect_owned p d o s).0 ≡ err (app_error broker_auth_failed)
      → IsRejected id (connect_owned p d o s).1
  unfolding connect_owned
  owned-IsRejected id none s found h = absurd (let e = rejection h in cc)
  owned-IsRejected id (some a) s found h = from (Bool-cases a.is_enabled) h
    where
      from :
          ((a.is_enabled ≡ true) ⊎ (a.is_enabled ≡ false))
          → (connect_owned p d (some a) s).0 ≡ err (app_error broker_auth_failed)
          → IsRejected id (connect_owned p d (some a) s).1
      from (inl e) k =
          let k' = simp e at k in
          simp e (
            password-IsRejected id s a (found a refl).0 (found a refl).1 a.row.encrypted_password
              k')
      from (inr e) k = absurd (let k' = rejection (simp e at k) in cc)

  -- A connection that fails as rejected leaves the account marked as rejected.
  pub connect_account-IsRejected :
      (id user_id : ℕ) (s : Book B)
      → (connect_account p d id user_id s).0 ≡ err (app_error broker_auth_failed)
      → IsRejected id (connect_account p d id user_id s).1
  unfolding connect_account
  connect_account-IsRejected id user_id s h =
      owned-IsRejected id (find_owned id user_id s) s (λ a e. owned-found id user_id s a e) h

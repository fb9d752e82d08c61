-- ===== src/Control/Synced.antt =====
-- The copy status of an account, in step with its subscriptions.
use copytrade_dashboard.Base.{
  ℕ, ◌≡◌, refl, ap, ◌∙◌, Bool, true, false, ◌&&◌, Option, some, List, find, find_sound, any, ◌==◌,
  if◌then◌else◌,
}
use copytrade_dashboard.Types.{CopyStatus, not_found}
use copytrade_dashboard.Store.Rows.{TradingAccount, Subscription}
use copytrade_dashboard.Store.Monad.{app_error, ok, Action, ◌>>=◌, bind-ok}
use copytrade_dashboard.Store.Lookup.{find-update_where}
use copytrade_dashboard.Engine.Session.{or_throw}
use copytrade_dashboard.Control.State.{Registry, is_copying}
use copytrade_dashboard.Control.Commands.{require_owned, copies_for, sync_account}

abbrev pub find_account_row : ℕ → List TradingAccount → Option TradingAccount
find_account_row id accounts = find (λ a. a.id == id) accounts

abbrev pub find_owned : ℕ → ℕ → List Subscription → Option Subscription
find_owned id user_id ss = find (λ s. s.id == id && s.user_id == user_id) ss

-- The account shows COPYING exactly when one of its owner's subscriptions is copying to it.
abbrev pub IsSynced : ℕ → ℕ → Registry → Type 0
IsSynced account_id user_id w =
    (a : TradingAccount) × (find_account_row account_id w.accounts ≡ some a)
    × (is_copying a.copy_status ≡ any (copies_for account_id user_id) w.subscriptions)

pub copying_if : (b : Bool) → is_copying (if b then CopyStatus.copying else CopyStatus.idle) ≡ b
copying_if true = refl
copying_if false = refl

pub sync_account-IsSynced :
    (account_id user_id : ℕ) (w : Registry) {a : TradingAccount}
    → find_account_row account_id w.accounts ≡ some a
    → IsSynced account_id user_id (sync_account account_id user_id w).1
unfolding sync_account
sync_account-IsSynced account_id user_id w h =
    let at = λ (a : TradingAccount). a.id == account_id in
    (
      _,
      find-update_where at at _ w.accounts (λ x. refl) h (find_sound at w.accounts h),
      copying_if (any (copies_for account_id user_id) w.subscriptions),
    )

-- A command goes on with the subscription that the user owns.
pub require_then :
    {C : Type 0} (id user_id : ℕ) (f : Subscription → Action Registry C) (w : Registry)
    {s : Subscription}
    → find_owned id user_id w.subscriptions ≡ some s
    → (require_owned id user_id >>= f) w ≡ f s w
unfolding require_owned
require_then id user_id f w {s} owned =
    let e : require_owned id user_id w ≡ (ok s, w) =
      ap (λ o. or_throw o (app_error not_found) w) owned in
    bind-ok (require_owned id user_id) f w (ap (λ r. r.0) e) ∙ ap (λ r. f s r.1) e

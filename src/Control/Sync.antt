-- ===== src/Control/Sync.antt =====
-- What the commands leave: who is copied to, and what an account shows.
use copytrade_dashboard.Base.{
  ℕ, ◌≡◌, refl, ap, ◌∙◌, true, false, ◌&&◌, not, some, List, [], ◌∷◌, find_sound, filter, any,
  arith, ◌==◌, ==_iff, Bool-cases, inl, inr, ◌⊎◌,
}
use copytrade_dashboard.Base.Int.{decrement}
use copytrade_dashboard.Types.{CopyStatus, conflict}
use copytrade_dashboard.Store.Rows.{TradingAccount, Subscription}
use copytrade_dashboard.Store.Monad.{app_error, ok, err, ◌>>◌, throw_if}
use copytrade_dashboard.Store.Tables.{World, update_where}
use copytrade_dashboard.Store.Lookup.{find-update_where}
use copytrade_dashboard.Engine.Session.{is_connected}
use copytrade_dashboard.Engine.Process.{is_eligible, select_eligible}
use copytrade_dashboard.Engine.Breach.{Excludes, select_eligible-Excludes}
use copytrade_dashboard.Control.State.{
  Listing, Registry, is_copying, find_owned_account, find_listing,
}
use copytrade_dashboard.Control.Commands.{
  listing_is_active, update_subscription, delete_subscription, sync_account, started, paused,
  stopped, start_owned, start_copying, pause_copying, stop_copying, unsubscribe,
}
use copytrade_dashboard.Control.Synced.{
  find_account_row, find_owned, IsSynced, sync_account-IsSynced, require_then,
}

pause_path :
    (id user_id : ℕ) (w : Registry) {s : Subscription}
    → find_owned id user_id w.subscriptions ≡ some s
    → pause_copying id user_id w
      ≡ (update_subscription id paused >> sync_account s.account_id user_id) w
unfolding pause_copying
pause_path id user_id w owned =
    require_then id user_id
      (λ t. update_subscription id paused >> sync_account t.account_id user_id) w owned

stop_path :
    (id user_id : ℕ) (w : Registry) {s : Subscription}
    → find_owned id user_id w.subscriptions ≡ some s
    → stop_copying id user_id w
      ≡ (update_subscription id stopped >> sync_account s.account_id user_id) w
unfolding stop_copying
stop_path id user_id w owned =
    require_then id user_id
      (λ t. update_subscription id stopped >> sync_account t.account_id user_id) w owned

-- Pausing a subscription that the user owns succeeds; the subscription is then eligible for no event
-- of any strategy, and the account shows COPYING exactly if another of the user's subscriptions is
-- still copying to it.
pub pause_copying_lem :
    {B : Type 0} (id user_id strategy_id : ℕ) (w : Registry) (v : World B) {s : Subscription}
    {a : TradingAccount}
    → find_owned id user_id w.subscriptions ≡ some s
    → find_account_row s.account_id w.accounts ≡ some a
    → let after = pause_copying id user_id w in
      (after.0 ≡ ok tt)
      × Excludes id (select_eligible strategy_id v after.1.subscriptions)
      × IsSynced s.account_id user_id after.1
unfolding pause_copying sync_account
pause_copying_lem id user_id strategy_id w v {s} owned row =
    let subscriptions = update_where (λ t. t.id == id) (paused w.now) w.subscriptions in
    rw (pause_path id user_id w owned) (
      refl,
      select_eligible-Excludes id strategy_id (paused w.now) v w.subscriptions (λ t. ground arith),
      sync_account-IsSynced s.account_id user_id (record w { subscriptions = subscriptions }) row,
    )

-- Stopping a subscription that the user owns succeeds; the subscription is then eligible for no event
-- of any strategy, and the account shows COPYING exactly if another of the user's subscriptions is
-- still copying to it.
pub stop_copying_lem :
    {B : Type 0} (id user_id strategy_id : ℕ) (w : Registry) (v : World B) {s : Subscription}
    {a : TradingAccount}
    → find_owned id user_id w.subscriptions ≡ some s
    → find_account_row s.account_id w.accounts ≡ some a
    → let after = stop_copying id user_id w in
      (after.0 ≡ ok tt)
      × Excludes id (select_eligible strategy_id v after.1.subscriptions)
      × IsSynced s.account_id user_id after.1
unfolding stop_copying sync_account
stop_copying_lem id user_id strategy_id w v {s} owned row =
    let subscriptions = update_where (λ t. t.id == id) (stopped w.now) w.subscriptions in
    rw (stop_path id user_id w owned) (
      refl,
      select_eligible-Excludes id strategy_id (stopped w.now) v w.subscriptions (λ t. ground arith),
      sync_account-IsSynced s.account_id user_id (record w { subscriptions = subscriptions }) row,
    )

filter_none :
    (id : ℕ) (ss : List Subscription)
    → any (λ t. t.id == id) (filter (λ t. not (t.id == id)) ss) ≡ false
filter_none id [] = refl
filter_none id (s ∷ ss) = ground (arith, filter_none id ss)

-- The listings with one member less.
abbrev listed : Subscription → Registry → List Listing
listed s w =
    update_where (λ l. l.strategy.id == s.strategy_id)
      (λ l. record l { member_count = decrement l.member_count }) w.strategies

unsubscribe_path :
    (id user_id : ℕ) (w : Registry) {s : Subscription}
    → find_owned id user_id w.subscriptions ≡ some s
    → unsubscribe id user_id w
      ≡ (throw_if (is_copying s.copy_status) (app_error conflict)
            >> (delete_subscription s >> sync_account s.account_id user_id))
          w
unfolding unsubscribe
unsubscribe_path id user_id w owned =
    require_then id user_id
      (λ t.
        throw_if (is_copying t.copy_status) (app_error conflict)
        >> (delete_subscription t >> sync_account t.account_id user_id))
      w owned

-- Unsubscribing is refused with a conflict, without any change, while the subscription is copying;
-- otherwise it succeeds, no subscription has the id any more, and the account shows COPYING exactly
-- if another of the user's subscriptions is copying to it.
pub unsubscribe_lem :
    (id user_id : ℕ) (w : Registry) {s : Subscription} {a : TradingAccount}
    → find_owned id user_id w.subscriptions ≡ some s
    → find_account_row s.account_id w.accounts ≡ some a
    → let after = unsubscribe id user_id w in
      ((is_copying s.copy_status ≡ true) × (after ≡ (err (app_error conflict), w)))
      ⊎ ((is_copying s.copy_status ≡ false)
          × (after.0 ≡ ok tt)
          × (any (λ t. t.id == id) after.1.subscriptions ≡ false)
          × IsSynced s.account_id user_id after.1)
unfolding sync_account
unsubscribe_lem id user_id w {s} owned row =
    let same : s.id ≡ id =
      ground (arith, find_sound (λ s. s.id == id && s.user_id == user_id) w.subscriptions owned) in
    elim (Bool-cases (is_copying s.copy_status)) [
      | inl e ↦ inl (e, rw (unsubscribe_path id user_id w owned, e) refl)
      | inr e ↦
          let kept = filter (λ t. not (t.id == s.id)) w.subscriptions in
          let left = record w { subscriptions = kept; strategies = listed s w } in
          rw (unsubscribe_path id user_id w owned, e)
            (inr (
              refl,
              refl,
              rw same (filter_none id w.subscriptions),
              sync_account-IsSynced s.account_id user_id left row,
            ))
    ]

start_path :
    (id user_id : ℕ) (w : Registry) {s : Subscription} {a : TradingAccount}
    → find_owned id user_id w.subscriptions ≡ some s
    → find_owned_account s.account_id user_id w ≡ some a
    → start_copying id user_id w ≡ start_owned s user_id (some a) w
unfolding start_copying
start_path id user_id w {s} owned found =
    require_then id user_id
      (λ t u. start_owned t user_id (find_owned_account t.account_id user_id u) u) w owned
    ∙ ap (λ o. start_owned s user_id o w) found

start_owned_lem :
    (id user_id : ℕ) (w : Registry) {s : Subscription} {a : TradingAccount}
    → find_owned id user_id w.subscriptions ≡ some s
    → find_owned_account s.account_id user_id w ≡ some a
    → (start_owned s user_id (some a) w).0 ≡ ok tt
    → let after = (start_owned s user_id (some a) w).1 in
      (is_connected a.connection_status ≡ true)
      × ((t : Subscription) × (find_owned id user_id after.subscriptions ≡ some t)
          × (is_eligible s.strategy_id t ≡ true))
      × ((a' : TradingAccount) × (find_owned_account s.account_id user_id after ≡ some a')
          × (is_copying a'.copy_status ≡ true))
unfolding start_owned
start_owned_lem id user_id w {s} {a} owned found success =
    let mine = λ (t : Subscription). t.id == id && t.user_id == user_id in
    let its = λ (x : TradingAccount). x.id == s.account_id && x.user_id == user_id in
    let subscription =
      find-update_where mine (λ t. t.id == s.id) (started w.now) w.subscriptions (λ x. refl) owned
        ((==_iff s.id s.id).1 refl) in
    let account =
      find-update_where its (λ x. x.id == s.account_id)
        (λ x. record x { copy_status = CopyStatus.copying }) w.accounts (λ x. refl) found
        (ground (arith, find_sound its w.accounts found)) in
    elim (Bool-cases (is_connected a.connection_status)) [
      | inl up ↦ elim (Bool-cases (listing_is_active (find_listing s.strategy_id w))) [
        | inl live ↦
            rw (up, live)
              (
                refl,
                (
                  started w.now s,
                  subscription,
                  rw ((==_iff s.strategy_id s.strategy_id).1 refl) refl,
                ),
                (record a { copy_status = CopyStatus.copying }, account, refl),
              )
        | inr closed ↦ let d = rw (up, closed) at success in cc
      ]
      | inr down ↦ let d = rw down at success in cc
    ]

-- A start that succeeds found the account connected, and leaves the subscription eligible for the
-- events of its strategy and its account copying.
pub start_copying_lem :
    (id user_id : ℕ) (w : Registry) {s : Subscription} {a : TradingAccount}
    → find_owned id user_id w.subscriptions ≡ some s
    → find_owned_account s.account_id user_id w ≡ some a
    → (start_copying id user_id w).0 ≡ ok tt
    → let after = (start_copying id user_id w).1 in
      (is_connected a.connection_status ≡ true)
      × ((t : Subscription) × (find_owned id user_id after.subscriptions ≡ some t)
          × (is_eligible s.strategy_id t ≡ true))
      × ((a' : TradingAccount) × (find_owned_account s.account_id user_id after ≡ some a')
          × (is_copying a'.copy_status ≡ true))
start_copying_lem id user_id w {s} {a} owned found success =
    let path = start_path id user_id w owned found in
    rw path (start_owned_lem id user_id w owned found (rw path at success))

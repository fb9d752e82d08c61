-- ===== src/Control/Commands.antt =====
-- The commands: subscribe, start, pause, stop, unsubscribe.
use copytrade_dashboard.Base.{
  ℕ, ◌+◌, Bool, false, ◌&&◌, not, Option, none, some, [], ◌∷◌, ◌++◌, find, filter, any, ◌==◌,
  if◌then◌else◌,
}
use copytrade_dashboard.Base.Int.{increment, decrement}
use copytrade_dashboard.Types.{CopyStatus, not_found, conflict, platform_connection_error}
use copytrade_dashboard.Store.Rows.{
  TradingAccount, Subscription, SubscriptionStatus, CopySettings, RiskProfile,
}
use copytrade_dashboard.Store.Monad.{app_error, ok, Action, ◌>>=◌, ◌>>◌, throw, modify, throw_if}
use copytrade_dashboard.Store.Tables.{update_where}
use copytrade_dashboard.Engine.Session.{is_connected, or_throw}
use copytrade_dashboard.Ingest.Receive.{is_active}
use copytrade_dashboard.Control.State.{
  Listing, Registry, is_copying, find_owned_account, find_listing, assert_strategy_limit,
}

-- `requireOwnedSubscription`
unfoldable pub require_owned : ℕ → ℕ → Action Registry Subscription
require_owned id user_id w =
    or_throw (find (λ s. s.id == id && s.user_id == user_id) w.subscriptions) (app_error not_found)
      w

abbrev pub update_subscription : ℕ → (ℕ → Subscription → Subscription) → Action Registry (Unit {0})
update_subscription id f =
    modify
      λ w. record w { subscriptions = update_where (λ s. s.id == id) (f w.now) w.subscriptions }

abbrev pub update_copy_status : ℕ → CopyStatus → Action Registry (Unit {0})
update_copy_status id status = modify λ w. record w {
  accounts = update_where (λ a. a.id == id) (λ a. record a { copy_status = status }) w.accounts;
}

-- A subscription of this account and user that is copying.
abbrev pub copies_for : ℕ → ℕ → Subscription → Bool
copies_for account_id user_id s =
    s.account_id == account_id && s.user_id == user_id && is_copying s.copy_status

-- `syncAccountCopyStatus`: an account is COPYING while any of its subscriptions still is.
unfoldable pub sync_account : ℕ → ℕ → Action Registry (Unit {0})
sync_account account_id user_id w =
    let still = any (copies_for account_id user_id) w.subscriptions in
    update_copy_status account_id (if still then CopyStatus.copying else CopyStatus.idle) w

-- The updates of a subscription.
abbrev pub started : ℕ → Subscription → Subscription
started now s = record s {
  copy_status = CopyStatus.copying;
  status = SubscriptionStatus.active;
  paused_at = none;
}

abbrev pub paused : ℕ → Subscription → Subscription
paused now s = record s { copy_status = CopyStatus.paused; paused_at = some now }

abbrev pub stopped : ℕ → Subscription → Subscription
stopped now s = record s { copy_status = CopyStatus.stopped }

abbrev pub listing_is_active : Option Listing → Bool
listing_is_active none = false
listing_is_active (some l) = is_active l.strategy.status

unfoldable pub start_owned : Subscription → ℕ → Option TradingAccount → Action Registry (Unit {0})
start_owned s user_id none = throw (app_error not_found)
start_owned s user_id (some account) = do
  throw_if (not (is_connected account.connection_status)) (app_error platform_connection_error)
  λ w. throw_if (not (listing_is_active (find_listing s.strategy_id w))) (app_error conflict) w
  update_subscription s.id started
  update_copy_status s.account_id CopyStatus.copying

unfoldable pub start_copying : ℕ → ℕ → Action Registry (Unit {0})
start_copying id user_id = do
  s ← require_owned id user_id
  λ w. start_owned s user_id (find_owned_account s.account_id user_id w) w

unfoldable pub pause_copying : ℕ → ℕ → Action Registry (Unit {0})
pause_copying id user_id = do
  s ← require_owned id user_id
  update_subscription id paused
  sync_account s.account_id user_id

unfoldable pub stop_copying : ℕ → ℕ → Action Registry (Unit {0})
stop_copying id user_id = do
  s ← require_owned id user_id
  update_subscription id stopped
  sync_account s.account_id user_id

abbrev pub delete_subscription : Subscription → Action Registry (Unit {0})
delete_subscription s = modify λ w. record w {
  subscriptions = filter (λ t. not (t.id == s.id)) w.subscriptions;
  strategies =
      update_where (λ l. l.strategy.id == s.strategy_id)
        (λ l. record l { member_count = decrement l.member_count }) w.strategies;
}

unfoldable pub unsubscribe : ℕ → ℕ → Action Registry (Unit {0})
unsubscribe id user_id = do
  s ← require_owned id user_id
  throw_if (is_copying s.copy_status) (app_error conflict)
  delete_subscription s
  sync_account s.account_id user_id

-- The pair of the unique constraint on subscriptions.
abbrev pub follows : ℕ → ℕ → Subscription → Bool
follows account_id strategy_id s = s.account_id == account_id && s.strategy_id == strategy_id

abbrev new_subscription : ℕ → ℕ → ℕ → ℕ → CopySettings → RiskProfile → Subscription
new_subscription id user_id account_id strategy_id settings risk = record {
  id = id;
  user_id = user_id;
  strategy_id = strategy_id;
  account_id = account_id;
  status = SubscriptionStatus.active;
  copy_status = CopyStatus.idle;
  paused_at = none;
  copy_settings = some settings;
  risk_profile = some risk;
}

abbrev pub insert_subscription : ℕ → ℕ → ℕ → CopySettings → RiskProfile → Action Registry ℕ
insert_subscription user_id account_id strategy_id settings risk w = (
  ok w.next_id,
  record w {
    subscriptions =
        w.subscriptions
        ++ new_subscription w.next_id user_id account_id strategy_id settings risk ∷ [];
    strategies =
        update_where (λ l. l.strategy.id == strategy_id)
          (λ l. record l { member_count = increment l.member_count }) w.strategies;
    next_id = w.next_id + 1;
  },
)

abbrev find_public : ℕ → Registry → Option Listing
find_public id w = find (λ l. l.strategy.id == id && l.is_public) w.strategies

-- The settings are those that the schemas have parsed.
unfoldable pub subscribe : ℕ → ℕ → ℕ → CopySettings → RiskProfile → Action Registry ℕ
subscribe user_id account_id strategy_id settings risk = do
  account ← λ w. or_throw (find_owned_account account_id user_id w) (app_error not_found) w
  listing ← λ w. or_throw (find_public strategy_id w) (app_error not_found) w
  throw_if (not (is_active listing.strategy.status)) (app_error conflict)
  λ w. throw_if (any (follows account_id strategy_id) w.subscriptions) (app_error conflict) w
  assert_strategy_limit user_id
  insert_subscription user_id account_id strategy_id settings risk

-- `updateCopySettings`, with the settings that the schema has parsed.
unfoldable pub update_copy_settings : ℕ → ℕ → CopySettings → Action Registry (Unit {0})
update_copy_settings id user_id settings = do
  s ← require_owned id user_id
  update_subscription s.id (λ now t. record t { copy_settings = some settings })

-- ===== src/Strategy/Status.antt =====
-- `setStrategyStatus`: pausing a strategy stops its copies and keeps the accounts in step.
use copytrade_dashboard.Base.{
  ℕ, Bool, false, true, ◌&&◌, not, some, List, [], ◌∷◌, any, filter, map, ◌==◌, if◌then◌else◌,
}
use copytrade_dashboard.Base.Sorting.{distinct}
use copytrade_dashboard.Types.{CopyStatus, forbidden}
use copytrade_dashboard.Store.Rows.{TradingAccount, Subscription}
use copytrade_dashboard.Store.Monad.{app_error, Action, ◌>>=◌, ◌>>◌, pure, throw_if, modify}
use copytrade_dashboard.Store.Tables.{update_where}
use copytrade_dashboard.Ingest.State.{StrategyStatus}
use copytrade_dashboard.Ingest.Receive.{is_active}
use copytrade_dashboard.Control.State.{is_copying}
use copytrade_dashboard.Strategy.State.{ManagedStrategy, Catalog, Actor, update_strategy_row}
use copytrade_dashboard.Strategy.Access.{require_strategy_access}

abbrev pub is_draft : StrategyStatus → Bool
is_draft StrategyStatus.draft = true
is_draft _ = false

abbrev pub with_status : StrategyStatus → ManagedStrategy → ManagedStrategy
with_status status x = record x {
  watched = record x.watched { strategy = record x.watched.strategy { status = status } };
}

-- A subscription of the strategy that is copying, and one that copies to the account.
abbrev pub copies : ℕ → Subscription → Bool
copies id s = s.strategy_id == id && is_copying s.copy_status

abbrev pub copies_to : ℕ → Subscription → Bool
copies_to account_id s = s.account_id == account_id && is_copying s.copy_status

abbrev pub paused_at_time : ℕ → Subscription → Subscription
paused_at_time now s = record s { copy_status = CopyStatus.paused; paused_at = some now }

abbrev pub affected : ℕ → List Subscription → List ℕ
affected id ss = map (λ (s : Subscription). s.account_id) (filter (copies id) ss)

-- An account that no subscription copies to any more becomes idle.
unfoldable pub settle_account : ℕ → Action Catalog (Unit {0})
settle_account account_id w =
    (if any (copies_to account_id) w.subscriptions
        then pure tt
        else modify (λ v. record v {
          accounts =
              update_where (λ a. a.id == account_id)
                (λ (a : TradingAccount). record a { copy_status = CopyStatus.idle }) v.accounts;
        }))
      w

unfoldable pub settle_accounts : List ℕ → Action Catalog (Unit {0})
unfolding settle_account
settle_accounts [] = pure tt
settle_accounts (account_id ∷ rest) = settle_account account_id >> settle_accounts rest

abbrev pub pause_subscriptions : ℕ → Action Catalog (Unit {0})
pause_subscriptions id = modify λ w. record w {
  subscriptions = update_where (copies id) (paused_at_time w.now) w.subscriptions;
}

unfoldable pub pause_strategy : ℕ → Action Catalog (Unit {0})
unfolding distinct settle_accounts
pause_strategy id w =
    (pause_subscriptions id >> settle_accounts (distinct (affected id w.subscriptions))) w

-- Only an administrator puts a draft live.
abbrev pub is_unapproved : Actor → StrategyStatus → ManagedStrategy → Bool
is_unapproved actor status x =
    not actor.is_admin && is_active status && is_draft x.watched.strategy.status

unfoldable pub set_status_of :
    ℕ → StrategyStatus → Actor → ManagedStrategy → Action Catalog (Unit {0})
unfolding pause_strategy
set_status_of id status actor x = do
  throw_if (is_unapproved actor status x) (app_error forbidden)
  update_strategy_row id (with_status status)
  if is_active status then pure tt else pause_strategy id

unfoldable pub set_strategy_status : ℕ → StrategyStatus → Actor → Action Catalog (Unit {0})
unfolding set_status_of
set_strategy_status id status actor = do
  x ← require_strategy_access id actor
  set_status_of id status actor x

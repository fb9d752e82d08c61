-- ===== src/Control/State.antt =====
-- What copy control reads and writes.
use copytrade_dashboard.Base.{
  ℕ, Bool, true, false, ◌&&◌, Option, none, some, List, find, filter, length, ◌==◌, ltb, leb, not,
  if◌then◌else◌,
}
use copytrade_dashboard.Base.Int.{ℤ}
use copytrade_dashboard.Types.{CopyStatus, internal_error, plan_limit_reached}
use copytrade_dashboard.Store.Rows.{TradingAccount, Subscription, SubscriptionStatus}
use copytrade_dashboard.Store.Monad.{app_error, Result, ok, err, Action, ◌>>=◌, throw_if, read}
use copytrade_dashboard.Ingest.State.{Strategy}

pub record Listing : Type 0 where
  pub strategy : Strategy
  pub is_public : Bool
  pub member_count : ℤ

pub record Plan : Type 0 where
  pub max_accounts : ℕ
  pub max_strategies : ℕ

-- A paid membership: active or not, with the end of its period.
pub record Membership : Type 0 where
  pub user_id : ℕ
  pub is_active : Bool
  pub current_period_end : Option ℕ
  pub plan : Plan

pub record Registry : Type 0 where
  pub accounts : List TradingAccount
  pub subscriptions : List Subscription
  pub strategies : List Listing
  pub memberships : List Membership
  pub free_plan : Option Plan
  pub next_id : ℕ
  pub now : ℕ

abbrev pub is_copying : CopyStatus → Bool
is_copying CopyStatus.copying = true
is_copying _ = false

abbrev pub is_active_status : SubscriptionStatus → Bool
is_active_status SubscriptionStatus.active = true
is_active_status _ = false

-- `accountRepository.findOwned`
abbrev pub find_owned_account : ℕ → ℕ → Registry → Option TradingAccount
find_owned_account id user_id w = find (λ a. a.id == id && a.user_id == user_id) w.accounts

abbrev pub find_listing : ℕ → Registry → Option Listing
find_listing id w = find (λ l. l.strategy.id == id) w.strategies

abbrev is_expired : ℕ → Option ℕ → Bool
is_expired now none = false
is_expired now (some end) = ltb end now

abbrev free_or_throw : Option Plan → Result Plan
free_or_throw none = err (app_error internal_error)
free_or_throw (some plan) = ok plan

-- `getEffectivePlan`: the paid plan while it runs, else the free one.
unfoldable pub effective_plan : Option Membership → Option Plan → ℕ → Result Plan
effective_plan none free now = free_or_throw free
effective_plan (some m) free now =
    if m.is_active && not (is_expired now m.current_period_end)
    then ok m.plan
    else free_or_throw free

abbrev used_strategies : ℕ → Registry → ℕ
used_strategies user_id w =
    length (filter (λ s. s.user_id == user_id && is_active_status s.status) w.subscriptions)

-- `assertWithinPlanLimits(userId, "STRATEGY")`
unfoldable pub assert_strategy_limit : ℕ → Action Registry (Unit {0})
assert_strategy_limit user_id = do
  plan ←
      read (λ w. effective_plan (find (λ m. m.user_id == user_id) w.memberships) w.free_plan w.now)
  λ w.
      throw_if (leb plan.max_strategies (used_strategies user_id w)) (app_error plan_limit_reached)
        w

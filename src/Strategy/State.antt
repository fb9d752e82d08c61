-- ===== src/Strategy/State.antt =====
-- The tables of strategies and providers, with the columns that the service reads or writes.
use copytrade_dashboard.Base.{ℕ, Bool, Option, List, find, any, ◌==◌}
use copytrade_dashboard.Text.{Text, text_eq}
use copytrade_dashboard.Types.{Platform}
use copytrade_dashboard.Store.Rows.{TradingAccount, Subscription}
use copytrade_dashboard.Store.Monad.{Action, modify}
use copytrade_dashboard.Store.Tables.{update_where}
use copytrade_dashboard.Watch.State.{WatchedStrategy}

pub data PlanTier : Type 0 where
  free basic pro premium : PlanTier

pub data ProviderStatus : Type 0 where
  pending approved rejected suspended : ProviderStatus

-- The profile texts are one number.
pub record ProviderProfile : Type 0 where
  pub id : ℕ
  pub user_id : ℕ
  pub display_name : Text
  pub slug : Text
  pub fields : ℕ
  pub status : ProviderStatus
  pub applied_at : ℕ
  pub reviewed_at : Option ℕ
  pub reviewed_by_id : Option ℕ
  pub review_note : Option Text
  pub public_reason : Option Text
  pub total_strategies : ℕ

-- The columns of a strategy beside those that the watch reads.
pub record ManagedStrategy : Type 0 where
  pub watched : WatchedStrategy
  pub name : Text
  pub description : Option Text
  pub provider_id : Option ℕ
  pub master_platform : Platform
  pub master_account_code : Option Text
  pub min_plan_tier : PlanTier
  pub is_public : Bool

pub record ApiKeyRow : Type 0 where
  pub id : ℕ
  pub strategy_id : ℕ
  pub label : Text
  pub key_id : Text
  pub secret : Text
  pub revoked_at : Option ℕ

pub record Catalog : Type 0 where
  pub providers : List ProviderProfile
  pub strategies : List ManagedStrategy
  pub accounts : List TradingAccount
  pub subscriptions : List Subscription
  pub api_keys : List ApiKeyRow
  pub next_id : ℕ
  pub now : ℕ

-- Who acts: a member, or an administrator.
pub record Actor : Type 0 where
  pub user_id : ℕ
  pub is_admin : Bool

abbrev pub id_of : ManagedStrategy → ℕ
id_of x = x.watched.strategy.id

-- `strategyRepository.findById`, `strategyRepository.findByCode` and `strategyRepository.update`
abbrev pub find_strategy : ℕ → Catalog → Option ManagedStrategy
find_strategy id w = find (λ x. id_of x == id) w.strategies

abbrev pub has_code : Text → Catalog → Bool
has_code code w = any (λ (x : ManagedStrategy). text_eq x.watched.strategy.code code) w.strategies

abbrev pub update_strategy_row : ℕ → (ManagedStrategy → ManagedStrategy) → Action Catalog (Unit {0})
update_strategy_row id f =
    modify λ w. record w { strategies = update_where (λ x. id_of x == id) f w.strategies }

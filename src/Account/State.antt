-- ===== src/Account/State.antt =====
-- The table of trading accounts with the columns of the connection, and what the service reads.
use copytrade_dashboard.Base.{ℕ, Bool, Option, none, some, List, [], ◌∷◌, find, ◌==◌, if◌then◌else◌}
use copytrade_dashboard.Number.Defs.{Number}
use copytrade_dashboard.Text.{Text}
use copytrade_dashboard.Types.{Platform, PositionMode, ErrorCode}
use copytrade_dashboard.Store.Rows.{TradingAccount, Subscription}
use copytrade_dashboard.Store.Monad.{Result, Action, modify}
use copytrade_dashboard.Control.State.{Plan, Membership}
use copytrade_dashboard.Watch.State.{WatchedStrategy}

pub data DeploymentState : Type 0 where
  deployed undeployed deploying undeploying unknown : DeploymentState

-- The part of `ITradeProvider` that only this service calls.
pub record Deployment (B : Type 0) : Type 0 where
  pub supports : Platform → Bool
  pub disconnect_account : ℕ → B → Result (Unit {0}) × B
  pub undeploy_account : ℕ → B → Result (Unit {0}) × B
  pub deploy_account : ℕ → B → Result (Unit {0}) × B
  pub get_deployment_state : ℕ → B → Result DeploymentState

pub record ManagedAccount : Type 0 where
  pub row : TradingAccount
  pub server : Text
  pub position_mode : PositionMode
  pub is_enabled : Bool
  pub provider_state : Option DeploymentState
  pub last_error_code : Option ErrorCode
  pub last_sync_at : Option ℕ
  pub connected_at : Option ℕ
  pub margin : Number
  pub free_margin : Number
  pub floating_pnl : Number

pub record Book (B : Type 0) : Type 0 where
  pub accounts : List ManagedAccount
  pub memberships : List Membership
  pub free_plan : Option Plan
  pub subscriptions : List Subscription
  pub strategies : List WatchedStrategy
  pub next_id : ℕ
  pub now : ℕ
  pub broker : B

abbrev pub has_id : ℕ → ManagedAccount → Bool
has_id id a = a.row.id == id

-- `update({ where: { id }, data })`: the id is the primary key, so one row is written.
abbrev pub update_row :
    ℕ → (ManagedAccount → ManagedAccount) → List ManagedAccount → List ManagedAccount
update_row id f [] = []
update_row id f (a ∷ rows) =
    let rest = update_row id f rows in if has_id id a then f a ∷ rows else a ∷ rest

-- The row, if it belongs to the user.
abbrev pub owned_by : ℕ → Option ManagedAccount → Option ManagedAccount
owned_by user_id none = none
owned_by user_id (some a) = if a.row.user_id == user_id then some a else none

module _ {B : Type 0} where
  abbrev pub find_row : ℕ → Book B → Option ManagedAccount
  find_row id s = find (has_id id) s.accounts

  -- `findOwned` and `findOwnedWithSecrets`
  abbrev pub find_owned : ℕ → ℕ → Book B → Option ManagedAccount
  find_owned id user_id s = owned_by user_id (find_row id s)

  abbrev pub write_account : ℕ → (ManagedAccount → ManagedAccount) → Action (Book B) (Unit {0})
  write_account id f = modify (λ s. record s { accounts = update_row id f s.accounts })

  abbrev pub at_broker : {A : Type 0} → (B → Result A × B) → Action (Book B) A
  at_broker f s = let (r, b) = f s.broker in (r, record s { broker = b })

  abbrev pub ask_broker : {A : Type 0} → (B → Result A) → Action (Book B) A
  ask_broker f s = (f s.broker, s)

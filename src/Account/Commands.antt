-- ===== src/Account/Commands.antt =====
-- Any sequence of the commands of the service.
use copytrade_dashboard.Base.{ℕ, ◌+◌, Bool, List, [], ◌∷◌}
use copytrade_dashboard.Store.Tables.{TradeProvider}
use copytrade_dashboard.Account.State.{Deployment, Book}
use copytrade_dashboard.Account.Connection.{connect_account, disconnect_account, sync_account}
use copytrade_dashboard.Account.Enabling.{
  CreateAccountInput, create_account, set_account_enabled, refresh_provider_states,
}

-- The ids are those of the account and of the user.
pub data Command : Type 0 where
  create : ℕ → CreateAccountInput → Command
  connect : ℕ → ℕ → Command
  disconnect : ℕ → ℕ → Command
  sync : ℕ → ℕ → Command
  set_enabled : ℕ → ℕ → Bool → Command
  refresh : ℕ → Command
  wait : ℕ → Command

module _ {B : Type 0} (p : TradeProvider B) (d : Deployment B) (encrypt : ℕ → ℕ) where
  -- A command may throw; what it has written stays.
  abbrev pub after : Command → Book B → Book B
  after (create user_id input) s = (create_account d encrypt user_id input s).1
  after (connect id user_id) s = (connect_account p d id user_id s).1
  after (disconnect id user_id) s = (disconnect_account d id user_id s).1
  after (sync id user_id) s = (sync_account p id user_id s).1
  after (set_enabled id user_id enabled) s = (set_account_enabled d id user_id enabled s).1
  after (refresh user_id) s = (refresh_provider_states d user_id s).1
  after (wait n) s = record s { now = s.now + n }

  unfoldable pub after_all : List Command → Book B → Book B
  after_all [] s = s
  after_all (c ∷ cs) s = after_all cs (after c s)

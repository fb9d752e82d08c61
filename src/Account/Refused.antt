-- ===== src/Account/Refused.antt =====
-- A rejected account through any commands that do not enable it again.
use copytrade_dashboard.Base.{ℕ, ◌≡◌, true, false, ◌==◌}
use copytrade_dashboard.Store.Monad.{Action}
use copytrade_dashboard.Store.Preserve.{Preserves}
use copytrade_dashboard.Store.Tables.{TradeProvider}
use copytrade_dashboard.Account.State.{Deployment, Book}
use copytrade_dashboard.Account.Commands.{Command, set_enabled}
use copytrade_dashboard.Account.Rejected.{IsRejected}

-- The command does not enable the account.
abbrev pub IsNoEnabling : ℕ → Command → Type 0
IsNoEnabling id (set_enabled j user_id true) = (j == id) ≡ false
IsNoEnabling id _ = Unit {0}

module _ {B : Type 0} (p : TradeProvider B) (d : Deployment B) (id : ℕ) where
  abbrev Keeps : {A : Type 0} → Action (Book B) A → Type 0
  Keeps m = Preserves (IsRejected id) m

-- ===== src/Strategy/Access.antt =====
-- `requireStrategyAccess`: an administrator reaches any strategy, a provider only their own.
use copytrade_dashboard.Base.{ℕ, Option, none, some, if◌then◌else◌}
use copytrade_dashboard.Types.{forbidden, not_found}
use copytrade_dashboard.Symbol.{is_id}
use copytrade_dashboard.Store.Monad.{app_error, Action, ◌>>=◌, pure, throw}
use copytrade_dashboard.Strategy.State.{
  ProviderProfile, ManagedStrategy, Catalog, Actor, find_strategy,
}
use copytrade_dashboard.Strategy.Providers.{require_approved_provider}

unfoldable pub own_or_throw : ManagedStrategy → ProviderProfile → Action Catalog ManagedStrategy
own_or_throw x provider =
    if is_id x.provider_id provider.id then pure x else throw (app_error forbidden)

unfoldable pub access_own : ℕ → ManagedStrategy → Action Catalog ManagedStrategy
unfolding own_or_throw require_approved_provider
access_own user_id x = require_approved_provider user_id >>= own_or_throw x

unfoldable pub access_found : Actor → Option ManagedStrategy → Action Catalog ManagedStrategy
unfolding access_own
access_found actor none = throw (app_error not_found)
access_found actor (some x) = if actor.is_admin then pure x else access_own actor.user_id x

unfoldable pub require_strategy_access : ℕ → Actor → Action Catalog ManagedStrategy
unfolding access_found
require_strategy_access id actor w = access_found actor (find_strategy id w) w

-- ===== src/Mock/Deploying.antt =====
-- What an account page calls: the deployment of an account. The simulation has nothing to stop.
use copytrade_dashboard.Base.{ℕ, Bool, true}
use copytrade_dashboard.Types.{Platform}
use copytrade_dashboard.Store.Monad.{Result, ok}
use copytrade_dashboard.Account.State.{Deployment, DeploymentState, deployed}
use copytrade_dashboard.Mock.State.{MockAccount, MockBroker}
use copytrade_dashboard.Mock.Calls.{require, find_mock, answer}

abbrev pub supports : Platform → Bool
supports Platform.mt4 = true
supports Platform.mt5 = true

-- Positions are kept, and an unknown account is no error.
abbrev pub disconnect_account : ℕ → MockBroker → Result (Unit {0}) × MockBroker
disconnect_account id b = (ok tt, b)

-- The account must still exist.
unfoldable pub deploy_account : ℕ → MockBroker → Result (Unit {0}) × MockBroker
unfolding require
deploy_account id b = (answer (λ (a : MockAccount). tt) (require (find_mock id b)), b)

unfoldable pub undeploy_account : ℕ → MockBroker → Result (Unit {0}) × MockBroker
unfolding require
undeploy_account id b = (answer (λ (a : MockAccount). tt) (require (find_mock id b)), b)

unfoldable pub get_deployment_state : ℕ → MockBroker → Result DeploymentState
unfolding require
get_deployment_state id b = answer (λ (a : MockAccount). deployed) (require (find_mock id b))

unfoldable pub mock_deployment : Deployment MockBroker
unfolding deploy_account undeploy_account get_deployment_state
mock_deployment = record {
  supports = supports;
  disconnect_account = disconnect_account;
  undeploy_account = undeploy_account;
  deploy_account = deploy_account;
  get_deployment_state = get_deployment_state;
}

-- ===== src/Lib.antt =====
-- A model of a copy-trading platform: a master's trades arrive as events and are copied to the
-- accounts of the members that subscribed to the strategy, each under its own sizing and risk
-- settings. What is proved about the copies is listed at the end.
--
-- The parts and their files. Paths are from the repository's root.
--   Lot (Lot.antt): src/services/risk/lot-calculator.ts. `calculateLot` is calculate_lot, cut into
--     the switch on the mode (volume_of_mode) and the steps behind it (bound_volume, fit_to_broker).
--   Risk (Risk.antt): src/services/risk/risk-engine.ts. `evaluateRisk` is evaluate_risk.
--   Symbol (Symbol.antt): src/services/symbol-mapping.service.ts, `resolveMemberSymbol`, with the
--     database query as a filter of the table.
--   Engine (Engine.antt): src/services/copy-engine.service.ts and `ensureProviderSession` of
--     src/services/account.service.ts. Engine/Process.antt has processTradeEvent and copyToMember,
--     Engine/Open.antt openForMember, Engine/Adjust.antt adjustForMember, Engine/Records.antt what
--     the engine writes (recordFill, skip, loadRiskState, pauseForBreach), Engine/Session.antt the
--     provider session.
--   Ingest (Ingest.antt): src/services/master-event.service.ts, claimNonce of src/lib/rate-limit.ts
--     and enqueueCopyJob of src/workers/queues.ts. Ingest/Access.antt has authenticateMasterRequest,
--     Ingest/Record.antt storeEvent, Ingest/Receive.antt ingestMasterEvent. The HMAC and the parsing
--     of the body are parameters.
--   Control (Control.antt): src/services/copy.service.ts, and the limit on strategies of
--     src/services/subscription.service.ts. Control/Commands.antt has subscribe, startCopying,
--     pauseCopying, stopCopying, unsubscribe and updateCopySettings.
--   Reconcile (Reconcile.antt): src/services/reconcile.service.ts. Reconcile/Account.antt has
--     reconcileAccount, Reconcile/Sweep.antt reconcileAllAccounts, and
--     Reconcile/Stats.antt recomputeStrategyStats and recomputeAllStats.
--   Mock (Mock.antt): src/providers/trading/MockTradingProvider.ts, the simulated broker. Mock/State.antt
--     has the accounts of a process, Mock/Prices.antt the quotes, Mock/Orders.antt the orders,
--     Mock/Calls.antt connecting and the queries, Mock/Deploying.antt the deployment and
--     Mock/Past.antt getTradeHistory. The sine of the clock is a parameter.
--   Watch (Watch.antt): src/services/master-watch.service.ts. Watch/Changes.antt has publish and the
--     changes of one position, Watch/Poll.antt the baseline, pollMasterAccount and
--     pollAllMasterAccounts. The hash behind an event id is a parameter.
--   Account (Account.antt): src/services/account.service.ts, assertWithinPlanLimits of
--     src/services/subscription.service.ts and the account repository. Account/Connection.antt has
--     connectAccount, disconnectAccount and syncAccount, Account/Enabling.antt createAccount,
--     setAccountEnabled and refreshProviderStates. The encryption of a password is a parameter.
--   Strategy (Strategy.antt): src/services/strategy.service.ts and src/services/provider.service.ts, with
--     slugify of src/lib/validation/provider.ts. Strategy/Providers.antt has the application of a
--     provider and its review, Strategy/Access.antt requireStrategyAccess, Strategy/Commands.antt the
--     strategies and their keys, Strategy/Status.antt setStrategyStatus. The random texts of a key and
--     the folding of Unicode letters are arguments.
--   MetaApi (MetaApi.antt): src/providers/trading/MetaApiProvider.ts, the provider for live accounts.
--     Its SDK (src/providers/trading/metaapi-sdk.ts) is a parameter, Sdk, a record of calls over a
--     state of its own. MetaApi/Session.antt has the cache of connections and the deployment,
--     MetaApi/Account.antt connectAccount, MetaApi/Queries.antt the queries, MetaApi/Deals.antt
--     groupDealsIntoTrades and MetaApi/Trading.antt the orders.
--   Store (Store.antt): the tables (prisma/schema.prisma) and the broker as one state, World, and
--     the asynchronous calls as state passing with a thrown error (Store/Monad.antt). What a call
--     has written before it throws stays written, as without a transaction.
--   Types, Text, Number, Base: shared types, texts as lists of character codes, numbers, and tests
--     on native numbers.
--
-- How the parts interact: processTradeEvent selects the eligible subscriptions and calls
-- copyToMember for each inside a session. That creates the row of the copy, the lock against a
-- second copy, resolves the symbol, and opens or adjusts. Opening asks the lot calculator and the
-- risk engine before the one order. The queue may hand out a job any number of times: a sequence of
-- deliveries is a list of event ids (Engine/Delivery.antt). The watch publishes what it finds through
-- ingestMasterEvent, and the simulated broker is an instance of TradeProvider, the interface that the
-- engine, the sweep and the watch call, and of Deployment, which the account service calls. The keys
-- that the strategy service issues and revokes are the ones that authenticateMasterRequest reads, and
-- taking a strategy out of ACTIVE pauses the subscriptions that processTradeEvent selects from. The
-- MetaApi provider stands beside TradeProvider: its queries may open a connection, so they change the
-- state that they read, which the interface of the engine leaves out.
--
-- Choices of the model.
--   Numbers are exact signed fractions, so a rounding error of floating point, a NaN and an infinity
--   are not in the model; `toFixed` rounds halves away from zero. The tolerance 1e-9 is written out.
--   Ids, tickets and times are native numbers; an id is unique in its table, and a look-up takes the
--   first row. The comment of a position is the number of a copy.
--   The database does not fail, and a job runs alone on the state; the unique constraint on event
--   and account is the test in create_copy_trade. Loops run over finite lists and are structural
--   recursion, so there is no fuel.
--   Redis may be down: then a nonce is always fresh and a job cannot be queued. Nonces may expire at
--   any step.
--   The provider is a parameter (TradeProvider): queries read a broker state of any type, orders
--   change it and may throw. The calls for the deployment of an account (Deployment) are one, too.
--   An update by primary key writes one row. The ids of the simulated broker are texts: the number
--   that stands for one is a parameter.
--
-- Not modelled: the note of a key's last use, rate limits, the live event of the sweep, audit entries,
-- the columns of the tables that only a view reads, logs, latencies and the texts of messages; the
-- web application and its pages; of the MetaApi provider, loading the SDK, two calls that wait for one
-- connection, and its prices and server names; the lists of accounts for pages; sign-in, mail and
-- payment; the workers' plumbing.
pub mod Account
pub mod Base
pub mod Control
pub mod Engine
pub mod Ingest
pub mod Lot
pub mod MetaApi
pub mod Mock
pub mod Number
pub mod Reconcile
pub mod Risk
pub mod Store
pub mod Strategy
pub mod Symbol
pub mod Text
pub mod Types
pub mod Watch

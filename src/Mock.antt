-- ===== src/Mock.antt =====
-- The simulated broker of development and demo mode:
-- src/providers/trading/MockTradingProvider.ts.
pub mod State
pub mod Prices
pub mod Orders
pub mod Calls
pub mod Deploying
pub mod Past
pub mod Trace
pub mod History
pub mod Fills
pub mod Accounted
pub mod Lookup
pub mod Partial
pub mod Fresh
pub mod Remainder
mod Tests
pub mod Maps

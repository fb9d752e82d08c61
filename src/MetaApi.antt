-- ===== src/MetaApi.antt =====
-- The provider for live accounts: src/providers/trading/MetaApiProvider.ts over the SDK of MetaApi.
pub mod Sdk
pub mod Codes
pub mod Steps
pub mod Session
pub mod Account
pub mod Deals
pub mod Queries
pub mod Trading
pub mod Grouped
pub mod Reuse
pub mod Trades
pub mod Orders
mod Tests

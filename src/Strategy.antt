-- ===== src/Strategy.antt =====
-- Publishing strategies: src/services/strategy.service.ts and src/services/provider.service.ts.
pub mod State
pub mod Slug
pub mod Providers
pub mod Access
pub mod Commands
pub mod Status
pub mod Keys
pub mod Settling
pub mod Pausing
mod Tests

-- ===== src/Engine.antt =====
-- The copy engine: src/services/copy-engine.service.ts, and the provider session it needs from
-- src/services/account.service.ts.
pub mod Session
pub mod Records
pub mod Open
pub mod Adjust
pub mod Process
pub mod Frame
pub mod Once
pub mod Delivery
pub mod Gates
pub mod Fill
pub mod Breach
pub mod Branches
pub mod Closing
pub mod Scenario
mod Tests

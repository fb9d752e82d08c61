-- ===== src/Reconcile.antt =====
-- The sweep that brings the tables back in line with the brokers: `reconcileAccount` and
-- `reconcileAllAccounts` of src/services/reconcile.service.ts.
pub mod Account
pub mod Vanished
pub mod Sweep
pub mod Stats
pub mod Drawdown
pub mod Figures
mod Tests

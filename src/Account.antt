-- ===== src/Account.antt =====
-- The trading accounts of a member: src/services/account.service.ts.
pub mod State
pub mod Connection
pub mod Enabling
pub mod Rows
pub mod Attempt
pub mod Sound
pub mod Commands
pub mod Frame
pub mod Keeping
pub mod Rejected
pub mod Refused
mod Tests

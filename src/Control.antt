-- ===== src/Control.antt =====
-- The member's control of copying: src/services/copy.service.ts, with the rows that
-- src/repositories/*.repository.ts look up and the plan of src/services/subscription.service.ts.
pub mod State
pub mod Commands
pub mod Synced
pub mod Sync
mod Tests

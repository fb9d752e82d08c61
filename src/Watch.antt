-- ===== src/Watch.antt =====
-- Publishing from a watched trading account: src/services/master-watch.service.ts.
pub mod State
pub mod Changes
pub mod Poll
pub mod Quiet
pub mod Baseline
pub mod Silent
mod Tests

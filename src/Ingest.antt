-- ===== src/Ingest.antt =====
-- The way of a master's event into the platform: src/services/master-event.service.ts, with the
-- nonce of src/lib/rate-limit.ts and the queue of src/workers/queues.ts.
pub mod State
pub mod Record
pub mod Receive
pub mod Frame
pub mod Access
pub mod Accept
pub mod Outcomes
pub mod Durable
pub mod Granting
pub mod Trades
mod Tests

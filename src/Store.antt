-- ===== src/Store.antt =====
-- The database, the broker and the effects that the copy engine works on.
pub mod Rows
pub mod Monad
pub mod Tables
pub mod Lookup
pub mod Preserve

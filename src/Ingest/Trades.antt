-- ===== src/Ingest/Trades.antt =====
-- The share of a position that a partial close takes, and what is left of it.
use copytrade_dashboard.Number.Defs.{Number}

-- ===== src/Usage.antt =====
-- internal/pfcp/usagereport: usage reports and the ledger that reconciles them.
pub mod Report
pub mod Ledger

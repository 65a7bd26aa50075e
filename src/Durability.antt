-- ===== src/Durability.antt =====
-- src/orchestration/durability-crash-cuts.ts: the ledger of started, acknowledged, failed and
-- observed sequences, and the iterations that cut the broker off.
pub mod Ledger
pub mod CrashCuts
mod Examples

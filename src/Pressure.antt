-- ===== src/Pressure.antt =====
-- src/pressure.ts: what a pressure run measures and how its outcome is judged.
pub mod Reconcile
pub mod Latency
pub mod Stages
mod Examples

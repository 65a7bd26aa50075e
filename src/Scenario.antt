-- ===== src/Scenario.antt =====
-- src/scenario.ts: the run of one scenario.
pub mod Failure
pub mod Calls
pub mod Workload
pub mod Lifecycle
pub mod Verdicts
pub mod Dispatch
pub mod Chaos
mod Examples

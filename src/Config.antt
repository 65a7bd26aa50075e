-- ===== src/Config.antt =====
-- src/config.ts: `parseArgs`, with `parseDomainSelection` of src/workloads/model.ts. `Number`,
-- `trim`, `split` and `resolve` are the platform's, parameters here.
pub mod Scenarios
pub mod Domains
pub mod Options
pub mod Parsing
pub mod Examples

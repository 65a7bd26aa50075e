-- ===== src/Guidance.antt =====
-- src/operational-guidance.ts and src/operational-guidance-completion.ts: the metrics and the rating
-- that a report gives of a scenario, read from its events and its pressure evidence.
pub mod Readings
pub mod Texts
pub mod Metrics
pub mod Restarts
pub mod Faults
pub mod Traffic
pub mod Lifecycles
pub mod CompletionConfig
pub mod RecoveryConfigs
pub mod ConformanceConfigs
pub mod Configs
pub mod Completion
pub mod Evidence
pub mod Rating
pub mod Durations
pub mod EventsFile
pub mod PressureGuidance
pub mod Extraction
pub mod Cancellations
pub mod Histograms
pub mod Signalling
pub mod Soundness
pub mod Backed
pub mod Rates
pub mod Covering
mod Examples
pub mod Reading

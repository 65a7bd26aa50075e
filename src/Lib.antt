-- ===== src/Lib.antt =====
-- A model of the Fitz Destroyer, a program that puts a Fitz broker under faults and pressure and
-- then decides, from the logs of its workers, whether the broker kept its promises. The decisions
-- are what is modelled: a wrong one would pass a broker that loses data, or fail one that does not.
--
-- The program reads its arguments into a configuration (src/config.ts), runs scenarios one after
-- the other with a port each (src/suite.ts), and in each scenario starts containers, sends faults
-- and collects logs. Some workers speak the broker's wire protocol themselves
-- (src/workloads/raw-protocol.ts). What the workers wrote is read back record by record
-- (src/orchestration/workload-log.ts) and judged: here by the ledger of the crash cuts
-- (src/orchestration/durability-crash-cuts.ts), by the counts of scheduled deliveries
-- (src/orchestration/schedule-delivery.ts), and by the latencies and queue outcomes of the pressure
-- scenarios (src/pressure.ts). The results of a matrix of scenarios become one report with
-- one verdict (src/report.ts).
--
-- Which file models which part:
-- - Common: lists over native numbers, results of calls that may throw (`throw` is `err`), sets as
--   lists, sorting and removing repetitions, and lemmas on sequences of checks.
-- - Protocol: src/workloads/raw-protocol.ts. Tlv has `encodeTlv` and `decodeTlvs`, Fields the fixed
--   fields, TCP frames and `decodeStandardResponse`, Tcp the variables that the closures of
--   `openRawTcp` share, as a record, with one function for each listener and for `receive`; `step`
--   and `run` put them into histories of events. A byte is a number, its bound a hypothesis.
-- - Pressure: src/pressure.ts. Latency has `recordStageLatency`, `mergeLatencyHistograms`,
--   `percentile` and `latencySummary`, whose times are the platform's, with its sum, quotient and
--   rounding and two laws of `round`, and Latency/Samples the bag of samples that a histogram stands
--   for, but for the total, which depends on the order; Stages has `createStageMetrics`,
--   `normalizeErrorClass` and `recordStageError`; Reconcile has `reconcileQueueOutcomes`,
--   `assertUnique` and `assertDisjoint`.
-- - Logs: src/orchestration/workload-log.ts. A log is the list of the JSON objects in it.
-- - Durability: src/orchestration/durability-crash-cuts.ts. Ledger has the analysis of the logs and
--   the assertion on its result; CrashCuts has the plan, the iteration as a sequence of calls to the
--   stack of which any may throw, whether or not it did its work, and `cutOutcomes`.
-- - Config: src/config.ts, and `parseDomainSelection` of src/workloads/model.ts.
-- - Suite: src/suite.ts, with the types of src/scenario.ts.
-- - Report: `buildDestroyerReport` of src/report.ts, with its types; the operational guidance that
--   an entry carries is of any type.
-- - Scenario: src/scenario.ts. Calls has the variables of `runScenario`, the calls to the stack and to
--   the artifacts, and the world that decides whether a call works, what it throws and what time it
--   is; Workload has `executeWorkload` and `runChaos`, Lifecycle `runScenario`, Failure
--   `classifyFailure`. Verdicts, Dispatch and Chaos have the proofs.
-- - Guidance: src/operational-guidance.ts and src/operational-guidance-completion.ts. Readings and
--   Texts have the small readers, Metrics what adds to the metrics, Restarts, Faults, Traffic,
--   Lifecycles and Completion the metrics of each scenario, the Configs the table `CONFIGS`, Evidence,
--   Rating and PressureGuidance the pressure evidence, Durations the fallback, EventsFile `readEvents`,
--   Extraction what joins them. The rest are proofs. Times are read to the hundredth of a millisecond.
-- - ScheduleDelivery: `summarizeScheduleDeliveryLogs` of src/orchestration/schedule-delivery.ts.
--   Scanned says what the scan keeps of one log, Subscribers of all, Delivered what is accepted.
--
-- Fuel: `decodeTlvs` runs on the length of its input, of which each round takes three bytes at
-- least, and the TCP listener's loop on the length of the buffer, of which each round takes four at
-- least. All other loops are by recursion on lists.
--
-- The platform's `Number`, `trim`, `split` and `resolve` are parameters of the configuration, its
-- `String` is one of the schedule's logs, and the executor of scenarios and the success of calls to
-- the stack are parameters too.
--
-- In Scenario each call's success, error and time are functions of all the calls before. In Guidance
-- the order of `localeCompare` and the reading of a number that is no natural number are parameters,
-- and in Pressure/Stages the matching of regular expressions is one.
--
-- Not modelled: Docker, files and clocks; the broker's client library and the workers that drive it;
-- the rendering of the report; the other scenarios' comparisons of counts.
pub mod Common
pub mod Config
pub mod Durability
pub mod Guidance
pub mod Logs
pub mod Pressure
pub mod Protocol
pub mod Report
pub mod Scenario
pub mod ScheduleDelivery
pub mod Suite

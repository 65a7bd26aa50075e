-- ===== src/Suite.antt =====
-- src/suite.ts: the configurations of a suite's scenarios, its run and its totals. The directory,
-- the identifier and the clock are the platform's; what they give is an argument or left out.
pub mod Allocation
pub mod Running
mod Examples
use Prim.Native.String.{String}
use fitz_destroyer.Common.{
  ℕ, suc, ◌+◌, ◌-◌, Bool, true, false, Option, List, [], ◌∷◌, ltb, if◌then◌else◌, length, Result,
  ok, err, ◌>>=◌,
}
use fitz_destroyer.Config.Parsing.{RunConfig}

pub data Verdict : Type 0 where
  passed failed : Verdict

pub data FailureClassification : Type 0 where
  in_setup in_workload in_assertion in_timeout in_cleanup : FailureClassification

pub data CleanupState : Type 0 where
  removed preserved not_removed : CleanupState

-- src/scenario.ts: `ScenarioResult`, less its paths and times of day.
pub record ScenarioResult : Type 0 where
  pub scenario : String
  pub verdict : Verdict
  pub duration_ms : ℕ
  pub workload_duration_ms : Option ℕ
  pub failure_classification : Option FailureClassification
  pub cleanup_state : CleanupState
  pub run_id : String
  pub project : String
  pub error : Option String
  pub cleanup_error : Option String

-- `execute` may reject, with a message.
pub data SuiteError : Type 0 where
  port_exceeds : (scenario : String) → (scenarios : ℕ) → SuiteError
  rejected : String → SuiteError

pub record Allotment : Type 0 where
  pub scenario : String
  pub config : RunConfig

-- The body of `scenarios.map`, from an index on; `total` is `scenarios.length`.
pub allocate_from : RunConfig → (total index : ℕ) → List String → Result SuiteError (List Allotment)
allocate_from config total index [] = ok []
allocate_from config total index (s ∷ rest) =
    let later = allocate_from config total (suc index) rest in
    if ltb 65_535 (config.port + index)
    then err (port_exceeds s total)
    else (later >>= λ entries. ok (
        record {
          scenario = s;
          config = record config { scenario = s; port = config.port + index; keep = false };
        }
        ∷ entries))

unfoldable pub allocate_scenario_configs :
    RunConfig → List String → Result SuiteError (List Allotment)
unfolding allocate_from
allocate_scenario_configs config scenarios = allocate_from config (length scenarios) 0 scenarios

pub record Totals : Type 0 where
  pub passed_count : ℕ
  pub failed_count : ℕ
  pub scenarios : ℕ

pub record SuiteSummary : Type 0 where
  pub totals : Totals
  pub results : List ScenarioResult

abbrev pub is_passed : Verdict → Bool
is_passed passed = true
is_passed failed = false

abbrev pub count_passed : List ScenarioResult → ℕ
count_passed [] = 0
count_passed (r ∷ rest) = if is_passed r.verdict then suc (count_passed rest) else count_passed rest

pub aggregate_suite_results : List ScenarioResult → SuiteSummary
aggregate_suite_results results = record {
  totals = record {
    passed_count = count_passed results;
    failed_count = length results - count_passed results;
    scenarios = length results;
  };
  results = results;
}

module _ (execute : RunConfig → String → Result String ScenarioResult) where
  pub from_execute : Result String ScenarioResult → Result SuiteError ScenarioResult
  from_execute (ok r) = ok r
  from_execute (err e) = err (rejected e)

  -- The loop over the configurations, one after the other.
  pub run_each : List Allotment → Result SuiteError (List ScenarioResult)
  unfolding from_execute
  run_each [] = ok []
  run_each (entry ∷ rest) = do
    r ← from_execute (execute entry.config entry.scenario)
    rs ← run_each rest
    ok (r ∷ rs)

  unfoldable pub run_suite : RunConfig → List String → Result SuiteError SuiteSummary
  unfolding allocate_scenario_configs run_each aggregate_suite_results
  run_suite config scenarios = do
    entries ← allocate_scenario_configs config scenarios
    results ← run_each entries
    ok (aggregate_suite_results results)

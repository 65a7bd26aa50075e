-- ===== src/Suite/Examples.antt =====
-- Runs of the suite, and its theorems at concrete inputs.
use Prim.Native.String.{String}
use text.Mathlib.Text.{◌==◌ as str_eq}
use fitz_destroyer.Common.{
  ◌+◌, ◌≤◌, ◌≡◌, ◌⊎◌, ◌↔◌, refl, false, none, List, [], ◌∷◌, if◌then◌else◌, length, Result, ok, err,
  All, IsUnique, map,
}
use fitz_destroyer.Config.Examples.{sample_config}
use fitz_destroyer.Config.Parsing.{RunConfig}
use fitz_destroyer.Suite.{
  Verdict, passed, failed, removed, ScenarioResult, SuiteSummary, Allotment, port_exceeds, rejected,
  allocate_scenario_configs, count_passed, run_suite,
}
use fitz_destroyer.Suite.Allocation.{
  scenario_of, port_of, IsAllotted, allocate_scenario_configs-eq-ok_iff,
  allocate_scenario_configs-IsAllotted,
}
use fitz_destroyer.Suite.Running.{Ran, count_failed, run_suite-Ran}

abbrev two_scenarios : List String
two_scenarios = "chaos" ∷ "soak" ∷ []

abbrev allotted : List Allotment
allotted =
    record {
      scenario = "chaos";
      config = record sample_config { scenario = "chaos"; port = 5_000; keep = false };
    }
    ∷ record {
      scenario = "soak";
      config = record sample_config { scenario = "soak"; port = 5_001; keep = false };
    }
    ∷ []

two_allotted : allocate_scenario_configs sample_config two_scenarios ≡ ok allotted
unfolding allocate_scenario_configs
two_allotted = refl

-- The last port is for one scenario only.
none_left :
    allocate_scenario_configs (record sample_config { port = 65_535 }) two_scenarios
    ≡ err (port_exceeds "soak" 2)
unfolding allocate_scenario_configs
none_left = refl

abbrev result_of : String → Verdict → ScenarioResult
result_of s v = record {
  scenario = s;
  verdict = v;
  duration_ms = 10;
  workload_duration_ms = none;
  failure_classification = none;
  cleanup_state = removed;
  run_id = s;
  project = s;
  error = none;
  cleanup_error = none;
}

-- Only the first scenario passes.
abbrev execute : RunConfig → String → Result String ScenarioResult
execute config s = ok (result_of s (if str_eq s "chaos" then passed else failed))

abbrev summary : SuiteSummary
summary = record {
  totals = record { passed_count = 1; failed_count = 1; scenarios = 2 };
  results = result_of "chaos" passed ∷ result_of "soak" failed ∷ [];
}

suite_run : run_suite execute sample_config two_scenarios ≡ ok summary
unfolding run_suite
suite_run = refl

suite_rejected : run_suite (λ _ _. err "no") sample_config two_scenarios ≡ err (rejected "no")
unfolding run_suite
suite_rejected = refl

allocate_scenario_configs-eq-ok_iff_example :
    ((entries : List Allotment) × (allocate_scenario_configs sample_config two_scenarios
        ≡ ok entries))
    ↔ (two_scenarios ≡ [] ⊎ sample_config.port + length two_scenarios ≤ 65_536)
allocate_scenario_configs-eq-ok_iff_example =
    allocate_scenario_configs-eq-ok_iff sample_config two_scenarios

allocate_scenario_configs-IsAllotted_example :
    (map scenario_of allotted ≡ two_scenarios)
    × All (IsAllotted sample_config) allotted
    × IsUnique (map port_of allotted)
allocate_scenario_configs-IsAllotted_example =
    allocate_scenario_configs-IsAllotted sample_config two_scenarios allotted two_allotted

run_suite-Ran_example :
    (entries : List Allotment) × (allocate_scenario_configs sample_config two_scenarios
      ≡ ok entries)
    × Ran execute entries summary.results
    × (summary.totals.scenarios ≡ length two_scenarios)
    × (summary.totals.passed_count ≡ count_passed summary.results)
    × (summary.totals.failed_count ≡ count_failed summary.results)
run_suite-Ran_example = run_suite-Ran execute sample_config two_scenarios summary suite_run

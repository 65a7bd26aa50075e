-- ===== src/Report/Examples.antt =====
-- A report with a scenario of each kind, and the theorems at it.
use Prim.Native.String.{String}
use text.Mathlib.Text.{◌==◌ as str_eq}
use fitz_destroyer.Common.{
  ℕ, ◌+◌, ◌≡◌, ◌↔◌, refl, true, ◌&&◌, Option, none, some, List, [], ◌∷◌, map, length, All,
}
use fitz_destroyer.Suite.{Verdict, passed, failed, in_timeout, removed}
use fitz_destroyer.Report.{
  is_reported, is_missing, AnalyzedScenarioResult, DestroyerReport, matches, build_destroyer_report,
}
use fitz_destroyer.Report.Judgement.{
  outcomes, HasPassed, build_destroyer_report-passed_iff, build_destroyer_report-counts,
}
use fitz_destroyer.Report.Slowest.{total_ms, IsAtMost, IsAmong, build_destroyer_report-timing}

-- The guidance is the duration that it tells.
abbrev guidance : Option ℕ → String → Option ℕ
guidance duration reason = duration

abbrev guided : Option ℕ → Option ℕ
guided duration = duration

abbrev result_of : String → Verdict → ℕ → AnalyzedScenarioResult (Option ℕ)
result_of s v d = record {
  result = record {
    scenario = s;
    verdict = v;
    duration_ms = d;
    workload_duration_ms = none;
    failure_classification = some in_timeout;
    cleanup_state = removed;
    run_id = s;
    project = s;
    error = none;
    cleanup_error = none;
  };
  report_analysis = none;
}

abbrev expected : List String
expected = "chaos" ∷ "soak" ∷ "cache-loss" ∷ "stream-replay" ∷ []

abbrev results : List (AnalyzedScenarioResult (Option ℕ))
results =
    result_of "soak" passed 20
    ∷ result_of "chaos" failed 10
    ∷ result_of "stream-replay" passed 5
    ∷ result_of "stream-replay" passed 6
    ∷ []

abbrev report : DestroyerReport (Option ℕ)
report = build_destroyer_report guidance guided expected results "success" "success"

report_figures :
    (report.verdict ≡ failed)
    × (report.totals.passed_count ≡ 1)
    × (report.totals.failed_count ≡ 2)
    × (report.totals.missing_count ≡ 1)
    × (report.timing.slowest ≡ some ("soak", 20))
    × (report.failure_classes.timeout ≡ 1)
    × (report.cleanup.unknown_count ≡ 2)
unfolding build_destroyer_report
report_figures = (refl, refl, refl, refl, refl, refl, refl)

-- A matrix in which each scenario passed.
clean_report :
    (build_destroyer_report guidance guided ("soak" ∷ []) results "success" "success").verdict
    ≡ passed
unfolding build_destroyer_report
clean_report = refl

build_destroyer_report-passed_iff_example : (report.verdict ≡ passed) ↔ (
    ((str_eq "success" "success" && str_eq "success" "success") ≡ true)
    × All (λ s. HasPassed guidance guided (matches guidance guided s results)) expected)
build_destroyer_report-passed_iff_example =
    build_destroyer_report-passed_iff guidance guided expected results "success" "success"

build_destroyer_report-counts_example :
    (map (λ e. e.scenario) report.results ≡ expected)
    × (report.totals.passed_count + (report.totals.failed_count + report.totals.missing_count)
        ≡ length expected)
    × (report.totals.expected ≡ length expected)
    × (report.totals.reported_count ≡ length results)
    × (report.totals.passed_count ≡ outcomes guidance guided (is_reported passed) results expected)
    × (report.totals.failed_count ≡ outcomes guidance guided (is_reported failed) results expected)
    × (report.totals.missing_count ≡ outcomes guidance guided is_missing results expected)
build_destroyer_report-counts_example =
    build_destroyer_report-counts guidance guided expected results "success" "success"

build_destroyer_report-timing_example :
    (report.timing.recorded_total_ms ≡ total_ms report.results)
    × All (λ e. IsAtMost e.duration_ms report.timing.slowest) report.results
    × IsAmong report.results report.timing.slowest
build_destroyer_report-timing_example =
    build_destroyer_report-timing guidance guided expected results "success" "success" report refl

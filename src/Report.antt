-- ===== src/Report.antt =====
-- src/report.ts: `buildDestroyerReport`. The guidance that an analysis holds is of the type `G`,
-- with what the report uses of it: how it is made for a scenario that has none, and the duration
-- that it tells.
pub mod Judgement
pub mod Slowest
mod Examples
use Prim.Native.String.{String}
use text.Mathlib.Text.{◌==◌ as str_eq}
use fitz_destroyer.Common.{
  ℕ, suc, ◌+◌, Bool, true, false, ◌&&◌, Option, none, some, List, [], ◌∷◌, map, length, ltb, ◌==◌,
  if◌then◌else◌,
}
use fitz_destroyer.Logs.{Fields}
use fitz_destroyer.Suite.{
  Verdict, passed, failed, FailureClassification, in_setup, in_workload, in_assertion, in_timeout,
  in_cleanup, CleanupState, removed, preserved, not_removed, ScenarioResult,
}

pub record ReportObservation : Type 0 where
  pub code : String
  pub message : String
  pub occurrences : ℕ
  pub files : List String

pub record ReportWarning : Type 0 where
  pub code : String
  pub message : String
  pub details : Option Fields

pub record ScenarioReportAnalysis (G : Type 0) : Type 0 where
  pub observations : List ReportObservation
  pub warnings : List ReportWarning
  pub broker_summary : Option (List (String × Option ℕ))
  pub operational_guidance : G

pub record AnalyzedScenarioResult (G : Type 0) : Type 0 where
  pub result : ScenarioResult
  pub report_analysis : Option (ScenarioReportAnalysis G)

pub data EntryVerdict : Type 0 where
  reported : Verdict → EntryVerdict
  missing : EntryVerdict

pub data FailureClass : Type 0 where
  classified : FailureClassification → FailureClass
  unclassified : FailureClass

pub data EntryError : Type 0 where
  no_summary : EntryError
  summaries : ℕ → EntryError
  scenario_error : String → EntryError

pub record DestroyerReportEntry (G : Type 0) : Type 0 where
  pub scenario : String
  pub verdict : EntryVerdict
  pub duration_ms : Option ℕ
  pub workload_duration_ms : Option ℕ
  pub failure_classification : Option FailureClass
  pub cleanup_state : Option CleanupState
  pub run_id : Option String
  pub project : Option String
  pub analysis : ScenarioReportAnalysis G
  pub error : Option EntryError
  pub cleanup_error : Option String

-- `a ?? b`
abbrev pub first_of {ℓ} : {A : Type ℓ} → Option A → Option A → Option A
first_of (some a) b = some a
first_of none b = b

abbrev pub map_option {ℓ κ} : {A : Type ℓ} {B : Type κ} → (A → B) → Option A → Option B
map_option f (some a) = some (f a)
map_option f none = none

pub record FailureClasses : Type 0 where
  pub setup : ℕ
  pub workload : ℕ
  pub assertion : ℕ
  pub timeout : ℕ
  pub cleanup : ℕ
  pub absent : ℕ

abbrev pub add_class : FailureClass → FailureClasses → FailureClasses
add_class (classified in_setup) t = record t { setup = t.setup + 1 }
add_class (classified in_workload) t = record t { workload = t.workload + 1 }
add_class (classified in_assertion) t = record t { assertion = t.assertion + 1 }
add_class (classified in_timeout) t = record t { timeout = t.timeout + 1 }
add_class (classified in_cleanup) t = record t { cleanup = t.cleanup + 1 }
add_class unclassified t = record t { absent = t.absent + 1 }

pub record Cleanups : Type 0 where
  pub removed_count : ℕ
  pub preserved_count : ℕ
  pub failed_count : ℕ
  pub unknown_count : ℕ

abbrev pub add_cleanup : Option CleanupState → Cleanups → Cleanups
add_cleanup (some removed) t = record t { removed_count = t.removed_count + 1 }
add_cleanup (some preserved) t = record t { preserved_count = t.preserved_count + 1 }
add_cleanup (some not_removed) t = record t { failed_count = t.failed_count + 1 }
add_cleanup none t = record t { unknown_count = t.unknown_count + 1 }

pub record Timing : Type 0 where
  pub recorded_total_ms : ℕ
  pub slowest : Option (String × ℕ)

-- The slowest scenario and its duration, both `null` before the first duration.
abbrev pub slower : String → ℕ → Option (String × ℕ) → Option (String × ℕ)
slower scenario d none = some (scenario, d)
slower scenario d (some (s, longest)) =
    if ltb longest d then some (scenario, d) else some (s, longest)

abbrev pub add_duration : String → Option ℕ → Timing → Timing
add_duration scenario none t = t
add_duration scenario (some d) t = record {
  recorded_total_ms = t.recorded_total_ms + d;
  slowest = slower scenario d t.slowest;
}

pub record ReportTotals : Type 0 where
  pub expected : ℕ
  pub reported_count : ℕ
  pub passed_count : ℕ
  pub failed_count : ℕ
  pub missing_count : ℕ

pub record DestroyerReport (G : Type 0) : Type 0 where
  pub verdict : Verdict
  pub totals : ReportTotals
  pub failure_classes : FailureClasses
  pub cleanup : Cleanups
  pub timing : Timing
  pub results : List (DestroyerReportEntry G)

abbrev pub is_reported : Verdict → EntryVerdict → Bool
is_reported passed (reported passed) = true
is_reported failed (reported failed) = true
is_reported v w = false

abbrev pub is_missing : EntryVerdict → Bool
is_missing missing = true
is_missing (reported v) = false

-- `results.filter(…).length`
abbrev pub count {ℓ} : {A : Type ℓ} → (A → Bool) → List A → ℕ
count test [] = 0
count test (x ∷ xs) = if test x then suc (count test xs) else count test xs

module _ {G : Type 0} (empty_guidance : Option ℕ → String → G) (guided_ms : G → Option ℕ) where
  abbrev pub empty_analysis : Option ℕ → String → ScenarioReportAnalysis G
  empty_analysis workload_ms reason = record {
    observations = [];
    warnings = [];
    broker_summary = none;
    operational_guidance = empty_guidance workload_ms reason;
  }

  -- An entry without a summary to go by.
  abbrev blank : String → EntryVerdict → FailureClass → String → EntryError → DestroyerReportEntry G
  blank scenario verdict class reason error = record {
    scenario = scenario;
    verdict = verdict;
    duration_ms = none;
    workload_duration_ms = none;
    failure_classification = some class;
    cleanup_state = none;
    run_id = none;
    project = none;
    analysis = empty_analysis none reason;
    error = some error;
    cleanup_error = none;
  }

  abbrev analysis_of : Option (ScenarioReportAnalysis G) → Option ℕ → ScenarioReportAnalysis G
  analysis_of (some a) workload_ms = a
  analysis_of none workload_ms =
      empty_analysis workload_ms "Operational artifact analysis was unavailable."

  -- The entry of a scenario, by the summaries that are of that scenario.
  entry_of : String → List (AnalyzedScenarioResult G) → DestroyerReportEntry G
  entry_of scenario [] =
      blank scenario missing unclassified "Scenario artifact did not contain a structured summary."
        no_summary
  entry_of scenario (a ∷ []) =
      let r = a.result in
      record {
        scenario = scenario;
        verdict = reported r.verdict;
        duration_ms = some r.duration_ms;
        workload_duration_ms =
            first_of (guided (map_option (λ x. x.operational_guidance) a.report_analysis))
              r.workload_duration_ms;
        failure_classification = map_option classified r.failure_classification;
        cleanup_state = some r.cleanup_state;
        run_id = some r.run_id;
        project = some r.project;
        analysis = analysis_of a.report_analysis r.workload_duration_ms;
        error = map_option scenario_error r.error;
        cleanup_error = r.cleanup_error;
      }
    where
      guided : Option G → Option ℕ
      guided (some g) = guided_ms g
      guided none = none
  entry_of scenario (a ∷ (b ∷ rest)) =
      blank scenario (reported failed) (classified in_setup)
        "Duplicate scenario summaries prevented operational extraction."
        (summaries (length (a ∷ b ∷ rest)))

  abbrev pub matches : String → List (AnalyzedScenarioResult G) → List (AnalyzedScenarioResult G)
  matches scenario [] = []
  matches scenario (a ∷ rest) =
      if str_eq a.result.scenario scenario then a ∷ matches scenario rest else matches scenario rest

  unfoldable pub entries_of :
      List String → List (AnalyzedScenarioResult G) → List (DestroyerReportEntry G)
  unfolding entry_of
  entries_of [] results = []
  entries_of (scenario ∷ expected) results =
      entry_of scenario (matches scenario results) ∷ entries_of expected results

abbrev pub add_option : Option FailureClass → FailureClasses → FailureClasses
add_option (some c) t = add_class c t
add_option none t = t

-- The loop over the results, one function for each thing that it adds up.
module _ {G : Type 0} where
  abbrev pub add_failure : DestroyerReportEntry G → FailureClasses → FailureClasses
  add_failure e t =
      if is_reported passed e.verdict then t else add_option e.failure_classification t

  abbrev pub sum_failures : FailureClasses → List (DestroyerReportEntry G) → FailureClasses
  sum_failures t [] = t
  sum_failures t (e ∷ rest) = sum_failures (add_failure e t) rest

  abbrev pub sum_cleanups : Cleanups → List (DestroyerReportEntry G) → Cleanups
  sum_cleanups t [] = t
  sum_cleanups t (e ∷ rest) = sum_cleanups (add_cleanup e.cleanup_state t) rest

  abbrev pub sum_durations : Timing → List (DestroyerReportEntry G) → Timing
  sum_durations t [] = t
  sum_durations t (e ∷ rest) = sum_durations (add_duration e.scenario e.duration_ms t) rest

module _ {G : Type 0} (empty_guidance : Option ℕ → String → G) (guided_ms : G → Option ℕ) where
  summarize : List (DestroyerReportEntry G) → (expected given : ℕ) → Bool → DestroyerReport G
  summarize entries expected given clean =
      let good = count (λ e. is_reported passed e.verdict) entries in
      let bad = count (λ e. is_reported failed e.verdict) entries in
      let absent = count (λ e. is_missing e.verdict) entries in
      record {
        verdict = if clean && (bad == 0 && absent == 0) then passed else failed;
        totals = record {
          expected = expected;
          reported_count = given;
          passed_count = good;
          failed_count = bad;
          missing_count = absent;
        };
        failure_classes =
            sum_failures
              (record {
                setup = 0;
                workload = 0;
                assertion = 0;
                timeout = 0;
                cleanup = 0;
                absent = 0;
              })
              entries;
        cleanup =
            sum_cleanups
              (record {
                removed_count = 0;
                preserved_count = 0;
                failed_count = 0;
                unknown_count = 0;
              })
              entries;
        timing = sum_durations (record { recorded_total_ms = 0; slowest = none }) entries;
        results = entries;
      }

  -- The time and the run's particulars, which are only passed on, are left out.
  unfoldable pub build_destroyer_report :
      List String
      → List (AnalyzedScenarioResult G)
      → (analysis_result matrix_result : String) → DestroyerReport G
  unfolding entries_of summarize
  build_destroyer_report expected results analysis_result matrix_result =
      summarize (entries_of empty_guidance guided_ms expected results) (length expected)
        (length results) (str_eq analysis_result "success" && str_eq matrix_result "success")

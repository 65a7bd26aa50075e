-- ===== src/Report/Judgement.antt =====
-- src/report.ts: what a report's verdict and totals say of the results.
use Prim.Native.String.{String}
use text.Mathlib.Text.{◌==◌ as str_eq}
use fitz_destroyer.Common.{
  ℕ, suc, ◌+◌, ◌≤◌, ◌≡◌, refl, ap, ◌↔◌, Bool, true, false, ◌&&◌, Option, List, [], ◌∷◌, map, length,
  All, ◌==◌, if◌then◌else◌, arith,
}
use fitz_destroyer.Suite.{Verdict, passed, failed}
use fitz_destroyer.Report.{
  AnalyzedScenarioResult, DestroyerReportEntry, EntryVerdict, reported, missing, is_reported,
  is_missing, count, matches, entry_of, entries_of, build_destroyer_report,
}

module _ {G : Type 0} (empty_guidance : Option ℕ → String → G) (guided_ms : G → Option ℕ) where
  -- Exactly one result of the list is of the scenario, and its verdict is that it passed.
  abbrev pub HasPassed : List (AnalyzedScenarioResult G) → Type 0
  HasPassed (a ∷ []) = a.result.verdict ≡ passed
  HasPassed results = ⊥

  verdict_of : DestroyerReportEntry G → EntryVerdict
  verdict_of e = e.verdict

  abbrev failures : List (DestroyerReportEntry G) → ℕ
  failures entries =
      count (λ e. is_reported failed e.verdict) entries + count (λ e. is_missing e.verdict) entries

  counts-length :
      (entries : List (DestroyerReportEntry G))
      → count (λ e. is_reported passed e.verdict) entries + failures entries ≡ length entries
  counts-length [] = omega arith
  counts-length (e ∷ rest) = by_verdict e.verdict (counts-length rest)
    where
      by_verdict :
          (v : EntryVerdict)
          → count (λ x. is_reported passed x.verdict) rest + failures rest ≡ length rest
          → (if is_reported passed v
                then suc (count (λ x. is_reported passed x.verdict) rest)
                else count (λ x. is_reported passed x.verdict) rest)
              + ((if is_reported failed v
                    then suc (count (λ x. is_reported failed x.verdict) rest)
                    else count (λ x. is_reported failed x.verdict) rest)
                  + (if is_missing v
                      then suc (count (λ x. is_missing x.verdict) rest)
                      else count (λ x. is_missing x.verdict) rest))
            ≡ suc (length rest)
      by_verdict (reported passed) h = omega (arith, h)
      by_verdict (reported failed) h = omega (arith, h)
      by_verdict missing h = omega (arith, h)

  length-entries_of :
      (expected : List String) (results : List (AnalyzedScenarioResult G))
      → length (entries_of empty_guidance guided_ms expected results) ≡ length expected
  unfolding entries_of
  length-entries_of [] results = omega arith
  length-entries_of (s ∷ expected) results = omega (arith, length-entries_of expected results)

  entry_of-passed :
      (s : String) (found : List (AnalyzedScenarioResult G))
      → (is_reported passed (entry_of empty_guidance guided_ms s found).verdict ≡ true)
        ↔ HasPassed found
  unfolding entry_of
  entry_of-passed s [] = (λ h. cc, λ h. absurd h)
  entry_of-passed s (a ∷ []) = by_verdict a.result.verdict
    where
      by_verdict : (v : Verdict) → (is_reported passed (reported v) ≡ true) ↔ (v ≡ passed)
      by_verdict passed = (λ h. refl, λ h. refl)
      by_verdict failed = (λ h. cc, λ h. cc)
  entry_of-passed s (a ∷ (b ∷ rest)) = (λ h. cc, λ h. absurd h)

  entries_of-passed :
      (expected : List String) (results : List (AnalyzedScenarioResult G))
      → (count
            (λ e. is_reported passed e.verdict)
            (entries_of empty_guidance guided_ms expected results)
          ≡ length expected)
        ↔ All (λ s. HasPassed (matches empty_guidance guided_ms s results)) expected
  unfolding entries_of
  entries_of-passed [] results = (λ h. tt, λ h. refl)
  entries_of-passed (s ∷ expected) results =
      both (is_reported passed (entry_of empty_guidance guided_ms s found).verdict)
        (entry_of-passed s found) (entries_of-passed expected results)
        (omega (arith, counts-length rest, length-entries_of expected results))
    where
      found : List (AnalyzedScenarioResult G)
      found = matches empty_guidance guided_ms s results

      rest : List (DestroyerReportEntry G)
      rest = entries_of empty_guidance guided_ms expected results

      good : ℕ
      good = count (λ e. is_reported passed e.verdict) rest

      never : ◌≡◌ {A = Bool} false true → ⊥
      never h = cc

      both :
          {P Q : Type 0} (b : Bool)
          → (b ≡ true) ↔ P
          → (good ≡ length expected) ↔ Q
          → good ≤ length expected
          → ((if b then suc good else good) ≡ suc (length expected)) ↔ (P × Q)
      both true p q few = (λ h. (p.0 refl, q.0 (omega (arith, h))), λ h. omega (arith, q.1 h.1))
      both false p q few = (λ h. absurd (omega (arith, h, few)), λ h. absurd (never (p.1 h.0)))

  -- A report's verdict is that it passed exactly when the checks and the matrix succeeded and, for
  -- each expected scenario, exactly one result is of that scenario and says that it passed.
  pub build_destroyer_report-passed_iff :
      (expected : List String) (results : List (AnalyzedScenarioResult G))
      (analysis_result matrix_result : String)
      → ((build_destroyer_report empty_guidance guided_ms expected results analysis_result
            matrix_result).verdict
          ≡ passed)
        ↔ (((str_eq analysis_result "success" && str_eq matrix_result "success") ≡ true)
            × All (λ s. HasPassed (matches empty_guidance guided_ms s results)) expected)
  unfolding build_destroyer_report
  build_destroyer_report-passed_iff expected results analysis_result matrix_result =
      decided (str_eq analysis_result "success" && str_eq matrix_result "success")
        (entries_of-passed expected results) (counts-length entries)
        (length-entries_of expected results)
    where
      entries : List (DestroyerReportEntry G)
      entries = entries_of empty_guidance guided_ms expected results

      decided :
          {Q : Type 0} (clean : Bool)
          → (count (λ e. is_reported passed e.verdict) entries ≡ length expected) ↔ Q
          → count (λ e. is_reported passed e.verdict) entries + failures entries ≡ length entries
          → length entries ≡ length expected
          → ((if clean
                  && (count (λ e. is_reported failed e.verdict) entries == 0
                      && count (λ e. is_missing e.verdict) entries == 0)
                then passed
                else failed)
              ≡ passed)
            ↔ ((clean ≡ true) × Q)
      decided false q sum size = (λ h. cc, λ h. cc)
      decided true q sum size =
          (λ h. (refl, q.0 (ground (arith, h, sum, size))), λ h. ground (arith, q.1 h.1, sum, size))

  entries_of-scenarios :
      (expected : List String) (results : List (AnalyzedScenarioResult G))
      → map (λ e. e.scenario) (entries_of empty_guidance guided_ms expected results) ≡ expected
  unfolding entries_of entry_of
  entries_of-scenarios [] results = refl
  entries_of-scenarios (s ∷ expected) results =
      rw (named (matches empty_guidance guided_ms s results))
        (ap (◌∷◌ s) (entries_of-scenarios expected results))
    where
      named :
          (found : List (AnalyzedScenarioResult G))
          → (entry_of empty_guidance guided_ms s found).scenario ≡ s
      named [] = refl
      named (a ∷ []) = refl
      named (a ∷ (b ∷ rest)) = refl

  -- What the results that are of one scenario say of it: a single one gives its verdict, none makes
  -- it missing, and several make it failed.
  abbrev pub told_by : List (AnalyzedScenarioResult G) → EntryVerdict
  told_by [] = missing
  told_by (a ∷ []) = reported a.result.verdict
  told_by (a ∷ (b ∷ rest)) = reported failed

  -- How many of the expected scenarios have an outcome that meets a test.
  abbrev pub outcomes : (EntryVerdict → Bool) → List (AnalyzedScenarioResult G) → List String → ℕ
  outcomes test results expected =
      count (λ s. test (told_by (matches empty_guidance guided_ms s results))) expected

  count-entries_of :
      (test : EntryVerdict → Bool) (expected : List String)
      (results : List (AnalyzedScenarioResult G))
      → count (λ e. test e.verdict) (entries_of empty_guidance guided_ms expected results)
        ≡ outcomes test results expected
  unfolding entries_of entry_of
  count-entries_of test [] results = refl
  count-entries_of test (s ∷ expected) results =
      rw (told (matches empty_guidance guided_ms s results), count-entries_of test expected results)
        refl
    where
      told :
          (found : List (AnalyzedScenarioResult G))
          → (entry_of empty_guidance guided_ms s found).verdict ≡ told_by found
      told [] = refl
      told (a ∷ []) = refl
      told (a ∷ (b ∷ rest)) = refl

  -- A report has an entry for each expected scenario, in their order. Its totals count the expected
  -- scenarios: as passed those with a single result, which says that it passed; as failed those with
  -- a single result that says that it failed, or with several; as missing those without a result.
  -- Each is counted once, and the number of results is that of those given.
  pub build_destroyer_report-counts :
      (expected : List String) (results : List (AnalyzedScenarioResult G))
      (analysis_result matrix_result : String)
      → let report =
          build_destroyer_report empty_guidance guided_ms expected results analysis_result
            matrix_result in
        (map (λ e. e.scenario) report.results ≡ expected)
        × (report.totals.passed_count + (report.totals.failed_count + report.totals.missing_count)
            ≡ length expected)
        × (report.totals.expected ≡ length expected)
        × (report.totals.reported_count ≡ length results)
        × (report.totals.passed_count ≡ outcomes (is_reported passed) results expected)
        × (report.totals.failed_count ≡ outcomes (is_reported failed) results expected)
        × (report.totals.missing_count ≡ outcomes is_missing results expected)
  unfolding build_destroyer_report
  build_destroyer_report-counts expected results analysis_result matrix_result = (
    entries_of-scenarios expected results,
    omega (
      arith,
      counts-length (entries_of empty_guidance guided_ms expected results),
      length-entries_of expected results,
    ),
    refl,
    refl,
    count-entries_of (is_reported passed) expected results,
    count-entries_of (is_reported failed) expected results,
    count-entries_of is_missing expected results,
  )

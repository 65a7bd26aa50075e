-- ===== src/Suite/Running.antt =====
-- src/suite.ts: the totals of a suite's run.
use Prim.Native.String.{String}
use mathlib.Core.Path.{subst}
use fitz_destroyer.Common.{
  ℕ, suc, ◌+◌, ◌-◌, ◌≡◌, refl, ap, ◌∙◌, List, [], ◌∷◌, if◌then◌else◌, length, Result, ok, err,
  ok-inj, >>=-eq-ok, map, arith,
}
use fitz_destroyer.Config.Parsing.{RunConfig}
use fitz_destroyer.Suite.{
  ScenarioResult, Allotment, SuiteSummary, is_passed, count_passed, allocate_scenario_configs,
  aggregate_suite_results, run_each, from_execute, run_suite,
}
use fitz_destroyer.Suite.Allocation.{scenario_of, allocate_scenario_configs-IsAllotted}

unfoldable pub count_failed : List ScenarioResult → ℕ
count_failed [] = 0
count_failed (r ∷ rest) = if is_passed r.verdict then count_failed rest else suc (count_failed rest)

count_passed-count_failed :
    (results : List ScenarioResult) → count_passed results + count_failed results ≡ length results
unfolding count_failed
count_passed-count_failed [] = omega arith
count_passed-count_failed (r ∷ rest) = ground (arith, count_passed-count_failed rest)

module _ (execute : RunConfig → String → Result String ScenarioResult) where
  -- The results are those of the executor, at the entries in their order.
  abbrev pub Ran : List Allotment → List ScenarioResult → Type 0
  Ran [] [] = Unit
  Ran (entry ∷ entries) (r ∷ rs) = (execute entry.config entry.scenario ≡ ok r) × Ran entries rs
  Ran entries rs = ⊥

  run_each-Ran :
      (entries : List Allotment) (rs : List ScenarioResult)
      → run_each execute entries ≡ ok rs
      → Ran entries rs
  unfolding run_each from_execute
  run_each-Ran [] rs h = subst (Ran []) (ok-inj h) tt
  run_each-Ran (entry ∷ rest) rs h =
      let (r, first, h1) =
        >>=-eq-ok (from_execute execute (execute entry.config entry.scenario)) _ h in
      let (later, more, done) = >>=-eq-ok (run_each execute rest) _ h1 in
      subst (Ran (entry ∷ rest)) (ok-inj done)
        (from_execute-eq-ok _ r first, run_each-Ran rest later more)
    where
      from_execute-eq-ok :
          (m : Result String ScenarioResult) (r : ScenarioResult)
          → from_execute execute m ≡ ok r
          → m ≡ ok r
      from_execute-eq-ok (ok r') r e = ap ok (ok-inj e)
      from_execute-eq-ok (err e') r e = cc

  Ran-length :
      (entries : List Allotment) (rs : List ScenarioResult)
      → Ran entries rs
      → length rs ≡ length (map scenario_of entries)
  Ran-length [] [] h = omega arith
  Ran-length [] (r ∷ rs) h = absurd h
  Ran-length (entry ∷ entries) [] h = absurd h
  Ran-length (entry ∷ entries) (r ∷ rs) h = omega (arith, Ran-length entries rs h.1)

  -- When a suite's run returns, every scenario was given to the executor in turn, with the
  -- configuration allocated for it, and each such call returned; the summary's results are what the
  -- calls returned, and its totals count them: one result for each scenario, each of which is
  -- counted as passed or as failed by its own verdict.
  pub run_suite-Ran :
      (config : RunConfig) (scenarios : List String) (summary : SuiteSummary)
      → run_suite execute config scenarios ≡ ok summary
      → (entries : List Allotment) × (allocate_scenario_configs config scenarios ≡ ok entries)
        × Ran entries summary.results
        × (summary.totals.scenarios ≡ length scenarios)
        × (summary.totals.passed_count ≡ count_passed summary.results)
        × (summary.totals.failed_count ≡ count_failed summary.results)
  unfolding run_suite aggregate_suite_results
  run_suite-Ran config scenarios summary h =
      let (entries, allotted, h1) = >>=-eq-ok (allocate_scenario_configs config scenarios) _ h in
      let (rs, ran, done) = >>=-eq-ok (run_each execute entries) _ h1 in
      let (names, _, _) = allocate_scenario_configs-IsAllotted config scenarios entries allotted in
      let (each, all, good, bad) =
        subst
          (λ s.
            Ran entries s.results
            × (s.totals.scenarios ≡ length scenarios)
            × (s.totals.passed_count ≡ count_passed s.results)
            × (s.totals.failed_count ≡ count_failed s.results))
          (ok-inj done) (summed entries rs names (run_each-Ran entries rs ran)) in
      (entries, allotted, each, all, good, bad)
    where
      summed :
          (entries : List Allotment) (rs : List ScenarioResult)
          → map scenario_of entries ≡ scenarios
          → Ran entries rs
          → Ran entries rs
            × (length rs ≡ length scenarios)
            × (count_passed rs ≡ count_passed rs)
            × (length rs - count_passed rs ≡ count_failed rs)
      summed entries rs names ran = (
        ran,
        Ran-length entries rs ran ∙ ap length names,
        refl,
        omega (arith, count_passed-count_failed rs),
      )

-- ===== src/Scenario/Lifecycle.antt =====
-- src/scenario.ts: `runScenario`.
use Prim.Native.String.{String}
use fitz_destroyer.Common.{
  ℕ, ◌-◌, Bool, true, false, not, Option, none, some, [], ◌∷◌, if◌then◌else◌,
}
use fitz_destroyer.Config.Parsing.{RunConfig}
use fitz_destroyer.Suite.{
  Verdict, passed, failed, FailureClassification, in_setup, in_cleanup, removed, not_removed,
  ScenarioResult,
}
use fitz_destroyer.Scenario.Failure.{Thrown, error_message, workload, classify_failure}
use fitz_destroyer.Scenario.Calls.{
  World, Run, begun, Attempt, ◌then◌, Ending, scenario_started, workload_started, workload_complete,
  scenario_failed, artifact_collection_failed, cleanup_failed, scenario_complete, create_artifacts,
  preflight, reset, prepare_images, start_core, stop_fitz, collect, cleanup, event, write_summary,
  went_on, thrown, returned, rejected, perform, now,
}
use fitz_destroyer.Scenario.Workload.{execute_workload}

-- The `finally` block returns, so an error of the `catch` block goes no further.
unfoldable pub left_by : Attempt → Run
left_by (went_on r) = r
left_by (thrown e r) = r

-- `if (verdict === "passed")`, where a later failure is noted.
unfoldable pub overrule : Verdict → FailureClassification → String → Run → Attempt
overrule passed c message r =
    went_on (record r {
      verdict = failed;
      failure_message = some message;
      failure_classification = some c;
    })
overrule failed c message r = went_on r

-- `preserve_failure` is the option, which may be left out.
abbrev pub should_cleanup : (keep : Bool) → (preserve_failure : Option Bool) → Verdict → Bool
should_cleanup keep preserve_failure passed = not keep
should_cleanup keep (some b) failed = not b
should_cleanup keep none failed = false

unfoldable pub written : ScenarioResult → Attempt → Ending
written summary (went_on r) = returned summary r
written summary (thrown e r) = rejected e r

module _ (world : World) where
  -- `workloadDurationMs` and `workloadCompletedAt`, set together.
  abbrev pub complete : Run → Run
  complete r = record r {
    workload_duration_ms =
        some (now world r - elim r.workload_started_at [ some t ↦ t | none ↦ 0 ]);
    workload_completed_at = some (now world r);
  }

  unfoldable pub prepare : Run → Attempt
  unfolding perform
  prepare r =
      perform world preflight r
      then perform world reset
      then perform world prepare_images
      then perform world start_core
      then λ r'.
          went_on (record r' { phase = workload; workload_started_at = some (now world r') })
          then perform world (event workload_started)

  unfoldable pub conclude : Run → Attempt
  unfolding perform
  conclude r =
      perform world (event (workload_complete passed)) (complete r)
      then perform world stop_fitz
      then λ r'. went_on (record r' { verdict = passed })

  -- The `try` block.
  unfoldable pub try_scenario : RunConfig → String → Run → Attempt
  unfolding prepare execute_workload conclude
  try_scenario config scenario r =
      prepare r then execute_workload world config scenario then conclude

  unfoldable pub note_completion : Run → Attempt
  unfolding perform
  note_completion r = elim r.workload_started_at [
    | none ↦ went_on r
    | some t ↦ elim r.workload_completed_at [
      | some u ↦ went_on r
      | none ↦ perform world (event (workload_complete failed)) (complete r)
    ]
  ]

  -- The `catch` block.
  unfoldable pub catch_failure : Thrown → Run → Attempt
  unfolding note_completion perform
  catch_failure e r = note_completion r then λ r'.
      perform world (event scenario_failed) (record r' {
        failure_message = some (error_message e);
        failure_classification = some (classify_failure e r'.phase);
      })

  unfoldable pub try_catch : Attempt → Run
  unfolding catch_failure left_by
  try_catch (went_on r) = r
  try_catch (thrown e r) = left_by (catch_failure e r)

  unfoldable pub collected : Attempt → Attempt
  unfolding perform overrule
  collected (went_on r) = went_on r
  collected (thrown e r) = perform world (event artifact_collection_failed) r then λ r'.
      overrule r'.verdict in_setup (error_message e) r'

  unfoldable pub cleaned_up : Attempt → Attempt
  unfolding perform overrule
  cleaned_up (went_on r) = went_on (record r { cleanup_state = removed })
  cleaned_up (thrown e r) =
      perform world (event cleanup_failed)
        (record r { cleanup_error = some (error_message e); cleanup_state = not_removed })
      then λ r'. overrule r'.verdict in_cleanup (error_message e) r'

  unfoldable pub clean_up : RunConfig → Option Bool → Run → Attempt
  unfolding cleaned_up perform
  clean_up config preserve_failure r =
      if should_cleanup config.keep preserve_failure r.verdict
      then cleaned_up (perform world cleanup r)
      else went_on r

  abbrev pub summary_of :
      String → (run_id project : String) → (started_at : ℕ) → Run → ScenarioResult
  summary_of scenario run_id project started_at r = record {
    scenario = scenario;
    verdict = r.verdict;
    duration_ms = now world r - started_at;
    workload_duration_ms = r.workload_duration_ms;
    failure_classification = r.failure_classification;
    cleanup_state = r.cleanup_state;
    run_id = run_id;
    project = project;
    error = r.failure_message;
    cleanup_error = r.cleanup_error;
  }

  unfoldable pub report : (Run → ScenarioResult) → Attempt → Ending
  unfolding written perform
  report summarize (thrown e r) = rejected e r
  report summarize (went_on r) =
      written (summarize r)
        (perform world write_summary r then perform world (event scenario_complete))

  -- The `finally` block.
  unfoldable pub finally : RunConfig → Option Bool → (Run → ScenarioResult) → Run → Ending
  unfolding report collected clean_up perform
  finally config preserve_failure summarize r =
      report summarize (collected (perform world collect r) then clean_up config preserve_failure)

  unfoldable pub after_start :
      RunConfig → String → (run_id project : String) → Option Bool → ℕ → Attempt → Ending
  unfolding finally try_catch try_scenario
  after_start config scenario run_id project preserve_failure started_at (thrown e r) = rejected e r
  after_start config scenario run_id project preserve_failure started_at (went_on r) =
      finally config preserve_failure (summary_of scenario run_id project started_at)
        (try_catch (try_scenario config scenario r))

  unfoldable pub started : Run → Attempt
  unfolding perform
  started r = perform world (event scenario_started) r

  unfoldable pub run_scenario :
      RunConfig → String → (run_id project : String) → (preserve_failure : Option Bool) → Ending
  unfolding after_start started perform
  run_scenario config scenario run_id project preserve_failure =
      let created = perform world create_artifacts begun in
      after_start config scenario run_id project preserve_failure
        (world.clock ((create_artifacts, true) ∷ [])) (created then started)

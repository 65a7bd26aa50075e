-- ===== src/Scenario/Examples.antt =====
-- Runs of scenarios, and the theorems at concrete inputs.
use fitz_destroyer.Common.{
  ℕ, ◌+◌, ◌≡◌, refl, Bool, true, false, Option, none, some, [], ◌∷◌, if◌then◌else◌, arith,
}
use fitz_destroyer.Config.Examples.{sample_config}
use fitz_destroyer.Config.Scenarios.{is_one_of}
use fitz_destroyer.Suite.{in_timeout, in_assertion, in_workload}
use fitz_destroyer.Suite.{
  passed, failed, FailureClassification, CleanupState, removed, preserved, Verdict,
}
use fitz_destroyer.Scenario.Failure.{
  Thrown, error_object, other_value, timeout_words, classify_failure, workload,
}
use fitz_destroyer.Scenario.Failure.Words.{Signals, classify_failure_iff}
use fitz_destroyer.Scenario.Calls.{
  World, Call, sleep, cleanup, run_notice_fanout, event, workload_complete, History, begun, Ending,
  returned, rejected,
}
use fitz_destroyer.Scenario.Workload.{Routine, routines, routine_of, run_chaos}
use fitz_destroyer.Scenario.Lifecycle.{run_scenario}
use fitz_destroyer.Scenario.Verdicts.{Judged, is_handled}
use fitz_destroyer.Scenario.Verdicts.Judgement.{run_scenario-Judged}
use fitz_destroyer.Scenario.Dispatch.{routine_of-some_iff}
use fitz_destroyer.Scenario.Chaos.{IsPaced, Recovered, run_chaos-Recovered}

-- Only sleeping takes time.
abbrev slept : History → ℕ
slept [] = 0
slept ((sleep ms, worked) ∷ earlier) = slept earlier + ms
slept (_ ∷ earlier) = slept earlier

abbrev timed_out : Thrown
timed_out = error_object "Error" "Broker TIMED OUT."

abbrev world_of : (History → Call → Bool) → World
world_of works = record { works = works; error = λ h c. timed_out; clock = slept }

abbrev calm : World
calm = world_of λ h c. true

-- Neither the workload nor the record of its end works.
abbrev no_fanout : History → Call → Bool
no_fanout h run_notice_fanout = false
no_fanout h (event (workload_complete failed)) = false
no_fanout h c = true

abbrev no_cleanup : History → Call → Bool
no_cleanup h cleanup = false
no_cleanup h c = true

abbrev outcome : Ending → Option (Verdict × (Option FailureClassification) × CleanupState)
outcome (returned s r) = some (s.verdict, s.failure_classification, s.cleanup_state)
outcome (rejected e r) = none

abbrev fanout_in : World → Option Bool → Ending
fanout_in world preserve_failure =
    run_scenario world sample_config "notice-fanout" "run" "project" preserve_failure

calm_passes :
    outcome (fanout_in calm none)
    ≡ some (passed, none, if sample_config.keep then preserved else removed)
unfolding run_scenario
calm_passes = refl

-- A failed run without a classification.
failure_unclassified :
    outcome (fanout_in (world_of no_fanout) none) ≡ some (failed, none, preserved)
unfolding run_scenario
failure_unclassified = refl

told_apart :
    (classify_failure timed_out workload ≡ in_timeout)
    × (classify_failure (error_object "Error" "Found DUPLICATE frames") workload ≡ in_assertion)
    × (classify_failure (error_object "Error" "It was unexpectedly slow") workload ≡ in_workload)
    × (classify_failure (other_value "deadline") workload ≡ in_timeout)
unfolding classify_failure
told_apart = (refl, refl, refl, refl)

calm-IsPaced : IsPaced calm
calm-IsPaced = (λ h c b. ground arith, λ h ms. ground arith)

classify_failure_iff_example : Signals "TimeoutError" timeout_words timed_out
unfolding classify_failure
classify_failure_iff_example = (classify_failure_iff timed_out).1.0 refl

run_scenario-Judged_example :
    Judged sample_config.keep
      (some false)
      (is_handled "notice-fanout")
      (fanout_in (world_of no_cleanup) (some false))
run_scenario-Judged_example =
    run_scenario-Judged (world_of no_cleanup) sample_config "notice-fanout" "run" "project"
      (some false)

routine_of-some_iff_example : (routine : Routine) × (routine_of "chaos" routines ≡ some routine)
unfolding is_one_of
routine_of-some_iff_example = (routine_of-some_iff "chaos").0.1 refl

run_chaos-Recovered_example : Recovered calm (run_chaos calm sample_config begun)
run_chaos-Recovered_example = run_chaos-Recovered calm sample_config begun calm-IsPaced refl tt

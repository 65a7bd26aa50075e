-- ===== src/Scenario/Verdicts.antt =====
-- src/scenario.ts: what is true of the variables of `runScenario` between its parts.
pub mod Steps
pub mod Workloads
pub mod Judgement
use Prim.Native.String.{String}
use fitz_destroyer.Common.{
  ℕ, ◌≡◌, refl, Bool, true, false, not, ◌&&◌, ◌||◌, Option, none, some, List, [], ◌∷◌,
  if◌then◌else◌, arith,
}
use fitz_destroyer.Config.Parsing.{RunConfig}
use fitz_destroyer.Suite.{
  Verdict, passed, failed, is_passed, FailureClassification, in_setup, in_cleanup, CleanupState,
  removed, preserved, not_removed, ScenarioResult,
}
use fitz_destroyer.Scenario.Failure.{Thrown, Phase, setup, workload, classify_failure}
use fitz_destroyer.Scenario.Calls.{
  World, Mode, Event, Call, History, Run, begun, Attempt, ◌then◌, Ending, load, verify,
  scenario_started, workload_started, workload_complete, scenario_failed,
  artifact_collection_failed, cleanup_failed, scenario_complete, chaos_fault_recovery_complete,
  chaos_complete, create_artifacts, preflight, reset, prepare_images, start_core, stop_fitz,
  collect, cleanup, event, write_summary, run_recovery_job, graceful_restart_fitz,
  discard_fitz_cache_and_restart, run_notice_fanout, run_rpc_pressure, run_connection_storm,
  run_pressure_scenario, run_of_module, start_clients, replace_clients, kill_one_client_and_restore,
  wait_for_all_client_domains, kill_fitz, restart_fitz, kill_sqrzl_and_restore, stop_clients, sleep,
  went_on, thrown, returned, rejected, perform, now,
}
use fitz_destroyer.Scenario.Workload.{
  Routine, routines, routine_of, not_implemented, clean_restart, cache_loss, notice_fanout,
  rpc_pressure, connection_storm, pressure, chaos, of_module, record_chaos_recovery,
  wait_for_fresh_progress, settle, kill_broker, kill_client, kill_provider, run_chaos, run_routine,
  execute_chosen, execute_workload,
}
use fitz_destroyer.Scenario.Lifecycle.{
  left_by, overrule, should_cleanup, written, complete, prepare, conclude, try_scenario,
  note_completion, catch_failure, try_catch, collected, cleaned_up, clean_up, summary_of, report,
  finally, after_start, started, run_scenario,
}

abbrev pub is_none {ℓ} : {A : Type ℓ} → Option A → Bool
is_none none = true
is_none (some a) = false

abbrev pub all_worked : History → Bool
all_worked [] = true
all_worked ((c, worked) ∷ earlier) = worked && all_worked earlier

-- The record of a failed workload's end.
abbrev pub is_failed_completion : Call → Bool
is_failed_completion (event (workload_complete failed)) = true
is_failed_completion c = false

abbrev pub lost_completion : History → Bool
lost_completion [] = false
lost_completion ((c, worked) ∷ earlier) =
    (not worked && is_failed_completion c) || lost_completion earlier

-- The calls that write the run's own files.
abbrev pub writes : Call → Bool
writes create_artifacts = true
writes (event e) = true
writes write_summary = true
writes c = false

abbrev pub IsWriteFailure : History → Type 0
IsWriteFailure [] = ⊥
IsWriteFailure ((c, worked) ∷ earlier) = (writes c ≡ true) × (worked ≡ false)

-- The stack as the last call of `cleanup` has left it.
abbrev pub cleanup_state_of : History → CleanupState
cleanup_state_of [] = preserved
cleanup_state_of ((cleanup, true) ∷ earlier) = removed
cleanup_state_of ((cleanup, false) ∷ earlier) = not_removed
cleanup_state_of (_ ∷ earlier) = cleanup_state_of earlier

abbrev pub is_preserved : CleanupState → Bool
is_preserved preserved = true
is_preserved s = false

-- `options.preserveFailure === false`
abbrev pub gives_up : Option Bool → Bool
gives_up (some b) = not b
gives_up none = false

-- When the stack is to be there at the end, by the verdict and the classification.
abbrev pub AsAsked :
    (keep : Bool) → Option Bool → Verdict → Option FailureClassification → CleanupState → Type 0
AsAsked keep preserve_failure passed c state = state ≡ (if keep then preserved else removed)
AsAsked keep preserve_failure failed (some in_cleanup) state =
    (keep ≡ false) × (state ≡ not_removed)
AsAsked keep preserve_failure failed c state = is_preserved state ≡ not (gives_up preserve_failure)

abbrev pub is_handled : String → Bool
is_handled scenario = not (is_none (routine_of scenario routines))

abbrev pub Judged : (keep : Bool) → Option Bool → (handled : Bool) → Ending → Type 0
Judged keep preserve_failure handled (rejected e r) = IsWriteFailure r.calls
Judged keep preserve_failure handled (returned s r) =
    (is_passed s.verdict ≡ (all_worked r.calls && handled))
    × (is_none s.failure_classification ≡ (is_passed s.verdict || lost_completion r.calls))
    × (is_none s.error ≡ is_none s.failure_classification)
    × (s.cleanup_state ≡ cleanup_state_of r.calls)
    × AsAsked keep preserve_failure s.verdict s.failure_classification s.cleanup_state

abbrev pub blames_cleanup : Option FailureClassification → Bool
blames_cleanup (some in_cleanup) = true
blames_cleanup c = false

-- Nothing has failed so far.
abbrev pub Fresh : Run → Type 0
Fresh r =
    (r.verdict ≡ failed)
    × (r.failure_classification ≡ none)
    × (r.failure_message ≡ none)
    × (all_worked r.calls ≡ true)
    × (lost_completion r.calls ≡ false)
    × (r.cleanup_state ≡ preserved)
    × (cleanup_state_of r.calls ≡ preserved)

-- Something has, and nothing is noted yet.
abbrev pub Broken : Bool → Run → Type 0
Broken handled r =
    (r.verdict ≡ failed)
    × (r.failure_classification ≡ none)
    × (r.failure_message ≡ none)
    × ((all_worked r.calls && handled) ≡ false)
    × (lost_completion r.calls ≡ false)
    × (r.cleanup_state ≡ preserved)
    × (cleanup_state_of r.calls ≡ preserved)

-- Whichever it is, after the `catch` block.
abbrev pub Settled : Bool → Run → Type 0
Settled handled r =
    (is_passed r.verdict ≡ (all_worked r.calls && handled))
    × (is_none r.failure_classification ≡ (is_passed r.verdict || lost_completion r.calls))
    × (is_none r.failure_message ≡ is_none r.failure_classification)
    × (blames_cleanup r.failure_classification ≡ false)
    × (r.cleanup_state ≡ preserved)
    × (cleanup_state_of r.calls ≡ preserved)

-- After `collect`.
abbrev pub Gathered : Bool → Attempt → Type 0
Gathered handled (went_on r) = Settled handled r
Gathered handled (thrown e r) = IsWriteFailure r.calls

-- After `cleanup`, when it was due.
abbrev pub Tidied : Bool → Option Bool → Bool → Attempt → Type 0
Tidied keep preserve_failure handled (went_on r) =
    (is_passed r.verdict ≡ (all_worked r.calls && handled))
    × (is_none r.failure_classification ≡ (is_passed r.verdict || lost_completion r.calls))
    × (is_none r.failure_message ≡ is_none r.failure_classification)
    × (r.cleanup_state ≡ cleanup_state_of r.calls)
    × AsAsked keep preserve_failure r.verdict r.failure_classification r.cleanup_state
Tidied keep preserve_failure handled (thrown e r) = IsWriteFailure r.calls

-- A call of the workload or of its setup.
abbrev pub is_plain : Call → Bool
is_plain cleanup = false
is_plain (event (workload_complete v)) = false
is_plain c = true

abbrev pub Goes : Bool → Attempt → Type 0
Goes handled (went_on r) = Fresh r
Goes handled (thrown e r) = Broken handled r

-- The `try` block has come to its end.
abbrev pub Tried : Bool → Attempt → Type 0
Tried handled (went_on r) = Settled handled r × (r.verdict ≡ passed)
Tried handled (thrown e r) = Broken handled r

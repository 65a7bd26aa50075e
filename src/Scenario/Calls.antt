-- ===== src/Scenario/Calls.antt =====
-- src/scenario.ts: the variables of `runScenario` and the calls that it and its workloads make. The
-- stack is Docker and the artifacts are files: what is kept of them is which calls are made, in which
-- order, whether each works, what it throws when it does not, and the time afterwards. All three may
-- depend on all the calls before.
use Prim.Native.String.{String}
use fitz_destroyer.Common.{ℕ, Bool, Option, none, List, [], ◌∷◌, if◌then◌else◌}
use fitz_destroyer.Suite.{
  Verdict, failed, FailureClassification, CleanupState, preserved, ScenarioResult,
}
use fitz_destroyer.Scenario.Failure.{Thrown, Phase, setup}

pub data Mode : Type 0 where
  load verify : Mode

-- A call of `artifacts.event`, with as much of its details as the theorems need.
pub data Event : Type 0 where
  scenario_started workload_started : Event
  workload_complete : Verdict → Event
  scenario_failed artifact_collection_failed cleanup_failed scenario_complete : Event
  chaos_fault_recovery_complete : (fault : String) → (elapsed_ms : ℕ) → Event
  chaos_complete : (recoveries : List (String × ℕ)) → Event

pub data Call : Type 0 where
  create_artifacts preflight reset prepare_images start_core stop_fitz collect cleanup : Call
  event : Event → Call
  write_summary : Call
  run_recovery_job : Mode → Call
  graceful_restart_fitz discard_fitz_cache_and_restart : Call
  run_notice_fanout run_rpc_pressure run_connection_storm : Call
  run_pressure_scenario : String → Call
  run_of_module : (function : String) → Call
  start_clients replace_clients kill_one_client_and_restore : (replicas : ℕ) → Call
  wait_for_all_client_domains : (since : ℕ) → (replicas : ℕ) → Call
  kill_fitz restart_fitz kill_sqrzl_and_restore stop_clients : Call
  sleep : ℕ → Call

-- The calls so far, the last one first, each with whether it worked.
abbrev pub History : Type 0
History = List (Call × Bool)

-- The variables of `runScenario`, and the recoveries of `runChaos`.
pub record Run : Type 0 where
  pub calls : History
  pub verdict : Verdict
  pub failure_classification : Option FailureClassification
  pub failure_message : Option String
  pub cleanup_error : Option String
  pub cleanup_state : CleanupState
  pub phase : Phase
  pub workload_started_at : Option ℕ
  pub workload_completed_at : Option ℕ
  pub workload_duration_ms : Option ℕ
  pub recoveries : List (String × ℕ)

abbrev pub begun : Run
begun = record {
  calls = [];
  verdict = failed;
  failure_classification = none;
  failure_message = none;
  cleanup_error = none;
  cleanup_state = preserved;
  phase = setup;
  workload_started_at = none;
  workload_completed_at = none;
  workload_duration_ms = none;
  recoveries = [];
}

pub data Attempt : Type 0 where
  went_on : Run → Attempt
  thrown : Thrown → Run → Attempt

infixl 5 ◌then◌
abbrev pub ◌then◌ : Attempt → (Run → Attempt) → Attempt
went_on r then f = f r
thrown e r then f = thrown e r

-- `runScenario` returns its summary, or rejects.
pub data Ending : Type 0 where
  returned : ScenarioResult → Run → Ending
  rejected : Thrown → Run → Ending

-- Whether a call works after the calls before it, what it throws when it does not, and the time after
-- some calls, in milliseconds.
pub record World : Type 0 where
  pub works : History → Call → Bool
  pub error : History → Call → Thrown
  pub clock : History → ℕ

module _ (world : World) where
  unfoldable pub perform : Call → Run → Attempt
  perform c r =
      let b : Bool = world.works r.calls c in
      let r' : Run = record r { calls = (c, b) ∷ r.calls } in
      if b then went_on r' else thrown (world.error r.calls c) r'

  abbrev pub now : Run → ℕ
  now r = world.clock r.calls

-- ===== src/Scenario/Workload.antt =====
-- src/scenario.ts: `executeWorkload` and `runChaos`.
use Prim.Native.String.{String, ◌++◌ as ◌++ₛ◌}
use text.Mathlib.Text.{◌==◌ as str_eq}
use fitz_destroyer.Common.{ℕ, ◌-◌, Option, none, some, List, [], ◌∷◌, ◌++◌, if◌then◌else◌}
use fitz_destroyer.Config.Parsing.{RunConfig}
use fitz_destroyer.Scenario.Failure.{Thrown, error_object}
use fitz_destroyer.Scenario.Calls.{
  World, Run, Attempt, ◌then◌, load, verify, chaos_fault_recovery_complete, chaos_complete, event,
  run_recovery_job, graceful_restart_fitz, discard_fitz_cache_and_restart, run_notice_fanout,
  run_rpc_pressure, run_connection_storm, run_pressure_scenario, run_of_module, start_clients,
  replace_clients, kill_one_client_and_restore, wait_for_all_client_domains, kill_fitz,
  restart_fitz, kill_sqrzl_and_restore, stop_clients, sleep, went_on, thrown, perform, now,
}

-- What `executeWorkload` calls for a scenario: `pressure` is the imported `runPressureScenario`, to
-- which the scenario's name is given, and `of_module` another module's function by its name.
pub data Routine : Type 0 where
  clean_restart cache_loss notice_fanout rpc_pressure connection_storm pressure chaos : Routine
  of_module : (function : String) → Routine

-- The tests of `executeWorkload`, in their order.
abbrev pub routines : List (String × Routine)
routines =
    ("clean-restart", clean_restart)
    ∷ ("cache-loss", cache_loss)
    ∷ ("durability-crash-cuts", of_module "runDurabilityCrashCutsScenario")
    ∷ ("queue-overload-recovery", of_module "runQueueOverloadRecoveryScenario")
    ∷ ("response-loss", of_module "runResponseLossScenario")
    ∷ ("active-graceful-shutdown", of_module "runActiveGracefulShutdownScenario")
    ∷ ("half-open-session", of_module "runHalfOpenSessionScenario")
    ∷ ("authorization-isolation", of_module "runAuthorizationIsolationScenario")
    ∷ ("stream-global-recovery", of_module "runStreamGlobalRecoveryScenario")
    ∷ ("queue-dead-letter-fencing", of_module "runQueueDeadLetterFencingScenario")
    ∷ ("cold-boot-provider-outage", of_module "runColdBootProviderOutageScenario")
    ∷ ("hostile-rpc-worker", of_module "runHostileRpcWorkerScenario")
    ∷ ("upgrade-recovery", of_module "runUpgradeRecoveryScenario")
    ∷ ("cross-transport-recovery", of_module "runCrossTransportRecoveryScenario")
    ∷ ("outbound-blackhole", of_module "runOutboundBlackholeScenario")
    ∷ ("broker-pause", of_module "runBrokerPauseScenario")
    ∷ ("route-cardinality-churn", of_module "runRouteCardinalityChurnScenario")
    ∷ ("cache-and-disk-exhaustion", of_module "runCacheAndDiskExhaustionScenario")
    ∷ ("notice-fanout", notice_fanout)
    ∷ ("queue-redelivery", of_module "runQueueRedeliveryScenario")
    ∷ ("lease-contention", of_module "runLeaseContentionScenario")
    ∷ ("hot-route-canary", of_module "runHotRouteCanaryScenario")
    ∷ ("protocol-abuse", of_module "runProtocolAbuseScenario")
    ∷ ("schedule-delivery", of_module "runScheduleDelivery")
    ∷ ("session-boundaries", of_module "runSessionBoundariesScenario")
    ∷ ("rpc-pressure", rpc_pressure)
    ∷ ("rpc-stream-hose", of_module "runRpcStreamHose")
    ∷ ("connection-storm", connection_storm)
    ∷ ("domain-pressure", pressure)
    ∷ ("soak", pressure)
    ∷ ("storage-faults", of_module "runStorageFaultsScenario")
    ∷ ("queue-lifecycle", of_module "runQueueLifecycleScenario")
    ∷ ("transaction-contention", of_module "runTransactionContentionScenario")
    ∷ ("stream-replay", of_module "runStreamReplayScenario")
    ∷ ("schedule-outage", of_module "runScheduleOutageScenario")
    ∷ ("live-churn", of_module "runLiveChurnScenario")
    ∷ ("chaos", chaos)
    ∷ ("lease-route-aliasing", of_module "runLeaseRouteAliasingScenario")
    ∷ ("tcp-preauth-framing-slowloris", of_module "runTcpPreauthFramingSlowlorisScenario")
    ∷ ("connect-pipeline-family-rebind", of_module "runConnectPipelineFamilyRebindScenario")
    ∷ ("ephemeral-reply-loss-cleanup", of_module "runEphemeralReplyLossCleanupScenario")
    ∷ ("saturated-slow-recipient-isolation", of_module "runSaturatedSlowRecipientIsolationScenario")
    ∷ ("shutdown-reconnect-cleanup-storm", of_module "runShutdownReconnectCleanupStormScenario")
    ∷ (
      "control-lane-cleanup-under-saturation",
      of_module "runControlLaneCleanupUnderSaturationScenario",
    )
    ∷ ("route-family-isolation-matrix", of_module "runRouteFamilyIsolationMatrixScenario")
    ∷ ("rpc-response-state-conformance", of_module "runRpcResponseStateConformanceScenario")
    ∷ ("response-envelope-boundaries", of_module "runResponseEnvelopeBoundariesScenario")
    ∷ ("lease-waiter-disconnect-races", of_module "runLeaseWaiterDisconnectRacesScenario")
    ∷ (
      "wildcard-registration-quota-reclamation",
      of_module "runWildcardRegistrationQuotaReclamationScenario",
    )
    ∷ ("stream-selector-cursor-conformance", of_module "runStreamSelectorCursorConformanceScenario")
    ∷ ("schedule-due-storm-isolation", of_module "runScheduleDueStormIsolationScenario")
    ∷ ("same-shard-family-fairness", of_module "runSameShardFamilyFairnessScenario")
    ∷ ("actor-supervision-failpoint", of_module "runActorSupervisionFailpointScenario")
    ∷ (
      "family-actor-partial-failure-isolation",
      of_module "runFamilyActorPartialFailureIsolationScenario",
    )
    ∷ (
      "same-shard-family-failure-isolation",
      of_module "runSameShardFamilyFailureIsolationScenario",
    )
    ∷ ("family-actor-exhaustion-readiness", of_module "runFamilyActorExhaustionReadinessScenario")
    ∷ (
      "family-actor-degradation-observability",
      of_module "runFamilyActorDegradationObservabilityScenario",
    )
    ∷ (
      "family-actor-inflight-concurrent-failure",
      of_module "runFamilyActorInflightConcurrentFailureScenario",
    )
    ∷ []

unfoldable pub routine_of : String → List (String × Routine) → Option Routine
routine_of scenario [] = none
routine_of scenario ((name, routine) ∷ rest) =
    if str_eq scenario name then some routine else routine_of scenario rest

abbrev pub not_implemented : String → Thrown
not_implemented scenario = error_object "Error" ("Scenario " ++ₛ scenario ++ₛ " is not implemented")

module _ (world : World) where
  unfoldable pub record_chaos_recovery : String → (started_at : ℕ) → Run → Attempt
  unfolding perform
  record_chaos_recovery fault started_at r =
      let ms : ℕ = now world r - started_at in
      perform world (event (chaos_fault_recovery_complete fault ms)) r then λ r'.
      went_on (record r' { recoveries = r'.recoveries ++ ((fault, ms) ∷ []) })

  -- `freshProgressMarker`, and the wait for progress since then.
  unfoldable pub wait_for_fresh_progress : (replicas : ℕ) → Run → Attempt
  unfolding perform
  wait_for_fresh_progress replicas r = perform world (sleep 1_100) r then λ r'.
      perform world (wait_for_all_client_domains (now world r') replicas) r'

  unfoldable pub settle : RunConfig → Run → Attempt
  unfolding perform
  settle config r =
      perform world (start_clients config.client_replicas) r
      then perform world (wait_for_all_client_domains (now world r) config.client_replicas)
      then perform world (sleep config.phase_ms)

  unfoldable pub kill_broker : RunConfig → Run → Attempt
  unfolding perform wait_for_fresh_progress record_chaos_recovery
  kill_broker config r =
      perform world kill_fitz r
      then perform world restart_fitz
      then perform world (start_clients config.client_replicas)
      then wait_for_fresh_progress config.client_replicas
      then record_chaos_recovery "fitz-sigkill" (now world r)
      then perform world (sleep config.phase_ms)

  unfoldable pub kill_client : RunConfig → Run → Attempt
  unfolding perform wait_for_fresh_progress record_chaos_recovery
  kill_client config r =
      perform world (kill_one_client_and_restore config.client_replicas) r
      then wait_for_fresh_progress config.client_replicas
      then record_chaos_recovery "client-sigkill" (now world r)
      then perform world (sleep config.phase_ms)

  unfoldable pub kill_provider : RunConfig → Run → Attempt
  unfolding perform wait_for_fresh_progress record_chaos_recovery
  kill_provider config r =
      perform world kill_sqrzl_and_restore r
      then perform world (replace_clients config.client_replicas)
      then wait_for_fresh_progress config.client_replicas
      then record_chaos_recovery "sqrzl-sigkill" (now world r)

  unfoldable pub run_chaos : RunConfig → Run → Attempt
  unfolding settle kill_broker kill_client kill_provider perform
  run_chaos config r =
      settle config (record r { recoveries = [] })
      then kill_broker config
      then kill_client config
      then kill_provider config
      then perform world stop_clients
      then λ r'. perform world (event (chaos_complete r'.recoveries)) r'

  unfoldable pub run_routine : RunConfig → String → Routine → Run → Attempt
  unfolding perform run_chaos
  run_routine config scenario clean_restart r =
      perform world (run_recovery_job load) r
      then perform world graceful_restart_fitz
      then perform world (run_recovery_job verify)
      then perform world graceful_restart_fitz
      then perform world (run_recovery_job verify)
  run_routine config scenario cache_loss r =
      perform world (run_recovery_job load) r
      then perform world discard_fitz_cache_and_restart
      then perform world (run_recovery_job verify)
      then perform world graceful_restart_fitz
      then perform world (run_recovery_job verify)
  run_routine config scenario notice_fanout r = perform world run_notice_fanout r
  run_routine config scenario rpc_pressure r = perform world run_rpc_pressure r
  run_routine config scenario connection_storm r = perform world run_connection_storm r
  run_routine config scenario pressure r = perform world (run_pressure_scenario scenario) r
  run_routine config scenario chaos r = run_chaos config r
  run_routine config scenario (of_module function) r = perform world (run_of_module function) r

  unfoldable pub execute_chosen : RunConfig → String → Option Routine → Run → Attempt
  unfolding run_routine
  execute_chosen config scenario none r = thrown (not_implemented scenario) r
  execute_chosen config scenario (some routine) r = run_routine config scenario routine r

  unfoldable pub execute_workload : RunConfig → String → Run → Attempt
  unfolding execute_chosen routine_of
  execute_workload config scenario r =
      execute_chosen config scenario (routine_of scenario routines) r

-- ===== src/Guidance/RecoveryConfigs.antt =====
-- src/operational-guidance-completion.ts: the first entries of `CONFIGS`.
use Prim.Native.String.{String}
use fitz_destroyer.Common.{List, [], ◌∷◌}
use fitz_destroyer.Guidance.CompletionConfig.{CompletionConfig, ends_with, recovers_by}

abbrev pub recovery_configs : List (String × CompletionConfig)
recovery_configs =
    (
      "queue-overload-recovery",
      ends_with "queue_overload_recovery_complete" (
          ("attempted", "Queue attempts")
          ∷ ("failed", "Bounded failures")
          ∷ ("recovered", "Recovered records")
          ∷ ("probeCompleted", "Post-overload probe completions")
          ∷ []),
    )
    ∷ (
      "response-loss",
      ends_with "response_loss_complete" (
          ("attempted", "Durable attempts")
          ∷ ("observedAfterDrop", "Reconciled ambiguous outcomes")
          ∷ []),
    )
    ∷ (
      "active-graceful-shutdown",
      ends_with "active_graceful_shutdown_complete" (
          ("durableOperationsStarted", "Durable operations started")
          ∷ ("rpcCallsInterrupted", "RPC calls interrupted")
          ∷ ("probeFrames", "Post-shutdown probe frames")
          ∷ []),
    )
    ∷ (
      "half-open-session",
      ends_with "half_open_session_complete" (
          ("staleRejections", "Stale-handle rejections")
          ∷ ("queueRedelivered", "Queue redeliveries")
          ∷ ("leaseReacquired", "Lease reacquisitions")
          ∷ []),
    )
    ∷ (
      "authorization-isolation",
      ends_with "authorization_isolation_complete" (
          ("identities", "Isolated identities")
          ∷ ("ownRouteOperations", "Own-route operations")
          ∷ ("deniedOperations", "Denied cross-realm operations")
          ∷ []),
    )
    ∷ (
      "stream-global-recovery",
      ends_with "stream_global_recovery_complete" (
          ("loaded", "Loaded global records")
          ∷ ("recovered", "Recovered global records")
          ∷ ("pages", "Replay pages")
          ∷ []),
    )
    ∷ (
      "queue-dead-letter-fencing",
      ends_with "queue_dead_letter_fencing_complete" (
          ("oversizedRejected", "Undeliverable bodies rejected")
          ∷ ("staleCompletionRejected", "Stale completions rejected")
          ∷ ("redelivered", "Records redelivered")
          ∷ ("completed", "Records completed")
          ∷ []),
    )
    ∷ (
      "cold-boot-provider-outage",
      recovers_by "recoveryMs" (
          ends_with "cold_boot_provider_outage_complete" (
            ("readinessChecks", "Outage readiness checks")
            ∷ ("readyResponsesDuringOutage", "Incorrect ready responses")
            ∷ [])),
    )
    ∷ (
      "hostile-rpc-worker",
      ends_with "hostile_rpc_worker_complete" (
          ("returnWithoutTerminalFailures", "Missing-terminal timeouts")
          ∷ ("returnWithoutTerminalFrames", "Missing-terminal frames")
          ∷ ("thrownHandlerFailures", "Thrown-handler caller failures")
          ∷ ("thrownHandlerFrames", "Thrown-handler terminal frames")
          ∷ ("probeFrames", "Healthy probe frames")
          ∷ []),
    )
    ∷ (
      "upgrade-recovery",
      recovers_by "replacementMs" (
          ends_with "upgrade_recovery_complete" (
            ("loaded", "Pre-replacement records") ∷ ("verified", "Post-replacement records") ∷ [])),
    )
    ∷ (
      "cross-transport-recovery",
      ends_with "cross_transport_recovery_complete" (
          ("websocketToTcpVerified", "WebSocket to TCP records")
          ∷ ("tcpToWebsocketVerified", "TCP to WebSocket records")
          ∷ []),
    )
    ∷ (
      "outbound-blackhole",
      ends_with "outbound_blackhole_complete" (
          ("staleRejections", "Stale-handle rejections")
          ∷ ("queueRedelivered", "Queue redeliveries")
          ∷ ("leaseReacquired", "Lease reacquisitions")
          ∷ []),
    )
    ∷ (
      "broker-pause",
      ends_with "broker_pause_complete" (
          ("staleRejections", "Stale-handle rejections")
          ∷ ("queueRedelivered", "Queue redeliveries")
          ∷ ("leaseReacquired", "Lease reacquisitions")
          ∷ []),
    )
    ∷ (
      "route-cardinality-churn",
      ends_with "route_cardinality_churn_scenario_complete" (
          ("routes", "Unique route operations")
          ∷ ("recoveryProbeOperations", "Recovery probe operations")
          ∷ []),
    )
    ∷ (
      "cache-and-disk-exhaustion",
      ends_with "cache_and_disk_exhaustion_complete" (
          ("rejectedMutations", "Exhaustion rejections")
          ∷ ("verified", "Recovered baseline records")
          ∷ []),
    )
    ∷ (
      "lease-route-aliasing",
      ends_with "lease_route_aliasing_complete" (
          ("operations", "Trailing-route operations")
          ∷ ("rejected", "Rejected trailing routes")
          ∷ ("canonicalPreserved", "Canonical leases preserved")
          ∷ []),
    )
    ∷ (
      "tcp-preauth-framing-slowloris",
      ends_with "tcp_preauth_framing_slowloris_complete" (
          ("socketsOpened", "Pre-auth sockets opened")
          ∷ ("socketsClosed", "Pre-auth sockets closed")
          ∷ ("secondWaveAdmitted", "Second-wave admissions")
          ∷ ("tcpCanary", "TCP canaries")
          ∷ ("websocketCanary", "WebSocket canaries")
          ∷ []),
    )
    ∷ (
      "connect-pipeline-family-rebind",
      ends_with "connect_pipeline_family_rebind_complete" (
          ("transports", "Combined-frame transports")
          ∷ ("accepted", "Atomically accepted pipelines")
          ∷ ("rejected", "Atomically rejected pipelines")
          ∷ []),
    )
    ∷ []

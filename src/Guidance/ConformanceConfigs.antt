-- ===== src/Guidance/ConformanceConfigs.antt =====
-- src/operational-guidance-completion.ts: the last entries of `CONFIGS`.
use Prim.Native.String.{String}
use fitz_destroyer.Common.{List, [], ◌∷◌}
use fitz_destroyer.Guidance.CompletionConfig.{CompletionConfig, ends_with, measures}

abbrev pub conformance_configs : List (String × CompletionConfig)
conformance_configs =
    (
      "ephemeral-reply-loss-cleanup",
      ends_with "ephemeral_reply_loss_cleanup_complete" (
          ("lostReplies", "Lost setup replies")
          ∷ ("queueRedelivered", "Queue reservations recovered")
          ∷ ("kvTransactions", "KV transactions recovered")
          ∷ ("streamSessions", "Stream sessions recovered")
          ∷ ("noticeDeliveries", "Notice subscriptions recovered")
          ∷ ("scheduleSubscriptions", "Schedule subscriptions recovered")
          ∷ ("leaseRoutesReacquired", "Lease routes reacquired")
          ∷ ("rpcCallsCompleted", "RPC workers recovered")
          ∷ []),
    )
    ∷ (
      "saturated-slow-recipient-isolation",
      measures (("bytesPublished", "Notice bytes published") ∷ []) (
          ends_with "saturated_slow_recipient_isolation_complete" (
            ("published", "Notice publications")
            ∷ ("received", "Healthy deliveries")
            ∷ ("siblingCanaryDomains", "Sibling canary domains")
            ∷ [])),
    )
    ∷ (
      "shutdown-reconnect-cleanup-storm",
      ends_with "shutdown_reconnect_cleanup_storm_complete" (
          ("cycles", "Shutdown cycles")
          ∷ ("reconnects", "Client reconnects")
          ∷ ("staleHandleRejections", "Stale handles rejected")
          ∷ []),
    )
    ∷ (
      "control-lane-cleanup-under-saturation",
      ends_with "control_lane_cleanup_under_saturation_complete" (
          ("targets", "Cleanup targets")
          ∷ ("canaryOperationsPerDomain", "Canary operations per domain")
          ∷ []),
    )
    ∷ (
      "route-family-isolation-matrix",
      ends_with "route_family_isolation_matrix_complete" (
          ("identities", "Route families")
          ∷ ("domains", "Isolated domains")
          ∷ ("holderDomainChecks", "Holder domain checks")
          ∷ ("probeDomainChecks", "Probe domain checks")
          ∷ ("crossFamilyDeliveries", "Cross-family deliveries")
          ∷ []),
    )
    ∷ (
      "rpc-response-state-conformance",
      ends_with "rpc_response_state_conformance_complete" (
          ("cases", "Response-state cases")
          ∷ ("callersTerminated", "Callers terminated")
          ∷ ("healthyCalls", "Healthy follow-up calls")
          ∷ ("healthyFailures", "Healthy follow-up failures")
          ∷ []),
    )
    ∷ (
      "response-envelope-boundaries",
      ends_with "response_envelope_boundaries_complete" (
          ("domains", "Boundary domains")
          ∷ ("exactFit", "Exact-fit responses")
          ∷ ("oneOverRejected", "One-over rejections")
          ∷ ("boundedAggregates", "Bounded aggregate responses")
          ∷ ("canaryOperations", "Canary operations")
          ∷ []),
    )
    ∷ (
      "lease-waiter-disconnect-races",
      ends_with "lease_waiter_disconnect_races_complete" (
          ("rounds", "Race rounds")
          ∷ ("waitersQueued", "Waiters queued")
          ∷ ("waitersDisconnected", "Waiters disconnected")
          ∷ ("replacementAcquisitions", "Replacement acquisitions")
          ∷ ("ghostAcquisitions", "Ghost acquisitions")
          ∷ ("fencingRegressions", "Fencing regressions")
          ∷ []),
    )
    ∷ (
      "wildcard-registration-quota-reclamation",
      ends_with "wildcard_registration_quota_reclamation_complete" (
          ("domains", "Quota domains")
          ∷ ("registrations", "Registrations")
          ∷ ("limitRejections", "Limit rejections")
          ∷ ("unsubscribeReclaims", "Unsubscribe reclaims")
          ∷ ("disconnectReclaims", "Disconnect reclaims")
          ∷ ("canaryFailures", "Canary failures")
          ∷ []),
    )
    ∷ (
      "stream-selector-cursor-conformance",
      ends_with "stream_selector_cursor_conformance_complete" (
          ("selectors", "Selector shapes")
          ∷ ("recordsWritten", "Records written")
          ∷ ("visibleRecords", "Visible records")
          ∷ ("filteredOffsets", "Filtered offsets")
          ∷ ("cursorAdvances", "Cursor advances")
          ∷ ("reconnectContinuations", "Reconnect continuations")
          ∷ ("duplicateRecords", "Duplicate records")
          ∷ ("missingRecords", "Missing records")
          ∷ []),
    )
    ∷ (
      "schedule-due-storm-isolation",
      ends_with "schedule_due_storm_isolation_complete" (
          ("definitionsCreated", "Due definitions")
          ∷ ("deliveries", "Exact deliveries")
          ∷ ("canariesAttempted", "Sibling canaries attempted")
          ∷ ("canariesCompleted", "Sibling canaries completed")
          ∷ ("readinessChecks", "Readiness checks")
          ∷ ("postStormCanaries", "Post-storm canaries")
          ∷ []),
    )
    ∷ (
      "same-shard-family-fairness",
      ends_with "same_shard_family_fairness_complete" (
          ("noisyCompleted", "Noisy-family operations")
          ∷ ("canariesAttempted", "Sibling canaries attempted")
          ∷ ("canariesCompleted", "Sibling canaries completed")
          ∷ ("canaryErrors", "Sibling canary errors")
          ∷ []),
    )
    ∷ (
      "actor-supervision-failpoint",
      ends_with "actor_supervision_failpoint_complete" (
          ("domainsInjected", "Single-domain actor failpoints")
          ∷ ("correlatedDomainsInjected", "Correlated domain actor failpoints")
          ∷ ("activeFaultClients", "Active-fault clients")
          ∷ ("activeFaultErrors", "Completed active-fault errors")
          ∷ ("readinessWithdrawals", "Readiness withdrawals")
          ∷ ("restartsRecovered", "Recovered restarts")
          ∷ ("canaryDeliveries", "Post-restart Notice deliveries")
          ∷ ("queueRecovered", "Post-restart Queue completions")
          ∷ ("kvRecovered", "Post-restart KV canaries")
          ∷ ("leaseRecovered", "Post-restart Lease canaries")
          ∷ ("scheduleRecovered", "Post-restart Schedule canaries")
          ∷ ("streamRecovered", "Post-restart Stream canaries")
          ∷ ("rpcRecovered", "Post-restart RPC canaries")
          ∷ ("correlatedRecoveryOperations", "Post-correlated-failure domain canaries")
          ∷ []),
    )
    ∷ (
      "family-actor-partial-failure-isolation",
      ends_with "family_actor_partial_failure_isolation_complete" (
          ("targetedFamilies", "Targeted family failures")
          ∷ ("failedFamilyRejections", "Failed-family rejections")
          ∷ ("siblingOperations", "Sibling operations")
          ∷ ("readinessChecks", "Healthy readiness checks")
          ∷ ("crossFamilyDeliveries", "Cross-family deliveries")
          ∷ []),
    )
    ∷ (
      "same-shard-family-failure-isolation",
      ends_with "same_shard_family_failure_isolation_complete" (
          ("shardCount", "Configured shards")
          ∷ ("failedFamily", "Failed family")
          ∷ ("siblingFamily", "Same-shard sibling family")
          ∷ ("failedFamilyRejections", "Failed-family rejections")
          ∷ ("siblingOperations", "Sibling operations")
          ∷ ("readinessChecks", "Healthy readiness checks")
          ∷ ("crossFamilyDeliveries", "Cross-family deliveries")
          ∷ []),
    )
    ∷ (
      "family-actor-exhaustion-readiness",
      ends_with "family_actor_exhaustion_readiness_complete" (
          ("domainsExhausted", "Exhausted domain pools")
          ∷ ("partialReadinessChecks", "Healthy partial-failure checks")
          ∷ ("totalReadinessWithdrawals", "Zero-capacity readiness withdrawals")
          ∷ ("failedFamilyRejections", "Failed-family rejections")
          ∷ ("restartRecoveries", "Restart recoveries")
          ∷ []),
    )
    ∷ (
      "family-actor-degradation-observability",
      ends_with "family_actor_degradation_observability_complete" (
          ("domainsObserved", "Observed degraded domains")
          ∷ ("metricIncrements", "Failure metric increments")
          ∷ ("duplicateMetricIncrements", "Duplicate metric increments")
          ∷ ("siblingCanaries", "Healthy sibling canaries")
          ∷ ("readinessChecks", "Healthy readiness checks")
          ∷ ("restartMetricResets", "Restart metric resets")
          ∷ []),
    )
    ∷ (
      "family-actor-inflight-concurrent-failure",
      ends_with "family_actor_inflight_concurrent_failure_complete" (
          ("cycles", "Failure cycles")
          ∷ ("concurrentFailures", "Concurrent family failures")
          ∷ ("streamInflightRejections", "Stream in-flight rejections")
          ∷ ("rpcInflightTerminations", "RPC in-flight terminations")
          ∷ ("siblingOperations", "Healthy sibling operations")
          ∷ ("readinessChecks", "Healthy readiness checks")
          ∷ ("metricIncrements", "Failure metric increments")
          ∷ ("restartRecoveries", "Restart recoveries")
          ∷ ("crossFamilyDeliveries", "Cross-family deliveries")
          ∷ []),
    )
    ∷ []

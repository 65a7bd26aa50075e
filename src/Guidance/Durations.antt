-- ===== src/Guidance/Durations.antt =====
-- src/operational-guidance.ts: `fallbackScenarioDuration`.
use Prim.Native.String.{String}
use text.Mathlib.Text.{◌==◌ as str_eq}
use fitz_destroyer.Common.{ℕ, Option, none, some, List, [], ◌∷◌, if◌then◌else◌}
use fitz_destroyer.Logs.{Log}
use fitz_destroyer.Guidance.Readings.{Platform, last_event, event_duration}

-- `names`
abbrev pub completion_events : List (String × String)
completion_events =
    ("durability-crash-cuts", "durability_crash_cuts_complete")
    ∷ ("queue-overload-recovery", "queue_overload_recovery_complete")
    ∷ ("response-loss", "response_loss_complete")
    ∷ ("active-graceful-shutdown", "active_graceful_shutdown_complete")
    ∷ ("half-open-session", "half_open_session_complete")
    ∷ ("authorization-isolation", "authorization_isolation_complete")
    ∷ ("stream-global-recovery", "stream_global_recovery_complete")
    ∷ ("queue-dead-letter-fencing", "queue_dead_letter_fencing_complete")
    ∷ ("cold-boot-provider-outage", "cold_boot_provider_outage_complete")
    ∷ ("hostile-rpc-worker", "hostile_rpc_worker_complete")
    ∷ ("upgrade-recovery", "upgrade_recovery_complete")
    ∷ ("cross-transport-recovery", "cross_transport_recovery_complete")
    ∷ ("outbound-blackhole", "outbound_blackhole_complete")
    ∷ ("broker-pause", "broker_pause_complete")
    ∷ ("route-cardinality-churn", "route_cardinality_churn_scenario_complete")
    ∷ ("cache-and-disk-exhaustion", "cache_and_disk_exhaustion_complete")
    ∷ ("queue-redelivery", "queue_redelivery_complete")
    ∷ ("lease-contention", "lease_contention_complete")
    ∷ ("hot-route-canary", "hot_route_canary_complete")
    ∷ ("protocol-abuse", "protocol_abuse_scenario_complete")
    ∷ ("notice-fanout", "notice_fanout_complete")
    ∷ ("schedule-delivery", "schedule_delivery_complete")
    ∷ ("session-boundaries", "session_boundaries_complete")
    ∷ ("rpc-pressure", "rpc_pressure_complete")
    ∷ ("rpc-stream-hose", "rpc_stream_hose_complete")
    ∷ ("connection-storm", "connection_storm_complete")
    ∷ ("storage-faults", "storage_faults_complete")
    ∷ ("queue-lifecycle", "queue_lifecycle_complete")
    ∷ ("schedule-outage", "schedule_outage_complete")
    ∷ ("transaction-contention", "transaction_contention_complete")
    ∷ ("stream-replay", "stream_replay_complete")
    ∷ ("live-churn", "live_churn_complete")
    ∷ ("lease-route-aliasing", "lease_route_aliasing_complete")
    ∷ ("tcp-preauth-framing-slowloris", "tcp_preauth_framing_slowloris_complete")
    ∷ ("connect-pipeline-family-rebind", "connect_pipeline_family_rebind_complete")
    ∷ ("ephemeral-reply-loss-cleanup", "ephemeral_reply_loss_cleanup_complete")
    ∷ ("saturated-slow-recipient-isolation", "saturated_slow_recipient_isolation_complete")
    ∷ ("shutdown-reconnect-cleanup-storm", "shutdown_reconnect_cleanup_storm_complete")
    ∷ ("control-lane-cleanup-under-saturation", "control_lane_cleanup_under_saturation_complete")
    ∷ ("route-family-isolation-matrix", "route_family_isolation_matrix_complete")
    ∷ ("rpc-response-state-conformance", "rpc_response_state_conformance_complete")
    ∷ ("response-envelope-boundaries", "response_envelope_boundaries_complete")
    ∷ ("lease-waiter-disconnect-races", "lease_waiter_disconnect_races_complete")
    ∷ (
      "wildcard-registration-quota-reclamation", "wildcard_registration_quota_reclamation_complete",
    )
    ∷ ("stream-selector-cursor-conformance", "stream_selector_cursor_conformance_complete")
    ∷ ("schedule-due-storm-isolation", "schedule_due_storm_isolation_complete")
    ∷ ("same-shard-family-fairness", "same_shard_family_fairness_complete")
    ∷ ("actor-supervision-failpoint", "actor_supervision_failpoint_complete")
    ∷ ("family-actor-partial-failure-isolation", "family_actor_partial_failure_isolation_complete")
    ∷ ("same-shard-family-failure-isolation", "same_shard_family_failure_isolation_complete")
    ∷ ("family-actor-exhaustion-readiness", "family_actor_exhaustion_readiness_complete")
    ∷ ("family-actor-degradation-observability", "family_actor_degradation_observability_complete")
    ∷ (
      "family-actor-inflight-concurrent-failure",
      "family_actor_inflight_concurrent_failure_complete",
    )
    ∷ ("chaos", "chaos_complete")
    ∷ ("domain-pressure", "pressure_complete")
    ∷ ("soak", "pressure_complete")
    ∷ []

unfoldable pub completion_event : String → List (String × String) → Option String
completion_event scenario [] = none
completion_event scenario ((name, event) ∷ rest) =
    if str_eq scenario name then some event else completion_event scenario rest

module _ (platform : Platform) where
  abbrev pub duration_of : Option String → Log → Option ℕ
  duration_of none events = none
  duration_of (some name) events = event_duration platform (last_event events name)

  unfoldable pub fallback_scenario_duration : String → Log → Option ℕ
  unfolding completion_event last_event event_duration
  fallback_scenario_duration scenario events =
      duration_of (completion_event scenario completion_events) events

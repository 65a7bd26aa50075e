-- ===== src/Guidance/Backed.antt =====
-- src/operational-guidance.ts: every rate that a scenario reports comes with its count.
mod Steps
use Prim.Native.String.{String, ◌++◌ as ◌++ₛ◌}
use fitz_destroyer.Common.{
  ℕ, suc, ◌*◌, false, Option, none, some, List, [], ◌∷◌, Result, Yields, of_ok, then-Yields,
  >>=-Yields,
}
use fitz_destroyer.Logs.{Fields, Log, Json}
use fitz_destroyer.Guidance.Readings.{
  GuidanceError, Platform, number_field, string_field, in_order, entries, record_field,
  non_negative_number, events_named, array_field, present, required_last_event, natural?,
  valid_duration,
}
use fitz_destroyer.Guidance.Texts.{decimal}
use fitz_destroyer.Guidance.Metrics.{Metrics, add_count_and_rate}
use fitz_destroyer.Guidance.Restarts.{
  for_events, sum_of, observed_length, add_restarts, readiness_events, add_readiness,
  add_restart_metrics, add_canaries, add_canary_latencies,
}
use fitz_destroyer.Guidance.Faults.{
  in_mode, add_jobs, sum_present, recovery_scenario_metrics, add_iteration, crash_cut_metrics,
  session_boundary_metrics, add_fault, chaos_metrics, add_storage_iteration, storage_fault_metrics,
  schedule_outage_metrics, add_phase, add_phases, live_churn_metrics,
}
use fitz_destroyer.Guidance.Traffic.{
  queue_redelivery_metrics, lease_contention_metrics, hot_route_metrics, protocol_metrics,
  notice_metrics, schedule_delivery_metrics, rpc_pressure_metrics,
}
use fitz_destroyer.Guidance.Lifecycles.{
  find_success, add_stream_fault, rpc_stream_metrics, add_wave, connection_storm_metrics,
  queue_lifecycle_metrics, transaction_contention_metrics, stream_replay_metrics,
}
use fitz_destroyer.Guidance.Soundness.{
  IsSound, sound_rules, empty_metrics-IsSound, add_latency-IsSound, add_recovery-IsSound,
  add_count_and_rate-IsSound,
}
use fitz_destroyer.Guidance.Backed.Steps.{
  KeepsSound, yield_rules, for_events-KeepsSound, add_restarts-KeepsSound, add_readiness-KeepsSound,
  add_restart_metrics-KeepsSound, add_canaries-KeepsSound, add_canary_latencies-KeepsSound,
  add_phases-KeepsSound, add_jobs-IsSound,
}

module _ (platform : Platform) where
  pub recovery_scenario_metrics-Yields :
      (events : Log) → Yields IsSound (recovery_scenario_metrics platform events)
  unfolding recovery_scenario_metrics
  recovery_scenario_metrics-Yields events = add_restart_metrics-KeepsSound events _ (
      add_jobs-IsSound platform "verify" "Verify entries" "durable entries read and verified"
        (in_mode "verify" jobs)
        (add_jobs-IsSound platform "load" "Load entries" "durable operations accepted by the client"
          (in_mode "load" jobs) empty_metrics-IsSound))
    where
      jobs : Log
      jobs = events_named "client_job_complete" events

  pub queue_redelivery_metrics-Yields :
      (events : Log) → Yields IsSound (queue_redelivery_metrics platform events)
  unfolding queue_redelivery_metrics
  queue_redelivery_metrics-Yields events = search (yield_rules) depth 14

  pub lease_contention_metrics-Yields :
      (events : Log) → Yields IsSound (lease_contention_metrics platform events)
  unfolding lease_contention_metrics
  lease_contention_metrics-Yields events = search (yield_rules) depth 14

  pub notice_metrics-Yields : (events : Log) → Yields IsSound (notice_metrics platform events)
  unfolding notice_metrics
  notice_metrics-Yields events = search (yield_rules) depth 14

  pub schedule_delivery_metrics-Yields :
      (events : Log) → Yields IsSound (schedule_delivery_metrics platform events)
  unfolding schedule_delivery_metrics
  schedule_delivery_metrics-Yields events = search (yield_rules) depth 14

  pub rpc_pressure_metrics-Yields :
      (events : Log) → Yields IsSound (rpc_pressure_metrics platform events)
  unfolding rpc_pressure_metrics
  rpc_pressure_metrics-Yields events = search (yield_rules) depth 14

  pub queue_lifecycle_metrics-Yields :
      (events : Log) → Yields IsSound (queue_lifecycle_metrics platform events)
  unfolding queue_lifecycle_metrics
  queue_lifecycle_metrics-Yields events = search (yield_rules) depth 14

  pub transaction_contention_metrics-Yields :
      (events : Log) → Yields IsSound (transaction_contention_metrics platform events)
  unfolding transaction_contention_metrics
  transaction_contention_metrics-Yields events = search (yield_rules) depth 14

  pub stream_replay_metrics-Yields :
      (events : Log) → Yields IsSound (stream_replay_metrics platform events)
  unfolding stream_replay_metrics
  stream_replay_metrics-Yields events = search (yield_rules) depth 14

  pub session_boundary_metrics-Yields :
      (events : Log) → Yields IsSound (session_boundary_metrics platform events)
  unfolding session_boundary_metrics
  session_boundary_metrics-Yields events =
      search (yield_rules, add_restart_metrics-KeepsSound) depth 14

  pub schedule_outage_metrics-Yields :
      (events : Log) → Yields IsSound (schedule_outage_metrics platform events)
  unfolding schedule_outage_metrics
  schedule_outage_metrics-Yields events =
      search (yield_rules, add_restart_metrics-KeepsSound) depth 14

  pub live_churn_metrics-Yields :
      (events : Log) → Yields IsSound (live_churn_metrics platform events)
  unfolding live_churn_metrics
  live_churn_metrics-Yields events = search (yield_rules, add_phases-KeepsSound) depth 14

  pub hot_route_metrics-Yields :
      (events : Log) (duration : Option ℕ)
      → Yields IsSound (hot_route_metrics platform events duration)
  unfolding hot_route_metrics
  hot_route_metrics-Yields events duration =
      search (yield_rules, add_canary_latencies-KeepsSound) depth 14

  pub protocol_metrics-Yields :
      (events : Log) (duration : Option ℕ)
      → Yields IsSound (protocol_metrics platform events duration)
  unfolding protocol_metrics
  protocol_metrics-Yields events duration =
      search (yield_rules, add_canary_latencies-KeepsSound) depth 14

  add_fault-KeepsSound : (e : Fields) → KeepsSound (add_fault platform e)
  unfolding add_fault
  add_fault-KeepsSound e m h = search (yield_rules, h) depth 12

  pub chaos_metrics-Yields : (events : Log) → Yields IsSound (chaos_metrics platform events)
  unfolding chaos_metrics
  chaos_metrics-Yields events =
      search (yield_rules, for_events-KeepsSound, add_fault-KeepsSound) depth 14

  add_storage_iteration-KeepsSound : (e : Fields) → KeepsSound (add_storage_iteration platform e)
  unfolding add_storage_iteration
  add_storage_iteration-KeepsSound e m h = search (yield_rules, h) depth 12

  pub storage_fault_metrics-Yields :
      (events : Log) → Yields IsSound (storage_fault_metrics platform events)
  unfolding storage_fault_metrics
  storage_fault_metrics-Yields events =
      search (yield_rules, for_events-KeepsSound, add_storage_iteration-KeepsSound) depth 14

  add_wave-KeepsSound : (e : Fields) → KeepsSound (add_wave platform e)
  unfolding add_wave
  add_wave-KeepsSound e m h = search (yield_rules, h) depth 12

  pub connection_storm_metrics-Yields :
      (events : Log) → Yields IsSound (connection_storm_metrics platform events)
  unfolding connection_storm_metrics
  connection_storm_metrics-Yields events =
      search (yield_rules, for_events-KeepsSound, add_wave-KeepsSound) depth 14

  add_iteration-KeepsSound : (e : Fields) → KeepsSound (add_iteration platform e)
  unfolding add_iteration
  add_iteration-KeepsSound e m h = search (yield_rules, h) depth 12

  add_stream_fault-KeepsSound : (e : Fields) → KeepsSound (add_stream_fault platform e)
  unfolding add_stream_fault
  add_stream_fault-KeepsSound e m h = search (yield_rules, h) depth 12

  pub crash_cut_metrics-Yields : (events : Log) → Yields IsSound (crash_cut_metrics platform events)
  unfolding crash_cut_metrics
  crash_cut_metrics-Yields events =
      >>=-Yields (required_last_event events "durability_crash_cuts_complete") λ complete _.
        >>=-Yields (array_field complete "iterations") λ iterations _.
          >>=-Yields (record_field complete "domains") λ domains _.
            >>=-Yields (sum_of (observed_length "durability domain") (entries domains)) λ n _.
              then-Yields
                (for_events-KeepsSound (add_iteration platform)
                  (events_named "durability_crash_cut_iteration_complete" events)
                  add_iteration-KeepsSound _ (search sound_rules))
                (add_restart_metrics-KeepsSound events)

  pub rpc_stream_metrics-Yields :
      (events : Log) → Yields IsSound (rpc_stream_metrics platform events)
  unfolding rpc_stream_metrics
  rpc_stream_metrics-Yields events =
      >>=-Yields (required_last_event events "rpc_stream_hose_complete") λ complete _.
        >>=-Yields (present (find_success events) "rpc_stream_success_phase_complete") λ success _.
          >>=-Yields (number_field success "elapsedMs") λ ms _.
            >>=-Yields (number_field success "completed") λ calls _.
              >>=-Yields (number_field success "responseFrames") λ frames _.
                >>=-Yields (number_field success "responseBytes") λ bytes _.
                  then-Yields
                    (for_events-KeepsSound (add_stream_fault platform)
                      (events_named "rpc_stream_fault_phase_complete" events)
                      add_stream_fault-KeepsSound _ (search sound_rules))
                    λ m h. search (yield_rules, h) depth 8

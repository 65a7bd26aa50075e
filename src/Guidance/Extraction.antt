-- ===== src/Guidance/Extraction.antt =====
-- src/operational-guidance.ts: `extractOperationalGuidance` and `extractScenarioMetrics`.
use Prim.Native.String.{String}
use text.Mathlib.Text.{◌==◌ as str_eq}
use fitz_destroyer.Common.{
  ℕ, ◌+◌, Bool, ◌||◌, Option, none, some, List, [], ◌∷◌, length, ltb, if◌then◌else◌, Result, ok,
  err,
}
use fitz_destroyer.Logs.{Json, Log, get_field, is_text}
use fitz_destroyer.Guidance.Readings.{
  GuidanceError, Platform, last_event, event_duration, valid_duration,
}
use fitz_destroyer.Guidance.Metrics.{Metrics, empty_metrics}
use fitz_destroyer.Guidance.Faults.{
  recovery_scenario_metrics, crash_cut_metrics, session_boundary_metrics, chaos_metrics,
  storage_fault_metrics, schedule_outage_metrics, live_churn_metrics,
}
use fitz_destroyer.Guidance.Traffic.{
  or_else, queue_redelivery_metrics, lease_contention_metrics, hot_route_metrics, protocol_metrics,
  notice_metrics, schedule_delivery_metrics, rpc_pressure_metrics,
}
use fitz_destroyer.Guidance.Lifecycles.{
  rpc_stream_metrics, connection_storm_metrics, queue_lifecycle_metrics,
  transaction_contention_metrics, stream_replay_metrics,
}
use fitz_destroyer.Guidance.Completion.{completion_metrics_for_scenario}
use fitz_destroyer.Guidance.Durations.{fallback_scenario_duration}
use fitz_destroyer.Guidance.Rating.{
  not_rated, Reason, not_pressure, no_evidence, unavailable, pressure_unavailable,
}
use fitz_destroyer.Guidance.EventsFile.{EventsFile, read_events}
use fitz_destroyer.Guidance.PressureGuidance.{
  OperationalGuidance, empty_guidance, extract_pressure_guidance,
}

-- `pressure-evidence.json`: its value, or why there is none.
abbrev pub PressureFile : Type 0
PressureFile = Result String Json

-- `events.slice(Math.max(0, events.findIndex(...)))`: the events from the workload's start on.
abbrev pub from_start : (all : Log) → Log → Log
from_start all [] = all
from_start all (e ∷ rest) =
    if is_text (get_field e "event") "workload_started" then e ∷ rest else from_start all rest

abbrev pub reason_or : Option Reason → Reason → Reason
reason_or (some reason) other = reason
reason_or none other = other

abbrev pub metric_count : Metrics → ℕ
metric_count m =
    length m.counts + length m.rates + length m.latencies + length m.bandwidth + length m.recoveries

abbrev pub is_pressure : String → Bool
is_pressure scenario = str_eq scenario "domain-pressure" || str_eq scenario "soak"

module _ (platform : Platform) where
  -- The tests of `extractScenarioMetrics` after the scenarios that end with one event.
  abbrev pub extractors : List (String × (Log → Option ℕ → Result GuidanceError Metrics))
  extractors =
      ("clean-restart", λ events duration. recovery_scenario_metrics platform events)
      ∷ ("cache-loss", λ events duration. recovery_scenario_metrics platform events)
      ∷ ("durability-crash-cuts", λ events duration. crash_cut_metrics platform events)
      ∷ ("queue-redelivery", λ events duration. queue_redelivery_metrics platform events)
      ∷ ("lease-contention", λ events duration. lease_contention_metrics platform events)
      ∷ ("hot-route-canary", λ events duration. hot_route_metrics platform events duration)
      ∷ ("protocol-abuse", λ events duration. protocol_metrics platform events duration)
      ∷ ("notice-fanout", λ events duration. notice_metrics platform events)
      ∷ ("schedule-delivery", λ events duration. schedule_delivery_metrics platform events)
      ∷ ("session-boundaries", λ events duration. session_boundary_metrics platform events)
      ∷ ("rpc-pressure", λ events duration. rpc_pressure_metrics platform events)
      ∷ ("rpc-stream-hose", λ events duration. rpc_stream_metrics platform events)
      ∷ ("connection-storm", λ events duration. connection_storm_metrics platform events)
      ∷ ("chaos", λ events duration. chaos_metrics platform events)
      ∷ ("storage-faults", λ events duration. storage_fault_metrics platform events)
      ∷ ("queue-lifecycle", λ events duration. queue_lifecycle_metrics platform events)
      ∷ ("schedule-outage", λ events duration. schedule_outage_metrics platform events)
      ∷ (
        "transaction-contention",
        λ events duration. transaction_contention_metrics platform events,
      )
      ∷ ("stream-replay", λ events duration. stream_replay_metrics platform events)
      ∷ ("live-churn", λ events duration. live_churn_metrics platform events)
      ∷ []

  unfoldable pub extract_by :
      List (String × (Log → Option ℕ → Result GuidanceError Metrics))
      → String
      → Log
      → Option ℕ
      → Result GuidanceError Metrics
  extract_by [] scenario events duration = ok empty_metrics
  extract_by ((name, extract) ∷ rest) scenario events duration =
      if str_eq scenario name
      then extract events duration
      else extract_by rest scenario events duration

  abbrev pub metrics_or :
      Option (Result GuidanceError Metrics)
      → Result GuidanceError Metrics
      → Result GuidanceError Metrics
  metrics_or (some metrics) other = metrics
  metrics_or none other = other

  unfoldable pub extract_scenario_metrics : String → Log → Option ℕ → Result GuidanceError Metrics
  unfolding completion_metrics_for_scenario extract_by
  extract_scenario_metrics scenario events duration =
      metrics_or (completion_metrics_for_scenario platform scenario events)
        (extract_by extractors scenario events duration)

  unfoldable pub guidance_of :
      Option ℕ → Option Reason → Result GuidanceError Metrics → OperationalGuidance
  guidance_of duration reason (err e) = empty_guidance duration (reason_or reason (unavailable e))
  guidance_of duration reason (ok m) = record {
    workload_duration = duration;
    metrics = m;
    rating = not_rated;
    reasons = (if ltb 0 (metric_count m) then not_pressure else reason_or reason no_evidence) ∷ [];
    pressure_domains = [];
  }

  unfoldable pub pressure_guidance_of : Option ℕ → PressureFile → OperationalGuidance
  unfolding extract_pressure_guidance
  pressure_guidance_of duration (err message) =
      empty_guidance duration (pressure_unavailable message)
  pressure_guidance_of duration (ok value) =
      elim (extract_pressure_guidance platform value duration) [
        | ok guidance ↦ guidance
        | err e ↦ empty_guidance duration (unavailable e)
      ]

  unfoldable pub workload_duration_of : String → Option Json → Log → Option ℕ
  unfolding last_event event_duration fallback_scenario_duration
  workload_duration_of scenario summary events = or_else (valid_duration platform summary) (
      or_else (event_duration platform (last_event events "workload_complete"))
        (fallback_scenario_duration platform scenario events))

  unfoldable pub extract_operational_guidance :
      EventsFile → PressureFile → String → (summary : Option Json) → OperationalGuidance
  unfolding read_events workload_duration_of pressure_guidance_of guidance_of
      extract_scenario_metrics
  extract_operational_guidance file pressure scenario summary =
      let (events, reason) = read_events file in
      let duration = workload_duration_of scenario summary events in
      if is_pressure scenario
      then pressure_guidance_of duration pressure
      else guidance_of duration reason
          (extract_scenario_metrics scenario (from_start events events) duration)

-- ===== src/Guidance/Traffic.antt =====
-- src/operational-guidance.ts: the metrics of the scenarios that load the broker.
use Prim.Native.String.{String}
use fitz_destroyer.Common.{ℕ, ◌+◌, ◌*◌, Option, none, some, Result, ok, ◌>>=◌}
use fitz_destroyer.Logs.{Log, Json}
use fitz_destroyer.Guidance.Readings.{
  GuidanceError, Platform, number_field, record_field, record_value, entries, required_last_event,
  event_duration,
}
use fitz_destroyer.Guidance.Metrics.{
  Metrics, empty_metrics, greatest, add_count, add_count_and_rate, add_bandwidth, add_latency,
  add_recovery, ◌|>◌,
}
use fitz_destroyer.Guidance.Restarts.{sum_of, add_canary_latencies}

-- `eventDuration(complete) ?? duration`
abbrev pub or_else : Option ℕ → Option ℕ → Option ℕ
or_else (some t) duration = some t
or_else none duration = duration

unfoldable pub total_of : String → String × Json → Result GuidanceError ℕ
unfolding number_field
total_of name entry = record_value (some entry.1) "hot route total" >>= λ r. number_field r name

module _ (platform : Platform) where
  unfoldable pub queue_redelivery_metrics : Log → Result GuidanceError Metrics
  unfolding required_last_event number_field event_duration add_count add_count_and_rate
      add_recovery
  queue_redelivery_metrics events = do
    complete ← required_last_event events "queue_redelivery_complete"
    produced ← number_field complete "produced"
    recovered ← number_field complete "recovered"
    ok (
        empty_metrics
        |> add_count "produced" "Acknowledged enqueues" produced "records"
            "acknowledged Queue enqueues"
        |> add_count_and_rate "recovered" "Recovered records" recovered "records"
            "records completed after redelivery" (event_duration platform (some complete))
        |> add_recovery "redelivery" "Reservation loss to complete drain"
            (event_duration platform (some complete)))

  unfoldable pub lease_contention_metrics : Log → Result GuidanceError Metrics
  unfolding required_last_event number_field event_duration add_count add_count_and_rate
      add_recovery
  lease_contention_metrics events = do
    complete ← required_last_event events "lease_contention_complete"
    admissions ← number_field complete "contenderAdmissions"
    ok (
        empty_metrics
        |> add_count_and_rate "contender-admissions" "Contender admissions" admissions "admissions"
            "completed fenced Lease critical sections" (event_duration platform (some complete))
        |> add_count "post-loss-admissions" "Post-owner-loss admissions" 1 "admissions"
            "waiter admission after owner loss"
        |> add_recovery "owner-loss" "Contention and owner-loss recovery"
            (event_duration platform (some complete)))

  unfoldable pub hot_route_metrics : Log → Option ℕ → Result GuidanceError Metrics
  unfolding required_last_event record_field total_of event_duration add_count add_count_and_rate
      add_canary_latencies
  hot_route_metrics events duration = do
    complete ← required_last_event events "hot_route_canary_complete"
    totals ← record_field complete "hotTotals"
    successes ← sum_of (total_of "success") (entries totals)
    errors ← sum_of (total_of "error") (entries totals)
    add_canary_latencies platform complete (
        empty_metrics
        |> add_count_and_rate "hot-route-successes" "Hot-route successes" successes "operations"
            "successful operations on shared hot routes"
            (or_else (event_duration platform (some complete)) duration)
        |> add_count "hot-route-errors" "Hot-route errors" errors "errors"
            "recorded hot-route operation errors")

  unfoldable pub protocol_metrics : Log → Option ℕ → Result GuidanceError Metrics
  unfolding required_last_event number_field event_duration add_count_and_rate add_canary_latencies
  protocol_metrics events duration = do
    complete ← required_last_event events "protocol_abuse_scenario_complete"
    attacks ← number_field complete "attacks"
    add_canary_latencies platform complete (
        empty_metrics
        |> add_count_and_rate "protocol-cases" "Protocol cases" attacks "cases"
            "completed adversarial protocol cases"
            (or_else (event_duration platform (some complete)) duration))

  unfoldable pub notice_metrics : Log → Result GuidanceError Metrics
  unfolding required_last_event number_field event_duration add_count_and_rate add_bandwidth
  notice_metrics events = do
    complete ← required_last_event events "notice_fanout_complete"
    started ← required_last_event events "notice_fanout_started"
    publications ← number_field complete "publications"
    deliveries ← number_field complete "deliveries"
    payload_bytes ← number_field started "payloadBytes"
    ok (
        empty_metrics
        |> add_count_and_rate "publications" "Publications" publications "publications"
            "publisher acceptance, not confirmed fanout" (event_duration platform (some complete))
        |> add_count_and_rate "deliveries" "Verified deliveries" deliveries "deliveries"
            "verified while-connected subscriber deliveries"
            (event_duration platform (some complete))
        |> add_bandwidth "delivery-bandwidth" "Verified payload delivery bandwidth"
            (deliveries * payload_bytes) (event_duration platform (some complete))
            "verified while-connected subscriber deliveries")

  unfoldable pub schedule_delivery_metrics : Log → Result GuidanceError Metrics
  unfolding required_last_event number_field event_duration add_count add_count_and_rate
  schedule_delivery_metrics events = do
    complete ← required_last_event events "schedule_delivery_complete"
    broadcast ← number_field complete "broadcastDeliveries"
    single ← number_field complete "singleDeliveries"
    lateness ← number_field complete "maxLatenessMs"
    ok (
        empty_metrics
        |> add_count_and_rate "schedule-deliveries" "Schedule deliveries" (broadcast + single)
            "deliveries" "verified live Schedule handoffs" (event_duration platform (some complete))
        |> add_count "broadcast-deliveries" "Broadcast deliveries" broadcast "deliveries"
            "verified broadcast handoffs"
        |> add_count "single-deliveries" "Single deliveries" single "deliveries"
            "verified single handoffs"
        |> add_latency "maximum-lateness" "Maximum delivery lateness" greatest (lateness * 100))

  unfoldable pub rpc_pressure_metrics : Log → Result GuidanceError Metrics
  unfolding required_last_event number_field event_duration add_count_and_rate add_bandwidth
  rpc_pressure_metrics events = do
    complete ← required_last_event events "rpc_pressure_complete"
    started ← required_last_event events "rpc_pressure_started"
    calls ← number_field complete "calls"
    frames ← number_field complete "responseFrames"
    payload_bytes ← number_field started "payloadBytes"
    ok (
        empty_metrics
        |> add_count_and_rate "rpc-calls" "RPC calls" calls "calls"
            "completed RPC calls with ordered responses" (event_duration platform (some complete))
        |> add_count_and_rate "rpc-frames" "RPC response frames" frames "frames"
            "verified ordered RPC response frames" (event_duration platform (some complete))
        |> add_bandwidth "rpc-response-bandwidth" "RPC response payload bandwidth"
            (frames * payload_bytes) (event_duration platform (some complete))
            "verified RPC response payloads")

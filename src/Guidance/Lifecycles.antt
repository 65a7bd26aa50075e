-- ===== src/Guidance/Lifecycles.antt =====
-- src/operational-guidance.ts: the metrics of the scenarios that stream, reconnect, contend or replay.
use Prim.Native.String.{◌++◌ as ◌++ₛ◌}
use text.Mathlib.Text.{starts_with}
use fitz_destroyer.Common.{
  ◌+◌, ◌*◌, Bool, false, ◌&&◌, Option, none, some, [], ◌∷◌, if◌then◌else◌, Result, ok, ◌>>=◌,
}
use fitz_destroyer.Logs.{Fields, Log, Json, string, get_field, is_text}
use fitz_destroyer.Guidance.Readings.{
  GuidanceError, Platform, number_field, string_field, events_named, required_last_event,
  event_duration, present,
}
use fitz_destroyer.Guidance.Texts.{decimal, spaced}
use fitz_destroyer.Guidance.Metrics.{
  Metrics, empty_metrics, add_count, add_count_and_rate, add_bandwidth, add_recovery, ◌|>◌,
}
use fitz_destroyer.Guidance.Restarts.{for_events, sum_of}

-- `typeof runLabel === "string" && runLabel.startsWith("connection-storm-wave-")`
abbrev pub is_wave : Option Json → Bool
is_wave (some (string label)) = starts_with label "connection-storm-wave-"
is_wave value = false

abbrev pub in_waves : Log → Log
in_waves [] = []
in_waves (e ∷ rest) = if is_wave (get_field e "runLabel") then e ∷ in_waves rest else in_waves rest

-- The first success phase of the full stream.
unfoldable pub find_success : Log → Option Fields
unfolding get_field
find_success [] = none
find_success (e ∷ rest) =
    if is_text (get_field e "event") "rpc_stream_success_phase_complete"
      && is_text (get_field e "label") "rpc-stream-full"
    then some e
    else find_success rest

module _ (platform : Platform) where
  unfoldable pub add_stream_fault : Fields → Metrics → Result GuidanceError Metrics
  unfolding string_field spaced add_recovery event_duration
  add_stream_fault e m = do
    label ← string_field e "label"
    ok (m |> add_recovery label (spaced label) (event_duration platform (some e)))

  unfoldable pub rpc_stream_metrics : Log → Result GuidanceError Metrics
  unfolding required_last_event find_success number_field add_count_and_rate add_bandwidth
      add_recovery add_stream_fault events_named
  rpc_stream_metrics events = do
    complete ← required_last_event events "rpc_stream_hose_complete"
    success ← present (find_success events) "rpc_stream_success_phase_complete"
    ms ← number_field success "elapsedMs"
    calls ← number_field success "completed"
    frames ← number_field success "responseFrames"
    bytes ← number_field success "responseBytes"
    m ← for_events add_stream_fault (events_named "rpc_stream_fault_phase_complete" events) (
        empty_metrics
        |> add_count_and_rate "streaming-calls" "Streaming RPC calls" calls "calls"
            "completed streaming RPC calls" (some (ms * 100))
        |> add_count_and_rate "streaming-frames" "Streaming response frames" frames "frames"
            "verified streaming RPC response frames" (some (ms * 100))
        |> add_bandwidth "streaming-bandwidth" "Verified response bandwidth" bytes (some (ms * 100))
            "verified streaming RPC response bytes")
    elapsed ← number_field complete "elapsedMs"
    ok (
        m
        |> add_recovery "scenario" "Streaming workload and destructive phases"
            (some (elapsed * 100)))

  unfoldable pub add_wave : Fields → Metrics → Result GuidanceError Metrics
  unfolding number_field decimal add_recovery event_duration
  add_wave e m = do
    wave ← number_field e "wave"
    ok (
        m
        |> add_recovery ("wave-" ++ₛ decimal wave) ("Connection wave " ++ₛ decimal wave)
            (event_duration platform (some e)))

  unfoldable pub connection_storm_metrics : Log → Result GuidanceError Metrics
  unfolding required_last_event number_field event_duration add_count_and_rate events_named add_wave
      get_field
  connection_storm_metrics events = do
    complete ← required_last_event events "connection_storm_complete"
    started ← required_last_event events "connection_storm_started"
    lifecycles ← number_field started "totalConnectionLifecycles"
    deliveries ←
        sum_of (λ e. number_field e "deliveries")
          (in_waves (events_named "notice_fanout_complete" events))
    calls ←
        sum_of (λ e. number_field e "calls")
          (in_waves (events_named "rpc_pressure_complete" events))
    for_events add_wave (events_named "connection_storm_wave_complete" events) (
        empty_metrics
        |> add_count_and_rate "connection-lifecycles" "Connection lifecycles" lifecycles
            "connections" "completed client connection lifecycles"
            (event_duration platform (some complete))
        |> add_count_and_rate "notice-deliveries" "Notice deliveries" deliveries "deliveries"
            "verified while-connected Notice deliveries" (event_duration platform (some complete))
        |> add_count_and_rate "rpc-calls" "RPC calls" calls "calls" "completed RPC calls"
            (event_duration platform (some complete)))

  unfoldable pub queue_lifecycle_metrics : Log → Result GuidanceError Metrics
  unfolding required_last_event number_field event_duration add_count add_count_and_rate
      add_recovery
  queue_lifecycle_metrics events = do
    complete ← required_last_event events "queue_lifecycle_complete"
    operations ← number_field complete "operations"
    ok (
        empty_metrics
        |> add_count_and_rate "drained-records" "Completed Queue records" operations "records"
            "records completed across partial completion and redelivery"
            (event_duration platform (some complete))
        |> add_count "abandoned-records" "Abandoned reservations" 1 "records"
            "reservations deliberately abandoned before redelivery"
        |> add_recovery "queue-lifecycle" "Queue lifecycle completion and recovery"
            (event_duration platform (some complete)))

  unfoldable pub transaction_contention_metrics : Log → Result GuidanceError Metrics
  unfolding required_last_event number_field event_duration add_count add_count_and_rate
      add_recovery
  transaction_contention_metrics events = do
    complete ← required_last_event events "transaction_contention_complete"
    conflicts ← number_field complete "conflicts"
    ok (
        empty_metrics
        |> add_count_and_rate "transaction-outcomes" "Contention outcomes" (1 + conflicts)
            "outcomes" "one committed KV winner plus rejected conflicts"
            (event_duration platform (some complete))
        |> add_count "commits" "Committed winners" 1 "transactions" "verified committed KV winners"
        |> add_count "conflicts" "Rejected conflicts" conflicts "transactions"
            "verified conflicting KV commits rejected"
        |> add_recovery "transaction-contention" "Contention and killed-transaction cleanup"
            (event_duration platform (some complete)))

  unfoldable pub stream_replay_metrics : Log → Result GuidanceError Metrics
  unfolding required_last_event number_field event_duration add_count add_count_and_rate
      add_bandwidth
  stream_replay_metrics events = do
    complete ← required_last_event events "stream_replay_complete"
    records ← number_field complete "records"
    pages ← number_field complete "pages"
    bytes ← number_field complete "boundaryBytes"
    ok (
        empty_metrics
        |> add_count_and_rate "replayed-records" "Replayed records" records "records"
            "records read and verified through paged replay"
            (event_duration platform (some complete))
        |> add_count "replay-pages" "Replay pages" pages "pages" "verified replay pages"
        |> add_bandwidth "boundary-bandwidth" "Boundary response bandwidth" bytes
            (event_duration platform (some complete)) "verified boundary response bytes")

-- ===== src/Guidance/Faults.antt =====
-- src/operational-guidance.ts: the metrics of the scenarios that restart, kill or starve the stack.
use Prim.Native.String.{String, ◌++◌ as ◌++ₛ◌}
use fitz_destroyer.Common.{
  ℕ, ◌+◌, Option, none, some, List, [], ◌∷◌, if◌then◌else◌, length, Result, ok, ◌>>=◌,
}
use fitz_destroyer.Logs.{Fields, Log, Json, get_field, is_text}
use fitz_destroyer.Guidance.Readings.{
  GuidanceError, Platform, number_field, string_field, events_named, record_field, record_value,
  array_field, entries, required_last_event, event_duration, valid_duration, natural?,
}
use fitz_destroyer.Guidance.Texts.{decimal, spaced}
use fitz_destroyer.Guidance.Metrics.{
  Metrics, empty_metrics, add_count, add_count_and_rate, add_recovery, ◌|>◌,
}
use fitz_destroyer.Guidance.Restarts.{for_events, sum_of, observed_length, add_restart_metrics}

abbrev pub in_mode : String → Log → Log
in_mode mode [] = []
in_mode mode (e ∷ rest) =
    if is_text (get_field e "mode") mode then e ∷ in_mode mode rest else in_mode mode rest

-- The sum of a field's values, if every event has one.
abbrev pub sum_present : (Option Json → Option ℕ) → String → Log → Option ℕ
sum_present read name [] = some 0
sum_present read name (e ∷ rest) = add (read (get_field e name)) (sum_present read name rest)
  where
    add : Option ℕ → Option ℕ → Option ℕ
    add (some a) (some b) = some (a + b)
    add a b = none

module _ (platform : Platform) where
  -- The body of the loop over the modes.
  unfoldable pub add_jobs : (mode label semantics : String) → Log → Metrics → Metrics
  unfolding get_field add_count_and_rate
  add_jobs mode label semantics [] m = m
  add_jobs mode label semantics (job ∷ jobs) m =
      elim (sum_present natural? "entries" (job ∷ jobs)) [
        | none ↦ m
        | some n ↦
            add_count_and_rate (mode ++ₛ "-entries") label n "entries" semantics
              (sum_present (valid_duration platform) "workerElapsedMs" (job ∷ jobs)) m
      ]

  unfoldable pub recovery_scenario_metrics : Log → Result GuidanceError Metrics
  unfolding events_named add_jobs add_restart_metrics
  recovery_scenario_metrics events =
      let jobs = events_named "client_job_complete" events in
      add_restart_metrics events (
        empty_metrics
        |> add_jobs "load" "Load entries" "durable operations accepted by the client"
            (in_mode "load" jobs)
        |> add_jobs "verify" "Verify entries" "durable entries read and verified"
            (in_mode "verify" jobs))

  unfoldable pub add_iteration : Fields → Metrics → Result GuidanceError Metrics
  unfolding number_field decimal add_recovery event_duration
  add_iteration e m = do
    iteration ← number_field e "iteration"
    ok (
        m
        |> add_recovery ("iteration-" ++ₛ decimal iteration)
            ("Crash-cut iteration " ++ₛ decimal iteration) (event_duration platform (some e)))

  unfoldable pub crash_cut_metrics : Log → Result GuidanceError Metrics
  unfolding required_last_event array_field record_field event_duration events_named
      add_count_and_rate observed_length add_iteration add_restart_metrics
  crash_cut_metrics events = do
    complete ← required_last_event events "durability_crash_cuts_complete"
    iterations ← array_field complete "iterations"
    domains ← record_field complete "domains"
    observed ← sum_of (observed_length "durability domain") (entries domains)
    m ← for_events add_iteration (events_named "durability_crash_cut_iteration_complete" events) (
        empty_metrics
        |> add_count_and_rate "fault-iterations" "Fault iterations" (length iterations) "iterations"
            "completed crash-cut iterations" (event_duration platform (some complete))
        |> add_count_and_rate "observed-records" "Observed durable records" observed "records"
            "records observed after broker recovery" (event_duration platform (some complete)))
    add_restart_metrics events m

  unfoldable pub session_boundary_metrics : Log → Result GuidanceError Metrics
  unfolding required_last_event number_field event_duration add_count add_recovery
      add_restart_metrics
  session_boundary_metrics events = do
    complete ← required_last_event events "session_boundaries_complete"
    rejections ← number_field complete "staleRejections"
    redelivered ← number_field complete "queueRedelivered"
    completed ← number_field complete "queueCompleted"
    reacquired ← number_field complete "leaseReacquired"
    add_restart_metrics events (
        empty_metrics
        |> add_count "staleRejections" "Stale-handle rejections" rejections "outcomes"
            "verified post-restart boundary outcomes"
        |> add_count "queueRedelivered" "Queue redeliveries" redelivered "outcomes"
            "verified post-restart boundary outcomes"
        |> add_count "queueCompleted" "Queue completions" completed "outcomes"
            "verified post-restart boundary outcomes"
        |> add_count "leaseReacquired" "Lease reacquisitions" reacquired "outcomes"
            "verified post-restart boundary outcomes"
        |> add_recovery "session-boundary" "Broker restart to boundary verification"
            (event_duration platform (some complete)))

  unfoldable pub add_fault : Fields → Metrics → Result GuidanceError Metrics
  unfolding string_field add_recovery event_duration
  add_fault e m = do
    fault ← string_field e "fault"
    ok (
        m
        |> add_recovery fault (fault ++ₛ " to fresh all-domain progress")
            (event_duration platform (some e)))

  unfoldable pub chaos_metrics : Log → Result GuidanceError Metrics
  unfolding required_last_event number_field event_duration add_count_and_rate events_named
      add_fault
  chaos_metrics events = do
    complete ← required_last_event events "chaos_complete"
    iterations ← number_field complete "iterations"
    for_events add_fault (events_named "chaos_fault_recovery_complete" events) (
        empty_metrics
        |> add_count_and_rate "fault-recoveries" "Fault recoveries" iterations "recoveries"
            "faults followed by fresh progress in every selected domain"
            (event_duration platform (some complete)))

  unfoldable pub add_storage_iteration : Fields → Metrics → Result GuidanceError Metrics
  unfolding number_field string_field decimal add_recovery event_duration
  add_storage_iteration e m = do
    iteration ← number_field e "iteration"
    fault ← string_field e "fault"
    ok (
        m
        |> add_recovery ("iteration-" ++ₛ decimal iteration)
            (fault ++ₛ " iteration " ++ₛ decimal iteration) (event_duration platform (some e)))

  unfoldable pub storage_fault_metrics : Log → Result GuidanceError Metrics
  unfolding required_last_event number_field record_field event_duration events_named
      add_count_and_rate observed_length add_storage_iteration
  storage_fault_metrics events = do
    complete ← required_last_event events "storage_faults_complete"
    iterations ← number_field complete "iterations"
    domains ← record_field complete "domains"
    observed ← sum_of (observed_length "storage domain") (entries domains)
    for_events add_storage_iteration (events_named "storage_fault_iteration_complete" events) (
        empty_metrics
        |> add_count_and_rate "fault-iterations" "Storage fault iterations" iterations "iterations"
            "completed storage-fault iterations" (event_duration platform (some complete))
        |> add_count_and_rate "observed-records" "Observed durable records" observed "records"
            "durable records observed after restored-provider verification"
            (event_duration platform (some complete)))

  unfoldable pub schedule_outage_metrics : Log → Result GuidanceError Metrics
  unfolding required_last_event number_field array_field event_duration add_count add_count_and_rate
      add_recovery add_restart_metrics
  schedule_outage_metrics events = do
    complete ← required_last_event events "schedule_outage_complete"
    repeated ← array_field complete "repeatedSequences"
    race ← array_field complete "raceSequences"
    missed ← number_field complete "missedDeliveries"
    add_restart_metrics events (
        empty_metrics
        |> add_count_and_rate "repeated-deliveries" "Repeated occurrences" (length repeated)
            "deliveries" "verified live delivery of the next repeated occurrence"
            (event_duration platform (some complete))
        |> add_count "race-deliveries" "Cancellation-race deliveries" (length race) "deliveries"
            "live handoffs accepted during cancellation races"
        |> add_count "missed-deliveries" "Missed-occurrence deliveries" missed "deliveries"
            "unexpected deliveries from the intentionally missed occurrence"
        |> add_recovery "schedule-outage" "Outage through repeated-occurrence verification"
            (event_duration platform (some complete)))

  unfoldable pub add_phase : Json → Metrics → Result GuidanceError Metrics
  unfolding string_field get_field add_recovery spaced
  add_phase value m = do
    phase ← record_value (some value) "live churn phase"
    name ← string_field phase "phase"
    ok (
        m
        |> add_recovery name (spaced name) (valid_duration platform (get_field phase "elapsedMs")))

  unfoldable pub add_phases : List Json → Metrics → Result GuidanceError Metrics
  unfolding add_phase
  add_phases [] m = ok m
  add_phases (value ∷ rest) m = add_phase value m >>= add_phases rest

  unfoldable pub live_churn_metrics : Log → Result GuidanceError Metrics
  unfolding required_last_event array_field event_duration add_count_and_rate add_phases
  live_churn_metrics events = do
    complete ← required_last_event events "live_churn_complete"
    phases ← array_field complete "phases"
    add_phases phases (
        empty_metrics
        |> add_count_and_rate "churn-phases" "Churn phases" (length phases) "phases"
            "completed live-domain churn and recovery phases"
            (event_duration platform (some complete)))

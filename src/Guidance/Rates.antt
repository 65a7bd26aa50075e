-- ===== src/Guidance/Rates.antt =====
-- src/operational-guidance.ts and src/operational-guidance-completion.ts: the metrics that are read from
-- a scenario's events are sound.
use Prim.Native.String.{String}
use text.Mathlib.Text.{◌==◌ as str_eq}
use text.Mathlib.TextEquality.{eq_iff}
use fitz_destroyer.Common.{
  ℕ, zero, suc, ◌≡◌, refl, Bool, true, false, inl, inr, Option, none, some, List, [], ◌∷◌, map, All,
  if◌then◌else◌, Result, ok, Yields, of_ok, >>=-Yields, Yields-ok, arith,
}
use fitz_destroyer.Logs.{Log, get_field}
use fitz_destroyer.Guidance.Readings.{GuidanceError, Platform, present, last_event, valid_duration}
use fitz_destroyer.Guidance.Metrics.{
  CompletionSemantics, CountMetric, RateMetric, Metrics, has_semantics,
}
use fitz_destroyer.Guidance.CompletionConfig.{CompletionConfig, config_of}
use fitz_destroyer.Guidance.Configs.{configs}
use fitz_destroyer.Guidance.Completion.{
  counts_of, rate_of, rates_of, scenario_recovery, recoveries_of, bandwidth_of, semantics_of,
  completion_metrics, chosen_metrics, completion_metrics_for_scenario,
}
use fitz_destroyer.Guidance.Extraction.{
  extractors, extract_by, metrics_or, extract_scenario_metrics,
}
use fitz_destroyer.Guidance.Soundness.{
  IsBacked, IsRateOf, IsExplained, IsSound, empty_metrics-IsSound,
}
use fitz_destroyer.Guidance.Backed.{
  chaos_metrics-Yields, connection_storm_metrics-Yields, crash_cut_metrics-Yields,
  hot_route_metrics-Yields, lease_contention_metrics-Yields, live_churn_metrics-Yields,
  notice_metrics-Yields, protocol_metrics-Yields, queue_lifecycle_metrics-Yields,
  queue_redelivery_metrics-Yields, recovery_scenario_metrics-Yields, rpc_pressure_metrics-Yields,
  rpc_stream_metrics-Yields, schedule_delivery_metrics-Yields, schedule_outage_metrics-Yields,
  session_boundary_metrics-Yields, storage_fault_metrics-Yields, stream_replay_metrics-Yields,
  transaction_contention_metrics-Yields,
}

map-rate_of-IsRateOf :
    (counts some_counts : List CountMetric) (d : ℕ)
    → ((r : RateMetric) → IsBacked some_counts r → IsBacked counts r)
    → All (IsRateOf counts) (map (rate_of (suc d)) some_counts)
map-rate_of-IsRateOf counts [] d k = tt
map-rate_of-IsRateOf counts (c ∷ cs) d k = (
  (k (rate_of (suc d) c) (inl (refl, refl, refl, refl)), omega arith, refl),
  map-rate_of-IsRateOf counts cs d (λ r h. k r (inr h)),
)

rates_of-IsRateOf :
    (duration : Option ℕ) (counts : List CountMetric)
    → All (IsRateOf counts) (rates_of duration counts)
unfolding rates_of
rates_of-IsRateOf none counts = tt
rates_of-IsRateOf (some zero) counts = tt
rates_of-IsRateOf (some (suc d)) counts = map-rate_of-IsRateOf counts counts d (λ r h. h)

map-semantics_of-IsExplained :
    (semantics : List CompletionSemantics) (cs : List CountMetric)
    → ((key : String)
        → has_semantics key (map semantics_of cs) ≡ true
        → has_semantics key semantics ≡ true)
    → All (IsExplained semantics) cs
map-semantics_of-IsExplained semantics [] k = tt
map-semantics_of-IsExplained semantics (c ∷ cs) k = (
  k c.key (ground (arith, (eq_iff c.key c.key).1 refl)),
  map-semantics_of-IsExplained semantics cs (λ key h. k key (ground (arith, h))),
)

completion_metrics-Yields :
    (platform : Platform) (config : CompletionConfig) (events : Log)
    → Yields IsSound (completion_metrics platform config events)
unfolding completion_metrics
completion_metrics-Yields platform config events =
    >>=-Yields (present (last_event events config.event) config.event) λ complete _.
      let duration : Option ℕ = valid_duration platform (get_field complete "elapsedMs") in
      >>=-Yields (counts_of complete config.fields) λ counts _.
        >>=-Yields (recoveries_of complete config.recovery_field (scenario_recovery duration))
          λ recoveries _.
            >>=-Yields (bandwidth_of complete duration config.bandwidth_fields) λ bandwidth _.
              of_ok (record {
                rates = rates_of-IsRateOf duration counts;
                counts = map-semantics_of-IsExplained (map semantics_of counts) counts (λ key h. h);
              })

-- A function that reads sound metrics, if any.
abbrev ReadsSound : (String × (Log → Option ℕ → Result GuidanceError Metrics)) → Type 0
ReadsSound entry = (events : Log) (duration : Option ℕ) → Yields IsSound (entry.1 events duration)

-- Each of a table's functions does.
infixr 5 ◌also◌
data Sounds : List (String × (Log → Option ℕ → Result GuidanceError Metrics)) → Type 0 where
  done : Sounds []
  ◌also◌ :
      {entry : String × (Log → Option ℕ → Result GuidanceError Metrics)}
      {table : List (String × (Log → Option ℕ → Result GuidanceError Metrics))}
      → ReadsSound entry
      → Sounds table
      → Sounds (entry ∷ table)

extract_by-Yields :
    (platform : Platform) (table : List (String × (Log → Option ℕ → Result GuidanceError Metrics)))
    (scenario : String) (events : Log) (duration : Option ℕ)
    → Sounds table
    → Yields IsSound (extract_by platform table scenario events duration)
unfolding extract_by
extract_by-Yields platform [] scenario events duration h = of_ok empty_metrics-IsSound
extract_by-Yields platform ((name, extract) ∷ rest) scenario events duration (k also h) =
    choose (extract_by-Yields platform rest scenario events duration h) (str_eq scenario name)
  where
    choose :
        Yields IsSound (extract_by platform rest scenario events duration)
        → (b : Bool)
        → Yields IsSound (
            if b
            then extract events duration
            else extract_by platform rest scenario events duration)
    choose later true = k events duration
    choose later false = later

extractors-Sounds : (platform : Platform) → Sounds (extractors platform)
extractors-Sounds platform =
    (λ events duration. recovery_scenario_metrics-Yields platform events)
    also (λ events duration. recovery_scenario_metrics-Yields platform events)
    also (λ events duration. crash_cut_metrics-Yields platform events)
    also (λ events duration. queue_redelivery_metrics-Yields platform events)
    also (λ events duration. lease_contention_metrics-Yields platform events)
    also hot_route_metrics-Yields platform
    also protocol_metrics-Yields platform
    also (λ events duration. notice_metrics-Yields platform events)
    also (λ events duration. schedule_delivery_metrics-Yields platform events)
    also (λ events duration. session_boundary_metrics-Yields platform events)
    also (λ events duration. rpc_pressure_metrics-Yields platform events)
    also (λ events duration. rpc_stream_metrics-Yields platform events)
    also (λ events duration. connection_storm_metrics-Yields platform events)
    also (λ events duration. chaos_metrics-Yields platform events)
    also (λ events duration. storage_fault_metrics-Yields platform events)
    also (λ events duration. queue_lifecycle_metrics-Yields platform events)
    also (λ events duration. schedule_outage_metrics-Yields platform events)
    also (λ events duration. transaction_contention_metrics-Yields platform events)
    also (λ events duration. stream_replay_metrics-Yields platform events)
    also (λ events duration. live_churn_metrics-Yields platform events)
    also done

extract_scenario_metrics-Yields :
    (platform : Platform) (scenario : String) (events : Log) (duration : Option ℕ)
    → Yields IsSound (extract_scenario_metrics platform scenario events duration)
unfolding extract_scenario_metrics completion_metrics_for_scenario
extract_scenario_metrics-Yields platform scenario events duration =
    choose (config_of scenario configs)
  where
    choose :
        (config : Option CompletionConfig)
        → Yields IsSound (
            metrics_or platform
              (chosen_metrics platform config events)
              (extract_by platform (extractors platform) scenario events duration))
    choose none =
        extract_by-Yields platform (extractors platform) scenario events duration
          (extractors-Sounds platform)
    choose (some config) = completion_metrics-Yields platform config events

-- Whatever a scenario's events say: when its metrics can be read, each rate has a count with its key,
-- its label, its value and its semantics, is over a time that is not zero, and is the quotient of the
-- two; and each count's key has its semantics listed.
pub extract_scenario_metrics-IsSound :
    (platform : Platform) (scenario : String) (events : Log) (duration : Option ℕ) {m : Metrics}
    → extract_scenario_metrics platform scenario events duration ≡ ok m
    → IsSound m
extract_scenario_metrics-IsSound platform scenario events duration h =
    Yields-ok (extract_scenario_metrics-Yields platform scenario events duration) h

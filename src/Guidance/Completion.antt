-- ===== src/Guidance/Completion.antt =====
-- src/operational-guidance-completion.ts: the metrics of the scenarios that end with one event.
use Prim.Native.String.{String, ◌++◌ as ◌++ₛ◌}
use fitz_destroyer.Common.{
  ℕ, zero, suc, ◌*◌, Option, none, some, List, [], ◌∷◌, ◌++◌, map, Result, ok, ◌>>=◌,
}
use fitz_destroyer.Logs.{Fields, Log, get_field}
use fitz_destroyer.Guidance.Readings.{
  GuidanceError, Platform, number_field, present, last_event, valid_duration,
}
use fitz_destroyer.Guidance.Metrics.{
  CompletionSemantics, CountMetric, RateMetric, BandwidthMetric, RecoveryMetric, Metrics,
  per_second,
}
use fitz_destroyer.Guidance.CompletionConfig.{CompletionConfig, config_of}
use fitz_destroyer.Guidance.Configs.{configs}

abbrev pub outcome_semantics : String
outcome_semantics = "verified fault and recovery outcomes"

abbrev pub outcome_count : (key label : String) → ℕ → CountMetric
outcome_count key label value = record {
  key = key;
  label = label;
  value = value;
  unit = "outcomes";
  completion_semantics = outcome_semantics;
}

abbrev pub outcome_bandwidth : (key label : String) → (bytes duration : ℕ) → BandwidthMetric
outcome_bandwidth key label bytes duration = record {
  key = key;
  label = label;
  bytes = bytes;
  duration = duration;
  bytes_per_second = per_second bytes duration;
  completion_semantics = outcome_semantics;
}

unfoldable pub counts_of : Fields → List (String × String) → Result GuidanceError (List CountMetric)
unfolding number_field
counts_of complete [] = ok []
counts_of complete ((key, label) ∷ rest) = do
  value ← number_field complete key
  counts ← counts_of complete rest
  ok (outcome_count key label value ∷ counts)

abbrev pub rate_of : ℕ → CountMetric → RateMetric
rate_of duration c = record {
  key = c.key;
  label = c.label;
  count = c.value;
  duration = duration;
  value_per_second = per_second c.value duration;
  unit = c.unit ++ₛ "/s";
  completion_semantics = c.completion_semantics;
}

unfoldable pub rates_of : Option ℕ → List CountMetric → List RateMetric
rates_of none counts = []
rates_of (some zero) counts = []
rates_of (some (suc d)) counts = map (rate_of (suc d)) counts

abbrev pub scenario_recovery : Option ℕ → List RecoveryMetric
scenario_recovery none = []
scenario_recovery (some duration) =
    record {
      key = "scenario-recovery";
      label = "Fault injection through recovery verification";
      duration = duration;
    }
    ∷ []

unfoldable pub recoveries_of :
    Fields → Option String → List RecoveryMetric → Result GuidanceError (List RecoveryMetric)
unfolding number_field
recoveries_of complete none recoveries = ok recoveries
recoveries_of complete (some name) recoveries = do
  ms ← number_field complete name
  ok (
      recoveries
      ++ (record {
        key = name;
        label = "Provider restoration to verified recovery";
        duration = ms * 100;
      }
          ∷ []))

-- The source does not ask whether the duration is zero here.
unfoldable pub bandwidth_of :
    Fields → Option ℕ → List (String × String) → Result GuidanceError (List BandwidthMetric)
unfolding number_field
bandwidth_of complete none fields = ok []
bandwidth_of complete (some duration) [] = ok []
bandwidth_of complete (some duration) ((key, label) ∷ rest) = do
  bytes ← number_field complete key
  bandwidth ← bandwidth_of complete (some duration) rest
  ok (outcome_bandwidth key label bytes duration ∷ bandwidth)

abbrev pub semantics_of : CountMetric → CompletionSemantics
semantics_of c = record { key = c.key; label = outcome_semantics }

module _ (platform : Platform) where
  unfoldable pub completion_metrics : CompletionConfig → Log → Result GuidanceError Metrics
  unfolding last_event get_field counts_of rates_of recoveries_of bandwidth_of
  completion_metrics config events = do
    complete ← present (last_event events config.event) config.event
    counts ← counts_of complete config.fields
    recoveries ←
        recoveries_of complete config.recovery_field
          (scenario_recovery (valid_duration platform (get_field complete "elapsedMs")))
    bandwidth ←
        bandwidth_of complete (valid_duration platform (get_field complete "elapsedMs"))
          config.bandwidth_fields
    ok (record {
      semantics = map semantics_of counts;
      counts = counts;
      rates = rates_of (valid_duration platform (get_field complete "elapsedMs")) counts;
      latencies = [];
      bandwidth = bandwidth;
      recoveries = recoveries;
    })

  -- `null` when the scenario has no configuration.
  abbrev pub chosen_metrics : Option CompletionConfig → Log → Option (Result GuidanceError Metrics)
  chosen_metrics none events = none
  chosen_metrics (some config) events = some (completion_metrics config events)

  unfoldable pub completion_metrics_for_scenario :
      String → Log → Option (Result GuidanceError Metrics)
  unfolding config_of completion_metrics
  completion_metrics_for_scenario scenario events =
      chosen_metrics (config_of scenario configs) events

-- ===== src/Guidance/Metrics.antt =====
-- src/operational-guidance.ts: the metrics and what adds to them.
use Prim.Native.String.{String, ◌++◌ as ◌++ₛ◌}
use text.Mathlib.Text.{◌==◌ as str_eq}
use fitz_destroyer.Common.{
  ℕ, zero, suc, ◌+◌, ◌*◌, ◌/◌, ◌^◌, Bool, false, ◌||◌, Option, none, some, List, [], ◌∷◌, ◌++◌,
  ◌==◌, if◌then◌else◌,
}

pub record CompletionSemantics : Type 0 where
  pub key : String
  pub label : String

pub record CountMetric : Type 0 where
  pub key : String
  pub label : String
  pub value : ℕ
  pub unit : String
  pub completion_semantics : String

-- A floating-point quotient, in hundredths: `Infinity` and `NaN` come of a division by zero.
pub data PerSecond : Type 0 where
  finite : ℕ → PerSecond
  infinite undefined : PerSecond

pub record RateMetric : Type 0 where
  pub key : String
  pub label : String
  pub count : ℕ
  pub duration : ℕ
  pub value_per_second : PerSecond
  pub unit : String
  pub completion_semantics : String

pub data Statistic : Type 0 where
  mean p50 p95 p99 greatest observed : Statistic

pub record LatencyMetric : Type 0 where
  pub key : String
  pub label : String
  pub statistic : Statistic
  pub value : ℕ

pub record BandwidthMetric : Type 0 where
  pub key : String
  pub label : String
  pub bytes : ℕ
  pub duration : ℕ
  pub bytes_per_second : PerSecond
  pub completion_semantics : String

pub record RecoveryMetric : Type 0 where
  pub key : String
  pub label : String
  pub duration : ℕ

pub record Metrics : Type 0 where
  pub semantics : List CompletionSemantics
  pub counts : List CountMetric
  pub rates : List RateMetric
  pub latencies : List LatencyMetric
  pub bandwidth : List BandwidthMetric
  pub recoveries : List RecoveryMetric

abbrev pub empty_metrics : Metrics
empty_metrics = record {
  semantics = [];
  counts = [];
  rates = [];
  latencies = [];
  bandwidth = [];
  recoveries = [];
}

-- `Math.round(x / seconds * 100) / 100`, halves upwards
abbrev pub per_second : (amount duration : ℕ) → PerSecond
per_second amount zero = if amount == 0 then undefined else infinite
per_second amount (suc d) = finite ((2 * amount * 10 ^ 7 + suc d) / (2 * suc d))

unfoldable pub observed_rate : (count duration : ℕ) → Option PerSecond
observed_rate count zero = none
observed_rate count (suc d) = some (per_second count (suc d))

-- A metric is added at the end of its list.
infixl 20 ◌|>◌
abbrev pub ◌|>◌ : Metrics → (Metrics → Metrics) → Metrics
m |> add = add m

abbrev pub has_semantics : String → List CompletionSemantics → Bool
has_semantics key [] = false
has_semantics key (s ∷ rest) = str_eq s.key key || has_semantics key rest

unfoldable pub add_count : (key label : String) → ℕ → (unit semantics : String) → Metrics → Metrics
add_count key label value unit semantics m = record m {
  counts =
      m.counts
      ++ (record {
        key = key;
        label = label;
        value = value;
        unit = unit;
        completion_semantics = semantics;
      }
          ∷ []);
  semantics =
      if has_semantics key m.semantics
      then m.semantics
      else m.semantics ++ (record { key = key; label = semantics } ∷ []);
}

abbrev pub add_rate :
    (key label : String) → ℕ → (unit semantics : String) → ℕ → Option PerSecond → Metrics → Metrics
add_rate key label value unit semantics duration none m = m
add_rate key label value unit semantics duration (some rate) m = record m {
  rates =
      m.rates
      ++ (record {
        key = key;
        label = label;
        count = value;
        duration = duration;
        value_per_second = rate;
        unit = unit ++ₛ "/s";
        completion_semantics = semantics;
      }
          ∷ []);
}

unfoldable pub add_count_and_rate :
    (key label : String) → ℕ → (unit semantics : String) → Option ℕ → Metrics → Metrics
unfolding add_count observed_rate
add_count_and_rate key label value unit semantics none m =
    add_count key label value unit semantics m
add_count_and_rate key label value unit semantics (some duration) m =
    add_rate key label value unit semantics duration (observed_rate value duration)
      (add_count key label value unit semantics m)

abbrev pub add_bytes : (key label : String) → ℕ → ℕ → Option PerSecond → String → Metrics → Metrics
add_bytes key label bytes duration none semantics m = m
add_bytes key label bytes duration (some rate) semantics m = record m {
  bandwidth =
      m.bandwidth
      ++ (record {
        key = key;
        label = label;
        bytes = bytes;
        duration = duration;
        bytes_per_second = rate;
        completion_semantics = semantics;
      }
          ∷ []);
}

unfoldable pub add_bandwidth :
    (key label : String) → (bytes : ℕ) → Option ℕ → (semantics : String) → Metrics → Metrics
unfolding observed_rate
add_bandwidth key label bytes none semantics m = m
add_bandwidth key label bytes (some duration) semantics m =
    add_bytes key label bytes duration (observed_rate bytes duration) semantics m

abbrev pub add_latency : (key label : String) → Statistic → ℕ → Metrics → Metrics
add_latency key label statistic value m = record m {
  latencies =
      m.latencies
      ++ (record { key = key; label = label; statistic = statistic; value = value } ∷ []);
}

unfoldable pub add_recovery : (key label : String) → Option ℕ → Metrics → Metrics
add_recovery key label none m = m
add_recovery key label (some duration) m = record m {
  recoveries = m.recoveries ++ (record { key = key; label = label; duration = duration } ∷ []);
}

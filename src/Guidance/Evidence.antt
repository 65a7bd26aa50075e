-- ===== src/Guidance/Evidence.antt =====
-- src/operational-guidance.ts: `latencyHistogram`, `expectedShutdownCancellations` and
-- `parsePressureDomain`.
use Prim.Native.String.{String, ◌++◌ as ◌++ₛ◌}
use text.Mathlib.Text.{◌==◌ as str_eq}
use fitz_destroyer.Common.{
  ℕ, suc, ◌+◌, ◌-◌, Bool, false, not, ◌&&◌, ◌||◌, Option, none, some, List, [], ◌∷◌, map, length,
  ltb, ◌==◌, if◌then◌else◌, min, Result, ok, err, ◌>>=◌, ◌>>◌, guard,
}
use fitz_destroyer.Logs.{Json, string, array, object, Fields, get_field, is_text}
use fitz_destroyer.Pressure.Latency.{
  LatencyHistogram, LatencySummary, hundredths, latency_bucket_upper_ms, latency_summary,
}
use fitz_destroyer.Scenario.Failure.{codes, found}
use fitz_destroyer.Guidance.Readings.{
  GuidanceError, bucket_count, count_mismatch, exceeded_outcomes, omitted_stages, no_rate, Platform,
  natural_value, number_field, optional_number_field, array_field, record_value, record_field,
  entries, in_order, items_of, non_negative_number,
}
use fitz_destroyer.Guidance.Metrics.{PerSecond, observed_rate}

-- `values.map((item) => nonNegativeInteger(item, label))`
abbrev pub naturals : String → List Json → Result GuidanceError (List ℕ)
naturals label [] = ok []
naturals label (x ∷ xs) = do n ← natural_value (some x) label; ns ← naturals label xs; ok (n ∷ ns)

abbrev pub sum : List ℕ → ℕ
sum [] = 0
sum (x ∷ xs) = x + sum xs

module _ (platform : Platform) where
  abbrev pub histogram_of :
      Fields → String → List ℕ → (count overflow : ℕ) → Result GuidanceError LatencyHistogram
  histogram_of r label buckets count overflow = do
    total ← non_negative_number platform (get_field r "totalMs") (label ++ₛ ".totalMs")
    greatest ← non_negative_number platform (get_field r "maxMs") (label ++ₛ ".maxMs")
    ok (record {
      count = count;
      total = total;
      max_latency = greatest;
      buckets = buckets;
      overflow = overflow;
    })

  unfoldable pub latency_histogram : Option Json → String → Result GuidanceError LatencyHistogram
  unfolding array_field number_field get_field
  latency_histogram value label = do
    r ← record_value value label
    items ← array_field r "buckets"
    buckets ← naturals (label ++ₛ " bucket") items
    guard (length buckets == length latency_bucket_upper_ms)
        (bucket_count label (length latency_bucket_upper_ms) (length buckets))
    count ← number_field r "count"
    overflow ← number_field r "overflow"
    guard (sum buckets + overflow == count) (count_mismatch label)
    histogram_of r label buckets count overflow

-- `/\breceived SIG(?:INT|TERM)\b/u.test(sample.error)`
abbrev pub names_signal : Option Json → Bool
names_signal (some (string text)) =
    found (codes "received SIGINT" ∷ codes "received SIGTERM" ∷ []) false (codes text)
names_signal value = false

abbrev pub is_signal : Json → Bool
is_signal (object sample) =
    not (is_text (get_field sample "class") "cancelled") && names_signal (get_field sample "error")
is_signal value = false

abbrev pub count_signals : List Json → ℕ
count_signals [] = 0
count_signals (x ∷ xs) = if is_signal x then suc (count_signals xs) else count_signals xs

unfoldable pub legacy_signal_cancellations : Option Json → ℕ
unfolding found codes get_field
legacy_signal_cancellations (some (array xs)) = count_signals (items_of xs)
legacy_signal_cancellations value = 0

pub record Cancellations : Type 0 where
  pub failed : ℕ
  pub ambiguous : ℕ

-- For evidence from before cancellations were counted.
abbrev pub inferred : (failed ambiguous legacy : ℕ) → Cancellations
inferred failed ambiguous legacy =
    let total : ℕ = min (failed + ambiguous) legacy in
    record { failed = min failed (total - min ambiguous total); ambiguous = min ambiguous total }

abbrev pub checked :
    (failed ambiguous : ℕ) → Cancellations → String → Result GuidanceError Cancellations
checked failed ambiguous expected label =
    if ltb failed expected.failed || ltb ambiguous expected.ambiguous
    then err (exceeded_outcomes label)
    else ok expected

unfoldable pub expected_shutdown_cancellations :
    Option Json
    → (failed ambiguous legacy_cancelled : ℕ) → Option Json
    → String
    → Result GuidanceError Cancellations
unfolding legacy_signal_cancellations number_field
expected_shutdown_cancellations none failed ambiguous legacy_cancelled samples label =
    ok (inferred failed ambiguous (legacy_cancelled + legacy_signal_cancellations samples))
expected_shutdown_cancellations (some value) failed ambiguous legacy_cancelled samples label = do
  r ← record_value (some value) (label ++ₛ " expectedShutdownCancellations")
  expected_failed ← number_field r "failed"
  expected_ambiguous ← number_field r "ambiguous"
  checked failed ambiguous (record { failed = expected_failed; ambiguous = expected_ambiguous })
      label

pub record PressureStageSummary : Type 0 where
  pub stage : String
  pub started : ℕ
  pub succeeded : ℕ
  pub errors : ℕ
  pub ambiguous_outcomes : ℕ
  pub expected_cancellations : ℕ
  pub latency : LatencySummary

pub record PressureDomainSummary : Type 0 where
  pub domain : String
  pub completion_semantics : String
  pub completed_operations : ℕ
  pub observed_operations_per_second : PerSecond
  pub errors : ℕ
  pub ambiguous_outcomes : ℕ
  pub expected_cancellations : ℕ
  pub slowest_stage : String
  pub stages : List PressureStageSummary

unfoldable pub completion_semantics_for_domain : String → String
completion_semantics_for_domain domain =
    if str_eq domain "queue"
    then "completed Queue enqueue/reserve/completion loops"
    else if str_eq domain "kv"
    then "committed KV transactions"
    else if str_eq domain "stream"
    then "committed Stream append sessions"
    else if str_eq domain "schedule"
    then "accepted durable Schedule upserts"
    else if str_eq domain "notice"
    then "publisher acceptance, not confirmed fanout"
    else if str_eq domain "lease"
    then "completed Lease acquire/release cycles"
    else "completed RPC calls with a response"

module _ (platform : Platform) where
  unfoldable pub parse_stage :
      (domain : String) → String × Json → Result GuidanceError PressureStageSummary
  unfolding latency_histogram record_field number_field optional_number_field
      expected_shutdown_cancellations latency_summary get_field
  parse_stage domain entry = do
    r ← record_value (some entry.1) (domain ++ₛ "/" ++ₛ entry.0)
    histogram ←
        latency_histogram platform (get_field r "latencyHistogram")
          (domain ++ₛ "/" ++ₛ entry.0 ++ₛ " latencyHistogram")
    error_classes ← record_field r "errorClasses"
    failed ← number_field r "failed"
    ambiguous ← number_field r "ambiguous"
    cancelled ← optional_number_field error_classes "cancelled"
    shutdown ←
        expected_shutdown_cancellations (get_field r "expectedShutdownCancellations") failed
          ambiguous cancelled (get_field r "errorSamples") (domain ++ₛ "/" ++ₛ entry.0)
    started ← number_field r "started"
    succeeded ← number_field r "succeeded"
    ok (record {
      stage = entry.0;
      started = started;
      succeeded = succeeded;
      errors = failed - shutdown.failed;
      ambiguous_outcomes = ambiguous;
      expected_cancellations = shutdown.failed + shutdown.ambiguous;
      latency = latency_summary hundredths histogram;
    })

  unfoldable pub parse_stages :
      (domain : String) → List (String × Json) → Result GuidanceError (List PressureStageSummary)
  unfolding parse_stage
  parse_stages domain [] = ok []
  parse_stages domain (entry ∷ rest) = do
    stage ← parse_stage domain entry
    stages ← parse_stages domain rest
    ok (stage ∷ stages)

  -- The order by which the slowest stage comes first.
  abbrev pub is_slower : PressureStageSummary → PressureStageSummary → Bool
  is_slower a b =
      ltb b.latency.p95 a.latency.p95
      || ((a.latency.p95 == b.latency.p95) && platform.comes_before a.stage b.stage)

  unfoldable pub slowest_of :
      PressureStageSummary → List PressureStageSummary → PressureStageSummary
  slowest_of first [] = first
  slowest_of first (s ∷ rest) = slowest_of (if is_slower s first then s else first) rest

  abbrev pub rate_or : Option PerSecond → String → Result GuidanceError PerSecond
  rate_or (some rate) domain = ok rate
  rate_or none domain = err (no_rate domain)

  unfoldable pub summarize_domain :
      (domain : String)
      → (completed duration : ℕ) → List PressureStageSummary
      → Result GuidanceError PressureDomainSummary
  unfolding observed_rate slowest_of completion_semantics_for_domain
  summarize_domain domain completed duration [] = err (omitted_stages domain)
  summarize_domain domain completed duration (s ∷ rest) = do
    rate ← rate_or (observed_rate completed duration) domain
    ok (record {
      domain = domain;
      completion_semantics = completion_semantics_for_domain domain;
      completed_operations = completed;
      observed_operations_per_second = rate;
      errors = sum (map (λ t. t.errors) (s ∷ rest));
      ambiguous_outcomes = sum (map (λ t. t.ambiguous_outcomes) (s ∷ rest));
      expected_cancellations = sum (map (λ t. t.expected_cancellations) (s ∷ rest));
      slowest_stage = (slowest_of s rest).stage;
      stages = s ∷ rest;
    })

  unfoldable pub parse_pressure_domain :
      (domain : String) → Option Json → (duration : ℕ) → Result GuidanceError PressureDomainSummary
  unfolding number_field record_field parse_stages summarize_domain
  parse_pressure_domain domain value duration = do
    evidence ← record_value value (domain ++ₛ " pressure evidence")
    completed ← number_field evidence "succeeded"
    stages_record ← record_field evidence "stages"
    stages ← parse_stages domain (in_order platform (entries stages_record))
    summarize_domain domain completed duration stages

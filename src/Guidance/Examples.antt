-- ===== src/Guidance/Examples.antt =====
-- Readings of evidence, and the theorems at concrete inputs.
use Prim.Native.Char.{char}
use Prim.Native.String.{String, [] as []ₛ, ◌∷◌ as ◌∷ₛ◌}
use fitz_destroyer.Common.{
  ℕ, zero, suc, ap, map, ◌≡◌, refl, true, false, none, some, Option, List, [], ◌∷◌, Result, ok, err,
  arith,
}
use fitz_destroyer.Logs.{
  Json, number, other_number, string, array, object, nil, cons, end, field, Log,
}
use fitz_destroyer.Pressure.Latency.{pos, hundredths, LatencyHistogram, bucket_uppers}
use fitz_destroyer.Pressure.Latency.Recording.{record_all}
use fitz_destroyer.Config.Scenarios.{is_one_of, all_scenarios}
use fitz_destroyer.Guidance.Readings.{GuidanceError, Platform}
use fitz_destroyer.Guidance.Texts.{decimal, capitalize, spaced}
use fitz_destroyer.Guidance.Metrics.{Metrics, PerSecond, infinite}
use fitz_destroyer.Guidance.Durations.{completion_event}
use fitz_destroyer.Guidance.Evidence.{latency_histogram, PressureStageSummary, parse_stage}
use fitz_destroyer.Guidance.Rating.{
  GuidanceRating, constrained, Reason, stage_errors, above_half, line_malformed,
}
use fitz_destroyer.Guidance.Extraction.{extract_scenario_metrics}
use fitz_destroyer.Guidance.PressureGuidance.{OperationalGuidance, extract_pressure_guidance}
use fitz_destroyer.Guidance.EventsFile.{blank, malformed, lines, read_events}
use fitz_destroyer.Guidance.Histograms.{written, latency_histogram-record_all}
use fitz_destroyer.Guidance.Cancellations.{IsSummaryOf, parse_stage-IsSummaryOf}
use fitz_destroyer.Guidance.Signalling.{IsRated, extract_pressure_guidance-IsRated}
use fitz_destroyer.Guidance.Soundness.{IsSound}
use fitz_destroyer.Guidance.Rates.{extract_scenario_metrics-IsSound}
use fitz_destroyer.Guidance.Covering.{completion_event-some_iff}
use fitz_destroyer.Guidance.Reading.{IsReading, read_events-IsReading}

-- Times that are written as whole numbers of milliseconds only.
abbrev plain : Platform
plain = record { hundredths = λ text. none; comes_before = λ s t. false }

texts :
    (decimal 0 ≡ "0")
    × (decimal 1_205 ≡ "1205")
    × (capitalize "queue" ≡ "Queue")
    × (spaced "fitz-sigkill-1" ≡ "fitz sigkill 1")
unfolding decimal capitalize spaced
texts = (refl, refl, refl, refl)

abbrev one_slow : LatencyHistogram
one_slow = record {
  count = 1;
  total = 60_000;
  max_latency = 60_000;
  buckets = 0 ∷ 0 ∷ 0 ∷ 0 ∷ 0 ∷ 0 ∷ 0 ∷ 0 ∷ 0 ∷ 1 ∷ 0 ∷ 0 ∷ 0 ∷ 0 ∷ 0 ∷ [];
  overflow = 0;
}

-- One enqueue that took 600 milliseconds, with two failures of which one was expected.
abbrev stage_record : Json
stage_record = object (
    field "latencyHistogram" (written (λ t. number 600) one_slow) (
      field "errorClasses" (object end) (
        field "failed" (number 2) (
          field "ambiguous" (number 0) (
            field "expectedShutdownCancellations"
              (object (field "failed" (number 1) (field "ambiguous" (number 0) end)))
              (field "started" (number 3) (field "succeeded" (number 1) end)))))))

abbrev evidence_with : (timeout_ms : ℕ) → Json
evidence_with timeout_ms = object (
    field "durationMs" (number 1_000) (
      field "requestTimeoutMs" (number timeout_ms) (
        field "selectedDomains" (array (cons (string "queue") nil)) (
          field "aggregate"
            (object (
              field "queue"
                (object (
                  field "succeeded" (number 1)
                    (field "stages" (object (field "enqueue" stage_record end)) end)))
                end))
            (field "brokerSummary"
              (object (
                field "ingressDispatchTimeoutsDelta" (number 0)
                  (field "routerBackpressureDelta" (number 0) end)))
              (field "warnings" (array nil) end))))))

abbrev rating_of : Result GuidanceError OperationalGuidance → Option (GuidanceRating × List Reason)
rating_of (ok g) = some (g.rating, g.reasons)
rating_of (err e) = none

rated_constrained :
    rating_of (extract_pressure_guidance plain (evidence_with 5_000) none)
    ≡ some (constrained, stage_errors "queue" "enqueue" 1 ∷ [])
unfolding extract_pressure_guidance bucket_uppers
rated_constrained = refl

extract_pressure_guidance-IsRated_example :
    (g : OperationalGuidance) × (extract_pressure_guidance plain (evidence_with 5_000) none ≡ ok g)
    × IsRated (evidence_with 5_000) g
unfolding extract_pressure_guidance
extract_pressure_guidance-IsRated_example =
    (_, refl, extract_pressure_guidance-IsRated plain (evidence_with 5_000) none refl)

parse_stage-IsSummaryOf_example :
    (s : PressureStageSummary) × (parse_stage plain "queue" ("enqueue", stage_record) ≡ ok s)
    × IsSummaryOf "queue" ("enqueue", stage_record) s
unfolding parse_stage
parse_stage-IsSummaryOf_example =
    (_, refl, parse_stage-IsSummaryOf plain "queue" ("enqueue", stage_record) refl)

-- With a shorter timeout the 95th percentile, the bound of 1,000 milliseconds, is above half of it.
rated_slow :
    rating_of (extract_pressure_guidance plain (evidence_with 1_500) none)
    ≡ some (
      constrained,
      stage_errors "queue" "enqueue" 1 ∷ above_half "queue" "enqueue" 100_000 1_500 ∷ [],
    )
unfolding extract_pressure_guidance bucket_uppers
rated_slow = refl

completion_event-some_iff_example : is_one_of "soak" all_scenarios ≡ true
unfolding completion_event
completion_event-some_iff_example =
    (completion_event-some_iff plain "soak").0 ("pressure_complete", refl)

-- A workload that ended within the clock's step.
abbrev at_once : Log
at_once =
    field "event" (string "saturated_slow_recipient_isolation_complete") (
      field "elapsedMs" (number 0) (
        field "published" (number 4) (
          field "received" (number 4)
            (field "siblingCanaryDomains" (number 1) (field "bytesPublished" (number 64) end)))))
    ∷ []

abbrev bandwidths : Result GuidanceError Metrics → List PerSecond
bandwidths (ok m) = map (λ b. b.bytes_per_second) m.bandwidth
bandwidths (err e) = []

-- Its bandwidth is `Infinity`.
bandwidth_at_once :
    bandwidths (extract_scenario_metrics plain "saturated-slow-recipient-isolation" at_once none)
    ≡ infinite ∷ []
unfolding extract_scenario_metrics
bandwidth_at_once = refl

extract_scenario_metrics-IsSound_example :
    (m : Metrics) × (extract_scenario_metrics plain "saturated-slow-recipient-isolation" at_once
        none
      ≡ ok m)
    × IsSound m
unfolding extract_scenario_metrics
extract_scenario_metrics-IsSound_example = (
  _,
  refl,
  extract_scenario_metrics-IsSound plain "saturated-slow-recipient-isolation" at_once none refl,
)

read_events-IsReading_example :
    IsReading 0 (blank ∷ malformed ∷ []) [] (read_events (lines (blank ∷ malformed ∷ [])))
read_events-IsReading_example = read_events-IsReading (blank ∷ malformed ∷ [])

bad_line : read_events (lines (blank ∷ malformed ∷ [])) ≡ ([], some (line_malformed 2))
unfolding read_events
bad_line = refl

-- A platform that writes a number by as many strokes.
abbrev strokes : ℕ → String
strokes zero = ""
strokes (suc n) = char 124 tt ∷ₛ strokes n

count_strokes : String → ℕ
count_strokes []ₛ = 0
count_strokes (c ∷ₛ rest) = suc (count_strokes rest)

count_strokes-strokes : (n : ℕ) → count_strokes (strokes n) ≡ n
unfolding count_strokes
count_strokes-strokes zero = refl
count_strokes-strokes (suc n) = ap suc (count_strokes-strokes n)

abbrev striking : Platform
striking = record { hundredths = λ text. some (count_strokes text); comes_before = λ s t. false }

abbrev struck : ℕ → Json
struck t = other_number (strokes t)

latency_histogram-record_all_example :
    latency_histogram striking
      (some (written struck (record_all hundredths (pos 3 ∷ pos 5 ∷ []))))
      "queue"
    ≡ ok (record_all hundredths (pos 3 ∷ pos 5 ∷ []))
latency_histogram-record_all_example =
    latency_histogram-record_all striking hundredths struck "queue" (pos 3 ∷ pos 5 ∷ [])
      (λ t. ap some (count_strokes-strokes t)) (omega arith)

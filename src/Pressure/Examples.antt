-- ===== src/Pressure/Examples.antt =====
-- Runs of the pressure module's functions, and its theorems at concrete inputs.
use fitz_destroyer.Common.{
  ℕ, ◌+◌, ◌*◌, ◌/◌, Bool, true, false, ◌&&◌, ◌≤◌, ◌<◌, ◌≡◌, refl, ◌↔◌, List, [], ◌∷◌, map, ok, err,
  All, contains, sort, arith,
}
use fitz_destroyer.Pressure.Reconcile.{
  QueueClientOutcome, QueueReconciliation, acknowledged_resolved, unknown_worker, ByWorker,
  no_totals, reconcile_queue_outcomes,
}
use fitz_destroyer.Pressure.Reconcile.Conservation.{
  Accounted, AreKnown, Reports, reconcile_queue_outcomes-eq-ok_iff,
  reconcile_queue_outcomes-Balances,
}
use fitz_destroyer.Pressure.Reconcile.Kept.{IsKept, AddsUp, Balances}
use fitz_destroyer.Pressure.Latency.{
  ℤ, Times, pos, negsuc, LatencyHistogram, bucket_uppers, percentile, rank,
  merge_latency_histograms, record_stage_latency, empty_histogram,
}
use fitz_destroyer.Pressure.Latency.Recording.{
  count_le, record_all, record_all-Tallies, Tallies, record_stage_latency-Tallies,
  empty_histogram-Tallies,
}
use fitz_destroyer.Pressure.Latency.Merging.{
  joined, untotaled, added_runs, merge_latency_histograms-record_all,
}
use Prim.Native.String.{String}
use text.Mathlib.Text.{◌==◌ as str_eq}
use fitz_destroyer.Scenario.Failure.{error_object, other_value}
use fitz_destroyer.Pressure.Stages.{
  timeout, unknown, create_stage_metrics, record_stage_error, normalize_error_class,
  add_error_class, is_ambiguous_durable_error,
}
use fitz_destroyer.Pressure.Stages.Accounting.{
  StageError, record_errors, Accounts, record_errors-Accounts,
}
use fitz_destroyer.Pressure.Latency.Samples.{
  tallied, tallied-of_list, gathered, map_ok, tallied_refines,
}
use mathlib.Mathlib.Data.Multiset.Defs.{of_list}
use mathlib.Mathlib.Data.Multiset.ZeroCons.{cons, zero}
use fitz_destroyer.Pressure.Latency.Percentile.{rounded, percentile_lem, percentile_mono}

-- Entry 0 was completed, 1 perhaps, 2 is still in the queue; 3 failed, and 4 may be there or not.
abbrev outcome : QueueClientOutcome
outcome = record {
  worker = "w1";
  acknowledged = 0 ∷ 1 ∷ 2 ∷ [];
  ambiguous_enqueues = 4 ∷ [];
  failed_enqueues = 3 ∷ [];
  completed = 0 ∷ [];
  ambiguous_completions = 1 ∷ [];
}

abbrev drained : ByWorker
drained = ("w1", 4 ∷ 2 ∷ []) ∷ []

abbrev reconciled : QueueReconciliation
reconciled = record {
  totals = record {
    acknowledged = 3;
    ambiguous_enqueues = 1;
    failed_enqueues = 1;
    completed = 1;
    ambiguous_completions = 1;
    observed = 2;
  };
  clients = record { outcome = outcome; observed = 2 ∷ 4 ∷ [] } ∷ [];
}

outcome_reconciled : reconcile_queue_outcomes (outcome ∷ []) drained ≡ ok reconciled
unfolding reconcile_queue_outcomes contains sort
outcome_reconciled = refl

-- An acknowledged entry that is gone, and a worker that nobody started.
refused_outcomes :
    (reconcile_queue_outcomes (outcome ∷ []) (("w1", 4 ∷ []) ∷ [])
      ≡ err (acknowledged_resolved "w1" 2 0))
    × (reconcile_queue_outcomes (outcome ∷ []) (("w2", []) ∷ drained) ≡ err (unknown_worker "w2"))
unfolding reconcile_queue_outcomes contains
refused_outcomes = (refl, refl)

reconcile_queue_outcomes-eq-ok_iff_example :
    ((r : QueueReconciliation) × (reconcile_queue_outcomes (outcome ∷ []) drained ≡ ok r))
    ↔ (All (Accounted drained) (outcome ∷ []) × AreKnown (outcome ∷ []) drained drained)
reconcile_queue_outcomes-eq-ok_iff_example =
    reconcile_queue_outcomes-eq-ok_iff (outcome ∷ []) drained

reconcile_queue_outcomes-Balances_example :
    All (IsKept drained) (outcome ∷ [])
    × AddsUp drained no_totals (outcome ∷ []) reconciled.totals
    × Balances reconciled.totals
    × Reports drained (outcome ∷ []) reconciled.clients
reconcile_queue_outcomes-Balances_example =
    reconcile_queue_outcomes-Balances (outcome ∷ []) drained reconciled outcome_reconciled

-- Whole thousandths of a millisecond, of which a sum loses its last bit, so that sums depend on the
-- order.
abbrev thousandths : Times
thousandths = record {
  per_ms = 1_000;
  add = λ s t. (s + t) / 2 * 2;
  divide = λ t n. t / n;
  round = λ t. (t + 5) / 10 * 10;
  round_mono = λ s t h. omega (arith, h);
  round_whole = λ n h. omega arith;
}

-- 70,000.004 ms, 3 ms, 0.501 ms, and a clock that went backwards.
abbrev latencies : List ℤ
latencies = pos 70_000_004 ∷ pos 3_000 ∷ pos 501 ∷ negsuc 9 ∷ []

abbrev recorded : LatencyHistogram
recorded = record_all thousandths latencies

abbrev recorded_values : List ℕ
recorded_values = 70_000_004 ∷ 3_000 ∷ 501 ∷ 0 ∷ []

-- The greatest percentile is the rounded maximum, here less than the maximum.
greatest_percentile : percentile thousandths recorded 99 ≡ 70_000_000
unfolding percentile record_all record_stage_latency bucket_uppers empty_histogram
greatest_percentile = refl

record_stage_latency-Tallies_example :
    Tallies thousandths (300 ∷ []) (record_stage_latency thousandths empty_histogram (pos 300))
record_stage_latency-Tallies_example =
    record_stage_latency-Tallies thousandths [] empty_histogram (pos 300)
      (empty_histogram-Tallies thousandths)

merge_latency_histograms-record_all_example :
    merge_latency_histograms thousandths
      (map (record_all thousandths) (latencies ∷ (pos 1 ∷ []) ∷ []))
    ≡ ok (record (record_all thousandths (joined (latencies ∷ (pos 1 ∷ []) ∷ []))) {
      total = added_runs thousandths 0 (latencies ∷ (pos 1 ∷ []) ∷ []);
    })
merge_latency_histograms-record_all_example =
    merge_latency_histograms-record_all thousandths (latencies ∷ (pos 1 ∷ []) ∷ [])

tallied_refines_example :
    (untotaled empty_histogram ≡ tallied thousandths zero)
    × (untotaled (record_stage_latency thousandths recorded (pos 1))
        ≡ tallied thousandths (cons (pos 1) (of_list latencies)))
    × (percentile thousandths recorded 50
        ≡ percentile thousandths (tallied thousandths (of_list latencies)) 50)
    × (map_ok untotaled (
          merge_latency_histograms thousandths
            (map (record_all thousandths) (latencies ∷ (pos 1 ∷ []) ∷ [])))
        ≡ ok (tallied thousandths (gathered (map of_list (latencies ∷ (pos 1 ∷ []) ∷ [])))))
tallied_refines_example =
    tallied_refines thousandths (pos 1) recorded (of_list latencies) (latencies ∷ (pos 1 ∷ []) ∷ [])
      50 (tallied-of_list thousandths latencies)

-- A platform that finds one pattern in one text only.
abbrev matches_timeout : (pattern text : String) → Bool
matches_timeout pattern text =
    str_eq pattern "/\\b(?:timeout|timed? out|deadline)\\b/iu" && str_eq text "Error: timed out"

abbrev timed_out : StageError
timed_out = record {
  error = error_object "Error" "timed out";
  is_ambiguous = true;
  expected_shutdown = false;
}

abbrev refused : StageError
refused = record { error = other_value "refused"; is_ambiguous = false; expected_shutdown = true }

abbrev stage_errors : List StageError
stage_errors = refused ∷ timed_out ∷ refused ∷ refused ∷ timed_out ∷ timed_out ∷ []

-- Six errors, of which three are of either class, and five samples.
errors_recorded :
    let m = record_errors matches_timeout stage_errors create_stage_metrics in
    (m.error_classes ≡ (unknown, 3) ∷ (timeout, 3) ∷ [])
    × (m.expected_failed ≡ 3)
    × (m.expected_ambiguous ≡ 0)
    × (m.error_samples
        ≡ (unknown, "refused")
          ∷ (timeout, "Error: timed out")
          ∷ (unknown, "refused")
          ∷ (unknown, "refused")
          ∷ (timeout, "Error: timed out")
          ∷ [])
unfolding record_errors record_stage_error normalize_error_class add_error_class
    create_stage_metrics
errors_recorded = (refl, refl, refl, refl)

only_timeouts_are_ambiguous :
    (is_ambiguous_durable_error matches_timeout timed_out.error ≡ true)
    × (is_ambiguous_durable_error matches_timeout refused.error ≡ false)
unfolding is_ambiguous_durable_error
only_timeouts_are_ambiguous = (refl, refl)

record_errors-Accounts_example :
    Accounts matches_timeout stage_errors
      (record_errors matches_timeout stage_errors create_stage_metrics)
record_errors-Accounts_example = record_errors-Accounts matches_timeout stage_errors

percentile_lem_example :
    (rank recorded.count 50
      ≤ count_le (percentile thousandths recorded 50) (rounded thousandths recorded_values))
    × All
        (λ u.
          u < percentile thousandths recorded 50
          → count_le u recorded_values < rank recorded.count 50)
        (bucket_uppers thousandths)
percentile_lem_example =
    percentile_lem thousandths recorded_values recorded (record_all-Tallies thousandths latencies)
      50 (omega arith)

percentile_mono_example : percentile thousandths recorded 50 ≤ percentile thousandths recorded 99
percentile_mono_example =
    percentile_mono thousandths recorded_values recorded (record_all-Tallies thousandths latencies)
      50 99 (omega arith) (omega arith)

-- ===== src/Pressure/Latency.antt =====
-- src/pressure.ts: latency histograms. A time is a whole number of parts of a millisecond, as small
-- as the platform's; its floating-point sum and quotient and the rounding to hundredths are the
-- platform's too. A fraction is a number of hundredths.
pub mod Recording
pub mod Merging
pub mod Percentile
pub mod Samples
use fitz_destroyer.Common.{
  ℕ, zero, suc, ◌+◌, ◌*◌, ◌/◌, ◌≤◌, ◌≡◌, refl, Bool, not, List, [], ◌∷◌, ◌++◌, map, Option, none,
  some, length, leb, ◌==◌, max, if◌then◌else◌, Result, ok, err, ◌>>=◌, ◌>>◌, guard,
}

-- A signed time: `negsuc n` is -(n + 1).
pub data ℤ : Type 0 where
  pos : ℕ → ℤ
  negsuc : ℕ → ℤ

-- `Math.max(0, elapsedMs)`
abbrev pub pos_part : ℤ → ℕ
pos_part (pos n) = n
pos_part (negsuc n) = 0

-- The bounds in milliseconds.
abbrev pub latency_bucket_upper_ms : List ℕ
latency_bucket_upper_ms =
    1 ∷ 2 ∷ 5 ∷ 10 ∷ 25 ∷ 50 ∷ 100 ∷ 250 ∷ 500 ∷ 1_000 ∷ 2_500 ∷ 5_000 ∷ 10_000 ∷ 30_000 ∷ 60_000
    ∷ []

-- The times of a platform: how many parts a millisecond has, the floating-point sum and the quotient
-- of a time by a number, and `Math.round(value * 100) / 100`. Rounding keeps the order, and the whole
-- milliseconds up to a minute.
pub record Times : Type 0 where
  pub per_ms : ℕ
  pub add : ℕ → ℕ → ℕ
  pub divide : ℕ → ℕ → ℕ
  pub round : ℕ → ℕ
  pub round_mono : (s t : ℕ) → s ≤ t → round s ≤ round t
  pub round_whole : (n : ℕ) → n ≤ 60_000 → round (n * per_ms) ≡ n * per_ms

-- Whole hundredths of a millisecond, of which the sum is exact and the quotient the nearest.
abbrev pub hundredths : Times
hundredths = record {
  per_ms = 100;
  add = λ s t. s + t;
  divide = λ t n. (2 * t + n) / (2 * n);
  round = λ t. t;
  round_mono = λ s t h. h;
  round_whole = λ n h. refl;
}

-- The bounds as times.
unfoldable pub bucket_uppers : Times → List ℕ
bucket_uppers times = map (λ upper. upper * times.per_ms) latency_bucket_upper_ms

pub record LatencyHistogram : Type 0 where
  pub count : ℕ
  pub total : ℕ
  pub max_latency : ℕ
  pub buckets : List ℕ
  pub overflow : ℕ

unfoldable pub empty_histogram : LatencyHistogram
empty_histogram = record {
  count = 0;
  total = 0;
  max_latency = 0;
  buckets = map (λ _. 0) latency_bucket_upper_ms;
  overflow = 0;
}

abbrev next_index : Option ℕ → Option ℕ
next_index none = none
next_index (some i) = some (suc i)

-- `findIndex((upper) => value <= upper)`
find_bucket : ℕ → List ℕ → Option ℕ
find_bucket value [] = none
find_bucket value (upper ∷ uppers) =
    if leb value upper then some 0 else next_index (find_bucket value uppers)

-- `buckets[index] = (buckets[index] ?? 0) + n`; an index past the end fills up with zeros.
add_at : ℕ → ℕ → List ℕ → List ℕ
add_at zero n [] = n ∷ []
add_at (suc i) n [] = 0 ∷ add_at i n []
add_at zero n (b ∷ bs) = (b + n) ∷ bs
add_at (suc i) n (b ∷ bs) = b ∷ add_at i n bs

place : Option ℕ → LatencyHistogram → LatencyHistogram
place none h = record h { overflow = h.overflow + 1 }
place (some index) h = record h { buckets = add_at index 1 h.buckets }

-- `recordStageLatency` on the stage's histogram
unfoldable pub record_stage_latency : Times → LatencyHistogram → ℤ → LatencyHistogram
unfolding find_bucket add_at place
record_stage_latency times h elapsed =
    let value = pos_part elapsed in
    place (find_bucket value (bucket_uppers times)) (record h {
      count = h.count + 1;
      total = times.add h.total value;
      max_latency = max h.max_latency value;
    })

pub data MergeError : Type 0 where
  bucket_count : (expected found : ℕ) → MergeError

-- `merged.buckets[index] = (merged.buckets[index] ?? 0) + count` for each entry of the buckets
add_buckets : List ℕ → List ℕ → List ℕ
add_buckets merged [] = merged
add_buckets [] (c ∷ cs) = c ∷ add_buckets [] cs
add_buckets (b ∷ bs) (c ∷ cs) = (b + c) ∷ add_buckets bs cs

add_histogram : Times → LatencyHistogram → LatencyHistogram → LatencyHistogram
unfolding add_buckets
add_histogram times merged h = record {
  count = merged.count + h.count;
  total = times.add merged.total h.total;
  max_latency = max merged.max_latency h.max_latency;
  buckets = add_buckets merged.buckets h.buckets;
  overflow = merged.overflow + h.overflow;
}

merge_into : Times → LatencyHistogram → List LatencyHistogram → Result MergeError LatencyHistogram
merge_into times merged [] = ok merged
merge_into times merged (h ∷ hs) = do
  guard (length h.buckets == length latency_bucket_upper_ms)
      (bucket_count (length latency_bucket_upper_ms) (length h.buckets))
  merge_into times (add_histogram times merged h) hs

pub merge_latency_histograms : Times → List LatencyHistogram → Result MergeError LatencyHistogram
unfolding merge_into add_histogram
merge_latency_histograms times histograms = merge_into times empty_histogram histograms

-- The loop of `percentile`: `uppers` is the table from the index on.
percentile_from : ℕ → ℕ → ℕ → List ℕ → List ℕ → ℕ
percentile_from greatest target cumulative uppers [] = greatest
percentile_from greatest target cumulative [] (c ∷ cs) =
    if leb target (cumulative + c)
    then greatest
    else percentile_from greatest target (cumulative + c) [] cs
percentile_from greatest target cumulative (u ∷ us) (c ∷ cs) =
    if leb target (cumulative + c)
    then u
    else percentile_from greatest target (cumulative + c) us cs

-- `Math.ceil(count * fraction)`
abbrev pub rank : ℕ → ℕ → ℕ
rank count percent = (count * percent + 99) / 100

unfoldable pub percentile : Times → LatencyHistogram → ℕ → ℕ
unfolding percentile_from
percentile times h percent =
    if h.count == 0
    then 0
    else percentile_from (times.round h.max_latency) (rank h.count percent) 0 (bucket_uppers times)
        h.buckets

pub record LatencySummary : Type 0 where
  pub count : ℕ
  pub mean : ℕ
  pub p50 : ℕ
  pub p95 : ℕ
  pub p99 : ℕ
  pub max_latency : ℕ

-- `round(totalMs / count)`
abbrev mean_of : Times → ℕ → ℕ → ℕ
mean_of times total count = if count == 0 then 0 else times.round (times.divide total count)

unfoldable pub latency_summary : Times → LatencyHistogram → LatencySummary
unfolding percentile
latency_summary times h = record {
  count = h.count;
  mean = mean_of times h.total h.count;
  p50 = percentile times h 50;
  p95 = percentile times h 95;
  p99 = percentile times h 99;
  max_latency = times.round h.max_latency;
}

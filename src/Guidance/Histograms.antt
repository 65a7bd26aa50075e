-- ===== src/Guidance/Histograms.antt =====
-- src/pressure.ts and src/operational-guidance.ts: a histogram that a pressure run records is read back
-- from the evidence as it was.
use Prim.Native.String.{String, ◌++◌ as ◌++ₛ◌}
use fitz_destroyer.Common.{
  ℕ, suc, ◌+◌, ◌≤◌, ◌≡◌, refl, ap, ◌∙◌, some, List, [], ◌∷◌, map, length, ok, arith,
}
use fitz_destroyer.Logs.{Json, number, array, object, Items, nil, cons, end, field, max_safe}
use fitz_destroyer.Pressure.Latency.{
  ℤ, Times, pos_part, LatencyHistogram, latency_bucket_upper_ms, bucket_uppers,
}
use fitz_destroyer.Pressure.Latency.Recording.{
  Cumulates, Tallies, record_all, record_all-Tallies, sum as recorded_sum,
}
use fitz_destroyer.Guidance.Readings.{Platform, valid_duration, items_of}
use fitz_destroyer.Guidance.Evidence.{naturals, sum, latency_histogram}

abbrev pub items_from : List Json → Items
items_from [] = nil
items_from (x ∷ xs) = cons x (items_from xs)

-- `JSON.stringify` of a histogram, where `time` writes a time.
abbrev pub written : (ℕ → Json) → LatencyHistogram → Json
written time h = object (
    field "count" (number h.count) (
      field "totalMs" (time h.total) (
        field "maxMs" (time h.max_latency) (
          field "buckets" (array (items_from (map number h.buckets)))
            (field "overflow" (number h.overflow) end)))))

items_of-items_from : (xs : List Json) → items_of (items_from xs) ≡ xs
items_of-items_from [] = refl
items_of-items_from (x ∷ xs) = ap (λ ys. x ∷ ys) (items_of-items_from xs)

naturals-number :
    (label : String) (ns : List ℕ) → sum ns ≤ max_safe → naturals label (map number ns) ≡ ok ns
naturals-number label [] h = refl
naturals-number label (n ∷ ns) h = ground (arith, naturals-number label ns (omega (arith, h)), h)

length_buckets :
    (vs : List ℕ) (base : ℕ) (us bs : List ℕ) → Cumulates vs base us bs → length bs ≡ length us
length_buckets vs base [] [] c = refl
length_buckets vs base (u ∷ us) (b ∷ bs) c = ap suc (length_buckets vs (base + b) us bs c.1)
length_buckets vs base [] (b ∷ bs) c = absurd c
length_buckets vs base (u ∷ us) [] c = absurd c

same_sum : (xs : List ℕ) → sum xs ≡ recorded_sum xs
same_sum [] = refl
same_sum (x ∷ xs) = ap (λ n. x + n) (same_sum xs)

accepts :
    (platform : Platform) (time : ℕ → Json) (label : String) (h : LatencyHistogram)
    → ((t : ℕ) → valid_duration platform (some (time t)) ≡ some t)
    → length h.buckets ≡ length latency_bucket_upper_ms
    → sum h.buckets + h.overflow ≡ h.count
    → h.count ≤ max_safe
    → latency_histogram platform (some (written time h)) label ≡ ok h
unfolding latency_histogram
accepts platform time label h prints l s m =
    let read : naturals (label ++ₛ " bucket") (items_of (items_from (map number h.buckets)))
        ≡ ok h.buckets =
      ap (naturals (label ++ₛ " bucket")) (items_of-items_from (map number h.buckets))
      ∙ naturals-number (label ++ₛ " bucket") h.buckets (omega (arith, s, m)) in
    ground (arith, read, prints h.total, prints h.max_latency, l, s, m)

length_uppers : (times : Times) → length (bucket_uppers times) ≡ length latency_bucket_upper_ms
unfolding bucket_uppers
length_uppers times = refl

length-map : (f : ℤ → ℕ) (xs : List ℤ) → length (map f xs) ≡ length xs
length-map f [] = refl
length-map f (x ∷ xs) = ap suc (length-map f xs)

-- When the platform reads a time as it wrote it, the histogram of any latencies, as long as they are
-- no more than the greatest safe integer, is accepted and read back unchanged.
pub latency_histogram-record_all :
    (platform : Platform) (times : Times) (time : ℕ → Json) (label : String) (latencies : List ℤ)
    → ((t : ℕ) → valid_duration platform (some (time t)) ≡ some t)
    → length latencies ≤ max_safe
    → latency_histogram platform (some (written time (record_all times latencies))) label
      ≡ ok (record_all times latencies)
latency_histogram-record_all platform times time label latencies prints bound =
    let h : LatencyHistogram = record_all times latencies in
    let t : Tallies times (map pos_part latencies) h = record_all-Tallies times latencies in
    let n : length (map pos_part latencies) ≡ length latencies = length-map pos_part latencies in
    accepts platform time label h prints
      (length_buckets (map pos_part latencies) 0 (bucket_uppers times) h.buckets t.buckets
        ∙ length_uppers times)
      (omega (arith, same_sum h.buckets, t.overflow, t.count)) (omega (arith, t.count, n, bound))

-- ===== src/Pressure/Latency/Merging.antt =====
-- Merging histograms gives the histogram of all the latencies, except for the order of the sums.
use fitz_destroyer.Common.{
  ℕ, suc, ◌+◌, ◌≡◌, refl, ap, ◌∙◌, List, [], ◌∷◌, ◌++◌, map, length, length-append, max, ok, arith,
}
use mathlib.Core.Path.{ap₂}
use mathlib.Core.List.{append-nil, append_assoc, map-append}
use fitz_destroyer.Pressure.Latency.{
  ℤ, Times, pos_part, latency_bucket_upper_ms, bucket_uppers, LatencyHistogram, empty_histogram,
  add_buckets, add_histogram, merge_into, merge_latency_histograms,
}
use fitz_destroyer.Pressure.Latency.Recording.{
  sum, added, maximum, count_le, Cumulates, Tallies, record_all, record_all-Tallies,
  empty_histogram-Tallies,
}

count_le-append : (u : ℕ) (vs ws : List ℕ) → count_le u (vs ++ ws) ≡ count_le u vs + count_le u ws
count_le-append u [] ws = omega arith
count_le-append u (v ∷ vs) ws = omega (arith, count_le-append u vs ws)

maximum-append : (vs ws : List ℕ) → maximum (vs ++ ws) ≡ max (maximum vs) (maximum ws)
maximum-append [] ws = omega arith
maximum-append (v ∷ vs) ws = omega (arith, maximum-append vs ws)

-- Buckets add up bound by bound.
Cumulates-add :
    (vs ws : List ℕ) (b c d : ℕ) (us bs cs : List ℕ)
    → d ≡ b + c
    → Cumulates vs b us bs
    → Cumulates ws c us cs
    → Cumulates (vs ++ ws) d us (add_buckets bs cs) × (sum (add_buckets bs cs) ≡ sum bs + sum cs)
unfolding add_buckets
Cumulates-add vs ws b c d [] [] [] e k l = (tt, omega arith)
Cumulates-add vs ws b c d (u ∷ us) (x ∷ bs) (y ∷ cs) e (here, k) (there, l) =
    let (rest, total) =
      Cumulates-add vs ws (b + x) (c + y) (d + (x + y)) us bs cs (omega arith) k l in
    ((omega (arith, count_le-append u vs ws), rest), omega (arith, total))
Cumulates-add vs ws b c d [] (x ∷ bs) cs e k l = absurd k
Cumulates-add vs ws b c d [] [] (y ∷ cs) e k l = absurd l
Cumulates-add vs ws b c d (u ∷ us) [] cs e k l = absurd k
Cumulates-add vs ws b c d (u ∷ us) (x ∷ bs) [] e k l = absurd l

Cumulates-unique :
    (vs : List ℕ) (base : ℕ) (us bs cs : List ℕ)
    → Cumulates vs base us bs
    → Cumulates vs base us cs
    → bs ≡ cs
Cumulates-unique vs base [] [] [] k l = refl
Cumulates-unique vs base (u ∷ us) (b ∷ bs) (c ∷ cs) (here, k) (there, l) =
    let same : b ≡ c = omega arith in
    let l' : Cumulates vs (base + b) us cs = rw same l in
    ap₂ ◌∷◌ same (Cumulates-unique vs (base + b) us bs cs k l')
Cumulates-unique vs base [] (b ∷ bs) cs k l = absurd k
Cumulates-unique vs base [] [] (c ∷ cs) k l = absurd l
Cumulates-unique vs base (u ∷ us) [] cs k l = absurd k
Cumulates-unique vs base (u ∷ us) (b ∷ bs) [] k l = absurd l

Cumulates-length :
    (vs : List ℕ) (base : ℕ) (us bs : List ℕ) → Cumulates vs base us bs → length bs ≡ length us
Cumulates-length vs base [] [] k = refl
Cumulates-length vs base (u ∷ us) (b ∷ bs) (here, k) =
    ap suc (Cumulates-length vs (base + b) us bs k)
Cumulates-length vs base [] (b ∷ bs) k = absurd k
Cumulates-length vs base (u ∷ us) [] k = absurd k

abbrev pub joined : List (List ℤ) → List ℤ
joined [] = []
joined (run ∷ runs) = run ++ joined runs

-- A histogram without its total.
abbrev pub untotaled : LatencyHistogram → LatencyHistogram
untotaled h = record h { total = 0 }

with_total :
    (h k : LatencyHistogram) (t : ℕ)
    → untotaled k ≡ untotaled h
    → k.total ≡ t
    → k ≡ record h { total = t }
with_total h k t e total =
    let summed : ℕ → LatencyHistogram = λ s. record k { total = s } in
    let set : LatencyHistogram → LatencyHistogram = λ x. record x { total = t } in
    ap summed total ∙ ap set e

module _ (times : Times) where
  -- What a tally says of everything but the total.
  pub record Spread (vs : List ℕ) (h : LatencyHistogram) : Type 0 where
    pub count : h.count ≡ length vs
    pub greatest : h.max_latency ≡ maximum vs
    pub buckets : Cumulates vs 0 (bucket_uppers times) h.buckets
    pub overflow : sum h.buckets + h.overflow ≡ length vs

  pub Tallies-Spread : {vs : List ℕ} {h : LatencyHistogram} → Tallies times vs h → Spread vs h
  Tallies-Spread t = record {
    count = t.count;
    greatest = t.greatest;
    buckets = t.buckets;
    overflow = t.overflow;
  }

  -- It determines the rest of the histogram.
  pub Spread-unique :
      (vs : List ℕ) (h k : LatencyHistogram) → Spread vs h → Spread vs k → untotaled h ≡ untotaled k
  Spread-unique vs h k t s =
      let same =
        Cumulates-unique vs 0 (bucket_uppers times) h.buckets k.buckets t.buckets s.buckets in
      ground (arith, same, t.count, s.count, t.greatest, s.greatest, t.overflow, s.overflow)

  add_histogram-Spread :
      (vs ws : List ℕ) (h k : LatencyHistogram)
      → Spread vs h
      → Spread ws k
      → Spread (vs ++ ws) (add_histogram times h k)
  unfolding add_histogram
  add_histogram-Spread vs ws h k t s =
      let (buckets, total) =
        Cumulates-add vs ws 0 0 0 (bucket_uppers times) h.buckets k.buckets (omega arith) t.buckets
          s.buckets in
      record {
        count = omega (arith, t.count, s.count, length-append vs ws);
        greatest = rw (maximum-append vs ws, t.greatest, s.greatest);
        buckets = buckets;
        overflow = omega (arith, total, t.overflow, s.overflow, length-append vs ws);
      }

  length-buckets :
      {vs : List ℕ} {h : LatencyHistogram}
      → Spread vs h
      → length h.buckets ≡ length latency_bucket_upper_ms
  unfolding bucket_uppers
  length-buckets {vs} {h} t = Cumulates-length vs 0 (bucket_uppers times) h.buckets t.buckets

  -- The sums of the runs, added in turn to a total.
  abbrev pub added_runs : ℕ → List (List ℤ) → ℕ
  added_runs total [] = total
  added_runs total (run ∷ runs) = added_runs (times.add total (added times (map pos_part run))) runs

  total-added :
      (total : ℕ) (run : List ℤ)
      → times.add total (record_all times run).total
        ≡ times.add total (added times (map pos_part run))
  total-added total run = ap (times.add total) (record_all-Tallies times run).total

  merge_into-Spread :
      (vs : List ℕ) (h : LatencyHistogram) (runs : List (List ℤ))
      → Spread vs h
      → (k : LatencyHistogram) × (merge_into times h (map (record_all times) runs) ≡ ok k)
        × Spread (vs ++ map pos_part (joined runs)) k
        × (k.total ≡ added_runs h.total runs)
  unfolding merge_into add_histogram
  merge_into-Spread vs h [] t = (h, refl, rw append-nil t, refl)
  merge_into-Spread vs h (run ∷ runs) t =
      let s = Tallies-Spread (record_all-Tallies times run) in
      let (k, merged, u, total) =
        merge_into-Spread (vs ++ map pos_part run) (add_histogram times h (record_all times run))
          runs (add_histogram-Spread vs (map pos_part run) h (record_all times run) t s) in
      (
        k,
        ground (arith, length-buckets s, merged),
        rw (map-append, ← append_assoc) u,
        total ∙ ap (λ n. added_runs n runs) (total-added h.total run),
      )

  -- Merging the histograms of several runs gives the histogram of all their latencies, except for its
  -- total, which is what the runs' own sums come to when they are added in turn.
  pub merge_latency_histograms-record_all :
      (runs : List (List ℤ))
      → merge_latency_histograms times (map (record_all times) runs)
        ≡ ok (record (record_all times (joined runs)) { total = added_runs 0 runs })
  unfolding merge_latency_histograms empty_histogram
  merge_latency_histograms-record_all runs =
      let all = record_all times (joined runs) in
      let empty = Tallies-Spread (empty_histogram-Tallies times) in
      let (k, merged, s, total) = merge_into-Spread [] empty_histogram runs empty in
      let same =
        Spread-unique (map pos_part (joined runs)) k all s
          (Tallies-Spread (record_all-Tallies times (joined runs))) in
      merged ∙ ap ok (with_total all k _ same total)

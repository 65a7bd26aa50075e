-- ===== src/Pressure/Latency/Percentile.antt =====
-- What a reported percentile says of the recorded latencies.
use fitz_destroyer.Common.{
  ℕ, suc, ◌+◌, ◌*◌, ◌≤◌, ◌<◌, ◌≡◌, refl, ap, max, map, Bool-cases, inl, inr, List, [], ◌∷◌, length,
  leb, ◌==◌, All, arith,
}
use fitz_destroyer.Pressure.Latency.{
  Times, latency_bucket_upper_ms, bucket_uppers, LatencyHistogram, percentile_from, rank,
  percentile,
}
use fitz_destroyer.Pressure.Latency.Recording.{
  maximum, count_le, Ascends, Cumulates, Tallies, bucket_uppers-Ascends,
}

count_le-maximum : (g : ℕ) (vs : List ℕ) → maximum vs ≤ g → count_le g vs ≡ length vs
count_le-maximum g [] h = refl
count_le-maximum g (v ∷ vs) h = ground (arith, count_le-maximum g vs)

module _ (times : Times) where
  -- The latencies to the nearest hundredth.
  abbrev pub rounded : List ℕ → List ℕ
  rounded vs = map (λ v. times.round v) vs

  maximum-rounded : (vs : List ℕ) → maximum (rounded vs) ≤ times.round (maximum vs)
  maximum-rounded [] = omega arith
  maximum-rounded (v ∷ vs) = ground (
    arith,
    maximum-rounded vs,
    times.round_mono v (max (maximum vs) v),
    times.round_mono (maximum vs) (max (maximum vs) v),
  )

  -- What is at most a bound that rounding keeps is so after rounding.
  count_le-rounded :
      (u : ℕ) (vs : List ℕ) → times.round u ≡ u → count_le u vs ≤ count_le u (rounded vs)
  count_le-rounded u [] e = omega arith
  count_le-rounded u (v ∷ vs) e = ground (arith, count_le-rounded u vs e, times.round_mono v u, e)

  -- And what is less than it after rounding was so before.
  count_lt-rounded :
      (t u : ℕ) (vs : List ℕ) → t < u → times.round u ≡ u → count_le t (rounded vs) ≤ count_le u vs
  count_lt-rounded t u [] less e = omega arith
  count_lt-rounded t u (v ∷ vs) less e =
      ground (arith, count_lt-rounded t u vs less e, times.round_mono u v, e)

  abbrev AreKept : List ℕ → Type 0
  AreKept = All (λ u. times.round u ≡ u)

  bucket_uppers-AreKept : AreKept (bucket_uppers times)
  unfolding bucket_uppers
  bucket_uppers-AreKept = all_kept latency_bucket_upper_ms (omega arith)
    where
      all_kept :
          (ns : List ℕ)
          → All (λ n. n ≤ 60_000) ns
          → AreKept (map (λ upper. upper * times.per_ms) ns)
      all_kept [] h = tt
      all_kept (n ∷ ns) (here, later) = (times.round_whole n here, all_kept ns later)

  module _ (vs : List ℕ) (greatest : ℕ) where
    -- At least as many values as were asked for are at most the result, to the hundredth.
    percentile_from-reaches :
        (target base : ℕ) (us bs : List ℕ)
        → AreKept us
        → target ≤ count_le greatest (rounded vs)
        → Cumulates vs base us bs
        → target ≤ count_le (percentile_from greatest target base us bs) (rounded vs)
    unfolding percentile_from
    percentile_from-reaches target base [] [] kept h c = h
    percentile_from-reaches target base (u ∷ us) (b ∷ bs) (keeps, kept) h (here, c) = ground (
      arith,
      percentile_from-reaches target (base + b) us bs kept h c,
      count_le-rounded u vs keeps,
    )
    percentile_from-reaches target base [] (b ∷ bs) kept h c = absurd c
    percentile_from-reaches target base (u ∷ us) [] kept h c = absurd c

    none_below :
        (top target low : ℕ) (us : List ℕ)
        → top ≤ low
        → Ascends low us
        → All (λ w. w < top → count_le w vs < target) us
    none_below top target low [] h up = tt
    none_below top target low (u ∷ us) h (le, up) =
        (λ k. absurd (omega arith), none_below top target u us (omega arith) up)

    -- Every bound below the result has fewer values than were asked for.
    percentile_from-least :
        (target base low top : ℕ) (us bs : List ℕ)
        → Ascends low us
        → Cumulates vs base us bs
        → percentile_from greatest target base us bs ≡ top
        → All (λ u. u < top → count_le u vs < target) us
    unfolding percentile_from
    percentile_from-least target base low top [] [] up c e = tt
    percentile_from-least target base low top (u ∷ us) (b ∷ bs) (le, up) (here, c) e =
        elim (Bool-cases (leb target (base + b))) [
          | inl reached ↦
              let same : u ≡ top = ground arith in
              (λ h. absurd (omega arith), none_below top target u us (omega arith) up)
          | inr short ↦ (
            λ h. ground arith,
            percentile_from-least target (base + b) u top us bs up c (ground arith),
          )
        ]
    percentile_from-least target base low top [] (b ∷ bs) up c e = absurd c
    percentile_from-least target base low top (u ∷ us) [] up c e = absurd c

    -- Asking for more gives no smaller result.
    percentile_from_mono :
        (target more base : ℕ) (us bs : List ℕ)
        → AreKept us
        → target ≤ more
        → more ≤ count_le greatest (rounded vs)
        → Cumulates vs base us bs
        → percentile_from greatest target base us bs ≤ percentile_from greatest more base us bs
    unfolding percentile_from
    percentile_from_mono target more base [] [] kept h k c = omega arith
    percentile_from_mono target more base (u ∷ us) (b ∷ bs) (keeps, kept) h k (here, c) =
        let rest = percentile_from greatest more (base + b) us bs in
        ground (
          arith,
          percentile_from_mono target more (base + b) us bs kept h k c,
          percentile_from-reaches more (base + b) us bs kept k c,
          count_lt-rounded rest u vs,
          keeps,
        )
    percentile_from_mono target more base [] (b ∷ bs) kept h k c = absurd c
    percentile_from_mono target more base (u ∷ us) [] kept h k c = absurd c

rank-le : (n p : ℕ) → p ≤ 100 → rank n p ≤ n
rank-le n p h = grind arith

rank_mono : (n p q : ℕ) → p ≤ q → rank n p ≤ rank n q
rank_mono n p q h = grind arith

length-rounded : (times : Times) (vs : List ℕ) → length (rounded times vs) ≡ length vs
length-rounded times [] = refl
length-rounded times (v ∷ vs) = ap suc (length-rounded times vs)

module _ (times : Times) (vs : List ℕ) (h : LatencyHistogram) (t : Tallies times vs h) where
  rank_reached :
      (percent : ℕ)
      → percent ≤ 100
      → rank h.count percent ≤ count_le (times.round h.max_latency) (rounded times vs)
  rank_reached percent p = omega (
    arith,
    rank-le h.count percent p,
    count_le-maximum (times.round h.max_latency) (rounded times vs)
        (rw t.greatest (maximum-rounded times vs)),
    length-rounded times vs,
    t.count,
  )

  percentile_at :
      (percent r : ℕ)
      → percent ≤ 100
      → percentile times h percent ≡ r
      → (rank h.count percent ≤ count_le r (rounded times vs))
        × All (λ u. u < r → count_le u vs < rank h.count percent) (bucket_uppers times)
  unfolding percentile
  percentile_at percent r p e =
      let target = rank h.count percent in
      let uppers = bucket_uppers times in
      let greatest = times.round h.max_latency in
      let up = bucket_uppers-Ascends times in
      elim (Bool-cases (h.count == 0)) [
        | inl none_recorded ↦
            let zero_rank : target ≤ 0 = ground arith in
            let zero_top : r ≤ 0 = ground arith in
            (omega arith, none_below times vs greatest r target 0 uppers zero_top up)
        | inr recorded ↦
            let from_loop : percentile_from greatest target 0 uppers h.buckets ≡ r = ground arith in
            (
              rw (← from_loop) (
                  percentile_from-reaches times vs greatest target 0 uppers h.buckets
                    (bucket_uppers-AreKept times) (rank_reached percent p) t.buckets),
              percentile_from-least times vs greatest target 0 0 r uppers h.buckets up t.buckets
                  from_loop,
            )
      ]

  -- At least the given share of the recorded latencies, up to all of them and each to the nearest
  -- hundredth, is at most the percentile, and no bucket bound below the percentile has that share.
  pub percentile_lem :
      (percent : ℕ)
      → percent ≤ 100
      → (rank h.count percent ≤ count_le (percentile times h percent) (rounded times vs))
        × All
            (λ u. u < percentile times h percent → count_le u vs < rank h.count percent)
            (bucket_uppers times)
  percentile_lem percent p = percentile_at percent (percentile times h percent) p refl

  -- The percentiles of a histogram grow with the share.
  pub percentile_mono :
      (low high : ℕ) → low ≤ high → high ≤ 100 → percentile times h low ≤ percentile times h high
  unfolding percentile
  percentile_mono low high le p = ground (
    arith,
    percentile_from_mono times vs (times.round h.max_latency) (rank h.count low) (rank h.count high)
        0 (bucket_uppers times) h.buckets (bucket_uppers-AreKept times)
        (rank_mono h.count low high le) (rank_reached high p) t.buckets,
  )

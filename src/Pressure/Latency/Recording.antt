-- ===== src/Pressure/Latency/Recording.antt =====
-- A histogram as the tally of the latencies that were recorded.
use fitz_destroyer.Common.{
  ℕ, suc, ◌+◌, ◌≤◌, ◌≡◌, ap, ◌∙◌, true, false, Bool-cases, inl, inr, none, some, leb→le, List, [],
  ◌∷◌, map, length, leb, max, if◌then◌else◌, arith,
}
use fitz_destroyer.Pressure.Latency.{
  ℤ, Times, pos_part, bucket_uppers, LatencyHistogram, empty_histogram, find_bucket, add_at, place,
  record_stage_latency,
}

abbrev pub sum : List ℕ → ℕ
sum [] = 0
sum (x ∷ xs) = x + sum xs

abbrev pub maximum : List ℕ → ℕ
maximum [] = 0
maximum (x ∷ xs) = max (maximum xs) x

-- How many values are at most `u`.
abbrev pub count_le : ℕ → List ℕ → ℕ
count_le u [] = 0
count_le u (v ∷ vs) = (if leb v u then 1 else 0) + count_le u vs

abbrev pub Ascends : ℕ → List ℕ → Type 0
Ascends low [] = Unit
Ascends low (u ∷ us) = (low ≤ u) × Ascends u us

-- The buckets up to a bound hold as many values as are at most that bound.
abbrev pub Cumulates : List ℕ → ℕ → List ℕ → List ℕ → Type 0
Cumulates vs base [] [] = Unit
Cumulates vs base (u ∷ us) (b ∷ bs) = (base + b ≡ count_le u vs) × Cumulates vs (base + b) us bs
Cumulates vs base _ _ = ⊥

-- The latencies' sum, added as they come.
abbrev pub added : Times → List ℕ → ℕ
added times [] = 0
added times (v ∷ vs) = times.add (added times vs) v

-- The histogram of some values, the newest first.
pub record Tallies (times : Times) (vs : List ℕ) (h : LatencyHistogram) : Type 0 where
  pub count : h.count ≡ length vs
  pub total : h.total ≡ added times vs
  pub greatest : h.max_latency ≡ maximum vs
  pub buckets : Cumulates vs 0 (bucket_uppers times) h.buckets
  pub overflow : sum h.buckets + h.overflow ≡ length vs

pub bucket_uppers-Ascends : (times : Times) → Ascends 0 (bucket_uppers times)
unfolding bucket_uppers
bucket_uppers-Ascends times = omega arith

pub Ascends-weaken : (low high : ℕ) (us : List ℕ) → low ≤ high → Ascends high us → Ascends low us
Ascends-weaken low high [] h up = tt
Ascends-weaken low high (u ∷ us) h (here, up) = (omega arith, up)

-- A value at most every bound counts in each sum.
Cumulates-below :
    (v : ℕ) (vs : List ℕ) (base base' : ℕ) (us bs : List ℕ)
    → base' ≡ suc base
    → Ascends v us
    → Cumulates vs base us bs
    → Cumulates (v ∷ vs) base' us bs
Cumulates-below v vs base base' [] [] e up c = tt
Cumulates-below v vs base base' (u ∷ us) (b ∷ bs) e (low, up) (here, c) = (
  ground arith,
  Cumulates-below v vs (base + b) (base' + b) us bs (omega arith) (Ascends-weaken v u us low up) c,
)
Cumulates-below v vs base base' [] (b ∷ bs) e up c = absurd c
Cumulates-below v vs base base' (u ∷ us) [] e up c = absurd c

-- The buckets after a value was counted, and what the overflow gets.
abbrev bump : ℕ → List ℕ → List ℕ → List ℕ
bump v us bs = elim (find_bucket v us) [ none ↦ bs | some i ↦ add_at i 1 bs ]

abbrev spill : ℕ → List ℕ → ℕ
spill v us = elim (find_bucket v us) [ none ↦ 1 | some i ↦ 0 ]

bump_here :
    (v u b : ℕ) (us bs : List ℕ)
    → leb v u ≡ true
    → (bump v (u ∷ us) (b ∷ bs) ≡ (b + 1) ∷ bs) × (spill v (u ∷ us) ≡ 0)
unfolding find_bucket add_at
bump_here v u b us bs h = (ground arith, ground arith)

bump_later :
    (v u b : ℕ) (us bs : List ℕ)
    → leb v u ≡ false
    → (bump v (u ∷ us) (b ∷ bs) ≡ b ∷ bump v us bs) × (spill v (u ∷ us) ≡ spill v us)
unfolding find_bucket add_at
bump_later v u b us bs h = (ground arith, ground arith)

Cumulates-bump :
    (v : ℕ) (vs : List ℕ) (low base : ℕ) (us bs : List ℕ)
    → Ascends low us
    → Cumulates vs base us bs
    → Cumulates (v ∷ vs) base us (bump v us bs) × (sum (bump v us bs) + spill v us ≡ sum bs + 1)
unfolding find_bucket
Cumulates-bump v vs low base [] [] up c = (tt, omega arith)
Cumulates-bump v vs low base (u ∷ us) (b ∷ bs) (here, up) (same, c) = elim (Bool-cases (leb v u)) [
  | inl fits ↦
      let (e, none_spilt) = bump_here v u b us bs fits in
      rw (e, none_spilt)
        (
          (
            ground arith,
            Cumulates-below v vs (base + b) (base + (b + 1)) us bs (omega arith)
                (Ascends-weaken v u us (leb→le v u fits) up) c,
          ),
          omega arith,
        )
  | inr past ↦
      let (e, same_spill) = bump_later v u b us bs past in
      let (rest, counted) = Cumulates-bump v vs u (base + b) us bs up c in
      rw (e, same_spill) ((ground arith, rest), omega (arith, counted))
]
Cumulates-bump v vs low base [] (b ∷ bs) up c = absurd c
Cumulates-bump v vs low base (u ∷ us) [] up c = absurd c

module _ (v : ℕ) (us : List ℕ) (h : LatencyHistogram) where
  place-fields :
      let h' = place (find_bucket v us) h in
      (h'.buckets ≡ bump v us h.buckets)
      × (h'.overflow ≡ h.overflow + spill v us)
      × (h'.count ≡ h.count)
      × (h'.total ≡ h.total)
      × (h'.max_latency ≡ h.max_latency)
  unfolding place
  place-fields = ground arith

module _ (times : Times) where
  -- Recording a latency adds it to the tally.
  pub record_stage_latency-Tallies :
      (vs : List ℕ) (h : LatencyHistogram) (elapsed : ℤ)
      → Tallies times vs h
      → Tallies times (pos_part elapsed ∷ vs) (record_stage_latency times h elapsed)
  unfolding record_stage_latency
  record_stage_latency-Tallies vs h elapsed t =
      let v = pos_part elapsed in
      let uppers = bucket_uppers times in
      let counted = record h {
        count = h.count + 1;
        total = times.add h.total v;
        max_latency = max h.max_latency v;
      } in
      let (buckets, overflow, count, total, greatest) = place-fields v uppers counted in
      let (tally, kept) =
        Cumulates-bump v vs 0 0 uppers h.buckets (bucket_uppers-Ascends times) t.buckets in
      record {
        count = omega (arith, count, t.count);
        total = total ∙ ap (λ s. times.add s v) t.total;
        greatest = rw (greatest, t.greatest);
        buckets = rw buckets tally;
        overflow = rw (buckets, overflow) (omega (arith, kept, t.overflow));
      }

  pub empty_histogram-Tallies : Tallies times [] empty_histogram
  unfolding empty_histogram bucket_uppers
  empty_histogram-Tallies = omega arith

  -- The histogram of some latencies, the newest first.
  unfoldable pub record_all : List ℤ → LatencyHistogram
  record_all [] = empty_histogram
  record_all (elapsed ∷ rest) = record_stage_latency times (record_all rest) elapsed

  pub record_all-Tallies :
      (latencies : List ℤ) → Tallies times (map pos_part latencies) (record_all latencies)
  unfolding record_all
  record_all-Tallies [] = empty_histogram-Tallies
  record_all-Tallies (e ∷ rest) =
      record_stage_latency-Tallies (map pos_part rest) (record_all rest) e (record_all-Tallies rest)

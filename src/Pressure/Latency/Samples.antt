-- ===== src/Pressure/Latency/Samples.antt =====
-- A histogram as an implementation of a bag of samples: the order in which latencies come is forgotten.
use mathlib.Core.Path.{sym, ap₂}
use mathlib.Core.Quot
use mathlib.Core.Logic.{∥∥₁_elim}
use mathlib.Core.List.{Permᴰ}
use mathlib.Mathlib.Data.Multiset.Defs.{Multiset, of_list}
use mathlib.Mathlib.Data.Multiset.ZeroCons.{cons, zero}
use mathlib.Mathlib.Data.Multiset.AddSub.{add}
use fitz_destroyer.Common.{ℕ, ◌+◌, ◌≡◌, refl, ap, ◌∙◌, List, [], ◌∷◌, map, ok, err, Result, arith}
use fitz_destroyer.Pressure.Latency.{
  ℤ, Times, pos_part, bucket_uppers, LatencyHistogram, MergeError, empty_histogram, place,
  record_stage_latency, merge_latency_histograms, percentile,
}
use fitz_destroyer.Pressure.Latency.Recording.{count_le, Cumulates, record_all, record_all-Tallies}
use fitz_destroyer.Pressure.Latency.Merging.{
  joined, untotaled, Spread, Tallies-Spread, Spread-unique, merge_latency_histograms-record_all,
}

abbrev pub Samples : Type 0
Samples = Multiset ℤ

Cumulates-cong :
    (vs ws : List ℕ) (base : ℕ) (us bs : List ℕ)
    → ((u : ℕ) → count_le u vs ≡ count_le u ws)
    → Cumulates vs base us bs
    → Cumulates ws base us bs
Cumulates-cong vs ws base [] [] e k = tt
Cumulates-cong vs ws base (u ∷ us) (b ∷ bs) e (here, k) =
    (here ∙ e u, Cumulates-cong vs ws (base + b) us bs e k)
Cumulates-cong vs ws base [] (b ∷ bs) e k = absurd k
Cumulates-cong vs ws base (u ∷ us) [] e k = absurd k

-- The samples of several runs together.
abbrev pub gathered : List Samples → Samples
gathered [] = zero
gathered (run ∷ runs) = add run (gathered runs)

gathered-of_list : (runs : List (List ℤ)) → gathered (map of_list runs) ≡ of_list (joined runs)
gathered-of_list [] = refl
gathered-of_list (run ∷ runs) = ap (add (of_list run)) (gathered-of_list runs)

abbrev pub map_ok :
    (LatencyHistogram → LatencyHistogram)
    → Result MergeError LatencyHistogram
    → Result MergeError LatencyHistogram
map_ok f (ok h) = ok (f h)
map_ok f (err e) = err e

LatencyHistogram-set : IsSet LatencyHistogram
LatencyHistogram-set = hlevel

module _ (times : Times) where
  Spread-swap :
      (v w : ℕ) (vs : List ℕ) (h : LatencyHistogram)
      → Spread times (v ∷ w ∷ vs) h
      → Spread times (w ∷ v ∷ vs) h
  Spread-swap v w vs h t = record {
    count = t.count;
    greatest = omega (arith, t.greatest);
    buckets =
        Cumulates-cong (v ∷ w ∷ vs) (w ∷ v ∷ vs) 0 (bucket_uppers times) h.buckets
          (λ u. omega arith) t.buckets;
    overflow = t.overflow;
  }

  -- The histogram of some latencies without its total, whose rounding depends on the order.
  abbrev spread_of : List ℤ → LatencyHistogram
  spread_of latencies = untotaled (record_all times latencies)

  spread_of-swap : (a b : ℤ) (rest : List ℤ) → spread_of (a ∷ b ∷ rest) ≡ spread_of (b ∷ a ∷ rest)
  spread_of-swap a b rest =
      let vs : List ℕ = map pos_part rest in
      let t : Spread times (pos_part b ∷ pos_part a ∷ vs) (record_all times (a ∷ b ∷ rest)) =
        Spread-swap (pos_part a) (pos_part b) vs _
          (Tallies-Spread times (record_all-Tallies times (a ∷ b ∷ rest))) in
      Spread-unique times (pos_part b ∷ pos_part a ∷ vs) _ _ t
        (Tallies-Spread times (record_all-Tallies times (b ∷ a ∷ rest)))

  -- What a latency adds to a histogram without its total does not depend on the total.
  untotaled-record :
      (h : LatencyHistogram) (e : ℤ)
      → untotaled (record_stage_latency times h e)
        ≡ untotaled (record_stage_latency times (untotaled h) e)
  unfolding record_stage_latency place
  untotaled-record h e = ground arith

  spread_of-cons :
      (h k : LatencyHistogram) {e e' : ℤ}
      → untotaled h ≡ untotaled k
      → e ≡ e'
      → untotaled (record_stage_latency times h e) ≡ untotaled (record_stage_latency times k e')
  spread_of-cons h k {e} {e'} same equal =
      untotaled-record h e
      ∙ ap₂ (λ x d. untotaled (record_stage_latency times x d)) same equal
      ∙ sym (untotaled-record k e')

  spread_of-permuted : {xs ys : List ℤ} → Permᴰ xs ys → spread_of xs ≡ spread_of ys
  unfolding record_all
  spread_of-permuted Permᴰ.nil = refl
  spread_of-permuted (Permᴰ.cons e p) = spread_of-cons _ _ (spread_of-permuted p) e
  spread_of-permuted (Permᴰ.trans p q) = spread_of-permuted p ∙ spread_of-permuted q
  spread_of-permuted (Permᴰ.swap {a} {b} {l = l} e f) =
      spread_of-swap a b l ∙ ap₂ (λ x y. spread_of (x ∷ y ∷ l)) f e

  -- The histogram of some samples, without its total.
  pub tallied : Samples → LatencyHistogram
  tallied =
      Quot.lift LatencyHistogram-set spread_of
        λ xs ys p. ∥∥₁_elim p (LatencyHistogram-set _ _) spread_of-permuted

  pub tallied-of_list : (l : List ℤ) → untotaled (record_all times l) ≡ tallied (of_list l)
  unfolding tallied
  tallied-of_list l = refl

  tallied-zero : untotaled empty_histogram ≡ tallied zero
  unfolding tallied record_all
  tallied-zero = refl

  tallied-cons :
      (e : ℤ) (h : LatencyHistogram) (s : Samples)
      → untotaled h ≡ tallied s
      → untotaled (record_stage_latency times h e) ≡ tallied (cons e s)
  unfolding tallied record_all
  tallied-cons e h =
      Quot.ind
        {β = λ s.
          untotaled h ≡ tallied s → untotaled (record_stage_latency times h e) ≡ tallied (cons e s)}
        (λ s. hlevel LatencyHistogram-set) λ l same. spread_of-cons h (record_all times l) same refl

  tallied-joined :
      (runs : List (List ℤ)) → tallied (gathered (map of_list runs)) ≡ spread_of (joined runs)
  unfolding tallied
  tallied-joined runs = ap tallied (gathered-of_list runs)

  percentile-untotaled :
      (h : LatencyHistogram) (percent : ℕ)
      → percentile times h percent ≡ percentile times (untotaled h) percent
  unfolding percentile
  percentile-untotaled h percent = refl

  -- But for the total, whose rounding may depend on it, the order of latencies is of no matter. A fresh
  -- histogram is that of no samples; when a histogram is that of some samples, it is after a latency
  -- that of these and the latency, and all its percentiles are theirs; and the merged histograms of
  -- several runs are that of the samples of all.
  pub tallied_refines :
      (elapsed : ℤ) (h : LatencyHistogram) (samples : Samples) (runs : List (List ℤ)) (percent : ℕ)
      → untotaled h ≡ tallied samples
      → (untotaled empty_histogram ≡ tallied zero)
        × (untotaled (record_stage_latency times h elapsed) ≡ tallied (cons elapsed samples))
        × (percentile times h percent ≡ percentile times (tallied samples) percent)
        × (map_ok untotaled (merge_latency_histograms times (map (record_all times) runs))
            ≡ ok (tallied (gathered (map of_list runs))))
  tallied_refines elapsed h samples runs percent same = (
    tallied-zero,
    tallied-cons elapsed h samples same,
    percentile-untotaled h percent ∙ ap (λ k. percentile times k percent) same,
    ap (map_ok untotaled) (merge_latency_histograms-record_all times runs)
        ∙ ap ok (sym (tallied-joined runs)),
  )

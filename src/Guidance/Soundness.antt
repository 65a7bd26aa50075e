-- ===== src/Guidance/Soundness.antt =====
-- src/operational-guidance.ts: every rate comes with its count.
use Prim.Native.String.{String}
use mathlib.Core.Path.{subst}
use text.Mathlib.TextEquality.{eq_iff}
use fitz_destroyer.Common.{
  ℕ, zero, suc, ◌≤◌, ◌≡◌, refl, sym, Bool, true, false, ◌||◌, ◌⊎◌, inl, inr, Option, none, some,
  List, [], ◌∷◌, ◌++◌, All, All-append, if◌then◌else◌, arith,
}
use fitz_destroyer.Guidance.Metrics.{
  CompletionSemantics, CountMetric, RateMetric, Statistic, Metrics, empty_metrics, per_second,
  observed_rate, has_semantics, add_count, add_rate, add_count_and_rate, add_bandwidth, add_latency,
  add_recovery,
}

abbrev pub Backs : RateMetric → CountMetric → Type 0
Backs r c =
    (c.key ≡ r.key)
    × (c.label ≡ r.label)
    × (c.value ≡ r.count)
    × (c.completion_semantics ≡ r.completion_semantics)

abbrev pub IsBacked : List CountMetric → RateMetric → Type 0
IsBacked [] r = ⊥
IsBacked (c ∷ rest) r = Backs r c ⊎ IsBacked rest r

-- The rate of a count that is there, over a time that is not zero.
abbrev pub IsRateOf : List CountMetric → RateMetric → Type 0
IsRateOf counts r =
    IsBacked counts r × (1 ≤ r.duration) × (r.value_per_second ≡ per_second r.count r.duration)

abbrev pub IsExplained : List CompletionSemantics → CountMetric → Type 0
IsExplained semantics c = has_semantics c.key semantics ≡ true

pub record IsSound (m : Metrics) : Type 0 where
  pub rates : All (IsRateOf m.counts) m.rates
  pub counts : All (IsExplained m.semantics) m.counts

IsBacked-append :
    (cs ds : List CountMetric) (r : RateMetric) → IsBacked cs r → IsBacked (cs ++ ds) r
IsBacked-append [] ds r h = absurd h
IsBacked-append (c ∷ cs) ds r (inl h) = inl h
IsBacked-append (c ∷ cs) ds r (inr h) = inr (IsBacked-append cs ds r h)

IsBacked-last :
    (cs : List CountMetric) (c : CountMetric) (r : RateMetric)
    → Backs r c
    → IsBacked (cs ++ (c ∷ [])) r
IsBacked-last [] c r h = inl h
IsBacked-last (d ∷ cs) c r h = inr (IsBacked-last cs c r h)

-- More counts take no rate away.
IsRateOf-append :
    (cs ds : List CountMetric) (rs : List RateMetric)
    → All (IsRateOf cs) rs
    → All (IsRateOf (cs ++ ds)) rs
IsRateOf-append cs ds [] h = tt
IsRateOf-append cs ds (r ∷ rs) ((b, d, v), h) =
    ((IsBacked-append cs ds r b, d, v), IsRateOf-append cs ds rs h)

has_semantics-append :
    (key : String) (xs ys : List CompletionSemantics)
    → has_semantics key (xs ++ ys) ≡ (has_semantics key xs || has_semantics key ys)
has_semantics-append key [] ys = refl
has_semantics-append key (x ∷ xs) ys = ground (arith, has_semantics-append key xs ys)

IsExplained-append :
    (xs ys : List CompletionSemantics) (cs : List CountMetric)
    → All (IsExplained xs) cs
    → All (IsExplained (xs ++ ys)) cs
IsExplained-append xs ys [] h = tt
IsExplained-append xs ys (c ∷ cs) (e, h) =
    (ground (arith, has_semantics-append c.key xs ys, e), IsExplained-append xs ys cs h)

pub empty_metrics-IsSound : IsSound empty_metrics
empty_metrics-IsSound = record { rates = tt; counts = tt }

-- The new count is explained, by its own semantics or by earlier ones with its key.
explained :
    (key label : String) (semantics : List CompletionSemantics) (counts : List CountMetric)
    (c : CountMetric)
    → c.key ≡ key
    → All (IsExplained semantics) counts
    → (b : Bool) → has_semantics key semantics ≡ b
    → All
        (IsExplained
          (if b then semantics else semantics ++ (record { key = key; label = label } ∷ [])))
        (counts ++ (c ∷ []))
explained key label semantics counts c k h true e =
    All-append _ counts (c ∷ []) h (subst (λ x. has_semantics x semantics ≡ true) (sym k) e, tt)
explained key label semantics counts c k h false e =
    let s : List CompletionSemantics = record { key = key; label = label } ∷ [] in
    All-append _ counts (c ∷ []) (IsExplained-append semantics s counts h) (
      subst (λ x. has_semantics x (semantics ++ s) ≡ true) (sym k)
          (ground (arith, has_semantics-append key semantics s, (eq_iff key key).1 refl)),
      tt,
    )

pub add_count-IsSound :
    (key label : String) (value : ℕ) (unit semantics : String) {m : Metrics}
    → IsSound m
    → IsSound (add_count key label value unit semantics m)
unfolding add_count
add_count-IsSound key label value unit semantics {m} h = record {
  rates = IsRateOf-append m.counts _ m.rates h.rates;
  counts =
      explained key semantics m.semantics m.counts _ refl h.counts (has_semantics key m.semantics)
        refl;
}

add_rate-IsSound :
    (key label : String) (value : ℕ) (unit semantics : String) (duration : ℕ) {m : Metrics}
    → IsSound m
    → IsSound (
        add_rate key label value unit semantics duration
          (observed_rate value duration)
          (add_count key label value unit semantics m))
unfolding add_count observed_rate
add_rate-IsSound key label value unit semantics zero h =
    add_count-IsSound key label value unit semantics h
add_rate-IsSound key label value unit semantics (suc d) {m} h =
    let counted = add_count-IsSound key label value unit semantics h in
    record {
      rates =
          All-append _ m.rates _ counted.rates
            ((IsBacked-last m.counts _ _ (refl, refl, refl, refl), omega arith, refl), tt);
      counts = counted.counts;
    }

pub add_count_and_rate-IsSound :
    (key label : String) (value : ℕ) (unit semantics : String) (duration : Option ℕ) {m : Metrics}
    → IsSound m
    → IsSound (add_count_and_rate key label value unit semantics duration m)
unfolding add_count_and_rate
add_count_and_rate-IsSound key label value unit semantics none h =
    add_count-IsSound key label value unit semantics h
add_count_and_rate-IsSound key label value unit semantics (some d) h =
    add_rate-IsSound key label value unit semantics d h

pub add_bandwidth-IsSound :
    (key label : String) (bytes : ℕ) (duration : Option ℕ) (semantics : String) {m : Metrics}
    → IsSound m
    → IsSound (add_bandwidth key label bytes duration semantics m)
unfolding add_bandwidth observed_rate
add_bandwidth-IsSound key label bytes none semantics h = h
add_bandwidth-IsSound key label bytes (some zero) semantics h = h
add_bandwidth-IsSound key label bytes (some (suc d)) semantics h = record {
  rates = h.rates;
  counts = h.counts;
}

pub add_latency-IsSound :
    (key label : String) (statistic : Statistic) (value : ℕ) {m : Metrics}
    → IsSound m
    → IsSound (add_latency key label statistic value m)
add_latency-IsSound key label statistic value h = record { rates = h.rates; counts = h.counts }

pub add_recovery-IsSound :
    (key label : String) (duration : Option ℕ) {m : Metrics}
    → IsSound m
    → IsSound (add_recovery key label duration m)
unfolding add_recovery
add_recovery-IsSound key label none h = h
add_recovery-IsSound key label (some d) h = record { rates = h.rates; counts = h.counts }

-- What adds to the metrics keeps them sound.
pub ruleset sound_rules = (
  empty_metrics-IsSound, add_count-IsSound, add_count_and_rate-IsSound, add_bandwidth-IsSound,
  add_latency-IsSound, add_recovery-IsSound,
)

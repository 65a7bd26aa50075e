-- ===== src/Guidance/Backed/Steps.antt =====
-- src/operational-guidance.ts: the steps that keep every rate beside its count.
use Prim.Native.String.{String, ◌++◌ as ◌++ₛ◌}
use fitz_destroyer.Common.{
  ℕ, suc, ◌*◌, false, Option, none, some, List, [], ◌∷◌, Result, Yields, of_ok, then-Yields,
  >>=-Yields,
}
use fitz_destroyer.Logs.{Fields, Log, Json}
use fitz_destroyer.Guidance.Readings.{
  GuidanceError, Platform, number_field, string_field, in_order, entries, record_field,
  non_negative_number, events_named, natural?, valid_duration,
}
use fitz_destroyer.Guidance.Texts.{decimal}
use fitz_destroyer.Guidance.Metrics.{Metrics, add_count_and_rate}
use fitz_destroyer.Guidance.Restarts.{
  for_events, add_restarts, readiness_events, add_readiness, add_restart_metrics, add_canaries,
  add_canary_latencies,
}
use fitz_destroyer.Guidance.Faults.{add_jobs, sum_present, add_phase, add_phases}
use fitz_destroyer.Guidance.Soundness.{
  IsSound, sound_rules, empty_metrics-IsSound, add_latency-IsSound, add_recovery-IsSound,
  add_count_and_rate-IsSound,
}

-- A step that keeps the metrics sound, if it does not throw.
abbrev pub KeepsSound : (Metrics → Result GuidanceError Metrics) → Type 0
KeepsSound f = (m : Metrics) → IsSound m → Yields IsSound (f m)

pub for_events-KeepsSound :
    (body : Fields → Metrics → Result GuidanceError Metrics) (events : Log)
    → ((e : Fields) → KeepsSound (body e))
    → KeepsSound (for_events body events)
for_events-KeepsSound body [] k m h = of_ok h
for_events-KeepsSound body (e ∷ rest) k m h =
    then-Yields (k e m h) (for_events-KeepsSound body rest k)

-- Also with the lemmas above, where a step is itself a call that may throw.
pub ruleset yield_rules = (sound_rules, >>=-Yields, of_ok)

pub add_restarts-KeepsSound : (index : ℕ) (events : Log) → KeepsSound (add_restarts index events)
unfolding add_restarts
add_restarts-KeepsSound index [] m h = of_ok h
add_restarts-KeepsSound index (e ∷ rest) m h = >>=-Yields (string_field e "kind") λ kind _.
    >>=-Yields (number_field e "elapsedMs") λ ms _. add_restarts-KeepsSound (suc index) rest _ (
      add_recovery-IsSound ("restart-" ++ₛ decimal index) (kind ++ₛ " restart " ++ₛ decimal index)
        (some (ms * 100)) h)

pub add_readiness-KeepsSound : (index : ℕ) (events : Log) → KeepsSound (add_readiness index events)
unfolding add_readiness
add_readiness-KeepsSound index [] m h = of_ok h
add_readiness-KeepsSound index (e ∷ rest) m h =
    >>=-Yields (number_field e "elapsedMs")
      λ ms _. add_readiness-KeepsSound (suc index) rest _ (add_latency-IsSound _ _ _ _ h)

pub add_restart_metrics-KeepsSound : (events : Log) → KeepsSound (add_restart_metrics events)
unfolding add_restart_metrics
add_restart_metrics-KeepsSound events m h =
    then-Yields (add_restarts-KeepsSound 1 (events_named "fitz_restart_complete" events) m h)
      (add_readiness-KeepsSound 1 (readiness_events false events))

module _ (platform : Platform) where
  pub add_canaries-KeepsSound :
      (values : List (String × Json)) → KeepsSound (add_canaries platform values)
  add_canaries-KeepsSound [] m h = of_ok h
  add_canaries-KeepsSound ((domain, value) ∷ rest) m h =
      >>=-Yields (non_negative_number platform (some value) (domain ++ₛ " canary maximum"))
        λ time _. add_canaries-KeepsSound rest _ (add_latency-IsSound _ _ _ _ h)

  pub add_canary_latencies-KeepsSound :
      (event : Fields) → KeepsSound (add_canary_latencies platform event)
  unfolding add_canary_latencies
  add_canary_latencies-KeepsSound event m h =
      >>=-Yields (record_field event "canaryMaximumMs")
        λ maximums _. add_canaries-KeepsSound (in_order platform (entries maximums)) m h

  pub add_phases-KeepsSound : (values : List Json) → KeepsSound (add_phases platform values)
  unfolding add_phases add_phase
  add_phases-KeepsSound [] m h = of_ok h
  add_phases-KeepsSound (value ∷ rest) m h =
      then-Yields (search (yield_rules, h) depth 12) (add_phases-KeepsSound rest)

  pub add_jobs-IsSound :
      (mode label semantics : String) (jobs : Log) {m : Metrics}
      → IsSound m
      → IsSound (add_jobs platform mode label semantics jobs m)
  unfolding add_jobs
  add_jobs-IsSound mode label semantics [] h = h
  add_jobs-IsSound mode label semantics (job ∷ jobs) {m} h =
      choose (sum_present natural? "entries" (job ∷ jobs))
    where
      choose :
          (n : Option ℕ)
          → IsSound (elim n [
            | none ↦ m
            | some n ↦
                add_count_and_rate
                  (mode ++ₛ "-entries")
                  label
                  n
                  "entries"
                  semantics
                  (sum_present (valid_duration platform) "workerElapsedMs" (job ∷ jobs))
                  m
          ])
      choose none = h
      choose (some n) = add_count_and_rate-IsSound _ _ _ _ _ _ h

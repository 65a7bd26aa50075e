-- ===== src/Guidance/Restarts.antt =====
-- src/operational-guidance.ts: `addRestartMetrics`, `addCanaryLatencies`, and the loops over events.
use Prim.Native.String.{String, ◌++◌ as ◌++ₛ◌}
use fitz_destroyer.Common.{
  ℕ, suc, ◌+◌, ◌*◌, Bool, true, false, ◌&&◌, ◌||◌, Option, some, List, [], ◌∷◌, if◌then◌else◌,
  Result, ok, ◌>>=◌, length,
}
use fitz_destroyer.Logs.{Fields, Log, Json, get_field, is_text}
use fitz_destroyer.Guidance.Readings.{
  GuidanceError, Platform, number_field, string_field, events_named, record_field, record_value,
  array_field, entries, in_order, non_negative_number,
}
use fitz_destroyer.Guidance.Texts.{decimal}
use fitz_destroyer.Guidance.Metrics.{Metrics, observed, greatest, add_recovery, add_latency, ◌|>◌}

-- `for (const event of events)` with a body that may throw
abbrev pub for_events :
    (Fields → Metrics → Result GuidanceError Metrics) → Log → Metrics → Result GuidanceError Metrics
for_events body [] m = ok m
for_events body (e ∷ rest) m = body e m >>= for_events body rest

-- `sum(values.map(...))`, where the map may throw
abbrev pub sum_of {ℓ} :
    {A : Type ℓ} → (A → Result GuidanceError ℕ) → List A → Result GuidanceError ℕ
sum_of read [] = ok 0
sum_of read (x ∷ xs) = do n ← read x; rest ← sum_of read xs; ok (n + rest)

-- `Object.values(domains).map((value) => arrayField(recordValue(value, label), "observed").length)`
unfoldable pub observed_length : String → String × Json → Result GuidanceError ℕ
unfolding array_field
observed_length label entry = do
  domain ← record_value (some entry.1) label
  records ← array_field domain "observed"
  ok (length records)

unfoldable pub add_restarts : (index : ℕ) → Log → Metrics → Result GuidanceError Metrics
unfolding string_field number_field decimal add_recovery
add_restarts index [] m = ok m
add_restarts index (e ∷ rest) m = do
  kind ← string_field e "kind"
  ms ← number_field e "elapsedMs"
  add_restarts (suc index) rest (
      m
      |> add_recovery ("restart-" ++ₛ decimal index) (kind ++ₛ " restart " ++ₛ decimal index)
          (some (ms * 100)))

abbrev pub begins_restart : Option Json → Bool
begins_restart event =
    is_text event "fitz_graceful_stop_started"
    || is_text event "fitz_sigkill_started"
    || is_text event "fitz_cache_discard_started"
    || is_text event "sqrzl_sigkill_started"

-- The loop that collects `readinessEvents`; `pending` is `restartPending`.
unfoldable pub readiness_events : (pending : Bool) → Log → Log
unfolding get_field
readiness_events pending [] = []
readiness_events pending (e ∷ rest) =
    if begins_restart (get_field e "event")
    then readiness_events true rest
    else if is_text (get_field e "event") "fitz_ready" && pending
    then e ∷ readiness_events false rest
    else readiness_events pending rest

unfoldable pub add_readiness : (index : ℕ) → Log → Metrics → Result GuidanceError Metrics
unfolding number_field decimal
add_readiness index [] m = ok m
add_readiness index (e ∷ rest) m = do
  ms ← number_field e "elapsedMs"
  add_readiness (suc index) rest (
      m
      |> add_latency ("readiness-" ++ₛ decimal index) ("Restart readiness " ++ₛ decimal index)
          observed (ms * 100))

unfoldable pub add_restart_metrics : Log → Metrics → Result GuidanceError Metrics
unfolding events_named add_restarts readiness_events add_readiness
add_restart_metrics events m = do
  m' ← add_restarts 1 (events_named "fitz_restart_complete" events) m
  add_readiness 1 (readiness_events false events) m'

module _ (platform : Platform) where
  abbrev pub add_canaries : List (String × Json) → Metrics → Result GuidanceError Metrics
  add_canaries [] m = ok m
  add_canaries ((domain, value) ∷ rest) m = do
    time ← non_negative_number platform (some value) (domain ++ₛ " canary maximum")
    add_canaries rest
        (m |> add_latency ("canary-" ++ₛ domain) (domain ++ₛ " canary maximum") greatest time)

  unfoldable pub add_canary_latencies : Fields → Metrics → Result GuidanceError Metrics
  unfolding record_field
  add_canary_latencies event m = do
    maximums ← record_field event "canaryMaximumMs"
    add_canaries (in_order platform (entries maximums)) m

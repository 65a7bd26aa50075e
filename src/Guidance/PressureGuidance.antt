-- ===== src/Guidance/PressureGuidance.antt =====
-- src/operational-guidance.ts: `extractPressureGuidance`.
use Prim.Native.String.{String, ◌++◌ as ◌++ₛ◌}
use fitz_destroyer.Common.{ℕ, ◌+◌, ◌*◌, Option, some, List, [], ◌∷◌, Result, ok, err, ◌>>=◌}
use fitz_destroyer.Logs.{Json, Fields, get_field}
use fitz_destroyer.Guidance.Readings.{
  GuidanceError, no_selection, Platform, number_field, positive_number_field, optional_number_field,
  array_field, record_value, record_field,
}
use fitz_destroyer.Guidance.Texts.{capitalize}
use fitz_destroyer.Guidance.Metrics.{
  Metrics, empty_metrics, mean, p50, p95, p99, greatest, add_count, add_count_and_rate, add_latency,
  ◌|>◌,
}
use fitz_destroyer.Guidance.Evidence.{
  PressureStageSummary, PressureDomainSummary, parse_pressure_domain,
}
use fitz_destroyer.Guidance.Rating.{
  GuidanceRating, not_rated, Reason, domain_array, assess, signal_domains, signal_broker,
  signal_warnings, records_of, rate_signals,
}

pub record OperationalGuidance : Type 0 where
  pub workload_duration : Option ℕ
  pub metrics : Metrics
  pub rating : GuidanceRating
  pub reasons : List Reason
  pub pressure_domains : List PressureDomainSummary

abbrev pub empty_guidance : Option ℕ → Reason → OperationalGuidance
empty_guidance workload_duration reason = record {
  workload_duration = workload_duration;
  metrics = empty_metrics;
  rating = not_rated;
  reasons = reason ∷ [];
  pressure_domains = [];
}

module _ (platform : Platform) where
  abbrev pub add_stage_latencies : (domain : String) → PressureStageSummary → Metrics → Metrics
  add_stage_latencies domain s m =
      let key : String = domain ++ₛ "-" ++ₛ s.stage ++ₛ "-" in
      let label : String = domain ++ₛ "/" ++ₛ s.stage ++ₛ " " in
      m
      |> add_latency (key ++ₛ "mean") (label ++ₛ "mean") mean s.latency.mean
      |> add_latency (key ++ₛ "p50") (label ++ₛ "p50") p50 s.latency.p50
      |> add_latency (key ++ₛ "p95") (label ++ₛ "p95") p95 s.latency.p95
      |> add_latency (key ++ₛ "p99") (label ++ₛ "p99") p99 s.latency.p99
      |> add_latency (key ++ₛ "max") (label ++ₛ "max") greatest s.latency.max_latency

  unfoldable pub add_stages : (domain : String) → List PressureStageSummary → Metrics → Metrics
  add_stages domain [] m = m
  add_stages domain (s ∷ rest) m = add_stages domain rest (add_stage_latencies domain s m)

  unfoldable pub add_domains : (duration : ℕ) → List PressureDomainSummary → Metrics → Metrics
  unfolding add_count add_count_and_rate add_stages capitalize
  add_domains duration [] m = m
  add_domains duration (d ∷ rest) m = add_domains duration rest (
      m
      |> add_count_and_rate (d.domain ++ₛ "-operations") (capitalize d.domain ++ₛ " operations")
          d.completed_operations "operations" d.completion_semantics (some duration)
      |> add_count (d.domain ++ₛ "-errors") (capitalize d.domain ++ₛ " errors") d.errors "errors"
          "definite workload errors excluding expected shutdown cancellations"
      |> add_stages d.domain d.stages)

  unfoldable pub parse_domains :
      Fields → (duration : ℕ) → List String → Result GuidanceError (List PressureDomainSummary)
  unfolding parse_pressure_domain get_field
  parse_domains aggregate duration [] = ok []
  parse_domains aggregate duration (d ∷ rest) = do
    domain ← parse_pressure_domain platform d (get_field aggregate d) duration
    domains ← parse_domains aggregate duration rest
    ok (domain ∷ domains)

  abbrev pub selected : List String → Result GuidanceError (List String)
  selected [] = err no_selection
  selected (d ∷ ds) = ok (d ∷ ds)

  unfoldable pub extract_pressure_guidance :
      Json → (workload_duration : Option ℕ) → Result GuidanceError OperationalGuidance
  unfolding positive_number_field number_field optional_number_field record_field array_field
      domain_array parse_domains assess signal_domains signal_broker signal_warnings rate_signals
      add_domains get_field
  extract_pressure_guidance value workload_duration = do
    evidence ← record_value (some value) "pressure evidence"
    duration_ms ← positive_number_field evidence "durationMs"
    timeout_ms ← positive_number_field evidence "requestTimeoutMs"
    listed ← domain_array (get_field evidence "selectedDomains")
    domains ← selected listed
    aggregate ← record_field evidence "aggregate"
    pressure_domains ← parse_domains aggregate (duration_ms * 100) domains
    broker ← record_field evidence "brokerSummary"
    timeouts ← number_field broker "ingressDispatchTimeoutsDelta"
    low ← number_field broker "routerBackpressureDelta"
    high ← optional_number_field broker "routerHighLaneBackpressureDelta"
    items ← array_field evidence "warnings"
    warnings ← records_of items
    disclosed ←
        assess (get_field evidence "rssGrowthAssessment")
          (record { to_constrain = []; to_watch = []; to_disclose = [] })
    signals ←
        signal_warnings warnings (
          signal_broker timeouts (low + high)
            (signal_domains timeout_ms pressure_domains disclosed))
    ok (record {
      workload_duration = workload_duration;
      metrics = add_domains (duration_ms * 100) pressure_domains empty_metrics;
      rating = (rate_signals signals).0;
      reasons = (rate_signals signals).1;
      pressure_domains = pressure_domains;
    })

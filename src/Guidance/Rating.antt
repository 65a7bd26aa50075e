-- ===== src/Guidance/Rating.antt =====
-- src/operational-guidance.ts: `extractPressureGuidance`.
use Prim.Native.String.{String}
use text.Mathlib.Text.{◌==◌ as str_eq}
use fitz_destroyer.Common.{
  ℕ, ◌*◌, Bool, Option, none, some, List, [], ◌∷◌, ◌++◌, ltb, if◌then◌else◌, Result, ok, err, ◌>>=◌,
}
use fitz_destroyer.Logs.{Json, string, array, Fields}
use fitz_destroyer.Config.Domains.{all_domains}
use fitz_destroyer.Config.Scenarios.{is_one_of}
use fitz_destroyer.Guidance.Readings.{
  GuidanceError, unknown_domain, unknown_status, not_array, record_value, string_field, items_of,
}
use fitz_destroyer.Guidance.Evidence.{PressureStageSummary, PressureDomainSummary}

pub data GuidanceRating : Type 0 where
  clear watch constrained not_rated : GuidanceRating

-- The reasons' texts, by what they say.
pub data Reason : Type 0 where
  stage_errors : (domain stage : String) → ℕ → Reason
  above_half above_quarter : (domain stage : String) → (p95 timeout_ms : ℕ) → Reason
  ingress_timeouts router_backpressure : ℕ → Reason
  pending_grew rss_grew : Reason
  rss_not_assessed : String → Reason
  no_saturation : Reason
  not_pressure no_evidence : Reason
  unavailable : GuidanceError → Reason
  pressure_unavailable : String → Reason
  events_missing : Reason
  line_malformed line_not_event : ℕ → Reason
  events_unreadable : String → Reason

-- `constrained`, `watch` and `disclosures`
pub record Signals : Type 0 where
  pub to_constrain : List Reason
  pub to_watch : List Reason
  pub to_disclose : List Reason

abbrev pub constrain : Reason → Signals → Signals
constrain reason s = record s { to_constrain = s.to_constrain ++ (reason ∷ []) }

abbrev pub watch_for : Reason → Signals → Signals
watch_for reason s = record s { to_watch = s.to_watch ++ (reason ∷ []) }

abbrev pub domain_of : Json → Result GuidanceError String
domain_of (string d) = if is_one_of d all_domains then ok d else err (unknown_domain (string d))
domain_of value = err (unknown_domain value)

abbrev pub domains_of : List Json → Result GuidanceError (List String)
domains_of [] = ok []
domains_of (x ∷ xs) = do d ← domain_of x; ds ← domains_of xs; ok (d ∷ ds)

unfoldable pub domain_array : Option Json → Result GuidanceError (List String)
unfolding is_one_of
domain_array (some (array xs)) = domains_of (items_of xs)
domain_array value = err (not_array "selectedDomains")

unfoldable pub disclose : String → Fields → Signals → Result GuidanceError Signals
unfolding string_field
disclose status assessment s =
    let reason : Result GuidanceError String = string_field assessment "reason" in
    if str_eq status "not-assessed"
    then (reason >>= λ r.
        ok (record s { to_disclose = s.to_disclose ++ (rss_not_assessed r ∷ []) }))
    else if str_eq status "assessed"
    then ok s
    else err (unknown_status status)

unfoldable pub assess : Option Json → Signals → Result GuidanceError Signals
unfolding string_field disclose
assess none s = ok s
assess (some value) s = do
  assessment ← record_value (some value) "RSS growth assessment"
  status ← string_field assessment "status"
  disclose status assessment s

-- `stage.latency.p95Ms > requestTimeoutMs / 2`, where a time is in hundredths.
abbrev pub is_above_half : ℕ → PressureStageSummary → Bool
is_above_half timeout_ms s = ltb (timeout_ms * 100) (s.latency.p95 * 2)

abbrev pub is_above_quarter : ℕ → PressureStageSummary → Bool
is_above_quarter timeout_ms s = ltb (timeout_ms * 100) (s.latency.p95 * 4)

unfoldable pub signal_stage : (domain : String) → ℕ → PressureStageSummary → Signals → Signals
signal_stage domain timeout_ms stage s =
    let s' : Signals =
      if ltb 0 stage.errors
      then constrain (stage_errors domain stage.stage stage.errors) s
      else s in
    if is_above_half timeout_ms stage
    then constrain (above_half domain stage.stage stage.latency.p95 timeout_ms) s'
    else if is_above_quarter timeout_ms stage
    then watch_for (above_quarter domain stage.stage stage.latency.p95 timeout_ms) s'
    else s'

unfoldable pub signal_stages : (domain : String) → ℕ → List PressureStageSummary → Signals → Signals
unfolding signal_stage
signal_stages domain timeout_ms [] s = s
signal_stages domain timeout_ms (stage ∷ rest) s =
    signal_stages domain timeout_ms rest (signal_stage domain timeout_ms stage s)

unfoldable pub signal_domains : ℕ → List PressureDomainSummary → Signals → Signals
unfolding signal_stages
signal_domains timeout_ms [] s = s
signal_domains timeout_ms (d ∷ rest) s =
    signal_domains timeout_ms rest (signal_stages d.domain timeout_ms d.stages s)

unfoldable pub signal_broker : (timeouts backpressure : ℕ) → Signals → Signals
signal_broker timeouts backpressure s =
    let s' : Signals = if ltb 0 timeouts then constrain (ingress_timeouts timeouts) s else s in
    if ltb 0 backpressure then constrain (router_backpressure backpressure) s' else s'

unfoldable pub signal_code : String → Signals → Signals
signal_code code s =
    let s' : Signals = if str_eq code "pending-growth" then watch_for pending_grew s else s in
    if str_eq code "rss-growth" then watch_for rss_grew s' else s'

unfoldable pub signal_warnings : List Fields → Signals → Result GuidanceError Signals
unfolding string_field signal_code
signal_warnings [] s = ok s
signal_warnings (w ∷ rest) s =
    string_field w "code" >>= λ code. signal_warnings rest (signal_code code s)

abbrev pub records_of : List Json → Result GuidanceError (List Fields)
records_of [] = ok []
records_of (x ∷ xs) = do
  r ← record_value (some x) "pressure warning"
  rs ← records_of xs
  ok (r ∷ rs)

unfoldable pub rate_signals : Signals → GuidanceRating × List Reason
rate_signals s = elim s.to_constrain [
  | reason ∷ reasons ↦ (constrained, (reason ∷ reasons) ++ (s.to_watch ++ s.to_disclose))
  | [] ↦ elim s.to_watch [
    | reason ∷ reasons ↦ (watch, (reason ∷ reasons) ++ s.to_disclose)
    | [] ↦ (clear, no_saturation ∷ s.to_disclose)
  ]
]

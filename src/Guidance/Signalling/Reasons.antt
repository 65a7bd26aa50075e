-- ===== src/Guidance/Signalling/Reasons.antt =====
-- src/operational-guidance.ts: which evidence leaves a reason to constrain the rating or to watch.
use Prim.Native.String.{String}
use mathlib.Core.Path.{subst, ap₂}
use text.Mathlib.Text.{◌==◌ as str_eq}
use fitz_destroyer.Common.{
  ℕ, ◌≡◌, refl, ap, Bool, true, false, not, ◌&&◌, ◌||◌, Option, none, some, List, [], ◌∷◌, ◌++◌,
  ltb, if◌then◌else◌, Result, ok, err, ◌>>=◌, >>=-eq-ok, ok-inj, arith,
}
use fitz_destroyer.Logs.{Json, Fields}
use fitz_destroyer.Guidance.Readings.{GuidanceError, record_value, string_field, unknown_status}
use fitz_destroyer.Guidance.Evidence.{PressureStageSummary, PressureDomainSummary}
use fitz_destroyer.Guidance.Rating.{
  GuidanceRating, clear, watch, constrained, Reason, Signals, assess, disclose, is_above_half,
  is_above_quarter, signal_stage, signal_stages, signal_domains, signal_broker, signal_code,
  signal_warnings, rate_signals, rss_not_assessed, stage_errors, above_half, above_quarter,
  ingress_timeouts, router_backpressure, pending_grew, rss_grew,
}

abbrev pub any {ℓ} : {A : Type ℓ} → (A → Bool) → List A → Bool
any p [] = false
any p (x ∷ xs) = p x || any p xs

abbrev pub is_filled {ℓ} : {A : Type ℓ} → List A → Bool
is_filled [] = false
is_filled (x ∷ xs) = true

-- A stage with errors, or that takes more than half the request's timeout.
abbrev pub is_strained : ℕ → PressureStageSummary → Bool
is_strained timeout_ms s = ltb 0 s.errors || is_above_half timeout_ms s

-- A stage that takes more than a quarter of it, and no more than half.
abbrev pub is_pressed : ℕ → PressureStageSummary → Bool
is_pressed timeout_ms s = not (is_above_half timeout_ms s) && is_above_quarter timeout_ms s

abbrev pub any_stage : (PressureStageSummary → Bool) → List PressureDomainSummary → Bool
any_stage p domains = any (λ d. any p d.stages) domains

-- A warning of growth; a warning without a code is refused before.
abbrev pub names_growth : Result GuidanceError String → Bool
names_growth (ok code) = str_eq code "pending-growth" || str_eq code "rss-growth"
names_growth (err e) = false

abbrev pub is_growth : Fields → Bool
is_growth w = names_growth (string_field w "code")

abbrev pub rating_for : (strained pressed : Bool) → GuidanceRating
rating_for true pressed = constrained
rating_for false true = watch
rating_for false false = clear

-- Whether there are reasons of either kind.
abbrev pub Shows : Bool → Bool → Signals → Type 0
Shows c w s = (is_filled s.to_constrain ≡ c) × (is_filled s.to_watch ≡ w)

is_filled-++ : (xs : List Reason) (r : Reason) → is_filled (xs ++ (r ∷ [])) ≡ true
is_filled-++ [] r = refl
is_filled-++ (x ∷ xs) r = refl

signal_stage-Shows :
    (domain : String) (t : ℕ) (stage : PressureStageSummary) (s : Signals)
    → Shows
        (is_filled s.to_constrain || is_strained t stage)
        (is_filled s.to_watch || is_pressed t stage)
        (signal_stage domain t stage s)
unfolding signal_stage
signal_stage-Shows domain t stage s =
    let errors : Reason = stage_errors domain stage.stage stage.errors in
    let half : Reason = above_half domain stage.stage stage.latency.p95 t in
    let quarter : Reason = above_quarter domain stage.stage stage.latency.p95 t in
    ground (
      arith,
      is_filled-++ s.to_constrain errors,
      is_filled-++ s.to_constrain half,
      is_filled-++ (s.to_constrain ++ (errors ∷ [])) half,
      is_filled-++ s.to_watch quarter,
    )

signal_stages-Shows :
    (domain : String) (t : ℕ) (stages : List PressureStageSummary) (s : Signals)
    → Shows
        (is_filled s.to_constrain || any (is_strained t) stages)
        (is_filled s.to_watch || any (is_pressed t) stages)
        (signal_stages domain t stages s)
unfolding signal_stages
signal_stages-Shows domain t [] s = ground arith
signal_stages-Shows domain t (stage ∷ rest) s = ground (
  arith,
  signal_stages-Shows domain t rest (signal_stage domain t stage s),
  signal_stage-Shows domain t stage s,
)

signal_domains-Shows :
    (t : ℕ) (domains : List PressureDomainSummary) (s : Signals)
    → Shows
        (is_filled s.to_constrain || any_stage (is_strained t) domains)
        (is_filled s.to_watch || any_stage (is_pressed t) domains)
        (signal_domains t domains s)
unfolding signal_domains
signal_domains-Shows t [] s = ground arith
signal_domains-Shows t (d ∷ rest) s = ground (
  arith,
  signal_domains-Shows t rest (signal_stages d.domain t d.stages s),
  signal_stages-Shows d.domain t d.stages s,
)

signal_broker-Shows :
    (timeouts backpressure : ℕ) (s : Signals)
    → Shows
        (is_filled s.to_constrain || ltb 0 timeouts || ltb 0 backpressure)
        (is_filled s.to_watch)
        (signal_broker timeouts backpressure s)
unfolding signal_broker
signal_broker-Shows timeouts backpressure s = ground (
  arith,
  is_filled-++ s.to_constrain (ingress_timeouts timeouts),
  is_filled-++ s.to_constrain (router_backpressure backpressure),
  is_filled-++ (s.to_constrain ++ (ingress_timeouts timeouts ∷ []))
      (router_backpressure backpressure),
)

signal_code-Shows :
    (code : String) (s : Signals)
    → Shows
        (is_filled s.to_constrain)
        (is_filled s.to_watch || str_eq code "pending-growth" || str_eq code "rss-growth")
        (signal_code code s)
unfolding signal_code
signal_code-Shows code s = ground (
  arith,
  is_filled-++ s.to_watch pending_grew,
  is_filled-++ s.to_watch rss_grew,
  is_filled-++ (s.to_watch ++ (pending_grew ∷ [])) rss_grew,
)

signal_warnings-Shows :
    (warnings : List Fields) (s : Signals) (after : Signals)
    → signal_warnings warnings s ≡ ok after
    → Shows (is_filled s.to_constrain) (is_filled s.to_watch || any is_growth warnings) after
unfolding signal_warnings
signal_warnings-Shows [] s after h = subst (Shows _ _) (ok-inj h) (ground arith)
signal_warnings-Shows (w ∷ rest) s after h =
    let (code, e, h') = >>=-eq-ok (string_field w "code") _ h in
    let (c, p) = signal_warnings-Shows rest (signal_code code s) after h' in
    let (c', p') = signal_code-Shows code s in ground (arith, c, p, c', p', ap names_growth e)

pub rate_signals-rating :
    (s : Signals)
    → (rate_signals s).0 ≡ rating_for (is_filled s.to_constrain) (is_filled s.to_watch)
unfolding rate_signals
rate_signals-rating s = ground arith

-- The disclosures are no reasons for a rating.
pub assess-Shows :
    (value : Option Json) (s : Signals) (after : Signals)
    → assess value s ≡ ok after
    → Shows (is_filled s.to_constrain) (is_filled s.to_watch) after
unfolding assess disclose
assess-Shows none s after h = subst (Shows _ _) (ok-inj h) (refl, refl)
assess-Shows (some value) s after h =
    let (assessment, _, h1) = >>=-eq-ok (record_value (some value) "RSS growth assessment") _ h in
    let (status, _, h2) = >>=-eq-ok (string_field assessment "status") _ h1 in
    choose (str_eq status "not-assessed") (str_eq status "assessed")
      (string_field assessment "reason") status h2
  where
    choose :
        (b c : Bool) (reason : Result GuidanceError String) (status : String)
        → (if b
            then (reason >>= λ r.
                ok (record s { to_disclose = s.to_disclose ++ (rss_not_assessed r ∷ []) }))
            else if c
            then ok s
            else err (unknown_status status))
          ≡ ok after
        → Shows (is_filled s.to_constrain) (is_filled s.to_watch) after
    choose true c (ok r) status e = subst (Shows _ _) (ok-inj e) (refl, refl)
    choose true c (err x) status e = cc
    choose false true reason status e = subst (Shows _ _) (ok-inj e) (refl, refl)
    choose false false reason status e = cc

abbrev pub unsignalled : Signals
unsignalled = record { to_constrain = []; to_watch = []; to_disclose = [] }

abbrev pub signalled :
    ℕ → List PressureDomainSummary → (timeouts backpressure : ℕ) → Signals → Signals
signalled timeout_ms domains timeouts backpressure s =
    signal_broker timeouts backpressure (signal_domains timeout_ms domains s)

pub signals-rating :
    (timeout_ms : ℕ) (domains : List PressureDomainSummary) (timeouts backpressure : ℕ)
    (warnings : List Fields) (disclosed after : Signals)
    → Shows false false disclosed
    → signal_warnings warnings (signalled timeout_ms domains timeouts backpressure disclosed)
      ≡ ok after
    → rating_for (is_filled after.to_constrain) (is_filled after.to_watch)
      ≡ rating_for
          (any_stage (is_strained timeout_ms) domains || ltb 0 timeouts || ltb 0 backpressure)
          (any_stage (is_pressed timeout_ms) domains || any is_growth warnings)
signals-rating timeout_ms domains timeouts backpressure warnings disclosed after d h =
    let s : Signals = signal_domains timeout_ms domains disclosed in
    let (c1, w1) = signal_domains-Shows timeout_ms domains disclosed in
    let (c2, w2) = signal_broker-Shows timeouts backpressure s in
    let (c3, w3) = signal_warnings-Shows warnings (signal_broker timeouts backpressure s) after h in
    ap₂ rating_for (ground (arith, c1, c2, c3, d.0)) (ground (arith, w1, w2, w3, d.1))

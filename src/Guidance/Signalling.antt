-- ===== src/Guidance/Signalling.antt =====
-- src/operational-guidance.ts: the rating follows the evidence.
mod Reasons
use Prim.Native.String.{String}
use mathlib.Core.Path.{subst, ap₂}
use text.Mathlib.Text.{◌==◌ as str_eq}
use fitz_destroyer.Common.{
  ℕ, ◌+◌, ◌*◌, ◌≡◌, refl, ap, ◌∙◌, Bool, true, false, not, ◌&&◌, ◌||◌, Option, none, some, List, [],
  ◌∷◌, ◌++◌, ltb, if◌then◌else◌, Result, ok, err, ◌>>=◌, >>=-eq-ok, ok-inj, Yields, of_ok,
  >>=-Yields, Yields-ok, arith,
}
use fitz_destroyer.Logs.{Json, Fields, get_field}
use fitz_destroyer.Guidance.Readings.{
  GuidanceError, Platform, number_field, optional_number_field, positive_number_field, array_field,
  record_value, record_field, string_field, unknown_status,
}
use fitz_destroyer.Guidance.Evidence.{PressureStageSummary, PressureDomainSummary}
use fitz_destroyer.Guidance.Rating.{
  GuidanceRating, clear, watch, constrained, Reason, Signals, domain_array, assess, disclose,
  is_above_half, is_above_quarter, signal_stage, signal_stages, signal_domains, signal_broker,
  signal_code, signal_warnings, records_of, rate_signals, rss_not_assessed, stage_errors,
  above_half, above_quarter, ingress_timeouts, router_backpressure, pending_grew, rss_grew,
}
use fitz_destroyer.Guidance.PressureGuidance.{
  OperationalGuidance, extract_pressure_guidance, parse_domains, selected,
}
use fitz_destroyer.Guidance.Signalling.Reasons.{
  any, is_filled, any_stage, is_strained, is_pressed, names_growth, is_growth, rating_for, Shows,
  unsignalled, signalled, assess-Shows, signals-rating, rate_signals-rating,
}

-- What the rating of some evidence is, in terms of the evidence.
abbrev pub IsRated : Json → OperationalGuidance → Type 0
IsRated value g =
    (evidence : Fields) × (broker : Fields) × (timeout_ms : ℕ) × (timeouts : ℕ) × (low : ℕ)
    × (high : ℕ) × (items : List Json) × (warnings : List Fields) × (record_value (some value)
          "pressure evidence"
        ≡ ok evidence)
    × (positive_number_field evidence "requestTimeoutMs" ≡ ok timeout_ms)
    × (record_field evidence "brokerSummary" ≡ ok broker)
    × (number_field broker "ingressDispatchTimeoutsDelta" ≡ ok timeouts)
    × (number_field broker "routerBackpressureDelta" ≡ ok low)
    × (optional_number_field broker "routerHighLaneBackpressureDelta" ≡ ok high)
    × (array_field evidence "warnings" ≡ ok items)
    × (records_of items ≡ ok warnings)
    × (g.rating
        ≡ rating_for
            (any_stage (is_strained timeout_ms) g.pressure_domains
              || ltb 0 timeouts
              || ltb 0 (low + high))
            (any_stage (is_pressed timeout_ms) g.pressure_domains || any is_growth warnings))

extract_pressure_guidance-Yields :
    (platform : Platform) (value : Json) (duration : Option ℕ)
    → Yields (IsRated value) (extract_pressure_guidance platform value duration)
unfolding extract_pressure_guidance
extract_pressure_guidance-Yields platform value duration =
    >>=-Yields (record_value (some value) "pressure evidence") λ evidence e0.
      >>=-Yields (positive_number_field evidence "durationMs") λ ms e1.
        >>=-Yields (positive_number_field evidence "requestTimeoutMs") λ timeout e2.
          >>=-Yields (domain_array (get_field evidence "selectedDomains")) λ listed e3.
            >>=-Yields (selected platform listed) λ names e4.
              >>=-Yields (record_field evidence "aggregate") λ aggregate e5.
                >>=-Yields (parse_domains platform aggregate (ms * 100) names) λ domains e6.
                  >>=-Yields (record_field evidence "brokerSummary") λ broker e7.
                    >>=-Yields (number_field broker "ingressDispatchTimeoutsDelta") λ timeouts e8.
                      >>=-Yields (number_field broker "routerBackpressureDelta") λ low e9.
                        >>=-Yields (optional_number_field broker "routerHighLaneBackpressureDelta")
                          λ high e10. >>=-Yields (array_field evidence "warnings") λ items e11.
                            >>=-Yields (records_of items) λ warnings e12.
                              >>=-Yields
                                (assess (get_field evidence "rssGrowthAssessment") unsignalled)
                                λ disclosed e13.
                                  >>=-Yields
                                    (signal_warnings warnings
                                      (signalled timeout domains timeouts (low + high) disclosed))
                                    λ signals e14.
                                      let d : Shows false false disclosed =
                                        assess-Shows (get_field evidence "rssGrowthAssessment")
                                          unsignalled disclosed e13 in
                                      of_ok (
                                        evidence,
                                        broker,
                                        timeout,
                                        timeouts,
                                        low,
                                        high,
                                        items,
                                        warnings,
                                        e0,
                                        e2,
                                        e7,
                                        e8,
                                        e9,
                                        e10,
                                        e11,
                                        e12,
                                        rate_signals-rating signals
                                            ∙ signals-rating timeout domains timeouts (low + high)
                                                warnings disclosed signals d e14,
                                      )

-- When pressure evidence is accepted, the rating is constrained exactly when a stage has errors, or a
-- 95th percentile of more than half the request's timeout, or the broker's dispatch timeouts or its
-- router's backpressure grew; otherwise watch exactly when a stage has more than a quarter of the
-- timeout or a warning is of growth; and otherwise clear.
pub extract_pressure_guidance-IsRated :
    (platform : Platform) (value : Json) (duration : Option ℕ) {g : OperationalGuidance}
    → extract_pressure_guidance platform value duration ≡ ok g
    → IsRated value g
extract_pressure_guidance-IsRated platform value duration h =
    Yields-ok (extract_pressure_guidance-Yields platform value duration) h

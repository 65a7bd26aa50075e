-- ===== src/Guidance/Cancellations.antt =====
-- src/operational-guidance.ts: what a stage's summary says of its failures.
use mathlib.Core.Path.{subst}
use Prim.Native.String.{String, ◌++◌ as ◌++ₛ◌}
use fitz_destroyer.Common.{
  ℕ, ◌+◌, ◌-◌, ◌≤◌, ◌≡◌, refl, Option, none, some, min, ok, >>=-eq-ok, ok-inj, arith, Yields,
  >>=-Yields, of_ok, Yields-ok,
}
use fitz_destroyer.Logs.{Json, Fields, get_field}
use fitz_destroyer.Pressure.Latency.{hundredths, latency_summary}
use fitz_destroyer.Guidance.Readings.{
  Platform, number_field, record_value, optional_number_field, record_field,
}
use fitz_destroyer.Guidance.Evidence.{
  Cancellations, inferred, checked, legacy_signal_cancellations, expected_shutdown_cancellations,
  PressureStageSummary, parse_stage, latency_histogram,
}

-- No more cancellations than outcomes, of either kind.
abbrev pub IsWithin : (failed ambiguous : ℕ) → Cancellations → Type 0
IsWithin failed ambiguous c = (c.failed ≤ failed) × (c.ambiguous ≤ ambiguous)

-- Where the cancellations come from: a record of them names both numbers; without one they are as
-- many as the older evidence names, or all the outcomes when it names more, and are taken off the
-- ambiguous outcomes first.
abbrev pub AreTaken :
    (value samples : Option Json) → String → (failed ambiguous legacy : ℕ) → Cancellations → Type 0
AreTaken none samples label failed ambiguous legacy c =
    let total = min (failed + ambiguous) (legacy + legacy_signal_cancellations samples) in
    (c.ambiguous ≡ min ambiguous total) × (c.failed + c.ambiguous ≡ total)
AreTaken (some value) samples label failed ambiguous legacy c =
    (r : Fields) × (record_value (some value) (label ++ₛ " expectedShutdownCancellations") ≡ ok r)
    × (number_field r "failed" ≡ ok c.failed)
    × (number_field r "ambiguous" ≡ ok c.ambiguous)

inferred-AreTaken :
    (samples : Option Json) (label : String) (failed ambiguous legacy : ℕ)
    → let c = inferred failed ambiguous (legacy + legacy_signal_cancellations samples) in
      IsWithin failed ambiguous c × AreTaken none samples label failed ambiguous legacy c
inferred-AreTaken samples label failed ambiguous legacy = ground arith

checked-IsWithin :
    (failed ambiguous : ℕ) (expected : Cancellations) (label : String) {c : Cancellations}
    → checked failed ambiguous expected label ≡ ok c
    → IsWithin failed ambiguous c × (expected ≡ c)
checked-IsWithin failed ambiguous expected label h = ground (arith, h)

-- The cancellations that are taken off a stage's outcomes are no more than its failures and its
-- ambiguous outcomes.
expected_shutdown_cancellations-AreTaken :
    (value : Option Json) (failed ambiguous legacy : ℕ) (samples : Option Json) (label : String)
    (c : Cancellations)
    → expected_shutdown_cancellations value failed ambiguous legacy samples label ≡ ok c
    → IsWithin failed ambiguous c × AreTaken value samples label failed ambiguous legacy c
unfolding expected_shutdown_cancellations
expected_shutdown_cancellations-AreTaken none failed ambiguous legacy samples label c h =
    subst (λ d. IsWithin failed ambiguous d × AreTaken none samples label failed ambiguous legacy d)
      (ok-inj h) (inferred-AreTaken samples label failed ambiguous legacy)
expected_shutdown_cancellations-AreTaken (some value) failed ambiguous legacy samples label c h =
    let (r, e1, h1) = >>=-eq-ok (record_value (some value) _) _ h in
    let (f, e2, h2) = >>=-eq-ok (number_field r "failed") _ h1 in
    let (a, e3, h3) = >>=-eq-ok (number_field r "ambiguous") _ h2 in
    let (within, same) =
      checked-IsWithin failed ambiguous (record { failed = f; ambiguous = a }) label h3 in
    let failed_read = subst (λ d. number_field r "failed" ≡ ok d.failed) same e2 in
    let ambiguous_read = subst (λ d. number_field r "ambiguous" ≡ ok d.ambiguous) same e3 in
    (within, (r, e1, failed_read, ambiguous_read))

-- What a stage's summary says of `failed` failures and `ambiguous` ambiguous outcomes.
abbrev pub IsAccounted :
    (value samples : Option Json)
    → String
    → (failed ambiguous legacy : ℕ) → PressureStageSummary
    → Type 0
IsAccounted value samples label failed ambiguous legacy s =
    (c : Cancellations) × AreTaken value samples label failed ambiguous legacy c
    × (s.errors + c.failed ≡ failed)
    × (c.ambiguous ≤ s.ambiguous_outcomes)
    × (s.ambiguous_outcomes ≡ ambiguous)
    × (s.expected_cancellations ≡ c.failed + c.ambiguous)

accounted :
    (value samples : Option Json) (label : String) (failed ambiguous legacy : ℕ) (c : Cancellations)
    → IsWithin failed ambiguous c
    → AreTaken value samples label failed ambiguous legacy c
    → (s : PressureStageSummary) → s.errors ≡ failed - c.failed
    → s.ambiguous_outcomes ≡ ambiguous
    → s.expected_cancellations ≡ c.failed + c.ambiguous
    → IsAccounted value samples label failed ambiguous legacy s
accounted value samples label failed ambiguous legacy c within taken s e a x =
    (c, taken, omega (arith, within.0, e), omega (arith, within.1, a), a, x)

-- The same with the record's fields.
abbrev pub IsSummaryOf : (domain : String) → String × Json → PressureStageSummary → Type 0
IsSummaryOf domain entry s =
    (r : Fields) × (classes : Fields) × (failed : ℕ) × (ambiguous : ℕ) × (legacy : ℕ)
    × (record_value (some entry.1) (domain ++ₛ "/" ++ₛ entry.0) ≡ ok r)
    × (record_field r "errorClasses" ≡ ok classes)
    × (number_field r "failed" ≡ ok failed)
    × (number_field r "ambiguous" ≡ ok ambiguous)
    × (optional_number_field classes "cancelled" ≡ ok legacy)
    × IsAccounted (get_field r "expectedShutdownCancellations") (get_field r "errorSamples")
        (domain ++ₛ "/" ++ₛ entry.0) failed ambiguous legacy s

parse_stage-Yields :
    (platform : Platform) (domain : String) (entry : String × Json)
    → Yields (IsSummaryOf domain entry) (parse_stage platform domain entry)
unfolding parse_stage
parse_stage-Yields platform domain entry =
    let value : Fields → Option Json = λ r. get_field r "expectedShutdownCancellations" in
    let samples : Fields → Option Json = λ r. get_field r "errorSamples" in
    let name : String = domain ++ₛ "/" ++ₛ entry.0 in
    >>=-Yields (record_value (some entry.1) name) λ r e0.
      >>=-Yields
        (latency_histogram platform (get_field r "latencyHistogram")
          (domain ++ₛ "/" ++ₛ entry.0 ++ₛ " latencyHistogram"))
        λ histogram e1. >>=-Yields (record_field r "errorClasses") λ classes e2.
          >>=-Yields (number_field r "failed") λ failed e3.
            >>=-Yields (number_field r "ambiguous") λ ambiguous e4.
              >>=-Yields (optional_number_field classes "cancelled") λ legacy e5.
                >>=-Yields
                  (expected_shutdown_cancellations (value r) failed ambiguous legacy (samples r)
                    name)
                  λ c e6. >>=-Yields (number_field r "started") λ started e7.
                    >>=-Yields (number_field r "succeeded") λ succeeded e8.
                      let (within, taken) =
                        expected_shutdown_cancellations-AreTaken (value r) failed ambiguous legacy
                          (samples r) name c e6 in
                      of_ok (
                        r,
                        classes,
                        failed,
                        ambiguous,
                        legacy,
                        e0,
                        e2,
                        e3,
                        e4,
                        e5,
                        accounted (value r) (samples r) name failed ambiguous legacy c within taken
                            (record {
                              stage = entry.0;
                              started = started;
                              succeeded = succeeded;
                              errors = failed - c.failed;
                              ambiguous_outcomes = ambiguous;
                              expected_cancellations = c.failed + c.ambiguous;
                              latency = latency_summary hundredths histogram;
                            })
                            refl refl refl,
                      )

-- When a stage's record is accepted, its failures are the errors of the summary and the expected
-- cancellations among them, its ambiguous outcomes are the summary's and the expected cancellations
-- among them are no more. Where the record has the expected cancellations, these are its numbers of
-- failed and of ambiguous ones; elsewhere they are as many as the older evidence names, or all the
-- outcomes when it names more, the ambiguous ones first.
pub parse_stage-IsSummaryOf :
    (platform : Platform) (domain : String) (entry : String × Json) {s : PressureStageSummary}
    → parse_stage platform domain entry ≡ ok s
    → IsSummaryOf domain entry s
parse_stage-IsSummaryOf platform domain entry h =
    Yields-ok (parse_stage-Yields platform domain entry) h

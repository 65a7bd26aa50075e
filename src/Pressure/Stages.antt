-- ===== src/Pressure/Stages.antt =====
-- src/pressure.ts: the metrics of a stage, the classes of errors and `recordStageError`. A regular
-- expression is given to the platform as it is written.
pub mod Accounting
use Prim.Native.String.{String, ◌++◌ as ◌++ₛ◌}
use text.Mathlib.Text.{◌==◌ as str_eq}
use fitz_destroyer.Common.{
  ℕ, ◌+◌, Bool, true, false, ◌||◌, List, [], ◌∷◌, ◌++◌, length, ltb, ◌==◌, if◌then◌else◌,
}
use fitz_destroyer.Scenario.Failure.{Thrown, name_of, error_message}
use fitz_destroyer.Pressure.Latency.{LatencyHistogram, empty_histogram}

pub data NormalizedErrorClass : Type 0 where
  timeout connection capacity conflict cancelled protocol unknown : NormalizedErrorClass

-- `errorClass === other`: equal positions in the type's list.
abbrev class_index : NormalizedErrorClass → ℕ
class_index timeout = 0
class_index connection = 1
class_index capacity = 2
class_index conflict = 3
class_index cancelled = 4
class_index protocol = 5
class_index unknown = 6

abbrev pub is_class : NormalizedErrorClass → NormalizedErrorClass → Bool
is_class c d = class_index c == class_index d

-- The classes that have a number, in the order in which they came.
abbrev pub ErrorClasses : Type 0
ErrorClasses = List (NormalizedErrorClass × ℕ)

-- `errorClasses[errorClass] ?? 0`
pub class_count : ErrorClasses → NormalizedErrorClass → ℕ
class_count [] c = 0
class_count ((d, n) ∷ rest) c = if is_class d c then n else class_count rest c

-- `errorClasses[errorClass] = (errorClasses[errorClass] ?? 0) + 1`
unfoldable pub add_error_class : NormalizedErrorClass → ErrorClasses → ErrorClasses
add_error_class c [] = (c, 1) ∷ []
add_error_class c ((d, n) ∷ rest) =
    if is_class d c then (d, n + 1) ∷ rest else (d, n) ∷ add_error_class c rest

pub record StageMetrics : Type 0 where
  pub started : ℕ
  pub succeeded : ℕ
  pub failed : ℕ
  pub ambiguous : ℕ
  pub retryable_backpressure : ℕ
  pub expected_failed : ℕ
  pub expected_ambiguous : ℕ
  pub latency : LatencyHistogram
  pub error_classes : ErrorClasses
  pub error_samples : List (NormalizedErrorClass × String)

unfoldable pub create_stage_metrics : StageMetrics
create_stage_metrics = record {
  started = 0;
  succeeded = 0;
  failed = 0;
  ambiguous = 0;
  retryable_backpressure = 0;
  expected_failed = 0;
  expected_ambiguous = 0;
  latency = empty_histogram;
  error_classes = [];
  error_samples = [];
}

-- Two counters, of which an error adds to the first or to the second.
abbrev pub one_if : Bool → ℕ
one_if true = 1
one_if false = 0

-- `matches pattern text` is `pattern.test(text)`.
module _ (matches : (pattern text : String) → Bool) where
  unfoldable pub normalize_error_class : Thrown → NormalizedErrorClass
  normalize_error_class error =
      let message = error_message error in
      let both = name_of error ++ₛ " " ++ₛ message in
      if str_eq (name_of error) "TimeoutError"
        || matches "/\\b(?:timeout|timed? out|deadline)\\b/iu" message
      then timeout
      else if matches "/\\b(?:abort|cancel)\\w*\\b/iu" both
          || matches "/\\breceived SIG(?:INT|TERM)\\b/u" message
      then cancelled
      else if matches
          "/\\b(?:queuefull|requestqueuefull|capacity|overload|backpressure|mailbox full)\\b/iu"
          both
      then capacity
      else if matches "/\\b(?:conflict|expectedoffsetmismatch|already exists|invalid token)\\b/iu"
          both
      then conflict
      else if matches
          "/\\b(?:socket|connection|connect|disconnect|network|econn|closed|websocket)\\b/iu" both
      then connection
      else if matches
          "/\\b(?:protocol|frame|codec|decode|encode|tlv|buffer overflow|cannot read)\\b/iu" both
      then protocol
      else unknown

  unfoldable pub is_ambiguous_durable_error : Thrown → Bool
  unfolding normalize_error_class
  is_ambiguous_durable_error error =
      let error_class = normalize_error_class error in
      is_class error_class timeout
      || is_class error_class connection
      || is_class error_class cancelled
      || is_class error_class protocol

  -- The metrics afterwards and the class that is returned.
  unfoldable pub record_stage_error :
      StageMetrics
      → Thrown
      → (is_ambiguous expected_shutdown : Bool) → StageMetrics × NormalizedErrorClass
  unfolding normalize_error_class add_error_class
  record_stage_error m error is_ambiguous expected_shutdown =
      let error_class = normalize_error_class error in
      let counted =
        if is_ambiguous
        then record m {
          ambiguous = m.ambiguous + 1;
          expected_ambiguous = m.expected_ambiguous + one_if expected_shutdown;
        }
        else record m {
          failed = m.failed + 1;
          expected_failed = m.expected_failed + one_if expected_shutdown;
        } in
      (
        record counted {
          error_classes = add_error_class error_class counted.error_classes;
          error_samples =
              if ltb (length counted.error_samples) 5
              then counted.error_samples ++ ((error_class, error_message error) ∷ [])
              else counted.error_samples;
        },
        error_class,
      )

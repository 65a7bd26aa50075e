-- ===== src/Pressure/Stages/Accounting.antt =====
-- The metrics of a stage account for the errors that were recorded.
use Prim.Native.String.{String}
use mathlib.Core.List.{append-nil, append_assoc, map-append}
use fitz_destroyer.Common.{
  ℕ, zero, suc, ◌+◌, ◌≡◌, refl, Bool, not, ◌&&◌, List, [], ◌∷◌, ◌++◌, map, length, take, ltb,
  if◌then◌else◌, arith,
}
use fitz_destroyer.Scenario.Failure.{Thrown, error_message}
use fitz_destroyer.Pressure.Stages.{
  NormalizedErrorClass, is_class, ErrorClasses, class_count, add_error_class, StageMetrics,
  create_stage_metrics, one_if, normalize_error_class, record_stage_error,
}

-- The arguments of a call of `recordStageError` after the metrics.
pub record StageError : Type 0 where
  pub error : Thrown
  pub is_ambiguous : Bool
  pub expected_shutdown : Bool

abbrev pub count_if {ℓ} : {A : Type ℓ} → (A → Bool) → List A → ℕ
count_if p [] = 0
count_if p (x ∷ xs) = one_if (p x) + count_if p xs

count_if-append {ℓ} :
    {A : Type ℓ} (p : A → Bool) (xs : List A) (y : A)
    → count_if p (xs ++ (y ∷ [])) ≡ count_if p xs + one_if (p y)
count_if-append p [] y = omega arith
count_if-append p (x ∷ xs) y = omega (arith, count_if-append p xs y)

take-nil {ℓ} : {A : Type ℓ} (n : ℕ) → ◌≡◌ {A = List A} (take n []) []
take-nil zero = refl
take-nil (suc n) = refl

take-append_last {ℓ} :
    {A : Type ℓ} (n : ℕ) (xs : List A) (y : A)
    → take n (xs ++ (y ∷ []))
      ≡ (if ltb (length (take n xs)) n then take n xs ++ (y ∷ []) else take n xs)
take-append_last zero xs y = ground arith
take-append_last (suc n) [] y = rw (take-nil n) (ground arith)
take-append_last (suc n) (x ∷ xs) y = ground (arith, take-append_last n xs y)

class_count-add_error_class :
    (c d : NormalizedErrorClass) (classes : ErrorClasses)
    → class_count (add_error_class c classes) d ≡ class_count classes d + one_if (is_class c d)
unfolding class_count add_error_class
class_count-add_error_class c d [] = ground arith
class_count-add_error_class c d ((e, n) ∷ rest) =
    ground (arith, class_count-add_error_class c d rest)

module _ (matches : (pattern text : String) → Bool) where
  abbrev pub class_of : StageError → NormalizedErrorClass
  class_of e = normalize_error_class matches e.error

  abbrev pub sample_of : StageError → NormalizedErrorClass × String
  sample_of e = (class_of e, error_message e.error)

  -- Calls in turn, on the metrics of one stage.
  unfoldable pub record_errors : List StageError → StageMetrics → StageMetrics
  unfolding record_stage_error
  record_errors [] m = m
  record_errors (e ∷ rest) m =
      record_errors rest (record_stage_error matches m e.error e.is_ambiguous e.expected_shutdown).0

  -- What the metrics say of the errors, the first of them first.
  pub record Accounts (errors : List StageError) (m : StageMetrics) : Type 0 where
    pub failed : m.failed ≡ count_if (λ e. not e.is_ambiguous) errors
    pub ambiguous : m.ambiguous ≡ count_if (λ e. e.is_ambiguous) errors
    pub expected_failed :
        m.expected_failed ≡ count_if (λ e. not e.is_ambiguous && e.expected_shutdown) errors
    pub expected_ambiguous :
        m.expected_ambiguous ≡ count_if (λ e. e.is_ambiguous && e.expected_shutdown) errors
    pub classes :
        (c : NormalizedErrorClass)
        → class_count m.error_classes c ≡ count_if (λ e. is_class (class_of e) c) errors
    pub samples : m.error_samples ≡ take 5 (map sample_of errors)

  created-Accounts : Accounts [] create_stage_metrics
  unfolding create_stage_metrics class_count
  created-Accounts = record {
    failed = refl;
    ambiguous = refl;
    expected_failed = refl;
    expected_ambiguous = refl;
    classes = λ c. refl;
    samples = refl;
  }

  record_stage_error-Accounts :
      (errors : List StageError) (e : StageError) (m : StageMetrics)
      → Accounts errors m
      → Accounts
          (errors ++ (e ∷ []))
          (record_stage_error matches m e.error e.is_ambiguous e.expected_shutdown).0
  unfolding record_stage_error
  record_stage_error-Accounts errors e m a = record {
    failed = ground (arith, a.failed, count_if-append (λ e. not e.is_ambiguous) errors e);
    ambiguous = ground (arith, a.ambiguous, count_if-append (λ e. e.is_ambiguous) errors e);
    expected_failed = ground (
      arith,
      a.expected_failed,
      count_if-append (λ e. not e.is_ambiguous && e.expected_shutdown) errors e,
    );
    expected_ambiguous = ground (
      arith,
      a.expected_ambiguous,
      count_if-append (λ e. e.is_ambiguous && e.expected_shutdown) errors e,
    );
    classes = λ c. ground (
      arith,
      a.classes c,
      count_if-append (λ e. is_class (class_of e) c) errors e,
      class_count-add_error_class (class_of e) c m.error_classes,
    );
    samples = ground (
      arith,
      a.samples,
      take-append_last 5 (map sample_of errors) (sample_of e),
      map-append sample_of errors (e ∷ []),
    );
  }

  record_errors-Accounts_from :
      (before rest : List StageError) (m : StageMetrics)
      → Accounts before m
      → Accounts (before ++ rest) (record_errors rest m)
  unfolding record_errors
  record_errors-Accounts_from before [] m a = rw append-nil a
  record_errors-Accounts_from before (e ∷ rest) m a = rw (← append_assoc before (e ∷ []) rest) (
      record_errors-Accounts_from (before ++ (e ∷ [])) rest _
        (record_stage_error-Accounts before e m a))

  -- After any errors of a stage: it has counted each of them once, as ambiguous or as failed, and the
  -- expected ones of either kind; each class has as many as there are errors of the class; and the
  -- samples are the first five errors, in their order.
  pub record_errors-Accounts :
      (errors : List StageError) → Accounts errors (record_errors errors create_stage_metrics)
  record_errors-Accounts errors = record_errors-Accounts_from [] errors _ created-Accounts

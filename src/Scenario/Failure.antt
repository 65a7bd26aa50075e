-- ===== src/Scenario/Failure.antt =====
-- src/scenario.ts: `errorMessage` and `classifyFailure`, with their regular expressions. A text is
-- searched as the list of its code points.
pub mod Words
use Prim.Native.String.{String, [] as []ₛ, ◌∷◌ as ◌∷ₛ◌, ◌++◌ as ◌++ₛ◌}
use Prim.Native.Char.{code}
use text.Mathlib.Text.{◌==◌ as str_eq}
use fitz_destroyer.Common.{
  ℕ, ◌+◌, Bool, true, false, not, ◌&&◌, ◌||◌, List, [], ◌∷◌, map, if◌then◌else◌, leb, ◌==◌,
}
use fitz_destroyer.Suite.{FailureClassification, in_setup, in_workload, in_assertion, in_timeout}

-- What a call throws: an `Error`, or another value, given as its `String(…)`.
pub data Thrown : Type 0 where
  error_object : (name message : String) → Thrown
  other_value : String → Thrown

abbrev pub name_of : Thrown → String
name_of (error_object name message) = name
name_of (other_value text) = ""

abbrev pub error_message : Thrown → String
error_message (error_object name message) = name ++ₛ ": " ++ₛ message
error_message (other_value text) = text

-- The case folding of the flags `iu`, as far as it ends in a letter of the patterns: the capitals,
-- the long s (U+017F) and the Kelvin sign (U+212A).
abbrev pub fold : ℕ → ℕ
fold c =
    if leb 65 c && leb c 90 then c + 32 else if c == 383 then 115 else if c == 8_490 then 107 else c

-- `\w`
abbrev pub is_word : ℕ → Bool
is_word c = (leb 97 c && leb c 122) || (leb 65 c && leb c 90) || (leb 48 c && leb c 57) || (c == 95)

-- The closing `\b`, after a word.
abbrev pub ends : List ℕ → Bool
ends [] = true
ends (c ∷ rest) = not (is_word c)

unfoldable pub begins : (word text : List ℕ) → Bool
begins [] text = ends text
begins (a ∷ word) [] = false
begins (a ∷ word) (c ∷ text) = (a == c) && begins word text

unfoldable pub begins_one : (words : List (List ℕ)) (text : List ℕ) → Bool
unfolding begins
begins_one [] text = false
begins_one (word ∷ words) text = begins word text || begins_one words text

-- `\b(?:…)\b` tried at each position; `inside` says whether a word's character comes before.
unfoldable pub found : List (List ℕ) → (inside : Bool) → List ℕ → Bool
unfolding begins_one
found words inside [] = not inside && begins_one words []
found words inside (c ∷ rest) =
    (not inside && begins_one words (c ∷ rest)) || found words (is_word c) rest

unfoldable pub codes : String → List ℕ
codes []ₛ = []
codes (c ∷ₛ text) = code c ∷ codes text

abbrev pub timeout_words : List String
timeout_words = "time out" ∷ "timed out" ∷ "timeout" ∷ "deadline" ∷ []

abbrev pub assertion_words : List String
assertion_words =
    "expected" ∷ "unexpected" ∷ "missing" ∷ "mismatch" ∷ "duplicate" ∷ "disappeared" ∷ "observed"
    ∷ "omitted" ∷ "did not" ∷ "does not" ∷ "quiesce" ∷ "reused" ∷ []

-- `/\b(?:…)\b/iu.test(text)`
unfoldable pub test : List String → String → Bool
unfolding found codes
test words text = found (map codes words) false (map fold (codes text))

pub data Phase : Type 0 where
  setup workload : Phase

abbrev pub is_timeout : Thrown → Bool
is_timeout e = str_eq (name_of e) "TimeoutError" || test timeout_words (error_message e)

abbrev pub is_assertion : Thrown → Bool
is_assertion e = str_eq (name_of e) "AssertionError" || test assertion_words (error_message e)

unfoldable pub classify_failure : Thrown → Phase → FailureClassification
unfolding test
classify_failure e setup = in_setup
classify_failure e workload =
    if is_timeout e then in_timeout else if is_assertion e then in_assertion else in_workload

-- ===== src/Config/Options.antt =====
-- src/config.ts: the options as they are collected, and the numbers that are read from them. The
-- map of the options is an association list in the order of their first setting.
use Prim.Native.String.{String}
use text.Mathlib.Text.{◌==◌ as str_eq, starts_with}
use fitz_destroyer.Common.{
  ℕ, ◌≤◌, ◌≡◌, Bool, true, not, ◌&&◌, ◌||◌, Option, none, some, List, [], ◌∷◌, leb, if◌then◌else◌,
  Result, ok, err, guard, for_each,
}
use fitz_destroyer.Config.Scenarios.{is_one_of}

pub data ConfigError : Type 0 where
  invalid_scenario help : ConfigError
  unexpected_argument missing_value unknown_option : String → ConfigError
  invalid_scale invalid_profile invalid_domain : String → ConfigError
  not_between : String → (minimum : ℕ) → (maximum : ℕ) → ConfigError
  sample_exceeds_duration : ConfigError

abbrev pub Values : Type 0
Values = List (String × String)

unfoldable pub get : Values → String → Option String
get [] name = none
get ((key, value) ∷ rest) name = if str_eq key name then some value else get rest name

unfoldable pub set : Values → String → String → Values
set [] name value = (name, value) ∷ []
set ((key, old) ∷ rest) name value =
    let later = set rest name value in
    if str_eq key name then (key, value) ∷ rest else (key, old) ∷ later

-- The tests on one argument: what to do with `--keep`, and what with an option.
unfoldable pub dispatch :
    String → (kept taken : Result ConfigError (Values × Bool)) → Result ConfigError (Values × Bool)
dispatch arg kept taken =
    if str_eq arg "--keep"
    then kept
    else (if str_eq arg "--help" || str_eq arg "-h"
        then err help
        else (if not (starts_with arg "--") then err (unexpected_argument arg) else taken))

-- The loop over the arguments after the scenario: the options so far, and `keep`.
unfoldable pub collect : List String → Values → Bool → Result ConfigError (Values × Bool)
unfolding set dispatch
collect [] values keep = ok (values, keep)
collect (arg ∷ []) values keep = dispatch arg (ok (values, true)) (err (missing_value arg))
collect (arg ∷ (next ∷ others)) values keep =
    let kept = collect (next ∷ others) values true in
    let taken = collect others (set values arg next) keep in
    dispatch arg kept (if starts_with next "--" then err (missing_value arg) else taken)

abbrev pub known : List String
known =
    "--scale" ∷ "--resources" ∷ "--entries" ∷ "--payload-bytes" ∷ "--seed" ∷ "--port"
    ∷ "--startup-timeout-ms" ∷ "--clients" ∷ "--phase-ms" ∷ "--duration-ms" ∷ "--sample-ms"
    ∷ "--iterations" ∷ "--concurrency" ∷ "--handler-delay-ms" ∷ "--schedule-lead-ms" ∷ "--domains"
    ∷ "--client-profile" ∷ "--rpc-stream-calls" ∷ "--rpc-stream-frames" ∷ "--rpc-stream-frame-bytes"
    ∷ "--rpc-stream-reader-delay-ms" ∷ []

unfoldable pub check_known : Values → Result ConfigError (Unit {0})
unfolding is_one_of
check_known values =
    for_each (λ entry. guard (is_one_of entry.0 known) (unknown_option entry.0)) values

-- `Number(raw)` where that is a safe integer that is not negative, and `none` elsewhere; as no
-- minimum is negative, the source throws there too.
module _ (number : String → Option ℕ) where
  in_range : Option ℕ → String → (minimum maximum : ℕ) → Result ConfigError ℕ
  in_range none name minimum maximum = err (not_between name minimum maximum)
  in_range (some n) name minimum maximum =
      if leb minimum n && leb n maximum then ok n else err (not_between name minimum maximum)

  -- `integerOption`, and `environmentInteger`, with what is read in place of the map.
  unfoldable pub read_integer :
      Option String → String → (fallback minimum maximum : ℕ) → Result ConfigError ℕ
  unfolding in_range
  read_integer none name fallback minimum maximum = ok fallback
  read_integer (some raw) name fallback minimum maximum = in_range (number raw) name minimum maximum

  unfoldable pub integer_option :
      Values → String → (fallback minimum maximum : ℕ) → Result ConfigError ℕ
  unfolding read_integer get
  integer_option values name fallback minimum maximum =
      read_integer (get values name) name fallback minimum maximum

-- `find`ing no value, or one whose number is the result.
abbrev pub Comes : (String → Option ℕ) → Option String → ℕ → ℕ → Type 0
Comes number none fallback n = n ≡ fallback
Comes number (some raw) fallback n = number raw ≡ some n

abbrev pub Within : ℕ → ℕ → ℕ → Type 0
Within minimum maximum n = (minimum ≤ n) × (n ≤ maximum)

-- ===== src/Guidance/Readings.antt =====
-- src/operational-guidance.ts: the fields of events and of evidence. A time is a whole number of
-- hundredths of a millisecond, as in src/pressure.ts.
use Prim.Native.String.{String}
use text.Mathlib.Text.{◌==◌ as str_eq}
use fitz_destroyer.Common.{
  ℕ, ◌*◌, Bool, Option, none, some, List, [], ◌∷◌, leb, ◌==◌, if◌then◌else◌, Result, ok, err, ◌>>=◌,
}
use fitz_destroyer.Logs.{
  Json, number, other_number, string, array, object, Items, nil, cons, Fields, end, field, Log,
  get_field, is_text, max_safe,
}

pub data GuidanceError : Type 0 where
  not_natural not_positive not_number not_text not_array not_record : String → GuidanceError
  missing_event : String → GuidanceError
  no_selection : GuidanceError
  unknown_domain : Json → GuidanceError
  bucket_count : String → (expected found : ℕ) → GuidanceError
  count_mismatch exceeded_outcomes unknown_status omitted_stages no_rate : String → GuidanceError

abbrev pub natural_value : Option Json → String → Result GuidanceError ℕ
natural_value (some (number n)) name = if leb n max_safe then ok n else err (not_natural name)
natural_value value name = err (not_natural name)

unfoldable pub number_field : Fields → String → Result GuidanceError ℕ
unfolding get_field
number_field r name = natural_value (get_field r name) name

unfoldable pub positive_number_field : Fields → String → Result GuidanceError ℕ
unfolding number_field
positive_number_field r name = do
  value ← number_field r name
  if value == 0 then err (not_positive name) else ok value

abbrev pub optional_natural : Option Json → String → Result GuidanceError ℕ
optional_natural none name = ok 0
optional_natural value name = natural_value value name

unfoldable pub optional_number_field : Fields → String → Result GuidanceError ℕ
unfolding get_field
optional_number_field r name = optional_natural (get_field r name) name

-- `optionalNonNegativeInteger`
abbrev pub natural? : Option Json → Option ℕ
natural? (some (number n)) = if leb n max_safe then some n else none
natural? value = none

abbrev pub items_of : Items → List Json
items_of nil = []
items_of (cons x xs) = x ∷ items_of xs

abbrev pub array_value : Option Json → String → Result GuidanceError (List Json)
array_value (some (array xs)) name = ok (items_of xs)
array_value value name = err (not_array name)

unfoldable pub array_field : Fields → String → Result GuidanceError (List Json)
unfolding get_field
array_field r name = array_value (get_field r name) name

abbrev pub record_value : Option Json → String → Result GuidanceError Fields
record_value (some (object fields)) label = ok fields
record_value value label = err (not_record label)

unfoldable pub record_field : Fields → String → Result GuidanceError Fields
unfolding get_field
record_field r name = record_value (get_field r name) name

abbrev pub text_value : Option Json → String → Result GuidanceError String
text_value (some (string t)) name = if str_eq t "" then err (not_text name) else ok t
text_value value name = err (not_text name)

unfoldable pub string_field : Fields → String → Result GuidanceError String
unfolding get_field
string_field r name = text_value (get_field r name) name

-- `Object.entries`
abbrev pub entries : Fields → List (String × Json)
entries end = []
entries (field key value rest) = (key, value) ∷ entries rest

-- `findLast`, with what was found before.
unfoldable pub last_found : Option Fields → Log → String → Option Fields
unfolding get_field
last_found found [] name = found
last_found found (e ∷ rest) name =
    last_found (if is_text (get_field e "event") name then some e else found) rest name

unfoldable pub last_event : Log → String → Option Fields
unfolding last_found
last_event events name = last_found none events name

abbrev pub present : Option Fields → String → Result GuidanceError Fields
present (some e) name = ok e
present none name = err (missing_event name)

unfoldable pub required_last_event : Log → String → Result GuidanceError Fields
unfolding last_event
required_last_event events name = present (last_event events name) name

-- `events.filter(({ event }) => event === name)`
unfoldable pub events_named : String → Log → Log
unfolding get_field
events_named name [] = []
events_named name (e ∷ rest) =
    if is_text (get_field e "event") name
    then e ∷ events_named name rest
    else events_named name rest

-- `hundredths` reads the text of a number that is no natural number as a time, and is `none` for a
-- number below zero or without end; `comes_before` is `localeCompare` below zero.
pub record Platform : Type 0 where
  pub hundredths : String → Option ℕ
  pub comes_before : String → String → Bool

module _ (platform : Platform) where
  abbrev pub valid_duration : Option Json → Option ℕ
  valid_duration (some (number n)) = some (n * 100)
  valid_duration (some (other_number text)) = platform.hundredths text
  valid_duration value = none

  abbrev pub number_or : Option ℕ → String → Result GuidanceError ℕ
  number_or (some time) label = ok time
  number_or none label = err (not_number label)

  abbrev pub non_negative_number : Option Json → String → Result GuidanceError ℕ
  non_negative_number value label = number_or (valid_duration value) label

  unfoldable pub event_duration : Option Fields → Option ℕ
  unfolding get_field
  event_duration none = none
  event_duration (some e) = valid_duration (get_field e "elapsedMs")

-- `sort(([left], [right]) => left.localeCompare(right))`, which keeps the order of equals.
module _ {ℓ} {A : Type ℓ} (platform : Platform) where
  abbrev pub insert : String × A → List (String × A) → List (String × A)
  insert x [] = x ∷ []
  insert x (y ∷ ys) =
      let later = insert x ys in if platform.comes_before y.0 x.0 then y ∷ later else x ∷ y ∷ ys

  abbrev pub in_order : List (String × A) → List (String × A)
  in_order [] = []
  in_order (x ∷ xs) = insert x (in_order xs)

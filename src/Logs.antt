-- ===== src/Logs.antt =====
-- src/orchestration/workload-log.ts: the fields of a workload's log records. A log is the list of
-- the objects that `JSON.parse` reads in its lines, each the list of its fields; a field that an
-- object does not have is `none`.
use Prim.Native.String.{String}
use text.Mathlib.Text.{◌==◌ as str_eq}
use fitz_destroyer.Common.{
  ℕ, Bool, false, Option, none, some, List, [], ◌∷◌, leb, ◌==◌, if◌then◌else◌, Result, ok, err,
}

-- A number that is no natural number is kept by its text.
mutual
  pub data Json : Type 0 where
    null : Json
    boolean : Bool → Json
    number : ℕ → Json
    other_number : String → Json
    string : String → Json
    array : Items → Json
    object : Fields → Json

  pub data Items : Type 0 where
    nil : Items
    cons : Json → Items → Items

  pub data Fields : Type 0 where
    end : Fields
    field : String → Json → Fields → Fields

abbrev pub Log : Type 0
Log = List Fields

pub data LogError : Type 0 where
  not_natural not_object : String → LogError
  missing_event : String → LogError

-- `record[name]`
unfoldable pub get_field : Fields → String → Option Json
get_field end name = none
get_field (field key value rest) name = if str_eq key name then some value else get_field rest name

-- `value === "…"`
abbrev pub is_text : Option Json → String → Bool
is_text (some (string t)) s = str_eq t s
is_text value s = false

-- `value === n`
abbrev pub is_number : Option Json → ℕ → Bool
is_number (some (number m)) n = m == n
is_number value n = false

-- `Number.MAX_SAFE_INTEGER`
abbrev pub max_safe : ℕ
max_safe = 9007199254740991

unfoldable pub numeric_value : Option Json → String → Result LogError ℕ
numeric_value (some (number n)) name = if leb n max_safe then ok n else err (not_natural name)
numeric_value value name = err (not_natural name)

unfoldable pub numeric_field : Fields → String → Result LogError ℕ
unfolding get_field numeric_value
numeric_field record_ name = numeric_value (get_field record_ name) name

object_of : Option Json → String → Result LogError Fields
object_of (some (object fields)) name = ok fields
object_of value name = err (not_object name)

unfoldable pub record_field : Fields → String → Result LogError Fields
unfolding get_field object_of
record_field record_ name = object_of (get_field record_ name) name

-- `findLast`, with what was found before.
last_event : Option Fields → Log → String → Option Fields
unfolding get_field
last_event found [] event = found
last_event found (r ∷ rest) event =
    last_event (if is_text (get_field r "event") event then some r else found) rest event

unfoldable pub required_event : Log → String → Result LogError Fields
unfolding last_event
required_event log event = present (last_event none log event)
  where
    present : Option Fields → Result LogError Fields
    present (some r) = ok r
    present none = err (missing_event event)

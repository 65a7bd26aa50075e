-- ===== src/Guidance/EventsFile.antt =====
-- src/operational-guidance.ts: `readEvents`.
use Prim.Native.String.{String}
use fitz_destroyer.Common.{
  ℕ, suc, ◌+◌, Bool, true, false, Option, none, some, List, [], ◌∷◌, ◌++◌, if◌then◌else◌,
}
use fitz_destroyer.Logs.{Json, string, object, Log, get_field}
use fitz_destroyer.Guidance.Rating.{
  Reason, events_missing, line_malformed, line_not_event, events_unreadable,
}

-- A line of `events.ndjson`, as `trim` and `JSON.parse` leave it.
pub data Line : Type 0 where
  blank malformed : Line
  parsed : Json → Line

pub data EventsFile : Type 0 where
  missing : EventsFile
  unreadable : String → EventsFile
  lines : List Line → EventsFile

abbrev pub is_string : Option Json → Bool
is_string (some (string t)) = true
is_string value = false

-- The loop over the lines, after the events so far; the first line is line 1.
unfoldable pub read_lines : (index : ℕ) → List Line → Log → Log × Option Reason
unfolding get_field
read_lines index [] events = (events, none)
read_lines index (blank ∷ rest) events = read_lines (suc index) rest events
read_lines index (malformed ∷ rest) events = ([], some (line_malformed (index + 1)))
read_lines index (parsed (object e) ∷ rest) events =
    let later = read_lines (suc index) rest (events ++ (e ∷ [])) in
    if is_string (get_field e "event") then later else ([], some (line_not_event (index + 1)))
read_lines index (parsed value ∷ rest) events = ([], some (line_not_event (index + 1)))

unfoldable pub read_events : EventsFile → Log × Option Reason
unfolding read_lines
read_events missing = ([], some events_missing)
read_events (unreadable message) = ([], some (events_unreadable message))
read_events (lines ls) = read_lines 0 ls []

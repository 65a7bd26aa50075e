-- ===== src/Guidance/Reading.antt =====
-- src/operational-guidance.ts: what `readEvents` returns.
use fitz_destroyer.Common.{
  ℕ, suc, ◌+◌, ◌≡◌, refl, ap, ◌∙◌, Bool, true, false, Option, none, some, List, [], ◌∷◌, ◌++◌,
  if◌then◌else◌, ◌⊎◌, inl, inr, arith,
}
use fitz_destroyer.Logs.{
  null, boolean, number, other_number, string, array, object, Fields, Log, get_field,
}
use fitz_destroyer.Guidance.Rating.{Reason, line_malformed, line_not_event}
use fitz_destroyer.Guidance.EventsFile.{
  Line, blank, malformed, parsed, lines, is_string, read_lines, read_events,
}

-- The events in the lines of a file whose lines are all blank or events.
abbrev pub Holds : List Line → Log → Type 0
Holds [] [] = Unit
Holds [] (e ∷ es) = ⊥
Holds (blank ∷ rest) es = Holds rest es
Holds (parsed (object r) ∷ rest) (e ∷ es) =
    (r ≡ e) × (is_string (get_field r "event") ≡ true) × Holds rest es
Holds (line ∷ rest) es = ⊥

-- The first line that is neither blank nor an event, and what is wrong with it.
abbrev pub IsBad : Line → ℕ → Reason → Type 0
IsBad blank n reason = ⊥
IsBad malformed n reason = reason ≡ line_malformed n
IsBad (parsed (object r)) n reason =
    (is_string (get_field r "event") ≡ false) × (reason ≡ line_not_event n)
IsBad (parsed value) n reason = reason ≡ line_not_event n

abbrev pub FirstBad : ℕ → List Line → Reason → Type 0
FirstBad n [] reason = ⊥
FirstBad n (line ∷ rest) reason =
    IsBad line n reason ⊎ (((es : Log) × Holds (line ∷ []) es) × FirstBad (suc n) rest reason)

-- Either all the events, in their order, or none and the first bad line.
abbrev pub IsReading : ℕ → List Line → Log → Log × Option Reason → Type 0
IsReading n ls before (events, none) = (es : Log) × (events ≡ before ++ es) × Holds ls es
IsReading n ls before (events, some reason) = (events ≡ []) × FirstBad (suc n) ls reason

append_nil : (xs : Log) → xs ≡ xs ++ []
append_nil [] = refl
append_nil (x ∷ xs) = ap (λ ys. x ∷ ys) (append_nil xs)

append_snoc : (xs : Log) (x : Fields) (ys : Log) → (xs ++ (x ∷ [])) ++ ys ≡ xs ++ (x ∷ ys)
append_snoc [] x ys = refl
append_snoc (z ∷ xs) x ys = ap (λ zs. z ∷ zs) (append_snoc xs x ys)

after_blank :
    (n : ℕ) (rest : List Line) (before : Log) (p : Log × Option Reason)
    → IsReading (suc n) rest before p
    → IsReading n (blank ∷ rest) before p
after_blank n rest before (events, none) h = h
after_blank n rest before (events, some reason) (e, bad) = (e, inr (([], tt), bad))

after_event :
    (n : ℕ) (r : Fields) (rest : List Line) (before : Log) (p : Log × Option Reason)
    → is_string (get_field r "event") ≡ true
    → IsReading (suc n) rest (before ++ (r ∷ [])) p
    → IsReading n (parsed (object r) ∷ rest) before p
after_event n r rest before (events, none) s (es, e, h) =
    (r ∷ es, e ∙ append_snoc before r es, (refl, s, h))
after_event n r rest before (events, some reason) s (e, bad) =
    (e, inr ((r ∷ [], (refl, s, tt)), bad))

read_lines-IsReading :
    (n : ℕ) (ls : List Line) (before : Log) → IsReading n ls before (read_lines n ls before)
unfolding read_lines
read_lines-IsReading n [] before = ([], append_nil before, tt)
read_lines-IsReading n (blank ∷ rest) before =
    after_blank n rest before (read_lines (suc n) rest before)
      (read_lines-IsReading (suc n) rest before)
read_lines-IsReading n (malformed ∷ rest) before = (refl, inl (ap line_malformed (omega arith)))
read_lines-IsReading n (parsed (object r) ∷ rest) before =
    choose (read_lines (suc n) rest (before ++ (r ∷ [])))
      (read_lines-IsReading (suc n) rest (before ++ (r ∷ []))) (is_string (get_field r "event"))
      refl
  where
    choose :
        (later : Log × Option Reason)
        → IsReading (suc n) rest (before ++ (r ∷ [])) later
        → (b : Bool) → is_string (get_field r "event") ≡ b
        → IsReading n
            (parsed (object r) ∷ rest)
            before
            (if b then later else ([], some (line_not_event (n + 1))))
    choose later h true e = after_event n r rest before later e h
    choose later h false e = (refl, inl (e, ap line_not_event (omega arith)))
read_lines-IsReading n (parsed null ∷ rest) before = (refl, inl (ap line_not_event (omega arith)))
read_lines-IsReading n (parsed (boolean b) ∷ rest) before =
    (refl, inl (ap line_not_event (omega arith)))
read_lines-IsReading n (parsed (number k) ∷ rest) before =
    (refl, inl (ap line_not_event (omega arith)))
read_lines-IsReading n (parsed (other_number t) ∷ rest) before =
    (refl, inl (ap line_not_event (omega arith)))
read_lines-IsReading n (parsed (string t) ∷ rest) before =
    (refl, inl (ap line_not_event (omega arith)))
read_lines-IsReading n (parsed (array xs) ∷ rest) before =
    (refl, inl (ap line_not_event (omega arith)))

-- For a file that can be read: either each line is blank or an event, and the events are returned in
-- their order, without an error; or no event is returned, and the error is of the first line that is
-- neither, by its number from 1.
pub read_events-IsReading : (ls : List Line) → IsReading 0 ls [] (read_events (lines ls))
unfolding read_events
read_events-IsReading ls = read_lines-IsReading 0 ls []

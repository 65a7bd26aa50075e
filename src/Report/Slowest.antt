-- ===== src/Report/Slowest.antt =====
-- src/report.ts: the timing of a report.
use Prim.Native.String.{String}
use mathlib.Core.Path.{subst}
use fitz_destroyer.Common.{
  ℕ, ◌+◌, ◌≤◌, ◌≡◌, refl, sym, ◌⊎◌, inl, inr, Bool, true, false, Option, none, some, List, [], ◌∷◌,
  All, ltb, if◌then◌else◌, arith,
}
use fitz_destroyer.Report.{
  AnalyzedScenarioResult, DestroyerReportEntry, DestroyerReport, Timing, add_duration, slower,
  sum_durations, build_destroyer_report, entries_of,
}

-- A duration is no longer than the slowest scenario's.
abbrev pub IsAtMost : Option ℕ → Option (String × ℕ) → Type 0
IsAtMost none slowest = Unit
IsAtMost (some d) none = ⊥
IsAtMost (some d) (some (s, longest)) = d ≤ longest

abbrev pub ms_of : Option ℕ → ℕ
ms_of none = 0
ms_of (some d) = d

abbrev longest_of : Option (String × ℕ) → Option ℕ
longest_of none = none
longest_of (some (s, longest)) = some longest

IsAtMost-trans :
    (d : Option ℕ) (a b : Option (String × ℕ))
    → IsAtMost d a
    → IsAtMost (longest_of a) b
    → IsAtMost d b
IsAtMost-trans none a b h k = tt
IsAtMost-trans (some d) none b h k = absurd h
IsAtMost-trans (some d) (some (s, m)) none h k = absurd k
IsAtMost-trans (some d) (some (s, m)) (some (s', n)) h k = omega (arith, h, k)

IsAtMost-refl : (a : Option (String × ℕ)) → IsAtMost (longest_of a) a
IsAtMost-refl none = tt
IsAtMost-refl (some (s, m)) = omega arith

slower-IsAtMost :
    (s : String) (d : ℕ) (before : Option (String × ℕ))
    → IsAtMost (some d) (slower s d before) × IsAtMost (longest_of before) (slower s d before)
slower-IsAtMost s d none = (omega arith, tt)
slower-IsAtMost s d (some (s', m)) = ground arith

add_duration-IsAtMost :
    (s : String) (d : Option ℕ) (t : Timing)
    → IsAtMost d (add_duration s d t).slowest
      × IsAtMost (longest_of t.slowest) (add_duration s d t).slowest
add_duration-IsAtMost s none t = (tt, IsAtMost-refl t.slowest)
add_duration-IsAtMost s (some d) t = slower-IsAtMost s d t.slowest

module _ {G : Type 0} where
  abbrev pub total_ms : List (DestroyerReportEntry G) → ℕ
  total_ms [] = 0
  total_ms (e ∷ rest) = ms_of e.duration_ms + total_ms rest

  sum_durations-total :
      (t : Timing) (entries : List (DestroyerReportEntry G))
      → (sum_durations t entries).recorded_total_ms ≡ t.recorded_total_ms + total_ms entries
  sum_durations-total t [] = omega arith
  sum_durations-total t (e ∷ rest) = omega (
    arith,
    sum_durations-total (add_duration e.scenario e.duration_ms t) rest,
    added e.duration_ms,
  )
    where
      added :
          (d : Option ℕ)
          → (add_duration e.scenario d t).recorded_total_ms ≡ t.recorded_total_ms + ms_of d
      added none = omega arith
      added (some d) = omega arith

  sum_durations-IsAtMost :
      (t : Timing) (entries : List (DestroyerReportEntry G))
      → IsAtMost (longest_of t.slowest) (sum_durations t entries).slowest
        × All (λ e. IsAtMost e.duration_ms (sum_durations t entries).slowest) entries
  sum_durations-IsAtMost t [] = (IsAtMost-refl t.slowest, tt)
  sum_durations-IsAtMost t (e ∷ rest) =
      let t' = add_duration e.scenario e.duration_ms t in
      let (here, before) = add_duration-IsAtMost e.scenario e.duration_ms t in
      let (grows, later) = sum_durations-IsAtMost t' rest in
      (
        IsAtMost-trans (longest_of t.slowest) t'.slowest (sum_durations t' rest).slowest before
            grows,
        (IsAtMost-trans e.duration_ms t'.slowest (sum_durations t' rest).slowest here grows, later),
      )

  -- An entry of the list has this name and this duration.
  abbrev pub IsAmong : List (DestroyerReportEntry G) → Option (String × ℕ) → Type 0
  IsAmong entries none = Unit
  IsAmong [] (some (s, d)) = ⊥
  IsAmong (e ∷ rest) (some (s, d)) =
      ((e.scenario ≡ s) × (e.duration_ms ≡ some d)) ⊎ IsAmong rest (some (s, d))

  IsAmong-later :
      (e : DestroyerReportEntry G) (rest : List (DestroyerReportEntry G)) (a : Option (String × ℕ))
      → IsAmong rest a
      → IsAmong (e ∷ rest) a
  IsAmong-later e rest none h = tt
  IsAmong-later e rest (some (s, d)) h = inr h

  slower-IsAmong :
      (e : DestroyerReportEntry G) (rest : List (DestroyerReportEntry G)) (d : ℕ)
      (a : Option (String × ℕ))
      → e.duration_ms ≡ some d
      → slower e.scenario d a ≡ a ⊎ IsAmong (e ∷ rest) (slower e.scenario d a)
  slower-IsAmong e rest d none q = inr (inl (refl, q))
  slower-IsAmong e rest d (some (s, m)) q = choose (ltb m d)
    where
      mine : Option (String × ℕ)
      mine = some (e.scenario, d)

      theirs : Option (String × ℕ)
      theirs = some (s, m)

      choose :
          (b : Bool)
          → (if b then mine else theirs) ≡ theirs ⊎ IsAmong (e ∷ rest) (if b then mine else theirs)
      choose true = inr (inl (refl, q))
      choose false = inl refl

  add_duration-IsAmong :
      (t : Timing) (e : DestroyerReportEntry G) (rest : List (DestroyerReportEntry G))
      (d : Option ℕ)
      → e.duration_ms ≡ d
      → (add_duration e.scenario d t).slowest ≡ t.slowest
        ⊎ IsAmong (e ∷ rest) (add_duration e.scenario d t).slowest
  add_duration-IsAmong t e rest none q = inl refl
  add_duration-IsAmong t e rest (some d) q = slower-IsAmong e rest d t.slowest q

  sum_durations-IsAmong :
      (t : Timing) (entries : List (DestroyerReportEntry G))
      → (sum_durations t entries).slowest ≡ t.slowest
        ⊎ IsAmong entries (sum_durations t entries).slowest
  sum_durations-IsAmong t [] = inl refl
  sum_durations-IsAmong t (e ∷ rest) =
      elim (sum_durations-IsAmong (add_duration e.scenario e.duration_ms t) rest) [
        | inl same ↦
            subst (λ a. a ≡ t.slowest ⊎ IsAmong (e ∷ rest) a) (sym same)
              (add_duration-IsAmong t e rest e.duration_ms refl)
        | inr later ↦ inr (
            IsAmong-later e rest
              (sum_durations (add_duration e.scenario e.duration_ms t) rest).slowest later)
      ]

module _ {G : Type 0} (empty_guidance : Option ℕ → String → G) (guided_ms : G → Option ℕ) where
  -- A report's recorded total is the sum of its entries' durations; no entry's duration is longer
  -- than the slowest scenario's, and the slowest scenario, where there is one, is an entry with that
  -- duration.
  pub build_destroyer_report-timing :
      (expected : List String) (results : List (AnalyzedScenarioResult G))
      (analysis_result matrix_result : String) (report : DestroyerReport G)
      → build_destroyer_report empty_guidance guided_ms expected results analysis_result
          matrix_result
        ≡ report
      → (report.timing.recorded_total_ms ≡ total_ms report.results)
        × All (λ e. IsAtMost e.duration_ms report.timing.slowest) report.results
        × IsAmong report.results report.timing.slowest
  unfolding build_destroyer_report
  build_destroyer_report-timing expected results analysis_result matrix_result report h =
      subst
        (λ r.
          (r.timing.recorded_total_ms ≡ total_ms r.results)
          × All (λ e. IsAtMost e.duration_ms r.timing.slowest) r.results
          × IsAmong r.results r.timing.slowest)
        h
        (
          omega (arith, sum_durations-total start entries),
          (sum_durations-IsAtMost start entries).1,
          elim (sum_durations-IsAmong start entries) [
            | inl none_yet ↦ subst (IsAmong entries) (sym none_yet) tt
            | inr among ↦ among
          ],
        )
    where
      start : Timing
      start = record { recorded_total_ms = 0; slowest = none }

      entries : List (DestroyerReportEntry G)
      entries = entries_of empty_guidance guided_ms expected results

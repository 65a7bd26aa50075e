-- ===== src/Suite/Allocation.antt =====
-- src/suite.ts: when `allocateScenarioConfigs` succeeds, and the ports that it gives.
use Prim.Native.String.{String}
use mathlib.Core.Path.{subst}
use fitz_destroyer.Common.{
  ℕ, suc, ◌+◌, ◌≤◌, ◌<◌, ◌≡◌, refl, ap, ◌↔◌, ◌⊎◌, inl, inr, Bool, true, false, List, [], ◌∷◌, ltb,
  if◌then◌else◌, length, Result, ok, err, ◌>>=◌, IsUnique, contains, All, map, arith,
}
use fitz_destroyer.Config.Parsing.{RunConfig}
use fitz_destroyer.Suite.{
  SuiteError, port_exceeds, Allotment, allocate_from, allocate_scenario_configs,
}

abbrev pub scenario_of : Allotment → String
scenario_of entry = entry.scenario

abbrev pub port_of : Allotment → ℕ
port_of entry = entry.config.port

-- Each scenario has the configuration of the suite, but for its name, a port of its own, and no
-- stack kept.
abbrev pub IsAllotted : RunConfig → Allotment → Type 0
IsAllotted config entry =
    (port_of entry ≤ 65_535)
    × (entry.config
        ≡ record config { scenario = entry.scenario; port = entry.config.port; keep = false })

-- The entries' ports follow one another from `n` on.
abbrev Consecutive : ℕ → List Allotment → Type 0
Consecutive n [] = Unit
Consecutive n (entry ∷ rest) = (port_of entry ≡ n) × Consecutive (suc n) rest

abbrev Allocates : RunConfig → ℕ → List String → Result SuiteError (List Allotment) → Type 0
Allocates config n scenarios (ok entries) =
    (map scenario_of entries ≡ scenarios)
    × All (IsAllotted config) entries
    × Consecutive n entries
    × (scenarios ≡ [] ⊎ n + length scenarios ≤ 65_536)
Allocates config n scenarios (err e) = (scenarios ≡ [] → ⊥) × (65_536 < n + length scenarios)

allot : RunConfig → ℕ → String → Allotment
allot config n s = record {
  scenario = s;
  config = record config { scenario = s; port = n; keep = false };
}

Allocates-ok :
    (config : RunConfig) (n : ℕ) (s : String) (rest : List String) (entries : List Allotment)
    → Allocates config (suc n) rest (ok entries)
    → n ≤ 65_535
    → Allocates config n (s ∷ rest) (ok (allot config n s ∷ entries))
unfolding allot
Allocates-ok config n s rest entries (names, allotted, ports, fit) few =
    (ap (◌∷◌ s) names, ((few, refl), allotted), (refl, ports), inr (room fit))
  where
    room : rest ≡ [] ⊎ suc n + length rest ≤ 65_536 → n + length (s ∷ rest) ≤ 65_536
    room (inl e) = rw e (omega (arith, few))
    room (inr h) = omega (arith, h)

Allocates-step :
    (config : RunConfig) (n : ℕ) (s : String) (rest : List String) (e : SuiteError)
    (later : Result SuiteError (List Allotment))
    → Allocates config (suc n) rest later
    → (b : Bool) → ltb 65_535 n ≡ b
    → Allocates config n
        (s ∷ rest)
        (if b then err e else (later >>= λ entries. ok (allot config n s ∷ entries)))
Allocates-step config n s rest e later h true t = (λ k. cc, ground arith)
Allocates-step config n s rest e (err e') h false t = (λ k. cc, omega (arith, h.1))
Allocates-step config n s rest e (ok entries) h false t =
    Allocates-ok config n s rest entries h (ground arith)

allocate_from-Allocates :
    (config : RunConfig) (total index : ℕ) (scenarios : List String)
    → Allocates config (config.port + index) scenarios (allocate_from config total index scenarios)
unfolding allocate_from allot
allocate_from-Allocates config total index [] = (refl, tt, tt, inl refl)
allocate_from-Allocates config total index (s ∷ rest) =
    Allocates-step config (config.port + index) s rest (port_exceeds s total)
      (allocate_from config total (suc index) rest)
      (subst (λ n. Allocates config n rest (allocate_from config total (suc index) rest))
        (omega arith) (allocate_from-Allocates config total (suc index) rest))
      (ltb 65_535 (config.port + index)) refl

Consecutive-apart :
    (n m : ℕ) (entries : List Allotment)
    → Consecutive n entries
    → m < n
    → contains m (map port_of entries) ≡ false
unfolding contains
Consecutive-apart n m [] h k = refl
Consecutive-apart n m (entry ∷ rest) (e, h) k = ground (arith, Consecutive-apart (suc n) m rest h)

Consecutive-IsUnique :
    (n : ℕ) (entries : List Allotment) → Consecutive n entries → IsUnique (map port_of entries)
Consecutive-IsUnique n [] h = tt
Consecutive-IsUnique n (entry ∷ rest) (e, h) =
    (rw e (Consecutive-apart (suc n) n rest h (omega arith)), Consecutive-IsUnique (suc n) rest h)

-- The allocation succeeds exactly when there is no scenario or the ports from the configured one on
-- reach for all of them.
pub allocate_scenario_configs-eq-ok_iff :
    (config : RunConfig) (scenarios : List String)
    → ((entries : List Allotment) × (allocate_scenario_configs config scenarios ≡ ok entries))
      ↔ (scenarios ≡ [] ⊎ config.port + length scenarios ≤ 65_536)
unfolding allocate_scenario_configs
allocate_scenario_configs-eq-ok_iff config scenarios =
    decided (allocate_from config (length scenarios) 0 scenarios) (
      subst
        (λ n. Allocates config n scenarios (allocate_from config (length scenarios) 0 scenarios))
        (omega arith) (allocate_from-Allocates config (length scenarios) 0 scenarios))
  where
    decided :
        (r : Result SuiteError (List Allotment))
        → Allocates config config.port scenarios r
        → ((entries : List Allotment) × (r ≡ ok entries))
          ↔ (scenarios ≡ [] ⊎ config.port + length scenarios ≤ 65_536)
    decided (ok entries) h = (λ _. h.3, λ _. (entries, refl))
    decided (err e) h = (
      λ k. cc,
      λ k. absurd (elim k [ inl none_left ↦ h.0 none_left | inr fit ↦ omega (arith, h.1, fit) ]),
    )

-- A successful allocation has an entry for each scenario, in their order; each entry has the
-- suite's configuration with the scenario's name, a port of at most 65535 and no stack kept; and no
-- two entries have one port.
pub allocate_scenario_configs-IsAllotted :
    (config : RunConfig) (scenarios : List String) (entries : List Allotment)
    → allocate_scenario_configs config scenarios ≡ ok entries
    → (map scenario_of entries ≡ scenarios)
      × All (IsAllotted config) entries
      × IsUnique (map port_of entries)
unfolding allocate_scenario_configs
allocate_scenario_configs-IsAllotted config scenarios entries h =
    let (names, allotted, ports, _) =
      subst (Allocates config (config.port + 0) scenarios) h
        (allocate_from-Allocates config (length scenarios) 0 scenarios) in
    (names, allotted, Consecutive-IsUnique (config.port + 0) entries ports)

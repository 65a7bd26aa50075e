-- ===== src/Scenario/Dispatch.antt =====
-- src/scenario.ts and src/suite.ts: `executeWorkload` knows the suite's scenarios.
use Prim.Native.String.{String}
use text.Mathlib.Text.{◌==◌ as str_eq}
use fitz_destroyer.Common.{
  ◌≡◌, ◌↔◌, refl, Bool, true, false, some, List, [], ◌∷◌, map, if◌then◌else◌, ◌||◌,
}
use fitz_destroyer.Config.Scenarios.{
  is_one_of, is_one_of_mono, all_scenarios, are_among, are_distinct,
}
use fitz_destroyer.Scenario.Workload.{Routine, pressure, of_module, routines, routine_of}

abbrev tested : List (String × Routine) → List String
tested rs = map (λ r. r.0) rs

abbrev functions : List (String × Routine) → List String
functions [] = []
functions ((name, of_module function) ∷ rest) = function ∷ functions rest
functions ((name, pressure) ∷ rest) = "runPressureScenario" ∷ functions rest
functions (_ ∷ rest) = functions rest

routine_of-tested :
    (s : String) (rs : List (String × Routine))
    → ((routine : Routine) × (routine_of s rs ≡ some routine)) ↔ (is_one_of s (tested rs) ≡ true)
unfolding routine_of is_one_of
routine_of-tested s [] = (λ (routine, e). cc, λ e. cc)
routine_of-tested s ((name, routine) ∷ rest) =
    choose (routine_of-tested s rest) (str_eq s name) refl
  where
    Chosen : Bool → Type 0
    Chosen b =
        ((r : Routine) × ((if b then some routine else routine_of s rest) ≡ some r))
        ↔ ((b || is_one_of s (tested rest)) ≡ true)

    choose : Chosen false → (b : Bool) → str_eq s name ≡ b → Chosen b
    choose later true e = (λ _. refl, λ _. (routine, refl))
    choose later false e = later

tested_among : are_among (tested routines) all_scenarios ≡ true
unfolding is_one_of
tested_among = refl

all_tested : are_among all_scenarios (tested routines) ≡ true
unfolding is_one_of
all_tested = refl

-- The tests without the one for `scenario`.
abbrev pub apart_from : String → List (String × Routine) → List (String × Routine)
apart_from scenario [] = []
apart_from scenario ((name, routine) ∷ rest) =
    if str_eq name scenario
    then apart_from scenario rest
    else (name, routine) ∷ apart_from scenario rest

distinct_functions : are_distinct (functions (apart_from "soak" routines)) ≡ true
unfolding is_one_of
distinct_functions = refl

same_routine : routine_of "soak" routines ≡ routine_of "domain-pressure" routines
unfolding routine_of
same_routine = refl

-- `executeWorkload` has a routine for a scenario exactly when the scenario is one of those that the
-- suite runs; `soak` has that of `domain-pressure`; and apart from `soak` no two scenarios have the
-- same function of another module.
pub routine_of-some_iff :
    (scenario : String)
    → (((routine : Routine) × (routine_of scenario routines ≡ some routine))
        ↔ (is_one_of scenario all_scenarios ≡ true))
      × (routine_of "soak" routines ≡ routine_of "domain-pressure" routines)
      × (are_distinct (functions (apart_from "soak" routines)) ≡ true)
routine_of-some_iff scenario =
    let (there, back) = routine_of-tested scenario routines in
    (
      (
        λ h. is_one_of_mono scenario (tested routines) all_scenarios tested_among (there h),
        λ h. back (is_one_of_mono scenario all_scenarios (tested routines) all_tested h),
      ),
      same_routine,
      distinct_functions,
    )

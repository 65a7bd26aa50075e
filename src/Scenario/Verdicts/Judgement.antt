-- ===== src/Scenario/Verdicts/Judgement.antt =====
-- src/scenario.ts: what the summary of `runScenario` says of the calls that were made.
use Prim.Native.String.{String}
use fitz_destroyer.Common.{
  ℕ, refl, Bool, true, false, not, Option, none, some, [], ◌∷◌, if◌then◌else◌, arith,
}
use fitz_destroyer.Config.Parsing.{RunConfig}
use fitz_destroyer.Scenario.Failure.{Thrown}
use fitz_destroyer.Scenario.Calls.{
  World, Run, begun, Attempt, ◌then◌, create_artifacts, went_on, thrown, perform,
}
use fitz_destroyer.Scenario.Workload.{
  Routine, routines, routine_of, not_implemented, execute_chosen, execute_workload,
}
use fitz_destroyer.Scenario.Lifecycle.{
  prepare, conclude, try_scenario, try_catch, summary_of, finally, after_start, started,
  run_scenario,
}
use fitz_destroyer.Scenario.Verdicts.{
  is_none, IsWriteFailure, is_handled, Judged, Fresh, Settled, Gathered, Tidied, Goes, Tried,
}
use fitz_destroyer.Scenario.Verdicts.Steps.{
  then-Goes, then-Tried, prepare-Goes, conclude-Tried, catch_failure-Settled, collected-Gathered,
  clean_up-Tidied, report-Judged,
}
use fitz_destroyer.Scenario.Verdicts.Workloads.{run_routine-Goes}

-- Before the `try` block.
abbrev Begun : Attempt → Type 0
Begun (went_on r) = Fresh r
Begun (thrown e r) = IsWriteFailure r.calls

begun-Begun : (world : World) → Begun (perform world create_artifacts begun then started world)
unfolding started perform
begun-Begun world = ground arith

-- What is not implemented is never concluded.
stopped-Tried :
    (e : Thrown) (m : Attempt) (f : Run → Attempt)
    → Goes false m
    → Tried false (m then (λ r. thrown e r) then f)
stopped-Tried e (went_on r) f h = ground arith
stopped-Tried e (thrown e' r) f h = h

then-Tidied :
    (keep : Bool) (preserve_failure : Option Bool) (handled : Bool) (m : Attempt)
    (f : Run → Attempt)
    → Gathered handled m
    → ((r : Run) → Settled handled r → Tidied keep preserve_failure handled (f r))
    → Tidied keep preserve_failure handled (m then f)
then-Tidied keep preserve_failure handled (went_on r) f h k = k r h
then-Tidied keep preserve_failure handled (thrown e r) f h k = h

module _ (world : World) (config : RunConfig) (scenario run_id project : String)
    (preserve_failure : Option Bool) where
  try_scenario-Tried :
      (r : Run) → Fresh r → Tried (is_handled scenario) (try_scenario world config scenario r)
  unfolding try_scenario execute_workload execute_chosen
  try_scenario-Tried r h = choose (routine_of scenario routines)
    where
      prepared : (handled : Bool) → Goes handled (prepare world r)
      prepared handled = prepare-Goes world handled r h

      choose :
          (o : Option Routine)
          → Tried
              (not (is_none o))
              (prepare world r then execute_chosen world config scenario o then conclude world)
      choose none =
          stopped-Tried (not_implemented scenario) (prepare world r) (conclude world)
            (prepared false)
      choose (some routine) =
          then-Tried true _ _
            (then-Goes true _ _ (prepared true)
              (run_routine-Goes world true config scenario routine))
            (conclude-Tried world true refl)

  finally-Judged :
      (r : Run) (t : ℕ)
      → Settled (is_handled scenario) r
      → Judged config.keep preserve_failure
          (is_handled scenario)
          (finally world config preserve_failure (summary_of world scenario run_id project t) r)
  unfolding finally
  finally-Judged r t h =
      report-Judged world (is_handled scenario) config.keep preserve_failure scenario run_id project
        t _
        (then-Tidied config.keep preserve_failure (is_handled scenario) _ _
          (collected-Gathered world (is_handled scenario) r h)
          (clean_up-Tidied world (is_handled scenario) config preserve_failure))

  try_catch-Settled :
      (m : Attempt)
      → Tried (is_handled scenario) m
      → Settled (is_handled scenario) (try_catch world m)
  unfolding try_catch
  try_catch-Settled (went_on r) h = h.0
  try_catch-Settled (thrown e r) h = catch_failure-Settled world (is_handled scenario) e r h

  after_start-Judged :
      (t : ℕ) (m : Attempt)
      → Begun m
      → Judged config.keep preserve_failure
          (is_handled scenario)
          (after_start world config scenario run_id project preserve_failure t m)
  unfolding after_start
  after_start-Judged t (thrown e r) h = h
  after_start-Judged t (went_on r) h =
      finally-Judged _ t
        (try_catch-Settled (try_scenario world config scenario r) (try_scenario-Tried r h))

  -- Whatever calls fail, and however they do: `runScenario` rejects only when a file of the run
  -- itself was not written. When it returns, the verdict is passed exactly when all the calls that
  -- were made worked and the scenario is implemented; the summary has a classification and an error
  -- exactly when the verdict is failed, unless the record of a failed workload's end was not
  -- written; the cleanup's state is what the last call of `cleanup` did; a passed run's stack is
  -- removed, or preserved when `keep` asks for it; a failed run's stack is preserved unless
  -- `preserveFailure` is false; a failure of the cleanup is one without `keep`.
  pub run_scenario-Judged :
      Judged config.keep preserve_failure
        (is_handled scenario)
        (run_scenario world config scenario run_id project preserve_failure)
  unfolding run_scenario
  run_scenario-Judged =
      after_start-Judged (world.clock ((create_artifacts, true) ∷ []))
        (perform world create_artifacts begun then started world) (begun-Begun world)

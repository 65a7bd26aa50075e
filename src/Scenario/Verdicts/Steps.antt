-- ===== src/Scenario/Verdicts/Steps.antt =====
-- src/scenario.ts: each part of `runScenario` leaves the variables as the next one expects them.
use Prim.Native.String.{String}
use fitz_destroyer.Common.{
  ℕ, ◌≡◌, refl, Bool, true, false, ◌&&◌, Option, some, [], ◌∷◌, if◌then◌else◌, arith,
}
use fitz_destroyer.Config.Parsing.{RunConfig}
use fitz_destroyer.Scenario.Failure.{Thrown, Phase, setup, workload, classify_failure}
use fitz_destroyer.Scenario.Calls.{
  World, Call, History, Run, Attempt, ◌then◌, collect, went_on, thrown, perform,
}
use fitz_destroyer.Scenario.Lifecycle.{
  left_by, overrule, written, prepare, conclude, note_completion, catch_failure, collected,
  cleaned_up, clean_up, summary_of, report,
}
use fitz_destroyer.Scenario.Verdicts.{
  all_worked, lost_completion, Judged, blames_cleanup, Fresh, Broken, Settled, Gathered, Tidied,
  is_plain, Goes, Tried,
}

lost_excludes : (calls : History) → (lost_completion calls && all_worked calls) ≡ false
lost_excludes [] = refl
lost_excludes ((c, worked) ∷ earlier) = ground (arith, lost_excludes earlier)

classified-blames :
    (e : Thrown) (phase : Phase) → blames_cleanup (some (classify_failure e phase)) ≡ false
unfolding classify_failure
classified-blames e setup = refl
classified-blames e workload = ground arith

module _ (handled : Bool) where
  pub then-Goes :
      (m : Attempt) (f : Run → Attempt)
      → Goes handled m
      → ((r : Run) → Fresh r → Goes handled (f r))
      → Goes handled (m then f)
  then-Goes (went_on r) f h k = k r h
  then-Goes (thrown e r) f h k = h

  pub then-Tried :
      (m : Attempt) (f : Run → Attempt)
      → Goes handled m
      → ((r : Run) → Fresh r → Tried handled (f r))
      → Tried handled (m then f)
  then-Tried (went_on r) f h k = k r h
  then-Tried (thrown e r) f h k = h

module _ (world : World) (handled : Bool) where
  abbrev call : Call → Run → Attempt
  call = perform world

  pub perform-Goes : (c : Call) → is_plain c ≡ true → (r : Run) → Fresh r → Goes handled (call c r)
  unfolding perform
  perform-Goes c p r h = ground arith

  pub prepare-Goes : (r : Run) → Fresh r → Goes handled (prepare world r)
  unfolding prepare perform
  prepare-Goes r h = ground arith

  pub conclude-Tried : handled ≡ true → (r : Run) → Fresh r → Tried handled (conclude world r)
  unfolding conclude perform
  conclude-Tried e r h = ground arith

  pub catch_failure-Settled :
      (e : Thrown) (r : Run)
      → Broken handled r
      → Settled handled (left_by (catch_failure world e r))
  unfolding catch_failure note_completion perform left_by
  catch_failure-Settled e r h =
      ground (arith, classified-blames e setup, classified-blames e workload)

  pub collected-Gathered :
      (r : Run) → Settled handled r → Gathered handled (collected world (call collect r))
  unfolding collected perform overrule
  collected-Gathered r h = ground (arith, lost_excludes r.calls)

  pub clean_up-Tidied :
      (config : RunConfig) (preserve_failure : Option Bool) (r : Run)
      → Settled handled r
      → Tidied config.keep preserve_failure handled (clean_up world config preserve_failure r)
  unfolding clean_up cleaned_up perform overrule
  clean_up-Tidied config preserve_failure r h = ground (arith, lost_excludes r.calls)

  pub report-Judged :
      (keep : Bool) (preserve_failure : Option Bool) (scenario run_id project : String) (t : ℕ)
      (m : Attempt)
      → Tidied keep preserve_failure handled m
      → Judged keep preserve_failure handled
          (report world (summary_of world scenario run_id project t) m)
  unfolding report written perform
  report-Judged keep preserve_failure scenario run_id project t m h = ground arith

-- ===== src/Durability/Examples.antt =====
-- Runs of the durability scenario's functions, and its theorems at concrete inputs.
use fitz_destroyer.Common.{
  ℕ, ◌+◌, ◌≤◌, ◌<◌, ◌≡◌, refl, ◌↔◌, true, not, ◌==◌, some, List, [], ◌∷◌, ◌++◌, Result, ok, err,
  contains, sort, dedupe, arith,
}
use fitz_destroyer.Logs.{number, string, array, object, nil, cons, Fields, end, field, Log}
use fitz_destroyer.Durability.Ledger.{
  DurableDomain, queue, kv, DomainLedger, LedgerError, no_baseline, verified,
  analyze_durability_ledger, assert_durability_ledger,
}
use fitz_destroyer.Durability.Ledger.Records.{reported}
use fitz_destroyer.Durability.Ledger.Analysis.{IsLedgerOf, analyze_durability_ledger-IsLedgerOf}
use fitz_destroyer.Durability.Ledger.Assertion.{IsDurable, assert_durability_ledger-eq-ok_iff}
use fitz_destroyer.Durability.CrashCuts.{
  broker_kill, provider_recovery, get_elem?, crash_cut_plan, run_crash_cut_iteration, cut_outcomes,
  ambiguous,
}
use fitz_destroyer.Durability.CrashCuts.Plan.{crash_cut_plan-covers}
use fitz_destroyer.Durability.CrashCuts.Release.{
  LetGo, AsCut, calls_of, run_crash_cut_iteration-LetGo, run_crash_cut_iteration-AsCut,
}
use fitz_destroyer.Durability.CrashCuts.Outcomes.{judged, cut_outcomes-judged}

abbrev event_of : DurableDomain → ℕ → Fields
event_of queue n =
    field "domain" (string "queue")
      (field "event" (string "durability_operation_started") (field "sequence" (number n) end))
event_of d n =
    field "domain" (string "kv")
      (field "event" (string "durability_operation_acknowledged") (field "sequence" (number n) end))

abbrev writers : List Log
writers = (event_of queue 1 ∷ event_of queue 0 ∷ []) ∷ (event_of kv 0 ∷ event_of queue 1 ∷ []) ∷ []

abbrev verifier : Log
verifier =
    field "event" (string "durability_verify_complete") (
      field "observed"
        (object (
          field "queue" (array (cons (number 1) (cons (number 0) nil))) (
            field "kv" (array nil)
              (field "stream" (array nil) (field "schedule" (array nil) end)))))
        end)
    ∷ []

abbrev settled : DomainLedger
settled queue = record {
  started = 0 ∷ 1 ∷ [];
  acknowledged = [];
  failed = [];
  observed = 0 ∷ 1 ∷ [];
}
settled kv = record { started = []; acknowledged = 0 ∷ []; failed = []; observed = [] }
settled d = record { started = []; acknowledged = []; failed = []; observed = [] }

abbrev ledger_of : Result LedgerError DomainLedger → DomainLedger
ledger_of (ok ledger) = ledger
ledger_of (err e) = settled

abbrev analysis : DomainLedger
analysis = ledger_of (analyze_durability_ledger writers [] (verifier ∷ []))

analysis_works : analyze_durability_ledger writers [] (verifier ∷ []) ≡ ok analysis
unfolding analyze_durability_ledger
analysis_works = refl

analysis_settled : (analysis queue ≡ settled queue) × (analysis kv ≡ settled kv)
unfolding analyze_durability_ledger sort dedupe
analysis_settled = (refl, refl)

-- The first domain's baseline was not acknowledged.
analysis_refused : assert_durability_ledger settled 1 ≡ err (no_baseline queue)
unfolding assert_durability_ledger contains
analysis_refused = refl

analyze_durability_ledger-IsLedgerOf_example :
    (seen : Fields) × (verified (verifier ∷ []) ≡ ok seen)
    × ((d : DurableDomain) → IsLedgerOf (writers ++ []) seen d (analysis d))
analyze_durability_ledger-IsLedgerOf_example =
    analyze_durability_ledger-IsLedgerOf writers [] (verifier ∷ []) analysis analysis_works

assert_durability_ledger-eq-ok_iff_example :
    (assert_durability_ledger settled 1 ≡ ok tt) ↔ ((d : DurableDomain) → IsDurable 1 (settled d))
assert_durability_ledger-eq-ok_iff_example = assert_durability_ledger-eq-ok_iff settled 1

crash_cut_plan-covers_example :
    (k : ℕ) × (1 ≤ k)
    × (k < 1 + 6)
    × (get_elem? (crash_cut_plan 8 424_242) k
        ≡ some (record {
          iteration = k + 1;
          sequence = k + 1;
          seed = 424_242;
          cut = some broker_kill;
        }))
crash_cut_plan-covers_example = crash_cut_plan-covers 8 424_242 1 broker_kill (omega arith)

-- The third call fails, and all work.
run_crash_cut_iteration-LetGo_example :
    LetGo (λ n. n == 5) (calls_of (run_crash_cut_iteration (λ n. not (n == 2)) provider_recovery))
run_crash_cut_iteration-LetGo_example =
    run_crash_cut_iteration-LetGo (λ n. not (n == 2)) (λ n. n == 5) provider_recovery

run_crash_cut_iteration-AsCut_example :
    AsCut (λ n. n == 5) provider_recovery (run_crash_cut_iteration (λ n. true) provider_recovery)
run_crash_cut_iteration-AsCut_example =
    run_crash_cut_iteration-AsCut (λ n. true) (λ n. n == 5) provider_recovery

cut_outcomes-judged_example :
    cut_outcomes writers 1 queue
    ≡ judged ambiguous
        (reported "durability_operation_acknowledged" queue 1 writers)
        (reported "durability_operation_failed" queue 1 writers)
cut_outcomes-judged_example = cut_outcomes-judged writers 1 queue

-- ===== src/Durability/CrashCuts/Outcomes.antt =====
-- src/orchestration/durability-crash-cuts.ts: `cutOutcomes`, said by the records of the logs.
use Prim.Native.String.{String}
use fitz_destroyer.Common.{
  ℕ, ◌≡◌, refl, ap, ◌∙◌, Bool, true, false, ◌&&◌, ◌||◌, Option, none, some, List, [], ◌∷◌,
  if◌then◌else◌, arith,
}
use fitz_destroyer.Logs.{Json, Fields, Log, get_field, is_text, is_number}
use fitz_destroyer.Durability.Ledger.{DurableDomain, durable_domain, same}
use fitz_destroyer.Durability.Ledger.Records.{says, reported_in, reported}
use fitz_destroyer.Durability.CrashCuts.{
  CutOutcome, acknowledged, failed, ambiguous, CutOutcomes, note_outcome, outcome_in, outcomes_log,
  outcomes_logs, cut_outcomes,
}

-- What two facts make of an outcome: some record says acknowledged, some record says failed.
abbrev pub judged : CutOutcome → (acked : Bool) → (lost : Bool) → CutOutcome
judged acknowledged acked lost = acknowledged
judged o true lost = acknowledged
judged o false true = failed
judged o false false = o

abbrev acked_event : String
acked_event = "durability_operation_acknowledged"

abbrev failed_event : String
failed_event = "durability_operation_failed"

note_outcome-judged :
    (event : Option Json) (o : CutOutcome)
    → note_outcome event o ≡ judged o (is_text event acked_event) (is_text event failed_event)
note_outcome-judged event acknowledged = ground arith
note_outcome-judged event failed = ground arith
note_outcome-judged event ambiguous = ground arith

judged-none : (o : CutOutcome) → o ≡ judged o false false
judged-none acknowledged = refl
judged-none failed = refl
judged-none ambiguous = refl

judged-judged :
    (o : CutOutcome) (a f a' f' : Bool) → judged (judged o a f) a' f' ≡ judged o (a || a') (f || f')
judged-judged acknowledged a f a' f' = ground arith
judged-judged failed a f a' f' = ground arith
judged-judged ambiguous a f a' f' = ground arith

outcome_in-judged :
    (domain : Option DurableDomain) (result : CutOutcomes) (r : Fields) (n : ℕ) (d : DurableDomain)
    → outcome_in domain result r n d
      ≡ judged (result d) (says acked_event d n domain r) (says failed_event d n domain r)
unfolding outcome_in
outcome_in-judged none result r n d = judged-none (result d)
outcome_in-judged (some d') result r n d = choose (is_number (get_field r "sequence") n) (same d' d)
  where
    event : Option Json
    event = get_field r "event"

    choose :
        (b c : Bool)
        → (if b && c then note_outcome event (result d) else result d)
          ≡ judged
              (result d)
              (c && (is_text event acked_event && b))
              (c && (is_text event failed_event && b))
    choose true true = ground (arith, note_outcome-judged event (result d))
    choose true false = judged-none (result d)
    choose false true = ground (arith, judged-none (result d))
    choose false false = judged-none (result d)

outcomes_log-judged :
    (result : CutOutcomes) (log : Log) (n : ℕ) (d : DurableDomain)
    → outcomes_log result log n d
      ≡ judged (result d) (reported_in acked_event d n log) (reported_in failed_event d n log)
unfolding outcomes_log reported_in
outcomes_log-judged result [] n d = judged-none (result d)
outcomes_log-judged result (r ∷ rest) n d =
    let domain = durable_domain (get_field r "domain") in
    outcomes_log-judged (outcome_in domain result r n) rest n d
    ∙ ap (λ o. judged o (reported_in acked_event d n rest) (reported_in failed_event d n rest))
        (outcome_in-judged domain result r n d)
    ∙ judged-judged (result d) _ _ _ _

outcomes_logs-judged :
    (result : CutOutcomes) (logs : List Log) (n : ℕ) (d : DurableDomain)
    → outcomes_logs result logs n d
      ≡ judged (result d) (reported acked_event d n logs) (reported failed_event d n logs)
unfolding outcomes_logs reported
outcomes_logs-judged result [] n d = judged-none (result d)
outcomes_logs-judged result (log ∷ logs) n d =
    outcomes_logs-judged (outcomes_log result log n) logs n d
    ∙ ap (λ o. judged o (reported acked_event d n logs) (reported failed_event d n logs))
        (outcomes_log-judged result log n d)
    ∙ judged-judged (result d) _ _ _ _

-- Whatever the order of the logs and their records, a domain's outcome at a sequence is acknowledged
-- if some record acknowledges that sequence of the domain, failed if none does but some record says
-- that it failed, and ambiguous otherwise.
pub cut_outcomes-judged :
    (logs : List Log) (n : ℕ) (d : DurableDomain)
    → cut_outcomes logs n d
      ≡ judged ambiguous
          (reported "durability_operation_acknowledged" d n logs)
          (reported "durability_operation_failed" d n logs)
unfolding cut_outcomes
cut_outcomes-judged logs n d = outcomes_logs-judged (λ _. ambiguous) logs n d

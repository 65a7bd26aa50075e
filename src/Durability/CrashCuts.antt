-- ===== src/Durability/CrashCuts.antt =====
-- src/orchestration/durability-crash-cuts.ts: `crashCutPlan`, `runCrashCutIteration` and
-- `cutOutcomes`. The stack that an iteration calls is Docker; all that the iteration sees of it is
-- whether the n-th call returns or throws. What a call did is left to the proofs in Release: one that
-- throws may have done its work, and `unpauseSqrzl` returns when it did not.
pub mod Plan
pub mod Release
pub mod Outcomes
use fitz_destroyer.Common.{
  ℕ, zero, suc, ◌+◌, ◌%◌, Bool, true, false, not, ◌&&◌, ◌||◌, Option, none, some, List, [], ◌∷◌,
  length, if◌then◌else◌, ◌==◌,
}
use fitz_destroyer.Logs.{Fields, Log, Json, is_number, get_field, is_text}
use fitz_destroyer.Durability.Ledger.{DurableDomain, durable_domain, same}

pub data CrashCutIdentity : Type 0 where
  request_dispatch blocked_provider_access provider_recovery : CrashCutIdentity
  broker_kill acknowledgement restart_with_storage_inflight : CrashCutIdentity

abbrev pub crash_cut_identities : List CrashCutIdentity
crash_cut_identities =
    request_dispatch ∷ blocked_provider_access ∷ provider_recovery ∷ broker_kill ∷ acknowledgement
    ∷ restart_with_storage_inflight ∷ []

pub record CrashCutIteration : Type 0 where
  pub iteration : ℕ
  pub sequence : ℕ
  pub seed : ℕ
  pub cut : Option CrashCutIdentity

-- `xs[n]`
abbrev pub get_elem? {ℓ} : {A : Type ℓ} → List A → ℕ → Option A
get_elem? [] n = none
get_elem? (x ∷ xs) zero = some x
get_elem? (x ∷ xs) (suc n) = get_elem? xs n

pub plan_from : (index count seed : ℕ) → List CrashCutIteration
plan_from index zero seed = []
plan_from index (suc count) seed =
    record {
      iteration = index + 1;
      sequence = index + 1;
      seed = seed;
      cut = get_elem? crash_cut_identities ((seed + index) % length crash_cut_identities);
    }
    ∷ plan_from (suc index) count seed

unfoldable pub crash_cut_plan : (iterations seed : ℕ) → List CrashCutIteration
unfolding plan_from
crash_cut_plan iterations seed = plan_from 0 iterations seed

-- The calls of an iteration to the stack, and its pauses.
pub data Call : Type 0 where
  pause_sqrzl unpause_sqrzl kill_fitz restart_fitz : Call
  start_role wait_ready signal_start wait_dispatched wait_acknowledged finish_role : Call
  sleep : ℕ → Call

-- The calls made so far, the last one first, each with whether it returned, and the variable
-- `sqrzlPaused`.
pub record Progress : Type 0 where
  pub calls : List (Call × Bool)
  pub sqrzl_paused : Bool

pub data Attempt : Type 0 where
  went_on thrown : Progress → Attempt

infixl 5 ◌then◌
abbrev pub ◌then◌ : Attempt → (Progress → Attempt) → Attempt
went_on p then f = f p
thrown p then f = thrown p

abbrev pub set_paused : Bool → Progress → Attempt
set_paused b p = went_on (record p { sqrzl_paused = b })

-- The cuts that need the storage provider stopped.
abbrev pub pauses : CrashCutIdentity → Bool
pauses blocked_provider_access = true
pauses provider_recovery = true
pauses restart_with_storage_inflight = true
pauses cut = false

module _ (works : ℕ → Bool) where
  unfoldable pub perform : Call → Progress → Attempt
  perform c p =
      let p' : Progress = record p { calls = (c, works (length p.calls)) ∷ p.calls } in
      if works (length p.calls) then went_on p' else thrown p'

  unfoldable pub pause_first : CrashCutIdentity → Progress → Attempt
  unfolding perform
  pause_first cut p = if pauses cut then (perform pause_sqrzl p then set_paused true) else went_on p

  abbrev pub release : Progress → Attempt
  release p = perform unpause_sqrzl p then set_paused false

  -- The waits that bring the iteration to its cut.
  unfoldable pub approach : CrashCutIdentity → Progress → Attempt
  unfolding perform
  approach request_dispatch p = went_on p
  approach blocked_provider_access p = perform wait_dispatched p
  approach provider_recovery p = perform wait_dispatched p then release then perform (sleep 25)
  approach broker_kill p = perform wait_dispatched p then perform (sleep 10)
  approach acknowledgement p = perform wait_dispatched p then perform wait_acknowledged
  approach restart_with_storage_inflight p = perform wait_dispatched p

  unfoldable pub resume : Progress → Attempt
  unfolding perform
  resume p = if p.sqrzl_paused then release p else went_on p

  -- The `try` block.
  unfoldable pub try_cut : CrashCutIdentity → Progress → Attempt
  unfolding pause_first approach perform resume
  try_cut cut p =
      pause_first cut p
      then perform start_role
      then perform wait_ready
      then perform signal_start
      then approach cut
      then perform kill_fitz
      then resume
      then perform restart_fitz
      then perform finish_role

  -- The `finally` block, whose call may fail without being noticed.
  pub at_last : Progress → Progress
  unfolding perform
  at_last p =
      if p.sqrzl_paused
      then record p { calls = (unpause_sqrzl, works (length p.calls)) ∷ p.calls }
      else p

  pub finally : Attempt → Attempt
  unfolding at_last
  finally (went_on p) = went_on (at_last p)
  finally (thrown p) = thrown (at_last p)

  unfoldable pub run_crash_cut_iteration : CrashCutIdentity → Attempt
  unfolding finally try_cut
  run_crash_cut_iteration cut = finally (try_cut cut (record { calls = []; sqrzl_paused = false }))

pub data CutOutcome : Type 0 where
  acknowledged failed ambiguous : CutOutcome

abbrev pub CutOutcomes : Type 0
CutOutcomes = DurableDomain → CutOutcome

abbrev pub is_acknowledged : CutOutcome → Bool
is_acknowledged acknowledged = true
is_acknowledged o = false

-- The two `if`s on the event's name.
abbrev pub note_outcome : Option Json → CutOutcome → CutOutcome
note_outcome event o =
    let o' : CutOutcome =
      if is_text event "durability_operation_acknowledged" then acknowledged else o in
    if is_text event "durability_operation_failed" && not (is_acknowledged o') then failed else o'

-- The body of the loop over a log's records, whose domain has been looked up.
pub outcome_in : Option DurableDomain → CutOutcomes → Fields → ℕ → CutOutcomes
outcome_in none result r n d = result d
outcome_in (some d') result r n d =
    if is_number (get_field r "sequence") n && same d' d
    then note_outcome (get_field r "event") (result d)
    else result d

pub outcomes_log : CutOutcomes → Log → ℕ → CutOutcomes
unfolding outcome_in
outcomes_log result [] n = result
outcomes_log result (r ∷ rest) n =
    outcomes_log (outcome_in (durable_domain (get_field r "domain")) result r n) rest n

pub outcomes_logs : CutOutcomes → List Log → ℕ → CutOutcomes
unfolding outcomes_log
outcomes_logs result [] n = result
outcomes_logs result (log ∷ logs) n = outcomes_logs (outcomes_log result log n) logs n

unfoldable pub cut_outcomes : List Log → ℕ → DurableDomain → CutOutcome
unfolding outcomes_logs
cut_outcomes logs n = outcomes_logs (λ d. ambiguous) logs n

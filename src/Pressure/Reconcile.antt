-- ===== src/Pressure/Reconcile.antt =====
-- src/pressure.ts: `reconcileQueueOutcomes` with `assertUnique` and `assertDisjoint`. A sequence is
-- a natural number, so of `assertUnique`'s test only the bound of the safe integers is left. The
-- sets are the lists that they are built from. An object whose keys are workers is the list of its
-- entries.
pub mod Accepted
pub mod Kept
pub mod Conservation
use Prim.Native.String.{String}
use text.Mathlib.Text.{◌==◌ as str_eq}
use fitz_destroyer.Common.{
  ℕ, ◌+◌, Bool, true, false, not, ◌&&◌, ◌||◌, List, [], ◌∷◌, ◌++◌, length, leb, ltb, if◌then◌else◌,
  Result, ok, err, ◌>>=◌, ◌>>◌, guard, for_each, contains, sort,
}

pub record QueueClientOutcome : Type 0 where
  pub worker : String
  pub acknowledged : List ℕ
  pub ambiguous_enqueues : List ℕ
  pub failed_enqueues : List ℕ
  pub completed : List ℕ
  pub ambiguous_completions : List ℕ

-- The name that a message gives to a list of sequences.
pub data Label : Type 0 where
  in_acknowledged in_ambiguous_enqueues in_failed_enqueues : Label
  in_completed in_ambiguous_completions in_observed : Label

pub data ReconcileError : Type 0 where
  invalid_sequence duplicate_sequence : String → Label → ℕ → ReconcileError
  multiple_outcomes unacknowledged failed_visible : String → ℕ → ReconcileError
  acknowledged_resolved ambiguous_resolved : String → ℕ → (times : ℕ) → ReconcileError
  unknown_worker : String → ReconcileError

abbrev pub Checked : Type 0
Checked = Result ReconcileError (Unit {0})

-- `Number.MAX_SAFE_INTEGER`
abbrev pub max_safe_integer : ℕ
max_safe_integer = 9007199254740991

module _ (worker : String) where
  assert_unique_from : Label → List ℕ → List ℕ → Checked
  assert_unique_from label seen [] = ok tt
  assert_unique_from label seen (value ∷ values) = do
    guard (leb value max_safe_integer) (invalid_sequence worker label value)
    guard (not (contains value seen)) (duplicate_sequence worker label value)
    assert_unique_from label (value ∷ seen) values

  pub assert_unique : Label → List ℕ → Checked
  unfolding assert_unique_from
  assert_unique label values = assert_unique_from label [] values

  check_apart : List ℕ → List ℕ → ℕ → Checked
  check_apart ambiguous failed n =
      guard (not (contains n ambiguous || contains n failed)) (multiple_outcomes worker n)

  check_not_failed : List ℕ → ℕ → Checked
  check_not_failed failed n = guard (not (contains n failed)) (multiple_outcomes worker n)

  pub assert_disjoint : List ℕ → List ℕ → List ℕ → Checked
  unfolding check_apart check_not_failed
  assert_disjoint acked ambiguous failed = do
    for_each (check_apart ambiguous failed) acked
    for_each (check_not_failed failed) ambiguous

-- `Number(completed.has(n)) + Number(observed.has(n))`
abbrev pub resolutions : List ℕ → List ℕ → ℕ → ℕ
resolutions completed seen n =
    (if contains n completed then 1 else 0) + (if contains n seen then 1 else 0)

module _ (o : QueueClientOutcome) (seen : List ℕ) where
  check_known : ℕ → Checked
  check_known n =
      guard (contains n o.acknowledged || contains n o.ambiguous_enqueues)
        (unacknowledged o.worker n)

  check_failed : ℕ → Checked
  check_failed n =
      guard
        (not (contains n o.completed || (contains n o.ambiguous_completions || contains n seen)))
        (failed_visible o.worker n)

  -- The least and the greatest number of times that an acknowledged sequence may show; the
  -- greatest is 1 in both cases.
  check_acknowledged : ℕ → Checked
  check_acknowledged n =
      let count = resolutions o.completed seen n in
      let minimum : ℕ = if contains n o.ambiguous_completions then 0 else 1 in
      guard (not (ltb count minimum || ltb 1 count)) (acknowledged_resolved o.worker n count)

  check_ambiguous : ℕ → Checked
  check_ambiguous n =
      let count = resolutions o.completed seen n in
      guard (not (ltb 1 count)) (ambiguous_resolved o.worker n count)

-- The checks on one client's outcome, in the source's order; the object's lists come in the order
-- of its fields.
pub check_client : QueueClientOutcome → List ℕ → Checked
check_client o seen = do
  assert_unique o.worker in_acknowledged o.acknowledged
  assert_unique o.worker in_ambiguous_enqueues o.ambiguous_enqueues
  assert_unique o.worker in_failed_enqueues o.failed_enqueues
  assert_unique o.worker in_completed o.completed
  assert_unique o.worker in_ambiguous_completions o.ambiguous_completions
  assert_disjoint o.worker o.acknowledged o.ambiguous_enqueues o.failed_enqueues
  assert_unique o.worker in_observed seen
  for_each (check_known o seen) (o.completed ++ (o.ambiguous_completions ++ seen))
  for_each (check_failed o seen) o.failed_enqueues
  for_each (check_acknowledged o seen) o.acknowledged
  for_each (check_ambiguous o seen) o.ambiguous_enqueues

pub record Totals : Type 0 where
  pub acknowledged : ℕ
  pub ambiguous_enqueues : ℕ
  pub failed_enqueues : ℕ
  pub completed : ℕ
  pub ambiguous_completions : ℕ
  pub observed : ℕ

abbrev pub no_totals : Totals
no_totals = record {
  acknowledged = 0;
  ambiguous_enqueues = 0;
  failed_enqueues = 0;
  completed = 0;
  ambiguous_completions = 0;
  observed = 0;
}

pub add_client : Totals → QueueClientOutcome → List ℕ → Totals
add_client t o seen = record {
  acknowledged = t.acknowledged + length o.acknowledged;
  ambiguous_enqueues = t.ambiguous_enqueues + length o.ambiguous_enqueues;
  failed_enqueues = t.failed_enqueues + length o.failed_enqueues;
  completed = t.completed + length o.completed;
  ambiguous_completions = t.ambiguous_completions + length o.ambiguous_completions;
  observed = t.observed + length seen;
}

-- A client's outcome with its observed sequences, sorted.
pub record ReconciledClient : Type 0 where
  pub outcome : QueueClientOutcome
  pub observed : List ℕ

pub record QueueReconciliation : Type 0 where
  pub totals : Totals
  pub clients : List ReconciledClient

abbrev pub ByWorker : Type 0
ByWorker = List (String × List ℕ)

-- `observedByWorker[worker] ?? []`
unfoldable pub observed_of : ByWorker → String → List ℕ
observed_of [] worker = []
observed_of ((key, values) ∷ rest) worker =
    if str_eq key worker then values else observed_of rest worker

-- The body of `outcomes.map`; `totals` is the variable that it adds to.
reconcile_clients :
    ByWorker → Totals → List QueueClientOutcome → Result ReconcileError QueueReconciliation
reconcile_clients by_worker t [] = ok (record { totals = t; clients = [] })
reconcile_clients by_worker t (o ∷ outcomes) = do
  let seen = observed_of by_worker o.worker
  check_client o seen
  r ← reconcile_clients by_worker (add_client t o seen) outcomes
  ok (record r { clients = record { outcome = o; observed = sort seen } ∷ r.clients })

pub is_worker : String → List QueueClientOutcome → Bool
is_worker worker [] = false
is_worker worker (o ∷ outcomes) = str_eq o.worker worker || is_worker worker outcomes

check_worker : List QueueClientOutcome → String × List ℕ → Checked
check_worker outcomes (worker, _) = guard (is_worker worker outcomes) (unknown_worker worker)

unfoldable pub reconcile_queue_outcomes :
    List QueueClientOutcome → ByWorker → Result ReconcileError QueueReconciliation
unfolding reconcile_clients check_worker check_client check_known check_failed check_acknowledged
    check_ambiguous assert_unique assert_disjoint observed_of is_worker add_client
reconcile_queue_outcomes outcomes by_worker = do
  r ← reconcile_clients by_worker no_totals outcomes
  for_each (check_worker outcomes) by_worker
  ok r

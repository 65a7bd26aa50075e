-- ===== src/Durability/Ledger.antt =====
-- src/orchestration/durability-crash-cuts.ts: `analyzeDurabilityLedger`, `assertDurabilityLedger`
-- and `cutOutcomes`. A `Record<DurableDomain, …>` is a function of the domain, and a map of logs
-- the list of its values.
use Prim.Native.String.{String}
pub mod Records
pub mod Observed
pub mod Analysis
pub mod Assertion
use fitz_destroyer.Common.{
  ℕ, suc, ◌≡◌, Bool, true, false, not, ◌&&◌, Option, none, some, List, [], ◌∷◌, ◌++◌, zero,
  if◌then◌else◌, Result, ok, err, ◌>>=◌, ◌>>◌, guard, for_each, contains, dedupe, sort,
}
use fitz_destroyer.Logs.{
  Json, string, array, number, Items, nil, cons, Fields, Log, LogError, get_field, is_text,
  numeric_value, required_event, record_field,
}

pub data DurableDomain : Type 0 where
  queue kv stream schedule : DurableDomain

abbrev pub durable_domains : List DurableDomain
durable_domains = queue ∷ kv ∷ stream ∷ schedule ∷ []

abbrev pub domain_name : DurableDomain → String
domain_name queue = "queue"
domain_name kv = "kv"
domain_name stream = "stream"
domain_name schedule = "schedule"

abbrev pub same : DurableDomain → DurableDomain → Bool
same queue queue = true
same kv kv = true
same stream stream = true
same schedule schedule = true
same d d' = false

unfoldable pub durable_domain : Option Json → Option DurableDomain
durable_domain value =
    if is_text value "queue"
    then some queue
    else (if is_text value "kv"
        then some kv
        else (if is_text value "stream"
            then some stream
            else (if is_text value "schedule" then some schedule else none)))

pub record Entry : Type 0 where
  pub started : List ℕ
  pub acknowledged : List ℕ
  pub failed : List ℕ
  pub observed : List ℕ

abbrev pub DomainLedger : Type 0
DomainLedger = DurableDomain → Entry

abbrev pub empty_ledger : DomainLedger
empty_ledger d = record { started = []; acknowledged = []; failed = []; observed = [] }

pub data LedgerError : Type 0 where
  in_log : LogError → LedgerError
  verifier_logs : ℕ → LedgerError
  omitted : DurableDomain → LedgerError
  observed_twice : DurableDomain → ℕ → LedgerError
  not_started : DurableDomain → ℕ → LedgerError
  no_baseline : DurableDomain → LedgerError
  disappeared unstarted : DurableDomain → ℕ → LedgerError

abbrev pub from_log {ℓ} : {A : Type ℓ} → Result LogError A → Result LedgerError A
from_log (ok a) = ok a
from_log (err e) = err (in_log e)

-- `ledger[domain]` assigned to.
abbrev pub update : DomainLedger → DurableDomain → (Entry → Entry) → DomainLedger
update ledger d f d' = if same d d' then f (ledger d') else ledger d'

-- The three `if`s on the event's name.
unfoldable pub note_event : Option Json → ℕ → Entry → Entry
note_event event n e = record {
  started =
      if is_text event "durability_operation_started" then e.started ++ (n ∷ []) else e.started;
  acknowledged =
      if is_text event "durability_operation_acknowledged"
      then e.acknowledged ++ (n ∷ [])
      else e.acknowledged;
  failed = if is_text event "durability_operation_failed" then e.failed ++ (n ∷ []) else e.failed;
  observed = e.observed;
}

-- One record, whose domain has been looked up.
unfoldable pub note_in :
    Option DurableDomain → DomainLedger → Fields → Result LedgerError DomainLedger
unfolding note_event get_field numeric_value
note_in none ledger r = ok ledger
note_in (some d) ledger r = do
  n ← from_log (numeric_value (get_field r "sequence") "durability sequence")
  ok (update ledger d (note_event (get_field r "event") n))

unfoldable pub note_log : DomainLedger → Log → Result LedgerError DomainLedger
unfolding note_in durable_domain get_field
note_log ledger [] = ok ledger
note_log ledger (r ∷ rest) =
    note_in (durable_domain (get_field r "domain")) ledger r >>= λ l. note_log l rest

unfoldable pub note_logs : DomainLedger → List Log → Result LedgerError DomainLedger
unfolding note_log
note_logs ledger [] = ok ledger
note_logs ledger (log ∷ logs) = note_log ledger log >>= λ l. note_logs l logs

-- `values.map((value) => numericValue(value, …))`
unfoldable pub numbers : Items → String → Result LogError (List ℕ)
unfolding numeric_value
numbers nil name = ok []
numbers (cons value rest) name = do
  n ← numeric_value (some value) name
  ns ← numbers rest name
  ok (n ∷ ns)

unfoldable pub find_duplicate_from : List ℕ → List ℕ → Option ℕ
unfolding contains
find_duplicate_from seen [] = none
find_duplicate_from seen (x ∷ xs) =
    let rest = find_duplicate_from (x ∷ seen) xs in if contains x seen then some x else rest

unfoldable pub find_duplicate : List ℕ → Option ℕ
unfolding find_duplicate_from
find_duplicate values = find_duplicate_from [] values

abbrev pub tidy : List ℕ → List ℕ
tidy xs = sort (dedupe xs)

abbrev pub tidied : Entry → Entry
tidied e = record {
  started = tidy e.started;
  acknowledged = tidy e.acknowledged;
  failed = tidy e.failed;
  observed = tidy e.observed;
}

no_duplicate : DurableDomain → Option ℕ → Result LedgerError (Unit {0})
no_duplicate d (some n) = err (observed_twice d n)
no_duplicate d none = ok tt

pub array_of : DurableDomain → Option Json → Result LedgerError Items
array_of d (some (array values)) = ok values
array_of d value = err (omitted d)

-- What the verifier saw of one domain.
unfoldable pub observed_in : Fields → DurableDomain → Result LedgerError (List ℕ)
unfolding array_of no_duplicate numbers get_field find_duplicate
observed_in seen d = do
  values ← array_of d (get_field seen (domain_name d))
  ns ← from_log (numbers values (domain_name d))
  no_duplicate d (find_duplicate ns)
  ok ns

unfoldable pub settle_domains :
    Fields → DomainLedger → List DurableDomain → Result LedgerError DomainLedger
unfolding observed_in
settle_domains seen ledger [] = ok ledger
settle_domains seen ledger (d ∷ ds) = do
  ns ← observed_in seen d
  settle_domains seen (update ledger d (λ e. tidied (record e { observed = ns }))) ds

-- `verifyLogs.size !== 1`
only_log : List Log → Result LedgerError Log
only_log (log ∷ []) = ok log
only_log [] = err (verifier_logs 0)
only_log (log ∷ (_ ∷ logs)) = err (verifier_logs (suc (suc (count logs))))
  where
    count : List Log → ℕ
    count [] = 0
    count (_ ∷ rest) = suc (count rest)

unfoldable pub verified : List Log → Result LedgerError Fields
unfolding only_log required_event record_field
verified verify_logs = do
  log ← only_log verify_logs
  event ← from_log (required_event log "durability_verify_complete")
  from_log (record_field event "observed")

unfoldable pub analyze_durability_ledger :
    List Log → List Log → List Log → Result LedgerError DomainLedger
unfolding note_logs verified settle_domains
analyze_durability_ledger baseline_logs cut_logs verify_logs = do
  ledger ← note_logs empty_ledger (baseline_logs ++ cut_logs)
  seen ← verified verify_logs
  settle_domains seen ledger durable_domains

-- 0, …, n.
abbrev pub up_to : ℕ → List ℕ
up_to zero = 0 ∷ []
up_to (suc n) = up_to n ++ (suc n ∷ [])

-- The body of the loop over the domains.
pub assert_entry : DurableDomain → Entry → ℕ → Result LedgerError (Unit {0})
assert_entry d entry iterations = do
  for_each (λ n. guard (contains n entry.started) (not_started d n)) (up_to iterations)
  guard (contains 0 entry.acknowledged) (no_baseline d)
  for_each (λ n. guard (contains n entry.observed) (disappeared d n)) entry.acknowledged
  for_each (λ n. guard (contains n entry.started) (unstarted d n)) entry.observed

unfoldable pub assert_durability_ledger : DomainLedger → ℕ → Result LedgerError (Unit {0})
unfolding assert_entry
assert_durability_ledger ledger iterations =
    for_each (λ d. assert_entry d (ledger d) iterations) durable_domains

-- ===== src/Durability/Ledger/Records.antt =====
-- src/orchestration/durability-crash-cuts.ts: what the loops over the writers' records add to the
-- ledger.
use Prim.Native.String.{String}
use mathlib.Core.Path.{subst}
use fitz_destroyer.Common.{
  ℕ, ◌≡◌, Bool, false, ◌&&◌, ◌||◌, Option, none, some, List, [], ◌∷◌, ◌++◌, ◌==◌, Result, ok, err,
  >>=-eq-ok, ok-inj, contains, contains-append, arith,
}
use fitz_destroyer.Logs.{
  is_number, Json, null, boolean, other_number, string, object, LogError, number, array, Fields,
  Log, get_field, is_text, numeric_value,
}
use fitz_destroyer.Durability.Ledger.{
  DurableDomain, same, durable_domain, Entry, DomainLedger, from_log, note_event, note_in, note_log,
  note_logs, update,
}

abbrev pub is_of : Option DurableDomain → DurableDomain → Bool
is_of none d = false
is_of (some d') d = same d' d

-- The record `r` is the event named `event` of the domain `d`, with the sequence `n`.
abbrev pub says : String → DurableDomain → ℕ → Option DurableDomain → Fields → Bool
says event d n domain r =
    is_of domain d && (is_text (get_field r "event") event && is_number (get_field r "sequence") n)

unfoldable pub reported_in : String → DurableDomain → ℕ → Log → Bool
unfolding durable_domain get_field
reported_in event d n [] = false
reported_in event d n (r ∷ rest) =
    says event d n (durable_domain (get_field r "domain")) r || reported_in event d n rest

unfoldable pub reported : String → DurableDomain → ℕ → List Log → Bool
unfolding reported_in
reported event d n [] = false
reported event d n (log ∷ logs) = reported_in event d n log || reported event d n logs

-- What is in an entry, next to what was in it before and what was added.
abbrev pub Gains : Entry → Entry → ℕ → (String → Bool) → Type 0
Gains before after n added =
    (contains n after.started ≡ (contains n before.started || added "durability_operation_started"))
    × (contains n after.acknowledged
        ≡ (contains n before.acknowledged || added "durability_operation_acknowledged"))
    × (contains n after.failed ≡ (contains n before.failed || added "durability_operation_failed"))

contains-snoc : (n m : ℕ) (xs : List ℕ) → contains n (xs ++ (m ∷ [])) ≡ (contains n xs || m == n)
unfolding contains
contains-snoc n m xs = ground (arith, contains-append n xs (m ∷ []))

note_event-Gains :
    (event : Option Json) (m n : ℕ) (e : Entry)
    → Gains e (note_event event m e) n (λ name. is_text event name && m == n)
unfolding note_event
note_event-Gains event m n e = (
  ground (arith, contains-snoc n m e.started),
  ground (arith, contains-snoc n m e.acknowledged),
  ground (arith, contains-snoc n m e.failed),
)

pub is_number-numeric_value :
    (value : Option Json) (name : String) (m n : ℕ)
    → numeric_value value name ≡ ok m
    → is_number value n ≡ (m == n)
unfolding numeric_value
is_number-numeric_value none name m n h = cc
is_number-numeric_value (some (number k)) name m n h = ground arith
is_number-numeric_value (some null) name m n h = cc
is_number-numeric_value (some (boolean b)) name m n h = cc
is_number-numeric_value (some (other_number t)) name m n h = cc
is_number-numeric_value (some (string t)) name m n h = cc
is_number-numeric_value (some (array xs)) name m n h = cc
is_number-numeric_value (some (object fs)) name m n h = cc

pub from_log-eq-ok {ℓ} : {A : Type ℓ} (r : Result LogError A) (a : A) → from_log r ≡ ok a → r ≡ ok a
from_log-eq-ok (ok b) a h = cc
from_log-eq-ok (err e) a h = cc

note_in-Gains :
    (domain : Option DurableDomain) (r : Fields) (before after : DomainLedger)
    → note_in domain before r ≡ ok after
    → (d : DurableDomain) (n : ℕ) → Gains (before d) (after d) n (λ name. says name d n domain r)
unfolding note_in
note_in-Gains none r before after h d n = ground arith
note_in-Gains (some d') r before after h d n =
    let (m, found, done) =
      >>=-eq-ok (from_log (numeric_value (get_field r "sequence") "durability sequence"))
        (λ m. ok (update before d' (note_event (get_field r "event") m))) h in
    subst (λ l. Gains (before d) (l d) n (λ name. says name d n (some d') r)) (ok-inj done)
      (noted m (
        is_number-numeric_value (get_field r "sequence") "durability sequence" m n
          (from_log-eq-ok _ m found)))
  where
    noted :
        (m : ℕ)
        → is_number (get_field r "sequence") n ≡ (m == n)
        → Gains
            (before d)
            (update before d' (note_event (get_field r "event") m) d)
            n
            (λ name. says name d n (some d') r)
    noted m e = ground (arith, note_event-Gains (get_field r "event") m n (before d))

note_log-Gains :
    (before after : DomainLedger) (log : Log)
    → note_log before log ≡ ok after
    → (d : DurableDomain) (n : ℕ) → Gains (before d) (after d) n (λ name. reported_in name d n log)
unfolding note_log reported_in
note_log-Gains before after [] h d n = ground arith
note_log-Gains before after (r ∷ rest) h d n =
    let domain = durable_domain (get_field r "domain") in
    let (l, here, later) = >>=-eq-ok (note_in domain before r) (λ l. note_log l rest) h in
    ground (arith, note_in-Gains domain r before l here d n, note_log-Gains l after rest later d n)

pub note_logs-Gains :
    (before after : DomainLedger) (logs : List Log)
    → note_logs before logs ≡ ok after
    → (d : DurableDomain) (n : ℕ) → Gains (before d) (after d) n (λ name. reported name d n logs)
unfolding note_logs reported
note_logs-Gains before after [] h d n = ground arith
note_logs-Gains before after (log ∷ logs) h d n =
    let (l, here, later) = >>=-eq-ok (note_log before log) (λ l. note_logs l logs) h in
    ground (arith, note_log-Gains before l log here d n, note_logs-Gains l after logs later d n)

-- ===== src/Durability/Ledger/Analysis.antt =====
-- src/orchestration/durability-crash-cuts.ts: what `analyzeDurabilityLedger` returns, said by the
-- records of the logs and not by the loops that read them.
use fitz_destroyer.Common.{
  ℕ, ◌≡◌, refl, ◌∙◌, Bool, true, ◌||◌, inr, List, [], ◌++◌, ok, >>=-eq-ok, contains,
}
use fitz_destroyer.Logs.{Fields, Log}
use fitz_destroyer.Durability.Ledger.{
  DurableDomain, queue, kv, stream, schedule, durable_domains, Entry, DomainLedger, empty_ledger,
  note_logs, settle_domains, verified, analyze_durability_ledger,
}
use fitz_destroyer.Durability.Ledger.Records.{reported, note_logs-Gains}
use fitz_destroyer.Durability.Ledger.Observed.{
  IsSettled, settle_domains-Keeps, is_in, settle_domains-IsSettled,
}

-- A domain's part of the ledger, said by the records of the logs.
abbrev pub IsLedgerOf : List Log → Fields → DurableDomain → Entry → Type 0
IsLedgerOf logs seen d e =
    IsSettled seen d e
    × ((n : ℕ)
        → (contains n e.started ≡ reported "durability_operation_started" d n logs)
          × (contains n e.acknowledged ≡ reported "durability_operation_acknowledged" d n logs)
          × (contains n e.failed ≡ reported "durability_operation_failed" d n logs))

is_in-durable_domains : (seen : Fields) (d : DurableDomain) → is_in seen d durable_domains ≡ true
unfolding is_in
is_in-durable_domains seen queue = refl
is_in-durable_domains seen kv = refl
is_in-durable_domains seen stream = refl
is_in-durable_domains seen schedule = refl

-- When the analysis returns a ledger, there is one verifier's log with an object of observed
-- sequences, and in each domain: every list is in order and without repetitions; a sequence is
-- started, acknowledged or failed exactly when a record of the baseline's logs or of the cuts'
-- logs says so of that domain; and it is observed exactly when the verifier's array has it.
pub analyze_durability_ledger-IsLedgerOf :
    (baseline cuts verify : List Log) (ledger : DomainLedger)
    → analyze_durability_ledger baseline cuts verify ≡ ok ledger
    → (seen : Fields) × (verified verify ≡ ok seen)
      × ((d : DurableDomain) → IsLedgerOf (baseline ++ cuts) seen d (ledger d))
unfolding analyze_durability_ledger contains
analyze_durability_ledger-IsLedgerOf baseline cuts verify ledger h =
    let (noted, h1, more) = >>=-eq-ok (note_logs empty_ledger (baseline ++ cuts)) _ h in
    let (seen, h2, h3) = >>=-eq-ok (verified verify) _ more in
    (
      seen,
      h2,
      λ d. (
        settle_domains-IsSettled seen noted ledger durable_domains h3 d
            (inr (is_in-durable_domains seen d)),
        λ n. merged noted seen h1 h3 d n,
      ),
    )
  where
    merged :
        (noted : DomainLedger) (seen : Fields)
        → note_logs empty_ledger (baseline ++ cuts) ≡ ok noted
        → settle_domains seen noted durable_domains ≡ ok ledger
        → (d : DurableDomain) (n : ℕ)
        → (contains n (ledger d).started
            ≡ reported "durability_operation_started" d n (baseline ++ cuts))
          × (contains n (ledger d).acknowledged
              ≡ reported "durability_operation_acknowledged" d n (baseline ++ cuts))
          × (contains n (ledger d).failed
              ≡ reported "durability_operation_failed" d n (baseline ++ cuts))
    merged noted seen h1 h3 d n =
        let (a, b, c) = note_logs-Gains empty_ledger noted (baseline ++ cuts) h1 d n in
        let (a', b', c') = settle_domains-Keeps seen noted ledger durable_domains h3 d n in
        (a' ∙ a ∙ none_yet _, b' ∙ b ∙ none_yet _, c' ∙ c ∙ none_yet _)
      where
        none_yet : (b : Bool) → (contains n [] || b) ≡ b
        none_yet b = refl

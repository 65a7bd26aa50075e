-- ===== src/Durability/Ledger/Assertion.antt =====
-- src/orchestration/durability-crash-cuts.ts: what it means that `assertDurabilityLedger` passes.
use fitz_destroyer.Common.{
  ℕ, zero, suc, ◌≤◌, ◌≡◌, refl, ◌↔◌, [], ◌∷◌, ok, guard, for_each, contains, contains-append, In,
  >>-eq-ok_iff, guard-eq-ok_iff, for_each-guard-eq-ok_iff, arith,
}
use fitz_destroyer.Durability.Ledger.{
  DurableDomain, queue, kv, stream, schedule, durable_domains, Entry, DomainLedger, assert_entry,
  assert_durability_ledger, up_to,
}

-- Every iteration was started, the baseline acknowledged; what was acknowledged is observed, and
-- what is observed was started.
abbrev pub IsDurable : ℕ → Entry → Type 0
IsDurable iterations e =
    ((n : ℕ) → n ≤ iterations → In n e.started)
    × In 0 e.acknowledged
    × ((n : ℕ) → In n e.acknowledged → In n e.observed)
    × ((n : ℕ) → In n e.observed → In n e.started)

In-up_to : (m n : ℕ) → In n (up_to m) ↔ (n ≤ m)
unfolding contains
In-up_to zero n = (λ h. ground arith, λ h. ground arith)
In-up_to (suc m) n = (
  λ h. ground (arith, contains-append n (up_to m) (suc m ∷ []), (In-up_to m n).0),
  λ h. ground (arith, contains-append n (up_to m) (suc m ∷ []), (In-up_to m n).1),
)

module _ (d : DurableDomain) (e : Entry) (iterations : ℕ) where
  assert_entry-eq-ok_iff : (assert_entry d e iterations ≡ ok tt) ↔ IsDurable iterations e
  unfolding assert_entry
  assert_entry-eq-ok_iff = (to, from)
    where
      to : assert_entry d e iterations ≡ ok tt → IsDurable iterations e
      to h =
          let (a, h1) = (>>-eq-ok_iff (for_each _ (up_to iterations)) _).0 h in
          let (b, h2) = (>>-eq-ok_iff (guard (contains 0 e.acknowledged) _) _).0 h1 in
          let (c, c') = (>>-eq-ok_iff (for_each _ e.acknowledged) _).0 h2 in
          (
            λ n k.
                (for_each-guard-eq-ok_iff _ _ (up_to iterations)).0 a n
                  ((In-up_to iterations n).1 k),
            (guard-eq-ok_iff _ _).0 b,
            (for_each-guard-eq-ok_iff _ _ e.acknowledged).0 c,
            (for_each-guard-eq-ok_iff _ _ e.observed).0 c',
          )

      from : IsDurable iterations e → assert_entry d e iterations ≡ ok tt
      from (a, b, c, c') = (>>-eq-ok_iff _ _).1 (
        (for_each-guard-eq-ok_iff _ _ (up_to iterations)).1
            (λ n k. a n ((In-up_to iterations n).0 k)),
        (>>-eq-ok_iff _ _).1 (
          (guard-eq-ok_iff _ _).1 b,
          (>>-eq-ok_iff _ _).1 (
            (for_each-guard-eq-ok_iff _ _ e.acknowledged).1 c,
            (for_each-guard-eq-ok_iff _ _ e.observed).1 c',
          ),
        ),
      )

-- The assertion passes on a ledger exactly when in each of the four durable domains every
-- iteration up to the last was started, the baseline was acknowledged, every acknowledged sequence
-- is still observed, and no sequence is observed that was not started.
pub assert_durability_ledger-eq-ok_iff :
    (ledger : DomainLedger) (iterations : ℕ)
    → (assert_durability_ledger ledger iterations ≡ ok tt)
      ↔ ((d : DurableDomain) → IsDurable iterations (ledger d))
unfolding assert_durability_ledger
assert_durability_ledger-eq-ok_iff ledger iterations = (to, from)
  where
    step :
        (d : DurableDomain)
        → (assert_entry d (ledger d) iterations ≡ ok tt) ↔ IsDurable iterations (ledger d)
    step d = assert_entry-eq-ok_iff d (ledger d) iterations

    to :
        for_each (λ d. assert_entry d (ledger d) iterations) durable_domains ≡ ok tt
        → (d : DurableDomain) → IsDurable iterations (ledger d)
    to h d =
        let (a, h1) = (>>-eq-ok_iff (assert_entry queue (ledger queue) iterations) _).0 h in
        let (b, h2) = (>>-eq-ok_iff (assert_entry kv (ledger kv) iterations) _).0 h1 in
        let (c, h3) = (>>-eq-ok_iff (assert_entry stream (ledger stream) iterations) _).0 h2 in
        let (c', h4) = (>>-eq-ok_iff (assert_entry schedule (ledger schedule) iterations) _).0 h3 in
        elim d as (λ k. IsDurable iterations (ledger k)) [
          | queue ↦ (step queue).0 a
          | kv ↦ (step kv).0 b
          | stream ↦ (step stream).0 c
          | schedule ↦ (step schedule).0 c'
        ]

    from :
        ((d : DurableDomain) → IsDurable iterations (ledger d))
        → for_each (λ d. assert_entry d (ledger d) iterations) durable_domains ≡ ok tt
    from h = (>>-eq-ok_iff _ _).1 (
      (step queue).1 (h queue),
      (>>-eq-ok_iff _ _).1 (
        (step kv).1 (h kv),
        (>>-eq-ok_iff _ _).1 (
          (step stream).1 (h stream),
          (>>-eq-ok_iff _ _).1 ((step schedule).1 (h schedule), refl),
        ),
      ),
    )

-- ===== src/ScheduleDelivery/Delivered.antt =====
-- src/orchestration/schedule-delivery.ts: what it means that the summary is returned.
use Prim.Native.String.{String}
use mathlib.Core.Path.{subst}
use fitz_destroyer.Common.{
  ℕ, zero, suc, ◌+◌, ◌*◌, ◌≤◌, ◌<◌, ◌≡◌, refl, sym, ap, ◌∙◌, Bool, true, false, ◌&&◌, List, [], ◌∷◌,
  ◌++◌, length, ltb, leb, ◌==◌, Option, if◌then◌else◌, ok, >>=-eq-ok, ok-inj, guard,
  guard-eq-ok_iff, Bool-cases, inl, inr, All, arith,
}
use fitz_destroyer.Logs.{Json, Log}
use fitz_destroyer.ScheduleDelivery.Scanned.{count}
use fitz_destroyer.ScheduleDelivery.Subscribers.{
  AreServed, added_up, reported_singles, has_broadcast, single_notices, IsComplete, Settled,
  scan_logs-Settled, scan_logs-heard,
}
use fitz_destroyer.ScheduleDelivery.{
  Scan, Violations, ScheduleDeliverySummary, ScheduleDeliveryEvidence, begun, workers_of, times,
  scan_logs, violations_from, sequence_violations, analyze_schedule_delivery_logs,
  assert_schedule_delivery, summarize_schedule_delivery_logs, are_served,
}

abbrev with_violation : ℕ → Violations → Violations
with_violation n v = record {
  violation_count = v.violation_count + 1;
  sample = if ltb (length v.sample) 20 then v.sample ++ n ∷ [] else v.sample;
}

no_violation_now :
    (b : Bool) (n : ℕ) (v : Violations)
    → (if b then v else with_violation n v).violation_count ≡ 0
    → (b ≡ true) × (v.violation_count ≡ 0)
no_violation_now true n v h = (refl, h)
no_violation_now false n v h = absurd (omega (arith, h))

no_violations :
    (p : ℕ → Bool) (left n : ℕ) (v : Violations)
    → (violations_from p left n v).violation_count ≡ 0
    → (v.violation_count ≡ 0) × ((k : ℕ) → n ≤ k → k < n + left → p k ≡ true)
no_violations p zero n v h = (h, λ k a b. absurd (omega (arith, a, b)))
no_violations p (suc left) n v h =
    let (now, later) = no_violations p left (suc n) (if p n then v else with_violation n v) h in
    let (here, before) = no_violation_now (p n) n v now in
    (before, λ k a b. ground (arith, here, later k))

-- Each of the sequences satisfies the predicate, where no violation is counted.
sequence_violations-none :
    (count : ℕ) (p : ℕ → Bool)
    → (sequence_violations count p).violation_count ≡ 0
    → (k : ℕ) → k < count
    → p k ≡ true
sequence_violations-none count p h k few =
    (no_violations p count 0 (record { violation_count = 0; sample = [] }) h).1 k (omega arith)
      (omega (arith, few))

are_served-AreServed :
    (fires : ℕ) (xs : List (String × ℕ)) → are_served fires xs ≡ true → AreServed fires xs
are_served-AreServed fires [] h = tt
are_served-AreServed fires ((worker, deliveries) ∷ rest) h =
    (ground (arith, h), are_served-AreServed fires rest (ground (arith, h)))

-- What the assertion accepts.
abbrev IsAccepted : (fires replicas : ℕ) → Scan → Type 0
IsAccepted fires replicas s =
    ((k : ℕ) → k < fires → (workers_of k s.broadcast_workers ≡ replicas) × (times k s.singles ≡ 1))
    × (s.observed.broadcast_deliveries ≡ fires * replicas)
    × (s.observed.single_deliveries ≡ fires)
    × Settled fires s

abbrev evidence_of : (fires replicas : ℕ) → Scan → ScheduleDeliveryEvidence
evidence_of fires replicas s = record {
  replicas = replicas;
  fires_per_mode = fires;
  broadcast_expected = fires * replicas;
  scan = s;
  missing_broadcast = sequence_violations fires (λ n. workers_of n s.broadcast_workers == replicas);
  missing_single = sequence_violations fires (λ n. ltb 0 (times n s.singles));
  duplicate_single = sequence_violations fires (λ n. leb (times n s.singles) 1);
}

&&-true : (a b : Bool) → (a && b) ≡ true → (a ≡ true) × (b ≡ true)
&&-true true b h = (refl, h)
&&-true false b h = cc

assert_schedule_delivery-IsAccepted :
    (fires replicas : ℕ) (s : Scan)
    → assert_schedule_delivery (evidence_of fires replicas s) ≡ ok tt
    → IsAccepted fires replicas s
unfolding assert_schedule_delivery
assert_schedule_delivery-IsAccepted fires replicas s h =
    let e = evidence_of fires replicas s in
    let (broadcast, t1) = &&-true _ _ ((guard-eq-ok_iff _ _).0 h) in
    let (single, t2) = &&-true _ _ t1 in
    let (cancelled, t3) = &&-true _ _ t2 in
    let (duplicates, t4) = &&-true _ _ t3 in
    let (invalid, t5) = &&-true _ _ t4 in
    let (missed, t6) = &&-true _ _ t5 in
    let (missed_single, t7) = &&-true _ _ t6 in
    let (twice, t8) = &&-true _ _ t7 in
    let (quiet, served) = &&-true _ _ t8 in
    let all = sequence_violations-none fires _ (==_eq _ _ missed) in
    let some_ = sequence_violations-none fires _ (==_eq _ _ missed_single) in
    let once = sequence_violations-none fires _ (==_eq _ _ twice) in
    (
      λ k few. (==_eq _ _ (all k few), ground (arith, some_ k few, once k few)),
      ==_eq _ _ broadcast,
      ==_eq _ _ single,
      (
        are_served-AreServed fires s.subscriber_deliveries served,
        ==_eq _ _ cancelled,
        ==_eq _ _ duplicates,
        ==_eq _ _ invalid,
        quiet,
      ),
    )
  where
    ==_eq : (m n : ℕ) → (m == n) ≡ true → m ≡ n
    ==_eq m n k = ground arith

count-le {ℓ} : {A : Type ℓ} (p : A → Bool) (xs : List A) → count p xs ≤ length xs
count-le p [] = omega arith
count-le p (x ∷ xs) = ground (arith, count-le p xs)

-- Where as many meet a test as there are, all do.
count-All {ℓ} :
    {A : Type ℓ} (p : A → Bool) (xs : List A) → length xs ≤ count p xs → All (λ x. p x ≡ true) xs
count-All p [] h = tt
count-All p (x ∷ xs) h = elim (Bool-cases (p x)) [
  | inl met ↦ (met, count-All p xs (ground (arith, h, met)))
  | inr unmet ↦ absurd (ground (arith, h, unmet, count-le p xs))
]

-- The subscribers' logs show a complete delivery, and the summary is its totals.
abbrev pub IsDelivered :
    (Option Json → String)
    → (fires replicas : ℕ) → List (String × Log)
    → ScheduleDeliverySummary
    → Type 0
IsDelivered to_string fires replicas logs summary =
    (length logs ≡ replicas)
    × All (IsComplete to_string fires) logs
    × ((k : ℕ)
        → k < fires
        → All (λ l. has_broadcast k l ≡ true) logs × (added_up (single_notices k) logs ≡ 1))
    × (added_up reported_singles logs ≡ fires)
    × (summary.broadcast_deliveries ≡ fires * replicas)
    × (summary.single_deliveries ≡ fires)
    × (summary.cancelled_deliveries ≡ 0)
    × (summary.duplicates ≡ 0)
    × (summary.invalid ≡ 0)

module _ (to_string : Option Json → String) (logs : List (String × Log)) (fires replicas : ℕ)
    (s : Scan) (scanned : scan_logs to_string fires logs begun ≡ ok s) where
  accepted-IsDelivered :
      length logs ≡ replicas
      → IsAccepted fires replicas s
      → IsDelivered to_string fires replicas logs s.observed
  accepted-IsDelivered size (each, broadcast, single, settled) = (
    size,
    (scan_logs-Settled to_string fires logs begun s scanned settled).1,
    λ k few.
        let (workers, counted, _) = scan_logs-heard to_string fires k logs begun s scanned in
        let (all, once) = each k few in
        (
          count-All (has_broadcast k) logs (omega (arith, workers, all, size)),
          omega (arith, counted, once),
        ),
    omega (arith, (scan_logs-heard to_string fires 0 logs begun s scanned).2, single),
    broadcast,
    single,
    settled.1,
    settled.2,
    settled.3,
  )

-- When a summary is returned, there is a log for each replica, and each log shows a subscriber that
-- received every sequence as a broadcast, counted each broadcast in its last record, had no cancelled,
-- duplicate or invalid delivery and no saturated handler. Every sequence was received exactly once as
-- a single delivery by all subscribers together, and their own counts of single deliveries come to as
-- many as there are sequences. The summary's totals are a broadcast for each sequence and replica, a
-- single delivery for each sequence, and no cancelled, duplicate or invalid delivery.
pub summarize_schedule_delivery_logs-IsDelivered :
    (to_string : Option Json → String) (logs : List (String × Log)) (fires replicas : ℕ)
    (summary : ScheduleDeliverySummary)
    → summarize_schedule_delivery_logs to_string logs fires replicas ≡ ok summary
    → IsDelivered to_string fires replicas logs summary
unfolding summarize_schedule_delivery_logs analyze_schedule_delivery_logs
summarize_schedule_delivery_logs-IsDelivered to_string logs fires replicas summary h =
    let (e, analysed, h1) =
      >>=-eq-ok (analyze_schedule_delivery_logs to_string logs fires replicas) _ h in
    let (_, complete, h2) = >>=-eq-ok (guard (length logs == replicas) _) _ analysed in
    let (s, scanned, h3) = >>=-eq-ok (scan_logs to_string fires logs begun) _ h2 in
    let (_, asserted, done) = >>=-eq-ok (assert_schedule_delivery e) _ h1 in
    let same : evidence_of fires replicas s ≡ e = ok-inj h3 in
    subst (IsDelivered to_string fires replicas logs) (ap (λ x. x.scan.observed) same ∙ ok-inj done)
      (accepted-IsDelivered to_string logs fires replicas s scanned
        (equal (length logs) replicas ((guard-eq-ok_iff (length logs == replicas) _).0 complete))
        (assert_schedule_delivery-IsAccepted fires replicas s
          (subst (λ x. assert_schedule_delivery x ≡ ok tt) (sym same) asserted)))
  where
    equal : (m n : ℕ) → (m == n) ≡ true → m ≡ n
    equal m n k = ground arith

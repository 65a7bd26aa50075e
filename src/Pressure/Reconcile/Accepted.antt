-- ===== src/Pressure/Reconcile/Accepted.antt =====
-- Which outcomes the reconciler accepts.
use Prim.Native.String.{String}
use fitz_destroyer.Common.{
  ℕ, ◌≤◌, ◌≡◌, refl, ◌↔◌, inl, inr, Bool, true, false, not, ◌&&◌, ◌||◌, List, [], ◌∷◌, ◌++◌, ok,
  for_each, contains, In, IsUnique, All, Bool-cases, >>-eq-ok_iff, guard-eq-ok_iff,
  for_each-eq-ok_iff, arith,
}
use fitz_destroyer.Pressure.Reconcile.{
  QueueClientOutcome, Label, in_acknowledged, in_ambiguous_enqueues, in_failed_enqueues,
  in_completed, in_ambiguous_completions, in_observed, max_safe_integer, assert_unique_from,
  assert_unique, check_apart, check_not_failed, assert_disjoint, check_known, check_failed,
  check_acknowledged, check_ambiguous, check_client,
}

-- The sequences of one client are accounted for: what `check_client` asks, free of its loops.
pub record IsReconciled (o : QueueClientOutcome) (seen : List ℕ) : Type 0 where
  pub safe :
      All (λ n. n ≤ max_safe_integer) o.acknowledged
      × All (λ n. n ≤ max_safe_integer) o.ambiguous_enqueues
      × All (λ n. n ≤ max_safe_integer) o.failed_enqueues
      × All (λ n. n ≤ max_safe_integer) o.completed
      × All (λ n. n ≤ max_safe_integer) o.ambiguous_completions
      × All (λ n. n ≤ max_safe_integer) seen
  pub unique :
      IsUnique o.acknowledged
      × IsUnique o.ambiguous_enqueues
      × IsUnique o.failed_enqueues
      × IsUnique o.completed
      × IsUnique o.ambiguous_completions
      × IsUnique seen
  -- The three outcomes of an enqueue exclude one another.
  pub acknowledged_apart :
      (n : ℕ)
      → In n o.acknowledged
      → (contains n o.ambiguous_enqueues || contains n o.failed_enqueues) ≡ false
  pub ambiguous_apart : (n : ℕ) → In n o.ambiguous_enqueues → contains n o.failed_enqueues ≡ false
  -- Whatever shows was acknowledged, or may have been enqueued.
  pub known :
      (n : ℕ)
      → In n (o.completed ++ (o.ambiguous_completions ++ seen))
      → (contains n o.acknowledged || contains n o.ambiguous_enqueues) ≡ true
  -- A failed enqueue left nothing behind.
  pub hidden :
      (n : ℕ)
      → In n o.failed_enqueues
      → (contains n o.completed || (contains n o.ambiguous_completions || contains n seen)) ≡ false
  -- An acknowledged entry was completed, perhaps completed, or is still there.
  pub kept :
      (n : ℕ)
      → In n o.acknowledged
      → (contains n o.completed || (contains n o.ambiguous_completions || contains n seen)) ≡ true
  -- No entry was completed and is still there.
  pub once :
      (n : ℕ)
      → (contains n o.acknowledged || contains n o.ambiguous_enqueues) ≡ true
      → (contains n o.completed && contains n seen) ≡ false

abbrev AreSafe : List ℕ → Type 0
AreSafe = All (λ n. n ≤ max_safe_integer)

-- `seen` holds what the loop has passed.
assert_unique_from_sound :
    (worker : String) (label : Label) (seen values : List ℕ)
    → assert_unique_from worker label seen values ≡ ok tt
    → AreSafe values × IsUnique values × ((n : ℕ) → In n values → contains n seen ≡ false)
unfolding assert_unique_from contains
assert_unique_from_sound worker label seen [] h = (tt, tt, λ n k. cc)
assert_unique_from_sound worker label seen (v ∷ values) h =
    let (safe, unique, apart) =
      assert_unique_from_sound worker label (v ∷ seen) values (ground arith) in
    ((ground arith, safe), (new apart, unique), λ n k. ground (arith, apart n))
  where
    new : ((n : ℕ) → In n values → contains n (v ∷ seen) ≡ false) → contains v values ≡ false
    new apart = ground (arith, apart v)

assert_unique_from_complete :
    (worker : String) (label : Label) (seen values : List ℕ)
    → AreSafe values
    → IsUnique values
    → ((n : ℕ) → In n values → contains n seen ≡ false)
    → assert_unique_from worker label seen values ≡ ok tt
unfolding assert_unique_from contains
assert_unique_from_complete worker label seen [] safe unique apart = refl
assert_unique_from_complete worker label seen (v ∷ values) (here, safe) (new, unique) apart =
    let rest =
      assert_unique_from_complete worker label (v ∷ seen) values safe unique
        (λ n k. ground (arith, apart n)) in
    ground (arith, rest, apart v)

assert_unique-eq-ok_iff :
    (worker : String) (label : Label) (values : List ℕ)
    → (assert_unique worker label values ≡ ok tt) ↔ (AreSafe values × IsUnique values)
unfolding assert_unique contains
assert_unique-eq-ok_iff worker label values = (
  λ h. let (safe, unique, _) = assert_unique_from_sound worker label [] values h in (safe, unique),
  λ (safe, unique). assert_unique_from_complete worker label [] values safe unique (λ n k. refl),
)

not-eq-true : (b : Bool) → not b ≡ true → b ≡ false
not-eq-true b h = ground arith

assert_disjoint_sound :
    (worker : String) (acked ambiguous failed : List ℕ)
    → assert_disjoint worker acked ambiguous failed ≡ ok tt
    → ((n : ℕ) → In n acked → (contains n ambiguous || contains n failed) ≡ false)
      × ((n : ℕ) → In n ambiguous → contains n failed ≡ false)
unfolding assert_disjoint
assert_disjoint_sound worker acked ambiguous failed h =
    let apart = for_each (check_apart worker ambiguous failed) acked in
    let not_failed = for_each (check_not_failed worker failed) ambiguous in
    let (first, second) = (>>-eq-ok_iff apart not_failed).0 h in
    (
      λ n k.
          ground
            (arith, (for_each-eq-ok_iff (check_apart worker ambiguous failed) acked).0 first n k),
      λ n k.
          ground
            (arith, (for_each-eq-ok_iff (check_not_failed worker failed) ambiguous).0 second n k),
    )

assert_disjoint_complete :
    (worker : String) (acked ambiguous failed : List ℕ)
    → ((n : ℕ) → In n acked → (contains n ambiguous || contains n failed) ≡ false)
    → ((n : ℕ) → In n ambiguous → contains n failed ≡ false)
    → assert_disjoint worker acked ambiguous failed ≡ ok tt
unfolding assert_disjoint
assert_disjoint_complete worker acked ambiguous failed h k =
    let later =
      (for_each-eq-ok_iff (check_not_failed worker failed) ambiguous).1 (λ n m. rw (k n m)) in
    rw ((for_each-eq-ok_iff (check_apart worker ambiguous failed) acked).1 (λ n m. rw (h n m)))
      later

module _ (o : QueueClientOutcome) (seen : List ℕ) where
  -- The results of the eleven checks.
  record Passes : Type 0 where
    acknowledged : assert_unique o.worker in_acknowledged o.acknowledged ≡ ok tt
    ambiguous : assert_unique o.worker in_ambiguous_enqueues o.ambiguous_enqueues ≡ ok tt
    failed : assert_unique o.worker in_failed_enqueues o.failed_enqueues ≡ ok tt
    completed : assert_unique o.worker in_completed o.completed ≡ ok tt
    completions : assert_unique o.worker in_ambiguous_completions o.ambiguous_completions ≡ ok tt
    disjoint :
        assert_disjoint o.worker o.acknowledged o.ambiguous_enqueues o.failed_enqueues ≡ ok tt
    observed : assert_unique o.worker in_observed seen ≡ ok tt
    known : for_each (check_known o seen) (o.completed ++ (o.ambiguous_completions ++ seen)) ≡ ok tt
    hidden : for_each (check_failed o seen) o.failed_enqueues ≡ ok tt
    kept : for_each (check_acknowledged o seen) o.acknowledged ≡ ok tt
    once : for_each (check_ambiguous o seen) o.ambiguous_enqueues ≡ ok tt

  check_client-Passes : check_client o seen ≡ ok tt → Passes
  unfolding check_client
  check_client-Passes h = record {
    acknowledged = ground arith;
    ambiguous = ground arith;
    failed = ground arith;
    completed = ground arith;
    completions = ground arith;
    disjoint = ground arith;
    observed = ground arith;
    known = ground arith;
    hidden = ground arith;
    kept = ground arith;
    once = ground arith;
  }

  Passes-check_client : Passes → check_client o seen ≡ ok tt
  unfolding check_client
  Passes-check_client p =
      rw
        (
          p.acknowledged, p.ambiguous, p.failed, p.completed, p.completions, p.disjoint, p.observed,
          p.known, p.hidden, p.kept,
        )
        p.once

  check_known-eq-ok :
      (n : ℕ)
      → (check_known o seen n ≡ ok tt)
        ↔ ((contains n o.acknowledged || contains n o.ambiguous_enqueues) ≡ true)
  unfolding check_known
  check_known-eq-ok n = guard-eq-ok_iff _ _

  check_failed-eq-ok :
      (n : ℕ)
      → (check_failed o seen n ≡ ok tt) ↔ (
          (contains n o.completed || (contains n o.ambiguous_completions || contains n seen))
          ≡ false)
  unfolding check_failed
  check_failed-eq-ok n = (λ h. not-eq-true _ ((guard-eq-ok_iff _ _).0 h), λ h. rw h)

  check_acknowledged-eq-ok :
      (n : ℕ)
      → (check_acknowledged o seen n ≡ ok tt) ↔ (
          ((contains n o.completed || (contains n o.ambiguous_completions || contains n seen))
            ≡ true)
          × ((contains n o.completed && contains n seen) ≡ false))
  unfolding check_acknowledged
  check_acknowledged-eq-ok n = (λ h. ground arith, λ h. ground arith)

  check_ambiguous-eq-ok :
      (n : ℕ)
      → (check_ambiguous o seen n ≡ ok tt) ↔ ((contains n o.completed && contains n seen) ≡ false)
  unfolding check_ambiguous
  check_ambiguous-eq-ok n = (λ h. ground arith, λ h. ground arith)

  check_client-IsReconciled : check_client o seen ≡ ok tt → IsReconciled o seen
  check_client-IsReconciled h =
      let p = check_client-Passes h in
      let ack =
        (assert_unique-eq-ok_iff o.worker in_acknowledged o.acknowledged).0 p.acknowledged in
      let amb =
        (assert_unique-eq-ok_iff o.worker in_ambiguous_enqueues o.ambiguous_enqueues).0
          p.ambiguous in
      let fail =
        (assert_unique-eq-ok_iff o.worker in_failed_enqueues o.failed_enqueues).0 p.failed in
      let comp = (assert_unique-eq-ok_iff o.worker in_completed o.completed).0 p.completed in
      let perhaps =
        (assert_unique-eq-ok_iff o.worker in_ambiguous_completions o.ambiguous_completions).0
          p.completions in
      let obs = (assert_unique-eq-ok_iff o.worker in_observed seen).0 p.observed in
      let (apart, unfailed) =
        assert_disjoint_sound o.worker o.acknowledged o.ambiguous_enqueues o.failed_enqueues
          p.disjoint in
      let resolved = (for_each-eq-ok_iff (check_acknowledged o seen) o.acknowledged).0 p.kept in
      let doubtful = (for_each-eq-ok_iff (check_ambiguous o seen) o.ambiguous_enqueues).0 p.once in
      record {
        safe = (ack.0, amb.0, fail.0, comp.0, perhaps.0, obs.0);
        unique = (ack.1, amb.1, fail.1, comp.1, perhaps.1, obs.1);
        acknowledged_apart = apart;
        ambiguous_apart = unfailed;
        known = λ n k.
            (check_known-eq-ok n).0 ((for_each-eq-ok_iff (check_known o seen) _).0 p.known n k);
        hidden = λ n k.
            (check_failed-eq-ok n).0 ((for_each-eq-ok_iff (check_failed o seen) _).0 p.hidden n k);
        kept = λ n k. ((check_acknowledged-eq-ok n).0 (resolved n k)).0;
        once = λ n k. elim (Bool-cases (contains n o.acknowledged)) [
          | inl acked ↦ ((check_acknowledged-eq-ok n).0 (resolved n acked)).1
          | inr other ↦ (check_ambiguous-eq-ok n).0 (doubtful n (ground arith))
        ];
      }

  IsReconciled-check_client : IsReconciled o seen → check_client o seen ≡ ok tt
  IsReconciled-check_client r = Passes-check_client (record {
    acknowledged =
        (assert_unique-eq-ok_iff o.worker in_acknowledged o.acknowledged).1 (r.safe.0, r.unique.0);
    ambiguous =
        (assert_unique-eq-ok_iff o.worker in_ambiguous_enqueues o.ambiguous_enqueues).1
          (r.safe.1, r.unique.1);
    failed =
        (assert_unique-eq-ok_iff o.worker in_failed_enqueues o.failed_enqueues).1
          (r.safe.2, r.unique.2);
    completed =
        (assert_unique-eq-ok_iff o.worker in_completed o.completed).1 (r.safe.3, r.unique.3);
    completions =
        (assert_unique-eq-ok_iff o.worker in_ambiguous_completions o.ambiguous_completions).1
          (r.safe.4, r.unique.4);
    disjoint =
        assert_disjoint_complete o.worker o.acknowledged o.ambiguous_enqueues o.failed_enqueues
          r.acknowledged_apart r.ambiguous_apart;
    observed = (assert_unique-eq-ok_iff o.worker in_observed seen).1 (r.safe.5, r.unique.5);
    known =
        (for_each-eq-ok_iff (check_known o seen) _).1
          (λ n k. (check_known-eq-ok n).1 (r.known n k));
    hidden =
        (for_each-eq-ok_iff (check_failed o seen) _).1
          (λ n k. (check_failed-eq-ok n).1 (r.hidden n k));
    kept =
        (for_each-eq-ok_iff (check_acknowledged o seen) _).1
          (λ n k. (check_acknowledged-eq-ok n).1 (r.kept n k, r.once n (ground arith)));
    once =
        (for_each-eq-ok_iff (check_ambiguous o seen) _).1
          (λ n k. (check_ambiguous-eq-ok n).1 (r.once n (ground arith)));
  })

  -- The reconciler accepts a client's outcome exactly when its sequences are accounted for.
  pub check_client-eq-ok_iff : (check_client o seen ≡ ok tt) ↔ IsReconciled o seen
  check_client-eq-ok_iff = (check_client-IsReconciled, IsReconciled-check_client)

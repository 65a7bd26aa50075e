-- ===== src/Pressure/Reconcile/Kept.antt =====
-- The entries of one client of the reconciler, and what its totals add up to.
use fitz_destroyer.Common.{
  ℕ, ◌+◌, ◌≤◌, ◌≡◌, true, ◌||◌, List, [], ◌∷◌, ◌++◌, length, length-append, contains,
  contains-append, length-le_of_In, IsUnique-append, arith,
}
use fitz_destroyer.Pressure.Reconcile.{
  QueueClientOutcome, Totals, ByWorker, observed_of, add_client,
}
use fitz_destroyer.Pressure.Reconcile.Accepted.{IsReconciled}

module _ (o : QueueClientOutcome) (seen : List ℕ) (r : IsReconciled o seen) where
  -- Each acknowledged entry shows.
  pub acknowledged_shown :
      (n : ℕ)
      → contains n o.acknowledged ≡ true
      → contains n (o.completed ++ (o.ambiguous_completions ++ seen)) ≡ true
  acknowledged_shown n k = ground (
    arith,
    r.kept n k,
    contains-append n o.completed (o.ambiguous_completions ++ seen),
    contains-append n o.ambiguous_completions seen,
  )

  -- No acknowledged entry is lost.
  pub length-acknowledged-le :
      length o.acknowledged ≤ length o.completed + length o.ambiguous_completions + length seen
  length-acknowledged-le = omega (
    arith,
    length-le_of_In o.acknowledged (o.completed ++ (o.ambiguous_completions ++ seen)) r.unique.0
        acknowledged_shown,
    length-append o.completed (o.ambiguous_completions ++ seen),
    length-append o.ambiguous_completions seen,
  )

  known_shown :
      (n : ℕ)
      → (contains n o.completed || contains n seen) ≡ true
      → (contains n o.acknowledged || contains n o.ambiguous_enqueues) ≡ true
  known_shown n k = r.known n (
      ground (
        arith,
        contains-append n o.completed (o.ambiguous_completions ++ seen),
        contains-append n o.ambiguous_completions seen,
      ))

  pub shown_known :
      (n : ℕ)
      → contains n (o.completed ++ seen) ≡ true
      → contains n (o.acknowledged ++ o.ambiguous_enqueues) ≡ true
  shown_known n k = ground (
    arith,
    contains-append n o.completed seen,
    contains-append n o.acknowledged o.ambiguous_enqueues,
    known_shown n,
  )

  -- No entry is made up, and none shows twice.
  pub length-shown-le :
      length o.completed + length seen ≤ length o.acknowledged + length o.ambiguous_enqueues
  length-shown-le = omega (
    arith,
    length-le_of_In (o.completed ++ seen) (o.acknowledged ++ o.ambiguous_enqueues)
        (IsUnique-append o.completed seen r.unique.3 r.unique.5
          (λ n k. ground (arith, r.once n (known_shown n (ground arith)))))
        shown_known,
    length-append o.completed seen,
    length-append o.acknowledged o.ambiguous_enqueues,
  )

-- The inequalities that the totals of an accepted run meet.
pub record Balances (t : Totals) : Type 0 where
  pub none_lost : t.acknowledged ≤ t.completed + t.ambiguous_completions + t.observed
  pub none_made_up : t.completed + t.observed ≤ t.acknowledged + t.ambiguous_enqueues

abbrev pub summed : (QueueClientOutcome → ℕ) → List QueueClientOutcome → ℕ
summed f [] = 0
summed f (o ∷ outcomes) = f o + summed f outcomes

module _ (by_worker : ByWorker) where
  abbrev pub seen_by : QueueClientOutcome → List ℕ
  seen_by o = observed_of by_worker o.worker

  -- The totals are those of a start and of the clients' lists.
  pub record AddsUp (start : Totals) (outcomes : List QueueClientOutcome) (t : Totals)
      : Type 0 where
    pub acknowledged :
        t.acknowledged ≡ start.acknowledged + summed (λ o. length o.acknowledged) outcomes
    pub ambiguous_enqueues :
        t.ambiguous_enqueues
        ≡ start.ambiguous_enqueues + summed (λ o. length o.ambiguous_enqueues) outcomes
    pub failed_enqueues :
        t.failed_enqueues ≡ start.failed_enqueues + summed (λ o. length o.failed_enqueues) outcomes
    pub completed : t.completed ≡ start.completed + summed (λ o. length o.completed) outcomes
    pub ambiguous_completions :
        t.ambiguous_completions
        ≡ start.ambiguous_completions + summed (λ o. length o.ambiguous_completions) outcomes
    pub observed : t.observed ≡ start.observed + summed (λ o. length (seen_by o)) outcomes

  pub AddsUp-none : (t : Totals) → AddsUp t [] t
  AddsUp-none t = omega arith

  pub AddsUp-cons :
      (t : Totals) (o : QueueClientOutcome) (outcomes : List QueueClientOutcome) (u : Totals)
      → AddsUp (add_client t o (seen_by o)) outcomes u
      → AddsUp t (o ∷ outcomes) u
  unfolding add_client
  AddsUp-cons t o outcomes u a = record {
    acknowledged = omega (arith, a.acknowledged);
    ambiguous_enqueues = omega (arith, a.ambiguous_enqueues);
    failed_enqueues = omega (arith, a.failed_enqueues);
    completed = omega (arith, a.completed);
    ambiguous_completions = omega (arith, a.ambiguous_completions);
    observed = omega (arith, a.observed);
  }

  -- A client's acknowledged sequences are each completed, perhaps completed or observed, and those
  -- completed or observed were each acknowledged or may have been enqueued.
  pub record IsKept (o : QueueClientOutcome) : Type 0 where
    pub not_lost :
        (n : ℕ)
        → contains n o.acknowledged ≡ true
        → contains n (o.completed ++ (o.ambiguous_completions ++ seen_by o)) ≡ true
    pub not_made_up :
        (n : ℕ)
        → contains n (o.completed ++ seen_by o) ≡ true
        → contains n (o.acknowledged ++ o.ambiguous_enqueues) ≡ true

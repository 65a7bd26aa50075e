-- ===== src/Pressure/Reconcile/Conservation.antt =====
-- The reconciler over all clients: when it accepts, and what the totals then say.
use fitz_destroyer.Common.{
  ℕ, ◌≡◌, refl, sym, ◌≢◌, Result-cases, ap, ◌∙◌, ◌↔◌, inl, inr, true, List, [], ◌∷◌, map, Result,
  ok, err, ◌>>=◌, for_each, contains, sort, IsSorted, All, contains-sort, sort-IsSorted, arith,
}
use fitz_destroyer.Pressure.Reconcile.{
  QueueClientOutcome, ReconciledClient, QueueReconciliation, ReconcileError, Totals, ByWorker,
  observed_of, check_client, no_totals, add_client, reconcile_clients, is_worker, check_worker,
  reconcile_queue_outcomes,
}
use fitz_destroyer.Pressure.Reconcile.Accepted.{IsReconciled, check_client-eq-ok_iff}
use fitz_destroyer.Pressure.Reconcile.Kept.{
  acknowledged_shown, shown_known, length-acknowledged-le, length-shown-le, Balances, seen_by,
  AddsUp, AddsUp-none, AddsUp-cons, IsKept,
}

module _ (by_worker : ByWorker) where
  abbrev pub Accounted : QueueClientOutcome → Type 0
  Accounted o = IsReconciled o (observed_of by_worker o.worker)

  add_client-Balances :
      (t : Totals) (o : QueueClientOutcome)
      → Accounted o
      → Balances t
      → Balances (add_client t o (observed_of by_worker o.worker))
  unfolding add_client
  add_client-Balances t o r b = omega (
    arith,
    length-acknowledged-le o (observed_of by_worker o.worker) r,
    length-shown-le o (observed_of by_worker o.worker) r,
  )

  -- What the loop has to show for the clients.
  pub record Reports (outcomes : List QueueClientOutcome) (clients : List ReconciledClient)
      : Type 0 where
    pub same : map (λ (c : ReconciledClient). c.outcome) clients ≡ outcomes
    pub sorted :
        All
          (λ (c : ReconciledClient).
            IsSorted c.observed
            × ((n : ℕ)
                → contains n c.observed ≡ contains n (observed_of by_worker c.outcome.worker)))
          clients

  abbrev Sound :
      Totals → List QueueClientOutcome → Result ReconcileError QueueReconciliation → Type 0
  Sound t outcomes (ok r) =
      All Accounted outcomes
      × Balances r.totals
      × Reports outcomes r.clients
      × AddsUp by_worker t outcomes r.totals
  Sound t outcomes (err e) = ¬ All Accounted outcomes

  Sound-cons :
      (t : Totals) (o : QueueClientOutcome) (outcomes : List QueueClientOutcome)
      (rest : Result ReconcileError QueueReconciliation)
      → Accounted o
      → Sound (add_client t o (seen_by by_worker o)) outcomes rest
      → Sound t (o ∷ outcomes) (
          rest >>= λ r. ok (record r {
            clients =
                record { outcome = o; observed = sort (observed_of by_worker o.worker) }
                ∷ r.clients;
          }))
  Sound-cons t o outcomes (err e) here later = λ h. later h.1
  Sound-cons t o outcomes (ok r) here (all, balanced, reports, sums) = (
    (here, all),
    balanced,
    record {
      same = ap (◌∷◌ o) reports.same;
      sorted = (
        (sort-IsSorted (observed_of by_worker o.worker), λ n. contains-sort n _),
        reports.sorted,
      );
    },
    AddsUp-cons by_worker t o outcomes r.totals sums,
  )

  err-ne-ok : {e : ReconcileError} → ◌≢◌ {A = Result ReconcileError (Unit {0})} (err e) (ok tt)
  err-ne-ok h = cc

  reconcile_clients-Sound :
      (t : Totals) (outcomes : List QueueClientOutcome)
      → Balances t
      → Sound t outcomes (reconcile_clients by_worker t outcomes)
  unfolding reconcile_clients
  reconcile_clients-Sound t [] b =
      (tt, b, record { same = refl; sorted = tt }, AddsUp-none by_worker t)
  reconcile_clients-Sound t (o ∷ outcomes) b =
      let seen = observed_of by_worker o.worker in
      let iff = check_client-eq-ok_iff o seen in
      elim (Result-cases (check_client o seen)) [
        | inr (e, refused) ↦ rw (refused, ◌>>=◌) (λ h. absurd (err-ne-ok (sym refused ∙ iff.1 h.0)))
        | inl (_, passed) ↦
            let here = iff.0 passed in
            let t' = add_client t o seen in
            rw (passed, ◌>>=◌)
              (Sound-cons t o outcomes (reconcile_clients by_worker t' outcomes) here
                (reconcile_clients-Sound t' outcomes (add_client-Balances t o here b)))
      ]

module _ (outcomes : List QueueClientOutcome) (by_worker : ByWorker) where
  abbrev pub AreKnown : ByWorker → Type 0
  AreKnown = All (λ entry. is_worker entry.0 outcomes ≡ true)

  check_workers-eq-ok_iff :
      (entries : ByWorker) → (for_each (check_worker outcomes) entries ≡ ok tt) ↔ AreKnown entries
  unfolding check_worker
  check_workers-eq-ok_iff [] = (λ h. tt, λ h. refl)
  check_workers-eq-ok_iff ((worker, values) ∷ entries) = (
    λ h. (ground arith, (check_workers-eq-ok_iff entries).0 (ground arith)),
    λ (here, later). rw here ((check_workers-eq-ok_iff entries).1 later),
  )

  no_totals-Balances : Balances no_totals
  no_totals-Balances = omega arith

  reconcile_queue_outcomes_parts :
      (r : QueueReconciliation)
      → reconcile_queue_outcomes outcomes by_worker ≡ ok r
      → (reconcile_clients by_worker no_totals outcomes ≡ ok r)
        × (for_each (check_worker outcomes) by_worker ≡ ok tt)
  unfolding reconcile_queue_outcomes
  reconcile_queue_outcomes_parts r e = (ground arith, ground arith)

  clients-Sound :
      Sound by_worker no_totals outcomes (reconcile_clients by_worker no_totals outcomes)
  clients-Sound = reconcile_clients-Sound by_worker no_totals outcomes no_totals-Balances

  reconcile_queue_outcomes_complete :
      All (Accounted by_worker) outcomes
      → AreKnown by_worker
      → (r : QueueReconciliation) × (reconcile_queue_outcomes outcomes by_worker ≡ ok r)
  unfolding reconcile_queue_outcomes
  reconcile_queue_outcomes_complete accounted known =
      let passed = (check_workers-eq-ok_iff by_worker).1 known in
      elim (Result-cases (reconcile_clients by_worker no_totals outcomes)) [
        | inl (r, e) ↦ (r, rw (e, passed))
        | inr (x, e) ↦
            let refused : Sound by_worker no_totals outcomes (err x) = rw e at clients-Sound in
            absurd (refused accounted)
      ]

  -- The reconciler accepts exactly when each client's sequences are accounted for and the drain
  -- names no other worker.
  pub reconcile_queue_outcomes-eq-ok_iff :
      ((r : QueueReconciliation) × (reconcile_queue_outcomes outcomes by_worker ≡ ok r))
      ↔ (All (Accounted by_worker) outcomes × AreKnown by_worker)
  reconcile_queue_outcomes-eq-ok_iff = (
    λ (r, e).
        let (clients, workers) = reconcile_queue_outcomes_parts r e in
        let sound : Sound by_worker no_totals outcomes (ok r) = rw clients at clients-Sound in
        (sound.0, (check_workers-eq-ok_iff by_worker).0 workers),
    λ (accounted, known). reconcile_queue_outcomes_complete accounted known,
  )

  Accounted-IsKept :
      (os : List QueueClientOutcome) → All (Accounted by_worker) os → All (IsKept by_worker) os
  Accounted-IsKept [] h = tt
  Accounted-IsKept (o ∷ os) (here, later) =
      let seen = seen_by by_worker o in
      (
        record { not_lost = acknowledged_shown o seen here; not_made_up = shown_known o seen here },
        Accounted-IsKept os later,
      )

  -- In an accepted run each client's acknowledged enqueues are each among its completed, perhaps
  -- completed and observed ones, and what it completed or what was observed had been acknowledged or
  -- may have been enqueued. The totals are the lengths of the clients' lists, added up, so they
  -- balance in the same way. The clients come in order, each with its observed sequences sorted.
  pub reconcile_queue_outcomes-Balances :
      (r : QueueReconciliation)
      → reconcile_queue_outcomes outcomes by_worker ≡ ok r
      → All (IsKept by_worker) outcomes
        × AddsUp by_worker no_totals outcomes r.totals
        × Balances r.totals
        × Reports by_worker outcomes r.clients
  reconcile_queue_outcomes-Balances r e =
      let (clients, workers) = reconcile_queue_outcomes_parts r e in
      let sound : Sound by_worker no_totals outcomes (ok r) = rw clients at clients-Sound in
      (Accounted-IsKept outcomes sound.0, sound.3, sound.1, sound.2)

-- ===== src/ScheduleDelivery/Subscribers.antt =====
-- src/orchestration/schedule-delivery.ts: what the scan says of all the subscribers' logs.
use Prim.Native.String.{String}
use mathlib.Core.Path.{subst}
use fitz_destroyer.Common.{
  ℕ, ◌+◌, ◌≤◌, ◌≡◌, refl, sym, ap, ◌∙◌, Bool, true, false, not, ◌&&◌, Option, List, [], ◌∷◌, ◌++◌,
  Result, ok, err, >>=-eq-ok, ok-inj, All, arith,
}
use fitz_destroyer.Logs.{Json, Fields, Log, LogError, numeric_field, required_event}
use fitz_destroyer.ScheduleDelivery.{
  Scan, workers_of, times, is_empty, from_log, note_records, note_complete, scan_logs,
}
use fitz_destroyer.ScheduleDelivery.Scanned.{
  is_notice, is_saturation, any, count, Gains, note_records-Gains, from_log-eq-ok,
}

abbrev pub added_up {ℓ} : {A : Type ℓ} → (A → ℕ) → List A → ℕ
added_up f [] = 0
added_up f (x ∷ xs) = f x + added_up f xs

abbrev pub AreServed : ℕ → List (String × ℕ) → Type 0
AreServed fires [] = Unit
AreServed fires ((worker, deliveries) ∷ rest) = (deliveries ≡ fires) × AreServed fires rest

AreServed-append :
    (fires : ℕ) (xs : List (String × ℕ)) (worker : String) (n : ℕ)
    → AreServed fires (xs ++ ((worker, n) ∷ []))
    → AreServed fires xs × (n ≡ fires)
AreServed-append fires [] worker n h = (tt, h.0)
AreServed-append fires (x ∷ xs) worker n (here, later) =
    let (before, last) = AreServed-append fires xs worker n later in ((here, before), last)

-- `complete.single` of a log's last record.
abbrev pub number_read : Result LogError ℕ → ℕ
number_read (ok n) = n
number_read (err e) = 0

abbrev single_in : Result LogError Fields → ℕ
single_in (ok complete) = number_read (numeric_field complete "single")
single_in (err e) = 0

abbrev pub reported_singles : String × Log → ℕ
reported_singles (worker, log) = single_in (required_event log "schedule_subscriber_complete")

-- In how many logs, and how often in all, there is a notification.
abbrev pub has_broadcast : ℕ → String × Log → Bool
has_broadcast k (worker, log) = any (is_notice "broadcast" k) log

abbrev pub single_notices : ℕ → String × Log → ℕ
single_notices k (worker, log) = count (is_notice "single" k) log

-- A scan that has found nothing amiss.
abbrev pub Settled : ℕ → Scan → Type 0
Settled fires s =
    AreServed fires s.subscriber_deliveries
    × (s.observed.cancelled_deliveries ≡ 0)
    × (s.observed.duplicates ≡ 0)
    × (s.observed.invalid ≡ 0)
    × (is_empty s.handler_saturations ≡ true)

module _ (to_string : Option Json → String) (fires : ℕ) where
  -- A subscriber that counted each broadcast, had no cancelled, duplicate or invalid delivery and whose
  -- client did not report a saturated handler.
  abbrev pub IsComplete : String × Log → Type 0
  IsComplete (worker, log) =
      (complete : Fields) × (required_event log "schedule_subscriber_complete" ≡ ok complete)
      × (numeric_field complete "broadcast" ≡ ok fires)
      × (numeric_field complete "cancelled" ≡ ok 0)
      × (numeric_field complete "duplicates" ≡ ok 0)
      × (numeric_field complete "invalid" ≡ ok 0)
      × (any (is_saturation to_string) log ≡ false)

  -- What the last record of a log adds.
  record Completes (worker : String) (complete : Fields) (s s' : Scan) : Type 0 where
    broadcast : ℕ
    single : ℕ
    cancelled : ℕ
    duplicates : ℕ
    invalid : ℕ
    broadcast_read : numeric_field complete "broadcast" ≡ ok broadcast
    single_read : numeric_field complete "single" ≡ ok single
    cancelled_read : numeric_field complete "cancelled" ≡ ok cancelled
    duplicates_read : numeric_field complete "duplicates" ≡ ok duplicates
    invalid_read : numeric_field complete "invalid" ≡ ok invalid
    deliveries : s'.subscriber_deliveries ≡ s.subscriber_deliveries ++ ((worker, broadcast) ∷ [])
    singles_sum : s'.observed.single_deliveries ≡ s.observed.single_deliveries + single
    cancelled_sum : s'.observed.cancelled_deliveries ≡ s.observed.cancelled_deliveries + cancelled
    duplicates_sum : s'.observed.duplicates ≡ s.observed.duplicates + duplicates
    invalid_sum : s'.observed.invalid ≡ s.observed.invalid + invalid
    saturations : s'.handler_saturations ≡ s.handler_saturations
    same_workers : s'.broadcast_workers ≡ s.broadcast_workers
    same_singles : s'.singles ≡ s.singles

  note_complete-Completes :
      (worker : String) (complete : Fields) (s s' : Scan)
      → note_complete to_string fires worker complete s ≡ ok s'
      → Completes worker complete s s'
  unfolding note_complete
  note_complete-Completes worker complete s s' h =
      let (broadcast, e1, h1) = >>=-eq-ok (from_log (numeric_field complete "broadcast")) _ h in
      let (single, e2, h2) = >>=-eq-ok (from_log (numeric_field complete "single")) _ h1 in
      let (cancelled, e3, h3) = >>=-eq-ok (from_log (numeric_field complete "cancelled")) _ h2 in
      let (duplicates, e4, h4) = >>=-eq-ok (from_log (numeric_field complete "duplicates")) _ h3 in
      let (invalid, e5, h5) = >>=-eq-ok (from_log (numeric_field complete "invalid")) _ h4 in
      let (late, e6, h6) = >>=-eq-ok (from_log (numeric_field complete "maxLatenessMs")) _ h5 in
      subst (Completes worker complete s) (ok-inj h6) (record {
        broadcast = broadcast;
        single = single;
        cancelled = cancelled;
        duplicates = duplicates;
        invalid = invalid;
        broadcast_read = from_log-eq-ok _ e1;
        single_read = from_log-eq-ok _ e2;
        cancelled_read = from_log-eq-ok _ e3;
        duplicates_read = from_log-eq-ok _ e4;
        invalid_read = from_log-eq-ok _ e5;
        deliveries = refl;
        singles_sum = refl;
        cancelled_sum = refl;
        duplicates_sum = refl;
        invalid_sum = refl;
        saturations = refl;
        same_workers = refl;
        same_singles = refl;
      })

  -- If nothing is amiss after a log, nothing was before it, and the subscriber is complete.
  log-Settled :
      (worker : String) (log : Log) (complete : Fields) (s t u : Scan)
      → required_event log "schedule_subscriber_complete" ≡ ok complete
      → Completes worker complete s t
      → Gains 0 worker
          (any (is_notice "broadcast" 0) log)
          (count (is_notice "single" 0) log)
          (any (is_saturation to_string) log)
          t
          u
      → Settled fires u
      → Settled fires s × IsComplete (worker, log)
  log-Settled worker log complete s t u e c g
        (served, no_cancelled, no_duplicate, no_invalid, quiet) =
      let served' : AreServed fires (s.subscriber_deliveries ++ ((worker, c.broadcast) ∷ [])) =
        subst (AreServed fires) (g.deliveries ∙ c.deliveries) served in
      let (before, all) =
        AreServed-append fires s.subscriber_deliveries worker c.broadcast served' in
      let cancelled = ap (λ o. o.cancelled_deliveries) g.observed ∙ c.cancelled_sum in
      let duplicates = ap (λ o. o.duplicates) g.observed ∙ c.duplicates_sum in
      let invalid = ap (λ o. o.invalid) g.observed ∙ c.invalid_sum in
      let silent : (is_empty s.handler_saturations && not (any (is_saturation to_string) log))
          ≡ true =
        ap (λ x. is_empty x && not (any (is_saturation to_string) log)) (sym c.saturations)
        ∙ sym g.quiet
        ∙ quiet in
      (
        (
          before,
          omega (arith, cancelled, no_cancelled),
          omega (arith, duplicates, no_duplicate),
          omega (arith, invalid, no_invalid),
          ground (arith, silent),
        ),
        (
          complete,
          e,
          c.broadcast_read ∙ ap ok all,
          c.cancelled_read ∙ ap ok (omega (arith, cancelled, no_cancelled)),
          c.duplicates_read ∙ ap ok (omega (arith, duplicates, no_duplicate)),
          c.invalid_read ∙ ap ok (omega (arith, invalid, no_invalid)),
          ground (arith, silent),
        ),
      )

  pub scan_logs-Settled :
      (logs : List (String × Log)) (s s' : Scan)
      → scan_logs to_string fires logs s ≡ ok s'
      → Settled fires s'
      → Settled fires s × All IsComplete logs
  unfolding scan_logs
  scan_logs-Settled [] s s' h settled = (subst (Settled fires) (sym (ok-inj h)) settled, tt)
  scan_logs-Settled ((worker, log) ∷ rest) s s' h settled =
      let (complete, e, h1) =
        >>=-eq-ok (from_log (required_event log "schedule_subscriber_complete")) _ h in
      let (t, e1, h2) = >>=-eq-ok (note_complete to_string fires worker complete s) _ h1 in
      let (u, e2, h3) = >>=-eq-ok (note_records to_string fires worker log t) _ h2 in
      let (settled', later) = scan_logs-Settled rest u s' h3 settled in
      let (before, here) =
        log-Settled worker log complete s t u (from_log-eq-ok _ e)
          (note_complete-Completes worker complete s t e1)
          (note_records-Gains to_string fires 0 worker log t u e2) settled' in
      (before, (here, later))

  -- A sequence has no more workers than logs that have its broadcast, and as many single deliveries as
  -- there are records of one.
  pub scan_logs-heard :
      (k : ℕ) (logs : List (String × Log)) (s s' : Scan)
      → scan_logs to_string fires logs s ≡ ok s'
      → (workers_of k s'.broadcast_workers
          ≤ workers_of k s.broadcast_workers + count (has_broadcast k) logs)
        × (times k s'.singles ≡ times k s.singles + added_up (single_notices k) logs)
        × (s'.observed.single_deliveries
            ≡ s.observed.single_deliveries + added_up reported_singles logs)
  unfolding scan_logs
  scan_logs-heard k [] s s' h =
      subst
        (λ t.
          (workers_of k t.broadcast_workers ≤ workers_of k s.broadcast_workers + 0)
          × (times k t.singles ≡ times k s.singles + 0)
          × (t.observed.single_deliveries ≡ s.observed.single_deliveries + 0))
        (ok-inj h) (omega arith)
  scan_logs-heard k ((worker, log) ∷ rest) s s' h =
      let (complete, e, h1) =
        >>=-eq-ok (from_log (required_event log "schedule_subscriber_complete")) _ h in
      let (t, e1, h2) = >>=-eq-ok (note_complete to_string fires worker complete s) _ h1 in
      let (u, e2, h3) = >>=-eq-ok (note_records to_string fires worker log t) _ h2 in
      let c = note_complete-Completes worker complete s t e1 in
      let g = note_records-Gains to_string fires k worker log t u e2 in
      let (few, counted, sums) = scan_logs-heard k rest u s' h3 in
      let workers = ap (workers_of k) c.same_workers in
      let singles = ap (times k) c.same_singles in
      let told : reported_singles (worker, log) ≡ c.single =
        ap single_in (from_log-eq-ok _ e) ∙ ap number_read c.single_read in
      let same = ap (λ o. o.single_deliveries) g.observed in
      (
        ground (arith, few, workers, g.workers, g.pairs),
        omega (arith, counted, singles, g.counted),
        omega (arith, sums, told, same, c.singles_sum),
      )

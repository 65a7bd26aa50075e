-- ===== src/ScheduleDelivery.antt =====
-- src/orchestration/schedule-delivery.ts: `summarizeScheduleDeliveryLogs`, with the analysis of the
-- subscribers' logs and the assertion on its evidence. A log comes with its worker; a map is the
-- list of its entries, and the map of the workers that saw a sequence the list of such pairs.
pub mod Scanned
pub mod Subscribers
pub mod Delivered
mod Examples
use Prim.Native.String.{String}
use text.Mathlib.Text.{◌==◌ as str_eq}
use fitz_destroyer.Common.{
  ℕ, zero, suc, ◌+◌, ◌*◌, max, Bool, true, false, not, ◌&&◌, ◌||◌, Option, none, some, List, [],
  ◌∷◌, ◌++◌, length, ltb, leb, ◌==◌, if◌then◌else◌, Result, ok, err, ◌>>=◌, ◌>>◌, guard,
}
use fitz_destroyer.Logs.{
  Json, Fields, Log, LogError, get_field, is_text, numeric_value, numeric_field, required_event,
}

pub data ScheduleError : Type 0 where
  in_log : LogError → ScheduleError
  replica_logs : (found expected : ℕ) → ScheduleError
  sequence_exceeds : ℕ → ScheduleError
  invalid_kind : Option Json → ScheduleError
  delivery_failed : ScheduleError

pub record ScheduleDeliverySummary : Type 0 where
  pub broadcast_deliveries : ℕ
  pub single_deliveries : ℕ
  pub cancelled_deliveries : ℕ
  pub duplicates : ℕ
  pub invalid : ℕ
  pub max_lateness_ms : ℕ

-- The variables of the loops over the logs.
pub record Scan : Type 0 where
  pub broadcast_workers : List (ℕ × String)
  pub singles : List ℕ
  pub subscriber_deliveries : List (String × ℕ)
  pub client_events : List String
  pub handler_saturations : List String
  pub observed : ScheduleDeliverySummary

pub record Violations : Type 0 where
  pub violation_count : ℕ
  pub sample : List ℕ

pub record ScheduleDeliveryEvidence : Type 0 where
  pub replicas : ℕ
  pub fires_per_mode : ℕ
  pub broadcast_expected : ℕ
  pub scan : Scan
  pub missing_broadcast : Violations
  pub missing_single : Violations
  pub duplicate_single : Violations

abbrev pub from_log {ℓ} : {A : Type ℓ} → Result LogError A → Result ScheduleError A
from_log (ok a) = ok a
from_log (err e) = err (in_log e)

abbrev pub begun : Scan
begun = record {
  broadcast_workers = [];
  singles = [];
  subscriber_deliveries = [];
  client_events = [];
  handler_saturations = [];
  observed = record {
    broadcast_deliveries = 0;
    single_deliveries = 0;
    cancelled_deliveries = 0;
    duplicates = 0;
    invalid = 0;
    max_lateness_ms = 0;
  };
}

abbrev pub is_pair : ℕ → String → List (ℕ × String) → Bool
is_pair n worker [] = false
is_pair n worker ((m, w) ∷ rest) = (m == n && str_eq w worker) || is_pair n worker rest

-- `broadcastWorkers.get(n)?.size`, 0 where there is none.
abbrev pub workers_of : ℕ → List (ℕ × String) → ℕ
workers_of n [] = 0
workers_of n ((m, w) ∷ rest) = if m == n then suc (workers_of n rest) else workers_of n rest

-- `singleCounts.get(n) ?? 0`
abbrev pub times : ℕ → List ℕ → ℕ
times n [] = 0
times n (m ∷ rest) = if m == n then suc (times n rest) else times n rest

-- `String(value)` is the platform's.
module _ (to_string : Option Json → String) (fires : ℕ) where
  note_client_event : String → String → Scan → Scan
  note_client_event worker event s = record s {
    client_events = event ∷ s.client_events;
    handler_saturations =
        if str_eq event "fitz.connection.handler_saturated"
        then worker ∷ s.handler_saturations
        else s.handler_saturations;
  }

  note_kind : String → Option Json → ℕ → Scan → Result ScheduleError Scan
  note_kind worker kind n s =
      if is_text kind "broadcast"
      then ok (record s {
        broadcast_workers =
            if is_pair n worker s.broadcast_workers
            then s.broadcast_workers
            else (n, worker) ∷ s.broadcast_workers;
      })
      else (if is_text kind "single"
          then ok (record s { singles = n ∷ s.singles })
          else (if is_text kind "cancelled" then ok s else err (invalid_kind kind)))

  note_notification : String → Fields → Scan → Result ScheduleError Scan
  unfolding note_kind
  note_notification worker r s = do
    n ← from_log (numeric_value (get_field r "sequence") "schedule notification sequence")
    guard (ltb n fires) (sequence_exceeds n)
    note_kind worker (get_field r "kind") n s

  note_record : String → Fields → Scan → Result ScheduleError Scan
  unfolding note_client_event note_notification
  note_record worker r s =
      if is_text (get_field r "event") "fitz_client_event"
      then ok (note_client_event worker (to_string (get_field r "clientEvent")) s)
      else (if is_text (get_field r "event") "schedule_notification_received"
          then note_notification worker r s
          else ok s)

  pub note_records : String → Log → Scan → Result ScheduleError Scan
  unfolding note_record
  note_records worker [] s = ok s
  note_records worker (r ∷ rest) s = note_record worker r s >>= λ s'. note_records worker rest s'

  -- The worker's own totals, in its last record.
  note_complete : String → Fields → Scan → Result ScheduleError Scan
  unfolding numeric_field
  note_complete worker complete s = do
    broadcast ← from_log (numeric_field complete "broadcast")
    single ← from_log (numeric_field complete "single")
    cancelled ← from_log (numeric_field complete "cancelled")
    duplicates ← from_log (numeric_field complete "duplicates")
    invalid ← from_log (numeric_field complete "invalid")
    lateness ← from_log (numeric_field complete "maxLatenessMs")
    ok (record s {
      observed = record {
        broadcast_deliveries = s.observed.broadcast_deliveries + broadcast;
        single_deliveries = s.observed.single_deliveries + single;
        cancelled_deliveries = s.observed.cancelled_deliveries + cancelled;
        duplicates = s.observed.duplicates + duplicates;
        invalid = s.observed.invalid + invalid;
        max_lateness_ms = max s.observed.max_lateness_ms lateness;
      };
      subscriber_deliveries = s.subscriber_deliveries ++ (worker, broadcast) ∷ [];
    })

  unfoldable pub scan_logs : List (String × Log) → Scan → Result ScheduleError Scan
  unfolding note_complete note_records required_event
  scan_logs [] s = ok s
  scan_logs ((worker, log) ∷ rest) s = do
    complete ← from_log (required_event log "schedule_subscriber_complete")
    s1 ← note_complete worker complete s
    s2 ← note_records worker log s1
    scan_logs rest s2

-- The sample keeps the first twenty.
abbrev pub violations_from : (ℕ → Bool) → (left n : ℕ) → Violations → Violations
violations_from predicate zero n v = v
violations_from predicate (suc left) n v = violations_from predicate left (suc n) (
    if predicate n then v else record {
      violation_count = v.violation_count + 1;
      sample = if ltb (length v.sample) 20 then v.sample ++ n ∷ [] else v.sample;
    })

abbrev pub sequence_violations : ℕ → (ℕ → Bool) → Violations
sequence_violations count predicate =
    violations_from predicate count 0 (record { violation_count = 0; sample = [] })

unfoldable pub analyze_schedule_delivery_logs :
    (Option Json → String)
    → List (String × Log)
    → (fires replicas : ℕ) → Result ScheduleError ScheduleDeliveryEvidence
unfolding scan_logs
analyze_schedule_delivery_logs to_string logs fires replicas = do
  guard (length logs == replicas) (replica_logs (length logs) replicas)
  s ← scan_logs to_string fires logs begun
  ok (record {
    replicas = replicas;
    fires_per_mode = fires;
    broadcast_expected = fires * replicas;
    scan = s;
    missing_broadcast =
        sequence_violations fires (λ n. workers_of n s.broadcast_workers == replicas);
    missing_single = sequence_violations fires (λ n. ltb 0 (times n s.singles));
    duplicate_single = sequence_violations fires (λ n. leb (times n s.singles) 1);
  })

abbrev pub is_empty {ℓ} : {A : Type ℓ} → List A → Bool
is_empty [] = true
is_empty (x ∷ xs) = false

-- No subscriber is short of deliveries.
abbrev pub are_served : ℕ → List (String × ℕ) → Bool
are_served fires [] = true
are_served fires ((worker, deliveries) ∷ rest) = deliveries == fires && are_served fires rest

unfoldable pub assert_schedule_delivery : ScheduleDeliveryEvidence → Result ScheduleError (Unit {0})
assert_schedule_delivery e =
    let o = e.scan.observed in
    guard
      (o.broadcast_deliveries == e.broadcast_expected
        && (o.single_deliveries == e.fires_per_mode
            && (o.cancelled_deliveries == 0
                && (o.duplicates == 0
                    && (o.invalid == 0
                        && (e.missing_broadcast.violation_count == 0
                            && (e.missing_single.violation_count == 0
                                && (e.duplicate_single.violation_count == 0
                                    && (is_empty e.scan.handler_saturations
                                        && are_served e.fires_per_mode
                                            e.scan.subscriber_deliveries)))))))))
      delivery_failed

unfoldable pub summarize_schedule_delivery_logs :
    (Option Json → String)
    → List (String × Log)
    → (fires replicas : ℕ) → Result ScheduleError ScheduleDeliverySummary
unfolding analyze_schedule_delivery_logs assert_schedule_delivery
summarize_schedule_delivery_logs to_string logs fires replicas = do
  e ← analyze_schedule_delivery_logs to_string logs fires replicas
  assert_schedule_delivery e
  ok e.scan.observed

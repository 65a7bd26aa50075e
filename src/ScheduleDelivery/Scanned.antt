-- ===== src/ScheduleDelivery/Scanned.antt =====
-- src/orchestration/schedule-delivery.ts: what the scan of the subscribers' logs keeps of them.
use Prim.Native.String.{String}
use mathlib.Core.Path.{subst}
use text.Mathlib.Text.{◌==◌ as str_eq}
use text.Mathlib.TextEquality.{eq_iff}
use fitz_destroyer.Common.{
  ℕ, ◌+◌, ◌≡◌, refl, sym, ap, ◌∙◌, Bool, true, false, not, ◌&&◌, ◌||◌, Bool-cases, inl, inr, Option,
  none, some, List, [], ◌∷◌, ltb, ◌==◌, if◌then◌else◌, Result, ok, err, >>=-eq-ok, ok-inj, guard,
  arith,
}
use fitz_destroyer.Logs.{
  Json, null, boolean, number, other_number, string, array, object, Fields, Log, LogError,
  get_field, is_text, is_number, numeric_value,
}
use fitz_destroyer.ScheduleDelivery.{
  Scan, is_pair, workers_of, times, is_empty, from_log, note_client_event, note_kind,
  note_notification, note_record, note_records, sequence_exceeds, invalid_kind,
}

-- A record of a notification of some kind, with some sequence.
abbrev pub is_notice : (kind : String) → ℕ → Fields → Bool
is_notice kind k r =
    is_text (get_field r "event") "schedule_notification_received"
    && (is_text (get_field r "kind") kind && is_number (get_field r "sequence") k)

abbrev pub is_saturation : (Option Json → String) → Fields → Bool
is_saturation to_string r =
    is_text (get_field r "event") "fitz_client_event"
    && str_eq (to_string (get_field r "clientEvent")) "fitz.connection.handler_saturated"

abbrev pub any {ℓ} : {A : Type ℓ} → (A → Bool) → List A → Bool
any p [] = false
any p (x ∷ xs) = p x || any p xs

abbrev pub as_number : Bool → ℕ
as_number true = 1
as_number false = 0

abbrev pub count {ℓ} : {A : Type ℓ} → (A → Bool) → List A → ℕ
count p [] = 0
count p (x ∷ xs) = as_number (p x) + count p xs

-- A text is not two different ones.
exclusive :
    (v : Option Json) (a b : String) → str_eq a b ≡ false → is_text v a ≡ true → is_text v b ≡ false
exclusive none a b e h = refl
exclusive (some (string t)) a b e h = subst (λ x. str_eq x b ≡ false) (sym ((eq_iff t a).0 h)) e
exclusive (some null) a b e h = refl
exclusive (some (boolean x)) a b e h = refl
exclusive (some (number x)) a b e h = refl
exclusive (some (other_number x)) a b e h = refl
exclusive (some (array x)) a b e h = refl
exclusive (some (object x)) a b e h = refl

numeric_value-number :
    (v : Option Json) (name : String) {n : ℕ} → numeric_value v name ≡ ok n → v ≡ some (number n)
unfolding numeric_value
numeric_value-number none name h = cc
numeric_value-number (some (number m)) name h = ground (arith, h)
numeric_value-number (some null) name h = cc
numeric_value-number (some (boolean x)) name h = cc
numeric_value-number (some (other_number x)) name h = cc
numeric_value-number (some (string x)) name h = cc
numeric_value-number (some (array x)) name h = cc
numeric_value-number (some (object x)) name h = cc

pub from_log-eq-ok {ℓ} : {A : Type ℓ} (x : Result LogError A) {a : A} → from_log x ≡ ok a → x ≡ ok a
from_log-eq-ok (ok b) h = ap ok (ok-inj h)
from_log-eq-ok (err e) h = cc

str_eq_refl : (w : String) → str_eq w w ≡ true
str_eq_refl w = (eq_iff w w).1 refl

-- What some records of a worker add to a scan, of the sequence `k`: whether they have a broadcast,
-- how many single deliveries, and whether a saturation.
pub record Gains (k : ℕ) (worker : String) (heard : Bool) (singles : ℕ) (saturated : Bool)
    (s s' : Scan) : Type 0 where
  pub pairs :
      is_pair k worker s'.broadcast_workers ≡ (is_pair k worker s.broadcast_workers || heard)
  pub workers :
      workers_of k s'.broadcast_workers + as_number (is_pair k worker s.broadcast_workers)
      ≡ workers_of k s.broadcast_workers + as_number (is_pair k worker s'.broadcast_workers)
  pub counted : times k s'.singles ≡ times k s.singles + singles
  pub quiet : is_empty s'.handler_saturations ≡ (is_empty s.handler_saturations && not saturated)
  pub observed : s'.observed ≡ s.observed
  pub deliveries : s'.subscriber_deliveries ≡ s.subscriber_deliveries

module _ (k : ℕ) (w : String) where
  Gains-refl : (s : Scan) → Gains k w false 0 false s s
  Gains-refl s = ground arith

  Gains-trans :
      {b b' : Bool} {n n' : ℕ} {q q' : Bool} (s t u : Scan)
      → Gains k w b n q s t
      → Gains k w b' n' q' t u
      → Gains k w (b || b') (n + n') (q || q') s u
  Gains-trans {b} {b'} {n} {n'} {q} {q'} s t u g h = record {
    pairs = ground (arith, g.pairs, h.pairs);
    workers = omega (arith, g.workers, h.workers);
    counted = omega (arith, g.counted, h.counted);
    quiet = ground (arith, g.quiet, h.quiet);
    observed = h.observed ∙ g.observed;
    deliveries = h.deliveries ∙ g.deliveries;
  }

  -- A pair that is there is not added again.
  with_pair :
      (n : ℕ) (ps : List (ℕ × String))
      → let ps' = if is_pair n w ps then ps else (n, w) ∷ ps in
        (is_pair k w ps' ≡ (is_pair k w ps || (n == k)))
        × (workers_of k ps' + as_number (is_pair k w ps)
            ≡ workers_of k ps + as_number (is_pair k w ps'))
  with_pair n ps = elim (Bool-cases (n == k)) [
    | inl e ↦ let same : n ≡ k = ground (arith, e) in rw same (ground (arith, str_eq_refl w))
    | inr e ↦ ground (arith, str_eq_refl w, e)
  ]

module _ (to_string : Option Json → String) (fires k : ℕ) (w : String) where
  note_kind-Gains :
      (kind : Option Json) (n : ℕ) (s s' : Scan)
      → note_kind to_string fires w kind n s ≡ ok s'
      → Gains k w
          (is_text kind "broadcast" && (n == k))
          (as_number (is_text kind "single" && (n == k)))
          false
          s
          s'
  unfolding note_kind
  note_kind-Gains kind n s s' =
      choose (is_text kind "broadcast") (is_text kind "single") (is_text kind "cancelled")
        (exclusive kind "broadcast" "single" refl)
    where
      choose :
          (b c d : Bool)
          → (b ≡ true → c ≡ false)
          → (if b
              then ok (record s {
                broadcast_workers =
                    if is_pair n w s.broadcast_workers
                    then s.broadcast_workers
                    else (n, w) ∷ s.broadcast_workers;
              })
              else (if c
                  then ok (record s { singles = n ∷ s.singles })
                  else (if d then ok s else err (invalid_kind kind))))
            ≡ ok s'
          → Gains k w (b && (n == k)) (as_number (c && (n == k))) false s s'
      choose true true d x h = absurd (not_both (x refl))
        where
          not_both : ◌≡◌ {A = Bool} true false → ⊥
          not_both e = cc
      choose true false d x h =
          let (pairs, workers) = with_pair k w n s.broadcast_workers in
          subst (λ t. Gains k w (n == k) 0 false s t) (ok-inj h)
            (record {
              pairs = pairs;
              workers = workers;
              counted = omega arith;
              quiet = ground arith;
              observed = refl;
              deliveries = refl;
            })
      choose false true d x h =
          subst (λ t. Gains k w false (as_number (n == k)) false s t) (ok-inj h) (ground arith)
      choose false false true x h =
          subst (λ t. Gains k w false 0 false s t) (ok-inj h) (Gains-refl k w s)
      choose false false false x h = cc

  note_notification-Gains :
      (r : Fields) (s s' : Scan)
      → note_notification to_string fires w r s ≡ ok s'
      → Gains k w
          (is_text (get_field r "kind") "broadcast" && is_number (get_field r "sequence") k)
          (as_number
            (is_text (get_field r "kind") "single" && is_number (get_field r "sequence") k))
          false
          s
          s'
  unfolding note_notification
  note_notification-Gains r s s' h =
      let (n, e, h1) = >>=-eq-ok (from_log (numeric_value (get_field r "sequence") _)) _ h in
      let (_, _, h2) = >>=-eq-ok (guard (ltb n fires) (sequence_exceeds n)) _ h1 in
      let read : get_field r "sequence" ≡ some (number n) =
        numeric_value-number _ _ (from_log-eq-ok _ e) in
      rw read (note_kind-Gains (get_field r "kind") n s s' h2)

  note_client_event-Gains :
      (event : String) (s : Scan)
      → Gains k w false 0
          (str_eq event "fitz.connection.handler_saturated")
          s
          (note_client_event to_string fires w event s)
  unfolding note_client_event
  note_client_event-Gains event s = ground arith

  note_record-Gains :
      (r : Fields) (s s' : Scan)
      → note_record to_string fires w r s ≡ ok s'
      → Gains k w
          (is_notice "broadcast" k r)
          (as_number (is_notice "single" k r))
          (is_saturation to_string r)
          s
          s'
  unfolding note_record
  note_record-Gains r s s' =
      let event = get_field r "event" in
      choose (is_text event "fitz_client_event") (is_text event "schedule_notification_received")
        (exclusive event "fitz_client_event" "schedule_notification_received" refl)
    where
      choose :
          (b c : Bool)
          → (b ≡ true → c ≡ false)
          → (if b
              then ok
                  (note_client_event to_string fires w (to_string (get_field r "clientEvent")) s)
              else (if c then note_notification to_string fires w r s else ok s))
            ≡ ok s'
          → Gains k w
              (c
                && (is_text (get_field r "kind") "broadcast"
                    && is_number (get_field r "sequence") k))
              (as_number (
                c
                && (is_text (get_field r "kind") "single" && is_number (get_field r "sequence") k)))
              (b
                && str_eq
                    (to_string (get_field r "clientEvent"))
                    "fitz.connection.handler_saturated")
              s
              s'
      choose true true x h = absurd (not_both (x refl))
        where
          not_both : ◌≡◌ {A = Bool} true false → ⊥
          not_both e = cc
      choose true false x h =
          subst
            (λ t.
              Gains k w false 0
                (str_eq (to_string (get_field r "clientEvent")) "fitz.connection.handler_saturated")
                s t)
            (ok-inj h) (note_client_event-Gains (to_string (get_field r "clientEvent")) s)
      choose false true x h = note_notification-Gains r s s' h
      choose false false x h =
          subst (λ t. Gains k w false 0 false s t) (ok-inj h) (Gains-refl k w s)

  pub note_records-Gains :
      (log : Log) (s s' : Scan)
      → note_records to_string fires w log s ≡ ok s'
      → Gains k w
          (any (is_notice "broadcast" k) log)
          (count (is_notice "single" k) log)
          (any (is_saturation to_string) log)
          s
          s'
  unfolding note_records
  note_records-Gains [] s s' h =
      subst (λ t. Gains k w false 0 false s t) (ok-inj h) (Gains-refl k w s)
  note_records-Gains (r ∷ rest) s s' h =
      let (t, e, h1) = >>=-eq-ok (note_record to_string fires w r s) _ h in
      Gains-trans k w s t s' (note_record-Gains r s t e) (note_records-Gains rest t s' h1)

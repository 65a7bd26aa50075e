-- ===== src/ScheduleDelivery/Examples.antt =====
-- A delivery of one fire to two subscribers, and the theorem at it.
use Prim.Native.String.{String}
use fitz_destroyer.Common.{ℕ, ◌≡◌, refl, List, [], ◌∷◌, ok, err}
use fitz_destroyer.Logs.{number, string, Fields, end, field, Log}
use fitz_destroyer.ScheduleDelivery.{
  ScheduleDeliverySummary, delivery_failed, summarize_schedule_delivery_logs,
}
use fitz_destroyer.ScheduleDelivery.Delivered.{
  IsDelivered, summarize_schedule_delivery_logs-IsDelivered,
}

abbrev notice : String → Fields
notice kind =
    field "event" (string "schedule_notification_received")
      (field "sequence" (number 0) (field "kind" (string kind) end))

abbrev complete : (single : ℕ) → Fields
complete single = field "event" (string "schedule_subscriber_complete") (
    field "broadcast" (number 1) (
      field "single" (number single) (
        field "cancelled" (number 0) (
          field "duplicates" (number 0)
            (field "invalid" (number 0) (field "maxLatenessMs" (number 12) end))))))

abbrev logs : List (String × Log)
logs =
    ("w1", notice "broadcast" ∷ notice "single" ∷ complete 1 ∷ [])
    ∷ ("w2", notice "broadcast" ∷ complete 0 ∷ [])
    ∷ []

abbrev summary : ScheduleDeliverySummary
summary = record {
  broadcast_deliveries = 2;
  single_deliveries = 1;
  cancelled_deliveries = 0;
  duplicates = 0;
  invalid = 0;
  max_lateness_ms = 12;
}

delivered : summarize_schedule_delivery_logs (λ _. "") logs 1 2 ≡ ok summary
unfolding summarize_schedule_delivery_logs
delivered = refl

-- Two fires were expected.
not_delivered : summarize_schedule_delivery_logs (λ _. "") logs 2 2 ≡ err delivery_failed
unfolding summarize_schedule_delivery_logs
not_delivered = refl

summarize_schedule_delivery_logs-IsDelivered_example : IsDelivered (λ _. "") 1 2 logs summary
summarize_schedule_delivery_logs-IsDelivered_example =
    summarize_schedule_delivery_logs-IsDelivered (λ _. "") logs 1 2 summary delivered

-- ===== src/Config/Scenarios.antt =====
-- src/config.ts and src/suite.ts: the names of the scenarios. A union of string literals is the list
-- of its strings.
use Prim.Native.String.{String}
use mathlib.Core.Path.{subst}
use text.Mathlib.Text.{◌==◌ as str_eq}
use text.Mathlib.TextEquality.{eq_iff}
use fitz_destroyer.Common.{
  ◌≡◌, refl, sym, ◌↔◌, Bool, true, false, not, ◌&&◌, ◌||◌, List, [], ◌∷◌, arith,
}

unfoldable pub is_one_of : String → List String → Bool
is_one_of value [] = false
is_one_of value (name ∷ names) = str_eq value name || is_one_of value names

-- The type `ScenarioName`.
abbrev pub scenario_names : List String
scenario_names =
    "clean-restart" ∷ "cache-loss" ∷ "chaos" ∷ "notice-fanout" ∷ "schedule-delivery"
    ∷ "session-boundaries" ∷ "half-open-session" ∷ "response-loss" ∷ "active-graceful-shutdown"
    ∷ "queue-redelivery" ∷ "queue-overload-recovery" ∷ "authorization-isolation"
    ∷ "stream-global-recovery" ∷ "queue-dead-letter-fencing" ∷ "cold-boot-provider-outage"
    ∷ "hostile-rpc-worker" ∷ "upgrade-recovery" ∷ "cross-transport-recovery" ∷ "outbound-blackhole"
    ∷ "broker-pause" ∷ "route-cardinality-churn" ∷ "cache-and-disk-exhaustion" ∷ "lease-contention"
    ∷ "hot-route-canary" ∷ "protocol-abuse" ∷ "rpc-pressure" ∷ "rpc-stream-hose"
    ∷ "connection-storm" ∷ "domain-pressure" ∷ "durability-crash-cuts" ∷ "soak" ∷ "storage-faults"
    ∷ "queue-lifecycle" ∷ "schedule-outage" ∷ "transaction-contention" ∷ "stream-replay"
    ∷ "live-churn" ∷ "lease-route-aliasing" ∷ "tcp-preauth-framing-slowloris"
    ∷ "connect-pipeline-family-rebind" ∷ "ephemeral-reply-loss-cleanup"
    ∷ "saturated-slow-recipient-isolation" ∷ "shutdown-reconnect-cleanup-storm"
    ∷ "control-lane-cleanup-under-saturation" ∷ "route-family-isolation-matrix"
    ∷ "rpc-response-state-conformance" ∷ "response-envelope-boundaries"
    ∷ "lease-waiter-disconnect-races" ∷ "wildcard-registration-quota-reclamation"
    ∷ "stream-selector-cursor-conformance" ∷ "schedule-due-storm-isolation"
    ∷ "same-shard-family-fairness" ∷ "actor-supervision-failpoint"
    ∷ "family-actor-partial-failure-isolation" ∷ "same-shard-family-failure-isolation"
    ∷ "family-actor-exhaustion-readiness" ∷ "family-actor-degradation-observability"
    ∷ "family-actor-inflight-concurrent-failure" ∷ "all" ∷ []

-- The comparisons of `isScenarioName`, in their order.
abbrev pub compared_names : List String
compared_names =
    "clean-restart" ∷ "cache-loss" ∷ "chaos" ∷ "notice-fanout" ∷ "schedule-delivery"
    ∷ "session-boundaries" ∷ "half-open-session" ∷ "response-loss" ∷ "active-graceful-shutdown"
    ∷ "queue-redelivery" ∷ "queue-overload-recovery" ∷ "authorization-isolation"
    ∷ "stream-global-recovery" ∷ "queue-dead-letter-fencing" ∷ "cold-boot-provider-outage"
    ∷ "hostile-rpc-worker" ∷ "upgrade-recovery" ∷ "cross-transport-recovery" ∷ "outbound-blackhole"
    ∷ "broker-pause" ∷ "route-cardinality-churn" ∷ "cache-and-disk-exhaustion" ∷ "lease-contention"
    ∷ "hot-route-canary" ∷ "protocol-abuse" ∷ "rpc-pressure" ∷ "rpc-stream-hose"
    ∷ "connection-storm" ∷ "domain-pressure" ∷ "durability-crash-cuts" ∷ "soak" ∷ "storage-faults"
    ∷ "queue-lifecycle" ∷ "schedule-outage" ∷ "transaction-contention" ∷ "stream-replay"
    ∷ "live-churn" ∷ "lease-route-aliasing" ∷ "tcp-preauth-framing-slowloris"
    ∷ "connect-pipeline-family-rebind" ∷ "ephemeral-reply-loss-cleanup"
    ∷ "saturated-slow-recipient-isolation" ∷ "shutdown-reconnect-cleanup-storm"
    ∷ "control-lane-cleanup-under-saturation" ∷ "route-family-isolation-matrix"
    ∷ "rpc-response-state-conformance" ∷ "response-envelope-boundaries"
    ∷ "lease-waiter-disconnect-races" ∷ "wildcard-registration-quota-reclamation"
    ∷ "stream-selector-cursor-conformance" ∷ "schedule-due-storm-isolation"
    ∷ "same-shard-family-fairness" ∷ "actor-supervision-failpoint"
    ∷ "family-actor-partial-failure-isolation" ∷ "same-shard-family-failure-isolation"
    ∷ "family-actor-exhaustion-readiness" ∷ "family-actor-degradation-observability"
    ∷ "family-actor-inflight-concurrent-failure" ∷ "all" ∷ []

unfoldable pub is_scenario_name : String → Bool
unfolding is_one_of
is_scenario_name value = is_one_of value compared_names

abbrev pub all_scenarios : List String
all_scenarios =
    "clean-restart" ∷ "cache-loss" ∷ "durability-crash-cuts" ∷ "queue-overload-recovery"
    ∷ "response-loss" ∷ "active-graceful-shutdown" ∷ "half-open-session" ∷ "authorization-isolation"
    ∷ "stream-global-recovery" ∷ "queue-dead-letter-fencing" ∷ "cold-boot-provider-outage"
    ∷ "hostile-rpc-worker" ∷ "upgrade-recovery" ∷ "cross-transport-recovery" ∷ "outbound-blackhole"
    ∷ "broker-pause" ∷ "route-cardinality-churn" ∷ "cache-and-disk-exhaustion" ∷ "queue-redelivery"
    ∷ "lease-contention" ∷ "hot-route-canary" ∷ "protocol-abuse" ∷ "notice-fanout"
    ∷ "schedule-delivery" ∷ "session-boundaries" ∷ "rpc-pressure" ∷ "rpc-stream-hose"
    ∷ "connection-storm" ∷ "domain-pressure" ∷ "chaos" ∷ "soak" ∷ "storage-faults"
    ∷ "queue-lifecycle" ∷ "schedule-outage" ∷ "transaction-contention" ∷ "stream-replay"
    ∷ "live-churn" ∷ "lease-route-aliasing" ∷ "tcp-preauth-framing-slowloris"
    ∷ "connect-pipeline-family-rebind" ∷ "ephemeral-reply-loss-cleanup"
    ∷ "saturated-slow-recipient-isolation" ∷ "shutdown-reconnect-cleanup-storm"
    ∷ "control-lane-cleanup-under-saturation" ∷ "route-family-isolation-matrix"
    ∷ "rpc-response-state-conformance" ∷ "response-envelope-boundaries"
    ∷ "lease-waiter-disconnect-races" ∷ "wildcard-registration-quota-reclamation"
    ∷ "stream-selector-cursor-conformance" ∷ "schedule-due-storm-isolation"
    ∷ "same-shard-family-fairness" ∷ "actor-supervision-failpoint"
    ∷ "family-actor-partial-failure-isolation" ∷ "same-shard-family-failure-isolation"
    ∷ "family-actor-exhaustion-readiness" ∷ "family-actor-degradation-observability"
    ∷ "family-actor-inflight-concurrent-failure" ∷ []

-- Each name of one list is in the other, and the lists are as long as they should be.
abbrev pub are_among : List String → List String → Bool
are_among [] names = true
are_among (x ∷ xs) names = is_one_of x names && are_among xs names

abbrev pub are_distinct : List String → Bool
are_distinct [] = true
are_distinct (x ∷ xs) = not (is_one_of x xs) && are_distinct xs

pub is_one_of_mono :
    (value : String) (xs names : List String)
    → are_among xs names ≡ true
    → is_one_of value xs ≡ true
    → is_one_of value names ≡ true
unfolding is_one_of
is_one_of_mono value [] names h k = cc
is_one_of_mono value (x ∷ xs) names h k =
    here (is_one_of_mono value xs names (ground (arith, h))) (str_eq value x) refl
  where
    here :
        (is_one_of value xs ≡ true → is_one_of value names ≡ true)
        → (b : Bool) → str_eq value x ≡ b
        → is_one_of value names ≡ true
    here later true e =
        subst (λ v. is_one_of v names ≡ true) (sym ((eq_iff value x).0 e)) (ground (arith, h))
    here later false e = later (rw e at k)

compared_among : are_among compared_names ("all" ∷ all_scenarios) ≡ true
unfolding is_one_of
compared_among = refl

all_among : are_among ("all" ∷ all_scenarios) compared_names ≡ true
unfolding is_one_of
all_among = refl

declared_among :
    (are_among compared_names scenario_names ≡ true)
    × (are_among scenario_names compared_names ≡ true)
unfolding is_one_of
declared_among = (refl, refl)

distinct_all : are_distinct ("all" ∷ all_scenarios) ≡ true
unfolding is_one_of
distinct_all = refl

-- The guard of the scenario's name accepts exactly the members of the type, and exactly `all` and
-- the scenarios that the suite runs, which are pairwise different and do not include `all`.
pub is_scenario_name_iff :
    (value : String)
    → ((is_scenario_name value ≡ true) ↔ (is_one_of value scenario_names ≡ true))
      × ((is_scenario_name value ≡ true) ↔ (is_one_of value ("all" ∷ all_scenarios) ≡ true))
      × (are_distinct ("all" ∷ all_scenarios) ≡ true)
unfolding is_scenario_name
is_scenario_name_iff value = (
  (
    is_one_of_mono value compared_names scenario_names declared_among.0,
    is_one_of_mono value scenario_names compared_names declared_among.1,
  ),
  (
    is_one_of_mono value compared_names ("all" ∷ all_scenarios) compared_among,
    is_one_of_mono value ("all" ∷ all_scenarios) compared_names all_among,
  ),
  distinct_all,
)

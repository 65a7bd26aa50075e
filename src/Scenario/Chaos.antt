-- ===== src/Scenario/Chaos.antt =====
-- src/scenario.ts: what `runChaos` waits for after each fault.
use Prim.Native.String.{String}
use fitz_destroyer.Common.{
  ℕ, ◌+◌, ◌-◌, ◌≤◌, ◌≡◌, refl, ap, ◌∙◌, ◌++◌, Bool, true, false, List, [], ◌∷◌, map, if◌then◌else◌,
  ◌||◌, arith,
}
use fitz_destroyer.Config.Parsing.{RunConfig}
use fitz_destroyer.Scenario.Calls.{
  World, Call, kill_fitz, kill_one_client_and_restore, kill_sqrzl_and_restore, sleep, event,
  wait_for_all_client_domains, restart_fitz, start_clients, replace_clients, stop_clients, History,
  Run, Attempt, went_on, thrown, ◌then◌, perform, chaos_complete,
}
use fitz_destroyer.Scenario.Workload.{
  record_chaos_recovery, wait_for_fresh_progress, settle, kill_broker, kill_client, kill_provider,
  run_chaos,
}

-- The clock does not go back, and a sleep lasts.
abbrev pub IsPaced : World → Type 0
IsPaced world =
    ((h : History) (c : Call) (b : Bool) → world.clock h ≤ world.clock ((c, b) ∷ h))
    × ((h : History) (ms : ℕ) → world.clock h + ms ≤ world.clock ((sleep ms, true) ∷ h))

abbrev pub is_fault : Call → Bool
is_fault kill_fitz = true
is_fault (kill_one_client_and_restore n) = true
is_fault kill_sqrzl_and_restore = true
is_fault c = false

-- The time is more than a progress window after the last fault.
abbrev pub IsAfterFault : World → ℕ → History → Type 0
IsAfterFault world since [] = Unit
IsAfterFault world since ((c, b) ∷ earlier) =
    if is_fault c
    then (world.clock ((c, b) ∷ earlier) + 1_100 ≤ since)
    else IsAfterFault world since earlier

-- Each wait for the clients' progress asks for progress since such a time.
abbrev pub WaitsFresh : World → History → Type 0
WaitsFresh world [] = Unit
WaitsFresh world ((wait_for_all_client_domains since n, b) ∷ earlier) =
    IsAfterFault world since earlier × WaitsFresh world earlier
WaitsFresh world (_ ∷ earlier) = WaitsFresh world earlier

abbrev pub has_fault : History → Bool
has_fault [] = false
has_fault ((c, b) ∷ earlier) = is_fault c || has_fault earlier

abbrev pub Recovered : World → Attempt → Type 0
Recovered world (went_on r) =
    (map (λ recovery. recovery.0) r.recoveries
      ≡ ("fitz-sigkill" ∷ "client-sigkill" ∷ "sqrzl-sigkill" ∷ []))
    × WaitsFresh world r.calls
Recovered world (thrown e r) = WaitsFresh world r.calls

-- Between the faults.
AtNames : World → List String → Attempt → Type 0
AtNames world names (went_on r) =
    (map (λ recovery. recovery.0) r.recoveries ≡ names) × WaitsFresh world r.calls
AtNames world names (thrown e r) = WaitsFresh world r.calls

abbrev is_wait : Call → Bool
is_wait (wait_for_all_client_domains since n) = true
is_wait c = false

map-++ :
    (rs : List (String × ℕ)) (r : String × ℕ)
    → map (λ recovery. recovery.0) (rs ++ (r ∷ [])) ≡ map (λ recovery. recovery.0) rs ++ (r.0 ∷ [])
map-++ [] r = refl
map-++ (x ∷ rs) r = ap (λ ns. x.0 ∷ ns) (map-++ rs r)

module _ (world : World) where
  then-AtNames :
      (names names' : List String) (m : Attempt) (f : Run → Attempt)
      → AtNames world names m
      → ((r : Run)
          → map (λ recovery. recovery.0) r.recoveries ≡ names
          → WaitsFresh world r.calls
          → AtNames world names' (f r))
      → AtNames world names' (m then f)
  unfolding AtNames
  then-AtNames names names' (went_on r) f h k = k r h.0 h.1
  then-AtNames names names' (thrown e r) f h k = h

  perform-AtNames :
      (names : List String) (c : Call)
      → is_wait c ≡ false
      → (r : Run) → map (λ recovery. recovery.0) r.recoveries ≡ names
      → WaitsFresh world r.calls
      → AtNames world names (perform world c r)
  unfolding AtNames perform
  perform-AtNames names c p r e h = ground arith

  then_call-AtNames :
      (names : List String) (m : Attempt) (c : Call)
      → is_wait c ≡ false
      → AtNames world names m
      → AtNames world names (m then perform world c)
  then_call-AtNames names m c p h =
      then-AtNames names names m (perform world c) h (perform-AtNames names c p)

  IsAfterFault-of_none : (t : ℕ) (h : History) → has_fault h ≡ false → IsAfterFault world t h
  IsAfterFault-of_none t [] p = tt
  IsAfterFault-of_none t ((c, b) ∷ earlier) p = ground (arith, IsAfterFault-of_none t earlier)

  record_chaos_recovery-AtNames :
      (names : List String) (fault : String) (t : ℕ) (r : Run)
      → map (λ recovery. recovery.0) r.recoveries ≡ names
      → WaitsFresh world r.calls
      → AtNames world (names ++ (fault ∷ [])) (record_chaos_recovery world fault t r)
  unfolding AtNames record_chaos_recovery perform
  record_chaos_recovery-AtNames names fault t r e h =
      ground (arith, map-++ r.recoveries (fault, world.clock r.calls - t))

  settle-AtNames :
      (config : RunConfig) (r : Run)
      → has_fault r.calls ≡ false
      → WaitsFresh world r.calls
      → AtNames world [] (settle world config (record r { recoveries = [] }))
  unfolding AtNames settle perform
  settle-AtNames config r p h = ground (arith, IsAfterFault-of_none (world.clock r.calls) r.calls p)

module _ (world : World) (paced : IsPaced world) where
  IsAfterFault-now : (t : ℕ) (h : History) → world.clock h + 1_100 ≤ t → IsAfterFault world t h
  IsAfterFault-now t [] p = tt
  IsAfterFault-now t ((c, b) ∷ earlier) p =
      ground (arith, paced.0 earlier c b, IsAfterFault-now t earlier)

  wait_for_fresh_progress-AtNames :
      (names : List String) (n : ℕ) (r : Run)
      → map (λ recovery. recovery.0) r.recoveries ≡ names
      → WaitsFresh world r.calls
      → AtNames world names (wait_for_fresh_progress world n r)
  unfolding AtNames wait_for_fresh_progress perform
  wait_for_fresh_progress-AtNames names n r e h = ground (
    arith,
    IsAfterFault-now (world.clock ((sleep 1_100, true) ∷ r.calls)) r.calls (paced.1 r.calls 1_100),
  )

  -- What follows each fault, from the wait on.
  recover-AtNames :
      (names : List String) (n : ℕ) (fault : String) (t : ℕ) (m : Attempt)
      → AtNames world names m
      → AtNames world
          (names ++ (fault ∷ []))
          (m then wait_for_fresh_progress world n then record_chaos_recovery world fault t)
  recover-AtNames names n fault t m h =
      then-AtNames world names _ _ _
        (then-AtNames world names names m _ h (wait_for_fresh_progress-AtNames names n))
        (record_chaos_recovery-AtNames world names fault t)

  kill_broker-AtNames :
      (config : RunConfig) (r : Run)
      → map (λ recovery. recovery.0) r.recoveries ≡ []
      → WaitsFresh world r.calls
      → AtNames world ("fitz-sigkill" ∷ []) (kill_broker world config r)
  unfolding kill_broker
  kill_broker-AtNames config r e h = then_call-AtNames world _ _ (sleep config.phase_ms) refl (
      recover-AtNames _ config.client_replicas "fitz-sigkill" _ _ (
        then_call-AtNames world _ _ (start_clients config.client_replicas) refl (
          then_call-AtNames world _ _ restart_fitz refl
            (perform-AtNames world _ kill_fitz refl r e h))))

  kill_client-AtNames :
      (config : RunConfig) (r : Run)
      → map (λ recovery. recovery.0) r.recoveries ≡ "fitz-sigkill" ∷ []
      → WaitsFresh world r.calls
      → AtNames world ("fitz-sigkill" ∷ "client-sigkill" ∷ []) (kill_client world config r)
  unfolding kill_client
  kill_client-AtNames config r e h = then_call-AtNames world _ _ (sleep config.phase_ms) refl (
      recover-AtNames _ config.client_replicas "client-sigkill" _ _
        (perform-AtNames world _ (kill_one_client_and_restore config.client_replicas) refl r e h))

  kill_provider-AtNames :
      (config : RunConfig) (r : Run)
      → map (λ recovery. recovery.0) r.recoveries ≡ "fitz-sigkill" ∷ "client-sigkill" ∷ []
      → WaitsFresh world r.calls
      → AtNames world
          ("fitz-sigkill" ∷ "client-sigkill" ∷ "sqrzl-sigkill" ∷ [])
          (kill_provider world config r)
  unfolding kill_provider
  kill_provider-AtNames config r e h =
      recover-AtNames _ config.client_replicas "sqrzl-sigkill" _ _ (
        then_call-AtNames world _ _ (replace_clients config.client_replicas) refl
          (perform-AtNames world _ kill_sqrzl_and_restore refl r e h))

recovered :
    (world : World) (names : List String) (m : Attempt)
    → names ≡ "fitz-sigkill" ∷ "client-sigkill" ∷ "sqrzl-sigkill" ∷ []
    → AtNames world names m
    → Recovered world m
unfolding AtNames
recovered world names (went_on r) e h = (h.0 ∙ e, h.1)
recovered world names (thrown t r) e h = h

-- When no fault came before, the clock does not go back and a sleep that works lasts: each wait for
-- the clients' progress asks for progress since a time that is at least 1.1 seconds after the last
-- fault, whichever calls fail; and when `runChaos` returns, it has recorded a recovery from the
-- broker's, a client's and the provider's kill, in this order.
pub run_chaos-Recovered :
    (world : World) (config : RunConfig) (r : Run)
    → IsPaced world
    → has_fault r.calls ≡ false
    → WaitsFresh world r.calls
    → Recovered world (run_chaos world config r)
unfolding run_chaos
run_chaos-Recovered world config r paced p h = recovered world three _ refl (
    then-AtNames world three three _ _
      (then_call-AtNames world _ _ stop_clients refl (
        then-AtNames world _ three _ _
          (then-AtNames world _ _ _ _
            (then-AtNames world [] _ _ _ (settle-AtNames world config r p h)
              (kill_broker-AtNames world paced config))
            (kill_client-AtNames world paced config))
          (kill_provider-AtNames world paced config)))
      λ r' e h'. perform-AtNames world _ (event (chaos_complete r'.recoveries)) refl r' e h')
  where
    three : List String
    three = "fitz-sigkill" ∷ "client-sigkill" ∷ "sqrzl-sigkill" ∷ []

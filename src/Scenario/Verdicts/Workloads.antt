-- ===== src/Scenario/Verdicts/Workloads.antt =====
-- src/scenario.ts: the workloads leave the variables of `runScenario` alone.
use Prim.Native.String.{String}
use fitz_destroyer.Common.{ℕ, ◌≡◌, refl, Bool, true, if◌then◌else◌}
use fitz_destroyer.Config.Parsing.{RunConfig}
use fitz_destroyer.Scenario.Calls.{
  World, Call, Run, Attempt, ◌then◌, load, verify, chaos_fault_recovery_complete, chaos_complete,
  event, run_recovery_job, graceful_restart_fitz, discard_fitz_cache_and_restart, run_notice_fanout,
  run_rpc_pressure, run_connection_storm, run_pressure_scenario, run_of_module, start_clients,
  replace_clients, kill_one_client_and_restore, wait_for_all_client_domains, kill_fitz,
  restart_fitz, kill_sqrzl_and_restore, stop_clients, sleep, perform,
}
use fitz_destroyer.Scenario.Workload.{
  Routine, clean_restart, cache_loss, notice_fanout, rpc_pressure, connection_storm, pressure,
  chaos, of_module, record_chaos_recovery, wait_for_fresh_progress, settle, kill_broker,
  kill_client, kill_provider, run_chaos, run_routine,
}
use fitz_destroyer.Scenario.Verdicts.{Fresh, is_plain, Goes}
use fitz_destroyer.Scenario.Verdicts.Steps.{then-Goes, perform-Goes}

module _ (world : World) (handled : Bool) where
  abbrev call : Call → Run → Attempt
  call = perform world

  then_call-Goes :
      (m : Attempt) (c : Call) → is_plain c ≡ true → Goes handled m → Goes handled (m then call c)
  then_call-Goes m c p h = then-Goes handled m (call c) h (perform-Goes world handled c p)

  wait_for_fresh_progress-Goes :
      (n : ℕ) (r : Run) → Fresh r → Goes handled (wait_for_fresh_progress world n r)
  unfolding wait_for_fresh_progress
  wait_for_fresh_progress-Goes n r h =
      then-Goes handled (call (sleep 1_100) r) _ (perform-Goes world handled (sleep 1_100) refl r h)
        λ r' h'.
          perform-Goes world handled (wait_for_all_client_domains (world.clock r'.calls) n) refl r'
            h'

  record_chaos_recovery-Goes :
      (fault : String) (t : ℕ) (r : Run)
      → Fresh r
      → Goes handled (record_chaos_recovery world fault t r)
  unfolding record_chaos_recovery
  record_chaos_recovery-Goes fault t r h =
      then-Goes handled _ _
        (perform-Goes world handled (event (chaos_fault_recovery_complete fault _)) refl r h)
        λ r' h'. h'

  settle-Goes : (config : RunConfig) (r : Run) → Fresh r → Goes handled (settle world config r)
  unfolding settle
  settle-Goes config r h = then_call-Goes _ (sleep config.phase_ms) refl (
      then_call-Goes _ (wait_for_all_client_domains _ _) refl
        (perform-Goes world handled (start_clients _) refl r h))

  kill_broker-Goes :
      (config : RunConfig) (r : Run) → Fresh r → Goes handled (kill_broker world config r)
  unfolding kill_broker
  kill_broker-Goes config r h = then_call-Goes _ (sleep config.phase_ms) refl (
      then-Goes handled _ _
        (then-Goes handled _ _
          (then_call-Goes _ (start_clients config.client_replicas) refl
            (then_call-Goes _ restart_fitz refl (perform-Goes world handled kill_fitz refl r h)))
          (wait_for_fresh_progress-Goes config.client_replicas))
        (record_chaos_recovery-Goes "fitz-sigkill" (world.clock r.calls)))

  kill_client-Goes :
      (config : RunConfig) (r : Run) → Fresh r → Goes handled (kill_client world config r)
  unfolding kill_client
  kill_client-Goes config r h = then_call-Goes _ (sleep config.phase_ms) refl (
      then-Goes handled _ _
        (then-Goes handled _ _
          (perform-Goes world handled (kill_one_client_and_restore config.client_replicas) refl r h)
          (wait_for_fresh_progress-Goes config.client_replicas))
        (record_chaos_recovery-Goes "client-sigkill" (world.clock r.calls)))

  kill_provider-Goes :
      (config : RunConfig) (r : Run) → Fresh r → Goes handled (kill_provider world config r)
  unfolding kill_provider
  kill_provider-Goes config r h =
      then-Goes handled _ _
        (then-Goes handled _ _
          (then_call-Goes _ (replace_clients config.client_replicas) refl
            (perform-Goes world handled kill_sqrzl_and_restore refl r h))
          (wait_for_fresh_progress-Goes config.client_replicas))
        (record_chaos_recovery-Goes "sqrzl-sigkill" (world.clock r.calls))

  run_chaos-Goes :
      (config : RunConfig) (r : Run) → Fresh r → Goes handled (run_chaos world config r)
  unfolding run_chaos
  run_chaos-Goes config r h =
      then-Goes handled _ _
        (then_call-Goes _ stop_clients refl (
          then-Goes handled _ _
            (then-Goes handled _ _
              (then-Goes handled _ _ (settle-Goes config _ h) (kill_broker-Goes config))
              (kill_client-Goes config))
            (kill_provider-Goes config)))
        λ r' h'. perform-Goes world handled (event (chaos_complete r'.recoveries)) refl r' h'

  pub run_routine-Goes :
      (config : RunConfig) (scenario : String) (routine : Routine) (r : Run)
      → Fresh r
      → Goes handled (run_routine world config scenario routine r)
  unfolding run_routine
  run_routine-Goes config scenario clean_restart r h =
      then_call-Goes _ (run_recovery_job verify) refl (
        then_call-Goes _ graceful_restart_fitz refl (
          then_call-Goes _ (run_recovery_job verify) refl (
            then_call-Goes _ graceful_restart_fitz refl
              (perform-Goes world handled (run_recovery_job load) refl r h))))
  run_routine-Goes config scenario cache_loss r h =
      then_call-Goes _ (run_recovery_job verify) refl (
        then_call-Goes _ graceful_restart_fitz refl (
          then_call-Goes _ (run_recovery_job verify) refl (
            then_call-Goes _ discard_fitz_cache_and_restart refl
              (perform-Goes world handled (run_recovery_job load) refl r h))))
  run_routine-Goes config scenario notice_fanout r h =
      perform-Goes world handled run_notice_fanout refl r h
  run_routine-Goes config scenario rpc_pressure r h =
      perform-Goes world handled run_rpc_pressure refl r h
  run_routine-Goes config scenario connection_storm r h =
      perform-Goes world handled run_connection_storm refl r h
  run_routine-Goes config scenario pressure r h =
      perform-Goes world handled (run_pressure_scenario scenario) refl r h
  run_routine-Goes config scenario chaos r h = run_chaos-Goes config r h
  run_routine-Goes config scenario (of_module function) r h =
      perform-Goes world handled (run_of_module function) refl r h

-- ===== src/Durability/CrashCuts/Release.antt =====
-- src/orchestration/durability-crash-cuts.ts: the storage provider is let go at the end of
-- `runCrashCutIteration`.
use fitz_destroyer.Common.{
  ℕ, ◌≡◌, not, ◌&&◌, ◌||◌, ◌⊎◌, Bool, true, false, List, [], ◌∷◌, length, arith,
}
use fitz_destroyer.Durability.CrashCuts.{
  CrashCutIdentity, request_dispatch, blocked_provider_access, provider_recovery, broker_kill,
  acknowledgement, restart_with_storage_inflight, Call, pause_sqrzl, unpause_sqrzl, kill_fitz,
  restart_fitz, Attempt, went_on, thrown, perform, pause_first, approach, resume, try_cut,
  run_crash_cut_iteration, at_last, finally,
}

abbrev pub calls_of : Attempt → List (Call × Bool)
calls_of (went_on p) = p.calls
calls_of (thrown p) = p.calls

-- The broker was killed, and restarted later.
abbrev pub is_restarted : List (Call × Bool) → Bool
is_restarted [] = false
is_restarted ((restart_fitz, worked) ∷ earlier) = worked
is_restarted ((kill_fitz, worked) ∷ earlier) = false
is_restarted (_ ∷ earlier) = is_restarted earlier

-- A call may throw after its command had its effect, since `pauseSqrzl` and `unpauseSqrzl` write an
-- event after it, and `unpauseSqrzl` returns when its command failed. `works` says whether the n-th
-- call returns, and `took` whether its command had its effect; a pause that returns had it.
module _ (took : ℕ → Bool) where
  -- The provider is stopped.
  abbrev pub is_stopped : List (Call × Bool) → Bool
  is_stopped [] = false
  is_stopped ((pause_sqrzl, worked) ∷ earlier) =
      worked || took (length earlier) || is_stopped earlier
  is_stopped ((unpause_sqrzl, worked) ∷ earlier) = not (took (length earlier)) && is_stopped earlier
  is_stopped (_ ∷ earlier) = is_stopped earlier

  -- Of the calls on the provider the last was to let it go, and had no effect.
  abbrev pub in_vain : List (Call × Bool) → Bool
  in_vain [] = false
  in_vain ((pause_sqrzl, worked) ∷ earlier) = false
  in_vain ((unpause_sqrzl, worked) ∷ earlier) = not (took (length earlier))
  in_vain (_ ∷ earlier) = in_vain earlier

  abbrev pub LetGo : List (Call × Bool) → Type 0
  LetGo calls =
      (is_stopped calls ≡ false) ⊎ (in_vain calls ≡ true) ⊎ (calls ≡ (pause_sqrzl, false) ∷ [])

  -- The broker was killed while the provider was stopped.
  abbrev pub killed_stopped : List (Call × Bool) → Bool
  killed_stopped [] = false
  killed_stopped ((kill_fitz, worked) ∷ earlier) = worked && is_stopped earlier
  killed_stopped (_ ∷ earlier) = killed_stopped earlier

  abbrev pub holds_at_kill : CrashCutIdentity → List (Call × Bool) → Bool
  holds_at_kill blocked_provider_access calls = true
  holds_at_kill restart_with_storage_inflight calls = true
  holds_at_kill provider_recovery calls = in_vain calls
  holds_at_kill cut calls = false

  abbrev pub AsCut : CrashCutIdentity → Attempt → Type 0
  AsCut cut (went_on p) =
      (killed_stopped p.calls ≡ holds_at_kill cut p.calls)
      × (is_restarted p.calls ≡ true)
      × (is_stopped p.calls ≡ in_vain p.calls)
  AsCut cut (thrown p) = Unit

module _ (works took : ℕ → Bool) where
  -- Whichever calls to the stack fail, whichever commands have their effect, and whether the iteration
  -- returns or throws: at its end the storage provider is not stopped, unless the last call on it was
  -- to let it go and had no effect, or the first call, which pauses it, threw, and was the last.
  pub run_crash_cut_iteration-LetGo :
      (cut : CrashCutIdentity) → LetGo took (calls_of (run_crash_cut_iteration works cut))
  unfolding run_crash_cut_iteration finally at_last try_cut pause_first approach resume perform
  run_crash_cut_iteration-LetGo request_dispatch = ground arith
  run_crash_cut_iteration-LetGo blocked_provider_access = ground arith
  run_crash_cut_iteration-LetGo provider_recovery = ground arith
  run_crash_cut_iteration-LetGo broker_kill = ground arith
  run_crash_cut_iteration-LetGo acknowledgement = ground arith
  run_crash_cut_iteration-LetGo restart_with_storage_inflight = ground arith

  -- When an iteration returns, the storage provider was stopped at the moment of the broker's kill for
  -- the cuts `blocked-provider-access` and `restart-with-storage-inflight`, for `provider-recovery`
  -- exactly when the call to let it go had no effect, and for no other cut; and at the end the broker
  -- has been restarted, and the provider is stopped exactly when the call to let it go had no effect.
  pub run_crash_cut_iteration-AsCut :
      (cut : CrashCutIdentity) → AsCut took cut (run_crash_cut_iteration works cut)
  unfolding run_crash_cut_iteration finally at_last try_cut pause_first approach resume perform
  run_crash_cut_iteration-AsCut request_dispatch = ground arith
  run_crash_cut_iteration-AsCut blocked_provider_access = ground arith
  run_crash_cut_iteration-AsCut provider_recovery = ground arith
  run_crash_cut_iteration-AsCut broker_kill = ground arith
  run_crash_cut_iteration-AsCut acknowledgement = ground arith
  run_crash_cut_iteration-AsCut restart_with_storage_inflight = ground arith

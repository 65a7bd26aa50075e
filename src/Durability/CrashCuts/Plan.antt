-- ===== src/Durability/CrashCuts/Plan.antt =====
-- src/orchestration/durability-crash-cuts.ts: the iterations of `crashCutPlan`.
use fitz_destroyer.Common.{
  ℕ, zero, suc, ◌+◌, ◌-◌, ◌%◌, ◌≤◌, ◌<◌, ◌≡◌, refl, ap, ◌∙◌, Option, some, arith,
}
use fitz_destroyer.Durability.CrashCuts.{
  CrashCutIdentity, request_dispatch, blocked_provider_access, provider_recovery, broker_kill,
  acknowledgement, restart_with_storage_inflight, crash_cut_identities, CrashCutIteration,
  get_elem?, plan_from, crash_cut_plan,
}

abbrev iteration_at : ℕ → ℕ → CrashCutIteration
iteration_at seed index = record {
  iteration = index + 1;
  sequence = index + 1;
  seed = seed;
  cut = get_elem? crash_cut_identities ((seed + index) % 6);
}

plan_from-get_elem? :
    (index count seed k i : ℕ)
    → k < count
    → index + k ≡ i
    → get_elem? (plan_from index count seed) k ≡ some (iteration_at seed i)
unfolding plan_from
plan_from-get_elem? index zero seed k i h e = ground arith
plan_from-get_elem? index (suc count) seed zero i h e =
    ap (λ j. some (iteration_at seed j)) (omega arith)
plan_from-get_elem? index (suc count) seed (suc k) i h e =
    plan_from-get_elem? (suc index) count seed k i (omega arith) (omega arith)

-- Where a cut stands among the cuts.
abbrev position : CrashCutIdentity → ℕ
position request_dispatch = 0
position blocked_provider_access = 1
position provider_recovery = 2
position broker_kill = 3
position acknowledgement = 4
position restart_with_storage_inflight = 5

position-get_elem? : (c : CrashCutIdentity) → get_elem? crash_cut_identities (position c) ≡ some c
position-get_elem? request_dispatch = refl
position-get_elem? blocked_provider_access = refl
position-get_elem? provider_recovery = refl
position-get_elem? broker_kill = refl
position-get_elem? acknowledgement = refl
position-get_elem? restart_with_storage_inflight = refl

position-lt : (c : CrashCutIdentity) → position c < 6
position-lt request_dispatch = omega arith
position-lt blocked_provider_access = omega arith
position-lt provider_recovery = omega arith
position-lt broker_kill = omega arith
position-lt acknowledgement = omega arith
position-lt restart_with_storage_inflight = omega arith

-- Of six neighbours one has a given remainder.
offset : (seed p : ℕ) → p < 6 → (k : ℕ) × (k < 6) × ((seed + k) % 6 ≡ p)
offset seed p h = ((p + 6 - seed % 6) % 6, omega arith, omega arith)

iteration_at-cut :
    (seed i : ℕ) (c : CrashCutIdentity)
    → (seed + i) % 6 ≡ position c
    → ◌≡◌ {A = Option CrashCutIteration}
        (some (iteration_at seed i))
        (some (record { iteration = i + 1; sequence = i + 1; seed = seed; cut = some c }))
iteration_at-cut seed i c e =
    ap (λ o. some (record { iteration = i + 1; sequence = i + 1; seed = seed; cut = o }))
      (ap (get_elem? crash_cut_identities) e ∙ position-get_elem? c)

-- In any six iterations in a row, counted from 0, each of the six cuts is made once at least,
-- whatever the seed: one of them has that cut, with its number and sequence one more than its index.
pub crash_cut_plan-covers :
    (iterations seed start : ℕ) (c : CrashCutIdentity)
    → start + 6 ≤ iterations
    → (k : ℕ) × (start ≤ k)
      × (k < start + 6)
      × (get_elem? (crash_cut_plan iterations seed) k
          ≡ some (record { iteration = k + 1; sequence = k + 1; seed = seed; cut = some c }))
unfolding crash_cut_plan
crash_cut_plan-covers iterations seed start c h =
    let (k, few, e) = offset (seed + start) (position c) (position-lt c) in
    (
      start + k,
      omega arith,
      omega arith,
      plan_from-get_elem? 0 iterations seed (start + k) (start + k) (omega arith) (omega arith)
          ∙ iteration_at-cut seed (start + k) c (omega arith),
    )

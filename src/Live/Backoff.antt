-- ===== src/Live/Backoff.antt =====
-- crates/mmm-producers/src/live_loop.rs: the waits of `RetryPolicy`.
use mathlib.Core.Path.{subst}
use merge_mining_monitor.Base.{
  List, [], arith, get_or, refl, suc, zero, ℕ, ◌+◌, ◌-◌, ◌/◌, ◌<◌, ◌^◌, ◌∷◌, ◌≡◌, ◌≤◌,
}
use merge_mining_monitor.Live.{
  Clock, CoreUnavailable, CycleState, Phase, RetryPolicy, WaitDecision, ceiling_ms, decide,
  default_policy, healthy_cycle, jittered_ms, min_ℕ, pending_cycle, saturating_suc, wait_for,
  waiting_cycle,
}

pub ceiling_ms_top : (n : ℕ) → 6 < n → ceiling_ms n ≡ 300000
unfolding ceiling_ms
ceiling_ms_top n h = let e : min_ℕ (n - 1) 6 ≡ 6 = ground arith in rw e refl

level_at_top : (n : ℕ) → 6 < n → ceiling_ms n ≤ ceiling_ms (suc n)
level_at_top n h = rw (ceiling_ms_top n h, ceiling_ms_top (suc n) (omega arith)) (omega arith)

ceiling_ms-suc : (n : ℕ) → ceiling_ms n ≤ ceiling_ms (suc n)
unfolding ceiling_ms
ceiling_ms-suc zero = omega arith
ceiling_ms-suc (suc zero) = omega arith
ceiling_ms-suc (suc (suc zero)) = omega arith
ceiling_ms-suc (suc (suc (suc zero))) = omega arith
ceiling_ms-suc (suc (suc (suc (suc zero)))) = omega arith
ceiling_ms-suc (suc (suc (suc (suc (suc zero))))) = omega arith
ceiling_ms-suc (suc (suc (suc (suc (suc (suc zero)))))) = omega arith
ceiling_ms-suc (suc (suc (suc (suc (suc (suc (suc n))))))) =
    level_at_top (suc (suc (suc (suc (suc (suc (suc n))))))) (omega arith)

ceiling_ms-add : (m k n : ℕ) → k + m ≡ n → ceiling_ms m ≤ ceiling_ms n
ceiling_ms-add m zero n e = let e' : m ≡ n = omega arith in rw e' (omega arith)
ceiling_ms-add m (suc k) n e =
    let h = ceiling_ms-suc (k + m) in
    let e' : suc (k + m) ≡ n = omega arith in
    omega
      (arith, ceiling_ms-add m k (k + m) refl, subst (λ i. ceiling_ms (k + m) ≤ ceiling_ms i) e' h)

-- A later failure never has a lower ceiling.
pub ceiling_ms_grows : (m n : ℕ) → m ≤ n → ceiling_ms m ≤ ceiling_ms n
ceiling_ms_grows m n h = ceiling_ms-add m (n - m) n (omega arith)

ceiling_ms-bounds : (n : ℕ) → (5000 ≤ ceiling_ms n) × (ceiling_ms n ≤ 300000)
unfolding ceiling_ms
ceiling_ms-bounds n = (omega (arith, ceiling_ms_grows 0 n (omega arith)), ground arith)

jittered_ms-bounds :
    (clock : Clock) (n : ℕ)
    → (ceiling_ms n / 2 ≤ jittered_ms clock n) × (jittered_ms clock n ≤ ceiling_ms n)
unfolding jittered_ms
jittered_ms-bounds clock n = (omega arith, omega arith)

-- cycles, the last one first
abbrev pub History : Type 0
History = List (Clock × CycleState × Phase × ℕ)

-- the policy behind a history
unfoldable pub policy_after : History → RetryPolicy
unfolding decide
policy_after [] = default_policy
policy_after ((clock, state, phase, normal) ∷ earlier) =
    (decide clock (policy_after earlier) state phase normal).0

-- the outages since the last healthy cycle
unfoldable pub outages : History → ℕ
outages [] = 0
outages ((clock, healthy_cycle, phase, normal) ∷ earlier) = 0
outages ((clock, pending_cycle reason, phase, normal) ∷ earlier) = outages earlier
outages ((clock, waiting_cycle reason, phase, normal) ∷ earlier) = suc (outages earlier)

-- The failures that the policy counts are the cycles since the last healthy one that waited for the
-- node, as long as an i64 holds them: a pending cycle neither adds to them nor resets them.
pub failures-outages :
    (h : History) → (policy_after h).retry_failures ≡ min_ℕ (outages h) (2 ^ 63 - 1)
unfolding policy_after outages decide wait_for
failures-outages [] = refl
failures-outages ((clock, healthy_cycle, phase, normal) ∷ earlier) = refl
failures-outages ((clock, pending_cycle reason, phase, normal) ∷ earlier) = failures-outages earlier
failures-outages ((clock, waiting_cycle reason, phase, normal) ∷ earlier) =
    let ih = failures-outages earlier in ground arith

-- the ceiling of a wait in milliseconds, when so many outages in a row came before its own
abbrev pub outage_ceiling : ℕ → ℕ
outage_ceiling earlier =
    get_or (5_000 ∷ 10_000 ∷ 20_000 ∷ 40_000 ∷ 80_000 ∷ 160_000 ∷ []) earlier 300_000

ceiling_ms-outage_ceiling : (n : ℕ) → ceiling_ms (n + 1) ≡ outage_ceiling n
unfolding ceiling_ms
ceiling_ms-outage_ceiling zero = refl
ceiling_ms-outage_ceiling (suc zero) = refl
ceiling_ms-outage_ceiling (suc (suc zero)) = refl
ceiling_ms-outage_ceiling (suc (suc (suc zero))) = refl
ceiling_ms-outage_ceiling (suc (suc (suc (suc zero)))) = refl
ceiling_ms-outage_ceiling (suc (suc (suc (suc (suc zero))))) = refl
ceiling_ms-outage_ceiling (suc (suc (suc (suc (suc (suc n)))))) =
    ceiling_ms_top (suc (suc (suc (suc (suc (suc n))))) + 1) (omega arith)

-- what a wait for the node is held to, when so many outages in a row came before its own
pub record IsOutageWait (clock : Clock) (earlier : ℕ) (decision : WaitDecision) : Type 0 where
  pub at_least : clock.now + outage_ceiling earlier / 2 ≤ decision.deadline
  pub at_most : decision.deadline ≤ clock.now + outage_ceiling earlier
  pub in_seconds : (clock.now + 2500 ≤ decision.deadline) × (decision.deadline ≤ clock.now + 300000)
  pub counted_failures : decision.transition.failures ≡ earlier + 1

-- A wait for the node ends between half of its ceiling and the ceiling from now, where the ceiling is
-- 5 seconds, doubled by each outage in a row since the last healthy cycle, and 5 minutes from the
-- seventh on: so never before 2.5 seconds, and never after 5 minutes.
pub decide-IsOutageWait :
    (h : History) (clock : Clock) (reason : CoreUnavailable) (phase : Phase) (normal : ℕ)
    → outages h < 2 ^ 63 - 1
    → IsOutageWait clock
        (outages h)
        (decide clock (policy_after h) (waiting_cycle reason) phase normal).1
unfolding decide wait_for
decide-IsOutageWait h clock reason phase normal few =
    let e : saturating_suc (policy_after h).retry_failures ≡ outages h + 1 =
      rw (failures-outages h) (ground arith) in
    let (low, high) = jittered_ms-bounds clock (outages h + 1) in
    let (least, most) = ceiling_ms-bounds (outages h + 1) in
    let ceiling = ceiling_ms-outage_ceiling (outages h) in
    let low' = rw ceiling at low in
    let high' = rw ceiling at high in
    rw e (record {
      at_least = omega (arith, low');
      at_most = omega (arith, high');
      in_seconds = (omega arith, omega arith);
      counted_failures = refl;
    })

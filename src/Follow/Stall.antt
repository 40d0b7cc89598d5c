-- ===== src/Follow/Stall.antt =====
-- crates/mmm-producers/src/bitcoin_core_backbone/live.rs: when the follow producer gives up.
use merge_mining_monitor.Base.{
  All, Bool-cases, List, [], arith, err, false, inl, inr, leb, length, le→leb, refl, suc, take,
  true, zero, ℕ, ◌+◌, ◌||◌, ◌↔◌, ◌∷◌, ◌≡◌, ◌≤◌,
}
use merge_mining_monitor.Follow.{
  follow_stall_step, stall_exit_threshold, stalled_fault, wait_after_live_tick,
}
use merge_mining_monitor.Follow.Faults.{wait-stalled}
use merge_mining_monitor.Live.{TickOutcome}

-- the count behind outcomes, the last one first
unfoldable pub stall_after : List TickOutcome → ℕ
unfolding wait_after_live_tick
stall_after [] = 0
stall_after (outcome ∷ earlier) = (wait_after_live_tick outcome (stall_after earlier) 0).1

abbrev pub Stalls : TickOutcome → Type 0
Stalls outcome = (outcome.progressed || outcome.idle_at_target) ≡ false

stall_moves :
    (outcome : TickOutcome) (earlier : List TickOutcome)
    → (outcome.progressed || outcome.idle_at_target) ≡ true
    → stall_after (outcome ∷ earlier) ≡ 0
unfolding stall_after wait_after_live_tick follow_stall_step
stall_moves outcome earlier h = rw (stall_after, h) refl

stall_waits :
    (outcome : TickOutcome) (earlier : List TickOutcome)
    → Stalls outcome
    → stall_after (outcome ∷ earlier) ≡ stall_after earlier + 1
unfolding stall_after wait_after_live_tick follow_stall_step
stall_waits outcome earlier h = rw (stall_after, h) refl

counted_run :
    (outcomes : List TickOutcome) (n : ℕ)
    → n ≤ stall_after outcomes
    → (n ≤ length outcomes) × All Stalls (take n outcomes)
unfolding stall_after
counted_run outcomes zero h = (omega arith, tt)
counted_run [] (suc n) h = absurd (omega arith)
counted_run (outcome ∷ earlier) (suc n) h =
    elim (Bool-cases (outcome.progressed || outcome.idle_at_target)) [
      | inl moves ↦ let e = stall_moves outcome earlier moves in absurd (omega (arith, e, h))
      | inr waits ↦
          let e = stall_waits outcome earlier waits in
          let (short, all) = counted_run earlier n (omega (arith, e, h)) in
          (omega (arith, short), (waits, all))
    ]

run_counted :
    (outcomes : List TickOutcome) (n : ℕ)
    → n ≤ length outcomes
    → All Stalls (take n outcomes)
    → n ≤ stall_after outcomes
run_counted outcomes zero h all = omega arith
run_counted [] (suc n) h all = absurd (omega arith)
run_counted (outcome ∷ earlier) (suc n) h all =
    omega (arith, stall_waits outcome earlier all.0, run_counted earlier n (omega arith) all.1)

counted_five :
    (outcome : TickOutcome) (earlier : List TickOutcome) (interval : ℕ)
    → (wait_after_live_tick outcome (stall_after earlier) interval).0 ≡ err stalled_fault
    → 5 ≤ stall_after (outcome ∷ earlier)
unfolding wait_after_live_tick follow_stall_step
counted_five outcome earlier interval e =
    elim (Bool-cases (outcome.progressed || outcome.idle_at_target)) [
      | inl moves ↦ let e' = rw moves at e in cc
      | inr waits ↦ omega (
        arith,
        stall_waits outcome earlier waits,
        wait-stalled outcome (stall_after earlier) interval e,
      )
    ]

fails_at_five :
    (outcome : TickOutcome) (earlier : List TickOutcome) (interval : ℕ)
    → 5 ≤ stall_after (outcome ∷ earlier)
    → (wait_after_live_tick outcome (stall_after earlier) interval).0 ≡ err stalled_fault
unfolding wait_after_live_tick follow_stall_step
fails_at_five outcome earlier interval h =
    elim (Bool-cases (outcome.progressed || outcome.idle_at_target)) [
      | inl moves ↦ let e = stall_moves outcome earlier moves in absurd (omega (arith, e, h))
      | inr waits ↦
          let e = stall_waits outcome earlier waits in
          let many : leb stall_exit_threshold (stall_after earlier + 1) ≡ true =
            le→leb 5 (stall_after earlier + 1) (omega (arith, e, h)) in
          rw (waits, many) refl
    ]

pub wait_after_live_tick-Stalls :
    (outcome : TickOutcome) (earlier : List TickOutcome) (interval : ℕ)
    → ((wait_after_live_tick outcome (stall_after earlier) interval).0 ≡ err stalled_fault)
      ↔ ((5 ≤ length (outcome ∷ earlier)) × All Stalls (take 5 (outcome ∷ earlier)))
wait_after_live_tick-Stalls outcome earlier interval = (
  λ e. counted_run (outcome ∷ earlier) 5 (counted_five outcome earlier interval e),
  λ (long, all).
      fails_at_five outcome earlier interval (run_counted (outcome ∷ earlier) 5 long all),
)

-- ===== src/Poller/Supervised.antt =====
-- crates/mmm-producers/src/poller/mod.rs under the loop of crates/mmm-producers/src/live_loop.rs: what
-- a supervised poller keeps from round to round, and what stops it.
use merge_mining_monitor.Base.{
  List, Option, Result, arith, err, false, none, ok, refl, some, true, ℕ, ◌↔◌, ◌∙◌, ◌≡◌,
}
use merge_mining_monitor.Base.Int.{ℤ}
use merge_mining_monitor.Live.{
  Clock, CycleState, LiveFault, RetryPolicy, TickOutcome, after_fault, backbone_integrity,
  cache_integrity, core_fault, core_unavailable, cycle_of, local_recovery, must_propagate,
  other_fault, paired, pending_cycle, recovery_state, round, run_ticks, settle,
}
use merge_mining_monitor.Live.Rounds.{is_fatal, run_ticks-Keeps}
use merge_mining_monitor.Poller.Covered.{Durable}
use merge_mining_monitor.Poller.Invariant.{IsCovered, poll_tick-IsCovered}
use merge_mining_monitor.Poller.Session.{
  ChainPoller, Poller, TickSummary, live_poller, outcome_of, poll_tick,
}

stopped :
    {A : Type 0} (actual : LiveFault) {fault : LiveFault}
    → is_fatal actual ≡ true
    → actual ≡ fault
    → (◌≡◌ {A = Result LiveFault A} (err actual) (err fault)) × (is_fatal fault ≡ true)
stopped actual h same = rw (← same) (refl, h)

not_stopped :
    {A B : Type 0} (actual : LiveFault) {fault : LiveFault} {r : Result LiveFault B}
    → is_fatal actual ≡ false
    → (◌≡◌ {A = Result LiveFault A} (err actual) (err fault)) × (is_fatal fault ≡ true)
    → r ≡ err fault
not_stopped actual {fault = fault} h (e, s) =
    let same : actual ≡ fault = cc in let goes : is_fatal actual ≡ true = rw same s in cc

-- A round of any producer leaves the producer that its calls leave.
module _ {S : Type 0} (chain : ChainPoller S) where
  outcome_poller : (r : Result LiveFault TickSummary × Poller S) → (outcome_of chain r).1 ≡ r.1
  unfolding outcome_of
  outcome_poller (err fault, poller) = refl
  outcome_poller (ok summary, poller) = ground arith

  waited_poller :
      (poller : Poller S) (r : Result LiveFault TickOutcome)
      → ((live_poller chain).wait_after_tick poller r).1 ≡ poller
  unfolding live_poller
  waited_poller poller (ok outcome) = refl
  waited_poller poller (err fault) = ground arith

  paired_poller :
      (state : CycleState) (r : Result LiveFault ℕ × Poller S)
      → (paired (live_poller chain) state r).1 ≡ r.1
  unfolding paired
  paired_poller state (ok delay, p) = refl
  paired_poller state (err fault, p) = refl

  round_poller :
      (r : Result LiveFault TickOutcome × Poller S) → (round (live_poller chain) r).1 ≡ r.1
  unfolding round after_fault
  round_poller (ok outcome, p) = paired_poller (cycle_of outcome) _ ∙ waited_poller p (ok outcome)
  round_poller (err fault, p) = faulted fault (recovery_state fault) p
    where
      faulted :
          (fault : LiveFault) (state : Option CycleState) (p : Poller S)
          → (after_fault (live_poller chain) fault state p).1 ≡ p
      faulted fault (some state) p = refl
      faulted fault none p =
          paired_poller (pending_cycle "capture_pending") _ ∙ waited_poller p (err fault)

  settled_poller :
      (clock : Clock) (policy : RetryPolicy) (r : Result LiveFault (CycleState × ℕ) × Poller S)
      → (settle (live_poller chain) clock policy r).2 ≡ r.1
  unfolding settle
  settled_poller clock policy (ok (state, delay), p) = refl
  settled_poller clock policy (err fault, p) = refl

  -- The supervised poller stops after a tick exactly when the tick failed with a fault of the node, of
  -- the header cache or of the backbone. A node that is unavailable, a recovery that is pending and any
  -- other fault lead to a wait.
  pub live_poller_stops :
      (r : Result LiveFault TickOutcome × Poller S) (fault : LiveFault)
      → ((round (live_poller chain) r).0 ≡ err fault)
        ↔ ((r.0 ≡ err fault) × (is_fatal fault ≡ true))
  unfolding round after_fault paired live_poller must_propagate
  live_poller_stops (ok outcome, p) fault = (λ e. cc, λ h. cc)
  live_poller_stops (err (core_unavailable reason), p) fault =
      (λ e. cc, λ h. not_stopped (core_unavailable reason) refl h)
  live_poller_stops (err (local_recovery reason), p) fault =
      (λ e. cc, λ h. not_stopped (local_recovery reason) refl h)
  live_poller_stops (err (core_fault f), p) fault = (λ e. stopped (core_fault f) refl (cc), λ h. cc)
  live_poller_stops (err (backbone_integrity f), p) fault =
      (λ e. stopped (backbone_integrity f) refl (cc), λ h. cc)
  live_poller_stops (err cache_integrity, p) fault =
      (λ e. stopped cache_integrity refl (cc), λ h. cc)
  live_poller_stops (err other_fault, p) fault = (λ e. cc, λ h. not_stopped other_fault refl h)

  module _ (Captured : ℤ → S → Type 0) (durable : Durable chain Captured) (first : ℤ) where
    round-IsCovered :
        (clock : Clock) (policy : RetryPolicy) (poller : Poller S)
        → IsCovered chain Captured durable first poller
        → IsCovered chain Captured durable first
            (settle
              (live_poller chain)
              clock
              policy
              (round (live_poller chain) ((live_poller chain).tick poller))).2
    unfolding live_poller
    round-IsCovered clock policy poller h =
        let producer = live_poller chain in
        let ticked = outcome_of chain (poll_tick chain poller) in
        rw
          (
            settled_poller clock policy (round producer ticked),
            round_poller ticked,
            outcome_poller (poll_tick chain poller),
          )
          (poll_tick-IsCovered chain Captured durable first poller h)

    -- However many rounds a supervised poller runs, and however they end, every height from the first
    -- one up to its cursor is captured.
    pub run_ticks-IsCovered :
        (clocks : List Clock) (policy : RetryPolicy) (poller : Poller S)
        → IsCovered chain Captured durable first poller
        → IsCovered chain Captured durable first
            (run_ticks (live_poller chain) clocks policy poller).2
    run_ticks-IsCovered clocks policy poller h =
        run_ticks-Keeps (live_poller chain) (IsCovered chain Captured durable first) round-IsCovered
          clocks policy poller h

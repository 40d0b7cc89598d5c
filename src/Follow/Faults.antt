-- ===== src/Follow/Faults.antt =====
-- crates/mmm-producers/src/bitcoin_core_backbone/live.rs: the faults that stop the follow producer.
use merge_mining_monitor.Backbone.{BackboneTip}
use merge_mining_monitor.Base.{
  Bool, Bool-cases, Option, Result, arith, err, false, if◌then◌else◌, inl, inr, leb, leb→le, ltb,
  none, not, ok, refl, some, true, ℕ, ◌&&◌, ◌+◌, ◌||◌, ◌≡◌, ◌≤◌, ◌⊎◌,
}
use merge_mining_monitor.Base.Steps.{Step, after}
use merge_mining_monitor.Follow.{
  FollowCalls, FollowProducer, FollowProgress, RepairSchedule, SyncStats, fails_stop,
  follow_stall_step, forced, handle_near_tip_repair_result, if_due, on_target, repair_and_verify,
  repair_near_tip_backbone_if_due, skipped_timestamp, stall_exit_threshold, stalled_fault,
  unless_skipped, wait_after_live_tick,
}
use merge_mining_monitor.Follow.Tick.{
  after_batch, after_drain, after_progress, after_repair, bookkeeping_failure_outcome,
  drained_outcome, finish_tick, finished_tick, first_batch, follow_tick, follow_wait, kept,
  live_follower, on_world, ready_if_live, refreshed, repair_near_tip, rerun,
}
use merge_mining_monitor.Live.{
  CycleState, LiveFault, LiveProducer, TickOutcome, after_fault, backbone_integrity,
  cache_integrity, core_fault, core_unavailable, cycle_of, is_backbone_integrity_error,
  local_recovery, must_propagate, other_fault, paired, recovery_state, round,
}
use merge_mining_monitor.Live.Rounds.{is_fatal}

-- a result whose fault, if it has one, ends a tick
abbrev pub OnlyStops : {S A : Type 0} → Result LiveFault A × S → Type 0
OnlyStops r = (fault : LiveFault) → r.0 ≡ err fault → fails_stop fault ≡ true

propagate-stops : (fault : LiveFault) → must_propagate fault ≡ true → fails_stop fault ≡ true
unfolding fails_stop
propagate-stops fault h = elim (Bool-cases (is_backbone_integrity_error fault)) [
  | inl broken ↦ rw broken refl
  | inr whole ↦ rw (whole, h) refl
]

stops-if :
    {S A : Type 0} (t : Bool) (fault : LiveFault) (s : S) (rest : Result LiveFault A × S)
    → (t ≡ true → fails_stop fault ≡ true)
    → OnlyStops rest
    → OnlyStops (if t then (err fault, s) else rest)
stops-if true fault s rest stop later =
    λ fault' e. let same : fault ≡ fault' = cc in rw (← same) (stop refl)
stops-if false fault s rest stop later = later

after-OnlyStops :
    {S A B : Type 0} (first : Result LiveFault A × S) (next : A → Step S LiveFault B)
    → OnlyStops first
    → ((a : A) (s : S) → OnlyStops (next a s))
    → OnlyStops (after first next)
unfolding after
after-OnlyStops (ok a, s) next h later = later a s
after-OnlyStops (err fault, s) next h later = λ fault' e. h fault' cc

module _ {S : Type 0} (calls : FollowCalls S) where
  bookkeeping-OnlyStops :
      (before : Option FollowProgress) (p : FollowProducer S)
      → OnlyStops (bookkeeping_failure_outcome calls before p)
  unfolding bookkeeping_failure_outcome
  bookkeeping-OnlyStops before p fault e = cc

  handled-OnlyStops :
      (r : Result LiveFault SyncStats × S) → OnlyStops (handle_near_tip_repair_result calls r)
  unfolding handle_near_tip_repair_result
  handled-OnlyStops (err fault, s) = stops-if (fails_stop fault) fault s _ (λ h. h) (λ fault' e. cc)
  handled-OnlyStops (ok stats, s) = λ fault e. elim (Bool-cases (ltb 0 stats.coinbase_failed)) [
    | inl some_failed ↦ let e' = rw some_failed at e in cc
    | inr all_done ↦ let e' = rw all_done at e in cc
  ]

  on_target-OnlyStops : (r : Result LiveFault BackboneTip × S) → OnlyStops (on_target calls r)
  unfolding on_target
  on_target-OnlyStops (ok target, s) = handled-OnlyStops (repair_and_verify calls target s)
  on_target-OnlyStops (err fault, s) =
      stops-if (must_propagate fault) fault s _ (propagate-stops fault) (λ fault' e. cc)

  unless_skipped-OnlyStops :
      (skipped : Option ℕ) (s : S) → OnlyStops (unless_skipped calls skipped s)
  unfolding unless_skipped
  unless_skipped-OnlyStops (some last) s = λ fault e. cc
  unless_skipped-OnlyStops none s = on_target-OnlyStops (calls.capture_target s)

  kept-OnlyStops :
      (r : Result LiveFault (Option ℕ × Bool) × S) (p : FollowProducer S)
      → OnlyStops r
      → OnlyStops (kept calls r p)
  unfolding kept
  kept-OnlyStops (ok (last, succeeded), s) p h fault e = cc
  kept-OnlyStops (err fault', s) p h fault e = h fault cc

  repair-OnlyStops :
      (schedule : RepairSchedule) (p : FollowProducer S)
      → OnlyStops (repair_near_tip calls schedule p)
  unfolding repair_near_tip repair_near_tip_backbone_if_due
  repair-OnlyStops schedule p =
      kept-OnlyStops _ p
        (unless_skipped-OnlyStops (skipped_timestamp (calls.instant_now p.world) schedule) p.world)

  drained-OnlyStops :
      (outcome : TickOutcome) (r : Result LiveFault (Unit {0}) × FollowProducer S)
      → OnlyStops (drained_outcome calls outcome r)
  unfolding drained_outcome
  drained-OnlyStops outcome (ok done, p) = λ fault e. cc
  drained-OnlyStops outcome (err fault, p) =
      stops-if (must_propagate fault) fault p _ (propagate-stops fault) (λ fault' e. cc)

  finished-OnlyStops :
      (before : FollowProgress) (completed : Bool)
      (r : Result LiveFault FollowProgress × FollowProducer S)
      → OnlyStops (finished_tick calls before completed r)
  unfolding finished_tick
  finished-OnlyStops before completed (err fault, p) = bookkeeping-OnlyStops (some before) p
  finished-OnlyStops before completed (ok later, p) = drained-OnlyStops _ _

  refreshed-OnlyStops :
      (before : FollowProgress) (completed : Bool)
      (r : Result LiveFault (Unit {0}) × FollowProducer S)
      → OnlyStops (refreshed calls before completed r)
  unfolding refreshed finish_tick
  refreshed-OnlyStops before completed (ok done, p) = finished-OnlyStops before completed _
  refreshed-OnlyStops before completed (err fault, p) =
      stops-if (fails_stop fault) fault p _ (λ h. h) (bookkeeping-OnlyStops (some before) p)

  after_batch-OnlyStops :
      (before : FollowProgress) (r : Result LiveFault SyncStats × FollowProducer S)
      → OnlyStops (after_batch calls before r)
  unfolding after_batch
  after_batch-OnlyStops before (ok stats, p) = refreshed-OnlyStops before _ _
  after_batch-OnlyStops before (err fault, p) =
      stops-if (fails_stop fault) fault p _ (λ h. h) (refreshed-OnlyStops before false _)

  rerun-OnlyStops :
      (before : FollowProgress) (succeeded : Bool) (p : FollowProducer S)
      → OnlyStops (rerun calls before succeeded p)
  unfolding rerun
  rerun-OnlyStops before true p = after_batch-OnlyStops before _
  rerun-OnlyStops before false p = λ fault e. cc

  first_batch-OnlyStops :
      (before : FollowProgress) (r : Result LiveFault SyncStats × FollowProducer S)
      → OnlyStops (first_batch calls before r)
  unfolding first_batch
  first_batch-OnlyStops before (ok stats, p) = after_batch-OnlyStops before (ok stats, p)
  first_batch-OnlyStops before (err fault, p) =
      elim (Bool-cases (is_backbone_integrity_error fault && not (must_propagate fault))) [
        | inl broken ↦ rw broken (
            after-OnlyStops (repair_near_tip calls forced p) (rerun calls before)
              (repair-OnlyStops forced p) (rerun-OnlyStops before))
        | inr other ↦ rw other (after_batch-OnlyStops before (err fault, p))
      ]

  after_repair-OnlyStops :
      (before : FollowProgress) (succeeded : Bool) (p : FollowProducer S)
      → OnlyStops (after_repair calls before succeeded p)
  unfolding after_repair
  after_repair-OnlyStops before true p = first_batch-OnlyStops before _
  after_repair-OnlyStops before false p = λ fault e. cc

  after_progress-OnlyStops :
      (r : Result LiveFault FollowProgress × FollowProducer S) → OnlyStops (after_progress calls r)
  unfolding after_progress
  after_progress-OnlyStops (err fault, p) = bookkeeping-OnlyStops none p
  after_progress-OnlyStops (ok before, p) =
      after-OnlyStops (repair_near_tip calls (if_due p.last_repair p.follow_interval) p)
        (after_repair calls before) (repair-OnlyStops (if_due p.last_repair p.follow_interval) p)
        (after_repair-OnlyStops before)

  after_drain-OnlyStops :
      (r : Result LiveFault (Unit {0}) × FollowProducer S) → OnlyStops (after_drain calls r)
  unfolding after_drain
  after_drain-OnlyStops (ok done, p) = after_progress-OnlyStops _
  after_drain-OnlyStops (err fault, p) =
      stops-if (must_propagate fault) fault p _ (propagate-stops fault)
        (bookkeeping-OnlyStops none p)

  ready_if-OnlyStops :
      ((s : S) → OnlyStops (calls.ready_tip s)) → (s : S) → OnlyStops (ready_if_live calls s)
  unfolding ready_if_live
  ready_if-OnlyStops ready s = elim (Bool-cases calls.is_live) [
    | inl live ↦ rw live (ready s)
    | inr offline ↦ rw offline (λ fault e. cc)
  ]

  -- A tick fails only with a fault of the backbone's integrity or one that must propagate, when the
  -- check of Core's readiness does: every other fault of its calls is retried.
  pub follow_tick-OnlyStops :
      ((s : S) → OnlyStops (calls.ready_tip s))
      → (p : FollowProducer S) → OnlyStops (follow_tick calls p)
  unfolding follow_tick ready_if_live
  follow_tick-OnlyStops ready p =
      after-OnlyStops (on_world calls (ready_if_live calls) p) _ (ready_if-OnlyStops ready p.world)
        (λ done p'. after_drain-OnlyStops (on_world calls calls.drain_core_queue p'))

-- a fault that ends a tick and that the supervisor does not wait for
pub fatal_of :
    (fault : LiveFault)
    → fails_stop fault ≡ true
    → recovery_state fault ≡ none
    → is_fatal fault ≡ true
unfolding fails_stop must_propagate
fatal_of (core_unavailable reason) h e = cc
fatal_of (local_recovery reason) h e = cc
fatal_of (core_fault fault) h e = refl
fatal_of (backbone_integrity fault) h e = refl
fatal_of cache_integrity h e = refl
fatal_of other_fault h e = cc

-- what a fault that ends a round is, when the tick left the producer with `stall`
abbrev pub StopsRound : ℕ → LiveFault → Type 0
StopsRound stall fault = (is_fatal fault ≡ true) ⊎ ((fault ≡ stalled_fault) × (4 ≤ stall))

pub wait-stalled :
    (outcome : TickOutcome) (stall interval : ℕ) {fault : LiveFault}
    → (wait_after_live_tick outcome stall interval).0 ≡ err fault
    → (fault ≡ stalled_fault) × (4 ≤ stall)
unfolding wait_after_live_tick follow_stall_step
wait-stalled outcome stall interval e =
    elim (Bool-cases (outcome.progressed || outcome.idle_at_target)) [
      | inl moves ↦ let e' = rw moves at e in cc
      | inr waits ↦
          let e' = rw waits at e in
          elim (Bool-cases (leb stall_exit_threshold (stall + 1))) [
            | inl many ↦
                let e'' = rw many at e' in
                let enough = leb→le 5 (stall + 1) many in (cc, omega arith)
            | inr few ↦ let e'' = rw few at e' in cc
          ]
    ]

pub paired-err :
    {P : Type 0} (producer : LiveProducer P) (state : CycleState) (r : Result LiveFault ℕ × P)
    {fault : LiveFault}
    → (paired producer state r).0 ≡ err fault
    → r.0 ≡ err fault
unfolding paired
paired-err producer state (ok delay, p) e = cc
paired-err producer state (err fault, p) e = cc

module _ {S : Type 0} (calls : FollowCalls S) where
  round-StopsRound :
      (r : Result LiveFault TickOutcome × FollowProducer S)
      → OnlyStops r
      → (fault : LiveFault) → (round (live_follower calls) r).0 ≡ err fault
      → StopsRound r.1.stall fault
  unfolding round live_follower after_fault paired follow_wait
  round-StopsRound (err fault', p) only fault e =
      faulted fault' (recovery_state fault') refl (only fault' refl) e
    where
      faulted :
          (fault' : LiveFault) (state : Option CycleState)
          → recovery_state fault' ≡ state
          → fails_stop fault' ≡ true
          → (after_fault (live_follower calls) fault' state p).0 ≡ err fault
          → StopsRound p.stall fault
      faulted fault' (some state) e1 h e2 = cc
      faulted fault' none e1 h e2 =
          let same : fault' ≡ fault = cc in inl (rw (← same) (fatal_of fault' h e1))
  round-StopsRound (ok outcome, p) only fault e = inr (
      wait-stalled outcome p.stall p.follow_interval
        (paired-err (live_follower calls) (cycle_of outcome) (follow_wait calls p (ok outcome)) e))

  -- A round of the supervised follow producer ends its loop only with a fault of the node, of the header
  -- cache or of the backbone's integrity, or as stalled with a count of four or more, when the check of
  -- Core's readiness fails only in such a way or in one that is waited for.
  pub follow_round-StopsRound :
      ((s : S) → OnlyStops (calls.ready_tip s))
      → (p : FollowProducer S) (fault : LiveFault)
      → (round (live_follower calls) ((live_follower calls).tick p)).0 ≡ err fault
      → StopsRound ((live_follower calls).tick p).1.stall fault
  unfolding live_follower
  follow_round-StopsRound ready p =
      round-StopsRound (follow_tick calls p) (follow_tick-OnlyStops calls ready p)

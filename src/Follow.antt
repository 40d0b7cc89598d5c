-- ===== src/Follow.antt =====
-- crates/mmm-producers/src/bitcoin_core_backbone/live.rs: the producer that follows Core's tip. The
-- calls of Core and of the store are a record on one state; instants are milliseconds.
pub mod Tick
pub mod Stall
pub mod Faults
pub mod Kept
pub mod Runs
use merge_mining_monitor.Backbone.{BackboneTip}
use merge_mining_monitor.Base.{
  Bool, Option, Result, err, false, if◌then◌else◌, leb, ltb, none, ok, some, true, ℕ, ◌+◌, ◌-◌,
  ◌==◌, ◌||◌,
}
use merge_mining_monitor.Base.Int.{leb_ℤ, ltb_ℤ, ℤ}
use merge_mining_monitor.Base.Steps.{Step, returned, ◌>>=◌, ◌>>◌}
use merge_mining_monitor.Classifier.{ready_tip}
use merge_mining_monitor.Live.{
  LiveFault, TickOutcome, is_backbone_integrity_error, must_propagate, other_fault,
}

pub record FollowProgress : Type 0 where
  pub contiguous_height : ℤ
  pub target_tip_height : Option ℤ

unfoldable pub caught_up : FollowProgress → Bool
caught_up progress = elim (progress.target_tip_height) [
  | none ↦ false
  | some tip ↦ leb_ℤ tip progress.contiguous_height
]

-- `BitcoinCoreSyncStats`, of which only the failures are read here
pub record SyncStats : Type 0 where
  pub attempted : ℕ
  pub sync_completed : ℕ
  pub skipped_complete : ℕ
  pub coinbase_failed : ℕ

-- `FOLLOW_STALL_EXIT_THRESHOLD`
abbrev pub stall_exit_threshold : ℕ
stall_exit_threshold = 5

unfoldable pub follow_stall_step : Bool → Bool → ℕ → ℕ × Bool
follow_stall_step idle progressed stall =
    if progressed || idle then (0, false) else (stall + 1, leb stall_exit_threshold (stall + 1))

-- the stop of a producer that stalls below the tip
abbrev pub stalled_fault : LiveFault
stalled_fault = other_fault

unfoldable pub wait_after_live_tick : TickOutcome → ℕ → ℕ → Result LiveFault ℕ × ℕ
unfolding follow_stall_step
wait_after_live_tick outcome stall follow_interval =
    let (next_stall, should_exit) =
      follow_stall_step outcome.idle_at_target outcome.progressed stall in
    (
      if should_exit
          then err stalled_fault
          else ok (if outcome.progressed then 0 else follow_interval),
      next_stall,
    )

abbrev higher : FollowProgress → FollowProgress → Bool
higher before after_batch = ltb_ℤ before.contiguous_height after_batch.contiguous_height

abbrev zip_higher : Option FollowProgress → Option FollowProgress → Bool
zip_higher (some before) (some after_batch) = higher before after_batch
zip_higher _ _ = false

abbrev idle_of : Option FollowProgress → Option FollowProgress → Bool
idle_of (some after_batch) before = caught_up after_batch
idle_of none (some before) = caught_up before
idle_of none none = false

unfoldable pub bookkeeping_failure_outcome_from :
    Option FollowProgress → Option FollowProgress → TickOutcome
unfolding caught_up
bookkeeping_failure_outcome_from before after_batch = record {
  progressed = zip_higher before after_batch;
  idle_at_target = idle_of after_batch before;
  completed = false;
}

pub data RepairSchedule : Type 0 where
  if_due : Option ℕ → ℕ → RepairSchedule
  forced : RepairSchedule

-- `near_tip_repair_due`, at an instant
unfoldable pub near_tip_repair_due : ℕ → Option ℕ → ℕ → Bool
near_tip_repair_due now none interval = true
near_tip_repair_due now (some last) interval = leb interval (now - last)

unfoldable pub skipped_timestamp : ℕ → RepairSchedule → Option ℕ
unfolding near_tip_repair_due
skipped_timestamp now (if_due last interval) =
    if near_tip_repair_due now last interval then none else last
skipped_timestamp now forced = none

-- what the producer calls; `retried` is the record of a failure that is retried, which never fails
pub record FollowCalls (S : Type 0) : Type 0 where
  pub is_live : Bool
  pub ready_tip : Step S LiveFault (Unit {0})
  pub drain_core_queue : Step S LiveFault (Unit {0})
  pub load_progress : Step S LiveFault FollowProgress
  pub capture_target : Step S LiveFault BackboneTip
  pub repair_to_target : BackboneTip → Step S LiveFault SyncStats
  pub verify_window : BackboneTip → Step S LiveFault (Unit {0})
  pub accept_target : BackboneTip → Step S LiveFault (Unit {0})
  pub retried : S → S
  pub run_sync : Step S LiveFault SyncStats
  pub refresh_cache : Step S LiveFault (Unit {0})
  pub drain_relationships : Step S LiveFault (Unit {0})
  pub instant_now : S → ℕ

pub record FollowProducer (S : Type 0) : Type 0 where
  pub world : S
  pub stall : ℕ
  pub last_repair : Option ℕ
  pub follow_interval : ℕ

-- a fault that ends a tick; any other is retried
unfoldable pub fails_stop : LiveFault → Bool
unfolding must_propagate
fails_stop fault = is_backbone_integrity_error fault || must_propagate fault

module _ {S : Type 0} (calls : FollowCalls S) where
  unfoldable pub verified : BackboneTip → SyncStats → Step S LiveFault SyncStats
  verified target stats =
      if stats.coinbase_failed == 0
      then (do calls.verify_window target; calls.accept_target target; returned stats)
      else returned stats

  -- the repair of a target, with its verification
  unfoldable pub repair_and_verify : BackboneTip → Step S LiveFault SyncStats
  unfolding verified
  repair_and_verify target = do stats ← calls.repair_to_target target; verified target stats

  -- `handle_near_tip_repair_result`, with the record of a failure and the new timestamp
  unfoldable pub handle_near_tip_repair_result :
      Result LiveFault SyncStats × S → Result LiveFault (Option ℕ × Bool) × S
  unfolding fails_stop
  handle_near_tip_repair_result (ok stats, s) =
      if ltb 0 stats.coinbase_failed
      then (ok (some (calls.instant_now (calls.retried s)), false), calls.retried s)
      else (ok (some (calls.instant_now s), true), s)
  handle_near_tip_repair_result (err fault, s) =
      if fails_stop fault
      then (err fault, s)
      else (ok (some (calls.instant_now (calls.retried s)), false), calls.retried s)

  unfoldable pub on_target :
      Result LiveFault BackboneTip × S → Result LiveFault (Option ℕ × Bool) × S
  unfolding must_propagate repair_and_verify handle_near_tip_repair_result
  on_target (ok target, s) = handle_near_tip_repair_result (repair_and_verify target s)
  on_target (err fault, s) =
      if must_propagate fault
      then (err fault, s)
      else (ok (some (calls.instant_now (calls.retried s)), false), calls.retried s)

  unfoldable pub unless_skipped : Option ℕ → Step S LiveFault (Option ℕ × Bool)
  unfolding on_target
  unless_skipped (some last) s = (ok (some last, true), s)
  unless_skipped none s = on_target (calls.capture_target s)

  unfoldable pub repair_near_tip_backbone_if_due :
      RepairSchedule → Step S LiveFault (Option ℕ × Bool)
  unfolding unless_skipped skipped_timestamp
  repair_near_tip_backbone_if_due schedule s =
      unless_skipped (skipped_timestamp (calls.instant_now s) schedule) s

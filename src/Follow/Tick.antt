-- ===== src/Follow/Tick.antt =====
-- crates/mmm-producers/src/bitcoin_core_backbone/live.rs: the tick of the follow producer.
use merge_mining_monitor.Base.{
  Bool, Option, Result, err, false, if◌then◌else◌, none, not, ok, some, true, ℕ, ◌&&◌, ◌==◌,
}
use merge_mining_monitor.Base.Int.{ltb_ℤ}
use merge_mining_monitor.Base.Steps.{Step, ◌>>=◌, ◌>>◌}
use merge_mining_monitor.Follow.{
  FollowCalls, FollowProducer, FollowProgress, RepairSchedule, SyncStats,
  bookkeeping_failure_outcome_from, caught_up, fails_stop, forced, if_due,
  repair_near_tip_backbone_if_due, wait_after_live_tick,
}
use merge_mining_monitor.Live.{
  LiveFault, LiveProducer, TickOutcome, is_backbone_integrity_error, must_propagate,
}

-- an outcome that neither progresses nor completes
abbrev pub held_outcome : TickOutcome
held_outcome = record { progressed = false; idle_at_target = false; completed = false }

abbrev ok_of {ℓ} : {A : Type ℓ} → Result LiveFault A → Option A
ok_of (ok a) = some a
ok_of (err fault) = none

module _ {S : Type 0} (calls : FollowCalls S) where
  abbrev pub on_world : {A : Type 0} → Step S LiveFault A → Step (FollowProducer S) LiveFault A
  on_world call p = let (result, s) = call p.world in (result, record p { world = s })

  unfoldable pub kept :
      Result LiveFault (Option ℕ × Bool) × S
      → FollowProducer S
      → Result LiveFault Bool × FollowProducer S
  kept (ok (last, succeeded), s) p = (ok succeeded, record p { world = s; last_repair = last })
  kept (err fault, s) p = (err fault, record p { world = s })

  unfoldable pub repair_near_tip : RepairSchedule → Step (FollowProducer S) LiveFault Bool
  unfolding kept repair_near_tip_backbone_if_due
  repair_near_tip schedule p = kept (repair_near_tip_backbone_if_due calls schedule p.world) p

  -- `bookkeeping_failure_outcome`, which reads the progress and drops a fault of the read
  unfoldable pub bookkeeping_failure_outcome :
      Option FollowProgress → Step (FollowProducer S) LiveFault TickOutcome
  unfolding bookkeeping_failure_outcome_from
  bookkeeping_failure_outcome before p =
      let (result, s) = calls.load_progress p.world in
      (ok (bookkeeping_failure_outcome_from before (ok_of result)), record p { world = s })

  unfoldable pub drained_outcome :
      TickOutcome
      → Result LiveFault (Unit {0}) × FollowProducer S
      → Result LiveFault TickOutcome × FollowProducer S
  unfolding must_propagate
  drained_outcome outcome (ok done, p) = (ok outcome, p)
  drained_outcome outcome (err fault, p) =
      if must_propagate fault then (err fault, p) else (ok outcome, p)

  unfoldable pub finished_tick :
      FollowProgress
      → Bool
      → Result LiveFault FollowProgress × FollowProducer S
      → Result LiveFault TickOutcome × FollowProducer S
  unfolding bookkeeping_failure_outcome caught_up drained_outcome
  finished_tick before completed (err fault, p) = bookkeeping_failure_outcome (some before) p
  finished_tick before completed (ok later, p) =
      drained_outcome
        (record {
          progressed = ltb_ℤ before.contiguous_height later.contiguous_height;
          idle_at_target = caught_up later;
          completed = completed;
        })
        (on_world calls.drain_relationships p)

  unfoldable pub finish_tick : FollowProgress → Bool → Step (FollowProducer S) LiveFault TickOutcome
  unfolding finished_tick
  finish_tick before completed p = finished_tick before completed (on_world calls.load_progress p)

  -- `handle_header_cache_refresh_result`, and what follows it
  unfoldable pub refreshed :
      FollowProgress
      → Bool
      → Result LiveFault (Unit {0}) × FollowProducer S
      → Result LiveFault TickOutcome × FollowProducer S
  unfolding fails_stop bookkeeping_failure_outcome finish_tick
  refreshed before completed (ok done, p) = finish_tick before completed p
  refreshed before completed (err fault, p) =
      if fails_stop fault then (err fault, p) else bookkeeping_failure_outcome (some before) p

  unfoldable pub after_batch :
      FollowProgress
      → Result LiveFault SyncStats × FollowProducer S
      → Result LiveFault TickOutcome × FollowProducer S
  unfolding fails_stop refreshed
  after_batch before (ok stats, p) =
      refreshed before (stats.coinbase_failed == 0) (on_world calls.refresh_cache p)
  after_batch before (err fault, p) =
      if fails_stop fault
      then (err fault, p)
      else refreshed before false (on_world calls.refresh_cache p)

  unfoldable pub rerun : FollowProgress → Bool → Step (FollowProducer S) LiveFault TickOutcome
  unfolding after_batch
  rerun before true p = after_batch before (on_world calls.run_sync p)
  rerun before false p = (ok held_outcome, p)

  -- a batch that found a conflict of the backbone is repaired and run again
  unfoldable pub first_batch :
      FollowProgress
      → Result LiveFault SyncStats × FollowProducer S
      → Result LiveFault TickOutcome × FollowProducer S
  unfolding must_propagate repair_near_tip rerun after_batch
  first_batch before (ok stats, p) = after_batch before (ok stats, p)
  first_batch before (err fault, p) =
      if is_backbone_integrity_error fault && not (must_propagate fault)
      then (do repaired ← repair_near_tip forced; rerun before repaired) p
      else after_batch before (err fault, p)

  unfoldable pub after_repair :
      FollowProgress → Bool → Step (FollowProducer S) LiveFault TickOutcome
  unfolding first_batch
  after_repair before true p = first_batch before (on_world calls.run_sync p)
  after_repair before false p = (ok held_outcome, p)

  unfoldable pub after_progress :
      Result LiveFault FollowProgress × FollowProducer S
      → Result LiveFault TickOutcome × FollowProducer S
  unfolding bookkeeping_failure_outcome repair_near_tip after_repair
  after_progress (err fault, p) = bookkeeping_failure_outcome none p
  after_progress (ok before, p) =
      (do
        repaired ← repair_near_tip (if_due p.last_repair p.follow_interval)
        after_repair before repaired)
        p

  unfoldable pub after_drain :
      Result LiveFault (Unit {0}) × FollowProducer S
      → Result LiveFault TickOutcome × FollowProducer S
  unfolding must_propagate bookkeeping_failure_outcome after_progress
  after_drain (ok done, p) = after_progress (on_world calls.load_progress p)
  after_drain (err fault, p) =
      if must_propagate fault then (err fault, p) else bookkeeping_failure_outcome none p

  unfoldable pub ready_if_live : Step S LiveFault (Unit {0})
  ready_if_live s = if calls.is_live then calls.ready_tip s else (ok tt, s)

  unfoldable pub follow_tick : Step (FollowProducer S) LiveFault TickOutcome
  unfolding ready_if_live after_drain
  follow_tick = do on_world ready_if_live; λ p. after_drain (on_world calls.drain_core_queue p)

  unfoldable pub follow_wait :
      FollowProducer S → Result LiveFault TickOutcome → Result LiveFault ℕ × FollowProducer S
  unfolding wait_after_live_tick
  follow_wait p (ok outcome) =
      let (result, stall) = wait_after_live_tick outcome p.stall p.follow_interval in
      (result, record p { stall = stall })
  follow_wait p (err fault) = (err fault, p)

  -- `impl LiveProducer for BitcoinCoreLiveProducer`
  unfoldable pub live_follower : LiveProducer (FollowProducer S)
  unfolding follow_tick follow_wait
  live_follower = record {
    normal_interval = λ p. p.follow_interval;
    tick = follow_tick;
    wait_after_tick = follow_wait;
  }

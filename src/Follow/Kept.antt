-- ===== src/Follow/Kept.antt =====
-- crates/mmm-producers/src/bitcoin_core_backbone/live.rs: a tick leaves the stall count to its wait.
use merge_mining_monitor.Base.{
  Bool, Option, Result, err, false, if◌then◌else◌, none, not, ok, refl, some, true, ℕ, ◌&&◌, ◌≡◌,
}
use merge_mining_monitor.Base.Steps.{after-Keeps}
use merge_mining_monitor.Follow.{
  FollowCalls, FollowProducer, FollowProgress, RepairSchedule, SyncStats, fails_stop, forced,
  if_due,
}
use merge_mining_monitor.Follow.Tick.{
  after_batch, after_drain, after_progress, after_repair, bookkeeping_failure_outcome,
  drained_outcome, finish_tick, finished_tick, first_batch, follow_tick, kept, on_world,
  ready_if_live, refreshed, repair_near_tip, rerun,
}
use merge_mining_monitor.Live.{LiveFault, TickOutcome, is_backbone_integrity_error, must_propagate}

abbrev HasStall : {S A : Type 0} → ℕ → Result LiveFault A × FollowProducer S → Type 0
HasStall n r = r.1.stall ≡ n

HasStall-if :
    {S A : Type 0} (n : ℕ) (t : Bool) (a b : Result LiveFault A × FollowProducer S)
    → HasStall n a
    → HasStall n b
    → HasStall n (if t then a else b)
HasStall-if n true a b ha hb = ha
HasStall-if n false a b ha hb = hb

module _ {S : Type 0} (calls : FollowCalls S) (n : ℕ) where
  bookkeeping_stall :
      (before : Option FollowProgress) (p : FollowProducer S)
      → p.stall ≡ n
      → HasStall n (bookkeeping_failure_outcome calls before p)
  unfolding bookkeeping_failure_outcome
  bookkeeping_stall before p h = h

  kept_stall :
      (r : Result LiveFault (Option ℕ × Bool) × S) (p : FollowProducer S)
      → p.stall ≡ n
      → HasStall n (kept calls r p)
  unfolding kept
  kept_stall (ok (last, succeeded), s) p h = h
  kept_stall (err fault, s) p h = h

  repair_stall :
      (schedule : RepairSchedule) (p : FollowProducer S)
      → p.stall ≡ n
      → HasStall n (repair_near_tip calls schedule p)
  unfolding repair_near_tip
  repair_stall schedule p h = kept_stall _ p h

  drained_stall :
      (outcome : TickOutcome) (r : Result LiveFault (Unit {0}) × FollowProducer S)
      → HasStall n r
      → HasStall n (drained_outcome calls outcome r)
  unfolding drained_outcome
  drained_stall outcome (ok done, p) h = h
  drained_stall outcome (err fault, p) h = HasStall-if n (must_propagate fault) _ _ h h

  finished_stall :
      (before : FollowProgress) (completed : Bool)
      (r : Result LiveFault FollowProgress × FollowProducer S)
      → HasStall n r
      → HasStall n (finished_tick calls before completed r)
  unfolding finished_tick
  finished_stall before completed (err fault, p) h = bookkeeping_stall (some before) p h
  finished_stall before completed (ok later, p) h = drained_stall _ _ h

  refreshed_stall :
      (before : FollowProgress) (completed : Bool)
      (r : Result LiveFault (Unit {0}) × FollowProducer S)
      → HasStall n r
      → HasStall n (refreshed calls before completed r)
  unfolding refreshed finish_tick
  refreshed_stall before completed (ok done, p) h = finished_stall before completed _ h
  refreshed_stall before completed (err fault, p) h =
      HasStall-if n (fails_stop fault) _ _ h (bookkeeping_stall (some before) p h)

  after_batch_stall :
      (before : FollowProgress) (r : Result LiveFault SyncStats × FollowProducer S)
      → HasStall n r
      → HasStall n (after_batch calls before r)
  unfolding after_batch
  after_batch_stall before (ok stats, p) h = refreshed_stall before _ _ h
  after_batch_stall before (err fault, p) h =
      HasStall-if n (fails_stop fault) _ _ h (refreshed_stall before false _ h)

  rerun_stall :
      (before : FollowProgress) (succeeded : Bool) (p : FollowProducer S)
      → p.stall ≡ n
      → HasStall n (rerun calls before succeeded p)
  unfolding rerun
  rerun_stall before true p h = after_batch_stall before _ h
  rerun_stall before false p h = h

  first_batch_stall :
      (before : FollowProgress) (r : Result LiveFault SyncStats × FollowProducer S)
      → HasStall n r
      → HasStall n (first_batch calls before r)
  unfolding first_batch
  first_batch_stall before (ok stats, p) h = after_batch_stall before (ok stats, p) h
  first_batch_stall before (err fault, p) h =
      HasStall-if n (is_backbone_integrity_error fault && not (must_propagate fault)) _ _
        (after-Keeps (λ q. q.stall ≡ n) (repair_near_tip calls forced p) (rerun calls before)
          (repair_stall forced p h) (λ repaired e h'. rerun_stall before repaired _ h'))
        (after_batch_stall before (err fault, p) h)

  after_repair_stall :
      (before : FollowProgress) (succeeded : Bool) (p : FollowProducer S)
      → p.stall ≡ n
      → HasStall n (after_repair calls before succeeded p)
  unfolding after_repair
  after_repair_stall before true p h = first_batch_stall before _ h
  after_repair_stall before false p h = h

  after_progress_stall :
      (r : Result LiveFault FollowProgress × FollowProducer S)
      → HasStall n r
      → HasStall n (after_progress calls r)
  unfolding after_progress
  after_progress_stall (err fault, p) h = bookkeeping_stall none p h
  after_progress_stall (ok before, p) h =
      after-Keeps (λ q. q.stall ≡ n)
        (repair_near_tip calls (if_due p.last_repair p.follow_interval) p)
        (after_repair calls before) (repair_stall (if_due p.last_repair p.follow_interval) p h)
        (λ repaired e h'. after_repair_stall before repaired _ h')

  after_drain_stall :
      (r : Result LiveFault (Unit {0}) × FollowProducer S)
      → HasStall n r
      → HasStall n (after_drain calls r)
  unfolding after_drain
  after_drain_stall (ok done, p) h = after_progress_stall _ h
  after_drain_stall (err fault, p) h =
      HasStall-if n (must_propagate fault) _ _ h (bookkeeping_stall none p h)

-- A tick changes no stall count, whatever its calls answer.
pub follow_tick_stall :
    {S : Type 0} (calls : FollowCalls S) (p : FollowProducer S)
    → (follow_tick calls p).1.stall ≡ p.stall
unfolding follow_tick
follow_tick_stall calls p =
    after-Keeps (λ q. q.stall ≡ p.stall) (on_world calls (ready_if_live calls) p) _ refl
      (λ done e h. after_drain_stall calls p.stall (on_world calls calls.drain_core_queue _) h)

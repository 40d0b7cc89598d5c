-- ===== src/Examples/Followed.antt =====
-- A follow producer that makes no progress, and a contiguous prefix that stops at a gap.
use mathlib.Core.Path.{subst}
use merge_mining_monitor.Backbone.{
  BackboneTip, CanonicalRow, advance_contiguous_complete_prefix, rows_at_height,
}
use merge_mining_monitor.Backbone.Prefix.{AdvanceOf, advance_contiguous_complete_prefix-AdvanceOf}
use merge_mining_monitor.Base.{
  List, [], arith, bytes_eq, err, false, none, ok, refl, some, suc, true, zero, ℕ, ◌+◌, ◌∷◌, ◌≡◌,
}
use merge_mining_monitor.Base.Int.{negsuc, pos, ℤ, ◌+ℤ◌, ◌-ℤ◌}
use merge_mining_monitor.Base.Steps.{after}
use merge_mining_monitor.Examples.Backboned.{row_of}
use merge_mining_monitor.Follow.{
  FollowCalls, FollowProducer, FollowProgress, SyncStats, repair_near_tip_backbone_if_due,
  stalled_fault,
}
use merge_mining_monitor.Follow.Faults.{OnlyStops}
use merge_mining_monitor.Follow.Runs.{StopsRun, Supervised, fresh, Supervised-StopsRun, ticked}
use merge_mining_monitor.Follow.Tick.{follow_tick, live_follower}
use merge_mining_monitor.Live.{CycleState, TickOutcome, paired, pending_cycle, round}

abbrev below_tip : FollowProgress
below_tip = record { contiguous_height = pos 5; target_tip_height = some (pos 9) }

abbrev no_stats : SyncStats
no_stats = record { attempted = 0; sync_completed = 0; skipped_complete = 0; coinbase_failed = 0 }

abbrev nine : BackboneTip
nine = record { tip_height = pos 9; tip_hash = 90 ∷ [] }

-- every call succeeds, and the progress stays below the tip
abbrev idle_calls : FollowCalls ℕ
idle_calls = record {
  is_live = true;
  ready_tip = λ s. (ok tt, s);
  drain_core_queue = λ s. (ok tt, s);
  load_progress = λ s. (ok below_tip, s);
  capture_target = λ s. (ok nine, s);
  repair_to_target = λ target s. (ok no_stats, s);
  verify_window = λ target s. (ok tt, s);
  accept_target = λ target s. (ok tt, s);
  retried = λ s. s;
  run_sync = λ s. (ok no_stats, s + 1);
  refresh_cache = λ s. (ok tt, s);
  drain_relationships = λ s. (ok tt, s);
  instant_now = λ s. s;
}

always_ready : (s : ℕ) → OnlyStops (idle_calls.ready_tip s)
always_ready s fault e = cc

-- the producer behind so many rounds, the first of which repairs the tip at the instant 0
abbrev stalled_times : ℕ → FollowProducer ℕ
stalled_times zero = record { world = 0; stall = 0; last_repair = none; follow_interval = 1000 }
stalled_times (suc n) = record {
  world = suc n;
  stall = suc n;
  last_repair = some 0;
  follow_interval = 1000;
}

abbrev no_move : TickOutcome
no_move = record { progressed = false; idle_at_target = false; completed = true }

abbrev no_moves : ℕ → List TickOutcome
no_moves zero = []
no_moves (suc n) = no_move ∷ no_moves n

abbrev paced_round : CycleState × ℕ
paced_round = (pending_cycle "producer_no_progress", 1000)

abbrev ticked_times : ℕ → FollowProducer ℕ
ticked_times n = record (stalled_times (suc n)) { stall = n }

first_round : Supervised idle_calls (stalled_times 1) (no_moves 1)
unfolding round live_follower paired follow_tick after repair_near_tip_backbone_if_due ◌+ℤ◌
first_round =
    ticked {p = stalled_times 0} {p' = ticked_times 0} {paced = paced_round} (fresh refl) refl refl

second_round : Supervised idle_calls (stalled_times 2) (no_moves 2)
unfolding round live_follower paired follow_tick after repair_near_tip_backbone_if_due ◌+ℤ◌
second_round =
    ticked {p = stalled_times 1} {p' = ticked_times 1} {paced = paced_round} first_round refl refl

third_round : Supervised idle_calls (stalled_times 3) (no_moves 3)
unfolding round live_follower paired follow_tick after repair_near_tip_backbone_if_due ◌+ℤ◌
third_round =
    ticked {p = stalled_times 2} {p' = ticked_times 2} {paced = paced_round} second_round refl refl

fourth_round : Supervised idle_calls (stalled_times 4) (no_moves 4)
unfolding round live_follower paired follow_tick after repair_near_tip_backbone_if_due ◌+ℤ◌
fourth_round =
    ticked {p = stalled_times 3} {p' = ticked_times 3} {paced = paced_round} third_round refl refl

fifth_stops :
    (round (live_follower idle_calls) (follow_tick idle_calls (stalled_times 4))).0
    ≡ err stalled_fault
unfolding round live_follower paired follow_tick after repair_near_tip_backbone_if_due ◌+ℤ◌
fifth_stops = refl

Supervised-StopsRun_example : StopsRun idle_calls (stalled_times 4) (no_moves 4) stalled_fault
Supervised-StopsRun_example =
    Supervised-StopsRun idle_calls always_ready (stalled_times 4) (no_moves 4) stalled_fault
      fourth_round fifth_stops

abbrev gapped : ℤ → List CanonicalRow
gapped h = rows_at_height (row_of (pos 0) 1 0 ∷ row_of (pos 1) 11 1 ∷ row_of (pos 3) 31 21 ∷ []) h

gapped_advance : advance_contiguous_complete_prefix gapped (negsuc 0) ≡ pos 1
unfolding advance_contiguous_complete_prefix rows_at_height ◌+ℤ◌ ◌-ℤ◌ bytes_eq
gapped_advance = refl

advance_contiguous_complete_prefix-AdvanceOf_example : AdvanceOf gapped (negsuc 0) (pos 1)
advance_contiguous_complete_prefix-AdvanceOf_example =
    subst (AdvanceOf gapped (negsuc 0)) gapped_advance (
      advance_contiguous_complete_prefix-AdvanceOf gapped (negsuc 0) (omega arith)
        (unfold ◌+ℤ◌ in (omega arith)))

-- ===== src/Reorg/Rounds.antt =====
-- crates/mmm-producers/src/bitcoin_core_backbone/reorg.rs: the repair of the cursor and the loop.
use merge_mining_monitor.Backbone.{
  BackboneTip, CanonicalRow, CoreViewRow, RepairPlan, RepairPlanError, no_hash_conflict,
  plan_repair, replace_from,
}
use merge_mining_monitor.Backbone.Repair.{
  capture_core_view, capture_cursor_recovery_view, core_view_start_height,
  cursor_recovery_target_before_view, validate_target_bounds,
}
use merge_mining_monitor.Base.{
  Bool, List, Option, Result, err, false, if◌then◌else◌, none, ok, some, suc, true, zero, ℕ, ◌&&◌,
  ◌||◌,
}
use merge_mining_monitor.Base.Int.{leb_ℤ, ltb_ℤ, pos, ℤ}
use merge_mining_monitor.Base.Steps.{Step, returned, ◌>>=◌, ◌>>◌}
use merge_mining_monitor.Bitcoin.{Library}
use merge_mining_monitor.Follow.{SyncStats}
use merge_mining_monitor.Live.{LiveFault, local_recovery}
use merge_mining_monitor.Reorg.{
  CursorOutcome, ReorgFault, RepairCalls, RoundEnd, add_stats, again, changed_repeatedly, fails,
  finished, is_height_conflict, live_fault, look, not_needed, on_world, plan_fault, raised,
  recorded, replace_planned_suffix, replaced, replan, unless_recorded, verify_target_stable,
}

module _ (lib : Library) {W : Type 0} (calls : RepairCalls W) (window_heights : ℤ)
    (target : BackboneTip) where
  unfoldable pub cursor_target : ℤ → ℤ → Step W ReorgFault (Option BackboneTip)
  unfolding unless_recorded cursor_recovery_target_before_view raised
  cursor_target cursor view_start =
      if ltb_ℤ cursor (pos 0) || leb_ℤ view_start cursor then returned none else (do
        rows ← on_world lib calls (calls.load_rows cursor cursor)
        look lib calls
            (λ core. cursor_recovery_target_before_view core (λ height. rows) cursor view_start))

  unfoldable pub cursor_planned :
      ℤ
      → List CoreViewRow
      → List CanonicalRow
      → Result RepairPlanError RepairPlan
      → Step W ReorgFault CursorOutcome
  unfolding replace_planned_suffix recorded
  cursor_planned cursor view rows (err fault) = recorded lib calls (plan_fault fault)
  cursor_planned cursor view rows (ok no_hash_conflict) = returned replan
  cursor_planned cursor view rows (ok (replace_from first)) = do
    stats ← replace_planned_suffix lib calls target cursor view rows first
    returned (replaced stats)

  unfoldable pub cursor_repaired : ℤ → Option BackboneTip → Step W ReorgFault CursorOutcome
  unfolding cursor_planned unless_recorded verify_target_stable raised capture_cursor_recovery_view
      plan_repair
  cursor_repaired cursor none = returned not_needed
  cursor_repaired cursor (some left) = do
    let start = core_view_start_height left.tip_height window_heights
    rows ← on_world lib calls (calls.load_rows start left.tip_height)
    view ← look lib calls (λ core. capture_cursor_recovery_view lib core left start rows)
    verify_target_stable lib calls target
    verify_target_stable lib calls left
    cursor_planned cursor view rows (plan_repair view rows)

  unfoldable pub repair_cursor_before_view : ℤ → ℤ → Step W ReorgFault CursorOutcome
  unfolding cursor_target cursor_repaired
  repair_cursor_before_view cursor view_start = do
    left ← cursor_target cursor view_start
    cursor_repaired cursor left

  -- A conflict that only the repair of the gaps meets is planned once more.
  unfoldable pub gaps_filled :
      Bool → Bool → SyncStats → Result LiveFault SyncStats × W → Result ReorgFault RoundEnd × W
  unfolding is_height_conflict add_stats
  gaps_filled may_gap may_race sum (ok stats, w) = (ok (finished (add_stats sum stats)), w)
  gaps_filled may_gap may_race sum (err fault, w) =
      if may_gap && is_height_conflict fault
      then (ok (again false may_race sum), w)
      else (err (live_fault fault), w)

  unfoldable pub suffix_planned :
      Bool
      → Bool
      → SyncStats
      → ℤ
      → List CoreViewRow
      → List CanonicalRow
      → Result RepairPlanError RepairPlan
      → Step W ReorgFault RoundEnd
  unfolding gaps_filled replace_planned_suffix recorded raised add_stats
  suffix_planned may_gap may_race sum cursor view rows (err fault) =
      recorded lib calls (plan_fault fault)
  suffix_planned may_gap may_race sum cursor view rows (ok no_hash_conflict) =
      λ w. gaps_filled may_gap may_race sum (calls.repair_gaps target w)
  suffix_planned may_gap may_race sum cursor view rows (ok (replace_from first)) = do
    replacement_stats ← replace_planned_suffix lib calls target cursor view rows first
    gap_stats ← on_world lib calls (calls.repair_gaps target)
    returned (finished (add_stats sum (add_stats replacement_stats gap_stats)))

  unfoldable pub view_repaired : Bool → Bool → SyncStats → ℤ → Step W ReorgFault RoundEnd
  unfolding suffix_planned unless_recorded verify_target_stable raised capture_core_view plan_repair
  view_repaired may_gap may_race sum cursor = do
    view ← look lib calls (λ core. capture_core_view lib core target window_heights)
    verify_target_stable lib calls target
    rows ← on_world lib calls (
        calls.load_rows (core_view_start_height target.tip_height window_heights) target.tip_height)
    suffix_planned may_gap may_race sum cursor view rows (plan_repair view rows)

  unfoldable pub behind_cursor :
      Bool → Bool → SyncStats → ℤ → CursorOutcome → Step W ReorgFault RoundEnd
  unfolding view_repaired add_stats
  behind_cursor may_gap may_race sum cursor not_needed = view_repaired may_gap may_race sum cursor
  behind_cursor may_gap may_race sum cursor replan =
      if may_race then returned (again may_gap false sum) else fails changed_repeatedly
  behind_cursor may_gap may_race sum cursor (replaced stats) =
      if calls.is_live
      then fails (live_fault (local_recovery "core_cursor_recovery_pending"))
      else returned (again may_gap may_race (add_stats sum stats))

  -- one pass of the loop, with what may still be planned again, and the statistics so far
  unfoldable pub repair_round : Bool → Bool → SyncStats → Step W ReorgFault RoundEnd
  unfolding behind_cursor repair_cursor_before_view unless_recorded validate_target_bounds raised
  repair_round may_gap may_race sum = do
    state ← on_world lib calls calls.load_state
    unless_recorded lib calls (validate_target_bounds target state.0 state.1)
    outcome ←
        repair_cursor_before_view state.0 (core_view_start_height target.tip_height window_heights)
    behind_cursor may_gap may_race sum state.0 outcome

  unfoldable pub resumed :
      (Bool → Bool → SyncStats → W → Option (Result ReorgFault SyncStats × W))
      → Result ReorgFault RoundEnd × W
      → Option (Result ReorgFault SyncStats × W)
  resumed next (ok (finished stats), w) = some (ok stats, w)
  resumed next (ok (again may_gap may_race sum), w) = next may_gap may_race sum w
  resumed next (err fault, w) = some (err fault, w)

  -- the loop, over at most `n` rounds
  unfoldable pub repair_rounds :
      ℕ → Bool → Bool → SyncStats → W → Option (Result ReorgFault SyncStats × W)
  unfolding resumed repair_round
  repair_rounds zero may_gap may_race sum w = none
  repair_rounds (suc n) may_gap may_race sum w =
      resumed (repair_rounds n) (repair_round may_gap may_race sum w)

  unfoldable pub repair_near_tip_backbone_to_target :
      ℕ → W → Option (Result ReorgFault SyncStats × W)
  unfolding repair_rounds
  repair_near_tip_backbone_to_target n =
      repair_rounds n true true
        (record { attempted = 0; sync_completed = 0; skipped_complete = 0; coinbase_failed = 0 })

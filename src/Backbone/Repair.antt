-- ===== src/Backbone/Repair.antt =====
-- crates/mmm-producers/src/bitcoin_core_backbone/reorg.rs: the view that is captured from Core, and the
-- checks before it. The answers of Core and the rows of the store are arguments.
use merge_mining_monitor.Backbone.{
  BackboneTip, CanonicalRow, CoreViewRow, is_anchor, is_complete, live_backbone_window_start_height,
}
use merge_mining_monitor.Base.{
  Bool, List, Option, Result, [], bytes_eq, ensure, err, false, if◌then◌else◌, none, not, ok, some,
  suc, true, zero, ℕ, ◌>>=◌, ◌>>◌, ◌||◌, ◌∷◌,
}
use merge_mining_monitor.Base.Int.{eqb_ℤ, leb_ℤ, ltb_ℤ, pos, pos_part, ℤ, ◌+ℤ◌, ◌-ℤ◌}
use merge_mining_monitor.Base.Ranges.{saturate_i32}
use merge_mining_monitor.Base.Words.{Bytes}
use merge_mining_monitor.Bitcoin.{Header, Library}
use merge_mining_monitor.Live.{LiveFault}
use merge_mining_monitor.Nbits.{max_ℤ}

-- `BitcoinCoreBackboneSource`, at one time
pub record BackboneSource : Type 0 where
  pub core_tip : Result LiveFault BackboneTip
  pub core_hash : ℤ → Result LiveFault Bytes
  pub core_header : Bytes → Result LiveFault Header

-- a failed call, or the reason that is recorded, with its height
pub data RepairFault : Type 0 where
  failed_call : LiveFault → RepairFault
  wrong_header target_below_cursor target_regressed : ℤ → RepairFault
  cursor_row_invalid cursor_row_incomplete : ℤ → RepairFault

-- `?` on a call of Core
unfoldable pub called {ℓ} : {A : Type ℓ} → Result LiveFault A → Result RepairFault A
called (ok a) = ok a
called (err fault) = err (failed_call fault)

unfoldable pub continued :
    (Bytes → List CoreViewRow → Result RepairFault (List CoreViewRow))
    → CoreViewRow
    → List CoreViewRow
    → Bool
    → Result RepairFault (List CoreViewRow)
continued later row view true = ok (row ∷ view)
continued later row view false = later row.view_header.prev_blockhash (row ∷ view)

module _ (lib : Library) (source : BackboneSource) (stop : CoreViewRow → Bool) where
  -- The loop down from `h`, over `count` heights. It pushes each row on what it has and reverses that
  -- in the end, so the rows stand here in the order of their heights.
  unfoldable pub capture_rows :
      ℕ → ℤ → Bytes → List CoreViewRow → Result RepairFault (List CoreViewRow)
  unfolding called continued
  capture_rows zero h requested view = ok view
  capture_rows (suc count) h requested view = do
    header ← called (source.core_header requested)
    ensure (bytes_eq (lib.block_hash header) requested) (wrong_header h)
    let row : CoreViewRow = record {
      view_height = h;
      view_hash = lib.block_hash header;
      view_header = header;
    }
    continued (capture_rows count (h -ℤ pos 1)) row view (stop row)

  unfoldable pub capture_core_view_until : BackboneTip → ℤ → Result RepairFault (List CoreViewRow)
  unfolding capture_rows
  capture_core_view_until target view_start =
      capture_rows (pos_part (target.tip_height +ℤ pos 1 -ℤ view_start)) target.tip_height
        target.tip_hash []

unfoldable pub core_view_start_height : ℤ → ℤ → ℤ
unfolding live_backbone_window_start_height saturate_i32
core_view_start_height tip_height window_heights =
    max_ℤ (saturate_i32 (live_backbone_window_start_height tip_height window_heights -ℤ pos 1))
      (pos 0)

unfoldable pub capture_core_view :
    Library → BackboneSource → BackboneTip → ℤ → Result RepairFault (List CoreViewRow)
unfolding capture_core_view_until core_view_start_height
capture_core_view lib source target window_heights =
    capture_core_view_until lib source (λ row. false) target
      (core_view_start_height target.tip_height window_heights)

unfoldable pub capture_cursor_recovery_view :
    Library
    → BackboneSource
    → BackboneTip
    → ℤ
    → List CanonicalRow
    → Result RepairFault (List CoreViewRow)
unfolding capture_core_view_until is_anchor
capture_cursor_recovery_view lib source target view_start rows =
    capture_core_view_until lib source (is_anchor rows) target view_start

-- the two ways in which a captured target may have gone
pub data StabilityFailure : Type 0 where
  height_regressed hash_moved : ℤ → StabilityFailure

unfoldable pub target_hash_now : BackboneSource → BackboneTip → BackboneTip → Result LiveFault Bytes
target_hash_now source target current =
    if eqb_ℤ current.tip_height target.tip_height
    then ok current.tip_hash
    else source.core_hash target.tip_height

unfoldable pub target_stability_failure :
    BackboneSource → BackboneTip → Result LiveFault (Option StabilityFailure)
unfolding target_hash_now
target_stability_failure source target = do
  current ← source.core_tip
  if ltb_ℤ current.tip_height target.tip_height
      then ok (some (height_regressed target.tip_height))
      else (do
        hash ← target_hash_now source target current
        ok (if bytes_eq hash target.tip_hash then none else some (hash_moved target.tip_height)))

abbrev above_target : Option ℤ → ℤ → Bool
above_target none height = false
above_target (some previous) height = ltb_ℤ height previous

unfoldable pub validate_target_bounds : BackboneTip → ℤ → Option ℤ → Result RepairFault (Unit {0})
validate_target_bounds target contiguous_complete_height persisted_target_height = do
  ensure (not (ltb_ℤ target.tip_height contiguous_complete_height))
      (target_below_cursor target.tip_height)
  ensure (not (above_target persisted_target_height target.tip_height))
      (target_regressed target.tip_height)

any_complete : List CanonicalRow → Bool
unfolding is_complete
any_complete [] = false
any_complete (r ∷ rs) = is_complete r || any_complete rs

only_hash : List CanonicalRow → Bytes → Bool
only_hash (r ∷ []) hash = bytes_eq r.hash hash
only_hash _ hash = false

is_empty : List CanonicalRow → Bool
is_empty [] = true
is_empty (r ∷ rs) = false

-- the target that a cursor below the view is repaired to, if it left Core's chain
unfoldable pub cursor_recovery_target_before_view :
    BackboneSource → (ℤ → List CanonicalRow) → ℤ → ℤ → Result RepairFault (Option BackboneTip)
unfolding any_complete only_hash is_empty called
cursor_recovery_target_before_view source load cursor view_start =
    if ltb_ℤ cursor (pos 0) || leb_ℤ view_start cursor then ok none else (do
      let rows = load cursor
      ensure (not (is_empty rows)) (cursor_row_invalid cursor)
      ensure (any_complete rows) (cursor_row_incomplete cursor)
      active ← called (source.core_hash cursor)
      ok (
          if only_hash rows active
          then none
          else some (record { tip_height = cursor; tip_hash = active })))

-- ===== src/Reorg.antt =====
-- crates/mmm-producers/src/bitcoin_core_backbone/reorg.rs: the repair of a suffix that Bitcoin Core left.
-- A call of the store, and the transaction of the suffix, are steps on the world `W`. Core is looked at
-- at one time: `core` has its answers then, and `elapse` is what happens by the next call. A pause
-- between two calls is a part of that.
pub mod Rounds
pub mod Ends
pub mod Stands
pub mod Switch
use merge_mining_monitor.Backbone.{
  BackboneTip, CanonicalRow, CoreViewRow, RepairPlanError, height_at,
}
use merge_mining_monitor.Backbone.Repair.{
  BackboneSource, RepairFault, StabilityFailure, failed_call, target_stability_failure,
  wrong_header,
}
use merge_mining_monitor.Base.{
  Bool, List, Option, Result, [], bytes_eq, drop, err, false, if◌then◌else◌, length, none, ok, some,
  true, ℕ, ◌&&◌, ◌+◌, ◌-◌, ◌∷◌,
}
use merge_mining_monitor.Base.Int.{eqb_ℤ, pos, ℤ}
use merge_mining_monitor.Base.Steps.{Step, returned, ◌>>=◌, ◌>>◌}
use merge_mining_monitor.Base.Words.{Bytes}
use merge_mining_monitor.Bitcoin.{Header, Library}
use merge_mining_monitor.Follow.{SyncStats}
use merge_mining_monitor.Live.{LiveFault, backbone_integrity, height_conflict}

pub data ReorgFault : Type 0 where
  live_fault : LiveFault → ReorgFault
  repair_fault : RepairFault → ReorgFault
  target_moved : StabilityFailure → ReorgFault
  plan_fault : RepairPlanError → ReorgFault
  changed_repeatedly : ReorgFault

-- `CoreCanonicalReplacement`
pub record SuffixRow : Type 0 where
  pub suffix_height : ℤ
  pub suffix_header : Header
  pub suffix_coinbase : Bytes

-- `ExpectedCoreCanonicalRow`
pub record ExpectedRow : Type 0 where
  pub expected_height : ℤ
  pub expected_hash : Bytes
  pub expected_prev_hash : Bytes

unfoldable pub expected_local_rows : List CanonicalRow → List ExpectedRow
expected_local_rows [] = []
expected_local_rows (row ∷ rows) =
    record {
      expected_height = row.height;
      expected_hash = row.hash;
      expected_prev_hash = row.prev_hash;
    }
    ∷ expected_local_rows rows

-- what `replace_core_canonical_suffix_validated` takes
pub record SuffixInput : Type 0 where
  pub expected_contiguous_height : ℤ
  pub common_ancestor_height : ℤ
  pub expected_local : List ExpectedRow
  pub replacements : List SuffixRow
  pub pending_sync_target : BackboneTip

pub record RepairCalls (W : Type 0) : Type 0 where
  pub core : W → BackboneSource
  pub elapse : W → W
  pub is_live : Bool
  -- the contiguous cursor, and the target that is kept
  pub load_state : Step W LiveFault (ℤ × Option ℤ)
  pub load_rows : ℤ → ℤ → Step W LiveFault (List CanonicalRow)
  pub record_failure : ReorgFault → Step W LiveFault (Unit {0})
  pub block_coinbase : Bytes → Step W LiveFault Bytes
  pub repair_gaps : BackboneTip → Step W LiveFault SyncStats
  pub drain_core_queue : Step W LiveFault (Unit {0})
  -- the parts of the transaction, up to its locks, up to its end, and its two ends
  pub begin_switch : SuffixInput → Step W LiveFault (Unit {0})
  pub write_switch : SuffixInput → Step W LiveFault (Unit {0})
  pub commit_switch : Step W LiveFault (Unit {0})
  pub roll_back : W → W

unfoldable pub add_stats : SyncStats → SyncStats → SyncStats
add_stats left right = record {
  attempted = left.attempted + right.attempted;
  sync_completed = left.sync_completed + right.sync_completed;
  skipped_complete = left.skipped_complete + right.skipped_complete;
  coinbase_failed = left.coinbase_failed + right.coinbase_failed;
}

unfoldable pub same_tip : BackboneTip → BackboneTip → Bool
same_tip a b = eqb_ℤ a.tip_height b.tip_height && bytes_eq a.tip_hash b.tip_hash

-- the tip of a view that has a row
unfoldable pub last_tip : Library → BackboneTip → List CoreViewRow → BackboneTip
last_tip lib tip [] = tip
last_tip lib tip (row ∷ view) =
    last_tip lib
      (record { tip_height = row.view_height; tip_hash = lib.block_hash row.view_header }) view

unfoldable pub is_height_conflict : LiveFault → Bool
is_height_conflict (backbone_integrity height_conflict) = true
is_height_conflict _ = false

-- the failures that go into the store
unfoldable pub is_recorded : RepairFault → Bool
is_recorded (failed_call fault) = false
is_recorded (wrong_header height) = false
is_recorded _ = true

pub data CursorOutcome : Type 0 where
  not_needed replan : CursorOutcome
  replaced : SyncStats → CursorOutcome

-- how a round of the loop ends: with the result, or with what the next round starts with
pub data RoundEnd : Type 0 where
  finished : SyncStats → RoundEnd
  again : Bool → Bool → SyncStats → RoundEnd

abbrev pub fails : {W A : Type 0} → ReorgFault → Step W ReorgFault A
fails fault w = (err fault, w)

unfoldable pub raised : {W A : Type 0} → Result LiveFault A × W → Result ReorgFault A × W
raised (ok a, w) = (ok a, w)
raised (err fault, w) = (err (live_fault fault), w)

unfoldable pub stability : Result LiveFault (Option StabilityFailure) → Result ReorgFault (Unit {0})
stability (ok none) = ok tt
stability (ok (some failure)) = err (target_moved failure)
stability (err fault) = err (live_fault fault)

module _ (lib : Library) {W : Type 0} (calls : RepairCalls W) where
  abbrev pub on_world : {A : Type 0} → Step W LiveFault A → Step W ReorgFault A
  unfolding raised
  on_world m w = raised (m w)

  -- the error, after it is put into the store
  unfoldable pub recorded : {A : Type 0} → ReorgFault → Step W ReorgFault A
  unfolding raised
  recorded fault = on_world (calls.record_failure fault) >> fails fault

  unfoldable pub unless_recorded : {A : Type 0} → Result RepairFault A → Step W ReorgFault A
  unfolding recorded is_recorded
  unless_recorded (ok a) = returned a
  unless_recorded (err (failed_call fault)) = fails (live_fault fault)
  unless_recorded (err fault) =
      if is_recorded fault then recorded (repair_fault fault) else fails (repair_fault fault)

  abbrev pub look : {A : Type 0} → (BackboneSource → Result RepairFault A) → Step W ReorgFault A
  unfolding unless_recorded
  look ask w = unless_recorded (ask (calls.core w)) (calls.elapse w)

  unfoldable pub target_unmoved : BackboneTip → Step W ReorgFault (Unit {0})
  unfolding stability target_stability_failure
  target_unmoved target w =
      (stability (target_stability_failure (calls.core w) target), calls.elapse w)

  unfoldable pub persisted : {A : Type 0} → Result ReorgFault A × W → Result ReorgFault A × W
  unfolding recorded
  persisted (err (target_moved failure), w) = recorded (target_moved failure) w
  persisted (answer, w) = (answer, w)

  unfoldable pub verify_target_stable : BackboneTip → Step W ReorgFault (Unit {0})
  unfolding persisted target_unmoved
  verify_target_stable target w = persisted (target_unmoved target w)

  unfoldable pub validate_targets : BackboneTip → BackboneTip → Step W ReorgFault (Unit {0})
  unfolding target_unmoved same_tip
  validate_targets target replacement =
      target_unmoved target
      >> (if same_tip replacement target then returned tt else target_unmoved replacement)

  unfoldable pub in_transaction :
      BackboneTip → BackboneTip → SuffixInput → Step W ReorgFault (Unit {0})
  unfolding validate_targets raised
  in_transaction target replacement input = do
    on_world (calls.begin_switch input)
    validate_targets target replacement
    on_world (calls.write_switch input)
    validate_targets target replacement
    on_world calls.commit_switch

  unfoldable pub unless_committed : {A : Type 0} → Result ReorgFault A × W → Result ReorgFault A × W
  unless_committed (ok a, w) = (ok a, w)
  unless_committed (err fault, w) = (err fault, calls.roll_back w)

  unfoldable pub fetch_replacements : List CoreViewRow → Step W ReorgFault (List SuffixRow)
  unfolding raised
  fetch_replacements [] = returned []
  fetch_replacements (row ∷ view) = do
    coinbase ← on_world (calls.block_coinbase (lib.block_hash row.view_header))
    later ← fetch_replacements view
    returned (
        record {
          suffix_height = row.view_height;
          suffix_header = row.view_header;
          suffix_coinbase = coinbase;
        }
        ∷ later)

  abbrev pub replaced_stats : ℕ → SyncStats
  replaced_stats n = record {
    attempted = n;
    sync_completed = n;
    skipped_complete = 0;
    coinbase_failed = 0;
  }

  unfoldable pub replace_planned_suffix :
      BackboneTip → ℤ → List CoreViewRow → List CanonicalRow → ℕ → Step W ReorgFault SyncStats
  unfolding fetch_replacements verify_target_stable persisted unless_committed in_transaction
      last_tip expected_local_rows
  replace_planned_suffix target cursor view rows first = do
    let replacement = last_tip lib target view
    replacements ← fetch_replacements (drop first view)
    verify_target_stable target
    verify_target_stable replacement
    let input : SuffixInput = record {
      expected_contiguous_height = cursor;
      common_ancestor_height = height_at (pos 0) (first - 1) view;
      expected_local = expected_local_rows rows;
      replacements = replacements;
      pending_sync_target = target;
    }
    (λ w. persisted (unless_committed (in_transaction target replacement input w)))
    on_world calls.drain_core_queue
    returned (replaced_stats (length replacements))

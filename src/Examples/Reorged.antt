-- ===== src/Examples/Reorged.antt =====
-- A repair that replaces the last row of the store. The world counts the calls.
use merge_mining_monitor.Backbone.{rows_at_height}
use merge_mining_monitor.Base.{
  Result, [], arith, bytes_eq, none, ok, refl, some, suc, true, ℕ, ◌∷◌, ◌≡◌,
}
use merge_mining_monitor.Base.Int.{pos, ◌+ℤ◌, ◌-ℤ◌}
use merge_mining_monitor.Base.Steps.{Step, after}
use merge_mining_monitor.Examples.Backboned.{
  core_view, forked_source, forked_tip, nonce_lib, stored,
}
use merge_mining_monitor.Follow.{SyncStats}
use merge_mining_monitor.Live.{LiveFault}
use merge_mining_monitor.Reorg.{ReorgFault, RepairCalls, replace_planned_suffix}
use merge_mining_monitor.Reorg.Ends.{repair_near_tip_backbone_ends}
use merge_mining_monitor.Reorg.Rounds.{repair_near_tip_backbone_to_target}
use merge_mining_monitor.Reorg.Switch.{Replaced, replace_planned_suffix_commits}

abbrev counts : {A : Type 0} → A → Step ℕ LiveFault A
counts a w = (ok a, suc w)

abbrev one_row : SyncStats
one_row = record { attempted = 1; sync_completed = 1; skipped_complete = 0; coinbase_failed = 0 }

abbrev no_rows : SyncStats
no_rows = record { attempted = 0; sync_completed = 0; skipped_complete = 0; coinbase_failed = 0 }

abbrev counted_calls : RepairCalls ℕ
counted_calls = record {
  core = λ w. forked_source;
  elapse = λ w. suc w;
  is_live = true;
  load_state = counts (pos 8, none);
  load_rows = λ from to. counts stored;
  record_failure = λ fault. counts tt;
  block_coinbase = λ hash. counts (5 ∷ []);
  repair_gaps = λ target. counts no_rows;
  drain_core_queue = counts tt;
  begin_switch = λ input. counts tt;
  write_switch = λ input. counts tt;
  commit_switch = counts tt;
  roll_back = λ w. suc w;
}

repairs_a_row :
    repair_near_tip_backbone_to_target nonce_lib counted_calls (pos 2) forked_tip 3 0
    ≡ some (ok one_row, 14)
unfolding repair_near_tip_backbone_to_target bytes_eq after ◌-ℤ◌ ◌+ℤ◌ rows_at_height
repairs_a_row = refl

repair_near_tip_backbone_ends_example :
    (r : Result ReorgFault SyncStats × ℕ) × (repair_near_tip_backbone_to_target nonce_lib
        counted_calls
        (pos 2)
        forked_tip
        3
        0
      ≡ some r)
repair_near_tip_backbone_ends_example =
    repair_near_tip_backbone_ends nonce_lib counted_calls (pos 2) forked_tip 3 0 refl (omega arith)

replaces_a_row :
    replace_planned_suffix nonce_lib counted_calls forked_tip (pos 8) core_view stored 2 0
    ≡ (ok one_row, 9)
unfolding replace_planned_suffix bytes_eq after
replaces_a_row = refl

replace_planned_suffix_commits_example :
    Replaced nonce_lib counted_calls forked_tip core_view 2 one_row 9
replace_planned_suffix_commits_example =
    replace_planned_suffix_commits nonce_lib counted_calls forked_tip (pos 8) core_view stored 2 0
      one_row 9 replaces_a_row

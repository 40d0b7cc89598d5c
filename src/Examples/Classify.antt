-- ===== src/Examples/Classify.antt =====
-- The classification of parents, with a Core whose block number k has the nonce k.
use merge_mining_monitor.Base.{
  List, Result, err, false, if◌then◌else◌, length, map, none, ok, refl, replicate, some, suc, true,
  ℕ, ◌*◌, ◌==◌, ◌↔◌, ◌≡◌, ◌≤◌,
}
use merge_mining_monitor.Base.Int.{negsuc, pos, ℤ, ◌+ℤ◌, ◌-ℤ◌}
use merge_mining_monitor.Base.Words.{Bytes, from_le, to_le}
use merge_mining_monitor.Bitcoin.{Header}
use merge_mining_monitor.Classifier.{
  ChainStatus, ClassifiedHeader, ClassifyFault, CoreHeaderSource, ParentClassification, body_pruned,
  core_absence_unknown, known_canonical, not_found, passes, prev_canonical, sort_times, unknown,
}
use merge_mining_monitor.Classifier.Absence.{WasReady, classify_parent_absence}
use merge_mining_monitor.Classifier.Core.{
  classify_core_stale_header, classify_inferred_stale, inferred_stale, median_time_past_passes,
}
use merge_mining_monitor.Classifier.Indexed.{IsIndexed, classify_parent_attested}
use merge_mining_monitor.Classifier.Median.{Linked, median_time_past_passes_sound, time_of}
use merge_mining_monitor.Classifier.Median.Order.{count_before}
use merge_mining_monitor.Classifier.Parent.{
  Setting, classify_parent_deferred_with_policy, with_incomplete,
}
use merge_mining_monitor.Classifier.Stale.{IsStaleSibling, classify_inferred_stale_sound}
use merge_mining_monitor.Examples.Toy.{toy}

abbrev header_at : ℕ → Header
header_at k = record {
  version = pos 4;
  prev_blockhash = to_le 32 (suc k);
  merkle_root = replicate 32 0;
  time = 10 * k;
  bits = 7;
  nonce = k;
}

-- the parent under classification, whose prev is number 10
abbrev candidate : Header
candidate = record {
  version = pos 4;
  prev_blockhash = to_le 32 10;
  merkle_root = replicate 32 1;
  time = 1_000;
  bits = 7;
  nonce = 500;
}

abbrev core_block : Bytes → ℤ → ClassifiedHeader
core_block hash height = record {
  hash = hash;
  prev_hash = to_le 32 10;
  header = header_at 9;
  height = height;
  coinbase = none;
  coinbase_unavailable = false;
}

-- Core does not know the candidate, and has its prev on a branch
abbrev toy_core : CoreHeaderSource
toy_core = record {
  get_block_hash = λ n. ok (to_le 32 9);
  get_header = λ hash height. ok (core_block hash height);
  get_block_header = λ hash. ok (header_at (from_le hash));
  get_header_verbose = λ hash.
      if from_le hash == 500
      then err not_found
      else ok (record { height = pos 7_000; confirmations = negsuc 0 });
  get_block_coinbase = λ hash. err body_pruned;
}

abbrev verdict_of_result : Result ClassifyFault ParentClassification → ParentClassification
verdict_of_result (ok verdict) = verdict
verdict_of_result (err fault) = unknown candidate

mtp_passes : median_time_past_passes toy toy_core candidate true ≡ ok (passes true)
unfolding median_time_past_passes sort_times from_le to_le
mtp_passes = refl

median_time_past_passes_sound_example :
    (headers : List Header) × (length headers ≡ 11)
    × Linked toy toy_core candidate.prev_blockhash headers
    × ((true ≡ true) ↔ (6 ≤ count_before candidate.time (map time_of headers)))
median_time_past_passes_sound_example =
    median_time_past_passes_sound toy toy_core true candidate true mtp_passes

abbrev sibling_verdict : ParentClassification
sibling_verdict =
    inferred_stale candidate (pos 7_001) none prev_canonical (core_block (to_le 32 9) (pos 7_001))

inferred :
    classify_inferred_stale toy toy_core candidate (pos 7_000) none known_canonical true
    ≡ ok sibling_verdict
unfolding classify_inferred_stale sort_times from_le to_le ◌+ℤ◌
inferred = refl

classify_inferred_stale_sound_example :
    IsStaleSibling toy toy_core candidate (pos 7_000) sibling_verdict
classify_inferred_stale_sound_example =
    classify_inferred_stale_sound toy toy_core candidate (pos 7_000) none known_canonical true
      sibling_verdict refl inferred

abbrev fresh_status : ChainStatus
fresh_status = record {
  is_mainnet = true;
  blocks = pos 7_200;
  headers = pos 7_200;
  initial_block_download = false;
  median_time = pos 90_000;
}

abbrev live_setting : Setting
live_setting = record {
  live = true;
  fail_on_rpc_error = false;
  now = pos 100_000;
  status_before = fresh_status;
  status_after = fresh_status;
}

absent_verdict :
    classify_parent_deferred_with_policy toy toy_core candidate live_setting (ok none)
    ≡ ok (core_absence_unknown candidate)
unfolding classify_parent_deferred_with_policy from_le to_le ◌-ℤ◌
absent_verdict = refl

classify_parent_absence_example :
    (toy_core.get_header_verbose (toy.block_hash candidate) ≡ err not_found)
    × WasReady toy toy_core candidate live_setting
classify_parent_absence_example =
    classify_parent_absence toy toy_core candidate live_setting (ok none)
      (core_absence_unknown candidate) absent_verdict refl

-- Core has the candidate on a branch
abbrev branch_core : CoreHeaderSource
branch_core = record toy_core {
  get_header_verbose = λ hash. ok (record { height = pos 7_001; confirmations = negsuc 0 });
}

abbrev branch_verdict : ParentClassification
branch_verdict =
    with_incomplete
      (classify_core_stale_header toy candidate (pos 7_001)
        (some (core_block (to_le 32 9) (pos 7_001))) none)
      false

branch_answer :
    classify_parent_deferred_with_policy toy branch_core candidate live_setting (ok none)
    ≡ ok branch_verdict
unfolding classify_parent_deferred_with_policy from_le to_le
branch_answer = refl

branch_attested : branch_verdict.core_attested ≡ true
unfolding classify_core_stale_header to_le
branch_attested = refl

classify_parent_attested_example : IsIndexed toy branch_core candidate branch_verdict
classify_parent_attested_example =
    classify_parent_attested toy branch_core candidate branch_verdict branch_attested live_setting
      (ok none) branch_answer

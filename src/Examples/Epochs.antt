-- ===== src/Examples/Epochs.antt =====
-- Epochs, lineage and orphans.
use merge_mining_monitor.Auxpow.Verify.{is_nonneg}
use merge_mining_monitor.Base.{
  List, Result, String, [], arith, err, map, none, ok, refl, some, suc, true, zero, ℕ, ◌*◌, ◌+◌,
  ◌∷◌, ◌≡◌,
}
use merge_mining_monitor.Base.Int.{pos, ℤ, ◌≤ℤ◌}
use merge_mining_monitor.Base.Words.{Bytes, from_le}
use merge_mining_monitor.Examples.Toy.{toy}
use merge_mining_monitor.Lineage.{
  ParentLineageInput, bitcoin, bitcoin_lineage, is_consistent, is_exact, pending, placed_prev,
}
use merge_mining_monitor.Lineage.Decided.{bitcoin_lineage_decided}
use merge_mining_monitor.Lineage.Exact.{HasEpochBits, Places, bitcoin_lineage_exact}
use merge_mining_monitor.Lineage.Pending.{Waits, bitcoin_lineage_pending}
use merge_mining_monitor.Nbits.{
  BitcoinEpochHeader, CacheFault, NbitsTable, epoch_height_for_time, epoch_rows,
  from_bitcoin_core_headers, from_bitcoin_core_headers_with_horizon_time, time_entry,
}
use merge_mining_monitor.Nbits.Lookup.{Answer, expected_nbits_lem}
use merge_mining_monitor.Nbits.Table.{IsTable, from_bitcoin_core_headers_with_horizon_time_sound}
use merge_mining_monitor.Nbits.Time.{IsLatest, epoch_height_for_time_sound}
use merge_mining_monitor.Orphan.{
  as_db_str, bip34_height, classify_btc_orphan_with, orphan_input, strict,
  strict_bip34_height_from_evidence,
}
use merge_mining_monitor.Orphan.Verdicts.{
  classify_btc_orphan_with_decided, classify_btc_orphan_with_strict,
}

abbrev epoch_header : ℕ → ℕ → ℕ → BitcoinEpochHeader
epoch_header height block_time bits = record {
  height = pos height;
  block_time = pos block_time;
  bits = bits;
}

-- epochs 0 to 114 and a horizon; epoch 114 starts at 229824
abbrev epochs_from : ℕ → ℕ → List BitcoinEpochHeader
epochs_from zero e = epoch_header (2016 * e + 9) (1000 * e + 500) e ∷ []
epochs_from (suc n) e = epoch_header (2016 * suc e) (1000 * suc e) (suc e) ∷ epochs_from n (suc e)

abbrev headers : List BitcoinEpochHeader
headers = epoch_header 0 0 0 ∷ epochs_from 114 0

abbrev built_table : Result CacheFault NbitsTable → NbitsTable
built_table (ok table) = table
built_table (err fault) = record {
  covered_max_height = pos 0;
  horizon_height = pos 0;
  horizon_time = pos 0;
  by_epoch = [];
  epochs_by_time = [];
}

abbrev table : NbitsTable
table = built_table (from_bitcoin_core_headers headers)

table_built : from_bitcoin_core_headers_with_horizon_time headers (pos 0) ≡ ok table
unfolding from_bitcoin_core_headers
table_built = refl

from_bitcoin_core_headers_with_horizon_time_sound_example : IsTable headers table
from_bitcoin_core_headers_with_horizon_time_sound_example =
    from_bitcoin_core_headers_with_horizon_time_sound headers (pos 0) table table_built

expected_nbits_lem_example :
    (last_epoch : ℕ) × (table.covered_max_height ≡ pos (2016 * last_epoch))
    × Answer headers table last_epoch (pos 5_000)
expected_nbits_lem_example = expected_nbits_lem headers (pos 0) table (pos 5_000) table_built

at_time : epoch_height_for_time table (pos 2_500) ≡ some (pos 4032)
unfolding from_bitcoin_core_headers epoch_height_for_time
at_time = refl

covered : pos 2_500 ≤ℤ table.horizon_time
unfolding from_bitcoin_core_headers
covered = omega arith

epoch_height_for_time_sound_example :
    (pos 2_500 ≤ℤ table.horizon_time)
    × ((start : ℤ) × IsLatest (map time_entry (epoch_rows headers)) (pos 2_500) (start, pos 4032))
epoch_height_for_time_sound_example =
    epoch_height_for_time_sound headers (pos 0) table (pos 2_500) (pos 4032) table_built at_time

-- a block of epoch 2 on a placed prev
abbrev placed_input : ParentLineageInput
placed_input = record {
  bits = 2;
  time = pos 2_600;
  meets_own_target = true;
  prev_height = some (pos 4040);
  strict_height = none;
}

placed_answer : bitcoin_lineage placed_input table ≡ bitcoin placed_prev
unfolding from_bitcoin_core_headers bitcoin_lineage
placed_answer = refl

exact_placed : is_exact placed_prev ≡ true
unfolding is_exact
exact_placed = refl

bitcoin_lineage_exact_example :
    (height : ℤ) × Places placed_input table height × HasEpochBits headers 2 height
bitcoin_lineage_exact_example =
    bitcoin_lineage_exact headers (pos 0) table placed_input placed_prev table_built refl
      exact_placed placed_answer

-- a block behind the last cached epoch
abbrev next_input : ParentLineageInput
next_input = record {
  bits = 2;
  time = pos 900_000;
  meets_own_target = true;
  prev_height = some (pos 231_839);
  strict_height = none;
}

next_answer : bitcoin_lineage next_input table ≡ pending "next_epoch_not_cached"
unfolding from_bitcoin_core_headers bitcoin_lineage
next_answer = refl

bitcoin_lineage_pending_example : (t : IsTable headers table) × Waits t next_input
bitcoin_lineage_pending_example =
    bitcoin_lineage_pending headers (pos 0) table next_input "next_epoch_not_cached" table_built
      next_answer

abbrev unplaced_input : ParentLineageInput
unplaced_input = record {
  bits = 9;
  time = pos 2_500;
  meets_own_target = true;
  prev_height = none;
  strict_height = some (pos 4040);
}

bitcoin_lineage_decided_example :
    ¬ (bitcoin_lineage unplaced_input table ≡ pending "next_epoch_not_cached")
bitcoin_lineage_decided_example =
    bitcoin_lineage_decided headers (pos 0) table unplaced_input "next_epoch_not_cached" table_built
      covered refl

orphan_answer :
    classify_btc_orphan_with table (pos 114_100) 114 (some (pos 229_830))
    ≡ (strict, "strict_height_nbits_match")
unfolding from_bitcoin_core_headers classify_btc_orphan_with
orphan_answer = refl

classify_btc_orphan_with_strict_example :
    (height : ℤ) × (some (pos 229_830) ≡ some height)
    × (bip34_height ≤ℤ height)
    × (is_consistent (orphan_input (pos 114_100) 114 (some (pos 229_830))) table height ≡ true)
    × HasEpochBits headers 114 height
classify_btc_orphan_with_strict_example =
    classify_btc_orphan_with_strict headers (pos 0) table (pos 114_100) 114 (some (pos 229_830))
      "strict_height_nbits_match" table_built orphan_answer

classify_btc_orphan_with_decided_example :
    (stored : String) × (as_db_str (classify_btc_orphan_with table (pos 2_500) 9 none).0
      ≡ some stored)
classify_btc_orphan_with_decided_example =
    classify_btc_orphan_with_decided headers (pos 0) table (pos 2_500) 9 none table_built covered

-- a script that pushes 229830, and Hathor's transaction with it
abbrev height_script : Bytes
height_script = 3 ∷ 0xc6 ∷ 0x81 ∷ 0x03 ∷ []

hathor_height :
    strict_bip34_height_from_evidence toy "hathor" height_script (some (4 ∷ height_script))
    ≡ some (pos 229_830)
unfolding strict_bip34_height_from_evidence from_le is_nonneg
hathor_height = refl

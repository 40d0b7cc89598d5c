-- ===== src/Lineage.antt =====
-- crates/mmm-capture/src/lineage.rs: whether a parent header belongs to Bitcoin.
pub mod Exact
pub mod Horizon
pub mod Pending
pub mod Decided
use merge_mining_monitor.Base.{
  Bool, Option, String, false, if◌then◌else◌, none, not, some, true, ℕ, ◌&&◌, ◌==◌, ◌||◌,
}
use merge_mining_monitor.Base.Int.{leb_ℤ, ltb_ℤ, pos, ℤ}
use merge_mining_monitor.Nbits.{
  NbitsLookup, NbitsTable, WeakVerdict, above_horizon, above_table, add_i32, below_floor,
  below_table, classify_nbits_by_time, daa_epoch_interval, daa_epoch_start, epoch_height_for_time,
  expected_nbits, found, match_bits, non_btc_epoch_bits, sub_i32,
}

-- `FUTURE_HEIGHT_TOLERANCE`
abbrev pub future_height_tolerance : ℤ
future_height_tolerance = pos 144

-- `RETARGET_PENDING_WINDOW`
abbrev pub retarget_pending_window : ℤ
retarget_pending_window = pos 6

pub record ParentLineageInput : Type 0 where
  pub bits : ℕ
  pub time : ℤ
  pub meets_own_target : Bool
  pub prev_height : Option ℤ
  pub strict_height : Option ℤ

pub data LineageEvidence : Type 0 where
  placed_prev strict_height_match epoch_time current_epoch : LineageEvidence

pub data Lineage : Type 0 where
  bitcoin : LineageEvidence → Lineage
  not_bitcoin pending : String → Lineage

unfoldable pub is_exact : LineageEvidence → Bool
is_exact placed_prev = true
is_exact strict_height_match = true
is_exact epoch_time = false
is_exact current_epoch = false

-- `lookup == NbitsLookup::Found(bits)`
abbrev pub found_is : ℕ → NbitsLookup → Bool
found_is bits (found expected) = expected == bits
found_is bits below_table = false
found_is bits above_table = false

-- `previous_epoch_bits(table, height) == Some(bits)`
unfoldable pub previous_epoch_is : NbitsTable → ℕ → ℤ → Bool
unfolding expected_nbits daa_epoch_start
previous_epoch_is table bits height =
    found_is bits (expected_nbits table (sub_i32 (daa_epoch_start height) (pos 1)))

unfoldable pub placed_lookup : ℕ → NbitsLookup → Lineage
placed_lookup bits (found expected) =
    if expected == bits then bitcoin placed_prev else not_bitcoin "placed_prev_nbits_mismatch"
placed_lookup bits above_table = pending "next_epoch_not_cached"
placed_lookup bits below_table = not_bitcoin "prev_below_table"

-- a header newer than the cache, on a prev the cache does not know
unfoldable pub above_horizon_lineage : ℕ → Bool → NbitsTable → Lineage
unfolding expected_nbits previous_epoch_is daa_epoch_start
above_horizon_lineage bits is_share table =
    let horizon = table.horizon_height in
    let next_retarget = add_i32 (daa_epoch_start horizon) daa_epoch_interval in
    if found_is bits (expected_nbits table horizon)
      || (is_share && previous_epoch_is table bits horizon)
    then bitcoin current_epoch
    else if leb_ℤ (sub_i32 next_retarget horizon) retarget_pending_window
    then pending "next_epoch_not_cached"
    else not_bitcoin "non_btc_current_epoch_bits"

unfoldable pub by_verdict : ℕ → Bool → NbitsTable → WeakVerdict → Lineage
unfolding above_horizon_lineage
by_verdict bits is_share table match_bits = bitcoin epoch_time
by_verdict bits is_share table non_btc_epoch_bits = not_bitcoin "non_btc_epoch_bits"
by_verdict bits is_share table below_floor = not_bitcoin "time_below_table"
by_verdict bits is_share table above_horizon = above_horizon_lineage bits is_share table

-- the time rule, which decides where nothing else did
unfoldable pub by_time : ParentLineageInput → NbitsTable → Lineage
unfolding by_verdict classify_nbits_by_time
by_time input table =
    by_verdict input.bits (not input.meets_own_target) table
      (classify_nbits_by_time table input.time input.bits)

-- the height falls in the epoch that the time selects
abbrev pub in_epoch : ℤ → Option ℤ → Bool
in_epoch height none = false
in_epoch height (some epoch) = leb_ℤ epoch height && ltb_ℤ height (add_i32 epoch daa_epoch_interval)

unfoldable pub is_consistent : ParentLineageInput → NbitsTable → ℤ → Bool
unfolding epoch_height_for_time
is_consistent input table height =
    ltb_ℤ table.horizon_time input.time || in_epoch height (epoch_height_for_time table input.time)

-- a height below the table falls to the time rule
unfoldable pub strict_lookup : ParentLineageInput → NbitsTable → ℤ → NbitsLookup → Lineage
unfolding previous_epoch_is by_time
strict_lookup input table height (found expected) =
    if expected == input.bits
      || (not input.meets_own_target && previous_epoch_is table input.bits height)
    then bitcoin strict_height_match
    else not_bitcoin "strict_height_nbits_mismatch"
strict_lookup input table height above_table =
    if ltb_ℤ (add_i32 table.horizon_height future_height_tolerance) height
    then not_bitcoin "strict_height_far_future"
    else pending "next_epoch_not_cached"
strict_lookup input table height below_table = by_time input table

unfoldable pub without_prev : ParentLineageInput → NbitsTable → Option ℤ → Lineage
unfolding is_consistent strict_lookup by_time expected_nbits
without_prev input table none = by_time input table
without_prev input table (some height) =
    if is_consistent input table height
    then strict_lookup input table height (expected_nbits table height)
    else by_time input table

unfoldable pub with_prev : ParentLineageInput → NbitsTable → Option ℤ → Lineage
unfolding placed_lookup without_prev expected_nbits
with_prev input table none = without_prev input table input.strict_height
with_prev input table (some prev) =
    if not input.meets_own_target
    then bitcoin placed_prev
    else placed_lookup input.bits (expected_nbits table (add_i32 prev (pos 1)))

unfoldable pub bitcoin_lineage : ParentLineageInput → NbitsTable → Lineage
unfolding with_prev
bitcoin_lineage input table = with_prev input table input.prev_height

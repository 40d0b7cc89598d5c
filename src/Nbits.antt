-- ===== src/Nbits.antt =====
-- crates/mmm-capture/src/nbits_table.rs: Bitcoin's difficulty epochs from cached headers. Heights are
-- i32 and their sums wrap around; times are i64 and are only compared.
pub mod Rows
pub mod Table
pub mod Lookup
pub mod Sorting
pub mod Time
use merge_mining_monitor.Base.{
  Bool, List, Option, Result, [], ensure, err, false, get_elem?, if◌then◌else◌, ltb, map, none, ok,
  some, suc, true, ℕ, ◌%◌, ◌&&◌, ◌*◌, ◌+◌, ◌-◌, ◌/◌, ◌==◌, ◌>>=◌, ◌>>◌, ◌^◌, ◌||◌, ◌∷◌,
}
use merge_mining_monitor.Base.Int.{eqb_ℤ, leb_ℤ, ltb_ℤ, negsuc, pos, ℤ, ◌+ℤ◌, ◌-ℤ◌}
use merge_mining_monitor.Base.Words.{as_i32, as_u32}

abbrev pub daa_epoch_interval : ℤ
daa_epoch_interval = pos 2016

pub record BitcoinEpochHeader : Type 0 where
  pub height : ℤ
  pub block_time : ℤ
  pub bits : ℕ

-- The map from an epoch's height to its bits is an association list, as its keys are distinct.
pub record NbitsTable : Type 0 where
  pub covered_max_height : ℤ
  pub horizon_height : ℤ
  pub horizon_time : ℤ
  pub by_epoch : List (ℤ × ℕ)
  pub epochs_by_time : List (ℤ × ℤ)

pub data NbitsLookup : Type 0 where
  found : ℕ → NbitsLookup
  below_table above_table : NbitsLookup

pub data WeakVerdict : Type 0 where
  match_bits non_btc_epoch_bits below_floor above_horizon : WeakVerdict

-- which `ensure!` of the constructor failed
pub data CacheFault : Type 0 where
  empty_cache unordered no_epoch not_genesis gap horizon_precedes horizon_exceeds : CacheFault

abbrev pub add_i32 : ℤ → ℤ → ℤ
add_i32 a b = as_i32 ((as_u32 a + as_u32 b) % 2 ^ 32)

abbrev pub sub_i32 : ℤ → ℤ → ℤ
sub_i32 a b = as_i32 ((as_u32 a + (2 ^ 32 - as_u32 b)) % 2 ^ 32)

abbrev pub mul_i32 : ℤ → ℤ → ℤ
mul_i32 a b = as_i32 (as_u32 a * as_u32 b % 2 ^ 32)

-- `checked_add` and `checked_sub`, of the exact sum
abbrev pub checked_i32 : ℤ → Option ℤ
checked_i32 (pos n) = if ltb n (2 ^ 31) then some (pos n) else none
checked_i32 (negsuc n) = if ltb n (2 ^ 31) then some (negsuc n) else none

-- `height % DAA_EPOCH_INTERVAL == 0`; the remainder of a negative number is that of its size
unfoldable pub is_epoch_start : ℤ → Bool
is_epoch_start (pos n) = n % 2016 == 0
is_epoch_start (negsuc n) = suc n % 2016 == 0

abbrev pub div_euclid : ℤ → ℤ
div_euclid (pos n) = pos (n / 2016)
div_euclid (negsuc n) = negsuc (n / 2016)

unfoldable pub daa_epoch_start : ℤ → ℤ
daa_epoch_start height = mul_i32 (div_euclid height) daa_epoch_interval

unfoldable pub last_or {ℓ} : {A : Type ℓ} → A → List A → A
last_or a [] = a
last_or a (x ∷ xs) = last_or x xs

-- `a` and its successors: `windows(2).all(p)`
unfoldable pub chain {ℓ} : {A : Type ℓ} → (A → A → Bool) → A → List A → Bool
chain p a [] = true
chain p a (x ∷ xs) = p a x && chain p x xs

abbrev pub increases : BitcoinEpochHeader → BitcoinEpochHeader → Bool
increases a b = ltb_ℤ a.height b.height

abbrev pub next_epoch : BitcoinEpochHeader → BitcoinEpochHeader → Bool
next_epoch a b = eqb_ℤ b.height (add_i32 a.height daa_epoch_interval)

unfoldable pub epoch_rows : List BitcoinEpochHeader → List BitcoinEpochHeader
unfolding is_epoch_start
epoch_rows [] = []
epoch_rows (h ∷ hs) = let rest = epoch_rows hs in if is_epoch_start h.height then h ∷ rest else rest

abbrev pub bits_entry : BitcoinEpochHeader → ℤ × ℕ
bits_entry h = (h.height, h.bits)

abbrev pub time_entry : BitcoinEpochHeader → ℤ × ℤ
time_entry h = (h.block_time, h.height)

-- the order of pairs
abbrev pub leb_entry : ℤ × ℤ → ℤ × ℤ → Bool
leb_entry (t, h) (t', h') = ltb_ℤ t t' || (eqb_ℤ t t' && leb_ℤ h h')

-- `sort_unstable`: equal pairs are the same, so every sort gives this list
unfoldable pub insert_entry : ℤ × ℤ → List (ℤ × ℤ) → List (ℤ × ℤ)
insert_entry e [] = e ∷ []
insert_entry e (x ∷ xs) =
    let rest = insert_entry e xs in if leb_entry e x then e ∷ x ∷ xs else x ∷ rest

unfoldable pub sort_entries : List (ℤ × ℤ) → List (ℤ × ℤ)
unfolding insert_entry
sort_entries [] = []
sort_entries (e ∷ es) = insert_entry e (sort_entries es)

abbrev pub max_ℤ : ℤ → ℤ → ℤ
max_ℤ a b = if leb_ℤ a b then b else a

unfoldable pub latest_time : ℤ → List BitcoinEpochHeader → ℤ
latest_time t [] = t
latest_time t (h ∷ hs) = latest_time (max_ℤ t h.block_time) hs

-- the table of `first_row` and the rows behind it, behind their checks
unfoldable pub table_of :
    ℤ
    → BitcoinEpochHeader
    → ℤ
    → BitcoinEpochHeader
    → List BitcoinEpochHeader
    → Result CacheFault NbitsTable
unfolding chain last_or sort_entries
table_of cached_horizon_time horizon observed_horizon_time first_row rows = do
  ensure (eqb_ℤ first_row.height (pos 0)) not_genesis
  ensure (chain next_epoch first_row rows) gap
  let last_epoch = last_or first_row rows
  ensure (leb_ℤ last_epoch.height horizon.height) horizon_precedes
  ensure (ltb_ℤ horizon.height (add_i32 last_epoch.height daa_epoch_interval)) horizon_exceeds
  ok (record {
    covered_max_height = last_epoch.height;
    horizon_height = horizon.height;
    horizon_time = max_ℤ cached_horizon_time observed_horizon_time;
    by_epoch = map bits_entry (first_row ∷ rows);
    epochs_by_time = sort_entries (map time_entry (first_row ∷ rows));
  })

unfoldable pub with_rows :
    ℤ → BitcoinEpochHeader → ℤ → List BitcoinEpochHeader → Result CacheFault NbitsTable
unfolding table_of
with_rows cached_horizon_time horizon observed_horizon_time [] = err no_epoch
with_rows cached_horizon_time horizon observed_horizon_time (first_row ∷ rows) =
    table_of cached_horizon_time horizon observed_horizon_time first_row rows

unfoldable pub from_bitcoin_core_headers_with_horizon_time :
    List BitcoinEpochHeader → ℤ → Result CacheFault NbitsTable
unfolding chain last_or epoch_rows latest_time with_rows
from_bitcoin_core_headers_with_horizon_time [] cached_horizon_time = err empty_cache
from_bitcoin_core_headers_with_horizon_time (h ∷ hs) cached_horizon_time = do
  ensure (chain increases h hs) unordered
  with_rows cached_horizon_time (last_or h hs) (latest_time h.block_time hs) (epoch_rows (h ∷ hs))

unfoldable pub from_bitcoin_core_headers : List BitcoinEpochHeader → Result CacheFault NbitsTable
unfolding from_bitcoin_core_headers_with_horizon_time
from_bitcoin_core_headers headers = from_bitcoin_core_headers_with_horizon_time headers (pos 0)

-- `HashMap::get`
unfoldable pub lookup : List (ℤ × ℕ) → ℤ → Option ℕ
lookup [] k = none
lookup ((k', v) ∷ kvs) k = let rest = lookup kvs k in if eqb_ℤ k' k then some v else rest

unfoldable pub height_coverage_max : NbitsTable → ℤ
height_coverage_max table = sub_i32 (add_i32 table.covered_max_height daa_epoch_interval) (pos 1)

unfoldable pub found_or_above : Option ℕ → NbitsLookup
found_or_above none = above_table
found_or_above (some bits) = found bits

unfoldable pub expected_nbits : NbitsTable → ℤ → NbitsLookup
unfolding height_coverage_max lookup daa_epoch_start found_or_above
expected_nbits table height =
    if ltb_ℤ height (pos 0)
    then below_table
    else if ltb_ℤ (height_coverage_max table) height
    then above_table
    else found_or_above (lookup table.by_epoch (daa_epoch_start height))

-- `partition_point`: how many entries, from the first on, start at or before the time
unfoldable pub started : List (ℤ × ℤ) → ℤ → ℕ
started [] time = 0
started ((start, _) ∷ es) time =
    let rest = started es time in if leb_ℤ start time then suc rest else 0

abbrev pub entry_height : Option (ℤ × ℤ) → Option ℤ
entry_height none = none
entry_height (some (_, height)) = some height

-- the first entry has started where the index is taken, so the index is not 0
unfoldable pub latest_started : List (ℤ × ℤ) → ℤ → Option ℤ
unfolding started
latest_started [] time = none
latest_started (e ∷ es) time =
    if ltb_ℤ time e.0 then none else entry_height (get_elem? (e ∷ es) (started (e ∷ es) time - 1))

unfoldable pub epoch_height_for_time : NbitsTable → ℤ → Option ℤ
unfolding latest_started
epoch_height_for_time table time =
    if ltb_ℤ table.horizon_time time then none else latest_started table.epochs_by_time time

abbrev pub has_bits : NbitsTable → ℕ → Option ℤ → Bool
has_bits table actual none = false
has_bits table actual (some height) = elim (lookup table.by_epoch height) [
  | none ↦ false
  | some expected ↦ actual == expected
]

-- the epoch, the one before it and the one behind it
unfoldable pub near_epoch_has : NbitsTable → ℕ → ℤ → Bool
unfolding lookup
near_epoch_has table actual epoch =
    has_bits table actual (checked_i32 (epoch -ℤ daa_epoch_interval))
    || has_bits table actual (some epoch)
    || has_bits table actual (checked_i32 (epoch +ℤ daa_epoch_interval))

unfoldable pub classify_nbits_by_time : NbitsTable → ℤ → ℕ → WeakVerdict
unfolding epoch_height_for_time near_epoch_has
classify_nbits_by_time table header_time actual =
    if ltb_ℤ table.horizon_time header_time
    then above_horizon
    else elim (epoch_height_for_time table header_time) [
      | none ↦ below_floor
      | some epoch ↦ if near_epoch_has table actual epoch then match_bits else non_btc_epoch_bits
    ]

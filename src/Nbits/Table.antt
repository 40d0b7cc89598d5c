-- ===== src/Nbits/Table.antt =====
-- What a table that the constructor returns holds.
use mathlib.Core.Path.{subst}
use merge_mining_monitor.Base.{
  List, Option, Result, [], ap, arith, ensure-then, length, map, ok, refl, some, suc, sym, true, ℕ,
  ◌*◌, ◌+◌, ◌<◌, ◌^◌, ◌∙◌, ◌∷◌, ◌≡◌, ◌≤◌,
}
use merge_mining_monitor.Base.Int.{eqb_ℤ, leb_ℤ, ltb_ℤ, pos, ℤ}
use merge_mining_monitor.Nbits.{
  BitcoinEpochHeader, CacheFault, NbitsTable, add_i32, bits_entry, chain, daa_epoch_interval,
  epoch_rows, from_bitcoin_core_headers_with_horizon_time, gap, horizon_exceeds, horizon_precedes,
  increases, last_or, latest_time, next_epoch, not_genesis, table_of, unordered, with_rows,
}
use merge_mining_monitor.Nbits.Rows.{IsRow, horizon_place, last_row, ordered_rows, rows_at}

-- The epochs 0 to `last_epoch` are all there, and the horizon lies in the last one.
pub record IsTable (headers : List BitcoinEpochHeader) (table : NbitsTable) : Type 0 where
  pub last_epoch : ℕ
  pub horizon : ℕ
  pub covered : table.covered_max_height ≡ pos (2016 * last_epoch)
  pub at_horizon : table.horizon_height ≡ pos horizon
  pub from : 2016 * last_epoch ≤ horizon
  pub before : horizon < 2016 * last_epoch + 2016
  pub fits : 2016 * last_epoch + 2016 < 2 ^ 31
  pub count : length (epoch_rows headers) ≡ suc last_epoch
  pub row : (e : ℕ) → e ≤ last_epoch → IsRow (epoch_rows headers) table.by_epoch e e

at_genesis : (z : ℤ) → eqb_ℤ z (pos 0) ≡ true → z ≡ pos (2016 * 0)
at_genesis z h = ground arith

some_injective :
    {a b : BitcoinEpochHeader} → ◌≡◌ {A = Option BitcoinEpochHeader} (some a) (some b) → a ≡ b
some_injective e = cc

ok_injective : {a b : NbitsTable} → ◌≡◌ {A = Result CacheFault NbitsTable} (ok a) (ok b) → a ≡ b
ok_injective e = cc

IsTable-sound :
    (headers : List BitcoinEpochHeader) (cached : ℤ) (horizon : BitcoinEpochHeader) (seen : ℤ)
    (r : BitcoinEpochHeader) (rs : List BitcoinEpochHeader) (table : NbitsTable)
    → epoch_rows headers ≡ r ∷ rs
    → chain increases r rs ≡ true
    → table_of cached horizon seen r rs ≡ ok table
    → IsTable headers table
unfolding table_of
IsTable-sound headers cached horizon seen r rs table rows ordered h =
    let (genesis, h1) = ensure-then (eqb_ℤ r.height (pos 0)) not_genesis _ h in
    let (gaps, h2) = ensure-then (chain next_epoch r rs) gap _ h1 in
    let last = last_or r rs in
    let (reached, h3) = ensure-then (leb_ℤ last.height horizon.height) horizon_precedes _ h2 in
    let (inside, h4) =
      ensure-then (ltb_ℤ horizon.height (add_i32 last.height daa_epoch_interval)) horizon_exceeds _
        h3 in
    let start : r.height ≡ pos (2016 * 0) = at_genesis r.height genesis in
    let end = rows_at (length rs) 0 r rs start (omega arith) gaps ordered (omega arith) in
    let z : 0 + length rs ≡ length rs = omega arith in
    let last_height : last.height ≡ pos (2016 * length rs) = rw z at (
      subst (λ x. x.height ≡ pos (2016 * (0 + length rs)))
        (some_injective (sym end.at ∙ last_row r rs)) end.height) in
    let (m, is_m, from, before, fits) =
      horizon_place horizon.height last.height (2016 * length rs) last_height (rw z at end.small)
        reached inside in
    subst (IsTable headers) (ok_injective h4) (record {
      last_epoch = length rs;
      horizon = m;
      covered = last_height;
      at_horizon = is_m;
      from = from;
      before = before;
      fits = fits;
      count = ap length rows;
      row = λ e le.
          let z' : 0 + e ≡ e = omega arith in
          subst (λ rows. IsRow rows (map bits_entry (r ∷ rs)) e e) (sym rows)
            (subst (IsRow (r ∷ rs) (map bits_entry (r ∷ rs)) e) z'
              (rows_at e 0 r rs start (omega arith) gaps ordered le));
    })

rows_sound :
    (headers : List BitcoinEpochHeader) (cached : ℤ) (horizon : BitcoinEpochHeader) (seen : ℤ)
    (table : NbitsTable) (rows : List BitcoinEpochHeader)
    → epoch_rows headers ≡ rows
    → ((r : BitcoinEpochHeader) (rs : List BitcoinEpochHeader)
        → epoch_rows headers ≡ r ∷ rs
        → chain increases r rs ≡ true)
    → with_rows cached horizon seen rows ≡ ok table
    → IsTable headers table
unfolding with_rows
rows_sound headers cached horizon seen table [] e ordered h = cc
rows_sound headers cached horizon seen table (r ∷ rs) e ordered h =
    IsTable-sound headers cached horizon seen r rs table e (ordered r rs e) h

-- A table that the constructor returns has, for every epoch from genesis to its last one, the cached
-- header at the epoch's first height and that header's bits in its map; its horizon lies in the last
-- epoch, and the heights up to the end of that epoch fit an i32.
pub from_bitcoin_core_headers_with_horizon_time_sound :
    (headers : List BitcoinEpochHeader) (cached_horizon_time : ℤ) (table : NbitsTable)
    → from_bitcoin_core_headers_with_horizon_time headers cached_horizon_time ≡ ok table
    → IsTable headers table
unfolding from_bitcoin_core_headers_with_horizon_time
from_bitcoin_core_headers_with_horizon_time_sound [] cached table h = cc
from_bitcoin_core_headers_with_horizon_time_sound (x ∷ xs) cached table h =
    let (ordered, h1) = ensure-then (chain increases x xs) unordered _ h in
    rows_sound (x ∷ xs) cached (last_or x xs) (latest_time x.block_time xs) table
      (epoch_rows (x ∷ xs)) refl (λ r rs e. ordered_rows x xs r rs ordered e) h1

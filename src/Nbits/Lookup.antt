-- ===== src/Nbits/Lookup.antt =====
-- The bits that a table gives for a height.
use merge_mining_monitor.Base.{
  List, arith, get_elem?, inl, inr, ok, refl, some, ℕ, ◌*◌, ◌+◌, ◌/◌, ◌<◌, ◌^◌, ◌≡◌, ◌≤◌, ◌⊎◌,
}
use merge_mining_monitor.Base.Int.{negsuc, pos, ℤ}
use merge_mining_monitor.Nbits.{
  BitcoinEpochHeader, NbitsTable, above_table, below_table, daa_epoch_start, epoch_rows,
  expected_nbits, found, found_or_above, from_bitcoin_core_headers_with_horizon_time,
  height_coverage_max, lookup,
}
use merge_mining_monitor.Nbits.Table.{IsTable, from_bitcoin_core_headers_with_horizon_time_sound}

-- What `expected_nbits` answers.
pub record Answers (headers : List BitcoinEpochHeader) (table : NbitsTable) : Type 0 where
  pub last_epoch : ℕ
  pub covered : table.covered_max_height ≡ pos (2016 * last_epoch)
  pub inside :
      (n : ℕ)
      → n < 2016 * last_epoch + 2016
      → (header : BitcoinEpochHeader) × (get_elem? (epoch_rows headers) (n / 2016) ≡ some header)
        × (header.height ≡ pos (2016 * (n / 2016)))
        × (expected_nbits table (pos n) ≡ found header.bits)
  pub above : (n : ℕ) → 2016 * last_epoch + 2016 ≤ n → expected_nbits table (pos n) ≡ above_table
  pub below : (n : ℕ) → expected_nbits table (negsuc n) ≡ below_table

coverage :
    (table : NbitsTable) (l : ℕ)
    → table.covered_max_height ≡ pos (2016 * l)
    → 2016 * l + 2016 < 2 ^ 31
    → height_coverage_max table ≡ pos (2016 * l + 2015)
unfolding height_coverage_max
coverage table l e h = ground (arith, e)

pub start_of : (n : ℕ) → n < 2 ^ 31 → daa_epoch_start (pos n) ≡ pos (2016 * (n / 2016))
unfolding daa_epoch_start
start_of n h = ground arith

pub expected_below : (table : NbitsTable) (n : ℕ) → expected_nbits table (negsuc n) ≡ below_table
unfolding expected_nbits
expected_below table n = ground arith

module _ (headers : List BitcoinEpochHeader) (table : NbitsTable) (t : IsTable headers table) where
  cover : height_coverage_max table ≡ pos (2016 * t.last_epoch + 2015)
  cover = coverage table t.last_epoch t.covered t.fits

  expected_above :
      (n : ℕ) → 2016 * t.last_epoch + 2016 ≤ n → expected_nbits table (pos n) ≡ above_table
  unfolding expected_nbits
  expected_above n h = rw cover (ground arith)

  pub expected_inside :
      (n : ℕ) (bits : ℕ)
      → n < 2016 * t.last_epoch + 2016
      → lookup table.by_epoch (pos (2016 * (n / 2016))) ≡ some bits
      → expected_nbits table (pos n) ≡ found bits
  unfolding expected_nbits found_or_above
  expected_inside n bits h kept =
      let small : n < 2 ^ 31 = omega (arith, t.fits) in
      rw (cover, start_of n small, kept) (ground arith)

  IsTable-Answers : Answers headers table
  IsTable-Answers = record {
    last_epoch = t.last_epoch;
    covered = t.covered;
    inside = λ n h.
        let r = t.row (n / 2016) (omega arith) in
        (r.header, r.at, r.height, expected_inside n r.header.bits h r.kept);
    above = expected_above;
    below = expected_below table;
  }

-- The answer about `height`: inside the table the bits of the cached row of its epoch.
abbrev pub Answer : List BitcoinEpochHeader → NbitsTable → ℕ → ℤ → Type 0
Answer headers table last_epoch height =
    ((n : ℕ) × (height ≡ pos n)
      × (n < 2016 * last_epoch + 2016)
      × (header : BitcoinEpochHeader) × (get_elem? (epoch_rows headers) (n / 2016) ≡ some header)
      × (header.height ≡ pos (2016 * (n / 2016)))
      × (expected_nbits table height ≡ found header.bits))
    ⊎ ((n : ℕ) × (height ≡ pos n)
        × (2016 * last_epoch + 2016 ≤ n)
        × (expected_nbits table height ≡ above_table))
    ⊎ ((n : ℕ) × (height ≡ negsuc n) × (expected_nbits table height ≡ below_table))

pub IsTable-of_build :
    (headers : List BitcoinEpochHeader) (cached_horizon_time : ℤ) (table : NbitsTable)
    → from_bitcoin_core_headers_with_horizon_time headers cached_horizon_time ≡ ok table
    → Answers headers table
IsTable-of_build headers cached table h =
    IsTable-Answers headers table
      (from_bitcoin_core_headers_with_horizon_time_sound headers cached table h)

Answer-of :
    (headers : List BitcoinEpochHeader) (table : NbitsTable) (a : Answers headers table)
    (height : ℤ)
    → Answer headers table a.last_epoch height
Answer-of headers table a (negsuc n) = inr (inr (n, refl, a.below n))
Answer-of headers table a (pos n) = by_place (ground arith)
  where
    by_place :
        (n < 2016 * a.last_epoch + 2016) ⊎ (2016 * a.last_epoch + 2016 ≤ n)
        → Answer headers table a.last_epoch (pos n)
    by_place (inl small) =
        let (header, row, start, answer) = a.inside n small in
        inl (n, refl, small, header, row, start, answer)
    by_place (inr large) = inr (inl (n, refl, large, a.above n large))

-- A table that the constructor returns knows every height from 0 to the end of its last cached epoch:
-- `expected_nbits` gives the bits of the cached header at the first height of the height's epoch,
-- never another's; above that it answers AboveTable, and for negative heights BelowTable.
pub expected_nbits_lem :
    (headers : List BitcoinEpochHeader) (cached_horizon_time : ℤ) (table : NbitsTable) (height : ℤ)
    → from_bitcoin_core_headers_with_horizon_time headers cached_horizon_time ≡ ok table
    → (last_epoch : ℕ) × (table.covered_max_height ≡ pos (2016 * last_epoch))
      × Answer headers table last_epoch height
expected_nbits_lem headers cached table height h =
    let a = IsTable-of_build headers cached table h in
    (a.last_epoch, a.covered, Answer-of headers table a height)

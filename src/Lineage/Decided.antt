-- ===== src/Lineage/Decided.antt =====
-- Within the time that the cache covers, nothing waits.
use merge_mining_monitor.Base.{
  Bool, Bool-cases, List, Option, String, [], ap, arith, false, get_elem?, if◌then◌else◌, inl, inr,
  length, ltb→lt, map, none, not, ok, refl, some, suc, sym, true, zero, ℕ, ◌&&◌, ◌*◌, ◌+◌, ◌<◌,
  ◌==◌, ◌^◌, ◌||◌, ◌∙◌, ◌∷◌, ◌≡◌, ◌≤◌,
}
use merge_mining_monitor.Base.Int.{ltb_ℤ, pos, ℤ, ◌<ℤ◌, ◌≤ℤ◌}
use merge_mining_monitor.Lineage.{
  ParentLineageInput, bitcoin, bitcoin_lineage, by_time, by_verdict, current_epoch, in_epoch,
  is_consistent, not_bitcoin, pending, previous_epoch_is, strict_height_match, strict_lookup,
  with_prev, without_prev,
}
use merge_mining_monitor.Lineage.Pending.{CoinbaseUncached, Waits, bitcoin_lineage_pending}
use merge_mining_monitor.Lineage.Horizon.{classify-above}
use merge_mining_monitor.Nbits.{
  BitcoinEpochHeader, NbitsLookup, NbitsTable, WeakVerdict, above_horizon, above_table, add_i32,
  below_floor, below_table, classify_nbits_by_time, daa_epoch_interval, epoch_height_for_time,
  epoch_rows, found, from_bitcoin_core_headers_with_horizon_time, match_bits, non_btc_epoch_bits,
  time_entry,
}
use merge_mining_monitor.Nbits.Table.{IsTable}
use merge_mining_monitor.Nbits.Time.{epoch_height_for_time_sound}

member_height :
    (rows : List BitcoinEpochHeader) (i : ℕ) (start height : ℤ)
    → get_elem? (map time_entry rows) i ≡ some (start, height)
    → (header : BitcoinEpochHeader) × (get_elem? rows i ≡ some header)
      × (header.height ≡ height)
      × (i < length rows)
member_height [] i start height h = cc
member_height (r ∷ rows) zero start height h = (r, refl, ap height_or_zero h, omega arith)
  where
    height_or_zero : Option (ℤ × ℤ) → ℤ
    height_or_zero none = pos 0
    height_or_zero (some e) = e.1
member_height (r ∷ rows) (suc i) start height h =
    let (header, at, same, inside) = member_height rows i start height h in
    (header, at, same, omega arith)

in_epoch-start :
    (height : ℤ) (epoch : Option ℤ)
    → in_epoch height epoch ≡ true
    → (start : ℤ) × (epoch ≡ some start) × (ltb_ℤ height (add_i32 start daa_epoch_interval) ≡ true)
in_epoch-start height none h = cc
in_epoch-start height (some start) h = (start, refl, ground arith)

before_end :
    (n i l : ℕ)
    → i ≤ l
    → 2016 * l + 2016 < 2 ^ 31
    → ltb_ℤ (pos n) (add_i32 (pos (2016 * i)) daa_epoch_interval) ≡ true
    → n < 2016 * l + 2016
before_end n i l le fits h = ground arith

second_of : (a b : Bool) → (a || b) ≡ true → a ≡ false → b ≡ true
second_of a b h f = rw f at h

some_header :
    {a b : BitcoinEpochHeader} → ◌≡◌ {A = Option BitcoinEpochHeader} (some a) (some b) → a ≡ b
some_header e = cc

module _ (headers : List BitcoinEpochHeader) (cached : ℤ) (table : NbitsTable)
    (built : from_bitcoin_core_headers_with_horizon_time headers cached ≡ ok table)
    (t : IsTable headers table) (input : ParentLineageInput)
    (covered : input.time ≤ℤ table.horizon_time) where
  selected_inside :
      (n : ℕ) (start : ℤ)
      → epoch_height_for_time table input.time ≡ some start
      → ltb_ℤ (pos n) (add_i32 start daa_epoch_interval) ≡ true
      → n < 2016 * t.last_epoch + 2016
  selected_inside n start selected h =
      let (_, (time, latest)) =
        epoch_height_for_time_sound headers cached table input.time start built selected in
      let (i, at) = latest.member in
      let (header, row, same, inside) = member_height (epoch_rows headers) i time start at in
      let le : i ≤ t.last_epoch = omega (arith, t.count) in
      let r = t.row i le in
      let place : start ≡ pos (2016 * i) =
        sym same ∙ ap (λ x. x.height) (some_header (sym row ∙ r.at)) ∙ r.height in
      before_end n i t.last_epoch le t.fits (rw place at h)

  not-CoinbaseUncached : ¬ CoinbaseUncached t input
  unfolding is_consistent
  not-CoinbaseUncached (height, claimed, consistent, (n, is_n, far), close) =
      let old : ltb_ℤ table.horizon_time input.time ≡ false = ground arith in
      let (start, selected, h) =
        in_epoch-start height (epoch_height_for_time table input.time)
          (second_of (ltb_ℤ table.horizon_time input.time) _ consistent old) in
      absurd (omega (arith, selected_inside n start selected (rw is_n at h)))

  not_waiting : input.prev_height ≡ none → ¬ Waits t input
  not_waiting p (inl (prev, q, far)) = cc
  not_waiting p (inr (inl w)) = not-CoinbaseUncached w
  not_waiting p (inr (inr (late, close))) = absurd (omega arith)

-- With a table that the constructor returned, a header with no placed prev whose time is at or before
-- the cache's horizon time is decided: the answer is never Pending.
pub bitcoin_lineage_decided :
    (headers : List BitcoinEpochHeader) (cached_horizon_time : ℤ) (table : NbitsTable)
    (input : ParentLineageInput) (reason : String)
    → from_bitcoin_core_headers_with_horizon_time headers cached_horizon_time ≡ ok table
    → input.time ≤ℤ table.horizon_time
    → input.prev_height ≡ none
    → ¬ (bitcoin_lineage input table ≡ pending reason)
bitcoin_lineage_decided headers cached table input reason built covered unplaced h =
    let (t, w) = bitcoin_lineage_pending headers cached table input reason built h in
    not_waiting headers cached table built t input covered unplaced w

module _ (input : ParentLineageInput) (table : NbitsTable) where
  by_verdict_current :
      (v : WeakVerdict)
      → by_verdict input.bits (not input.meets_own_target) table v ≡ bitcoin current_epoch
      → v ≡ above_horizon
  unfolding by_verdict
  by_verdict_current match_bits h = cc
  by_verdict_current non_btc_epoch_bits h = cc
  by_verdict_current below_floor h = cc
  by_verdict_current above_horizon h = refl

  by_time_current : by_time input table ≡ bitcoin current_epoch → table.horizon_time <ℤ input.time
  unfolding by_time
  by_time_current h = ltb→lt _ _ (
      classify-above table input.time input.bits
        (by_verdict_current (classify_nbits_by_time table input.time input.bits) h))

  matched_current :
      (b : Bool)
      → ¬ (
          (if b then bitcoin strict_height_match else not_bitcoin "strict_height_nbits_mismatch")
          ≡ bitcoin current_epoch)
  matched_current true h = cc
  matched_current false h = cc

  strict_current :
      (height : ℤ) (l : NbitsLookup)
      → strict_lookup input table height l ≡ bitcoin current_epoch
      → table.horizon_time <ℤ input.time
  unfolding strict_lookup
  strict_current height (found expected) h = absurd (
      matched_current
        (expected == input.bits
          || (not input.meets_own_target && previous_epoch_is table input.bits height))
        h)
  strict_current height above_table h = ground arith
  strict_current height below_table h = by_time_current h

  without_prev_current :
      (claimed : Option ℤ)
      → without_prev input table claimed ≡ bitcoin current_epoch
      → table.horizon_time <ℤ input.time
  unfolding without_prev
  without_prev_current none h = by_time_current h
  without_prev_current (some height) h = elim (Bool-cases (is_consistent input table height)) [
    | inl b ↦ strict_current height _ (rw b at h)
    | inr b ↦ by_time_current (rw b at h)
  ]

  pub bitcoin_lineage_current :
      input.prev_height ≡ none
      → bitcoin_lineage input table ≡ bitcoin current_epoch
      → table.horizon_time <ℤ input.time
  unfolding bitcoin_lineage with_prev
  bitcoin_lineage_current p h = without_prev_current input.strict_height (rw p at h)

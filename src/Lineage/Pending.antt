-- ===== src/Lineage/Pending.antt =====
-- When the answer waits for the header cache.
use merge_mining_monitor.Base.{
  Bool, Bool-cases, List, Option, String, arith, false, if◌then◌else◌, inl, inr, ltb→lt, none, not,
  ok, refl, some, true, ℕ, ◌&&◌, ◌*◌, ◌+◌, ◌/◌, ◌<◌, ◌==◌, ◌^◌, ◌||◌, ◌≡◌, ◌≤◌, ◌⊎◌,
}
use merge_mining_monitor.Base.Int.{leb_ℤ, ltb_ℤ, negsuc, pos, ℤ, ◌<ℤ◌, ◌≤ℤ◌}
use merge_mining_monitor.Lineage.{
  ParentLineageInput, above_horizon_lineage, bitcoin, bitcoin_lineage, by_time, by_verdict,
  current_epoch, found_is, future_height_tolerance, is_consistent, not_bitcoin, pending,
  placed_lookup, placed_prev, previous_epoch_is, retarget_pending_window, strict_height_match,
  strict_lookup, with_prev, without_prev,
}
use merge_mining_monitor.Lineage.Horizon.{classify-above, tolerated}
use merge_mining_monitor.Nbits.{
  BitcoinEpochHeader, NbitsLookup, NbitsTable, WeakVerdict, above_horizon, above_table, add_i32,
  below_floor, below_table, classify_nbits_by_time, daa_epoch_interval, daa_epoch_start,
  expected_nbits, found, from_bitcoin_core_headers_with_horizon_time, match_bits,
  non_btc_epoch_bits, sub_i32,
}
use merge_mining_monitor.Nbits.Lookup.{expected_below, expected_inside, start_of}
use merge_mining_monitor.Nbits.Table.{IsTable, from_bitcoin_core_headers_with_horizon_time_sound}

module _ {headers : List BitcoinEpochHeader} {table : NbitsTable} (t : IsTable headers table) where
  -- The height lies above the last cached epoch.
  abbrev pub IsBeyond : ℤ → Type 0
  IsBeyond height = (n : ℕ) × (height ≡ pos n) × (2016 * t.last_epoch + 2016 ≤ n)

  abbrev pub NextUncached : ParentLineageInput → Type 0
  NextUncached input =
      (prev : ℤ) × (input.prev_height ≡ some prev) × IsBeyond (add_i32 prev (pos 1))

  abbrev pub CoinbaseUncached : ParentLineageInput → Type 0
  CoinbaseUncached input =
      (height : ℤ) × (input.strict_height ≡ some height)
      × (is_consistent input table height ≡ true)
      × IsBeyond height
      × (height ≤ℤ pos (t.horizon + 144))

  -- the header is newer than the cache, and the cache ends at most six blocks before a retarget
  abbrev pub NearRetarget : ParentLineageInput → Type 0
  NearRetarget input =
      (table.horizon_time <ℤ input.time) × (2016 * t.last_epoch + 2016 ≤ t.horizon + 6)

  abbrev pub Waits : ParentLineageInput → Type 0
  Waits input = NextUncached input ⊎ CoinbaseUncached input ⊎ NearRetarget input

  beyond : (height : ℤ) → expected_nbits table height ≡ above_table → IsBeyond height
  beyond (pos n) h = by_place (ground arith)
    where
      by_place :
          (n < 2016 * t.last_epoch + 2016) ⊎ (2016 * t.last_epoch + 2016 ≤ n) → IsBeyond (pos n)
      by_place (inl small) =
          let r = t.row (n / 2016) (omega arith) in
          cc (expected_inside headers table t n r.header.bits small r.kept)
      by_place (inr large) = (n, refl, large)
  beyond (negsuc n) h = cc (expected_below table n)

  retarget_close :
      leb_ℤ
          (sub_i32
            (add_i32 (daa_epoch_start table.horizon_height) daa_epoch_interval)
            table.horizon_height)
          retarget_pending_window
        ≡ true
      → 2016 * t.last_epoch + 2016 ≤ t.horizon + 6
  retarget_close h =
      let start : daa_epoch_start (pos t.horizon) ≡ pos (2016 * (t.horizon / 2016)) =
        start_of t.horizon (omega (arith, t.before, t.fits)) in
      let q : t.horizon / 2016 ≡ t.last_epoch = omega (arith, t.from, t.before) in
      close t.last_epoch t.horizon t.from t.before t.fits (rw (t.at_horizon, start, q) at h)
    where
      close :
          (l m : ℕ)
          → 2016 * l ≤ m
          → m < 2016 * l + 2016
          → 2016 * l + 2016 < 2 ^ 31
          → leb_ℤ
              (sub_i32 (add_i32 (pos (2016 * l)) daa_epoch_interval) (pos m))
              retarget_pending_window
            ≡ true
          → 2016 * l + 2016 ≤ m + 6
      close l m from before fits k = ground arith

  module _ (input : ParentLineageInput) (reason : String) where
    above_horizon_waits :
        (bits : ℕ) (is_share : Bool)
        → table.horizon_time <ℤ input.time
        → above_horizon_lineage bits is_share table ≡ pending reason
        → NearRetarget input
    unfolding above_horizon_lineage
    above_horizon_waits bits is_share late h = (
      late,
      retarget_close (
          by_tests
            (found_is bits (expected_nbits table table.horizon_height)
              || (is_share && previous_epoch_is table bits table.horizon_height))
            _ h),
    )
      where
        by_tests :
            (a b : Bool)
            → (if a
                then bitcoin current_epoch
                else if b
                then pending "next_epoch_not_cached"
                else not_bitcoin "non_btc_current_epoch_bits")
              ≡ pending reason
            → b ≡ true
        by_tests true b k = cc
        by_tests false true k = refl
        by_tests false false k = cc

    by_verdict_waits :
        (v : WeakVerdict)
        → by_verdict input.bits (not input.meets_own_target) table v ≡ pending reason
        → (v ≡ above_horizon)
          × (above_horizon_lineage input.bits (not input.meets_own_target) table ≡ pending reason)
    unfolding by_verdict
    by_verdict_waits match_bits h = cc
    by_verdict_waits non_btc_epoch_bits h = cc
    by_verdict_waits below_floor h = cc
    by_verdict_waits above_horizon h = (refl, h)

    by_time_waits : by_time input table ≡ pending reason → NearRetarget input
    unfolding by_time
    by_time_waits h =
        let (v, k) = by_verdict_waits (classify_nbits_by_time table input.time input.bits) h in
        above_horizon_waits input.bits (not input.meets_own_target)
          (ltb→lt _ _ (classify-above table input.time input.bits v)) k

    strict-Waits :
        (height : ℤ) (l : NbitsLookup)
        → expected_nbits table height ≡ l
        → input.strict_height ≡ some height
        → is_consistent input table height ≡ true
        → strict_lookup input table height l ≡ pending reason
        → Waits input
    unfolding strict_lookup
    strict-Waits height (found expected) e s c h = absurd (
        matched
          (expected == input.bits
            || (not input.meets_own_target && previous_epoch_is table input.bits height))
          h)
      where
        matched :
            (b : Bool)
            → ¬ (
                (if b
                  then bitcoin strict_height_match
                  else not_bitcoin "strict_height_nbits_mismatch")
                ≡ pending reason)
        matched true k = cc
        matched false k = cc
    strict-Waits height above_table e s c h =
        let (n, is_n, far) = beyond height e in
        inr (inl (height, s, c, (n, is_n, far), reachable n is_n far (not_far _ h)))
      where
        not_far :
            (b : Bool)
            → (if b
                then not_bitcoin "strict_height_far_future"
                else pending "next_epoch_not_cached")
              ≡ pending reason
            → b ≡ false
        not_far true k = cc
        not_far false k = refl

        reachable :
            (n : ℕ)
            → height ≡ pos n
            → 2016 * t.last_epoch + 2016 ≤ n
            → ltb_ℤ (add_i32 table.horizon_height future_height_tolerance) height ≡ false
            → height ≤ℤ pos (t.horizon + 144)
        reachable n is_n far k =
            rw is_n (
              tolerated n t.horizon (omega (arith, t.before, t.fits))
                (rw (t.at_horizon, is_n) at k))
    strict-Waits height below_table e s c h = inr (inr (by_time_waits h))

    without_prev-Waits :
        (claimed : Option ℤ)
        → input.strict_height ≡ claimed
        → without_prev input table claimed ≡ pending reason
        → Waits input
    unfolding without_prev
    without_prev-Waits none s h = inr (inr (by_time_waits h))
    without_prev-Waits (some height) s h = elim (Bool-cases (is_consistent input table height)) [
      | inl b ↦ strict-Waits height _ refl s b (rw b at h)
      | inr b ↦ inr (inr (by_time_waits (rw b at h)))
    ]

    placed_waits :
        (l : NbitsLookup)
        → (if not input.meets_own_target then bitcoin placed_prev else placed_lookup input.bits l)
          ≡ pending reason
        → l ≡ above_table
    unfolding placed_lookup
    placed_waits (found expected) h = ground arith
    placed_waits above_table h = refl
    placed_waits below_table h = ground arith

    with_prev-Waits :
        (prev : Option ℤ)
        → input.prev_height ≡ prev
        → with_prev input table prev ≡ pending reason
        → Waits input
    unfolding with_prev
    with_prev-Waits none p h = without_prev-Waits input.strict_height refl h
    with_prev-Waits (some prev) p h =
        inl (prev, p, beyond (add_i32 prev (pos 1)) (placed_waits _ h))

-- With a table that the constructor returned, an answer is Pending only where the cache ends: the
-- height after the placed prev is above the last cached epoch, or the coinbase height is, and at most
-- 144 above the horizon, or the header is newer than the cache and its horizon is at most six
-- blocks before the next retarget.
pub bitcoin_lineage_pending :
    (headers : List BitcoinEpochHeader) (cached_horizon_time : ℤ) (table : NbitsTable)
    (input : ParentLineageInput) (reason : String)
    → from_bitcoin_core_headers_with_horizon_time headers cached_horizon_time ≡ ok table
    → bitcoin_lineage input table ≡ pending reason
    → (t : IsTable headers table) × Waits t input
unfolding bitcoin_lineage
bitcoin_lineage_pending headers cached table input reason built h =
    let t = from_bitcoin_core_headers_with_horizon_time_sound headers cached table built in
    (t, with_prev-Waits t input reason input.prev_height refl h)

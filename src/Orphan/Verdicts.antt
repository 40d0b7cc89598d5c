-- ===== src/Orphan/Verdicts.antt =====
-- What the verdicts on orphans say.
use merge_mining_monitor.Auxpow.Blocks.{absent}
use merge_mining_monitor.Base.{
  List, Option, String, ap, arith, inl, inr, ok, refl, some, true, ℕ, ◌≡◌, ◌⊎◌,
}
use merge_mining_monitor.Base.Int.{ℤ, ◌≤ℤ◌}
use merge_mining_monitor.Lineage.{
  Lineage, LineageEvidence, bitcoin, bitcoin_lineage, current_epoch, epoch_time, is_consistent,
  is_exact, not_bitcoin, pending, placed_prev, strict_height_match,
}
use merge_mining_monitor.Lineage.Decided.{bitcoin_lineage_current, bitcoin_lineage_decided}
use merge_mining_monitor.Lineage.Exact.{HasEpochBits, Places, bitcoin_lineage_exact}
use merge_mining_monitor.Nbits.{
  BitcoinEpochHeader, NbitsTable, from_bitcoin_core_headers_with_horizon_time,
}
use merge_mining_monitor.Orphan.{
  BtcOrphanVerdict, as_db_str, bip34_height, classify_btc_orphan_with, excluded, orphan_input,
  strict, undecided, verdict_of, weak,
}
use merge_mining_monitor.Orphan.Evidence.{since_bip34-some}

verdict-strict :
    (l : Lineage) (reason : String)
    → verdict_of l ≡ (strict, reason)
    → (e : LineageEvidence) × (l ≡ bitcoin e) × (is_exact e ≡ true)
unfolding verdict_of is_exact
verdict-strict (bitcoin strict_height_match) reason h = (strict_height_match, refl, refl)
verdict-strict (bitcoin placed_prev) reason h = (placed_prev, refl, refl)
verdict-strict (bitcoin epoch_time) reason h = cc (ap (λ p. p.0) h)
verdict-strict (bitcoin current_epoch) reason h = cc (ap (λ p. p.0) h)
verdict-strict (not_bitcoin r) reason h = cc (ap (λ p. p.0) h)
verdict-strict (pending r) reason h = cc (ap (λ p. p.0) h)

-- With a table that the constructor returned, a verdict is Strict only for a header whose coinbase
-- height is at or above the height of BIP34, agrees with the header's time where the cache
-- covers it, and has the header's bits as those of its cached epoch.
pub classify_btc_orphan_with_strict :
    (headers : List BitcoinEpochHeader) (cached_horizon_time : ℤ) (table : NbitsTable) (time : ℤ)
    (bits : ℕ) (strict_height : Option ℤ) (reason : String)
    → from_bitcoin_core_headers_with_horizon_time headers cached_horizon_time ≡ ok table
    → classify_btc_orphan_with table time bits strict_height ≡ (strict, reason)
    → (height : ℤ) × (strict_height ≡ some height)
      × (bip34_height ≤ℤ height)
      × (is_consistent (orphan_input time bits strict_height) table height ≡ true)
      × HasEpochBits headers bits height
unfolding classify_btc_orphan_with as_db_str
classify_btc_orphan_with_strict headers cached table time bits strict_height reason built h =
    let input = orphan_input time bits strict_height in
    let (e, lineage, exact) = verdict-strict (bitcoin_lineage input table) reason h in
    let (height, places, epoch) =
      bitcoin_lineage_exact headers cached table input e built refl exact lineage in
    from_coinbase height places epoch
  where
    from_coinbase :
        (height : ℤ)
        → Places (orphan_input time bits strict_height) table height
        → HasEpochBits headers bits height
        → (height : ℤ) × (strict_height ≡ some height)
          × (bip34_height ≤ℤ height)
          × (is_consistent (orphan_input time bits strict_height) table height ≡ true)
          × HasEpochBits headers bits height
    from_coinbase height (inl (prev, absent, _)) epoch = cc
    from_coinbase height (inr (_, given, consistent)) epoch =
        let (same, high) = since_bip34-some strict_height height given in
        (height, same, high, consistent, epoch)

verdict-undecided :
    (l : Lineage) (reason : String)
    → verdict_of l ≡ (undecided, reason)
    → (l ≡ bitcoin current_epoch) ⊎ (l ≡ pending reason)
unfolding verdict_of
verdict-undecided (bitcoin strict_height_match) reason h = cc (ap (λ p. p.0) h)
verdict-undecided (bitcoin placed_prev) reason h = cc (ap (λ p. p.0) h)
verdict-undecided (bitcoin epoch_time) reason h = cc (ap (λ p. p.0) h)
verdict-undecided (bitcoin current_epoch) reason h = inl refl
verdict-undecided (not_bitcoin r) reason h = cc (ap (λ p. p.0) h)
verdict-undecided (pending r) reason h = inr (ap pending (ap (λ p. p.1) h))

-- With a table that the constructor returned, every header whose time is at or before the cache's
-- horizon time gets a verdict that is stored: it is never Pending.
pub classify_btc_orphan_with_decided :
    (headers : List BitcoinEpochHeader) (cached_horizon_time : ℤ) (table : NbitsTable) (time : ℤ)
    (bits : ℕ) (strict_height : Option ℤ)
    → from_bitcoin_core_headers_with_horizon_time headers cached_horizon_time ≡ ok table
    → time ≤ℤ table.horizon_time
    → (stored : String) × (as_db_str (classify_btc_orphan_with table time bits strict_height).0
        ≡ some stored)
unfolding classify_btc_orphan_with as_db_str
classify_btc_orphan_with_decided headers cached table time bits strict_height built covered =
    by_verdict (verdict_of (bitcoin_lineage (orphan_input time bits strict_height) table)) refl
  where
    by_verdict :
        (v : BtcOrphanVerdict × String)
        → verdict_of (bitcoin_lineage (orphan_input time bits strict_height) table) ≡ v
        → (stored : String) × (as_db_str v.0 ≡ some stored)
    by_verdict (strict, _) e = ("strict_btc_orphan", refl)
    by_verdict (weak, _) e = ("weak_btc_orphan", refl)
    by_verdict (excluded, _) e = ("excluded", refl)
    by_verdict (undecided, reason) e =
        elim (verdict-undecided (bitcoin_lineage (orphan_input time bits strict_height) table)
          reason e) [
            | inl current ↦ absurd (
                omega (
                  arith,
                  bitcoin_lineage_current (orphan_input time bits strict_height) table refl current,
                ))
            | inr waiting ↦ absurd (
                bitcoin_lineage_decided headers cached table (orphan_input time bits strict_height)
                  reason built covered refl waiting)
          ]

-- ===== src/Lineage/Exact.antt =====
-- What exact evidence says of a block.
use mathlib.Core.Path.{subst}
use merge_mining_monitor.Base.{
  ==_iff, Bool, Bool-cases, List, Option, ap, arith, false, get_elem?, if◌then◌else◌, inl, inr,
  none, not, ok, refl, some, sym, true, ℕ, ◌*◌, ◌+◌, ◌/◌, ◌<◌, ◌==◌, ◌||◌, ◌∙◌, ◌≡◌, ◌≤◌, ◌⊎◌,
}
use merge_mining_monitor.Base.Int.{negsuc, pos, ℤ}
use merge_mining_monitor.Lineage.{
  LineageEvidence, ParentLineageInput, above_horizon_lineage, bitcoin, bitcoin_lineage, by_time,
  by_verdict, current_epoch, epoch_time, is_consistent, is_exact, not_bitcoin, placed_lookup,
  placed_prev, strict_height_match, strict_lookup, with_prev, without_prev,
}
use merge_mining_monitor.Nbits.{
  BitcoinEpochHeader, NbitsLookup, NbitsTable, WeakVerdict, above_horizon, above_table, add_i32,
  below_floor, below_table, epoch_rows, expected_nbits, found,
  from_bitcoin_core_headers_with_horizon_time, match_bits, non_btc_epoch_bits,
}
use merge_mining_monitor.Nbits.Lookup.{Answers, IsTable-of_build}

-- The bits are those of the cached epoch of the height.
pub record HasEpochBits (headers : List BitcoinEpochHeader) (bits : ℕ) (height : ℤ) : Type 0 where
  pub number : ℕ
  pub at_height : height ≡ pos number
  pub header : BitcoinEpochHeader
  pub row : get_elem? (epoch_rows headers) (number / 2016) ≡ some header
  pub epoch : header.height ≡ pos (2016 * (number / 2016))
  pub same_bits : header.bits ≡ bits

-- Where the height of a block with exact evidence comes from.
abbrev pub Places : ParentLineageInput → NbitsTable → ℤ → Type 0
Places input table height =
    ((prev : ℤ) × (input.prev_height ≡ some prev) × (height ≡ add_i32 prev (pos 1)))
    ⊎ ((input.prev_height ≡ none)
        × (input.strict_height ≡ some height)
        × (is_consistent input table height ≡ true))

module _ (headers : List BitcoinEpochHeader) (table : NbitsTable)
    (answers : Answers headers table) where
  by_range :
      (n bits : ℕ)
      → (n < 2016 * answers.last_epoch + 2016) ⊎ (2016 * answers.last_epoch + 2016 ≤ n)
      → expected_nbits table (pos n) ≡ found bits
      → HasEpochBits headers bits (pos n)
  by_range n bits (inl small) h =
      let (header, row, epoch, answer) = answers.inside n small in
      record {
        number = n;
        at_height = refl;
        header = header;
        row = row;
        epoch = epoch;
        same_bits = found_injective (sym answer ∙ h);
      }
    where
      found_injective : {a b : ℕ} → found a ≡ found b → a ≡ b
      found_injective e = cc
  by_range n bits (inr large) h = cc (answers.above n large)

  pub expected_nbits-found :
      (height : ℤ) (bits : ℕ)
      → expected_nbits table height ≡ found bits
      → HasEpochBits headers bits height
  expected_nbits-found (pos n) bits h = by_range n bits (ground arith) h
  expected_nbits-found (negsuc n) bits h = cc (answers.below n)

placed_lookup-eq-bitcoin :
    (bits : ℕ) (l : NbitsLookup) (e : LineageEvidence)
    → placed_lookup bits l ≡ bitcoin e
    → l ≡ found bits
unfolding placed_lookup
placed_lookup-eq-bitcoin bits (found expected) e h = ground arith
placed_lookup-eq-bitcoin bits above_table e h = cc
placed_lookup-eq-bitcoin bits below_table e h = cc

above_horizon_inexact :
    (bits : ℕ) (is_share : Bool) (table : NbitsTable) (e : LineageEvidence)
    → above_horizon_lineage bits is_share table ≡ bitcoin e
    → is_exact e ≡ false
unfolding above_horizon_lineage is_exact
above_horizon_inexact bits is_share table placed_prev h = ground arith
above_horizon_inexact bits is_share table strict_height_match h = ground arith
above_horizon_inexact bits is_share table epoch_time h = refl
above_horizon_inexact bits is_share table current_epoch h = refl

evidence_injective : {a b : LineageEvidence} → bitcoin a ≡ bitcoin b → a ≡ b
evidence_injective e = cc

by_verdict_inexact :
    (bits : ℕ) (is_share : Bool) (table : NbitsTable) (v : WeakVerdict) (e : LineageEvidence)
    → by_verdict bits is_share table v ≡ bitcoin e
    → is_exact e ≡ false
unfolding by_verdict is_exact
by_verdict_inexact bits is_share table match_bits e h =
    subst (λ e. is_exact e ≡ false) (evidence_injective h) refl
by_verdict_inexact bits is_share table non_btc_epoch_bits e h = cc
by_verdict_inexact bits is_share table below_floor e h = cc
by_verdict_inexact bits is_share table above_horizon e h =
    above_horizon_inexact bits is_share table e h

pub by_time_inexact :
    (input : ParentLineageInput) (table : NbitsTable) (e : LineageEvidence)
    → by_time input table ≡ bitcoin e
    → is_exact e ≡ false
unfolding by_time
by_time_inexact input table e h =
    by_verdict_inexact input.bits (not input.meets_own_target) table _ e h

module _ (input : ParentLineageInput) (table : NbitsTable) (e : LineageEvidence)
    (block : input.meets_own_target ≡ true) (exact : is_exact e ≡ true) where
  not_by_time : ¬ (by_time input table ≡ bitcoin e)
  not_by_time h = cc (by_time_inexact input table e h, exact)

  strict_found :
      (height : ℤ) (l : NbitsLookup)
      → strict_lookup input table height l ≡ bitcoin e
      → l ≡ found input.bits
  unfolding strict_lookup
  strict_found height (found expected) h =
      found_bits (expected == input.bits) ((==_iff _ _).0) (rw block at h)
    where
      found_bits :
          (b : Bool)
          → (b ≡ true → expected ≡ input.bits)
          → (if b || false
              then bitcoin strict_height_match
              else not_bitcoin "strict_height_nbits_mismatch")
            ≡ bitcoin e
          → found expected ≡ found input.bits
      found_bits true same k = ap found (same refl)
      found_bits false same k = cc
  strict_found height above_table h = ground arith
  strict_found height below_table h = absurd (not_by_time h)

  without_prev_found :
      (claimed : Option ℤ)
      → without_prev input table claimed ≡ bitcoin e
      → (height : ℤ) × (claimed ≡ some height)
        × (is_consistent input table height ≡ true)
        × (expected_nbits table height ≡ found input.bits)
  unfolding without_prev
  without_prev_found none h = absurd (not_by_time h)
  without_prev_found (some height) h = elim (Bool-cases (is_consistent input table height)) [
    | inl b ↦ (height, refl, b, strict_found height _ (rw b at h))
    | inr b ↦ absurd (not_by_time (rw b at h))
  ]

  with_prev_found :
      (prev : Option ℤ)
      → input.prev_height ≡ prev
      → with_prev input table prev ≡ bitcoin e
      → (height : ℤ) × Places input table height × (expected_nbits table height ≡ found input.bits)
  unfolding with_prev
  with_prev_found none p h =
      let (height, claimed, consistent, bits) = without_prev_found input.strict_height h in
      (height, inr (p, claimed, consistent), bits)
  with_prev_found (some prev) p h = (
    add_i32 prev (pos 1),
    inl (prev, p, refl),
    placed_lookup-eq-bitcoin input.bits _ e (rw block at h),
  )

-- With a table that the constructor returned, a header that meets its own target and is given
-- Bitcoin lineage by exact evidence has a fixed height, one above its placed prev or, with no placed
-- prev, its consistent coinbase height, and its bits are those of the cached epoch of that height.
pub bitcoin_lineage_exact :
    (headers : List BitcoinEpochHeader) (cached_horizon_time : ℤ) (table : NbitsTable)
    (input : ParentLineageInput) (e : LineageEvidence)
    → from_bitcoin_core_headers_with_horizon_time headers cached_horizon_time ≡ ok table
    → input.meets_own_target ≡ true
    → is_exact e ≡ true
    → bitcoin_lineage input table ≡ bitcoin e
    → (height : ℤ) × Places input table height × HasEpochBits headers input.bits height
unfolding bitcoin_lineage
bitcoin_lineage_exact headers cached table input e built block exact h =
    let (height, places, answer) =
      with_prev_found input table e block exact input.prev_height refl h in
    let answers = IsTable-of_build headers cached table built in
    (height, places, expected_nbits-found headers table answers height input.bits answer)

-- ===== src/Lineage/Horizon.antt =====
-- Headers newer than the cache, and heights behind its horizon.
use merge_mining_monitor.Base.{
  Bool, Bool-cases, Option, arith, false, if◌then◌else◌, inl, inr, none, refl, some, true, ℕ, ◌+◌,
  ◌<◌, ◌^◌, ◌≡◌,
}
use merge_mining_monitor.Base.Int.{ltb_ℤ, pos, ℤ, ◌≤ℤ◌}
use merge_mining_monitor.Lineage.{future_height_tolerance}
use merge_mining_monitor.Nbits.{
  NbitsTable, above_horizon, add_i32, below_floor, classify_nbits_by_time, epoch_height_for_time,
  match_bits, near_epoch_has, non_btc_epoch_bits,
}

pub classify-above :
    (table : NbitsTable) (time : ℤ) (bits : ℕ)
    → classify_nbits_by_time table time bits ≡ above_horizon
    → ltb_ℤ table.horizon_time time ≡ true
unfolding classify_nbits_by_time
classify-above table time bits h =
    by_parts (ltb_ℤ table.horizon_time time) (epoch_height_for_time table time)
      (near_epoch_has table bits) h
  where
    by_parts :
        (b : Bool) (o : Option ℤ) (f : ℤ → Bool)
        → (if b then above_horizon else elim o [
          | none ↦ below_floor
          | some epoch ↦ if f epoch then match_bits else non_btc_epoch_bits
        ])
          ≡ above_horizon
        → b ≡ true
    by_parts true o f k = refl
    by_parts false none f k = cc
    by_parts false (some epoch) f k = elim (Bool-cases (f epoch)) [
      | inl y ↦ cc (rw y at k)
      | inr y ↦ cc (rw y at k)
    ]

-- a height that the tolerance admits did not wrap around
pub tolerated :
    (n m : ℕ)
    → m < 2 ^ 31
    → ltb_ℤ (add_i32 (pos m) future_height_tolerance) (pos n) ≡ false
    → pos n ≤ℤ pos (m + 144)
tolerated n m h k = ground arith

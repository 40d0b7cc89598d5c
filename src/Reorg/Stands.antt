-- ===== src/Reorg/Stands.antt =====
-- crates/mmm-producers/src/bitcoin_core_backbone/reorg.rs: what the check of a target shows.
use merge_mining_monitor.Backbone.{BackboneTip}
use merge_mining_monitor.Backbone.Repair.{BackboneSource, target_hash_now, target_stability_failure}
use merge_mining_monitor.Base.{
  Bool-cases, Result-cases, arith, bytes_eq, bytes_eq_sound, inl, inr, ok, true, ◌≡◌, ◌⊎◌,
}
use merge_mining_monitor.Base.Int.{eq_of_parts, eqb_ℤ, ltb_ℤ, ℤ, ◌≤ℤ◌}
use merge_mining_monitor.Base.Words.{Bytes}
use merge_mining_monitor.Reorg.{stability}

-- `tip` is on the chain of Core
pub record Stands (core : BackboneSource) (tip : BackboneTip) : Type 0 where
  pub current : BackboneTip
  pub current_tip : core.core_tip ≡ ok current
  pub not_above : tip.tip_height ≤ℤ current.tip_height
  pub active :
      ((current.tip_height ≡ tip.tip_height) × (current.tip_hash ≡ tip.tip_hash))
      ⊎ (core.core_hash tip.tip_height ≡ ok tip.tip_hash)

pub heights_equal : (a b : ℤ) → eqb_ℤ a b ≡ true → a ≡ b
heights_equal a b e = eq_of_parts a b (ground arith)

target_hash_now_sound :
    (core : BackboneSource) (tip current : BackboneTip) {hash : Bytes}
    → target_hash_now core tip current ≡ ok hash
    → ((current.tip_height ≡ tip.tip_height) × (current.tip_hash ≡ hash))
      ⊎ (core.core_hash tip.tip_height ≡ ok hash)
unfolding target_hash_now
target_hash_now_sound core tip current e =
    elim (Bool-cases (eqb_ℤ current.tip_height tip.tip_height)) [
      | inl same ↦
          let e' = rw same at e in inl (heights_equal current.tip_height tip.tip_height same, cc)
      | inr other ↦ let e' = rw other at e in inr e'
    ]

pub stability_none :
    (core : BackboneSource) (tip : BackboneTip)
    → stability (target_stability_failure core tip) ≡ ok tt
    → Stands core tip
unfolding stability target_stability_failure
stability_none core tip e = elim (Result-cases core.core_tip) [
  | inr (fault, failed) ↦ let e' = rw failed at e in cc
  | inl (current, at_tip) ↦
      let e1 = rw at_tip at e in
      elim (Bool-cases (ltb_ℤ current.tip_height tip.tip_height)) [
        | inl low ↦ let e' = rw low at e1 in cc
        | inr high ↦
            let e2 = rw high at e1 in
            elim (Result-cases (target_hash_now core tip current)) [
              | inr (fault, failed) ↦ let e' = rw failed at e2 in cc
              | inl (hash, at_hash) ↦
                  let e3 = rw at_hash at e2 in
                  elim (Bool-cases (bytes_eq hash tip.tip_hash)) [
                    | inr moved ↦ let e' = rw moved at e3 in cc
                    | inl same ↦ record {
                      current = current;
                      current_tip = at_tip;
                      not_above = ground arith;
                      active =
                          target_hash_now_sound core tip current
                            (rw (bytes_eq_sound hash tip.tip_hash same) at at_hash);
                    }
                  ]
            ]
      ]
]

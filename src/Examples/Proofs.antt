-- ===== src/Examples/Proofs.antt =====
-- The commitment checks.
use merge_mining_monitor.Auxpow.{MerkleBranch}
use merge_mining_monitor.Auxpow.Decode.{extract_coinbase_tag}
use merge_mining_monitor.Auxpow.Verify.{
  fold_merkle_branch, verify_auxpow_commitment, verify_classic_auxpow_commitment,
}
use merge_mining_monitor.Auxpow.Verify.Commitments.{
  CommitsClassic, verify_classic_auxpow_commitment_iff,
}
use merge_mining_monitor.Auxpow.Verify.Elastos.{CommitsElastos, verify_auxpow_commitment_iff}
use merge_mining_monitor.Auxpow.Verify.Merkle.{fold_merkle_branch_reaches, siblings, subroot}
use merge_mining_monitor.Base.{
  [], arith, length, ok, refl, reverse, some, ℕ, ◌%◌, ◌<◌, ◌^◌, ◌↔◌, ◌∷◌, ◌≡◌,
}
use merge_mining_monitor.Base.Int.{pos}
use merge_mining_monitor.Base.Words.{Bytes, as_u32, from_le, length-to_le, to_le}
use merge_mining_monitor.Examples.Toy.{child_hash, parsed_block, toy, toy_digests}

verify_classic_auxpow_commitment_iff_example :
    (verify_classic_auxpow_commitment toy parsed_block child_hash 1 ≡ ok tt)
    ↔ CommitsClassic toy parsed_block child_hash 1
verify_classic_auxpow_commitment_iff_example =
    verify_classic_auxpow_commitment_iff toy parsed_block child_hash 1 toy_digests
      (length-to_le 32 7)

classic_accepts : verify_classic_auxpow_commitment toy parsed_block child_hash 1 ≡ ok tt
unfolding verify_classic_auxpow_commitment from_le to_le
classic_accepts = refl

verify_auxpow_commitment_iff_example :
    (verify_auxpow_commitment toy parsed_block (reverse child_hash) 1 ≡ ok tt)
    ↔ CommitsElastos toy parsed_block (reverse child_hash) 1
verify_auxpow_commitment_iff_example =
    verify_auxpow_commitment_iff toy parsed_block (reverse child_hash) 1

elastos_accepts : verify_auxpow_commitment toy parsed_block (reverse child_hash) 1 ≡ ok tt
unfolding verify_auxpow_commitment from_le to_le
elastos_accepts = refl

root_nonempty : 0 < length (reverse child_hash)
unfolding to_le
root_nonempty = omega arith

-- leaves that hold their number
abbrev leaf : ℕ → Bytes
leaf i = to_le 32 i

fold_merkle_branch_reaches_example :
    fold_merkle_branch toy
      (leaf (as_u32 (pos 2) % 2 ^ 2))
      (record { hashes = reverse (siblings toy leaf 2 0 (as_u32 (pos 2))); index = pos 2 })
    ≡ subroot toy leaf 2 0
fold_merkle_branch_reaches_example = fold_merkle_branch_reaches toy leaf 2 (pos 2)

abbrev branch : MerkleBranch
branch = record { hashes = leaf 3 ∷ leaf 0 ∷ []; index = pos 2 }

branch_folds : fold_merkle_branch toy (leaf 2) branch ≡ subroot toy leaf 2 0
unfolding fold_merkle_branch subroot from_le to_le
branch_folds = refl

-- a height, and then the text "pool"
abbrev tagged_script : Bytes
tagged_script = 1 ∷ 5 ∷ 0x70 ∷ 0x6f ∷ 0x6f ∷ 0x6c ∷ []

tag_found : extract_coinbase_tag tagged_script ≡ some (0x70 ∷ 0x6f ∷ 0x6f ∷ 0x6c ∷ [])
unfolding extract_coinbase_tag
tag_found = refl

-- ===== src/Auxpow/Qbit/Commitment.antt =====
-- What an accepted Qbit proof says.
use mathlib.Core.Path.{subst}
use merge_mining_monitor.Auxpow.{
  ParsedHeader, coinbase_root_mismatch, index_outside_tree, not_first_transaction,
  tree_size_mismatch,
}
use merge_mining_monitor.Auxpow.Qbit.{QbitRawAuxpow, qbit_auxpow_chain_id, verify_qbit_proof}
use merge_mining_monitor.Auxpow.Reader.RoundTrip.{IsHash}
use merge_mining_monitor.Auxpow.Verify.{
  auxpow_expected_index, fold_merkle_branch, is_nonneg, read_commitment_footer,
}
use merge_mining_monitor.Auxpow.Verify.Commitments.{
  HasDigests, IsHash-fold_merkle_branch, eqb_zero, is_nonneg-pos, nonneg-eq-pos,
}
use merge_mining_monitor.Auxpow.Verify.Footer.{IsFooter, read_commitment_footer_iff}
use merge_mining_monitor.Base.{
  ==_iff, >>=-eq-ok, and-true, arith, bytes_eq, bytes_eq_complete, bytes_eq_sound, ensure-eq-ok,
  ensure-then, length, length-reverse, ltb, ltb→lt, lt→ltb, ok, refl, reverse, ℕ, ◌&&◌, ◌<◌, ◌==◌,
  ◌^◌, ◌↔◌, ◌≡◌,
}
use merge_mining_monitor.Base.Int.{eqb_ℤ, pos}
use merge_mining_monitor.Base.Words.{Bytes, as_u32}
use merge_mining_monitor.Bitcoin.{Library}

-- the root that the chain branch gives for the child header, in display order
abbrev pub committed_root : Library → ParsedHeader → QbitRawAuxpow → Bytes
committed_root lib child proof =
    reverse (fold_merkle_branch lib (lib.block_hash child.header) proof.chain_branch)

pub record CommitsQbit (lib : Library) (child : ParsedHeader) (proof : QbitRawAuxpow) : Type 0 where
  pub first : proof.coinbase_branch.index ≡ pos 0
  pub chain_index : ℕ
  pub names_index : proof.chain_branch.index ≡ pos chain_index
  pub inside : as_u32 proof.chain_branch.index < 2 ^ length proof.chain_branch.hashes
  pub under_root :
      fold_merkle_branch lib proof.coinbase_txid proof.coinbase_branch
      ≡ proof.parent_header.header.merkle_root
  pub nonce : ℕ
  pub footer :
      IsFooter proof.coinbase_script
        (committed_root lib child proof)
        (2 ^ length proof.chain_branch.hashes)
        nonce
  pub slot :
      as_u32 proof.chain_branch.index
      ≡ auxpow_expected_index nonce qbit_auxpow_chain_id (length proof.chain_branch.hashes)

module _ (lib : Library) (child : ParsedHeader) (proof : QbitRawAuxpow) (digests : HasDigests lib)
    (width : IsHash (lib.block_hash child.header)) where
  qbit_root_nonempty : 0 < length (committed_root lib child proof)
  qbit_root_nonempty = omega (
    arith,
    length-reverse (fold_merkle_branch lib (lib.block_hash child.header) proof.chain_branch),
    IsHash-fold_merkle_branch lib digests (lib.block_hash child.header) proof.chain_branch width,
  )

  qbit-IsFooter_iff :
      (tree_size nonce : ℕ)
      → (read_commitment_footer proof.coinbase_script (committed_root lib child proof)
          ≡ ok (tree_size, nonce))
        ↔ IsFooter proof.coinbase_script (committed_root lib child proof) tree_size nonce
  qbit-IsFooter_iff tree_size nonce =
      read_commitment_footer_iff proof.coinbase_script (committed_root lib child proof)
        qbit_root_nonempty tree_size nonce

  qbit_sound : verify_qbit_proof lib child proof ≡ ok tt → CommitsQbit lib child proof
  unfolding verify_qbit_proof
  qbit_sound h =
      let len = length proof.chain_branch.hashes in
      let index = proof.chain_branch.index in
      let (first, h1) =
        ensure-then (eqb_ℤ proof.coinbase_branch.index (pos 0)) not_first_transaction _ h in
      let (inside, h2) =
        ensure-then (is_nonneg index && ltb (as_u32 index) (2 ^ len)) index_outside_tree _ h1 in
      let (root, h3) =
        ensure-then
          (bytes_eq (fold_merkle_branch lib proof.coinbase_txid proof.coinbase_branch)
            proof.parent_header.header.merkle_root)
          coinbase_root_mismatch _ h2 in
      let ((tree_size, nonce), footer, h4) =
        >>=-eq-ok (read_commitment_footer proof.coinbase_script (committed_root lib child proof)) _
          h3 in
      let (size, slot) = ensure-then (tree_size == 2 ^ len) tree_size_mismatch _ h4 in
      let (nonneg, small) = and-true (is_nonneg index) _ inside in
      let (chain_index, names) = nonneg-eq-pos index nonneg in
      record {
        first = eqb_zero _ first;
        chain_index = chain_index;
        names_index = names;
        inside = ltb→lt (as_u32 index) (2 ^ len) small;
        under_root = bytes_eq_sound _ _ root;
        nonce = nonce;
        footer =
            subst
              (λ size. IsFooter proof.coinbase_script (committed_root lib child proof) size nonce)
              ((==_iff tree_size (2 ^ len)).0 size) ((qbit-IsFooter_iff tree_size nonce).0 footer);
        slot = (==_iff _ _).0 (ensure-eq-ok _ _ slot);
      }

  qbit_complete : CommitsQbit lib child proof → verify_qbit_proof lib child proof ≡ ok tt
  unfolding verify_qbit_proof
  qbit_complete c =
      let len = length proof.chain_branch.hashes in
      rw (
        is_nonneg-pos _ c.chain_index c.names_index,
        lt→ltb _ (2 ^ len) c.inside,
        bytes_eq_complete _ _ c.under_root,
        (qbit-IsFooter_iff (2 ^ len) c.nonce).1 c.footer,
        (==_iff (2 ^ len) (2 ^ len)).1 refl,
        (==_iff _ _).1 c.slot,
        c.first,
      )

  -- With 32-byte digests and block hashes, the Qbit check accepts a proof exactly when its coinbase is
  -- the first transaction under the parent's merkle root, the chain index lies in the tree and is
  -- the slot of Qbit's chain id for the nonce, and the coinbase script holds, under the placement
  -- rule, the root that the chain branch gives for the child header, in display order, with the size
  -- of a tree of that depth and that nonce.
  pub verify_qbit_proof_iff :
      (verify_qbit_proof lib child proof ≡ ok tt) ↔ CommitsQbit lib child proof
  verify_qbit_proof_iff = (qbit_sound, qbit_complete)

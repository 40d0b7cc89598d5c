-- ===== src/Auxpow/Verify/Elastos.antt =====
-- What an accepted Elastos commitment says.
use merge_mining_monitor.Auxpow.{
  ParsedAuxpowBlock, branch_depth, marker_truncated, negative_chain_index, negative_coinbase_index,
  not_first_transaction, tree_size_mismatch,
}
use merge_mining_monitor.Auxpow.Verify.{
  auxpow_magic, coinbase_check, find_all, fold_merkle_branch, is_nonneg, single_marker, slice,
  slot_check, verify_auxpow_commitment,
}
use merge_mining_monitor.Auxpow.Verify.Commitments.{
  InSlot, IsFirstTransaction, coinbase_check_complete, coinbase_check_sound, eqb_zero,
  is_nonneg-pos, nonneg-eq-pos, slot_check_iff,
}
use merge_mining_monitor.Auxpow.Verify.Footer.{IsOnly}
use merge_mining_monitor.Auxpow.Verify.Markers.{single_marker_iff}
use merge_mining_monitor.Base.{
  ==_iff, >>=-eq-ok, arith, bytes_eq_complete, bytes_eq_sound, ensure-eq-ok, ensure-then, leb,
  leb→le, length, le→leb, ltb, ltb→lt, lt→ltb, ok, reverse, then-eq-ok, ℕ, ◌+◌, ◌<◌, ◌==◌, ◌^◌, ◌↔◌,
  ◌≡◌, ◌≤◌,
}
use merge_mining_monitor.Base.Int.{eqb_ℤ, pos}
use merge_mining_monitor.Base.Words.{Bytes, from_le}
use merge_mining_monitor.Bitcoin.{Library}

-- the root that the chain branch gives for the reversed child hash
abbrev pub chain_root : Library → ParsedAuxpowBlock → Bytes → Bytes
chain_root lib parsed child = fold_merkle_branch lib (reverse child) parsed.proof.chain_branch

pub record CommitsElastos (lib : Library) (parsed : ParsedAuxpowBlock) (child : Bytes)
    (chain_id : ℕ) : Type 0 where
  pub magic_pos : ℕ
  pub marker : IsOnly parsed.parent_coinbase_script auxpow_magic magic_pos
  pub fits : magic_pos + 44 ≤ length parsed.parent_coinbase_script
  pub depth : length parsed.proof.chain_branch.hashes < 32
  pub tree_size :
      from_le (slice parsed.parent_coinbase_script (magic_pos + 36) 4)
      ≡ 2 ^ length parsed.proof.chain_branch.hashes
  pub in_slot :
      InSlot parsed (from_le (slice parsed.parent_coinbase_script (magic_pos + 40) 4)) chain_id
  pub coinbase : IsFirstTransaction lib parsed
  pub committed :
      chain_root lib parsed child ≡ reverse (slice parsed.parent_coinbase_script (magic_pos + 4) 32)

module _ (lib : Library) (parsed : ParsedAuxpowBlock) (child : Bytes) (chain_id : ℕ) where
  elastos_sound :
      verify_auxpow_commitment lib parsed child chain_id ≡ ok tt
      → CommitsElastos lib parsed child chain_id
  unfolding verify_auxpow_commitment
  elastos_sound h =
      let script = parsed.parent_coinbase_script in
      let len = length parsed.proof.chain_branch.hashes in
      let (p, marker, h1) = >>=-eq-ok (single_marker (find_all script auxpow_magic)) _ h in
      let (fits, h2) = ensure-then (leb (p + 4 + 40) (length script)) marker_truncated _ h1 in
      let (depth, h3) = ensure-then (ltb len 32) branch_depth _ h2 in
      let (size, h4) =
        ensure-then (from_le (slice script (p + 4 + 32) 4) == 2 ^ len) tree_size_mismatch _ h3 in
      let (_, h5) =
        ensure-then (is_nonneg parsed.proof.coinbase_branch.index) negative_coinbase_index _ h4 in
      let (nonneg, h6) =
        ensure-then (is_nonneg parsed.proof.chain_branch.index) negative_chain_index _ h5 in
      let (first, h7) =
        ensure-then (eqb_ℤ parsed.proof.coinbase_branch.index (pos 0)) not_first_transaction _ h6 in
      let nonce = from_le (slice script (p + 4 + 36) 4) in
      let (slot, h8) = then-eq-ok (slot_check parsed nonce chain_id len) _ h7 in
      let (root, committed) = then-eq-ok (coinbase_check lib parsed) _ h8 in
      let (chain_index, names) = nonneg-eq-pos parsed.proof.chain_branch.index nonneg in
      let e36 : p + 36 ≡ p + 4 + 32 = omega arith in
      let e40 : p + 40 ≡ p + 4 + 36 = omega arith in
      record {
        magic_pos = p;
        marker = (single_marker_iff script p).0 marker;
        fits = omega (arith, leb→le (p + 4 + 40) (length script) fits);
        depth = ltb→lt len 32 depth;
        tree_size = rw e36 ((==_iff _ _).0 size);
        in_slot = record {
          chain_index = chain_index;
          names_index = names;
          slot = rw e40 ((slot_check_iff parsed nonce chain_id len).0 slot);
        };
        coinbase = record {
          first = eqb_zero _ first;
          under_root = coinbase_check_sound lib parsed root;
        };
        committed = bytes_eq_sound _ _ (ensure-eq-ok _ _ committed);
      }

  elastos_complete :
      CommitsElastos lib parsed child chain_id
      → verify_auxpow_commitment lib parsed child chain_id ≡ ok tt
  unfolding verify_auxpow_commitment
  elastos_complete c =
      let script = parsed.parent_coinbase_script in
      let len = length parsed.proof.chain_branch.hashes in
      let p = c.magic_pos in
      let e36 : p + 36 ≡ p + 4 + 32 = omega arith in
      let e40 : p + 40 ≡ p + 4 + 36 = omega arith in
      rw (
        (single_marker_iff script p).1 c.marker,
        le→leb (p + 4 + 40) (length script) (omega (arith, c.fits)),
        lt→ltb len 32 c.depth,
        (==_iff _ _).1 (rw e36 at c.tree_size),
        is_nonneg-pos _ 0 c.coinbase.first,
        is_nonneg-pos _ c.in_slot.chain_index c.in_slot.names_index,
        (slot_check_iff parsed (from_le (slice script (p + 4 + 36) 4)) chain_id len).1
            (rw e40 at c.in_slot.slot),
        coinbase_check_complete lib parsed c.coinbase.under_root,
        bytes_eq_complete _ _ c.committed,
        c.coinbase.first,
      )

  -- The Elastos check accepts a proof exactly when the marker stands once in the coinbase script with
  -- 40 bytes behind it, its tree size is that of the chain branch, which has fewer than 32 hashes,
  -- the chain index is the chain's slot for its nonce, the coinbase is the first transaction under
  -- the parent's merkle root, and the chain branch leads from the reversed child hash to the reversed
  -- root that stands behind the marker.
  pub verify_auxpow_commitment_iff :
      (verify_auxpow_commitment lib parsed child chain_id ≡ ok tt)
      ↔ CommitsElastos lib parsed child chain_id
  verify_auxpow_commitment_iff = (elastos_sound, elastos_complete)

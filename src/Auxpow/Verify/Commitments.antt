-- ===== src/Auxpow/Verify/Commitments.antt =====
-- What an accepted commitment says, for the two conventions of verify.rs.
use mathlib.Core.Path.{subst}
use merge_mining_monitor.Auxpow.{
  MerkleBranch, ParsedAuxpowBlock, branch_depth, negative_chain_index, not_first_transaction,
  tree_size_mismatch,
}
use merge_mining_monitor.Auxpow.Reader.RoundTrip.{IsHash}
use merge_mining_monitor.Auxpow.Verify.{
  auxpow_expected_index, classic_max_chain_branch, coinbase_check, fold_hashes, fold_merkle_branch,
  is_nonneg, read_commitment_footer, sha256d_pair, slot_check, verify_classic_auxpow_commitment,
}
use merge_mining_monitor.Auxpow.Verify.Footer.{IsFooter, read_commitment_footer_iff}
use merge_mining_monitor.Base.{
  ==_iff, >>=-eq-ok, Bool-cases, List, [], arith, bytes_eq_complete, bytes_eq_sound, ensure-eq-ok,
  ensure-then, if◌then◌else◌, inl, inr, leb, leb→le, length, length-reverse, le→leb, ok, refl,
  reverse, then-eq-ok, true, ℕ, ◌%◌, ◌/◌, ◌<◌, ◌==◌, ◌^◌, ◌↔◌, ◌∷◌, ◌≡◌, ◌≤◌,
}
use merge_mining_monitor.Base.Int.{eqb_ℤ, negsuc, pos, ℤ}
use merge_mining_monitor.Base.Words.{Bytes, as_u32}
use merge_mining_monitor.Bitcoin.{Library}

-- The chain index names the slot of the chain, and the branch leads to a tree of that size.
pub record InSlot (parsed : ParsedAuxpowBlock) (nonce chain_id : ℕ) : Type 0 where
  pub chain_index : ℕ
  pub names_index : parsed.proof.chain_branch.index ≡ pos chain_index
  pub slot :
      as_u32 parsed.proof.chain_branch.index
      ≡ auxpow_expected_index nonce chain_id (length parsed.proof.chain_branch.hashes)

-- The coinbase is the first transaction under the parent header's merkle root.
pub record IsFirstTransaction (lib : Library) (parsed : ParsedAuxpowBlock) : Type 0 where
  pub first : parsed.proof.coinbase_branch.index ≡ pos 0
  pub under_root :
      fold_merkle_branch lib parsed.parent_coinbase_txid parsed.proof.coinbase_branch
      ≡ parsed.parent_header.header.merkle_root

-- the root that the chain branch gives for a child hash, in display order
abbrev pub display_root : Library → ParsedAuxpowBlock → Bytes → Bytes
display_root lib parsed child = reverse (fold_merkle_branch lib child parsed.proof.chain_branch)

pub record CommitsClassic (lib : Library) (parsed : ParsedAuxpowBlock) (child : Bytes)
    (chain_id : ℕ) : Type 0 where
  pub depth : length parsed.proof.chain_branch.hashes ≤ classic_max_chain_branch
  pub coinbase : IsFirstTransaction lib parsed
  pub nonce : ℕ
  pub footer :
      IsFooter parsed.parent_coinbase_script
        (display_root lib parsed child)
        (2 ^ length parsed.proof.chain_branch.hashes)
        nonce
  pub in_slot : InSlot parsed nonce chain_id

pub eqb_zero : (z : ℤ) → eqb_ℤ z (pos 0) ≡ true → z ≡ pos 0
eqb_zero z h = ground arith

pub nonneg-eq-pos : (z : ℤ) → is_nonneg z ≡ true → (n : ℕ) × (z ≡ pos n)
unfolding is_nonneg
nonneg-eq-pos (pos n) h = (n, refl)
nonneg-eq-pos (negsuc n) h = cc

pub is_nonneg-pos : (z : ℤ) (n : ℕ) → z ≡ pos n → is_nonneg z ≡ true
unfolding is_nonneg
is_nonneg-pos z n h = rw h

pub slot_check_iff :
    (parsed : ParsedAuxpowBlock) (nonce chain_id len : ℕ)
    → (slot_check parsed nonce chain_id len ≡ ok tt)
      ↔ (as_u32 parsed.proof.chain_branch.index ≡ auxpow_expected_index nonce chain_id len)
unfolding slot_check
slot_check_iff parsed nonce chain_id len =
    (λ h. (==_iff _ _).0 (ensure-eq-ok _ _ h), λ h. rw ((==_iff _ _).1 h))

module _ (lib : Library) (parsed : ParsedAuxpowBlock) where
  pub coinbase_check_sound :
      coinbase_check lib parsed ≡ ok tt
      → fold_merkle_branch lib parsed.parent_coinbase_txid parsed.proof.coinbase_branch
        ≡ parsed.parent_header.header.merkle_root
  unfolding coinbase_check
  coinbase_check_sound h = bytes_eq_sound _ _ (ensure-eq-ok _ _ h)

  pub coinbase_check_complete :
      fold_merkle_branch lib parsed.parent_coinbase_txid parsed.proof.coinbase_branch
        ≡ parsed.parent_header.header.merkle_root
      → coinbase_check lib parsed ≡ ok tt
  unfolding coinbase_check
  coinbase_check_complete h = rw (bytes_eq_complete _ _ h)

-- sha256d has 32 bytes
abbrev pub HasDigests : Library → Type 0
HasDigests lib = (bytes : Bytes) → IsHash (lib.sha256d bytes)

module _ (lib : Library) (digests : HasDigests lib) where
  IsHash-fold_hashes :
      (hs : List Bytes) (acc : Bytes) (j : ℕ) → IsHash acc → IsHash (fold_hashes lib acc j hs)
  unfolding fold_hashes
  IsHash-fold_hashes [] acc j h = h
  IsHash-fold_hashes (s ∷ hs) acc j h =
      IsHash-fold_hashes hs (if j % 2 == 1 then sha256d_pair lib s acc else sha256d_pair lib acc s)
        (j / 2)
        (elim (Bool-cases (j % 2 == 1)) [ inl b ↦ rw b (digests _) | inr b ↦ rw b (digests _) ])

  pub IsHash-fold_merkle_branch :
      (leaf : Bytes) (branch : MerkleBranch)
      → IsHash leaf
      → IsHash (fold_merkle_branch lib leaf branch)
  unfolding fold_merkle_branch
  IsHash-fold_merkle_branch leaf branch h =
      IsHash-fold_hashes branch.hashes leaf (as_u32 branch.index) h

  pub display_root_nonempty :
      (parsed : ParsedAuxpowBlock) (child : Bytes)
      → IsHash child
      → 0 < length (display_root lib parsed child)
  display_root_nonempty parsed child h = omega (
    arith,
    length-reverse (fold_merkle_branch lib child parsed.proof.chain_branch),
    IsHash-fold_merkle_branch child parsed.proof.chain_branch h,
  )

module _ (lib : Library) (parsed : ParsedAuxpowBlock) (child : Bytes) (chain_id : ℕ)
    (digests : HasDigests lib) (child_width : IsHash child) where
  abbrev FooterOf : ℕ → ℕ → Type 0
  FooterOf tree_size nonce =
      IsFooter parsed.parent_coinbase_script (display_root lib parsed child) tree_size nonce

  footer_iff :
      (tree_size nonce : ℕ)
      → (read_commitment_footer parsed.parent_coinbase_script (display_root lib parsed child)
          ≡ ok (tree_size, nonce))
        ↔ FooterOf tree_size nonce
  footer_iff tree_size nonce =
      read_commitment_footer_iff parsed.parent_coinbase_script (display_root lib parsed child)
        (display_root_nonempty lib digests parsed child child_width) tree_size nonce

  classic_sound :
      verify_classic_auxpow_commitment lib parsed child chain_id ≡ ok tt
      → CommitsClassic lib parsed child chain_id
  unfolding verify_classic_auxpow_commitment
  classic_sound h =
      let len = length parsed.proof.chain_branch.hashes in
      let (depth, h1) = ensure-then (leb len 30) branch_depth _ h in
      let (first, h2) =
        ensure-then (eqb_ℤ parsed.proof.coinbase_branch.index (pos 0)) not_first_transaction _ h1 in
      let (nonneg, h3) =
        ensure-then (is_nonneg parsed.proof.chain_branch.index) negative_chain_index _ h2 in
      let (root, h4) = then-eq-ok (coinbase_check lib parsed) _ h3 in
      let ((tree_size, nonce), footer, h5) =
        >>=-eq-ok
          (read_commitment_footer parsed.parent_coinbase_script (display_root lib parsed child)) _
          h4 in
      let (size, slot) = ensure-then (tree_size == 2 ^ len) tree_size_mismatch _ h5 in
      let (chain_index, names) = nonneg-eq-pos parsed.proof.chain_branch.index nonneg in
      record {
        depth = leb→le len 30 depth;
        coinbase = record {
          first = eqb_zero _ first;
          under_root = coinbase_check_sound lib parsed root;
        };
        nonce = nonce;
        footer =
            subst (λ size. FooterOf size nonce) ((==_iff tree_size (2 ^ len)).0 size)
              ((footer_iff tree_size nonce).0 footer);
        in_slot = record {
          chain_index = chain_index;
          names_index = names;
          slot = (slot_check_iff parsed nonce chain_id len).0 slot;
        };
      }

  classic_complete :
      CommitsClassic lib parsed child chain_id
      → verify_classic_auxpow_commitment lib parsed child chain_id ≡ ok tt
  unfolding verify_classic_auxpow_commitment
  classic_complete c =
      let len = length parsed.proof.chain_branch.hashes in
      rw (
        le→leb len 30 c.depth,
        is_nonneg-pos _ c.in_slot.chain_index c.in_slot.names_index,
        coinbase_check_complete lib parsed c.coinbase.under_root,
        (footer_iff (2 ^ len) c.nonce).1 c.footer,
        (==_iff (2 ^ len) (2 ^ len)).1 refl,
        (slot_check_iff parsed c.nonce chain_id len).1 c.in_slot.slot,
        c.coinbase.first,
      )

  -- With 32-byte digests and a 32-byte child hash, the classic check accepts a proof exactly when its
  -- chain branch has at most 30 hashes, its coinbase is the first transaction under the parent's
  -- merkle root, and the coinbase script holds, under the placement rule, the root that the chain
  -- branch gives for the child, in display order, with the size of a tree of that depth and a nonce
  -- for which the chain index is the chain's slot.
  pub verify_classic_auxpow_commitment_iff :
      (verify_classic_auxpow_commitment lib parsed child chain_id ≡ ok tt)
      ↔ CommitsClassic lib parsed child chain_id
  verify_classic_auxpow_commitment_iff = (classic_sound, classic_complete)

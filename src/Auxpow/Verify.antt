-- ===== src/Auxpow/Verify.antt =====
-- verify.rs: commitment checks, proof-of-work target checks and coinbase heights.
-- Masks and shifts are written as quotients and remainders by powers of two.
pub mod Subslice
pub mod Footer
pub mod Markers
pub mod Merkle
pub mod Slot
pub mod Heights
pub mod Commitments
pub mod Elastos
use mathlib.Core.Option
use merge_mining_monitor.Auxpow.{
  Fault, MerkleBranch, ParsedAuxpowBlock, branch_depth, chain_root_mismatch, coinbase_root_mismatch,
  footer_truncated, magic_absent, marker_position, marker_truncated, markerless_position,
  multiple_magic, multiple_markers, negative_chain_index, negative_coinbase_index,
  not_first_transaction, root_absent, slot_mismatch, tree_size_mismatch,
}
use merge_mining_monitor.Base.{
  Bool, List, Option, Result, [], bytes_eq, drop, ensure, err, false, get_or, if◌then◌else◌,
  is_none, keep_if, leb, length, ltb, map, none, not, ok, ok_or, reverse, some, suc, take, true, ℕ,
  ◌%◌, ◌&&◌, ◌*◌, ◌++◌, ◌+◌, ◌/◌, ◌==◌, ◌>>=◌, ◌>>◌, ◌^◌, ◌||◌, ◌∷◌,
}
use merge_mining_monitor.Base.Int.{eqb_ℤ, leb_ℤ, negsuc, pos, ℤ}
use merge_mining_monitor.Base.Words.{Bytes, as_i32, as_u32, from_le}
use merge_mining_monitor.Bitcoin.{Header, Library}

-- `haystack.windows(needle.len()).position(|window| window == needle)`; an empty needle, at which
-- `windows` panics, is never looked for.
unfoldable pub find_subslice : Bytes → Bytes → Option ℕ
unfolding bytes_eq
find_subslice [] needle = none
find_subslice (b ∷ bs) needle =
    let rest = find_subslice bs needle in
    if bytes_eq (take (length needle) (b ∷ bs)) needle then some 0 else Option.map suc rest

-- the positions of every window that equals the needle, in order
unfoldable pub find_all : Bytes → Bytes → List ℕ
unfolding bytes_eq
find_all [] needle = []
find_all (b ∷ bs) needle =
    let rest = map suc (find_all bs needle) in
    if bytes_eq (take (length needle) (b ∷ bs)) needle then 0 ∷ rest else rest

abbrev pub auxpow_magic : Bytes
auxpow_magic = 0xfa ∷ 0xbe ∷ 0x6d ∷ 0x6d ∷ []

-- `script[from..from + len]`, in range wherever it is taken
abbrev pub slice : Bytes → ℕ → ℕ → Bytes
slice script from len = take len (drop from script)

abbrev pub wrapping_mul : ℕ → ℕ → ℕ
wrapping_mul a b = a * b % 2 ^ 32

abbrev pub wrapping_add : ℕ → ℕ → ℕ
wrapping_add a b = (a + b) % 2 ^ 32

unfoldable pub auxpow_expected_index : ℕ → ℕ → ℕ → ℕ
auxpow_expected_index nonce chain_id branch_len =
    let rand1 = wrapping_add (wrapping_mul nonce 1_103_515_245) 12_345 in
    let rand2 = wrapping_add rand1 chain_id in
    let rand3 = wrapping_add (wrapping_mul rand2 1_103_515_245) 12_345 in rand3 % 2 ^ branch_len

abbrev pub classic_markerless_root_window : ℕ
classic_markerless_root_window = 20

abbrev pub classic_max_chain_branch : ℕ
classic_max_chain_branch = 30

marker_check : Bytes → ℕ → Option ℕ → Result Fault (Unit {0})
unfolding find_subslice
marker_check script root_pos (some marker) = do
  ensure (is_none (find_subslice (drop (marker + 1) script) auxpow_magic)) multiple_markers
  ensure (marker + length auxpow_magic == root_pos) marker_position
marker_check script root_pos none =
    ensure (leb root_pos classic_markerless_root_window) markerless_position

unfoldable pub read_commitment_footer : Bytes → Bytes → Result Fault (ℕ × ℕ)
unfolding find_subslice marker_check
read_commitment_footer script display_root = do
  root_pos ← ok_or (find_subslice script display_root) root_absent
  marker_check script root_pos (find_subslice script auxpow_magic)
  ensure (leb (root_pos + 40) (length script)) footer_truncated
  ok (from_le (slice script (root_pos + 32) 4), from_le (slice script (root_pos + 36) 4))

unfoldable pub is_nonneg : ℤ → Bool
is_nonneg (pos n) = true
is_nonneg (negsuc n) = false

pub slot_check : ParsedAuxpowBlock → ℕ → ℕ → ℕ → Result Fault (Unit {0})
unfolding auxpow_expected_index
slot_check parsed nonce chain_id branch_len =
    ensure
      (as_u32 parsed.proof.chain_branch.index == auxpow_expected_index nonce chain_id branch_len)
      slot_mismatch

-- the only marker of the script
pub single_marker : List ℕ → Result Fault ℕ
single_marker [] = err magic_absent
single_marker (magic_pos ∷ []) = ok magic_pos
single_marker (_ ∷ _ ∷ _) = err multiple_magic

-- One round of the fold for each sibling; bit 0 of the index says on which side the sibling is.
module _ (lib : Library) where
  abbrev sha256d_pair : Bytes → Bytes → Bytes
  sha256d_pair left right = lib.sha256d (left ++ right)

  unfoldable pub fold_hashes : Bytes → ℕ → List Bytes → Bytes
  fold_hashes acc index [] = acc
  fold_hashes acc index (sibling ∷ siblings) =
      fold_hashes (if index % 2 == 1 then sha256d_pair sibling acc else sha256d_pair acc sibling)
        (index / 2) siblings

  unfoldable pub fold_merkle_branch : Bytes → MerkleBranch → Bytes
  unfolding fold_hashes
  fold_merkle_branch leaf branch = fold_hashes leaf (as_u32 branch.index) branch.hashes

  pub coinbase_check : ParsedAuxpowBlock → Result Fault (Unit {0})
  unfolding fold_merkle_branch bytes_eq
  coinbase_check parsed =
      ensure
        (bytes_eq (fold_merkle_branch parsed.parent_coinbase_txid parsed.proof.coinbase_branch)
          parsed.parent_header.header.merkle_root)
        coinbase_root_mismatch

  unfoldable pub verify_auxpow_commitment : ParsedAuxpowBlock → Bytes → ℕ → Result Fault (Unit {0})
  unfolding find_all single_marker is_nonneg coinbase_check slot_check
  verify_auxpow_commitment parsed child_block_hash chain_id = do
    let script = parsed.parent_coinbase_script
    magic_pos ← single_marker (find_all script auxpow_magic)
    let after = magic_pos + length auxpow_magic
    ensure (leb (after + 40) (length script)) marker_truncated
    let aux_merkle_root = slice script after 32
    let tree_size = from_le (slice script (after + 32) 4)
    let nonce = from_le (slice script (after + 36) 4)
    let branch_len = length parsed.proof.chain_branch.hashes
    ensure (ltb branch_len 32) branch_depth
    ensure (tree_size == 2 ^ branch_len) tree_size_mismatch
    ensure (is_nonneg parsed.proof.coinbase_branch.index) negative_coinbase_index
    ensure (is_nonneg parsed.proof.chain_branch.index) negative_chain_index
    ensure (eqb_ℤ parsed.proof.coinbase_branch.index (pos 0)) not_first_transaction
    slot_check parsed nonce chain_id branch_len
    coinbase_check parsed
    ensure
        (bytes_eq (fold_merkle_branch (reverse child_block_hash) parsed.proof.chain_branch)
          (reverse aux_merkle_root))
        chain_root_mismatch

  unfoldable pub verify_classic_auxpow_commitment :
      ParsedAuxpowBlock → Bytes → ℕ → Result Fault (Unit {0})
  unfolding read_commitment_footer is_nonneg coinbase_check slot_check
  verify_classic_auxpow_commitment parsed child_block_hash chain_id = do
    let branch_len = length parsed.proof.chain_branch.hashes
    ensure (leb branch_len classic_max_chain_branch) branch_depth
    ensure (eqb_ℤ parsed.proof.coinbase_branch.index (pos 0)) not_first_transaction
    ensure (is_nonneg parsed.proof.chain_branch.index) negative_chain_index
    coinbase_check parsed
    let display_root = reverse (fold_merkle_branch child_block_hash parsed.proof.chain_branch)
    (tree_size, nonce) ← read_commitment_footer parsed.parent_coinbase_script display_root
    ensure (tree_size == 2 ^ branch_len) tree_size_mismatch
    slot_check parsed nonce chain_id branch_len

  -- bits 24 to 31, bits 0 to 22 and bit 23 of the compact form
  unfoldable pub well_formed_compact_target : ℕ → Option ℕ
  well_formed_compact_target raw_bits =
      let exponent = raw_bits / 2 ^ 24 in
      let mantissa = raw_bits % 2 ^ 23 in
      let sign = raw_bits / 2 ^ 23 % 2 == 1 in
      if sign || mantissa == 0 || exponent == 0 || ltb 32 exponent
      then none
      else some (lib.from_compact raw_bits)

  unfoldable pub validates_target : Bytes → ℕ → Bool
  unfolding well_formed_compact_target
  validates_target hash bits = elim (well_formed_compact_target bits) [
    | none ↦ false
    | some target ↦ lib.is_met_by target hash
  ]

  unfoldable pub pow_validates_target : Header → Bool
  unfolding validates_target
  pow_validates_target header = validates_target (lib.block_hash header) header.bits

unfoldable pub parse_coinbase_height : Bytes → Option ℤ
parse_coinbase_height [] = none
parse_coinbase_height (byte_len ∷ rest) =
    if ltb (length (byte_len ∷ rest)) 2
    then none
    else if not (leb 1 byte_len && leb byte_len 4) || ltb (length rest) byte_len
    then none
    else (let height = as_i32 (from_le (take byte_len rest)) in
        if is_nonneg height then some height else none)

unfoldable pub parse_bip34_height : Bytes → Option ℤ
unfolding parse_coinbase_height
parse_bip34_height script_sig =
    keep_if (parse_coinbase_height script_sig) (λ height. leb_ℤ height (pos 2_000_000))

-- the sign is bit 7 of the byte at the index that the first byte gives
unfoldable pub parse_child_bip34_height : Bytes → Option ℤ
unfolding parse_coinbase_height
parse_child_bip34_height script_sig =
    keep_if (parse_coinbase_height script_sig)
      (λ height. get_or script_sig (get_or script_sig 0 0) 0 / 2 ^ 7 % 2 == 0)

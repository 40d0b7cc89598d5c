-- ===== src/Auxpow/Qbit.antt =====
-- qbit.rs: Qbit's own proof format, its version rules, and its commitment check.
-- Masks and shifts are written as quotients and remainders by powers of two.
pub mod Stored
pub mod Version
pub mod Commitment
pub mod Header
use merge_mining_monitor.Auxpow.{
  Fault, MerkleBranch, ParsedChildBlockCoinbase, ParsedHeader, bad_qbit_target, bad_transaction,
  branch_cap, coinbase_root_mismatch, direct_work, height_range, index_outside_tree,
  insufficient_work, minimum_version, not_first_transaction, parent_not_coinbase, proof_error,
  reserved_bits, short_block, short_header, slot_mismatch, trailing_bytes, tree_size_mismatch,
  version_layout, witness_encoding, wrong_chain_id, wrong_height,
}
use merge_mining_monitor.Auxpow.Blocks.{parse_child_block_coinbase_with_height}
use merge_mining_monitor.Auxpow.Classic.{option_eq_height}
use merge_mining_monitor.Auxpow.Decode.{output_addresses}
use merge_mining_monitor.Auxpow.Reader.{
  Read, Reader, is_eof, new, parse_header, read_array, read_hashes, read_i32, read_u8,
  remaining_slice, skip,
}
use merge_mining_monitor.Auxpow.Verify.{
  auxpow_expected_index, fold_merkle_branch, is_nonneg, parse_child_bip34_height,
  read_commitment_footer, slice, well_formed_compact_target,
}
use merge_mining_monitor.Auxpow.Verify.Elastos.{chain_root}
use merge_mining_monitor.Base.{
  Bool, List, Option, Result, String, [], bytes_eq, drop, ensure, get_elem?, if◌then◌else◌, keep_if,
  leb, length, ltb, map_err, none, not, ok, ok_or, replicate, reverse, some, take, true, ℕ, ◌%◌,
  ◌&&◌, ◌++◌, ◌-◌, ◌/◌, ◌==◌, ◌>>=◌, ◌>>◌, ◌^◌, ◌||◌, ◌∷◌,
}
use merge_mining_monitor.Base.Int.{eqb_ℤ, pos}
use merge_mining_monitor.Base.Words.{Bytes, as_u32}
use merge_mining_monitor.Bitcoin.{Library, TxIn, TxOut, header_size}

abbrev pub qbit_auxpow_chain_id : ℕ
qbit_auxpow_chain_id = 47

abbrev pub qbit_parent_branch_cap : ℕ
qbit_parent_branch_cap = 31

abbrev pub qbit_chain_branch_cap : ℕ
qbit_chain_branch_cap = 30

pub record ParsedQbitAuxpow : Type 0 where
  pub child_header : ParsedHeader
  pub parent_header : ParsedHeader
  pub parent_coinbase_txid : Bytes
  pub parent_coinbase_script : Bytes
  pub parent_coinbase_outputs : List TxOut
  pub parent_coinbase_output_addresses : List String
  pub coinbase_branch : MerkleBranch
  pub chain_branch : MerkleBranch
  pub auxpow_bytes : Bytes

pub data ParsedQbitBlock : Type 0 where
  direct : ParsedHeader → ParsedQbitBlock
  merged_block : ParsedQbitAuxpow → ParsedQbitBlock

pub record ParsedQbitAuxpowBlock : Type 0 where
  pub proof : ParsedQbitAuxpow
  pub coinbase : ParsedChildBlockCoinbase

pub record QbitRawAuxpow : Type 0 where
  pub coinbase_txid : Bytes
  pub coinbase_script : Bytes
  pub coinbase_outputs : List TxOut
  pub coinbase_branch : MerkleBranch
  pub chain_branch : MerkleBranch
  pub parent_header : ParsedHeader

-- the two tests on the top three bits, the reserved bits 9 to 12, bit 8, and bits 13 to 28
unfoldable pub qbit_version_gate : ℕ → ℕ → Result Fault Bool
qbit_version_gate version height = do
  ensure (height == 0 || (leb 4 version && ltb version 0x8000_0000)) minimum_version
  let shaped = version / 2 ^ 29 == 1
  ensure (shaped || version / 2 ^ 8 == 0) version_layout
  ensure (not shaped || version / 2 ^ 9 % 2 ^ 4 == 0) reserved_bits
  let merged = shaped && version / 2 ^ 8 % 2 == 1
  ensure (not merged || version / 2 ^ 13 % 2 ^ 16 == qbit_auxpow_chain_id) wrong_chain_id
  ok merged

unfoldable pub read_qbit_branch : ℕ → Read (List Bytes)
unfolding read_u8 read_hashes
read_qbit_branch limit reader = do
  (count, reader) ← read_u8 reader
  ensure (leb count limit) branch_cap
  read_hashes count reader

module _ (lib : Library) where
  -- two zero bytes and thirty of 0xff, big-endian
  qbit_pow_limit : ℕ
  qbit_pow_limit = lib.from_be_bytes (0 ∷ 0 ∷ replicate 30 0xff)

  -- `Target::ZERO` is the number zero
  pub qbit_child_target : ℕ → Result Fault ℕ
  unfolding well_formed_compact_target qbit_pow_limit
  qbit_child_target bits =
      ok_or
        (keep_if (well_formed_compact_target lib bits)
          (λ target. not (target == 0) && leb target qbit_pow_limit))
        bad_qbit_target

  -- `.get(4) != Some(&0x00)`: the byte where the number of inputs stands
  non_witness : Bytes → Bool
  non_witness remaining = elim (get_elem? remaining 4) [ none ↦ true | some b ↦ not (b == 0) ]

  -- a coinbase transaction has one input, which the program takes by `expect`
  coinbase_script_of : List TxIn → Bytes
  coinbase_script_of [] = []
  coinbase_script_of (input ∷ _) = input.script_sig

  unfoldable pub read_qbit_auxpow : Read QbitRawAuxpow
  unfolding non_witness skip read_qbit_branch read_i32 read_array parse_header coinbase_script_of
  read_qbit_auxpow reader = do
    ensure (non_witness (remaining_slice reader)) witness_encoding
    (tx, consumed) ← ok_or (lib.deserialize_partial (remaining_slice reader)) bad_transaction
    (_skipped, reader) ← skip consumed reader
    ensure (lib.is_coinbase tx) parent_not_coinbase
    (coinbase_hashes, reader) ← read_qbit_branch qbit_parent_branch_cap reader
    (coinbase_index, reader) ← read_i32 reader
    (chain_hashes, reader) ← read_qbit_branch qbit_chain_branch_cap reader
    (chain_index, reader) ← read_i32 reader
    (raw, reader) ← read_array header_size reader
    parent_header ← parse_header lib raw
    ok (
      record {
        coinbase_txid = lib.compute_txid tx;
        coinbase_script = coinbase_script_of tx.input;
        coinbase_outputs = tx.output;
        coinbase_branch = record { hashes = coinbase_hashes; index = coinbase_index };
        chain_branch = record { hashes = chain_hashes; index = chain_index };
        parent_header = parent_header;
      },
      reader,
    )

  unfoldable pub verify_qbit_proof : ParsedHeader → QbitRawAuxpow → Result Fault (Unit {0})
  unfolding is_nonneg fold_merkle_branch read_commitment_footer auxpow_expected_index bytes_eq
  verify_qbit_proof child_header proof = do
    ensure (eqb_ℤ proof.coinbase_branch.index (pos 0)) not_first_transaction
    let chain_len = length proof.chain_branch.hashes
    let chain_index = proof.chain_branch.index
    ensure (is_nonneg chain_index && ltb (as_u32 chain_index) (2 ^ chain_len)) index_outside_tree
    ensure
        (bytes_eq (fold_merkle_branch lib proof.coinbase_txid proof.coinbase_branch)
          proof.parent_header.header.merkle_root)
        coinbase_root_mismatch
    let chain_root = fold_merkle_branch lib (lib.block_hash child_header.header) proof.chain_branch
    (tree_size, nonce) ← read_commitment_footer proof.coinbase_script (reverse chain_root)
    ensure (tree_size == 2 ^ chain_len) tree_size_mismatch
    ensure (as_u32 chain_index == auxpow_expected_index nonce qbit_auxpow_chain_id chain_len)
        slot_mismatch

  direct_header : ParsedHeader → ℕ → Reader → Result Fault ParsedQbitBlock
  unfolding is_eof
  direct_header child_header child_target reader = do
    ensure (is_eof reader) trailing_bytes
    ensure (lib.is_met_by child_target (lib.block_hash child_header.header)) direct_work
    ok (direct child_header)

  merged_header : Bytes → ParsedHeader → ℕ → Reader → Result Fault ParsedQbitBlock
  unfolding is_eof read_qbit_auxpow verify_qbit_proof
  merged_header raw child_header child_target reader = do
    let auxpow_start = reader.pos
    (proof, reader) ← map_err proof_error (read_qbit_auxpow reader)
    ensure (is_eof reader) (proof_error trailing_bytes)
    map_err proof_error (verify_qbit_proof child_header proof)
    ensure (lib.is_met_by child_target (lib.block_hash proof.parent_header.header))
        insufficient_work
    ok (
        merged_block (record {
          child_header = child_header;
          parent_header = proof.parent_header;
          parent_coinbase_txid = proof.coinbase_txid;
          parent_coinbase_script = proof.coinbase_script;
          parent_coinbase_outputs = proof.coinbase_outputs;
          parent_coinbase_output_addresses = output_addresses lib proof.coinbase_outputs;
          coinbase_branch = proof.coinbase_branch;
          chain_branch = proof.chain_branch;
          auxpow_bytes = slice raw auxpow_start (reader.pos - auxpow_start);
        }))

  unfoldable pub parse_qbit_extended_header : Bytes → ℕ → Result Fault ParsedQbitBlock
  unfolding parse_header qbit_version_gate qbit_child_target skip direct_header merged_header
  parse_qbit_extended_header raw child_height = do
    ensure (leb header_size (length raw)) short_header
    child_header ← parse_header lib (slice raw 0 header_size)
    merged ← qbit_version_gate (as_u32 child_header.header.version) child_height
    child_target ← qbit_child_target child_header.header.bits
    (_skipped, reader) ← skip header_size (new raw)
    if merged
        then merged_header raw child_header child_target reader
        else direct_header child_header child_target reader

  proof_prefix : Bytes → Result Fault Bytes
  unfolding skip read_qbit_auxpow
  proof_prefix raw = do
    (_skipped, reader) ← skip header_size (new raw)
    (_proof, reader) ← map_err proof_error (read_qbit_auxpow reader)
    ok (take reader.pos raw)

  unfoldable pub qbit_extended_header_prefix : Bytes → ℕ → Result Fault Bytes
  unfolding parse_header qbit_version_gate proof_prefix
  qbit_extended_header_prefix raw child_height = do
    ensure (leb header_size (length raw)) short_block
    child_header ← parse_header lib (slice raw 0 header_size)
    merged ← qbit_version_gate (as_u32 child_header.header.version) child_height
    if merged then proof_prefix raw else ok (slice raw 0 header_size)

  with_coinbase : Bytes → Bytes → ℕ → ParsedQbitBlock → Result Fault (Option ParsedQbitAuxpowBlock)
  unfolding parse_child_block_coinbase_with_height parse_child_bip34_height
  with_coinbase raw prefix child_height (direct _) = ok none
  with_coinbase raw prefix child_height (merged_block proof) = do
    let child_bytes = slice raw 0 header_size ++ drop (length prefix) raw
    coinbase ← parse_child_block_coinbase_with_height lib child_bytes parse_child_bip34_height
    ensure (ltb child_height (2 ^ 31)) height_range
    ensure (option_eq_height coinbase.child_height (pos child_height)) wrong_height
    ok (some (record { proof = proof; coinbase = coinbase }))

  unfoldable pub parse_qbit_block : Bytes → ℕ → Result Fault (Option ParsedQbitAuxpowBlock)
  unfolding qbit_extended_header_prefix parse_qbit_extended_header with_coinbase
  parse_qbit_block raw child_height = do
    prefix ← qbit_extended_header_prefix raw child_height
    parsed ← parse_qbit_extended_header prefix child_height
    with_coinbase raw prefix child_height parsed

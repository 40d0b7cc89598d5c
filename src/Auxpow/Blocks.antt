-- ===== src/Auxpow/Blocks.antt =====
-- auxpow/mod.rs: the parsers of blocks, header blobs and Elastos records.
pub mod Body
pub mod Blob
use merge_mining_monitor.Auxpow.{
  Fault, ParsedAuxpow, ParsedAuxpowBlock, ParsedChildBlockCoinbase, ParsedHeader,
  ParsedNamecoinBlock, auxpow, bad_block, blob_cap, body_coinbase, body_inputs, body_root,
  child_hash_mismatch, missing_transactions, no_transactions, non_auxpow, not_auxpow, short_blob,
  short_block, trailing_bytes,
}
use merge_mining_monitor.Auxpow.Decode.{output_addresses}
use merge_mining_monitor.Auxpow.Reader.{
  Reader, is_eof, new, parse_header, read_array, read_auxpow, read_transaction, read_varint_usize,
  skip,
}
use merge_mining_monitor.Auxpow.Verify.{parse_bip34_height, slice}
use merge_mining_monitor.Base.{
  Bool, List, Option, Result, String, [], and_then, bytes_eq, ensure, err, if◌then◌else◌, leb,
  length, ltb, none, not, ok, ok_or, some, ℕ, ◌%◌, ◌-◌, ◌/◌, ◌==◌, ◌>>=◌, ◌>>◌, ◌^◌, ◌∷◌,
}
use merge_mining_monitor.Base.Int.{ℤ}
use merge_mining_monitor.Base.Words.{Bytes, as_u32}
use merge_mining_monitor.Bitcoin.{Header, Library, Transaction, TxIn, TxOut, header_size}

-- `VERSION_AUXPOW`, bit 8 of the version
abbrev pub has_auxpow_bit : Header → Bool
has_auxpow_bit header = as_u32 header.version / 2 ^ 8 % 2 == 1

pub record ChildCoinbase : Type 0 where
  pub height : Option ℤ
  pub txid : Option Bytes
  pub script : Option Bytes
  pub outputs : List TxOut
  pub output_addresses : List String

abbrev pub absent : ChildCoinbase
absent = record { height = none; txid = none; script = none; outputs = []; output_addresses = [] }

abbrev pub unwrap_or_empty : Option Bytes → Bytes
unwrap_or_empty none = []
unwrap_or_empty (some script) = script

abbrev pub option_or {ℓ} : {A : Type ℓ} → Option A → Option A → Option A
option_or none b = b
option_or (some a) b = some a

module _ (lib : Library) where
  unfoldable pub assemble_auxpow_block :
      ParsedHeader → ChildCoinbase → ParsedAuxpow → Bytes → ParsedAuxpowBlock
  assemble_auxpow_block child_header child parsed auxpow_bytes = record {
    child_header = child_header;
    child_height = child.height;
    child_coinbase_txid = child.txid;
    child_coinbase_script = child.script;
    child_coinbase_outputs = child.outputs;
    child_coinbase_output_addresses = child.output_addresses;
    parent_header = parsed.parent_header;
    proof = record {
      hash_block = parsed.hash_block;
      coinbase_branch = parsed.coinbase_branch;
      chain_branch = parsed.chain_branch;
    };
    parent_coinbase_txid = parsed.coinbase_tx.txid;
    parent_coinbase_script = unwrap_or_empty parsed.coinbase_tx.first_input_script;
    parent_coinbase_outputs = parsed.coinbase_tx.outputs;
    parent_coinbase_output_addresses = output_addresses lib parsed.coinbase_tx.outputs;
    auxpow_bytes = auxpow_bytes;
  }

  with_proof : ParsedHeader → Reader → Result Fault (ParsedHeader × Option (ParsedAuxpow × ℕ))
  unfolding read_auxpow
  with_proof header reader = do
    (proof, reader) ← read_auxpow lib reader
    ok (header, some (proof, reader.pos))

  -- classic.rs: the header, and the proof with the offset of the body if the version bit is set
  unfoldable pub read_classic_prefix :
      Bytes → Result Fault (ParsedHeader × Option (ParsedAuxpow × ℕ))
  unfolding read_array parse_header with_proof
  read_classic_prefix raw = do
    ensure (leb header_size (length raw)) short_block
    (bytes, reader) ← read_array header_size (new raw)
    header ← parse_header lib bytes
    if has_auxpow_bit header.header then with_proof header reader else ok (header, none)

  child_from_body : Reader → Result Fault ChildCoinbase
  unfolding read_varint_usize read_transaction parse_bip34_height
  child_from_body reader = do
    (tx_count, reader) ← read_varint_usize reader
    ensure (ltb 0 tx_count) no_transactions
    (coinbase, reader) ← read_transaction lib reader
    ok (record {
      height = and_then coinbase.first_input_script parse_bip34_height;
      txid = some coinbase.txid;
      script = coinbase.first_input_script;
      outputs = coinbase.outputs;
      output_addresses = [];
    })

  with_body : Bytes → ParsedHeader → ParsedAuxpow → ℕ → Result Fault ParsedNamecoinBlock
  unfolding skip is_eof child_from_body assemble_auxpow_block
  with_body raw child_header proof auxpow_end = do
    (_skipped, reader) ← skip auxpow_end (new raw)
    child ← (if not (is_eof reader) then child_from_body reader else err missing_transactions)
    ok (
        auxpow (
          assemble_auxpow_block child_header child proof
            (slice raw header_size (auxpow_end - header_size))))

  unfoldable pub parse_namecoin_block : Bytes → Result Fault ParsedNamecoinBlock
  unfolding read_classic_prefix with_body
  parse_namecoin_block raw = do
    (child_header, prefix) ← read_classic_prefix raw
    elim prefix [
      | none ↦ ok (non_auxpow child_header)
      | some (proof, auxpow_end) ↦ with_body raw child_header proof auxpow_end
    ]

  unfoldable pub parse_auxpow_header_blob : Bytes → Result Fault ParsedAuxpowBlock
  unfolding parse_header skip read_auxpow assemble_auxpow_block
  parse_auxpow_header_blob raw = do
    ensure (leb header_size (length raw)) short_blob
    child_header ← parse_header lib (slice raw 0 header_size)
    ensure (has_auxpow_bit child_header.header) not_auxpow
    (_skipped, reader) ← skip header_size (new raw)
    let auxpow_start = reader.pos
    (proof, reader) ← read_auxpow lib reader
    let auxpow_end = reader.pos
    ok (
        assemble_auxpow_block child_header absent proof
          (slice raw auxpow_start (auxpow_end - auxpow_start)))

  first_transaction : List Transaction → Result Fault Transaction
  first_transaction [] = err no_transactions
  first_transaction (tx ∷ _) = ok tx

  first_input : List TxIn → Result Fault TxIn
  first_input [] = err body_inputs
  first_input (input ∷ _) = ok input

  unfoldable pub parse_child_block_coinbase_with_height :
      Bytes → (Bytes → Option ℤ) → Result Fault ParsedChildBlockCoinbase
  unfolding first_transaction first_input
  parse_child_block_coinbase_with_height raw height_parser = do
    block ← ok_or (lib.deserialize_block raw) bad_block
    ensure (lib.check_merkle_root block) body_root
    coinbase ← first_transaction block.txdata
    ensure (lib.is_coinbase coinbase) body_coinbase
    input ← first_input coinbase.input
    let script = input.script_sig
    ok (record {
      child_header = record { header = block.header };
      child_height = height_parser script;
      child_coinbase_txid = lib.compute_txid coinbase;
      child_coinbase_script = script;
      child_coinbase_outputs = coinbase.output;
    })

  unfoldable pub parse_child_block_coinbase : Bytes → Result Fault ParsedChildBlockCoinbase
  unfolding parse_child_block_coinbase_with_height parse_bip34_height
  parse_child_block_coinbase raw = parse_child_block_coinbase_with_height raw parse_bip34_height

  -- on a mismatch the proof is not changed, so the failure carries no block
  unfoldable pub attach_child_block_coinbase :
      ParsedAuxpowBlock → ParsedChildBlockCoinbase → Result Fault ParsedAuxpowBlock
  unfolding bytes_eq
  attach_child_block_coinbase parsed child = do
    ensure
        (bytes_eq (lib.block_hash parsed.child_header.header)
          (lib.block_hash child.child_header.header))
        child_hash_mismatch
    ok (record parsed {
      child_height = option_or parsed.child_height child.child_height;
      child_coinbase_txid = some child.child_coinbase_txid;
      child_coinbase_script = some child.child_coinbase_script;
      child_coinbase_outputs = child.child_coinbase_outputs;
      child_coinbase_output_addresses = [];
    })

  abbrev pub max_elastos_auxpow_bytes : ℕ
  max_elastos_auxpow_bytes = 4096

  unfoldable pub parse_elastos_auxpow : ParsedHeader → Bytes → Result Fault ParsedAuxpowBlock
  unfolding read_auxpow is_eof assemble_auxpow_block
  parse_elastos_auxpow child_header auxpow_blob = do
    ensure (leb (length auxpow_blob) max_elastos_auxpow_bytes) blob_cap
    (proof, reader) ← read_auxpow lib (new auxpow_blob)
    ensure (is_eof reader) trailing_bytes
    ok (assemble_auxpow_block child_header absent proof auxpow_blob)

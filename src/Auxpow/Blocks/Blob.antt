-- ===== src/Auxpow/Blocks/Blob.antt =====
-- Reading back whole header blobs and stored proofs.
use mathlib.Core.List.{append-nil}
use merge_mining_monitor.Auxpow.{ParsedAuxpowBlock, ParsedHeader}
use merge_mining_monitor.Auxpow.Blocks.{
  absent, assemble_auxpow_block, has_auxpow_bit, max_elastos_auxpow_bytes, parse_auxpow_header_blob,
  parse_elastos_auxpow,
}
use merge_mining_monitor.Auxpow.Decode.{decode_auxpow_proof, decode_record, output_addresses}
use merge_mining_monitor.Auxpow.Reader.{is_eof, new, read_auxpow, skip, usize_limit}
use merge_mining_monitor.Auxpow.Reader.Records.{
  Encoding, IsEncoding, encode_auxpow, first_script, parse_header_ok, parsed_transaction,
  parsed_transaction-script, read_auxpow-Reads, record_of, skip-Reads,
}
use merge_mining_monitor.Auxpow.Verify.{slice}
use merge_mining_monitor.Auxpow.Verify.Merkle.{bit}
use merge_mining_monitor.Base.{
  [], arith, drop-append, length, length-append, le→leb, none, ok, refl, some, sym, take-append,
  true, ℕ, ◌++◌, ◌+◌, ◌-◌, ◌<◌, ◌≡◌, ◌≤◌,
}
use merge_mining_monitor.Base.Int.{pos}
use merge_mining_monitor.Base.Words.{Bytes}
use merge_mining_monitor.Bitcoin.{Header, Library, Transaction, header_size}
use merge_mining_monitor.Examples.Toy.{child_bytes}

-- what a header and an encoded record hold
abbrev pub whole_block : Library → Header → Transaction → Header → Encoding → ParsedAuxpowBlock
whole_block lib child tx parent e = record {
  child_header = record { header = child };
  child_height = none;
  child_coinbase_txid = none;
  child_coinbase_script = none;
  child_coinbase_outputs = [];
  child_coinbase_output_addresses = [];
  parent_header = record { header = parent };
  proof = record {
    hash_block = e.hash_block;
    coinbase_branch = record { hashes = e.coinbase_hashes; index = e.coinbase_index };
    chain_branch = record { hashes = e.chain_hashes; index = e.chain_index };
  };
  parent_coinbase_txid = lib.compute_txid tx;
  parent_coinbase_script = first_script tx.input;
  parent_coinbase_outputs = tx.output;
  parent_coinbase_output_addresses = output_addresses lib tx.output;
  auxpow_bytes = encode_auxpow e;
}

-- the first bytes of a blob
header_slice :
    (header rest : Bytes)
    → length header ≡ header_size
    → slice (header ++ rest) 0 header_size ≡ header
header_slice header rest e = rw e at (take-append header rest)

proof_slice :
    (header proof rest : Bytes)
    → length header ≡ header_size
    → slice (header ++ (proof ++ rest)) header_size (length proof) ≡ proof
proof_slice header proof rest e =
    rw (sym e, drop-append header (proof ++ rest)) (take-append proof rest)

skip_to_proof :
    (header rest : Bytes)
    → length header ≡ header_size
    → length (header ++ rest) < usize_limit
    → skip header_size (new (header ++ rest))
      ≡ ok (tt, record { buf = header ++ rest; pos = header_size })
skip_to_proof header rest e fits =
    let at_end : 0 + length header ≡ header_size = omega (arith, e) in
    rw (at_end, e) at ((skip-Reads header).at (header ++ rest) 0 rest (omega arith) fits refl)

module _ (lib : Library) (tx : Transaction) (parent : Header) (e : Encoding)
    (encoded : IsEncoding lib tx parent e) where
  whole_record :
      length (encode_auxpow e) < usize_limit
      → read_auxpow lib (new (encode_auxpow e))
        ≡ ok (
          record_of lib tx parent e,
          record { buf = encode_auxpow e; pos = length (encode_auxpow e) },
        )
  whole_record fits =
      let end : 0 + length (encode_auxpow e) ≡ length (encode_auxpow e) = omega arith in
      rw end at (
        (read_auxpow-Reads lib tx parent e encoded).at (encode_auxpow e) 0 [] (omega arith) fits
          (sym (append-nil (encode_auxpow e))))

  -- An encoded `CAuxPow` record behind the 80 bytes of a child header whose version announces it,
  -- whatever follows, in a blob that memory can hold, is read back: the blob parser returns the child
  -- header, the parent's header, the record's hash, each branch with its index, the id, the first
  -- script and the outputs of the parent's coinbase, nothing of a child coinbase, and exactly the bytes
  -- of the record as the kept proof.
  pub parse_auxpow_header_blob-encode_auxpow :
      (child : Header) (child_bytes rest : Bytes)
      → length child_bytes ≡ header_size
      → lib.deserialize_header child_bytes ≡ some child
      → has_auxpow_bit child ≡ true
      → length (child_bytes ++ (encode_auxpow e ++ rest)) < usize_limit
      → parse_auxpow_header_blob lib (child_bytes ++ (encode_auxpow e ++ rest))
        ≡ ok (whole_block lib child tx parent e)
  unfolding parse_auxpow_header_blob assemble_auxpow_block parsed_transaction
  parse_auxpow_header_blob-encode_auxpow child child_bytes rest width parsed bit fits =
      let raw = child_bytes ++ (encode_auxpow e ++ rest) in
      let enough : header_size ≤ length raw =
        omega (arith, width, length-append child_bytes (encode_auxpow e ++ rest)) in
      let read =
        (read_auxpow-Reads lib tx parent e encoded).at raw header_size rest enough fits
          (rw (sym width) (drop-append child_bytes (encode_auxpow e ++ rest))) in
      let span : header_size + length (encode_auxpow e) - header_size ≡ length (encode_auxpow e) =
        omega arith in
      rw (
        le→leb header_size _ enough,
        header_slice child_bytes (encode_auxpow e ++ rest) width,
        parse_header_ok lib child_bytes child parsed,
        bit,
        skip_to_proof child_bytes (encode_auxpow e ++ rest) width fits,
        read,
        span,
        proof_slice child_bytes (encode_auxpow e) rest width,
        parsed_transaction-script lib tx,
      )

  -- An encoded record of at most 4096 bytes is read back by the Elastos parser, which keeps the whole
  -- blob as the proof.
  pub parse_elastos_auxpow-encode_auxpow :
      (child : ParsedHeader)
      → length (encode_auxpow e) ≤ max_elastos_auxpow_bytes lib
      → parse_elastos_auxpow lib child (encode_auxpow e)
        ≡ ok (assemble_auxpow_block lib child absent (record_of lib tx parent e) (encode_auxpow e))
  unfolding parse_elastos_auxpow is_eof
  parse_elastos_auxpow-encode_auxpow child small = rw (
    le→leb _ _ small,
    whole_record (omega arith),
    le→leb (length (encode_auxpow e)) (length (encode_auxpow e)) (omega arith),
  )

  -- A stored proof is read back: from the bytes of a record whose two indexes are not negative,
  -- `decode_auxpow_proof` returns the parent's hash, the record's hash, and both branches.
  pub decode_auxpow_proof-encode_auxpow :
      (slot_index coinbase_index : ℕ)
      → e.chain_index ≡ pos slot_index
      → e.coinbase_index ≡ pos coinbase_index
      → length (encode_auxpow e) < usize_limit
      → decode_auxpow_proof lib (encode_auxpow e)
        ≡ some (record {
          slot_index = slot_index;
          parent_header_hash = lib.block_hash parent;
          hash_block = e.hash_block;
          coinbase_branch = record { index = coinbase_index; siblings = e.coinbase_hashes };
          blockchain_branch = record { index = slot_index; siblings = e.chain_hashes };
        })
  unfolding decode_auxpow_proof is_eof decode_record
  decode_auxpow_proof-encode_auxpow slot_index coinbase_index slot first fits = rw (
    whole_record fits,
    le→leb (length (encode_auxpow e)) (length (encode_auxpow e)) (omega arith),
    slot,
    first,
  )

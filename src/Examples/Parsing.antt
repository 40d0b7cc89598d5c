-- ===== src/Examples/Parsing.antt =====
-- The parsers.
use merge_mining_monitor.Auxpow.{ParsedChildBlockCoinbase, auxpow}
use merge_mining_monitor.Auxpow.Blocks.{
  has_auxpow_bit, max_elastos_auxpow_bytes, parse_auxpow_header_blob,
  parse_child_block_coinbase_with_height,
}
use merge_mining_monitor.Auxpow.Blocks.Blob.{parse_auxpow_header_blob-encode_auxpow, whole_block}
use merge_mining_monitor.Auxpow.Classic.{parse_verified_classic_block}
use merge_mining_monitor.Auxpow.Classic.Authentic.{IsAuthentic, parse_verified_classic_block_sound}
use merge_mining_monitor.Auxpow.Decode.{output_addresses}
use merge_mining_monitor.Auxpow.Reader.{new, read_auxpow, usize_limit}
use merge_mining_monitor.Auxpow.Reader.Records.{
  IsEncoding, encode_auxpow, encode_branch, parsed_transaction, record_of,
}
use merge_mining_monitor.Auxpow.Reader.RoundTrip.{concat, encode_varint}
use merge_mining_monitor.Auxpow.Verify.{is_nonneg, parse_child_bip34_height}
use merge_mining_monitor.Base.{
  [], arith, length, ok, refl, replicate, some, true, ◌++◌, ◌<◌, ◌∷◌, ◌≡◌, ◌≤◌,
}
use merge_mining_monitor.Base.Int.{pos}
use merge_mining_monitor.Base.Words.{from_le, length-to_le, to_le}
use merge_mining_monitor.Bitcoin.{Header, header_size}
use merge_mining_monitor.Examples.Toy.{
  body, child_bytes, child_hash, encoding, header_of, parent_bytes, parent_script, parsed_block,
  raw_block, toy, toy_digests, toy_hash, transaction_of,
}

encoding-IsEncoding :
    IsEncoding toy (transaction_of parent_script) (header_of parent_bytes) encoding
unfolding from_le to_le
encoding-IsEncoding = record {
  transaction = λ rest. refl;
  parent = refl;
  header_width = refl;
  hash_width = refl;
  coinbase_widths = (refl, tt);
  chain_widths = tt;
  coinbase_count = omega arith;
  chain_count = omega arith;
  coinbase_word = omega arith;
  chain_word = omega arith;
}

block_parses :
    parse_verified_classic_block toy raw_block child_hash (pos 5) 1 ≡ ok (auxpow parsed_block)
unfolding parse_verified_classic_block encode_auxpow encode_varint concat from_le to_le
    output_addresses
block_parses = refl

parse_verified_classic_block_sound_example :
    IsAuthentic toy raw_block child_hash (pos 5) 1 parsed_block
parse_verified_classic_block_sound_example =
    parse_verified_classic_block_sound toy toy_digests raw_block child_hash (length-to_le 32 7)
      (pos 5) 1 parsed_block block_parses

child_width : length child_bytes ≡ header_size
unfolding to_le
child_width = refl

child_bit : has_auxpow_bit (header_of child_bytes) ≡ true
unfolding from_le to_le
child_bit = refl

record_small : length (encode_auxpow encoding) ≤ max_elastos_auxpow_bytes toy
unfolding encode_auxpow encode_varint concat to_le
record_small = omega arith

record_fits : length (encode_auxpow encoding) < usize_limit
unfolding encode_auxpow encode_varint concat to_le
record_fits = omega arith

blob_fits : length (child_bytes ++ (encode_auxpow encoding ++ body)) < usize_limit
unfolding encode_auxpow encode_varint concat to_le
blob_fits = omega arith

abbrev parent_header : Header
parent_header = header_of parent_bytes

parse_auxpow_header_blob-encode_auxpow_example :
    parse_auxpow_header_blob toy (child_bytes ++ (encode_auxpow encoding ++ body))
    ≡ ok (
        whole_block toy
          (header_of child_bytes)
          (transaction_of parent_script)
          parent_header
          encoding)
parse_auxpow_header_blob-encode_auxpow_example =
    parse_auxpow_header_blob-encode_auxpow toy (transaction_of parent_script) parent_header encoding
      encoding-IsEncoding (header_of child_bytes) child_bytes body child_width refl child_bit
      blob_fits

read_auxpow_fits : length ((1 ∷ []) ++ (encode_auxpow encoding ++ body)) < usize_limit
unfolding encode_auxpow encode_varint concat to_le
read_auxpow_fits = omega arith

whole_reads :
    read_auxpow toy (new (encode_auxpow encoding))
    ≡ ok (
      record_of toy (transaction_of parent_script) parent_header encoding,
      record { buf = encode_auxpow encoding; pos = length (encode_auxpow encoding) },
    )
unfolding read_auxpow encode_auxpow encode_varint concat from_le to_le parsed_transaction
whole_reads = refl

varint_fits : length ((9 ∷ []) ++ (encode_varint 70_000 ++ (8 ∷ []))) < usize_limit
unfolding encode_varint to_le
varint_fits = omega arith

branch_fits : length ((9 ∷ []) ++ (encode_branch (replicate 32 3 ∷ []) ++ (8 ∷ []))) < usize_limit
unfolding encode_branch encode_varint concat
branch_fits = omega arith

abbrev body_coinbase_of : ParsedChildBlockCoinbase
body_coinbase_of = record {
  child_header = record { header = header_of child_bytes };
  child_height = some (pos 5);
  child_coinbase_txid = toy_hash (1 ∷ 5 ∷ []);
  child_coinbase_script = 1 ∷ 5 ∷ [];
  child_coinbase_outputs = [];
}

body_parses :
    parse_child_block_coinbase_with_height toy (child_bytes ++ body) parse_child_bip34_height
    ≡ ok body_coinbase_of
unfolding parse_child_block_coinbase_with_height parse_child_bip34_height is_nonneg from_le to_le
body_parses = refl

-- ===== src/Examples/Toy.antt =====
-- A concrete library: real header bytes, a transaction of one input whose script follows its length,
-- and a digest that keeps the first 32 bytes.
use merge_mining_monitor.Auxpow.{ParsedAuxpowBlock}
use merge_mining_monitor.Auxpow.Reader.Records.{Encoding, encode_auxpow}
use merge_mining_monitor.Auxpow.Verify.{auxpow_magic, slice}
use merge_mining_monitor.Auxpow.Verify.Commitments.{HasDigests}
use merge_mining_monitor.Base.{
  List, Option, [], drop, leb, none, replicate, reverse, some, suc, take, true, ℕ, ◌++◌, ◌∷◌,
}
use merge_mining_monitor.Base.Int.{pos}
use merge_mining_monitor.Base.Words.{Bytes, as_i32, from_le, length-to_le, to_le}
use merge_mining_monitor.Bitcoin.{Block, Header, Library, Transaction, TxIn}

abbrev pub header_of : Bytes → Header
header_of raw = record {
  version = as_i32 (from_le (slice raw 0 4));
  prev_blockhash = slice raw 4 32;
  merkle_root = slice raw 36 32;
  time = from_le (slice raw 68 4);
  bits = from_le (slice raw 72 4);
  nonce = from_le (slice raw 76 4);
}

abbrev pub transaction_of : Bytes → Transaction
transaction_of script = record {
  version = pos 1;
  lock_time = 0;
  input =
      record {
        previous_output = record { txid = replicate 32 0; vout = 0 };
        script_sig = script;
        sequence = 0;
        witness = [];
      }
      ∷ [];
  output = [];
}

abbrev pub toy_partial : Bytes → Option (Transaction × ℕ)
toy_partial [] = none
toy_partial (n ∷ rest) = some (transaction_of (take n rest), suc n)

abbrev pub toy_transaction : Bytes → Option Transaction
toy_transaction [] = none
toy_transaction (n ∷ rest) = some (transaction_of (take n rest))

abbrev pub toy_block : Bytes → Option Block
toy_block raw = elim (toy_transaction (drop 81 raw)) [
  | none ↦ none
  | some tx ↦ some (record { header = header_of raw; txdata = tx ∷ [] })
]

abbrev pub toy_hash : Bytes → Bytes
toy_hash bytes = to_le 32 (from_le bytes)

abbrev pub script_of : List TxIn → Bytes
script_of [] = []
script_of (input ∷ _) = input.script_sig

abbrev pub toy : Library
toy = record {
  sha256d = toy_hash;
  block_hash = λ header. to_le 32 header.nonce;
  deserialize_header = λ raw. some (header_of raw);
  deserialize_partial = toy_partial;
  deserialize_transaction = toy_transaction;
  deserialize_block = toy_block;
  check_merkle_root = λ block. true;
  compute_txid = λ tx. toy_hash (script_of tx.input);
  is_coinbase = λ tx. true;
  address_from_script = λ script. none;
  from_compact = λ bits. bits;
  from_be_bytes = λ bytes. from_le (reverse bytes);
  is_met_by = λ target hash. leb (from_le hash) target;
}

pub toy_digests : HasDigests toy
toy_digests bytes = length-to_le 32 (from_le bytes)

-- the 80 bytes of a header with nothing before it
abbrev pub header_bytes : ℕ → Bytes → ℕ → ℕ → Bytes
header_bytes version merkle_root bits nonce =
    to_le 4 version
    ++ (replicate 32 0 ++ (merkle_root ++ (to_le 4 0 ++ (to_le 4 bits ++ to_le 4 nonce))))

-- a script of 44 bytes: the marker, a root, a tree of one chain, and the nonce 0
abbrev pub marked_script : Bytes → Bytes
marked_script root = auxpow_magic ++ (root ++ (to_le 4 1 ++ to_le 4 0))

abbrev pub child_hash : Bytes
child_hash = to_le 32 7

abbrev pub parent_script : Bytes
parent_script = marked_script (reverse child_hash)

abbrev pub parent_txid : Bytes
parent_txid = toy_hash parent_script

abbrev pub parent_bytes : Bytes
parent_bytes = header_bytes 2 parent_txid 0 5

-- chain id 1, the AuxPoW bit, and a target of 0x04001000
abbrev pub child_bytes : Bytes
child_bytes = header_bytes 0x1_0100 (replicate 32 0) 0x0400_1000 7

abbrev pub encoding : Encoding
encoding = record {
  tx = 44 ∷ parent_script;
  hash_block = replicate 32 9;
  coinbase_hashes = replicate 32 3 ∷ [];
  coinbase_index = pos 0;
  chain_hashes = [];
  chain_index = pos 0;
  header = parent_bytes;
}

-- one transaction whose script pushes the height 5
abbrev pub body : Bytes
body = 1 ∷ 2 ∷ 1 ∷ 5 ∷ []

abbrev pub raw_block : Bytes
raw_block = child_bytes ++ (encode_auxpow encoding ++ body)

abbrev pub parsed_block : ParsedAuxpowBlock
parsed_block = record {
  child_header = record { header = header_of child_bytes };
  child_height = some (pos 5);
  child_coinbase_txid = some (toy_hash (1 ∷ 5 ∷ []));
  child_coinbase_script = some (1 ∷ 5 ∷ []);
  child_coinbase_outputs = [];
  child_coinbase_output_addresses = [];
  parent_header = record { header = header_of parent_bytes };
  proof = record {
    hash_block = replicate 32 9;
    coinbase_branch = record { hashes = replicate 32 3 ∷ []; index = pos 0 };
    chain_branch = record { hashes = []; index = pos 0 };
  };
  parent_coinbase_txid = parent_txid;
  parent_coinbase_script = parent_script;
  parent_coinbase_outputs = [];
  parent_coinbase_output_addresses = [];
  auxpow_bytes = encode_auxpow encoding;
}

-- ===== src/Bitcoin.antt =====
-- What the program takes from the rust-bitcoin crate (`bitcoin`, a dependency): its public structs,
-- and, as the fields of `Library`, the functions of it that are called. Nothing is assumed of those
-- functions here; a theorem that relies on one says so in a hypothesis.
use merge_mining_monitor.Base.{ℕ, String, List, Bool, Option}
use merge_mining_monitor.Base.Int.{ℤ}
use merge_mining_monitor.Base.Words.{Bytes}

-- `bitcoin::block::Header`; hashes are 32 bytes in wire order, `bits` is a compact target.
pub record Header : Type 0 where
  pub version : ℤ
  pub prev_blockhash : Bytes
  pub merkle_root : Bytes
  pub time : ℕ
  pub bits : ℕ
  pub nonce : ℕ

-- `Header::SIZE`
abbrev pub header_size : ℕ
header_size = 80

pub record OutPoint : Type 0 where
  pub txid : Bytes
  pub vout : ℕ

pub record TxIn : Type 0 where
  pub previous_output : OutPoint
  pub script_sig : Bytes
  pub sequence : ℕ
  pub witness : List Bytes

pub record TxOut : Type 0 where
  pub value : ℕ
  pub script_pubkey : Bytes

pub record Transaction : Type 0 where
  pub version : ℤ
  pub lock_time : ℕ
  pub input : List TxIn
  pub output : List TxOut

pub record Block : Type 0 where
  pub header : Header
  pub txdata : List Transaction

-- The functions of the crate that the program calls. A `Target` is the 256-bit number it holds.
pub record Library : Type 0 where
  -- `sha256d::Hash::hash`
  pub sha256d : Bytes → Bytes
  -- `Header::block_hash`
  pub block_hash : Header → Bytes
  -- `deserialize::<Header>`, of 80 bytes
  pub deserialize_header : Bytes → Option Header
  -- `deserialize_partial::<Transaction>`, with the number of bytes consumed
  pub deserialize_partial : Bytes → Option (Transaction × ℕ)
  -- `deserialize::<Transaction>`
  pub deserialize_transaction : Bytes → Option Transaction
  -- `deserialize::<Block>`
  pub deserialize_block : Bytes → Option Block
  -- `Block::check_merkle_root`
  pub check_merkle_root : Block → Bool
  -- `Transaction::compute_txid`
  pub compute_txid : Transaction → Bytes
  -- `Transaction::is_coinbase`
  pub is_coinbase : Transaction → Bool
  -- `Address::from_script(_, Network::Bitcoin)`, printed
  pub address_from_script : Bytes → Option String
  -- `Target::from_compact`
  pub from_compact : ℕ → ℕ
  -- `Target::from_be_bytes`
  pub from_be_bytes : Bytes → ℕ
  -- `Target::is_met_by`
  pub is_met_by : ℕ → Bytes → Bool

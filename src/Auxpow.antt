-- ===== src/Auxpow.antt =====
-- AuxPoW proofs (crates/mmm-capture/src/auxpow): the data types, and the modules of each part.
pub mod Reader
pub mod Verify
pub mod Decode
pub mod Blocks
pub mod Classic
pub mod Qbit
use merge_mining_monitor.Base.{Bool, List, Option, String}
use merge_mining_monitor.Base.Int.{ℤ}
use merge_mining_monitor.Base.Words.{Bytes}
use merge_mining_monitor.Bitcoin.{Header, TxOut}

-- Why a parse or a check failed: the root cause of the `anyhow` error.
pub data Fault : Type 0 where
  position_overflow unexpected_end branch_count_exceeds : Fault
  bad_header bad_transaction bad_block : Fault
  short_block short_blob no_transactions missing_transactions not_auxpow trailing_bytes : Fault
  body_root body_coinbase body_inputs child_hash_mismatch blob_cap : Fault
  magic_absent multiple_magic marker_truncated : Fault
  branch_depth tree_size_mismatch negative_coinbase_index negative_chain_index
        not_first_transaction :
      Fault
  slot_mismatch coinbase_root_mismatch chain_root_mismatch : Fault
  root_absent multiple_markers marker_position markerless_position footer_truncated : Fault
  wrong_block parent_not_coinbase wrong_chain_id parent_carries_chain_id wrong_height
        insufficient_work :
      Fault
  short_header minimum_version version_layout reserved_bits bad_qbit_target direct_work : Fault
  branch_cap witness_encoding height_range index_outside_tree : Fault
  -- `QbitProofError`, which callers find by `downcast_ref`
  proof_error : Fault → Fault

pub record ParsedHeader : Type 0 where
  pub header : Header

pub record MerkleBranch : Type 0 where
  pub hashes : List Bytes
  pub index : ℤ

pub record AuxpowProof : Type 0 where
  pub hash_block : Bytes
  pub coinbase_branch : MerkleBranch
  pub chain_branch : MerkleBranch

pub record ParsedTransaction : Type 0 where
  pub txid : Bytes
  pub is_coinbase : Bool
  pub first_input_script : Option Bytes
  pub outputs : List TxOut

pub record ParsedAuxpow : Type 0 where
  pub coinbase_tx : ParsedTransaction
  pub hash_block : Bytes
  pub coinbase_branch : MerkleBranch
  pub chain_branch : MerkleBranch
  pub parent_header : ParsedHeader

pub record ParsedAuxpowBlock : Type 0 where
  pub child_header : ParsedHeader
  pub child_height : Option ℤ
  pub child_coinbase_txid : Option Bytes
  pub child_coinbase_script : Option Bytes
  pub child_coinbase_outputs : List TxOut
  pub child_coinbase_output_addresses : List String
  pub parent_header : ParsedHeader
  pub proof : AuxpowProof
  pub parent_coinbase_txid : Bytes
  pub parent_coinbase_script : Bytes
  pub parent_coinbase_outputs : List TxOut
  pub parent_coinbase_output_addresses : List String
  pub auxpow_bytes : Bytes

pub data ParsedNamecoinBlock : Type 0 where
  non_auxpow : ParsedHeader → ParsedNamecoinBlock
  auxpow : ParsedAuxpowBlock → ParsedNamecoinBlock

pub record ParsedChildBlockCoinbase : Type 0 where
  pub child_header : ParsedHeader
  pub child_height : Option ℤ
  pub child_coinbase_txid : Bytes
  pub child_coinbase_script : Bytes
  pub child_coinbase_outputs : List TxOut

-- ===== src/Auxpow/Qbit/Stored.antt =====
-- qbit.rs: the decoder of stored Qbit proofs.
use merge_mining_monitor.Auxpow.Decode.{AuxMerkleBranchDetail, to_index}
use merge_mining_monitor.Auxpow.Qbit.{QbitRawAuxpow, read_qbit_auxpow}
use merge_mining_monitor.Auxpow.Reader.{is_eof, new}
use merge_mining_monitor.Base.{Option, and_then, if◌then◌else◌, none, some, to_option, ℕ}
use merge_mining_monitor.Base.Words.{Bytes}
use merge_mining_monitor.Bitcoin.{Library}

pub record QbitProofDetail : Type 0 where
  pub slot_index : ℕ
  pub parent_header_hash : Bytes
  pub coinbase_branch : AuxMerkleBranchDetail
  pub blockchain_branch : AuxMerkleBranchDetail

module _ (lib : Library) where
  detail_of : QbitRawAuxpow → Option QbitProofDetail
  detail_of proof = and_then (to_index proof.chain_branch.index) λ slot_index.
      and_then (to_index proof.coinbase_branch.index) λ coinbase_index. some (record {
        slot_index = slot_index;
        parent_header_hash = lib.block_hash proof.parent_header.header;
        coinbase_branch = record {
          index = coinbase_index;
          siblings = proof.coinbase_branch.hashes;
        };
        blockchain_branch = record { index = slot_index; siblings = proof.chain_branch.hashes };
      })

  unfoldable pub decode_qbit_auxpow_proof : Bytes → Option QbitProofDetail
  unfolding read_qbit_auxpow is_eof detail_of
  decode_qbit_auxpow_proof aux_merkle_proof =
      and_then (to_option (read_qbit_auxpow lib (new aux_merkle_proof)))
        λ (proof, reader). if is_eof reader then detail_of proof else none

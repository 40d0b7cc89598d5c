-- ===== src/Auxpow/Classic.antt =====
-- classic.rs: the strict parser of classic full blocks.
pub mod Authentic
use merge_mining_monitor.Auxpow.{
  Fault, ParsedAuxpow, ParsedHeader, ParsedNamecoinBlock, auxpow, insufficient_work, non_auxpow,
  parent_carries_chain_id, parent_not_coinbase, wrong_block, wrong_chain_id, wrong_height,
}
use merge_mining_monitor.Auxpow.Blocks.{
  absent, assemble_auxpow_block, attach_child_block_coinbase,
  parse_child_block_coinbase_with_height, read_classic_prefix,
}
use merge_mining_monitor.Auxpow.Verify.{
  parse_child_bip34_height, slice, validates_target, verify_classic_auxpow_commitment,
}
use merge_mining_monitor.Base.{
  Bool, Option, Result, bytes_eq, drop, ensure, false, none, not, ok, some, ℕ, ◌++◌, ◌-◌, ◌/◌, ◌==◌,
  ◌>>=◌, ◌>>◌, ◌^◌,
}
use merge_mining_monitor.Base.Int.{eqb_ℤ, ℤ}
use merge_mining_monitor.Base.Words.{Bytes, as_u32}
use merge_mining_monitor.Bitcoin.{Header, Library, header_size}

-- bits 16 to 31 of the version, read as a u32
abbrev pub chain_id_of : Header → ℕ
chain_id_of header = as_u32 header.version / 2 ^ 16

abbrev pub option_eq_height : Option ℤ → ℤ → Bool
option_eq_height none height = false
option_eq_height (some h) height = eqb_ℤ h height

module _ (lib : Library) where
  authenticate :
      Bytes → Bytes → ℤ → ℕ → ParsedHeader → ParsedAuxpow → ℕ → Result Fault ParsedNamecoinBlock
  unfolding parse_child_block_coinbase_with_height parse_child_bip34_height assemble_auxpow_block
      attach_child_block_coinbase verify_classic_auxpow_commitment validates_target
  authenticate raw requested_hash requested_height chain_id header proof body_offset = do
    ensure proof.coinbase_tx.is_coinbase parent_not_coinbase
    ensure (chain_id_of header.header == chain_id) wrong_chain_id
    ensure (not (chain_id_of proof.parent_header.header == chain_id)) parent_carries_chain_id
    let child_bytes = slice raw 0 header_size ++ drop body_offset raw
    child ← parse_child_block_coinbase_with_height lib child_bytes parse_child_bip34_height
    ensure (option_eq_height child.child_height requested_height) wrong_height
    let assembled =
        assemble_auxpow_block lib header absent proof
          (slice raw header_size (body_offset - header_size))
    attached ← attach_child_block_coinbase lib assembled child
    verify_classic_auxpow_commitment lib attached requested_hash chain_id
    ensure
        (validates_target lib (lib.block_hash attached.parent_header.header)
          attached.child_header.header.bits)
        insufficient_work
    ok (auxpow attached)

  unfoldable pub parse_verified_classic_block :
      Bytes → Bytes → ℤ → ℕ → Result Fault ParsedNamecoinBlock
  unfolding read_classic_prefix authenticate bytes_eq
  parse_verified_classic_block raw requested_hash requested_height chain_id = do
    (header, prefix) ← read_classic_prefix lib raw
    ensure (bytes_eq (lib.block_hash header.header) requested_hash) wrong_block
    elim prefix [
      | none ↦ ok (non_auxpow header)
      | some (proof, body_offset) ↦
          authenticate raw requested_hash requested_height chain_id header proof body_offset
    ]

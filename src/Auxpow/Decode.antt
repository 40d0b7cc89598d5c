-- ===== src/Auxpow/Decode.antt =====
-- decode.rs: the marker, the stored proof, the coinbase tag and the payout addresses.
pub mod Tags
use merge_mining_monitor.Auxpow.{ParsedAuxpow}
use merge_mining_monitor.Auxpow.Reader.{is_eof, new, read_auxpow}
use merge_mining_monitor.Auxpow.Verify.{auxpow_magic, find_subslice, slice}
use merge_mining_monitor.Auxpow.Verify.Merkle.{siblings}
use merge_mining_monitor.Base.{
  Bool, List, Option, String, [], and_then, if◌then◌else◌, leb, length, ltb, none, reverse, some,
  to_option, ℕ, ◌&&◌, ◌++◌, ◌+◌, ◌==◌, ◌∷◌,
}
use merge_mining_monitor.Base.Int.{negsuc, pos, ℤ}
use merge_mining_monitor.Base.Words.{Bytes, from_le}
use merge_mining_monitor.Bitcoin.{Library, TxOut}

pub record AuxMarker : Type 0 where
  pub aux_merkle_root : Bytes
  pub merkle_size : ℕ
  pub merkle_nonce : ℕ

pub record AuxMerkleBranchDetail : Type 0 where
  pub index : ℕ
  pub siblings : List Bytes

pub record AuxpowProofDetail : Type 0 where
  pub slot_index : ℕ
  pub parent_header_hash : Bytes
  pub hash_block : Bytes
  pub coinbase_branch : AuxMerkleBranchDetail
  pub blockchain_branch : AuxMerkleBranchDetail

unfoldable pub decode_aux_marker : Bytes → Option AuxMarker
unfolding find_subslice
decode_aux_marker coinbase_script =
    and_then (find_subslice coinbase_script auxpow_magic) λ magic_pos.
      let after = magic_pos + length auxpow_magic in
      if ltb (length coinbase_script) (after + 40)
      then none
      else some (record {
        aux_merkle_root = slice coinbase_script after 32;
        merkle_size = from_le (slice coinbase_script (after + 32) 4);
        merkle_nonce = from_le (slice coinbase_script (after + 36) 4);
      })

-- `str::trim` of a run, in which 0x20 is the only white space
pub trim_start : Bytes → Bytes
trim_start [] = []
trim_start (c ∷ cs) = if c == 0x20 then trim_start cs else c ∷ cs

pub trim : Bytes → Bytes
unfolding trim_start
trim run = reverse (trim_start (reverse (trim_start run)))

abbrev pub is_printable : ℕ → Bool
is_printable byte = leb 0x20 byte && leb byte 0x7e

pub flush_run : Bytes → List Bytes → List Bytes
unfolding trim
flush_run run tags = if leb 4 (length (trim run)) then tags ++ trim run ∷ [] else tags

-- the loop over the bytes, with the run and the tags so far
pub collect_tags : Bytes → Bytes → List Bytes → List Bytes
unfolding flush_run
collect_tags [] run tags = flush_run run tags
collect_tags (byte ∷ bytes) run tags =
    collect_tags bytes (if is_printable byte then run ++ byte ∷ [] else [])
      (if is_printable byte then tags else flush_run run tags)

-- `tags.join(" ")`
pub join : List Bytes → Bytes
join [] = []
join (tag ∷ []) = tag
join (tag ∷ next ∷ tags) = tag ++ 0x20 ∷ join (next ∷ tags)

join_some : List Bytes → Option Bytes
join_some [] = none
join_some (tag ∷ tags) = some (join (tag ∷ tags))

unfoldable pub extract_coinbase_tag : Bytes → Option Bytes
unfolding collect_tags join join_some
extract_coinbase_tag coinbase_script = join_some (collect_tags coinbase_script [] [])

-- `u32::try_from(i32)`
abbrev pub to_index : ℤ → Option ℕ
to_index (pos n) = some n
to_index (negsuc n) = none

module _ (lib : Library) where
  unfoldable pub decode_record : ParsedAuxpow → Option AuxpowProofDetail
  decode_record parsed = and_then (to_index parsed.chain_branch.index) λ slot_index.
      and_then (to_index parsed.coinbase_branch.index) λ coinbase_index. some (record {
        slot_index = slot_index;
        parent_header_hash = lib.block_hash parsed.parent_header.header;
        hash_block = parsed.hash_block;
        coinbase_branch = record {
          index = coinbase_index;
          siblings = parsed.coinbase_branch.hashes;
        };
        blockchain_branch = record { index = slot_index; siblings = parsed.chain_branch.hashes };
      })

  unfoldable pub decode_auxpow_proof : Bytes → Option AuxpowProofDetail
  unfolding read_auxpow is_eof decode_record
  decode_auxpow_proof aux_merkle_proof =
      and_then (to_option (read_auxpow lib (new aux_merkle_proof)))
        λ (parsed, reader). if is_eof reader then decode_record parsed else none

  unfoldable pub output_addresses : List TxOut → List String
  output_addresses [] = []
  output_addresses (output ∷ outputs) =
      let rest = output_addresses outputs in
      elim (lib.address_from_script output.script_pubkey) [
        | none ↦ rest
        | some address ↦ address ∷ rest
      ]

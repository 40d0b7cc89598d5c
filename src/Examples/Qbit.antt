-- ===== src/Examples/Qbit.antt =====
-- Qbit's rules.
use merge_mining_monitor.Auxpow.Decode.{output_addresses}
use merge_mining_monitor.Auxpow.Qbit.{
  ParsedQbitAuxpow, QbitRawAuxpow, merged_block, parse_qbit_extended_header, qbit_version_gate,
  verify_qbit_proof,
}
use merge_mining_monitor.Auxpow.Qbit.Commitment.{CommitsQbit, verify_qbit_proof_iff}
use merge_mining_monitor.Auxpow.Qbit.Header.{IsMergedHeader, parse_qbit_extended_header_sound}
use merge_mining_monitor.Auxpow.Qbit.Version.{IsDirectVersion, merged_layout, qbit_version_gate_iff}
use merge_mining_monitor.Base.{
  [], drop, false, ok, refl, replicate, true, ◌*◌, ◌++◌, ◌/◌, ◌^◌, ◌↔◌, ◌∷◌, ◌≡◌,
}
use merge_mining_monitor.Base.Int.{pos}
use merge_mining_monitor.Base.Words.{Bytes, from_le, length-to_le, to_le}
use merge_mining_monitor.Bitcoin.{header_size}
use merge_mining_monitor.Examples.Toy.{
  header_bytes, header_of, parent_bytes, parent_script, parent_txid, toy, toy_digests,
}

-- a merged version and a target of 0x04001000
abbrev qbit_bytes : Bytes
qbit_bytes = header_bytes (merged_layout * 2 ^ 8) (replicate 32 0) 0x0400_1000 7

abbrev qbit_raw : Bytes
qbit_raw =
    qbit_bytes
    ++ (44 ∷ parent_script
        ++ (1 ∷ replicate 32 3 ++ (to_le 4 0 ++ (0 ∷ to_le 4 0 ++ parent_bytes))))

abbrev qbit_proof : QbitRawAuxpow
qbit_proof = record {
  coinbase_txid = parent_txid;
  coinbase_script = parent_script;
  coinbase_outputs = [];
  coinbase_branch = record { hashes = replicate 32 3 ∷ []; index = pos 0 };
  chain_branch = record { hashes = []; index = pos 0 };
  parent_header = record { header = header_of parent_bytes };
}

abbrev qbit_parsed : ParsedQbitAuxpow
qbit_parsed = record {
  child_header = record { header = header_of qbit_bytes };
  parent_header = record { header = header_of parent_bytes };
  parent_coinbase_txid = parent_txid;
  parent_coinbase_script = parent_script;
  parent_coinbase_outputs = [];
  parent_coinbase_output_addresses = [];
  coinbase_branch = record { hashes = replicate 32 3 ∷ []; index = pos 0 };
  chain_branch = record { hashes = []; index = pos 0 };
  auxpow_bytes = drop header_size qbit_raw;
}

qbit_parses : parse_qbit_extended_header toy qbit_raw 10 ≡ ok (merged_block qbit_parsed)
unfolding parse_qbit_extended_header from_le to_le output_addresses
qbit_parses = refl

parse_qbit_extended_header_sound_example : IsMergedHeader toy qbit_raw qbit_parsed
parse_qbit_extended_header_sound_example =
    parse_qbit_extended_header_sound toy toy_digests qbit_raw 10 qbit_parsed
      (λ header. length-to_le 32 header.nonce) qbit_parses

verify_qbit_proof_iff_example :
    (verify_qbit_proof toy (record { header = header_of qbit_bytes }) qbit_proof ≡ ok tt)
    ↔ CommitsQbit toy (record { header = header_of qbit_bytes }) qbit_proof
verify_qbit_proof_iff_example =
    verify_qbit_proof_iff toy (record { header = header_of qbit_bytes }) qbit_proof toy_digests
      (length-to_le 32 (header_of qbit_bytes).nonce)

qbit_version_gate_iff_example :
    ((qbit_version_gate 4 10 ≡ ok true) ↔ (4 / 2 ^ 8 ≡ merged_layout))
    × ((qbit_version_gate 4 10 ≡ ok false) ↔ IsDirectVersion 4 10)
qbit_version_gate_iff_example = qbit_version_gate_iff 4 10

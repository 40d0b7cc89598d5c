-- ===== src/Auxpow/Qbit/Header.antt =====
-- qbit.rs: what a merge-mined Qbit header that was parsed is known to be.
use mathlib.Core.Path.{subst}
use merge_mining_monitor.Auxpow.{
  Fault, ParsedHeader, direct_work, insufficient_work, proof_error, short_header, trailing_bytes,
}
use merge_mining_monitor.Auxpow.Decode.{output_addresses}
use merge_mining_monitor.Auxpow.Qbit.{
  ParsedQbitAuxpow, ParsedQbitBlock, QbitRawAuxpow, direct_header, merged_block, merged_header,
  parse_qbit_extended_header, qbit_child_target, qbit_version_gate, read_qbit_auxpow,
  verify_qbit_proof,
}
use merge_mining_monitor.Auxpow.Qbit.Commitment.{CommitsQbit, verify_qbit_proof_iff}
use merge_mining_monitor.Auxpow.Qbit.Version.{merged_layout, qbit_version_gate_iff}
use merge_mining_monitor.Auxpow.Reader.{Reader, is_eof, new, parse_header, read_slice, skip}
use merge_mining_monitor.Auxpow.Reader.RoundTrip.{IsHash}
use merge_mining_monitor.Auxpow.Verify.{slice}
use merge_mining_monitor.Auxpow.Verify.Commitments.{HasDigests}
use merge_mining_monitor.Base.{
  >>=-eq-ok, Bool, Result, arith, ensure-then, err, false, if◌then◌else◌, leb, length, map_err, ok,
  refl, then-eq-ok, true, ℕ, ◌-◌, ◌/◌, ◌^◌, ◌≡◌,
}
use merge_mining_monitor.Base.Words.{Bytes, as_u32}
use merge_mining_monitor.Bitcoin.{Header, Library, header_size}

-- A merge-mined child header with a proof that commits to it and has its work.
pub record IsMergedHeader (lib : Library) (raw : Bytes) (p : ParsedQbitAuxpow) : Type 0 where
  pub header : parse_header lib (slice raw 0 header_size) ≡ ok p.child_header
  pub version : as_u32 p.child_header.header.version / 2 ^ 8 ≡ merged_layout
  pub target : ℕ
  pub target_allowed : qbit_child_target lib p.child_header.header.bits ≡ ok target
  pub work : lib.is_met_by target (lib.block_hash p.parent_header.header) ≡ true
  pub proof : QbitRawAuxpow
  pub after : Reader
  pub read : read_qbit_auxpow lib (record { buf = raw; pos = header_size }) ≡ ok (proof, after)
  pub to_the_end : is_eof after ≡ true
  pub commits : CommitsQbit lib p.child_header proof
  pub same_parent : p.parent_header ≡ proof.parent_header
  pub same_script : p.parent_coinbase_script ≡ proof.coinbase_script
  pub proof_bytes : p.auxpow_bytes ≡ slice raw header_size (after.pos - header_size)

map_err-eq-ok :
    {A : Type 0} (f : Fault → Fault) (r : Result Fault A) (a : A) → map_err f r ≡ ok a → r ≡ ok a
map_err-eq-ok f (ok b) a h = h
map_err-eq-ok f (err e) a h = cc

skip_header :
    (raw : Bytes) (r : Reader)
    → skip header_size (new raw) ≡ ok (tt, r)
    → r ≡ record { buf = raw; pos = header_size }
unfolding skip read_slice
skip_header raw r h = ground arith

merged_injective :
    {p q : ParsedQbitAuxpow}
    → ◌≡◌ {A = Result Fault ParsedQbitBlock} (ok (merged_block p)) (ok (merged_block q))
    → p ≡ q
merged_injective e = cc

-- the proof that `merged_header` returns
abbrev merged_of : Library → Bytes → ParsedHeader → QbitRawAuxpow → ℕ → ParsedQbitAuxpow
merged_of lib raw child_header proof end = record {
  child_header = child_header;
  parent_header = proof.parent_header;
  parent_coinbase_txid = proof.coinbase_txid;
  parent_coinbase_script = proof.coinbase_script;
  parent_coinbase_outputs = proof.coinbase_outputs;
  parent_coinbase_output_addresses = output_addresses lib proof.coinbase_outputs;
  coinbase_branch = proof.coinbase_branch;
  chain_branch = proof.chain_branch;
  auxpow_bytes = slice raw header_size (end - header_size);
}

module _ (lib : Library) (digests : HasDigests lib) (raw : Bytes) (child_height : ℕ)
    (p : ParsedQbitAuxpow) where
  not_direct :
      (header : ParsedHeader) (target : ℕ) (r : Reader)
      → ¬ (direct_header lib header target r ≡ ok (merged_block p))
  unfolding direct_header
  not_direct header target r h =
      let (_, h1) = ensure-then (is_eof r) trailing_bytes _ h in
      let (_, h2) =
        ensure-then (lib.is_met_by target (lib.block_hash header.header)) direct_work _ h1 in
      cc

  merged_sound :
      (header : ParsedHeader) (target : ℕ)
      → IsHash (lib.block_hash header.header)
      → parse_header lib (slice raw 0 header_size) ≡ ok header
      → as_u32 header.header.version / 2 ^ 8 ≡ merged_layout
      → qbit_child_target lib header.header.bits ≡ ok target
      → merged_header lib raw header target (record { buf = raw; pos = header_size })
        ≡ ok (merged_block p)
      → IsMergedHeader lib raw p
  unfolding merged_header
  merged_sound header target width parsed version allowed h =
      let ((proof, after), read, h1) =
        >>=-eq-ok
          (map_err proof_error (read_qbit_auxpow lib (record { buf = raw; pos = header_size }))) _
          h in
      let (eof, h2) = ensure-then (is_eof after) (proof_error trailing_bytes) _ h1 in
      let (commits, h3) =
        then-eq-ok (map_err proof_error (verify_qbit_proof lib header proof)) _ h2 in
      let (work, h4) =
        ensure-then (lib.is_met_by target (lib.block_hash proof.parent_header.header))
          insufficient_work _ h3 in
      subst (IsMergedHeader lib raw) (merged_injective h4) (record {
        header = parsed;
        version = version;
        target = target;
        target_allowed = allowed;
        work = work;
        proof = proof;
        after = after;
        read = map_err-eq-ok _ _ _ read;
        to_the_end = eof;
        commits =
            (verify_qbit_proof_iff lib header proof digests width).0 (map_err-eq-ok _ _ _ commits);
        same_parent = refl;
        same_script = refl;
        proof_bytes = refl;
      })

  by_version :
      (merged : Bool) (header : ParsedHeader) (target : ℕ) (r : Reader)
      → IsHash (lib.block_hash header.header)
      → parse_header lib (slice raw 0 header_size) ≡ ok header
      → qbit_version_gate (as_u32 header.header.version) child_height ≡ ok merged
      → qbit_child_target lib header.header.bits ≡ ok target
      → r ≡ record { buf = raw; pos = header_size }
      → (if merged
          then merged_header lib raw header target r
          else direct_header lib header target r)
        ≡ ok (merged_block p)
      → IsMergedHeader lib raw p
  by_version true header target r width parsed gate allowed at_proof h =
      merged_sound header target width parsed ((qbit_version_gate_iff _ child_height).0.0 gate)
        allowed
        (subst (λ r. merged_header lib raw header target r ≡ ok (merged_block p)) at_proof h)
  by_version false header target r width parsed gate allowed at_proof h =
      absurd (not_direct header target r h)

  -- With 32-byte digests and block hashes, a merge-mined Qbit header that the parser returns has the
  -- merged version layout and an allowed target, the rest of the bytes is one proof that commits to
  -- the header, its parent's hash meets the child's target, and the kept proof bytes are all the
  -- bytes behind the header.
  pub parse_qbit_extended_header_sound :
      ((header : Header) → IsHash (lib.block_hash header))
      → parse_qbit_extended_header lib raw child_height ≡ ok (merged_block p)
      → IsMergedHeader lib raw p
  unfolding parse_qbit_extended_header
  parse_qbit_extended_header_sound widths h =
      let (_, h1) = ensure-then (leb header_size (length raw)) short_header _ h in
      let (header, parsed, h2) = >>=-eq-ok (parse_header lib (slice raw 0 header_size)) _ h1 in
      let (merged, gate, h3) =
        >>=-eq-ok (qbit_version_gate (as_u32 header.header.version) child_height) _ h2 in
      let (target, allowed, h4) = >>=-eq-ok (qbit_child_target lib header.header.bits) _ h3 in
      let ((_, r), skipped, h5) = >>=-eq-ok (skip header_size (new raw)) _ h4 in
      by_version merged header target r (widths header.header) parsed gate allowed
        (skip_header raw r skipped) h5

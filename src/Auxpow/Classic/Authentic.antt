-- ===== src/Auxpow/Classic/Authentic.antt =====
-- What an AuxPoW block that the strict parser returns is known to be.
use mathlib.Core.Path.{subst}
use merge_mining_monitor.Auxpow.{
  Fault, ParsedAuxpow, ParsedAuxpowBlock, ParsedChildBlockCoinbase, ParsedHeader,
  ParsedNamecoinBlock, auxpow, child_hash_mismatch, insufficient_work, non_auxpow,
  parent_carries_chain_id, parent_not_coinbase, wrong_block, wrong_chain_id, wrong_height,
}
use merge_mining_monitor.Auxpow.Blocks.{
  absent, assemble_auxpow_block, attach_child_block_coinbase, option_or,
  parse_child_block_coinbase_with_height, read_classic_prefix,
}
use merge_mining_monitor.Auxpow.Blocks.Body.{
  IsBlockCoinbase, parse_child_block_coinbase_with_height_sound,
}
use merge_mining_monitor.Auxpow.Classic.{
  authenticate, chain_id_of, option_eq_height, parse_verified_classic_block,
}
use merge_mining_monitor.Auxpow.Reader.RoundTrip.{IsHash}
use merge_mining_monitor.Auxpow.Verify.{
  parse_child_bip34_height, slice, validates_target, verify_classic_auxpow_commitment,
}
use merge_mining_monitor.Auxpow.Verify.Commitments.{
  CommitsClassic, HasDigests, verify_classic_auxpow_commitment_iff,
}
use merge_mining_monitor.Auxpow.Verify.Heights.{PushesHeight, parse_child_bip34_height-PushesHeight}
use merge_mining_monitor.Base.{
  ==_iff, >>=-eq-ok, Bool, Option, Result, [], arith, bytes_eq, bytes_eq_sound, drop, ensure-then,
  false, none, not, ok, refl, some, sym, take, then-eq-ok, true, ℕ, ◌++◌, ◌-◌, ◌==◌, ◌∙◌, ◌≡◌, ◌≢◌,
}
use merge_mining_monitor.Base.Int.{ℤ}
use merge_mining_monitor.Base.Words.{Bytes}
use merge_mining_monitor.Bitcoin.{Library, header_size}

pub record IsAuthentic (lib : Library) (raw : Bytes) (requested_hash : Bytes) (requested_height : ℤ)
    (chain_id : ℕ) (b : ParsedAuxpowBlock) : Type 0 where
  pub hash : lib.block_hash b.child_header.header ≡ requested_hash
  pub height : b.child_height ≡ some requested_height
  pub own_chain : chain_id_of b.child_header.header ≡ chain_id
  pub other_parent : chain_id_of b.parent_header.header ≢ chain_id
  pub commits : CommitsClassic lib b requested_hash chain_id
  pub work :
      validates_target lib (lib.block_hash b.parent_header.header) b.child_header.header.bits ≡ true
  pub body_offset : ℕ
  pub child : ParsedChildBlockCoinbase
  pub body :
      IsBlockCoinbase lib
        (take header_size raw ++ drop body_offset raw)
        parse_child_bip34_height
        child
  pub body_hash : lib.block_hash child.child_header.header ≡ requested_hash
  pub gives_height : PushesHeight child.child_coinbase_script requested_height
  pub script : b.child_coinbase_script ≡ some child.child_coinbase_script
  pub proof_bytes : b.auxpow_bytes ≡ slice raw header_size (body_offset - header_size)

not-eq-true : (b : Bool) → not b ≡ true → b ≡ false
not-eq-true true h = cc
not-eq-true false h = refl

same_height : (o : Option ℤ) (h : ℤ) → option_eq_height o h ≡ true → o ≡ some h
same_height none h e = cc
same_height (some z) h e = ground arith

ok_injective : {A : Type 0} {a b : A} → ◌≡◌ {A = Result Fault A} (ok a) (ok b) → a ≡ b
ok_injective e = cc

auxpow_injective : {a b : ParsedAuxpowBlock} → auxpow a ≡ auxpow b → a ≡ b
auxpow_injective e = cc

-- the block that `attach_child_block_coinbase` returns
abbrev attached_block : ParsedAuxpowBlock → ParsedChildBlockCoinbase → ParsedAuxpowBlock
attached_block parsed child = record parsed {
  child_height = option_or parsed.child_height child.child_height;
  child_coinbase_txid = some child.child_coinbase_txid;
  child_coinbase_script = some child.child_coinbase_script;
  child_coinbase_outputs = child.child_coinbase_outputs;
  child_coinbase_output_addresses = [];
}

abbrev HasWork : Library → ParsedAuxpowBlock → Type 0
HasWork lib b =
    validates_target lib (lib.block_hash b.parent_header.header) b.child_header.header.bits ≡ true

module _ (lib : Library) (digests : HasDigests lib) (raw : Bytes) (requested_hash : Bytes)
    (width : IsHash requested_hash) (requested_height : ℤ) (chain_id : ℕ) where
  authenticate_sound :
      (header : ParsedHeader) (proof : ParsedAuxpow) (body_offset : ℕ) (b : ParsedAuxpowBlock)
      → lib.block_hash header.header ≡ requested_hash
      → authenticate lib raw requested_hash requested_height chain_id header proof body_offset
        ≡ ok (auxpow b)
      → IsAuthentic lib raw requested_hash requested_height chain_id b
  unfolding authenticate attach_child_block_coinbase assemble_auxpow_block
  authenticate_sound header proof body_offset b same h =
      let (_, h1) = ensure-then proof.coinbase_tx.is_coinbase parent_not_coinbase _ h in
      let (own, h2) = ensure-then (chain_id_of header.header == chain_id) wrong_chain_id _ h1 in
      let (other, h3) =
        ensure-then (not (chain_id_of proof.parent_header.header == chain_id))
          parent_carries_chain_id _ h2 in
      let (child, body, h4) =
        >>=-eq-ok
          (parse_child_block_coinbase_with_height lib
            (slice raw 0 header_size ++ drop body_offset raw) parse_child_bip34_height)
          _ h3 in
      let (height, h5) =
        ensure-then (option_eq_height child.child_height requested_height) wrong_height _ h4 in
      let assembled =
        assemble_auxpow_block lib header absent proof
          (slice raw header_size (body_offset - header_size)) in
      let (attached, attach, h6) =
        >>=-eq-ok (attach_child_block_coinbase lib assembled child) _ h5 in
      let (commits, h7) =
        then-eq-ok (verify_classic_auxpow_commitment lib attached requested_hash chain_id) _ h6 in
      let (work, done) =
        ensure-then
          (validates_target lib (lib.block_hash attached.parent_header.header)
            attached.child_header.header.bits)
          insufficient_work _ h7 in
      let (hash, fields) =
        ensure-then
          (bytes_eq (lib.block_hash header.header) (lib.block_hash child.child_header.header))
          child_hash_mismatch _ attach in
      let expected = attached_block assembled child in
      let e1 : expected ≡ attached = ok_injective fields in
      let e2 : attached ≡ b = auxpow_injective (ok_injective done) in
      let commits' : verify_classic_auxpow_commitment lib expected requested_hash chain_id ≡ ok tt =
        subst (λ x. verify_classic_auxpow_commitment lib x requested_hash chain_id ≡ ok tt) (sym e1)
          commits in
      let work' = subst (HasWork lib) (sym e1) work in
      let body_of =
        parse_child_block_coinbase_with_height_sound lib
          (slice raw 0 header_size ++ drop body_offset raw) parse_child_bip34_height child body in
      subst (IsAuthentic lib raw requested_hash requested_height chain_id) (e1 ∙ e2) (record {
        hash = same;
        height = same_height child.child_height requested_height height;
        own_chain = (==_iff (chain_id_of header.header) chain_id).0 own;
        other_parent = λ e. cc (not-eq-true _ other, (==_iff _ _).1 e);
        commits =
            (verify_classic_auxpow_commitment_iff lib expected requested_hash chain_id digests
                width).0
              commits';
        work = work';
        body_offset = body_offset;
        child = child;
        body = body_of;
        body_hash = sym (bytes_eq_sound _ _ hash) ∙ same;
        gives_height =
            parse_child_bip34_height-PushesHeight child.child_coinbase_script requested_height
              (sym body_of.height ∙ same_height child.child_height requested_height height);
        script = refl;
        proof_bytes = refl;
      })

  with_prefix :
      (header : ParsedHeader) (prefix : Option (ParsedAuxpow × ℕ)) (b : ParsedAuxpowBlock)
      → lib.block_hash header.header ≡ requested_hash
      → ◌≡◌ {A = Result Fault ParsedNamecoinBlock}
          (elim prefix [
            | none ↦ ok (non_auxpow header)
            | some (proof, body_offset) ↦
                authenticate lib raw requested_hash requested_height chain_id header proof
                  body_offset
          ])
          (ok (auxpow b))
      → IsAuthentic lib raw requested_hash requested_height chain_id b
  with_prefix header none b same h = cc
  with_prefix header (some (proof, body_offset)) b same h =
      authenticate_sound header proof body_offset b same h

  -- With 32-byte digests and a 32-byte requested hash, an AuxPoW block that the strict parser returns
  -- is the requested one: its header has the requested hash and the chain's own id, its parent's
  -- header has another, the parent's work meets the child's target, the proof commits to the
  -- requested hash by the classic rules, the bytes around the proof are a block with that header's
  -- hash and a right merkle root whose coinbase gives the requested height, and the kept proof bytes
  -- are those between the header and the body.
  pub parse_verified_classic_block_sound :
      (b : ParsedAuxpowBlock)
      → parse_verified_classic_block lib raw requested_hash requested_height chain_id
        ≡ ok (auxpow b)
      → IsAuthentic lib raw requested_hash requested_height chain_id b
  unfolding parse_verified_classic_block
  parse_verified_classic_block_sound b h =
      let ((header, prefix), read, h1) = >>=-eq-ok (read_classic_prefix lib raw) _ h in
      let (same, h2) =
        ensure-then (bytes_eq (lib.block_hash header.header) requested_hash) wrong_block _ h1 in
      with_prefix header prefix b (bytes_eq_sound _ _ same) h2

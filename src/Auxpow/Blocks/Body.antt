-- ===== src/Auxpow/Blocks/Body.antt =====
-- What a child coinbase that was read from a full block is known to be.
use merge_mining_monitor.Auxpow.{ParsedChildBlockCoinbase, bad_block, body_coinbase, body_root}
use merge_mining_monitor.Auxpow.Blocks.{
  first_input, first_transaction, parse_child_block_coinbase_with_height,
}
use merge_mining_monitor.Base.{
  >>=-eq-ok, List, Option, [], arith, ensure-then, ok, ok_or, ok_or-eq-ok, some, true, ◌∷◌, ◌≡◌,
}
use merge_mining_monitor.Base.Int.{ℤ}
use merge_mining_monitor.Base.Words.{Bytes}
use merge_mining_monitor.Bitcoin.{Block, Library, Transaction, TxIn}

-- The coinbase of a block whose merkle root is right.
pub record IsBlockCoinbase (lib : Library) (raw : Bytes) (parser : Bytes → Option ℤ)
    (child : ParsedChildBlockCoinbase) : Type 0 where
  pub block : Block
  pub rest : List Transaction
  pub coinbase : Transaction
  pub deserialized : lib.deserialize_block raw ≡ some block
  pub first : block.txdata ≡ coinbase ∷ rest
  pub root_checked : lib.check_merkle_root block ≡ true
  pub is_coinbase : lib.is_coinbase coinbase ≡ true
  pub header : child.child_header.header ≡ block.header
  pub txid : child.child_coinbase_txid ≡ lib.compute_txid coinbase
  pub outputs : child.child_coinbase_outputs ≡ coinbase.output
  pub input : TxIn
  pub later_inputs : List TxIn
  pub inputs : coinbase.input ≡ input ∷ later_inputs
  pub script : child.child_coinbase_script ≡ input.script_sig
  pub height : child.child_height ≡ parser child.child_coinbase_script

module _ (lib : Library) where
  first_transaction-eq-ok :
      (txs : List Transaction) (tx : Transaction)
      → first_transaction lib txs ≡ ok tx
      → (rest : List Transaction) × (txs ≡ tx ∷ rest)
  unfolding first_transaction
  first_transaction-eq-ok [] tx h = cc
  first_transaction-eq-ok (x ∷ txs) tx h = (txs, cc)

  first_input-eq-ok :
      (inputs : List TxIn) (input : TxIn)
      → first_input lib inputs ≡ ok input
      → (later : List TxIn) × (inputs ≡ input ∷ later)
  unfolding first_input
  first_input-eq-ok [] input h = cc
  first_input-eq-ok (x ∷ later) input h = (later, cc)

  -- A child coinbase that `parse_child_block_coinbase_with_height` returns is the first transaction,
  -- and a coinbase, of a block that the bytes are and whose merkle root is right, with that block's
  -- header, the transaction's id and outputs, and the height that the given parser reads from its
  -- script.
  pub parse_child_block_coinbase_with_height_sound :
      (raw : Bytes) (parser : Bytes → Option ℤ) (child : ParsedChildBlockCoinbase)
      → parse_child_block_coinbase_with_height lib raw parser ≡ ok child
      → IsBlockCoinbase lib raw parser child
  unfolding parse_child_block_coinbase_with_height
  parse_child_block_coinbase_with_height_sound raw parser child h =
      let (block, read, h1) = >>=-eq-ok (ok_or (lib.deserialize_block raw) bad_block) _ h in
      let (root, h2) = ensure-then (lib.check_merkle_root block) body_root _ h1 in
      let (coinbase, first, h3) = >>=-eq-ok (first_transaction lib block.txdata) _ h2 in
      let (is_coinbase, h4) = ensure-then (lib.is_coinbase coinbase) body_coinbase _ h3 in
      let (input, inputs, h5) = >>=-eq-ok (first_input lib coinbase.input) _ h4 in
      let (later, input_shape) = first_input-eq-ok coinbase.input input inputs in
      let (rest, shape) = first_transaction-eq-ok block.txdata coinbase first in
      record {
        block = block;
        rest = rest;
        coinbase = coinbase;
        deserialized = ok_or-eq-ok _ _ read;
        first = shape;
        root_checked = root;
        is_coinbase = is_coinbase;
        header = ground (arith, h5);
        txid = ground (arith, h5);
        outputs = ground (arith, h5);
        input = input;
        later_inputs = later;
        inputs = input_shape;
        script = ground (arith, h5);
        height = ground (arith, h5);
      }

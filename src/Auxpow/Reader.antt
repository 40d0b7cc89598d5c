-- ===== src/Auxpow/Reader.antt =====
-- reader.rs: a bounded byte cursor, and the readers of transactions, merkle branches and `CAuxPow`
-- records. A reader that fails is dropped by every caller, so a failure returns no reader.
pub mod Bounds
pub mod RoundTrip
pub mod Records
pub mod Wire
use merge_mining_monitor.Auxpow.{
  Fault, ParsedAuxpow, ParsedHeader, ParsedTransaction, bad_header, bad_transaction,
  branch_count_exceeds, position_overflow, unexpected_end,
}
use merge_mining_monitor.Base.{
  Bool, List, Option, Result, [], drop, ensure, err, get_or, if◌then◌else◌, leb, length, ltb, none,
  ok, ok_or, some, suc, take, zero, ℕ, ◌+◌, ◌/◌, ◌==◌, ◌^◌, ◌∷◌,
}
use merge_mining_monitor.Base.Int.{pos, ℤ}
use merge_mining_monitor.Base.Words.{Bytes, as_i32, from_le}
use merge_mining_monitor.Bitcoin.{Library, TxIn, header_size}

pub record Reader : Type 0 where
  pub buf : Bytes
  pub pos : ℕ

abbrev pub usize_limit : ℕ
usize_limit = 2 ^ 64

-- A method of the reader: its result with the reader moved, or the failure.
abbrev pub Read : Type 0 → Type 0
Read A = Reader → Result Fault (A × Reader)

abbrev pub pure : {A : Type 0} → A → Read A
pure a r = ok (a, r)

infixl 5 ◌>>=◌ ◌>>◌
abbrev pub ◌>>=◌ : {A B : Type 0} → Read A → (A → Read B) → Read B
◌>>=◌ m f r = elim (m r) [ ok (a, r') ↦ f a r' | err e ↦ err e ]

abbrev pub ◌>>◌ : {B : Type 0} → Read (Unit {0}) → Read B → Read B
m >> k = m >>= λ _. k

-- a fallible step that does not move the reader
abbrev pub lift : {A : Type 0} → Result Fault A → Read A
lift (ok a) r = ok (a, r)
lift (err e) r = err e

abbrev pub new : Bytes → Reader
new buf = record { buf = buf; pos = 0 }

unfoldable pub is_eof : Reader → Bool
is_eof r = leb (length r.buf) r.pos

-- `&self.buf[self.pos..]`; `pos` never passes the end (Reader.Bounds)
abbrev pub remaining_slice : Reader → Bytes
remaining_slice r = drop r.pos r.buf

unfoldable pub read_slice : ℕ → Read Bytes
read_slice len r =
    let end = r.pos + len in
    if ltb end usize_limit
    then (if leb end (length r.buf)
        then ok (take len (drop r.pos r.buf), record r { pos = end })
        else err unexpected_end)
    else err position_overflow

unfoldable pub skip : ℕ → Read (Unit {0})
unfolding read_slice
skip len = do _slice ← read_slice len; pure tt

-- an array of `n` bytes is a slice of that length
unfoldable pub read_array : ℕ → Read Bytes
unfolding read_slice
read_array n = read_slice n

unfoldable pub read_u8 : Read ℕ
unfolding read_array
read_u8 = do bytes ← read_array 1; pure (get_or bytes 0 0)

unfoldable pub read_i32 : Read ℤ
unfolding read_array
read_i32 = do bytes ← read_array 4; pure (as_i32 (from_le bytes))

read_varint_rest : ℕ → Read ℕ
unfolding read_array
read_varint_rest first =
    if leb first 0xfc
    then pure first
    else if first == 0xfd
    then (do bytes ← read_array 2; pure (from_le bytes))
    else if first == 0xfe
    then (do bytes ← read_array 4; pure (from_le bytes))
    else do bytes ← read_array 8; pure (from_le bytes)

unfoldable pub read_varint : Read ℕ
unfolding read_u8 read_varint_rest
read_varint = do first ← read_u8; read_varint_rest first

-- `usize` has 64 bits, so `usize::try_from` of a u64 does not fail.
unfoldable pub read_varint_usize : Read ℕ
unfolding read_varint
read_varint_usize = read_varint

-- `count` hashes of 32 bytes
unfoldable pub read_hashes : ℕ → Read (List Bytes)
unfolding read_array
read_hashes zero = pure []
read_hashes (suc n) = do hash ← read_array 32; hashes ← read_hashes n; pure (hash ∷ hashes)

unfoldable pub read_merkle_branch : Read (List Bytes)
unfolding read_varint_usize read_hashes
read_merkle_branch = do
  count ← read_varint_usize
  remaining ← λ r. ok (remaining_slice r, r)
  lift (ensure (leb count (length remaining / 32)) branch_count_exceeds)
  read_hashes count

module _ (lib : Library) where
  unfoldable pub parse_header : Bytes → Result Fault ParsedHeader
  parse_header raw = elim (lib.deserialize_header raw) [
    | none ↦ err bad_header
    | some header ↦ ok (record { header = header })
  ]

  first_input_script : List TxIn → Option Bytes
  first_input_script [] = none
  first_input_script (input ∷ _) = some input.script_sig

  unfoldable pub read_transaction : Read ParsedTransaction
  unfolding skip first_input_script
  read_transaction = do
    remaining ← λ r. ok (remaining_slice r, r)
    (tx, consumed) ← lift (ok_or (lib.deserialize_partial remaining) bad_transaction)
    skip consumed
    pure (record {
      txid = lib.compute_txid tx;
      is_coinbase = lib.is_coinbase tx;
      first_input_script = first_input_script tx.input;
      outputs = tx.output;
    })

  unfoldable pub read_auxpow : Read ParsedAuxpow
  unfolding read_transaction read_array read_merkle_branch read_i32 parse_header
  read_auxpow = do
    coinbase_tx ← read_transaction
    hash_block ← read_array 32
    coinbase_branch_hashes ← read_merkle_branch
    coinbase_branch_index ← read_i32
    chain_branch_hashes ← read_merkle_branch
    chain_branch_index ← read_i32
    raw ← read_array header_size
    parent_header ← lift (parse_header raw)
    pure (record {
      coinbase_tx = coinbase_tx;
      hash_block = hash_block;
      coinbase_branch = record { hashes = coinbase_branch_hashes; index = coinbase_branch_index };
      chain_branch = record { hashes = chain_branch_hashes; index = chain_branch_index };
      parent_header = parent_header;
    })

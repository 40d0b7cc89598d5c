-- ===== src/Auxpow/Reader/Records.antt =====
-- Reading back merkle branches, transactions and whole `CAuxPow` records.
use merge_mining_monitor.Auxpow.{
  ParsedAuxpow, ParsedTransaction, bad_transaction, branch_count_exceeds,
}
use merge_mining_monitor.Auxpow.Blocks.{unwrap_or_empty}
use merge_mining_monitor.Auxpow.Reader.{
  Read, first_input_script, lift, parse_header, pure, read_array, read_auxpow, read_hashes,
  read_i32, read_merkle_branch, read_slice, read_transaction, read_varint, remaining_slice, skip,
  ◌>>=◌, ◌>>◌,
}
use merge_mining_monitor.Auxpow.Reader.RoundTrip.{
  IsHash, Reads, Reads-bind, Reads-nil, Reads-pure, concat, encode_varint, length-concat,
  read_array-Reads, read_hashes-concat, read_i32-Reads, read_slice-Reads, read_varint-encode_varint,
}
use merge_mining_monitor.Base.{
  All, List, [], arith, ensure, leb, length, length-append, le→leb, ok, ok_or, refl, some, true, ℕ,
  ◌++◌, ◌/◌, ◌<◌, ◌^◌, ◌∷◌, ◌≡◌,
}
use merge_mining_monitor.Base.Int.{ℤ}
use merge_mining_monitor.Base.Words.{Bytes, IsI32, as_i32-as_u32, as_u32, as_u32-lt, to_le}
use merge_mining_monitor.Bitcoin.{Header, Library, Transaction, TxIn, header_size}
use merge_mining_monitor.Hathor.{remaining}

-- a reader that looks at what is left before it reads
Reads-inspect :
    {B : Type 0} (f : Bytes → Read B) (d : Bytes) (b : B)
    → ((rest : Bytes) → Reads (f (d ++ rest)) d b)
    → Reads ((λ r. ok (remaining_slice r, r)) >>= f) d b
Reads-inspect f d b h = record { at = λ buf p rest hp hl e. rw e ((h rest).at buf p rest hp hl e) }

unfoldable pub encode_branch : List Bytes → Bytes
encode_branch hashes = encode_varint (length hashes) ++ concat hashes

count_fits :
    (hashes : List Bytes) (rest : Bytes)
    → All IsHash hashes
    → leb (length hashes) (length (concat hashes ++ rest) / 32) ≡ true
count_fits hashes rest h =
    le→leb _ _ (omega (arith, length-append (concat hashes) rest, length-concat hashes h))

-- `read_merkle_branch` behind its count
abbrev checked_hashes : ℕ → Bytes → Read (List Bytes)
checked_hashes count remaining =
    lift (ensure (leb count (length remaining / 32)) branch_count_exceeds) >> read_hashes count

-- `read_merkle_branch` returns the hashes whose encoding it stands before: its bound on the count
-- rejects no branch that the buffer holds.
pub read_merkle_branch-Reads :
    (hashes : List Bytes)
    → All IsHash hashes
    → length hashes < 2 ^ 64
    → Reads read_merkle_branch (encode_branch hashes) hashes
unfolding read_merkle_branch encode_branch
read_merkle_branch-Reads hashes h fits =
    Reads-bind read_varint _ (encode_varint (length hashes)) (concat hashes) (length hashes) hashes
      (read_varint-encode_varint (length hashes) fits)
      (Reads-inspect (checked_hashes (length hashes)) (concat hashes) hashes
        (λ rest. rw (count_fits hashes rest h) (read_hashes-concat hashes h)))

-- `bytes` is a transaction as `deserialize_partial` reads it, whatever follows.
abbrev pub IsTransaction : Library → Bytes → Transaction → Type 0
IsTransaction lib bytes tx =
    (rest : Bytes) → lib.deserialize_partial (bytes ++ rest) ≡ some (tx, length bytes)

pub skip-Reads : (bytes : Bytes) → Reads (skip (length bytes)) bytes tt
unfolding skip
skip-Reads bytes = Reads-nil _ _ _ (
    Reads-bind (read_slice (length bytes)) (λ _. pure tt) bytes [] bytes tt (read_slice-Reads bytes)
      (Reads-pure tt))

-- the script of the first input, or no bytes
abbrev pub first_script : List TxIn → Bytes
first_script [] = []
first_script (input ∷ inputs) = input.script_sig

module _ (lib : Library) where
  unfoldable pub parsed_transaction : Transaction → ParsedTransaction
  unfolding first_input_script
  parsed_transaction tx = record {
    txid = lib.compute_txid tx;
    is_coinbase = lib.is_coinbase tx;
    first_input_script = first_input_script lib tx.input;
    outputs = tx.output;
  }

  -- The script that is read is the one of the first input, if there is one.
  pub parsed_transaction-script :
      (tx : Transaction)
      → unwrap_or_empty (parsed_transaction tx).first_input_script ≡ first_script tx.input
  unfolding parsed_transaction first_input_script
  parsed_transaction-script tx = by_inputs tx.input
    where
      by_inputs :
          (inputs : List TxIn)
          → unwrap_or_empty (first_input_script lib inputs) ≡ first_script inputs
      by_inputs [] = refl
      by_inputs (input ∷ inputs) = refl

  -- `read_transaction` behind its look at what is left
  abbrev parse_remaining : Bytes → Read ParsedTransaction
  parse_remaining remaining = do
    (tx, consumed) ← lift (ok_or (lib.deserialize_partial remaining) bad_transaction)
    skip consumed
    pure (parsed_transaction tx)

  pub read_transaction-Reads :
      (bytes : Bytes) (tx : Transaction)
      → IsTransaction lib bytes tx
      → Reads (read_transaction lib) bytes (parsed_transaction tx)
  unfolding read_transaction parsed_transaction
  read_transaction-Reads bytes tx h =
      Reads-inspect (parse_remaining) bytes (parsed_transaction tx) λ rest. rw (h rest) (
        Reads-nil _ _ _ (
          Reads-bind (skip (length bytes)) (λ _. pure (parsed_transaction tx)) bytes [] tt _
            (skip-Reads bytes) (Reads-pure (parsed_transaction tx))))

-- The bytes of a `CAuxPow` record, given the bytes of its transaction and of its header.
pub record Encoding : Type 0 where
  pub tx : Bytes
  pub hash_block : Bytes
  pub coinbase_hashes : List Bytes
  pub coinbase_index : ℤ
  pub chain_hashes : List Bytes
  pub chain_index : ℤ
  pub header : Bytes

unfoldable pub encode_auxpow : Encoding → Bytes
unfolding encode_branch
encode_auxpow e =
    e.tx
    ++ (e.hash_block
        ++ (encode_branch e.coinbase_hashes
            ++ (to_le 4 (as_u32 e.coinbase_index)
                ++ (encode_branch e.chain_hashes ++ (to_le 4 (as_u32 e.chain_index) ++ e.header)))))

-- the steps of `read_auxpow` behind each field
module _ (lib : Library) (tx : Transaction) (header : Header) (e : Encoding) where
  abbrev pub record_of : ParsedAuxpow
  record_of = record {
    coinbase_tx = parsed_transaction lib tx;
    hash_block = e.hash_block;
    coinbase_branch = record { hashes = e.coinbase_hashes; index = e.coinbase_index };
    chain_branch = record { hashes = e.chain_hashes; index = e.chain_index };
    parent_header = record { header = header };
  }

  -- The encoded fields have the sizes of the wire format, and the library parses the transaction's
  -- and the header's bytes to `tx` and `header`.
  pub record IsEncoding : Type 0 where
    pub transaction : IsTransaction lib e.tx tx
    pub parent : lib.deserialize_header e.header ≡ some header
    pub header_width : length e.header ≡ header_size
    pub hash_width : IsHash e.hash_block
    pub coinbase_widths : All IsHash e.coinbase_hashes
    pub chain_widths : All IsHash e.chain_hashes
    pub coinbase_count : length e.coinbase_hashes < 2 ^ 64
    pub chain_count : length e.chain_hashes < 2 ^ 64
    pub coinbase_word : IsI32 e.coinbase_index
    pub chain_word : IsI32 e.chain_index

read_index-Reads : (z : ℤ) → IsI32 z → Reads read_i32 (to_le 4 (as_u32 z)) z
read_index-Reads z h = rw (as_i32-as_u32 z h) at (read_i32-Reads (as_u32 z) (as_u32-lt z))

pub parse_header_ok :
    (lib : Library) (raw : Bytes) (header : Header)
    → lib.deserialize_header raw ≡ some header
    → parse_header lib raw ≡ ok (record { header = header })
unfolding parse_header
parse_header_ok lib raw header e = rw (e, parse_header)

-- `read_auxpow`, placed before an encoded record, returns the record's fields and stops behind it.
pub read_auxpow-Reads :
    (lib : Library) (tx : Transaction) (header : Header) (e : Encoding)
    → IsEncoding lib tx header e
    → Reads (read_auxpow lib) (encode_auxpow e) (record_of lib tx header e)
unfolding read_auxpow encode_auxpow
read_auxpow-Reads lib tx header e w =
    Reads-bind (read_transaction lib) _ e.tx _ (parsed_transaction lib tx) _
      (read_transaction-Reads lib e.tx tx w.transaction)
      (Reads-bind (read_array 32) _ e.hash_block _ e.hash_block _
        (read_array-Reads 32 e.hash_block w.hash_width)
        (Reads-bind read_merkle_branch _ (encode_branch e.coinbase_hashes) _ e.coinbase_hashes _
          (read_merkle_branch-Reads e.coinbase_hashes w.coinbase_widths w.coinbase_count)
          (Reads-bind read_i32 _ (to_le 4 (as_u32 e.coinbase_index)) _ e.coinbase_index _
            (read_index-Reads e.coinbase_index w.coinbase_word)
            (Reads-bind read_merkle_branch _ (encode_branch e.chain_hashes) _ e.chain_hashes _
              (read_merkle_branch-Reads e.chain_hashes w.chain_widths w.chain_count)
              (Reads-bind read_i32 _ (to_le 4 (as_u32 e.chain_index)) _ e.chain_index _
                (read_index-Reads e.chain_index w.chain_word)
                (Reads-nil _ _ _ (
                  Reads-bind (read_array header_size) _ e.header [] e.header _
                    (read_array-Reads header_size e.header w.header_width)
                    (rw (parse_header_ok lib e.header header w.parent)
                      (Reads-pure (record_of lib tx header e))))))))))

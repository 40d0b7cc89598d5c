-- ===== src/Hathor.antt =====
-- crates/mmm-producers/src/chains/hathor/auxpow.rs: the Bitcoin parent header that a Hathor block's
-- split proof gives. SHA-256 is an argument beside the library. The cursor is the bytes behind its
-- position, since a position that overflows is past the end as well.
pub mod RoundTrip
pub mod Assembled
pub mod Splits
pub mod Blobs
use mathlib.Core.Option
use merge_mining_monitor.Auxpow.Verify.{find_subslice}
use merge_mining_monitor.Base.{
  Bool, List, Option, Result, [], bytes_eq, drop, ensure, err, get_or, if◌then◌else◌, leb, length,
  ltb, none, ok, reverse, some, suc, take, zero, ℕ, ◌&&◌, ◌++◌, ◌+◌, ◌-◌, ◌==◌, ◌||◌, ◌∷◌,
}
use merge_mining_monitor.Base.Steps.{Step, returned, ◌>>=◌, ◌>>◌}
use merge_mining_monitor.Base.Words.{Bytes, from_le}
use merge_mining_monitor.Bitcoin.{Header, Library}

-- "Hath"
abbrev pub hath_magic : Bytes
hath_magic = 0x48 ∷ 0x61 ∷ 0x74 ∷ 0x68 ∷ []

abbrev pub max_aux_pow_len : ℕ
max_aux_pow_len = 16384

abbrev pub max_funds_graph_len : ℕ
max_funds_graph_len = 65536

abbrev pub max_merkle_count : ℕ
max_merkle_count = 32

pub record HathorAuxPow : Type 0 where
  pub head_36 : Bytes
  pub cb_head : Bytes
  pub cb_tail : Bytes
  pub merkle_path : List Bytes
  pub tail_12 : Bytes

pub record HathorReconstruction : Type 0 where
  pub header : Header
  pub full_coinbase : Bytes
  pub funds_graph_split : ℕ
  pub funds_graph_len : ℕ

pub data HathorFault : Type 0 where
  blob_too_large blob_ended path_too_deep trailing_bytes : HathorFault
  not_within_raw prefix_too_large prefix_too_small no_hath_marker no_split : HathorFault

-- a method of the cursor
abbrev pub Take : Type 0 → Type 0
Take A = Step Bytes HathorFault A

unfoldable pub take_bytes : ℕ → Take Bytes
take_bytes n rest =
    if leb n (length rest) then (ok (take n rest), drop n rest) else (err blob_ended, rest)

abbrev ensured : Bool → HathorFault → Take (Unit {0})
ensured b fault rest = (ensure b fault, rest)

unfoldable pub word_of : ℕ → Take ℕ
unfolding take_bytes
word_of n = do bytes ← take_bytes n; returned (from_le bytes)

unfoldable pub varint_behind : ℕ → Take ℕ
unfolding word_of
varint_behind first =
    if first == 0xff
    then word_of 8
    else if first == 0xfe
    then word_of 4
    else if first == 0xfd
    then word_of 2
    else returned first

-- a u64, which a usize holds
unfoldable pub read_varint : Take ℕ
unfolding take_bytes varint_behind
read_varint = do first ← take_bytes 1; varint_behind (get_or first 0 0)

unfoldable pub take_hashes : ℕ → Take (List Bytes)
unfolding take_bytes
take_hashes zero = returned []
take_hashes (suc n) = do hash ← take_bytes 32; hashes ← take_hashes n; returned (hash ∷ hashes)

unfoldable pub remaining : Take ℕ
remaining rest = (ok (length rest), rest)

unfoldable pub parse_fields : Take HathorAuxPow
unfolding take_bytes read_varint take_hashes remaining
parse_fields = do
  head_36 ← take_bytes 36
  cb_head_len ← read_varint
  cb_head ← take_bytes cb_head_len
  cb_tail_len ← read_varint
  cb_tail ← take_bytes cb_tail_len
  merkle_count ← read_varint
  ensured (leb merkle_count max_merkle_count) path_too_deep
  merkle_path ← take_hashes merkle_count
  tail_12 ← take_bytes 12
  left ← remaining
  ensured (left == 0) trailing_bytes
  returned (record {
    head_36 = head_36;
    cb_head = cb_head;
    cb_tail = cb_tail;
    merkle_path = merkle_path;
    tail_12 = tail_12;
  })

unfoldable pub parse_hathor_aux_pow : Bytes → Result HathorFault HathorAuxPow
unfolding parse_fields
parse_hathor_aux_pow blob =
    if leb (length blob) max_aux_pow_len then (parse_fields blob).0 else err blob_too_large

unfoldable pub find_subsequence : Bytes → Bytes → Option ℕ
unfolding find_subslice
find_subsequence haystack needle =
    if (length needle == 0) || ltb (length haystack) (length needle)
    then none
    else find_subslice haystack needle

unfoldable pub prefix_of : Bytes → Option ℕ → Result HathorFault Bytes
prefix_of raw none = err not_within_raw
prefix_of raw (some idx) =
    let prefix = take idx raw in
    if leb (length prefix) max_funds_graph_len
    then (if leb 2 (length prefix) then ok prefix else err prefix_too_small)
    else err prefix_too_large

unfoldable pub funds_graph_from_raw : Bytes → Bytes → Result HathorFault Bytes
unfolding prefix_of find_subsequence
funds_graph_from_raw raw aux_pow = prefix_of raw (find_subsequence raw aux_pow)

unfoldable pub has_commitment_marker : Bytes → Bool
unfolding bytes_eq
has_commitment_marker cb_head =
    leb 4 (length cb_head) && bytes_eq (drop (length cb_head - 4) cb_head) hath_magic

module _ (lib : Library) (sha256 : Bytes → Bytes) where
  -- the hash of the child block's `funds` and `graph`, in display order
  unfoldable pub aux_block_hash : Bytes → ℕ → Bytes
  aux_block_hash funds_graph split =
      reverse (lib.sha256d (sha256 (take split funds_graph) ++ sha256 (drop split funds_graph)))

  unfoldable pub fold_path : Bytes → List Bytes → Bytes
  fold_path hash [] = hash
  fold_path hash (sibling ∷ path) = fold_path (lib.sha256d (hash ++ reverse sibling)) path

  abbrev pub coinbase_of : HathorAuxPow → Bytes → ℕ → Bytes
  coinbase_of aux funds_graph split = aux.cb_head ++ aux_block_hash funds_graph split ++ aux.cb_tail

  unfoldable pub assemble_btc_header : HathorAuxPow → Bytes → ℕ → Option (Header × Bytes)
  unfolding fold_path aux_block_hash
  assemble_btc_header aux funds_graph split =
      let coinbase = coinbase_of aux funds_graph split in
      let root = fold_path (lib.sha256d coinbase) aux.merkle_path in
      Option.map (λ header. (header, coinbase))
        (lib.deserialize_header (aux.head_36 ++ root ++ aux.tail_12))

  unfoldable pub matched : Bytes → ℕ → Bytes → Option (Header × Bytes) → Option HathorReconstruction
  matched funds_graph split expected none = none
  matched funds_graph split expected (some (header, coinbase)) =
      if bytes_eq (lib.block_hash header) expected
      then some (record {
        header = header;
        full_coinbase = coinbase;
        funds_graph_split = split;
        funds_graph_len = length funds_graph;
      })
      else none

  unfoldable pub first_of :
      Option HathorReconstruction
      → Result HathorFault HathorReconstruction
      → Result HathorFault HathorReconstruction
  first_of (some made) later = ok made
  first_of none later = later

  -- the loop over `count` splits from `split` on
  unfoldable pub try_splits :
      HathorAuxPow → Bytes → Bytes → ℕ → ℕ → Result HathorFault HathorReconstruction
  unfolding matched first_of assemble_btc_header
  try_splits aux funds_graph expected zero split = err no_split
  try_splits aux funds_graph expected (suc count) split =
      first_of (matched funds_graph split expected (assemble_btc_header aux funds_graph split))
        (try_splits aux funds_graph expected count (split + 1))

  unfoldable pub reconstruct_btc_header :
      HathorAuxPow → Bytes → Bytes → Result HathorFault HathorReconstruction
  unfolding has_commitment_marker try_splits
  reconstruct_btc_header aux funds_graph expected =
      if has_commitment_marker aux.cb_head
      then (if leb (length funds_graph) max_funds_graph_len
          then try_splits aux funds_graph expected (length funds_graph - 2) 2
          else err prefix_too_large)
      else err no_hath_marker

  unfoldable pub funds_graph_then :
      HathorAuxPow → Bytes → Result HathorFault Bytes → Result HathorFault HathorReconstruction
  unfolding reconstruct_btc_header
  funds_graph_then aux expected (ok funds_graph) = reconstruct_btc_header aux funds_graph expected
  funds_graph_then aux expected (err fault) = err fault

  unfoldable pub aux_then :
      Bytes
      → Bytes
      → Bytes
      → Result HathorFault HathorAuxPow
      → Result HathorFault HathorReconstruction
  unfolding funds_graph_then funds_graph_from_raw
  aux_then raw aux_pow expected (ok aux) =
      funds_graph_then aux expected (funds_graph_from_raw raw aux_pow)
  aux_then raw aux_pow expected (err fault) = err fault

  unfoldable pub reconstruct_from_blobs :
      Bytes → Bytes → Bytes → Result HathorFault HathorReconstruction
  unfolding aux_then parse_hathor_aux_pow
  reconstruct_from_blobs raw aux_pow expected =
      aux_then raw aux_pow expected (parse_hathor_aux_pow aux_pow)

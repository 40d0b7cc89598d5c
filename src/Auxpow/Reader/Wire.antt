-- ===== src/Auxpow/Reader/Wire.antt =====
-- The readers at any place of a buffer.
use merge_mining_monitor.Auxpow.{ParsedAuxpow}
use merge_mining_monitor.Auxpow.Reader.{
  Read, Reader, read_auxpow, read_merkle_branch, read_varint, usize_limit,
}
use merge_mining_monitor.Auxpow.Reader.Bounds.{Advances, IsValid, read_auxpow-Consumes}
use merge_mining_monitor.Auxpow.Reader.Records.{
  Encoding, IsEncoding, encode_auxpow, encode_branch, read_auxpow-Reads, read_merkle_branch-Reads,
  record_of,
}
use merge_mining_monitor.Auxpow.Reader.RoundTrip.{
  IsHash, Reads, encode_varint, read_varint-encode_varint,
}
use merge_mining_monitor.Base.{
  All, List, arith, drop-append, length, length-append, ok, ℕ, ◌++◌, ◌+◌, ◌<◌, ◌^◌, ◌≡◌,
}
use merge_mining_monitor.Base.Words.{Bytes}
use merge_mining_monitor.Bitcoin.{Header, Library, Transaction}

-- a reader placed behind `before`
abbrev pub placed : Bytes → Bytes → Bytes → Reader
placed before chunk rest = record { buf = before ++ (chunk ++ rest); pos = length before }

-- and behind the chunk
abbrev pub passed : Bytes → Bytes → Bytes → Reader
passed before chunk rest = record {
  buf = before ++ (chunk ++ rest);
  pos = length before + length chunk;
}

Reads-placed :
    {A : Type 0} (m : Read A) (before chunk rest : Bytes) (a : A)
    → Reads m chunk a
    → length (before ++ (chunk ++ rest)) < usize_limit
    → m (placed before chunk rest) ≡ ok (a, passed before chunk rest)
Reads-placed m before chunk rest a h fits =
    h.at (before ++ (chunk ++ rest)) (length before) rest
      (omega (arith, length-append before (chunk ++ rest))) fits
      (drop-append before (chunk ++ rest))

-- For every u64, `read_varint` placed before the number's CompactSize encoding, in a buffer of at
-- most 2^64 - 1 bytes, returns the number and stops behind the encoding.
pub read_varint_roundtrip :
    (n : ℕ) (before rest : Bytes)
    → n < 2 ^ 64
    → length (before ++ (encode_varint n ++ rest)) < usize_limit
    → read_varint (placed before (encode_varint n) rest)
      ≡ ok (n, passed before (encode_varint n) rest)
read_varint_roundtrip n before rest small fits =
    Reads-placed read_varint before (encode_varint n) rest n (read_varint-encode_varint n small)
      fits

-- `read_merkle_branch`, placed before the encoding of fewer than 2^64 hashes of 32 bytes in a buffer of
-- at most 2^64 - 1 bytes, returns the hashes and stops behind them: its bound on the count rejects no
-- branch that the buffer holds.
pub read_merkle_branch_roundtrip :
    (hashes : List Bytes) (before rest : Bytes)
    → All IsHash hashes
    → length hashes < 2 ^ 64
    → length (before ++ (encode_branch hashes ++ rest)) < usize_limit
    → read_merkle_branch (placed before (encode_branch hashes) rest)
      ≡ ok (hashes, passed before (encode_branch hashes) rest)
read_merkle_branch_roundtrip hashes before rest widths small fits =
    Reads-placed read_merkle_branch before (encode_branch hashes) rest hashes
      (read_merkle_branch-Reads hashes widths small) fits

-- `read_auxpow`, placed before an encoded record in a buffer of at most 2^64 - 1 bytes, returns the
-- record's fields and stops behind it.
pub read_auxpow_roundtrip :
    (lib : Library) (tx : Transaction) (header : Header) (e : Encoding) (before rest : Bytes)
    → IsEncoding lib tx header e
    → length (before ++ (encode_auxpow e ++ rest)) < usize_limit
    → read_auxpow lib (placed before (encode_auxpow e) rest)
      ≡ ok (record_of lib tx header e, passed before (encode_auxpow e) rest)
read_auxpow_roundtrip lib tx header e before rest encoded fits =
    Reads-placed (read_auxpow lib) before (encode_auxpow e) rest (record_of lib tx header e)
      (read_auxpow-Reads lib tx header e encoded) fits

-- A successful `read_auxpow` from a valid position moves the reader forward over the same buffer,
-- to a position that is still at most the buffer's length.
pub read_auxpow_bounds :
    (lib : Library) (r : Reader) (a : ParsedAuxpow) (r' : Reader)
    → IsValid r
    → read_auxpow lib r ≡ ok (a, r')
    → Advances r r'
read_auxpow_bounds lib r a r' valid h = (read_auxpow-Consumes lib).at r a r' valid h

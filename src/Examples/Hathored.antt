-- ===== src/Examples/Hathored.antt =====
-- A Hathor block whose second split gives the header that is asked for.
use merge_mining_monitor.Auxpow.Reader.RoundTrip.{concat, encode_varint}
use merge_mining_monitor.Base.{
  List, [], arith, bytes_eq, drop, length, ok, refl, replicate, reverse, some, take, ◌++◌, ◌∷◌, ◌≡◌,
}
use merge_mining_monitor.Base.Steps.{after}
use merge_mining_monitor.Base.Words.{Bytes}
use merge_mining_monitor.Bitcoin.{Header, Library}
use merge_mining_monitor.Examples.Toy.{header_of, toy}
use merge_mining_monitor.Hathor.{
  HathorAuxPow, HathorReconstruction, hath_magic, parse_hathor_aux_pow, reconstruct_btc_header,
  reconstruct_from_blobs,
}
use merge_mining_monitor.Hathor.Assembled.{Assembled, at_root, up_by}
use merge_mining_monitor.Hathor.Blobs.{FromBlobs, reconstruct_from_blobs_sound}
use merge_mining_monitor.Hathor.RoundTrip.{
  IsHathorAuxPow, encode_hathor_aux_pow, parse_hathor_aux_pow-encode,
}
use merge_mining_monitor.Hathor.Splits.{IsReconstruction, reconstruct_btc_header_finds}

-- a header with all bytes behind its prev hash as the root
abbrev rooted : Bytes → Header
rooted raw = record (header_of raw) { merkle_root = drop 36 raw }

-- digests that keep their parts in sight: a length, the bytes in reverse, two bytes of the root
abbrev open_lib : Library
open_lib = record toy {
  sha256d = λ bytes. reverse bytes;
  block_hash = λ header. take 2 (drop 37 header.merkle_root);
  deserialize_header = λ raw. some (rooted raw);
}

abbrev length_digest : Bytes → Bytes
length_digest bytes = length bytes ∷ []

abbrev proof_of : List Bytes → HathorAuxPow
proof_of path = record {
  head_36 = replicate 36 5;
  cb_head = 9 ∷ hath_magic;
  cb_tail = 8 ∷ [];
  merkle_path = path;
  tail_12 = replicate 12 6;
}

abbrev branched : HathorAuxPow
branched = proof_of (replicate 32 1 ∷ [])

branched-IsHathorAuxPow : IsHathorAuxPow branched
unfolding encode_hathor_aux_pow encode_varint concat
branched-IsHathorAuxPow = record {
  head_width = refl;
  path_hashes = (refl, tt);
  path_depth = omega arith;
  tail_width = refl;
  whole_size = omega arith;
}

parse_hathor_aux_pow-encode_example :
    parse_hathor_aux_pow (encode_hathor_aux_pow branched) ≡ ok branched
parse_hathor_aux_pow-encode_example = parse_hathor_aux_pow-encode branched branched-IsHathorAuxPow

abbrev funds_and_graph : Bytes
funds_and_graph = 1 ∷ 2 ∷ 3 ∷ 4 ∷ []

abbrev branched_proof : Bytes
branched_proof =
    replicate 36 5 ++ (5 ∷ 9 ∷ hath_magic) ++ (1 ∷ 8 ∷ []) ++ (1 ∷ replicate 32 1) ++ replicate 12 6

-- the root is the sibling and then the coinbase, as each digest turns its bytes around
abbrev made : HathorReconstruction
made = record {
  header =
      rooted (
        replicate 36 5 ++ replicate 32 1 ++ (9 ∷ hath_magic ++ (3 ∷ 1 ∷ 8 ∷ [])) ++ replicate 12 6);
  full_coinbase = 9 ∷ hath_magic ++ (3 ∷ 1 ∷ 8 ∷ []);
  funds_graph_split = 3;
  funds_graph_len = 4;
}

reconstructs :
    reconstruct_from_blobs open_lib length_digest
      (funds_and_graph ++ branched_proof)
      branched_proof
      (3 ∷ 1 ∷ [])
    ≡ ok made
unfolding reconstruct_from_blobs bytes_eq after
reconstructs = refl

reconstruct_from_blobs_sound_example :
    FromBlobs open_lib length_digest
      (funds_and_graph ++ branched_proof)
      branched_proof
      (3 ∷ 1 ∷ [])
      made
reconstruct_from_blobs_sound_example =
    reconstruct_from_blobs_sound open_lib length_digest (funds_and_graph ++ branched_proof)
      branched_proof (3 ∷ 1 ∷ []) made reconstructs

third_split :
    Assembled open_lib length_digest branched funds_and_graph 3 made.header made.full_coinbase
third_split = record {
  root = replicate 32 1 ++ (9 ∷ hath_magic ++ (3 ∷ 1 ∷ 8 ∷ []));
  child = 3 ∷ 1 ∷ [];
  parts = refl;
  commits = refl;
  leads = up_by at_root;
  header_bytes = refl;
}

reconstruct_btc_header_finds_example :
    (r : HathorReconstruction) × (reconstruct_btc_header open_lib length_digest branched
        funds_and_graph
        (3 ∷ 1 ∷ [])
      ≡ ok r)
    × IsReconstruction open_lib length_digest branched funds_and_graph (3 ∷ 1 ∷ []) r
reconstruct_btc_header_finds_example =
    reconstruct_btc_header_finds open_lib length_digest branched funds_and_graph (3 ∷ 1 ∷ []) 3
      (9 ∷ [], refl) (omega arith) (omega arith) (omega arith)
      (made.header, made.full_coinbase, third_split, refl)

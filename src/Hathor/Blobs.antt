-- ===== src/Hathor/Blobs.antt =====
-- crates/mmm-producers/src/chains/hathor/auxpow.rs: the reconstruction from a block's bytes.
use mathlib.Core.Path.{subst}
use merge_mining_monitor.Auxpow.Verify.Subslice.{IsFirst, find_subslice-some}
use merge_mining_monitor.Base.{
  Bool-cases, Option, Result, [], arith, err, false, inl, inr, leb, length, ltb, none, ok, refl,
  some, sym, take, ℕ, ◌==◌, ◌∷◌, ◌≡◌,
}
use merge_mining_monitor.Base.Words.{Bytes}
use merge_mining_monitor.Bitcoin.{Library}
use merge_mining_monitor.Hathor.{
  HathorAuxPow, HathorFault, HathorReconstruction, aux_then, find_subsequence, funds_graph_from_raw,
  funds_graph_then, max_funds_graph_len, parse_hathor_aux_pow, prefix_of, reconstruct_from_blobs,
}
use merge_mining_monitor.Hathor.Splits.{IsReconstruction, reconstruct-sound}

find_subsequence-IsFirst :
    (haystack needle : Bytes) (i : ℕ)
    → find_subsequence haystack needle ≡ some i
    → IsFirst haystack needle i
unfolding find_subsequence
find_subsequence-IsFirst haystack [] i e = cc
find_subsequence-IsFirst haystack (b ∷ bs) i e =
    let some_bytes : (length (b ∷ bs) == 0) ≡ false = ground arith in
    elim (Bool-cases (ltb (length haystack) (length (b ∷ bs)))) [
      | inl short ↦ let e' = rw (some_bytes, short) at e in cc
      | inr long ↦
          (find_subslice-some haystack (b ∷ bs) (omega arith) i).0 (rw (some_bytes, long) at e)
    ]

-- the parts of a block that a header is reconstructed from
pub record FromBlobs (lib : Library) (sha256 : Bytes → Bytes) (raw aux_pow expected : Bytes)
    (r : HathorReconstruction) : Type 0 where
  pub aux : HathorAuxPow
  pub parsed : parse_hathor_aux_pow aux_pow ≡ ok aux
  pub position : ℕ
  pub stands_at : IsFirst raw aux_pow position
  pub made : IsReconstruction lib sha256 aux (take position raw) expected r

module _ (lib : Library) (sha256 : Bytes → Bytes) where
  found_prefix :
      (raw : Bytes) (found_at : Option ℕ) {funds_graph : Bytes}
      → prefix_of raw found_at ≡ ok funds_graph
      → (idx : ℕ) × (found_at ≡ some idx) × (take idx raw ≡ funds_graph)
  unfolding prefix_of
  found_prefix raw none e = cc
  found_prefix raw (some idx) e =
      elim (Bool-cases (leb (length (take idx raw)) max_funds_graph_len)) [
        | inr long ↦ let e' = rw long at e in cc
        | inl short ↦
            let e' = rw short at e in
            elim (Bool-cases (leb 2 (length (take idx raw)))) [
              | inr tiny ↦ let e'' = rw tiny at e' in cc
              | inl enough ↦ let e'' = rw enough at e' in (idx, refl, cc)
            ]
      ]

  -- A header that is reconstructed for a block has the hash that is asked for. Its bytes are the two
  -- parts of the header in the proof around a root to which the proof's path leads from the hash of the
  -- coinbase. The coinbase is the head of the proof, which ends with "Hath", the hash of the two parts
  -- of the prefix, and the tail of the proof. The prefix is what stands before the first place of the
  -- proof in the block, and its parts are split at the first place that gives a header with that hash.
  pub reconstruct_from_blobs_sound :
      (raw aux_pow expected : Bytes) (r : HathorReconstruction)
      → reconstruct_from_blobs lib sha256 raw aux_pow expected ≡ ok r
      → FromBlobs lib sha256 raw aux_pow expected r
  unfolding reconstruct_from_blobs funds_graph_from_raw
  reconstruct_from_blobs_sound raw aux_pow expected r went =
      by_aux (parse_hathor_aux_pow aux_pow) refl went
    where
      by_prefix :
          (aux : HathorAuxPow) (found_prefix_of : Result HathorFault Bytes)
          → parse_hathor_aux_pow aux_pow ≡ ok aux
          → prefix_of raw (find_subsequence raw aux_pow) ≡ found_prefix_of
          → funds_graph_then lib sha256 aux expected found_prefix_of ≡ ok r
          → FromBlobs lib sha256 raw aux_pow expected r
      by_prefix aux (err fault) e1 e2 went = cc
      by_prefix aux (ok funds_graph) e1 e2 went =
          let (idx, at_idx, same) = found_prefix raw (find_subsequence raw aux_pow) e2 in
          record {
            aux = aux;
            parsed = e1;
            position = idx;
            stands_at = find_subsequence-IsFirst raw aux_pow idx at_idx;
            made =
                subst (λ f. IsReconstruction lib sha256 aux f expected r) (sym same)
                  (reconstruct-sound lib sha256 aux funds_graph expected r went);
          }

      by_aux :
          (parsed_aux : Result HathorFault HathorAuxPow)
          → parse_hathor_aux_pow aux_pow ≡ parsed_aux
          → aux_then lib sha256 raw aux_pow expected parsed_aux ≡ ok r
          → FromBlobs lib sha256 raw aux_pow expected r
      by_aux (err fault) e went = cc
      by_aux (ok aux) e went =
          by_prefix aux (prefix_of raw (find_subsequence raw aux_pow)) e refl went

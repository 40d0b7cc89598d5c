-- ===== src/Hathor/Splits.antt =====
-- crates/mmm-producers/src/chains/hathor/auxpow.rs: which split is taken.
use mathlib.Core.Path.{subst}
use merge_mining_monitor.Base.{
  ==_iff, Bool-cases, Option, ap, arith, bytes_eq, bytes_eq_complete, bytes_eq_sound, inl, inr, leb,
  length, le→leb, none, ok, refl, some, suc, zero, ℕ, ◌+◌, ◌-◌, ◌<◌, ◌==◌, ◌≡◌, ◌≤◌, ◌⊎◌,
}
use merge_mining_monitor.Base.Words.{Bytes}
use merge_mining_monitor.Bitcoin.{Header, Library}
use merge_mining_monitor.Hathor.{
  HathorAuxPow, HathorReconstruction, assemble_btc_header, first_of, has_commitment_marker, matched,
  max_funds_graph_len, reconstruct_btc_header, try_splits,
}
use merge_mining_monitor.Hathor.Assembled.{
  Assembled, Assembled-assemble_btc_header, EndsWithMarker, assemble_btc_header-Assembled,
  has_commitment_marker-EndsWithMarker,
}

module _ (lib : Library) (sha256 : Bytes → Bytes) (aux : HathorAuxPow)
    (funds_graph expected : Bytes) where
  -- a split whose header has the expected hash
  abbrev pub Matches : ℕ → Type 0
  Matches split =
      (header : Header) × (coinbase : Bytes) × Assembled lib sha256 aux funds_graph split header
        coinbase
      × (lib.block_hash header ≡ expected)

  -- what stands in a reconstruction, from a first split on
  pub record FirstSplit (split stop : ℕ) (r : HathorReconstruction) : Type 0 where
    pub low : split ≤ r.funds_graph_split
    pub high : r.funds_graph_split < stop
    pub assembled :
        Assembled lib sha256 aux funds_graph r.funds_graph_split r.header r.full_coinbase
    pub hashes : lib.block_hash r.header ≡ expected
    pub none_before : (j : ℕ) → split ≤ j → j < r.funds_graph_split → ¬ Matches j
    pub whole_length : r.funds_graph_len ≡ length funds_graph

  matched-cases :
      (split : ℕ) (made : Option (Header × Bytes))
      → assemble_btc_header lib sha256 aux funds_graph split ≡ made
      → ((matched lib sha256 funds_graph split expected made ≡ none) × (¬ Matches split))
        ⊎ ((header : Header) × (coinbase : Bytes) × (made ≡ some (header, coinbase))
            × (lib.block_hash header ≡ expected)
            × (matched lib sha256 funds_graph split expected made
                ≡ some (record {
                  header = header;
                  full_coinbase = coinbase;
                  funds_graph_split = split;
                  funds_graph_len = length funds_graph;
                })))
  unfolding matched
  matched-cases split none e = inl (
    refl,
    λ (h, c, a, same).
        let e' = Assembled-assemble_btc_header lib sha256 aux funds_graph split h c a in cc,
  )
  matched-cases split (some (header, coinbase)) e =
      elim (Bool-cases (bytes_eq (lib.block_hash header) expected)) [
        | inl same ↦ inr (
          header,
          coinbase,
          refl,
          bytes_eq_sound (lib.block_hash header) expected same,
          rw same refl,
        )
        | inr other ↦ inl (
          rw other refl,
          λ (h, c, a, same).
              let e' = Assembled-assemble_btc_header lib sha256 aux funds_graph split h c a in
              let pairs : ◌≡◌ {A = Header × Bytes} (header, coinbase) (h, c) = cc in
              let one : header ≡ h = ap (λ (p : Header × Bytes). p.0) pairs in
              let same' = bytes_eq_complete (lib.block_hash header) expected (rw one same) in cc,
        )
      ]

  FirstSplit-later :
      (split stop : ℕ) (r : HathorReconstruction)
      → ¬ Matches split
      → FirstSplit (split + 1) stop r
      → FirstSplit split stop r
  FirstSplit-later split stop r misses f = record {
    low = omega (arith, f.low);
    high = f.high;
    assembled = f.assembled;
    hashes = f.hashes;
    none_before = earlier;
    whole_length = f.whole_length;
  }
    where
      earlier : (j : ℕ) → split ≤ j → j < r.funds_graph_split → ¬ Matches j
      earlier j h1 h2 m = elim (Bool-cases (j == split)) [
        | inl same ↦ misses (subst Matches ((==_iff j split).0 same) m)
        | inr other ↦ f.none_before j (ground arith) h2 m
      ]

  try_splits-FirstSplit :
      (count split stop : ℕ) (r : HathorReconstruction)
      → split + count ≡ stop
      → try_splits lib sha256 aux funds_graph expected count split ≡ ok r
      → FirstSplit split stop r
  unfolding try_splits first_of
  try_splits-FirstSplit zero split stop r sum went = cc
  try_splits-FirstSplit (suc count) split stop r sum went = elim (matched-cases split _ refl) [
    | inl (missed, misses) ↦
        let later = rw missed at went in
        FirstSplit-later split stop r misses
          (try_splits-FirstSplit count (split + 1) stop r (omega arith) later)
    | inr (header, coinbase, made, same, taken) ↦
        let first = rw taken at went in
        let is_r : record {
          header = header;
          full_coinbase = coinbase;
          funds_graph_split = split;
          funds_graph_len = length funds_graph;
        }
            ≡ r =
          cc in
        subst (FirstSplit split stop) is_r (record {
          low = omega arith;
          high = omega arith;
          assembled =
              assemble_btc_header-Assembled lib sha256 aux funds_graph split header coinbase made;
          hashes = same;
          none_before = λ j h1 h2. absurd (omega arith);
          whole_length = refl;
        })
  ]

  try_splits-finds :
      (count split stop k : ℕ)
      → split + count ≡ stop
      → split ≤ k
      → k < stop
      → Matches k
      → (r : HathorReconstruction) × (try_splits lib sha256 aux funds_graph expected count split
          ≡ ok r)
  unfolding try_splits first_of
  try_splits-finds zero split stop k sum low high m = absurd (omega arith)
  try_splits-finds (suc count) split stop k sum low high m = elim (matched-cases split _ refl) [
    | inr (header, coinbase, made, same, taken) ↦ (
      record {
        header = header;
        full_coinbase = coinbase;
        funds_graph_split = split;
        funds_graph_len = length funds_graph;
      },
      rw taken refl,
    )
    | inl (missed, misses) ↦ elim (Bool-cases (k == split)) [
      | inl here_it_is ↦ absurd (misses (subst Matches ((==_iff k split).0 here_it_is) m))
      | inr later ↦
          let (r, went) =
            try_splits-finds count (split + 1) stop k (omega arith) (ground arith) high m in
          (r, rw missed went)
    ]
  ]

  -- what a header is reconstructed from
  pub record IsReconstruction (r : HathorReconstruction) : Type 0 where
    pub marked : EndsWithMarker aux.cb_head
    pub first_split : FirstSplit 2 (length funds_graph) r

  whole_range :
      (r : HathorReconstruction)
      → try_splits lib sha256 aux funds_graph expected (length funds_graph - 2) 2 ≡ ok r
      → FirstSplit 2 (length funds_graph) r
  whole_range r went =
      let f =
        try_splits-FirstSplit (length funds_graph - 2) 2 (2 + (length funds_graph - 2)) r refl
          went in
      record {
        low = f.low;
        high = omega (arith, f.low, f.high);
        assembled = f.assembled;
        hashes = f.hashes;
        none_before = f.none_before;
        whole_length = f.whole_length;
      }

  pub reconstruct-sound :
      (r : HathorReconstruction)
      → reconstruct_btc_header lib sha256 aux funds_graph expected ≡ ok r
      → IsReconstruction r
  unfolding reconstruct_btc_header
  reconstruct-sound r went = elim (Bool-cases (has_commitment_marker aux.cb_head)) [
    | inr unmarked ↦ let e = rw unmarked at went in cc
    | inl marked ↦
        let e = rw marked at went in
        elim (Bool-cases (leb (length funds_graph) max_funds_graph_len)) [
          | inr long ↦ let e' = rw long at e in cc
          | inl short ↦
              let e' = rw short at e in
              record {
                marked = (has_commitment_marker-EndsWithMarker aux.cb_head).0 marked;
                first_split = whole_range r e';
              }
        ]
  ]

  -- When some split between the second byte and the last gives a header with the expected hash, and the
  -- coinbase has its marker and the prefix its size, a header is reconstructed.
  pub reconstruct_btc_header_finds :
      (k : ℕ)
      → EndsWithMarker aux.cb_head
      → length funds_graph ≤ max_funds_graph_len
      → 2 ≤ k
      → k < length funds_graph
      → Matches k
      → (r : HathorReconstruction) × (reconstruct_btc_header lib sha256 aux funds_graph expected
          ≡ ok r)
        × IsReconstruction r
  unfolding reconstruct_btc_header
  reconstruct_btc_header_finds k ends short low high m =
      let marked = (has_commitment_marker-EndsWithMarker aux.cb_head).1 ends in
      let fits = le→leb (length funds_graph) max_funds_graph_len short in
      let (r, went) =
        try_splits-finds (length funds_graph - 2) 2 (length funds_graph) k (omega arith) low high
          m in
      (r, rw (marked, fits) went, reconstruct-sound r (rw (marked, fits) went))

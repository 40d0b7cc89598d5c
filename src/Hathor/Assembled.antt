-- ===== src/Hathor/Assembled.antt =====
-- crates/mmm-producers/src/chains/hathor/auxpow.rs: the header that a split gives.
use mathlib.Core.Path.{subst}
use merge_mining_monitor.Base.{
  List, Option-cases, [], and-true, ap, arith, bytes_eq_refl, bytes_eq_sound, drop, drop-append,
  inl, inr, leb, length, length-append, le→leb, refl, reverse, some, sym, take, take-append-drop,
  true, ℕ, ◌++◌, ◌-◌, ◌↔◌, ◌∙◌, ◌∷◌, ◌≡◌,
}
use merge_mining_monitor.Base.Words.{Bytes}
use merge_mining_monitor.Bitcoin.{Header, Library}
use merge_mining_monitor.Hathor.{
  HathorAuxPow, assemble_btc_header, aux_block_hash, coinbase_of, fold_path, has_commitment_marker,
  hath_magic,
}

module _ (lib : Library) (sha256 : Bytes → Bytes) where
  -- A path of hashes in display order leads from a hash to a root: each step hashes the bytes so far and
  -- the next hash in reverse.
  pub data LeadsTo : Bytes → List Bytes → Bytes → Type 0 where
    at_root : {root : Bytes} → LeadsTo root [] root
    up_by :
        {hash sibling root : Bytes} {path : List Bytes}
        → LeadsTo (lib.sha256d (hash ++ reverse sibling)) path root
        → LeadsTo hash (sibling ∷ path) root

  -- A header whose bytes are the proof's, with a root that commits to the coinbase, which holds the hash
  -- of the two parts of the prefix.
  pub record Assembled (aux : HathorAuxPow) (funds_graph : Bytes) (split : ℕ) (header : Header)
      (coinbase : Bytes) : Type 0 where
    pub root : Bytes
    pub child : Bytes
    pub parts :
        child
        ≡ reverse (lib.sha256d (sha256 (take split funds_graph) ++ sha256 (drop split funds_graph)))
    pub commits : coinbase ≡ aux.cb_head ++ child ++ aux.cb_tail
    pub leads : LeadsTo (lib.sha256d coinbase) aux.merkle_path root
    pub header_bytes : lib.deserialize_header (aux.head_36 ++ root ++ aux.tail_12) ≡ some header

  fold_path-LeadsTo :
      (hash : Bytes) (path : List Bytes) → LeadsTo hash path (fold_path lib sha256 hash path)
  unfolding fold_path
  fold_path-LeadsTo hash [] = at_root
  fold_path-LeadsTo hash (sibling ∷ path) =
      up_by (fold_path-LeadsTo (lib.sha256d (hash ++ reverse sibling)) path)

  LeadsTo-fold_path :
      (hash : Bytes) (path : List Bytes) (root : Bytes)
      → LeadsTo hash path root
      → fold_path lib sha256 hash path ≡ root
  unfolding fold_path
  LeadsTo-fold_path hash _ _ at_root = refl
  LeadsTo-fold_path hash _ root (up_by {sibling = sibling} {path = path} rest) =
      LeadsTo-fold_path (lib.sha256d (hash ++ reverse sibling)) path root rest

  pub assemble_btc_header-Assembled :
      (aux : HathorAuxPow) (funds_graph : Bytes) (split : ℕ) (header : Header) (coinbase : Bytes)
      → assemble_btc_header lib sha256 aux funds_graph split ≡ some (header, coinbase)
      → Assembled aux funds_graph split header coinbase
  unfolding assemble_btc_header aux_block_hash
  assemble_btc_header-Assembled aux funds_graph split header coinbase e =
      let made = coinbase_of lib sha256 aux funds_graph split in
      let root = fold_path lib sha256 (lib.sha256d made) aux.merkle_path in
      elim (Option-cases (lib.deserialize_header (aux.head_36 ++ root ++ aux.tail_12))) [
        | inl failed ↦ let e' = rw failed at e in cc
        | inr (read, at_read) ↦
            let e' = rw at_read at e in
            let pairs : ◌≡◌ {A = Header × Bytes} (read, made) (header, coinbase) = cc in
            let same_header : read ≡ header = ap (λ (p : Header × Bytes). p.0) pairs in
            let same_coinbase : made ≡ coinbase = ap (λ (p : Header × Bytes). p.1) pairs in
            record {
              root = root;
              child = aux_block_hash lib sha256 funds_graph split;
              parts = refl;
              commits = sym same_coinbase;
              leads =
                  subst (λ c. LeadsTo (lib.sha256d c) aux.merkle_path root) same_coinbase
                    (fold_path-LeadsTo (lib.sha256d made) aux.merkle_path);
              header_bytes = at_read ∙ ap some same_header;
            }
      ]

  pub Assembled-assemble_btc_header :
      (aux : HathorAuxPow) (funds_graph : Bytes) (split : ℕ) (header : Header) (coinbase : Bytes)
      → Assembled aux funds_graph split header coinbase
      → assemble_btc_header lib sha256 aux funds_graph split ≡ some (header, coinbase)
  unfolding assemble_btc_header aux_block_hash
  Assembled-assemble_btc_header aux funds_graph split header coinbase a =
      let same_coinbase : coinbase_of lib sha256 aux funds_graph split ≡ coinbase =
        sym (a.commits ∙ ap (λ c. aux.cb_head ++ c ++ aux.cb_tail) a.parts) in
      let same_root = LeadsTo-fold_path (lib.sha256d coinbase) aux.merkle_path a.root a.leads in
      rw (same_coinbase, same_root, a.header_bytes) refl

-- The head of a coinbase ends with "Hath".
abbrev pub EndsWithMarker : Bytes → Type 0
EndsWithMarker cb_head = (front : Bytes) × (cb_head ≡ front ++ 0x48 ∷ 0x61 ∷ 0x74 ∷ 0x68 ∷ [])

pub has_commitment_marker-EndsWithMarker :
    (cb_head : Bytes) → (has_commitment_marker cb_head ≡ true) ↔ EndsWithMarker cb_head
unfolding has_commitment_marker
has_commitment_marker-EndsWithMarker cb_head = (
  λ e.
      let (long, same) = and-true (leb 4 (length cb_head)) _ e in
      let tail = bytes_eq_sound (drop (length cb_head - 4) cb_head) hath_magic same in
      (
        take (length cb_head - 4) cb_head,
        sym (take-append-drop (length cb_head - 4) cb_head)
            ∙ ap (λ end. take (length cb_head - 4) cb_head ++ end) tail,
      ),
  λ (front, e).
      let long = length-append front hath_magic in
      let at : length (front ++ hath_magic) - 4 ≡ length front = omega (arith, long) in
      rw e (
        rw (at, drop-append front hath_magic, bytes_eq_refl hath_magic)
          (rw (le→leb 4 (length (front ++ hath_magic)) (omega (arith, long))) refl)),
)

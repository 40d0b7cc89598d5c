-- ===== src/Auxpow/Verify/Heights.antt =====
-- Coinbase heights: what the parsers accept, and that they read back a pushed height.
use merge_mining_monitor.Auxpow.Blocks.{absent}
use merge_mining_monitor.Auxpow.Verify.{
  is_nonneg, parse_bip34_height, parse_child_bip34_height, parse_coinbase_height,
}
use merge_mining_monitor.Base.{
  All, Option-cases, [], arith, get_or, inl, inr, length, refl, some, suc, take, zero, ℕ, ◌%◌, ◌*◌,
  ◌/◌, ◌<◌, ◌^◌, ◌↔◌, ◌∷◌, ◌≡◌, ◌≤◌,
}
use merge_mining_monitor.Base.Int.{pos, ℤ}
use merge_mining_monitor.Base.Words.{Bytes, IsByte, from_le}

-- A script that pushes `n` in its first one to four bytes: `k` and then the bytes of `n`.
pub record IsPush (k : ℕ) (rest : Bytes) (n : ℕ) : Type 0 where
  pub at_least : 1 ≤ k
  pub at_most : k ≤ 4
  pub held : k ≤ length rest
  pub value : from_le (take k rest) ≡ n

coinbase_height_sound :
    (k : ℕ) (rest : Bytes) (h : ℤ)
    → parse_coinbase_height (k ∷ rest) ≡ some h
    → (n : ℕ) × IsPush k rest n × (n < 2 ^ 31) × (h ≡ pos n)
unfolding parse_coinbase_height is_nonneg
coinbase_height_sound k rest h e = (from_le (take k rest), ground arith, ground arith, ground arith)

coinbase_height_complete :
    (k : ℕ) (rest : Bytes) (n : ℕ)
    → IsPush k rest n
    → n < 2 ^ 31
    → parse_coinbase_height (k ∷ rest) ≡ some (pos n)
unfolding parse_coinbase_height is_nonneg
coinbase_height_complete k rest n p small = ground arith

-- A script that pushes a height in its first one to four bytes, whose last one has no sign bit.
pub record PushesHeight (script : Bytes) (h : ℤ) : Type 0 where
  pub opcode : ℕ
  pub rest : Bytes
  pub shape : script ≡ opcode ∷ rest
  pub pushed : ℕ
  pub push : IsPush opcode rest pushed
  pub sign_bit : get_or script opcode 0 / 2 ^ 7 % 2 ≡ 0
  pub is_height : h ≡ pos pushed

pub parse_child_bip34_height-PushesHeight :
    (script : Bytes) (h : ℤ) → parse_child_bip34_height script ≡ some h → PushesHeight script h
unfolding parse_child_bip34_height parse_coinbase_height
parse_child_bip34_height-PushesHeight [] h e = cc
parse_child_bip34_height-PushesHeight (k ∷ rest) h e =
    elim (Option-cases (parse_coinbase_height (k ∷ rest))) [
      | inl absent ↦ cc (rw absent at e)
      | inr (z, read) ↦
          let (n, push, small, same) = coinbase_height_sound k rest z read in
          record {
            opcode = k;
            rest = rest;
            shape = refl;
            pushed = n;
            push = push;
            sign_bit = ground (arith, rw read at e);
            is_height = ground (arith, rw read at e);
          }
    ]

-- `parse_bip34_height` returns `h` exactly when the script pushes a number in one to four bytes, held
-- by the script, that is `h` and at most 2000000.
pub parse_bip34_height_iff :
    (k : ℕ) (rest : Bytes) (h : ℤ)
    → (parse_bip34_height (k ∷ rest) ≡ some h)
      ↔ ((n : ℕ) × IsPush k rest n × (n ≤ 2_000_000) × (h ≡ pos n))
unfolding parse_bip34_height
parse_bip34_height_iff k rest h = (sound, complete)
  where
    sound :
        parse_bip34_height (k ∷ rest) ≡ some h
        → (n : ℕ) × IsPush k rest n × (n ≤ 2_000_000) × (h ≡ pos n)
    sound e = elim (Option-cases (parse_coinbase_height (k ∷ rest))) [
      | inl absent ↦ cc (rw absent at e)
      | inr (z, read) ↦
          let (n, push, small, same) = coinbase_height_sound k rest z read in
          (n, push, ground (arith, rw read at e), ground (arith, rw read at e))
    ]

    complete :
        (n : ℕ) × IsPush k rest n × (n ≤ 2_000_000) × (h ≡ pos n)
        → parse_bip34_height (k ∷ rest) ≡ some h
    complete (n, push, small, same) =
        rw (coinbase_height_complete k rest n push (omega arith)) (ground arith)

-- the top bit of the last byte of a push says whether the number reaches half of the range
sign_clear :
    (k : ℕ) (rest : Bytes) (n : ℕ)
    → All IsByte rest
    → IsPush k rest n
    → (get_or (k ∷ rest) k 0 / 2 ^ 7 % 2 ≡ 0) ↔ (2 * n < 256 ^ k)
unfolding from_le
sign_clear zero rest n b p = absurd (omega arith)
sign_clear (suc zero) (x ∷ rest) n b p = (λ h. omega arith, λ h. omega arith)
sign_clear (suc (suc zero)) (x ∷ y ∷ rest) n b p = (λ h. omega arith, λ h. omega arith)
sign_clear (suc (suc (suc zero))) (x ∷ y ∷ z ∷ rest) n b p = (λ h. omega arith, λ h. omega arith)
sign_clear (suc (suc (suc (suc zero)))) (x ∷ y ∷ z ∷ w ∷ rest) n b p =
    (λ h. omega arith, λ h. omega arith)
sign_clear (suc (suc (suc (suc (suc k))))) rest n b p = absurd (omega arith)
sign_clear _ _ n b p = absurd (omega arith)

below : (k n : ℕ) → k ≤ 4 → 2 * n < 256 ^ k → n < 2 ^ 31
below zero n hk h = omega arith
below (suc zero) n hk h = omega arith
below (suc (suc zero)) n hk h = omega arith
below (suc (suc (suc zero))) n hk h = omega arith
below (suc (suc (suc (suc zero)))) n hk h = omega arith
below (suc (suc (suc (suc (suc k))))) n hk h = absurd (omega arith)

-- On bytes, `parse_child_bip34_height` returns `h` exactly when the script pushes `h` in one to four
-- bytes, held by the script, as a script number that is not negative: below half of what the bytes
-- of the push can hold.
pub parse_child_bip34_height_iff :
    (k : ℕ) (rest : Bytes) (h : ℤ)
    → All IsByte rest
    → (parse_child_bip34_height (k ∷ rest) ≡ some h)
      ↔ ((n : ℕ) × IsPush k rest n × (2 * n < 256 ^ k) × (h ≡ pos n))
unfolding parse_child_bip34_height
parse_child_bip34_height_iff k rest h b = (sound, complete)
  where
    sound :
        parse_child_bip34_height (k ∷ rest) ≡ some h
        → (n : ℕ) × IsPush k rest n × (2 * n < 256 ^ k) × (h ≡ pos n)
    sound e = elim (Option-cases (parse_coinbase_height (k ∷ rest))) [
      | inl absent ↦ cc (rw absent at e)
      | inr (z, read) ↦
          let (n, push, small, same) = coinbase_height_sound k rest z read in
          let clear = sign_clear k rest n b push in
          (n, push, clear.0 (ground (arith, rw read at e)), ground (arith, rw read at e))
    ]

    complete :
        (n : ℕ) × IsPush k rest n × (2 * n < 256 ^ k) × (h ≡ pos n)
        → parse_child_bip34_height (k ∷ rest) ≡ some h
    complete (n, push, half, same) =
        rw (coinbase_height_complete k rest n push (below k n push.at_most half))
          (ground (arith, (sign_clear k rest n b push).1 half))

-- ===== src/Nbits/Rows.antt =====
-- The epoch rows of the cache: their order, their heights, and what the map has of them.
use mathlib.Core.Path.{subst}
use merge_mining_monitor.Base.{
  Bool-cases, List, [], and-true, arith, get_elem?, inl, inr, length, ltb→lt, lt→ltb, map, refl,
  some, suc, true, zero, ℕ, ◌*◌, ◌+◌, ◌<◌, ◌^◌, ◌∙◌, ◌∷◌, ◌≡◌, ◌≤◌,
}
use merge_mining_monitor.Base.Int.{leb_ℤ, ltb_ℤ, negsuc, pos, ℤ}
use merge_mining_monitor.Nbits.{
  BitcoinEpochHeader, add_i32, bits_entry, chain, daa_epoch_interval, epoch_rows, increases,
  is_epoch_start, last_or, lookup, next_epoch,
}

-- The cached epoch boundary number `e`, and that the map has its bits.
pub record IsRow (rows : List BitcoinEpochHeader) (by_epoch : List (ℤ × ℕ)) (place number : ℕ)
    : Type 0 where
  pub header : BitcoinEpochHeader
  pub at : get_elem? rows place ≡ some header
  pub height : header.height ≡ pos (2016 * number)
  pub small : 2016 * number < 2 ^ 31
  pub kept : lookup by_epoch (pos (2016 * number)) ≡ some header.bits

increases_trans :
    (a b c : BitcoinEpochHeader)
    → increases a b ≡ true
    → increases b c ≡ true
    → increases a c ≡ true
increases_trans a b c h k = lt→ltb _ _ (omega (arith, ltb→lt _ _ h, ltb→lt _ _ k))

chain_weaken :
    (a b : BitcoinEpochHeader) (xs : List BitcoinEpochHeader)
    → increases a b ≡ true
    → chain increases b xs ≡ true
    → chain increases a xs ≡ true
unfolding chain
chain_weaken a b [] h k = refl
chain_weaken a b (x ∷ xs) h k =
    let (first, rest) = and-true (increases b x) _ k in
    rw (increases_trans a b x h first, rest) refl

chain-epoch_rows :
    (a : BitcoinEpochHeader) (xs : List BitcoinEpochHeader)
    → chain increases a xs ≡ true
    → chain increases a (epoch_rows xs) ≡ true
unfolding chain epoch_rows
chain-epoch_rows a [] h = refl
chain-epoch_rows a (x ∷ xs) h =
    let (first, rest) = and-true (increases a x) _ h in
    elim (Bool-cases (is_epoch_start x.height)) [
      | inl b ↦ rw (b, first) (chain-epoch_rows x xs rest)
      | inr b ↦ rw b (chain_weaken a x (epoch_rows xs) first (chain-epoch_rows x xs rest))
    ]

cons_injective :
    {x y : BitcoinEpochHeader} {xs ys : List BitcoinEpochHeader}
    → (x ∷ xs) ≡ (y ∷ ys)
    → (x ≡ y) × (xs ≡ ys)
cons_injective e = (cc, cc)

pub ordered_rows :
    (h : BitcoinEpochHeader) (hs : List BitcoinEpochHeader) (r : BitcoinEpochHeader)
    (rs : List BitcoinEpochHeader)
    → chain increases h hs ≡ true
    → epoch_rows (h ∷ hs) ≡ r ∷ rs
    → chain increases r rs ≡ true
unfolding chain epoch_rows
ordered_rows h hs r rs ordered e = elim (Bool-cases (is_epoch_start h.height)) [
  | inl b ↦
      let (same, rest) = cons_injective (rw b at e) in
      subst (λ x. chain increases x rs ≡ true) same
        (subst (λ xs. chain increases h xs ≡ true) rest (chain-epoch_rows h hs ordered))
  | inr b ↦
      (and-true (increases h r) _
        (subst (λ xs. chain increases h xs ≡ true) (rw b at e) (chain-epoch_rows h hs ordered))).1
]

-- the row behind one at the start of epoch `i`
next_row :
    (i : ℕ) (r r' : BitcoinEpochHeader)
    → r.height ≡ pos (2016 * i)
    → 2016 * i < 2 ^ 31
    → next_epoch r r' ≡ true
    → increases r r' ≡ true
    → (r'.height ≡ pos (2016 * suc i)) × (2016 * suc i < 2 ^ 31)
next_row i r r' e small next more = (ground (arith, e), ground (arith, e))

-- a row is found in the map under its own height, and not under an earlier one
found_here :
    (r : BitcoinEpochHeader) (rest : List (ℤ × ℕ)) (k : ℕ)
    → r.height ≡ pos k
    → lookup (bits_entry r ∷ rest) (pos k) ≡ some r.bits
unfolding lookup
found_here r rest k e = ground (arith, e)

found_later :
    (r : BitcoinEpochHeader) (rest : List (ℤ × ℕ)) (i k : ℕ)
    → r.height ≡ pos i
    → i < k
    → lookup (bits_entry r ∷ rest) (pos k) ≡ lookup rest (pos k)
unfolding lookup
found_later r rest i k e h = ground (arith, e)

pub rows_at :
    (e i : ℕ) (r : BitcoinEpochHeader) (rs : List BitcoinEpochHeader)
    → r.height ≡ pos (2016 * i)
    → 2016 * i < 2 ^ 31
    → chain next_epoch r rs ≡ true
    → chain increases r rs ≡ true
    → e ≤ length rs
    → IsRow (r ∷ rs) (map bits_entry (r ∷ rs)) e (i + e)
unfolding chain
rows_at zero i r rs h small next ordered le =
    let z : i + 0 ≡ i = omega arith in
    record {
      header = r;
      at = refl;
      height = rw z h;
      small = rw z small;
      kept = rw z (found_here r (map bits_entry rs) (2016 * i) h);
    }
rows_at (suc e) i r [] h small next ordered le = absurd (omega arith)
rows_at (suc e) i r (r' ∷ rs) h small next ordered le =
    let (n1, n2) = and-true (next_epoch r r') _ next in
    let (o1, o2) = and-true (increases r r') _ ordered in
    let (h', small') = next_row i r r' h small n1 o1 in
    let later = rows_at e (suc i) r' rs h' small' n2 o2 (omega arith) in
    let z : i + suc e ≡ suc i + e = omega arith in
    record {
      header = later.header;
      at = later.at;
      height = rw z later.height;
      small = rw z later.small;
      kept = rw z (
          found_later r (map bits_entry (r' ∷ rs)) (2016 * i) (2016 * (suc i + e)) h (omega arith)
          ∙ later.kept);
    }

pub last_row :
    {A : Type 0} (r : A) (rs : List A) → get_elem? (r ∷ rs) (length rs) ≡ some (last_or r rs)
unfolding last_or
last_row r [] = refl
last_row r (x ∷ rs) = last_row x rs

pub horizon_place :
    (horizon last : ℤ) (n : ℕ)
    → last ≡ pos n
    → n < 2 ^ 31
    → leb_ℤ last horizon ≡ true
    → ltb_ℤ horizon (add_i32 last daa_epoch_interval) ≡ true
    → (m : ℕ) × (horizon ≡ pos m) × (n ≤ m) × (m < n + 2016) × (n + 2016 < 2 ^ 31)
horizon_place (pos m) last n e small h k =
    (m, refl, ground (arith, e), ground (arith, e), ground (arith, e))
horizon_place (negsuc m) last n e small h k = ground (arith, e)

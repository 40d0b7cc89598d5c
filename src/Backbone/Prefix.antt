-- ===== src/Backbone/Prefix.antt =====
-- crates/mmm-producers/src/bitcoin_core_backbone/sync_state.rs: how far the contiguous cursor advances.
use mathlib.Core.Path.{subst}
use merge_mining_monitor.Backbone.{
  CanonicalRow, advance_contiguous_complete_prefix, anchored, extend_from, extend_prefix, extended,
  has_hash, is_complete, next_row,
}
use merge_mining_monitor.Backbone.Linked.{
  LinkedRows, has_hash-eq, hash_of_last, linked_end, linked_next,
}
use merge_mining_monitor.Base.{
  Bool-cases, List, Option, [], and-true, arith, false, inl, inr, leb→le, length, none, refl, some,
  suc, sym, true, zero, ℕ, ◌&&◌, ◌-◌, ◌^◌, ◌||◌, ◌∙◌, ◌∷◌, ◌≡◌, ◌⊎◌,
}
use merge_mining_monitor.Base.Int.{
  +ℤ_parts, add_suc_ℤ, add_zero_ℤ, eq_of_parts, eqb_ℤ, leb_ℤ, negsuc, pos, pos_part, shift_suc, ℤ,
  ◌+ℤ◌, ◌-ℤ◌, ◌≤ℤ◌,
}
use merge_mining_monitor.Base.Ranges.{heights_from}
use merge_mining_monitor.Base.Text.{same_text_iff}
use merge_mining_monitor.Base.Words.{Bytes, IsI32}

-- A height has one row, which is complete, and which stands on the hash `before` unless it is the genesis.
pub record ExtendsBy (load : ℤ → List CanonicalRow) (h : ℤ) (before : Option Bytes) : Type 0 where
  pub row : CanonicalRow
  pub single : load h ≡ row ∷ []
  pub done : row.coinbase_status ≡ "complete"
  pub stands : (h ≡ pos 0) ⊎ (before ≡ some row.prev_hash)

-- What a run of the loop leaves: the rows above the cursor up to the new one are one chain, and no row
-- extends it.
pub record Extension (load : ℤ → List CanonicalRow) (h : ℤ) (anchor : Option Bytes) (reached : ℤ)
    : Type 0 where
  pub prefix_rows : List CanonicalRow
  pub linked : LinkedRows load (heights_from (length prefix_rows) (h +ℤ pos 1)) anchor prefix_rows
  pub sums_to : h +ℤ pos (length prefix_rows) ≡ reached
  pub maximal :
      (reached ≡ pos (2 ^ 31 - 1))
      ⊎ (¬ ExtendsBy load (reached +ℤ pos 1) (hash_of_last anchor prefix_rows))

-- Where the code finds no next row, there is none.
next_row-none :
    (load : ℤ → List CanonicalRow) (h : ℤ) (anchor : Option Bytes)
    → next_row h anchor (load h) ≡ none
    → ¬ ExtendsBy load h anchor
unfolding next_row is_complete
next_row-none load h anchor e x =
    let e1 = rw x.single at e in
    let complete = (same_text_iff x.row.coinbase_status "complete").1 x.done in
    let e2 = rw complete at e1 in
    elim x.stands [
      | inl genesis ↦
          let at_zero : eqb_ℤ h (pos 0) ≡ true = rw genesis refl in let e3 = rw at_zero at e2 in cc
      | inr before ↦
          let same : has_hash anchor x.row.prev_hash ≡ true =
            (has_hash-eq anchor x.row.prev_hash).1 before in
          elim (Bool-cases (eqb_ℤ h (pos 0))) [
            | inl at_zero ↦ let e3 = rw at_zero at e2 in cc
            | inr above ↦ let e3 = rw (above, same) at e2 in cc
          ]
    ]

-- what a row that extends the prefix is
record Extends (h : ℤ) (anchor : Option Bytes) (rows : List CanonicalRow) (hash : Bytes)
    : Type 0 where
  pub row : CanonicalRow
  pub single : rows ≡ row ∷ []
  pub is_row : row.hash ≡ hash
  pub done : row.coinbase_status ≡ "complete"
  pub links : (eqb_ℤ h (pos 0) || has_hash anchor row.prev_hash) ≡ true

next_row-Extends :
    (h : ℤ) (anchor : Option Bytes) (rows : List CanonicalRow) {hash : Bytes}
    → next_row h anchor rows ≡ some hash
    → Extends h anchor rows hash
unfolding next_row is_complete
next_row-Extends h anchor [] e = cc
next_row-Extends h anchor (r ∷ []) e =
    elim (Bool-cases (is_complete r && (eqb_ℤ h (pos 0) || has_hash anchor r.prev_hash))) [
      | inl extends ↦
          let e' = rw extends at e in
          let (complete, links) = and-true (is_complete r) _ extends in
          record {
            row = r;
            single = refl;
            is_row = cc;
            done = (same_text_iff r.coinbase_status "complete").0 complete;
            links = links;
          }
      | inr breaks ↦ let e' = rw breaks at e in cc
    ]
next_row-Extends h anchor (r ∷ r' ∷ rs) e = cc

-- The prev hash is compared at every height but 0, and there no hash stands before.
extended-links :
    (h : ℤ) (anchor : Option Bytes) (prev : Bytes)
    → (h ≡ pos 0 → anchor ≡ none)
    → (eqb_ℤ h (pos 0) || has_hash anchor prev) ≡ true
    → (hash : Bytes) → anchor ≡ some hash
    → prev ≡ hash
extended-links h anchor prev genesis links hash e = elim (Bool-cases (eqb_ℤ h (pos 0))) [
  | inl zero_height ↦
      let none_before = genesis (eq_of_parts h (pos 0) (ground arith)) in absurd (cc)
  | inr above ↦
      let links' = rw above at links in let same = (has_hash-eq anchor prev).0 links' in cc
]

still_low : (h : ℤ) → pos 0 ≤ℤ h +ℤ pos 1 → pos 0 ≤ℤ h +ℤ pos 1 +ℤ pos 1
still_low h low = omega (arith, +ℤ_parts (h +ℤ pos 1) (pos 1))

not_zero {ℓ} : {A : Type ℓ} (h : ℤ) → pos 0 ≤ℤ h +ℤ pos 1 → h +ℤ pos 1 +ℤ pos 1 ≡ pos 0 → A
not_zero h low e =
    let parts = rw e at (+ℤ_parts (h +ℤ pos 1) (pos 1)) in absurd (omega (arith, parts, low))

module _ (load : ℤ → List CanonicalRow) where
  extended-Extension :
      (later : Option Bytes → ℤ) (h : ℤ) (anchor found_hash : Option Bytes)
      → pos 0 ≤ℤ h +ℤ pos 1
      → (h +ℤ pos 1 ≡ pos 0 → anchor ≡ none)
      → next_row (h +ℤ pos 1) anchor (load (h +ℤ pos 1)) ≡ found_hash
      → ((hash : Bytes) → Extension load (h +ℤ pos 1) (some hash) (later (some hash)))
      → Extension load h anchor (extended later h found_hash)
  unfolding extended heights_from
  extended-Extension later h anchor none low genesis e next = record {
    prefix_rows = [];
    linked = linked_end;
    sums_to = add_zero_ℤ h;
    maximal = inr (next_row-none load (h +ℤ pos 1) anchor e);
  }
  extended-Extension later h anchor (some hash) low genesis e next =
      let x = next_row-Extends (h +ℤ pos 1) anchor (load (h +ℤ pos 1)) e in
      let rest = next hash in
      let chained =
        subst
          (λ k.
            LinkedRows load (heights_from (length rest.prefix_rows) (h +ℤ pos 1 +ℤ pos 1)) (some k)
              rest.prefix_rows)
          (sym x.is_row) rest.linked in
      record {
        prefix_rows = x.row ∷ rest.prefix_rows;
        linked =
            linked_next x.single x.done
              (extended-links (h +ℤ pos 1) anchor x.row.prev_hash genesis x.links) chained;
        sums_to = add_suc_ℤ h (length rest.prefix_rows) ∙ rest.sums_to;
        maximal = rw x.is_row rest.maximal;
      }

  extend_prefix-Extension :
      (left : ℕ) (h : ℤ) (anchor : Option Bytes)
      → pos 0 ≤ℤ h +ℤ pos 1
      → (h +ℤ pos 1 ≡ pos 0 → anchor ≡ none)
      → h +ℤ pos left ≡ pos (2 ^ 31 - 1)
      → Extension load h anchor (extend_prefix load left h anchor)
  unfolding extend_prefix heights_from
  extend_prefix-Extension zero h anchor low genesis sum = record {
    prefix_rows = [];
    linked = linked_end;
    sums_to = add_zero_ℤ h;
    maximal = inl (sym (add_zero_ℤ h) ∙ sum);
  }
  extend_prefix-Extension (suc left) h anchor low genesis sum =
      extended-Extension (extend_prefix load left (h +ℤ pos 1)) h anchor _ low genesis refl (λ hash.
        extend_prefix-Extension left (h +ℤ pos 1) (some hash) (still_low h low)
          (λ e. not_zero h low e) (shift_suc left h _ sum))

-- What an advance of the cursor may lead to.
pub data AdvanceOf (load : ℤ → List CanonicalRow) (h : ℤ) : ℤ → Type 0 where
  unanchored_cursor :
      pos 0 ≤ℤ h
      → ¬ ((r : CanonicalRow) × (load h ≡ r ∷ []) × (r.coinbase_status ≡ "complete"))
      → AdvanceOf load h h
  from_genesis :
      {reached : ℤ} → h ≡ negsuc 0 → Extension load h none reached → AdvanceOf load h reached
  from_anchor :
      {reached : ℤ} {r : CanonicalRow}
      → load h ≡ r ∷ []
      → r.coinbase_status ≡ "complete"
      → Extension load h (some r.hash) reached
      → AdvanceOf load h reached

anchored-eq :
    (rows : List CanonicalRow) {hash : Bytes}
    → anchored rows ≡ some hash
    → (r : CanonicalRow) × (rows ≡ r ∷ []) × (r.coinbase_status ≡ "complete") × (r.hash ≡ hash)
unfolding anchored is_complete
anchored-eq [] e = cc
anchored-eq (r ∷ []) e = elim (Bool-cases (is_complete r)) [
  | inl complete ↦
      let e' = rw complete at e in
      (r, refl, (same_text_iff r.coinbase_status "complete").0 complete, cc)
  | inr partial ↦ let e' = rw partial at e in cc
]
anchored-eq (r ∷ r' ∷ rs) e = cc

anchored-none :
    (rows : List CanonicalRow)
    → anchored rows ≡ none
    → ¬ ((r : CanonicalRow) × (rows ≡ r ∷ []) × (r.coinbase_status ≡ "complete"))
unfolding anchored is_complete
anchored-none rows e (r, single, done) =
    let e1 = rw single at e in
    let complete = (same_text_iff r.coinbase_status "complete").1 done in
    let e2 = rw complete at e1 in cc

remaining : (h : ℤ) → IsI32 h → h +ℤ pos (pos_part (pos (2 ^ 31 - 1) -ℤ h)) ≡ pos (2 ^ 31 - 1)
unfolding ◌+ℤ◌ ◌-ℤ◌
remaining (pos n) h = ground arith
remaining (negsuc n) h = ground arith

not_genesis {ℓ} : {A : Type ℓ} (h : ℤ) → pos 0 ≤ℤ h → h +ℤ pos 1 ≡ pos 0 → A
not_genesis h above e =
    let parts = rw e at (+ℤ_parts h (pos 1)) in absurd (omega (arith, parts, above))

is_minus_one : (h : ℤ) → pos 0 ≤ℤ h +ℤ pos 1 → leb_ℤ (pos 0) h ≡ false → h ≡ negsuc 0
is_minus_one h low below = eq_of_parts h (negsuc 0) (ground (arith, +ℤ_parts h (pos 1)))

module _ (load : ℤ → List CanonicalRow) (h : ℤ) (small : IsI32 h) (low : pos 0 ≤ℤ h +ℤ pos 1) where
  extend_from-AdvanceOf :
      (anchor : Option Bytes)
      → pos 0 ≤ℤ h
      → anchored (load h) ≡ anchor
      → AdvanceOf load h (extend_from load h anchor)
  unfolding extend_from
  extend_from-AdvanceOf none above e = unanchored_cursor above (anchored-none (load h) e)
  extend_from-AdvanceOf (some hash) above e =
      let (r, single, done, same) = anchored-eq (load h) e in
      from_anchor single done (
        rw same (
          extend_prefix-Extension load _ h (some hash) low (λ z. not_genesis h above z)
            (remaining h small)))

  -- From a cursor at -1 or above, the cursor advances over exactly the rows that extend the proven
  -- prefix: the rows above it, up to the one it reaches, are one at each height, complete, and linked
  -- to the row of the cursor (to nothing at -1). Unless the cursor is the greatest i32, the height behind
  -- them has no single complete row that is the genesis or links to the last of them. Without a single
  -- complete row at the cursor nothing advances.
  pub advance_contiguous_complete_prefix-AdvanceOf :
      AdvanceOf load h (advance_contiguous_complete_prefix load h)
  unfolding advance_contiguous_complete_prefix
  advance_contiguous_complete_prefix-AdvanceOf = elim (Bool-cases (leb_ℤ (pos 0) h)) [
    | inl above ↦ rw above (extend_from-AdvanceOf (anchored (load h)) (leb→le _ _ above) refl)
    | inr below ↦ rw below (
        from_genesis (is_minus_one h low below)
          (extend_prefix-Extension load _ h none low (λ e. refl) (remaining h small)))
  ]

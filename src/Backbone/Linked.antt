-- ===== src/Backbone/Linked.antt =====
-- crates/mmm-producers/src/bitcoin_core_backbone/live_window.rs: the loop over the rows of a window.
use merge_mining_monitor.Backbone.{
  CanonicalRow, has_hash, is_complete, links_to, rows_at_height, take_single, verify_rows,
}
use merge_mining_monitor.Base.{
  ==_iff, >>=-eq-ok, List, Option, [], ap, arith, bytes_eq_complete, bytes_eq_sound, ensure-then,
  if◌then◌else◌, none, ok, refl, some, suc, true, zero, ℕ, ◌↔◌, ◌∙◌, ◌∷◌, ◌≡◌,
}
use merge_mining_monitor.Base.Int.{+ℤ_parts, eqb_ℤ, pos, pos_part, shift_suc, ℤ, ◌+ℤ◌, ◌-ℤ◌, ◌≤ℤ◌}
use merge_mining_monitor.Base.Ranges.{heights_from}
use merge_mining_monitor.Base.Text.{same_text_iff}
use merge_mining_monitor.Base.Words.{Bytes}

-- The rows of a list of heights: at each height exactly one row, which is complete and whose prev hash
-- is the hash before.
pub data LinkedRows (load : ℤ → List CanonicalRow)
    : List ℤ → Option Bytes → List CanonicalRow → Type 0 where
  linked_end : {previous : Option Bytes} → LinkedRows load [] previous []
  linked_next :
      {h : ℤ} {hs : List ℤ} {previous : Option Bytes} {r : CanonicalRow} {rs : List CanonicalRow}
      → load h ≡ r ∷ []
      → r.coinbase_status ≡ "complete"
      → ((hash : Bytes) → previous ≡ some hash → r.prev_hash ≡ hash)
      → LinkedRows load hs (some r.hash) rs
      → LinkedRows load (h ∷ hs) previous (r ∷ rs)

pub links_to_iff :
    (previous : Option Bytes) (r : CanonicalRow)
    → (links_to previous r ≡ true) ↔ ((hash : Bytes) → previous ≡ some hash → r.prev_hash ≡ hash)
unfolding links_to
links_to_iff none r = (λ h hash e. cc, λ h. refl)
links_to_iff (some hash) r = (
  λ h hash' e. let same : hash ≡ hash' = cc in bytes_eq_sound r.prev_hash hash h ∙ same,
  λ h. bytes_eq_complete r.prev_hash hash (h hash refl),
)

-- the hash of the last row, or `tip` when there is none
abbrev pub hash_of_last : Option Bytes → List CanonicalRow → Option Bytes
hash_of_last tip [] = tip
hash_of_last tip (r ∷ rs) = hash_of_last (some r.hash) rs

pub single-eq-ok :
    (h : ℤ) (rs : List CanonicalRow) {r : CanonicalRow} → take_single h rs ≡ ok r → rs ≡ r ∷ []
unfolding take_single
single-eq-ok h [] e = cc
single-eq-ok h (r ∷ []) e = cc
single-eq-ok h (r ∷ r' ∷ rs) e = cc

last_is_target : (c target : ℤ) → c +ℤ pos 1 ≡ target +ℤ pos 1 → eqb_ℤ c target ≡ true
last_is_target c target e =
    let moved = rw e at (+ℤ_parts c (pos 1)) in
    let parts = +ℤ_parts target (pos 1) in (==_iff _ _).1 (omega (arith, moved, parts))

module _ (rows : List CanonicalRow) where
  tip_step :
      (n : ℕ) (c target : ℤ) (r : CanonicalRow) (tip : Option Bytes) (rs : List CanonicalRow)
      → c +ℤ pos (suc n) ≡ target +ℤ pos 1
      → LinkedRows (rows_at_height rows) (heights_from n (c +ℤ pos 1)) (some r.hash) rs
      → hash_of_last (if eqb_ℤ c target then some r.hash else tip) rs
        ≡ hash_of_last (some r.hash) rs
  unfolding heights_from
  tip_step zero c target r tip _ e linked_end = rw (last_is_target c target e) refl
  tip_step (suc n) c target r tip _ e (linked_next single complete links rest) = refl

  pub verify_rows-LinkedRows :
      (n : ℕ) (c target : ℤ) (previous tip : Option Bytes) {out : Option Bytes}
      → c +ℤ pos n ≡ target +ℤ pos 1
      → verify_rows rows target (heights_from n c) previous tip ≡ ok out
      → (rs : List CanonicalRow) × LinkedRows (rows_at_height rows) (heights_from n c) previous rs
        × (out ≡ hash_of_last tip rs)
  unfolding heights_from verify_rows is_complete
  verify_rows-LinkedRows zero c target previous tip e went = ([], linked_end, cc)
  verify_rows-LinkedRows (suc n) c target previous tip e went =
      let (r, taken, went1) = >>=-eq-ok (take_single c (rows_at_height rows c)) _ went in
      let (complete, went2) = ensure-then (is_complete r) _ _ went1 in
      let (links, went3) = ensure-then (links_to previous r) _ _ went2 in
      let (rs, linked, same) =
        verify_rows-LinkedRows n (c +ℤ pos 1) target _ _ (shift_suc n c _ e) went3 in
      (
        r ∷ rs,
        linked_next (single-eq-ok c _ taken)
            ((same_text_iff r.coinbase_status "complete").0 complete)
            ((links_to_iff previous r).0 links) linked,
        same ∙ tip_step n c target r tip rs e linked,
      )

  pub LinkedRows-verify_rows :
      (n : ℕ) (c target : ℤ) (previous tip : Option Bytes) (rs : List CanonicalRow)
      → c +ℤ pos n ≡ target +ℤ pos 1
      → LinkedRows (rows_at_height rows) (heights_from n c) previous rs
      → verify_rows rows target (heights_from n c) previous tip ≡ ok (hash_of_last tip rs)
  unfolding heights_from verify_rows is_complete take_single
  LinkedRows-verify_rows zero c target previous tip _ e linked_end = refl
  LinkedRows-verify_rows (suc n) c target previous tip _ e
        (linked_next {r = r} {rs = rs} single complete links rest) =
      let done = (same_text_iff r.coinbase_status "complete").1 complete in
      let linked = (links_to_iff previous r).1 links in
      rw (single, done, linked)
        (LinkedRows-verify_rows n (c +ℤ pos 1) target _ _ rs (shift_suc n c _ e) rest
          ∙ ap ok (tip_step n c target r tip rs e rest))

pub between_sum :
    (start end : ℤ) → start ≤ℤ end → start +ℤ pos (pos_part (end +ℤ pos 1 -ℤ start)) ≡ end +ℤ pos 1
unfolding ◌+ℤ◌ ◌-ℤ◌
between_sum start end h = ground arith

pub has_hash-eq :
    (found_hash : Option Bytes) (hash : Bytes)
    → (has_hash found_hash hash ≡ true) ↔ (found_hash ≡ some hash)
has_hash-eq none hash = (λ e. cc, λ e. cc)
has_hash-eq (some known) hash =
    (λ e. ap some (bytes_eq_sound known hash e), λ e. bytes_eq_complete known hash cc)

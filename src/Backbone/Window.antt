-- ===== src/Backbone/Window.antt =====
-- crates/mmm-producers/src/bitcoin_core_backbone/live_window.rs: the window that is accepted.
use merge_mining_monitor.Backbone.{
  BackboneTip, CanonicalRow, has_hash, live_backbone_window_start_height, rows_at_height,
  verify_live_backbone_window, verify_live_backbone_window_rows, verify_rows,
}
use merge_mining_monitor.Backbone.Linked.{
  LinkedRows, LinkedRows-verify_rows, between_sum, has_hash-eq, hash_of_last, linked_end,
  linked_next, verify_rows-LinkedRows,
}
use merge_mining_monitor.Backbone.Rows.{SoleRow, SoleRow-rows_at_height, rows_at_height-SoleRow}
use merge_mining_monitor.Base.{
  >>=-eq-ok, List, Option, [], ap, arith, bytes_eq, bytes_eq_complete, bytes_eq_sound, ensure-eq-ok,
  ensure-then, length, none, ok, refl, some, suc, sym, zero, ℕ, ◌+◌, ◌-◌, ◌<◌, ◌^◌, ◌↔◌, ◌∙◌, ◌∷◌,
  ◌≡◌, ◌≤◌,
}
use merge_mining_monitor.Base.Int.{
  +ℤ_parts, eq_of_parts, negsuc, pos, pos_part, ℤ, ◌+ℤ◌, ◌-ℤ◌, ◌<ℤ◌, ◌≤ℤ◌,
}
use merge_mining_monitor.Base.Ranges.{heights_between, heights_from, saturate_i32}
use merge_mining_monitor.Base.Words.{Bytes, IsI32}
use merge_mining_monitor.Follow.{verified}

-- Where the window starts: at 0 or above, and at most the window's heights below the tip.
pub window_start-bounds :
    (tip window : ℤ)
    → IsI32 tip
    → IsI32 window
    → pos 0 ≤ℤ tip
    → pos 0 <ℤ window
    → (pos 0 ≤ℤ live_backbone_window_start_height tip window)
      × (live_backbone_window_start_height tip window ≤ℤ tip)
      × (tip ≤ℤ live_backbone_window_start_height tip window +ℤ window -ℤ pos 1)
unfolding live_backbone_window_start_height saturate_i32 ◌+ℤ◌ ◌-ℤ◌
window_start-bounds (pos m) (pos n) h1 h2 h3 h4 = ground arith
window_start-bounds (pos m) (negsuc n) h1 h2 h3 h4 = absurd (omega arith)
window_start-bounds (negsuc m) n h1 h2 h3 h4 = absurd (omega arith)

record IsLinkedWindow (rows : List CanonicalRow) (start : ℤ) (target : BackboneTip) : Type 0 where
  pub window_rows : List CanonicalRow
  pub linked :
      LinkedRows (rows_at_height rows) (heights_between start target.tip_height) none window_rows
  pub ends_at : hash_of_last none window_rows ≡ some target.tip_hash

-- The rows of a window are accepted exactly when they are one unbroken chain that ends on the target.
verify_live_backbone_window_rows_iff :
    (rows : List CanonicalRow) (start : ℤ) (target : BackboneTip)
    → start ≤ℤ target.tip_height
    → (verify_live_backbone_window_rows rows start target ≡ ok tt)
      ↔ IsLinkedWindow rows start target
unfolding verify_live_backbone_window_rows heights_between
verify_live_backbone_window_rows_iff rows start target below =
    let count = pos_part (target.tip_height +ℤ pos 1 -ℤ start) in
    let sum = between_sum start target.tip_height below in
    (
      λ went.
          let (tip, verified, last) =
            >>=-eq-ok (verify_rows rows target.tip_height (heights_from count start) none none) _
              went in
          let (rs, linked, same) =
            verify_rows-LinkedRows rows count start target.tip_height none none sum verified in
          let hashed = ensure-eq-ok (has_hash tip target.tip_hash) _ last in
          record {
            window_rows = rs;
            linked = linked;
            ends_at = sym same ∙ (has_hash-eq tip target.tip_hash).0 hashed;
          },
      λ h.
          let verified =
            LinkedRows-verify_rows rows count start target.tip_height none none h.window_rows sum
              h.linked in
          rw (verified, (has_hash-eq _ target.tip_hash).1 h.ends_at) refl,
    )

-- Rows at the heights from `h` on: each is the only one of its height, is complete, and has the hash
-- before as its prev hash.
pub data ChainFrom (rows : List CanonicalRow) : ℤ → Option Bytes → List CanonicalRow → Type 0 where
  chain_end : {h : ℤ} {previous : Option Bytes} → ChainFrom rows h previous []
  chain_next :
      {h : ℤ} {previous : Option Bytes} {r : CanonicalRow} {rs : List CanonicalRow}
      → SoleRow rows h r
      → r.coinbase_status ≡ "complete"
      → ((hash : Bytes) → previous ≡ some hash → r.prev_hash ≡ hash)
      → ChainFrom rows (h +ℤ pos 1) (some r.hash) rs
      → ChainFrom rows h previous (r ∷ rs)

-- One row for each height of the window, each complete and on the one before, the last one the target.
pub record IsLiveWindow (rows : List CanonicalRow) (start : ℤ) (target : BackboneTip) : Type 0 where
  pub window_rows : List CanonicalRow
  pub linked : ChainFrom rows start none window_rows
  pub reaches : start +ℤ pos (length window_rows) ≡ target.tip_height +ℤ pos 1
  pub ends_at : hash_of_last none window_rows ≡ some target.tip_hash

module _ (rows : List CanonicalRow) where
  LinkedRows-ChainFrom :
      (n : ℕ) (h : ℤ) (previous : Option Bytes) (rs : List CanonicalRow)
      → LinkedRows (rows_at_height rows) (heights_from n h) previous rs
      → ChainFrom rows h previous rs × (length rs ≡ n)
  unfolding heights_from
  LinkedRows-ChainFrom zero h previous _ linked_end = (chain_end, refl)
  LinkedRows-ChainFrom (suc n) h previous _
        (linked_next {r = r} {rs = rs} single complete links rest) =
      let (chained, count) = LinkedRows-ChainFrom n (h +ℤ pos 1) (some r.hash) rs rest in
      (chain_next (rows_at_height-SoleRow rows h r single) complete links chained, ap suc count)

  ChainFrom-LinkedRows :
      (h : ℤ) (previous : Option Bytes) (rs : List CanonicalRow)
      → ChainFrom rows h previous rs
      → LinkedRows (rows_at_height rows) (heights_from (length rs) h) previous rs
  unfolding heights_from
  ChainFrom-LinkedRows h previous _ chain_end = linked_end
  ChainFrom-LinkedRows h previous _ (chain_next {r = r} {rs = rs} sole complete links rest) =
      linked_next (SoleRow-rows_at_height rows h r sole) complete links
        (ChainFrom-LinkedRows (h +ℤ pos 1) (some r.hash) rs rest)

same_count : (start : ℤ) (n m : ℕ) (end : ℤ) → start +ℤ pos n ≡ end → start +ℤ pos m ≡ end → n ≡ m
same_count start n m end e1 e2 =
    let p1 = rw e1 at (+ℤ_parts start (pos n)) in
    let p2 = rw e2 at (+ℤ_parts start (pos m)) in omega (arith, p1, p2)

IsLinkedWindow-IsLiveWindow :
    (rows : List CanonicalRow) (start : ℤ) (target : BackboneTip)
    → start ≤ℤ target.tip_height
    → IsLinkedWindow rows start target ↔ IsLiveWindow rows start target
unfolding heights_between
IsLinkedWindow-IsLiveWindow rows start target below =
    let count = pos_part (target.tip_height +ℤ pos 1 -ℤ start) in
    let sum = between_sum start target.tip_height below in
    (
      λ w.
          let (chained, long) = LinkedRows-ChainFrom rows count start none w.window_rows w.linked in
          record {
            window_rows = w.window_rows;
            linked = chained;
            reaches = rw long sum;
            ends_at = w.ends_at;
          },
      λ w.
          let long = same_count start (length w.window_rows) count _ w.reaches sum in
          record {
            window_rows = w.window_rows;
            linked = rw long at (ChainFrom-LinkedRows rows start none w.window_rows w.linked);
            ends_at = w.ends_at;
          },
    )

start_of :
    (tip window : ℕ)
    → tip < 2 ^ 31
    → 1 ≤ window
    → window < 2 ^ 31
    → live_backbone_window_start_height (pos tip) (pos window) ≡ pos (tip + 1 - window)
unfolding live_backbone_window_start_height saturate_i32 ◌+ℤ◌ ◌-ℤ◌
start_of tip window h1 h2 h3 = eq_of_parts _ _ (ground arith)

-- For a target at the height `tip` of an i32 and a window of one height or more, the live window is
-- accepted exactly when Core still has the target's hash at its height, and the stored rows of the
-- last `window` heights up to the target (of all heights from 0 on, when there are fewer) are one
-- unbroken chain that ends on the target: at each height exactly one row, whose coinbase is complete
-- and whose prev hash is the hash of the height below.
pub verify_live_backbone_window_iff :
    (current_hash tip_hash : Bytes) (load : ℤ → ℤ → List CanonicalRow) (tip window : ℕ)
    → tip < 2 ^ 31
    → 1 ≤ window
    → window < 2 ^ 31
    → let target : BackboneTip = record { tip_height = pos tip; tip_hash = tip_hash } in
      let start = pos (tip + 1 - window) in
      (verify_live_backbone_window current_hash load target (pos window) ≡ ok tt)
      ↔ ((current_hash ≡ tip_hash) × IsLiveWindow (load start (pos tip)) start target)
unfolding verify_live_backbone_window
verify_live_backbone_window_iff current_hash tip_hash load tip window h1 h2 h3 =
    let target : BackboneTip = record { tip_height = pos tip; tip_hash = tip_hash } in
    let start = pos (tip + 1 - window) in
    let below : start ≤ℤ pos tip = omega arith in
    let rows = load start (pos tip) in
    let coded = verify_live_backbone_window_rows_iff rows start target below in
    let chained = IsLinkedWindow-IsLiveWindow rows start target below in
    rw (start_of tip window h1 h2 h3) (
      λ went.
          let (same, verified) = ensure-then (bytes_eq current_hash tip_hash) _ _ went in
          (bytes_eq_sound current_hash tip_hash same, chained.0 (coded.0 verified)),
      λ (same, h). rw (bytes_eq_complete current_hash tip_hash same) (coded.1 (chained.1 h)),
    )

-- ===== src/Backbone/View.antt =====
-- crates/mmm-producers/src/bitcoin_core_backbone/reorg.rs: the view that `capture_core_view_until` gives.
use mathlib.Core.Path.{subst}
use merge_mining_monitor.Backbone.{BackboneTip, CoreViewRow}
use merge_mining_monitor.Backbone.Repair.{
  BackboneSource, RepairFault, called, capture_core_view_until, capture_rows, continued,
}
use merge_mining_monitor.Base.{
  >>=-eq-ok, All, Bool, List, Result, [], ap, arith, bytes_eq, bytes_eq_sound, ensure-then, false,
  inl, inr, ok, refl, suc, sym, true, zero, ℕ, ◌∙◌, ◌∷◌, ◌≡◌, ◌⊎◌,
}
use merge_mining_monitor.Base.Int.{add_zero_ℤ, int_laws, pos, pos_part, ℤ, ◌+ℤ◌, ◌-ℤ◌, ◌≤ℤ◌}
use merge_mining_monitor.Base.Words.{Bytes}
use merge_mining_monitor.Bitcoin.{Library}

-- Rows in the order of their heights that end on a target, each with the hash of the one before in its
-- header, and each with the hash of its header.
pub data IsCoreView (lib : Library) (target : BackboneTip) : List CoreViewRow → Type 0 where
  view_tip :
      (r : CoreViewRow)
      → r.view_height ≡ target.tip_height
      → r.view_hash ≡ target.tip_hash
      → lib.block_hash r.view_header ≡ r.view_hash
      → IsCoreView lib target (r ∷ [])
  view_next :
      (r r' : CoreViewRow) (rs : List CoreViewRow)
      → r'.view_height ≡ r.view_height +ℤ pos 1
      → r'.view_header.prev_blockhash ≡ r.view_hash
      → lib.block_hash r.view_header ≡ r.view_hash
      → IsCoreView lib target (r' ∷ rs)
      → IsCoreView lib target (r ∷ r' ∷ rs)

-- where the loop stands: at the target, or below the first row of a view
data Below (lib : Library) (target : BackboneTip) (h : ℤ) (requested : Bytes)
    : List CoreViewRow → Type 0 where
  at_target : h ≡ target.tip_height → requested ≡ target.tip_hash → Below lib target h requested []
  below_view :
      (r : CoreViewRow) (rs : List CoreViewRow)
      → r.view_height ≡ h +ℤ pos 1
      → r.view_header.prev_blockhash ≡ requested
      → IsCoreView lib target (r ∷ rs)
      → Below lib target h requested (r ∷ rs)

Below-IsCoreView :
    {lib : Library} {target : BackboneTip} {h : ℤ} {requested : Bytes} {view : List CoreViewRow}
    (r : CoreViewRow)
    → r.view_height ≡ h
    → r.view_hash ≡ requested
    → lib.block_hash r.view_header ≡ r.view_hash
    → Below lib target h requested view
    → IsCoreView lib target (r ∷ view)
Below-IsCoreView r e1 e2 e3 (at_target h1 h2) = view_tip r (e1 ∙ h1) (e2 ∙ h2) e3
Below-IsCoreView r e1 e2 e3 (below_view r' rs h1 h2 view) =
    view_next r r' rs (h1 ∙ ap (λ k. k +ℤ pos 1) (sym e1)) (h2 ∙ sym e2) e3 view

-- a captured view, down to `start` or to the first row at which the capture stops
pub record Captured (lib : Library) (target : BackboneTip) (start : ℤ) (stop : CoreViewRow → Bool)
    (view : List CoreViewRow) : Type 0 where
  pub lowest_row : CoreViewRow
  pub others : List CoreViewRow
  pub parts : view ≡ lowest_row ∷ others
  pub chain_of_core : IsCoreView lib target (lowest_row ∷ others)
  pub reaches : (lowest_row.view_height ≡ start) ⊎ (stop lowest_row ≡ true)
  pub goes_on : All (λ r. stop r ≡ false) others

down_up : (h : ℤ) → h -ℤ pos 1 +ℤ pos 1 ≡ h
down_up h = grind int_laws

step_down : (start : ℤ) (n : ℕ) (h : ℤ) → start +ℤ pos (suc n) ≡ h → start +ℤ pos n ≡ h -ℤ pos 1
step_down start n h e = rw (← e) (grind int_laws)

rows_down :
    (start end : ℤ)
    → start ≤ℤ end
    → (n : ℕ) × (pos_part (end +ℤ pos 1 -ℤ start) ≡ suc n) × (start +ℤ pos n ≡ end)
unfolding ◌+ℤ◌ ◌-ℤ◌
rows_down start end below = (pos_part (end -ℤ start), ground arith, ground arith)

module _ (lib : Library) (source : BackboneSource) (stop : CoreViewRow → Bool)
    (target : BackboneTip) (start : ℤ) where
  continued-Captured :
      (later : Bytes → List CoreViewRow → Result RepairFault (List CoreViewRow)) (row : CoreViewRow)
      (above : List CoreViewRow) (b : Bool) {view : List CoreViewRow}
      → stop row ≡ b
      → IsCoreView lib target (row ∷ above)
      → All (λ r. stop r ≡ false) above
      → (stop row ≡ false
          → later row.view_header.prev_blockhash (row ∷ above) ≡ ok view
          → Captured lib target start stop view)
      → continued later row above b ≡ ok view
      → Captured lib target start stop view
  unfolding continued
  continued-Captured later row above true e core all next went = record {
    lowest_row = row;
    others = above;
    parts = cc;
    chain_of_core = core;
    reaches = inr e;
    goes_on = all;
  }
  continued-Captured later row above false e core all next went = next e went

  finished :
      (row : CoreViewRow) (above : List CoreViewRow) {view : List CoreViewRow}
      → row.view_height ≡ start
      → IsCoreView lib target (row ∷ above)
      → All (λ r. stop r ≡ false) above
      → ◌≡◌ {A = Result RepairFault (List CoreViewRow)} (ok (row ∷ above)) (ok view)
      → Captured lib target start stop view
  finished row above e core all went = record {
    lowest_row = row;
    others = above;
    parts = cc;
    chain_of_core = core;
    reaches = inl e;
    goes_on = all;
  }

  -- one round of the loop, at the row that its checks let through
  round-Captured :
      (count : ℕ) (h : ℤ) (requested : Bytes) (above : List CoreViewRow) {view : List CoreViewRow}
      → Below lib target h requested above
      → All (λ r. stop r ≡ false) above
      → ((row : CoreViewRow)
          → row.view_height ≡ h
          → IsCoreView lib target (row ∷ above)
          → stop row ≡ false
          → capture_rows lib source stop count
              (h -ℤ pos 1)
              row.view_header.prev_blockhash
              (row ∷ above)
            ≡ ok view
          → Captured lib target start stop view)
      → capture_rows lib source stop (suc count) h requested above ≡ ok view
      → Captured lib target start stop view
  unfolding capture_rows
  round-Captured count h requested above below all next went =
      let (header, _, went1) = >>=-eq-ok (called (source.core_header requested)) _ went in
      let (same, went2) = ensure-then (bytes_eq (lib.block_hash header) requested) _ _ went1 in
      let row : CoreViewRow = record {
        view_height = h;
        view_hash = lib.block_hash header;
        view_header = header;
      } in
      let core =
        Below-IsCoreView row refl (bytes_eq_sound (lib.block_hash header) requested same) refl
          below in
      continued-Captured (capture_rows lib source stop count (h -ℤ pos 1)) row above (stop row) refl
        core all (λ e went3. next row refl core e went3) went2

  capture_rows-Captured :
      (count : ℕ) (h : ℤ) (requested : Bytes) (above : List CoreViewRow) {view : List CoreViewRow}
      → start +ℤ pos count ≡ h
      → Below lib target h requested above
      → All (λ r. stop r ≡ false) above
      → capture_rows lib source stop (suc count) h requested above ≡ ok view
      → Captured lib target start stop view
  unfolding capture_rows
  capture_rows-Captured zero h requested above sum below all went =
      round-Captured zero h requested above below all
        (λ row e core goes went'.
          finished row above (e ∙ sym sum ∙ add_zero_ℤ start) core all went')
        went
  capture_rows-Captured (suc count) h requested above sum below all went =
      round-Captured (suc count) h requested above below all
        (λ row e core goes went'.
          capture_rows-Captured count (h -ℤ pos 1) row.view_header.prev_blockhash (row ∷ above)
            (step_down start count h sum) (below_view row above (e ∙ sym (down_up h)) refl core)
            (goes, all) went')
        went

  -- A view that is captured down from a target at its start's height or above holds one row at each
  -- height, in order, up to the target: each row is the header that Core has under the hash that the row
  -- above it names. It reaches its start, or ends at the first row, from above, at which it may stop.
  pub capture_core_view_until-Captured :
      (view : List CoreViewRow)
      → start ≤ℤ target.tip_height
      → capture_core_view_until lib source stop target start ≡ ok view
      → Captured lib target start stop view
  unfolding capture_core_view_until
  capture_core_view_until-Captured view below went =
      let (count, counted_rows, sum) = rows_down start target.tip_height below in
      capture_rows-Captured count target.tip_height target.tip_hash [] sum (at_target refl refl) tt
        (subst (λ n. capture_rows lib source stop n target.tip_height target.tip_hash [] ≡ ok view)
          counted_rows went)

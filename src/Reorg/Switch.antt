-- ===== src/Reorg/Switch.antt =====
-- crates/mmm-producers/src/bitcoin_core_backbone/reorg.rs: what is true of Core when a suffix is switched.
use merge_mining_monitor.Backbone.{BackboneTip, CanonicalRow, CoreViewRow, height_at}
use merge_mining_monitor.Base.{
  Bool-cases, List, Result, [], and-true, ap, bytes_eq_sound, drop, err, inl, inr, length, ok, refl,
  suc, sym, true, ℕ, ◌-◌, ◌∙◌, ◌∷◌, ◌≡◌, ◌⊎◌,
}
use merge_mining_monitor.Base.Int.{eqb_ℤ, pos, ℤ}
use merge_mining_monitor.Base.Steps.{after-eq, returned-eq}
use merge_mining_monitor.Bitcoin.{Header, Library}
use merge_mining_monitor.Follow.{SyncStats}
use merge_mining_monitor.Live.{LiveFault}
use merge_mining_monitor.Reorg.{
  ReorgFault, RepairCalls, SuffixInput, SuffixRow, changed_repeatedly, expected_local_rows,
  fetch_replacements, in_transaction, last_tip, live_fault, persisted, plan_fault, raised,
  repair_fault, replace_planned_suffix, same_tip, target_moved, target_unmoved, unless_committed,
  validate_targets,
}
use merge_mining_monitor.Reorg.Stands.{Stands, heights_equal, stability_none}

-- the rows of a view that a suffix is made of
abbrev suffix_parts : List SuffixRow → List (ℤ × Header)
suffix_parts [] = []
suffix_parts (row ∷ rows) = (row.suffix_height, row.suffix_header) ∷ suffix_parts rows

abbrev view_parts : List CoreViewRow → List (ℤ × Header)
view_parts [] = []
view_parts (row ∷ rows) = (row.view_height, row.view_header) ∷ view_parts rows

same_tip_eq : (a b : BackboneTip) → same_tip a b ≡ true → a ≡ b
unfolding same_tip
same_tip_eq a b e =
    let (heights, hashes) = and-true (eqb_ℤ a.tip_height b.tip_height) _ e in
    let same_height = heights_equal a.tip_height b.tip_height heights in
    let same_hash = bytes_eq_sound a.tip_hash b.tip_hash hashes in cc

raised-eq :
    {W A : Type 0} (answer : Result LiveFault A × W) {a : A} {w : W}
    → raised answer ≡ (ok a, w)
    → answer ≡ (ok a, w)
unfolding raised
raised-eq (ok a, w) e = cc
raised-eq (err fault, w) e = cc

module _ (lib : Library) {W : Type 0} (calls : RepairCalls W)
    (target replacement : BackboneTip) where
  -- The targets stand on Core's chain at `looked` and `looked_again`, which are the last looks before `end`.
  pub record BothStand (looked end : W) : Type 0 where
    pub target_stands : Stands (calls.core looked) target
    pub replacement_stands :
        (replacement ≡ target) × (calls.elapse looked ≡ end)
        ⊎ Stands (calls.core (calls.elapse looked)) replacement
          × (calls.elapse (calls.elapse looked) ≡ end)

  target_unmoved-eq :
      (tip : BackboneTip) {w end : W}
      → target_unmoved lib calls tip w ≡ (ok tt, end)
      → Stands (calls.core w) tip × (calls.elapse w ≡ end)
  unfolding target_unmoved
  target_unmoved-eq tip {w} {end} e =
      (stability_none (calls.core w) tip (ap (λ x. x.0) e), ap (λ x. x.1) e)

  validate_targets-BothStand :
      {w end : W} → validate_targets lib calls target replacement w ≡ (ok tt, end) → BothStand w end
  unfolding validate_targets
  validate_targets-BothStand {w} {end} e =
      let (_, s, first, later) = after-eq (target_unmoved lib calls target w) _ e in
      let (stands, at_s) = target_unmoved-eq target first in
      record {
        target_stands = stands;
        replacement_stands = elim (Bool-cases (same_tip replacement target)) [
          | inl same ↦
              let later' = rw same at later in
              inl (same_tip_eq replacement target same, at_s ∙ ap (λ x. x.1) later')
          | inr other ↦
              let later' = rw other at later in
              let (again_stands, at_end) = target_unmoved-eq replacement later' in
              inr (rw (sym at_s) at again_stands, ap calls.elapse at_s ∙ at_end)
        ];
      }

  -- A suffix is written and committed: `begun`, `checked`, `written` and `checked_again` are the worlds
  -- between the parts of the transaction, which leaves `end`.
  pub record Committed (input : SuffixInput) (end : W) : Type 0 where
    pub begun : W
    pub checked : W
    pub written : W
    pub checked_again : W
    pub before_write : BothStand begun checked
    pub writes : calls.write_switch input checked ≡ (ok tt, written)
    pub before_commit : BothStand written checked_again
    pub commits : calls.commit_switch checked_again ≡ (ok tt, end)

  in_transaction-Committed :
      (input : SuffixInput) (w : W) {end : W}
      → in_transaction lib calls target replacement input w ≡ (ok tt, end)
      → Committed input end
  unfolding in_transaction
  in_transaction-Committed input w {end} e =
      let (_, begun, e1, later1) = after-eq _ _ e in
      let (_, checked, e2, later2) = after-eq _ _ later1 in
      let (_, written, e3, later3) = after-eq _ _ later2 in
      let (_, checked_again, e4, later4) = after-eq _ _ later3 in
      record {
        begun = begun;
        checked = checked;
        written = written;
        checked_again = checked_again;
        before_write = validate_targets-BothStand e2;
        writes = raised-eq (calls.write_switch input checked) e3;
        before_commit = validate_targets-BothStand e4;
        commits = raised-eq (calls.commit_switch checked_again) later4;
      }

  persisted-eq :
      (answer : Result ReorgFault (Unit {0}) × W) {end : W}
      → persisted lib calls (unless_committed lib calls answer) ≡ (ok tt, end)
      → answer ≡ (ok tt, end)
  unfolding persisted unless_committed
  persisted-eq (ok tt, w) e = e
  persisted-eq (err (target_moved failure), w) e = let (_, _, _, later) = after-eq _ _ e in cc
  persisted-eq (err (live_fault fault), w) e = cc
  persisted-eq (err (repair_fault fault), w) e = cc
  persisted-eq (err (plan_fault fault), w) e = cc
  persisted-eq (err changed_repeatedly, w) e = cc

module _ (lib : Library) {W : Type 0} (calls : RepairCalls W) where
  fetch_replacements_parts :
      (view : List CoreViewRow) (w : W) {replacements : List SuffixRow} {end : W}
      → fetch_replacements lib calls view w ≡ (ok replacements, end)
      → (suffix_parts replacements ≡ view_parts view) × (length replacements ≡ length view)
  unfolding fetch_replacements
  fetch_replacements_parts [] w {replacements} {end} e =
      let none_left : [] ≡ replacements = cc in (rw (sym none_left) refl, rw (sym none_left) refl)
  fetch_replacements_parts (row ∷ view) w {replacements} {end} e =
      let (coinbase, s, e1, later1) = after-eq _ _ e in
      let (later, s', e2, later2) = after-eq _ _ later1 in
      let (parts, count) = fetch_replacements_parts view s e2 in
      let whole : record {
        suffix_height = row.view_height;
        suffix_header = row.view_header;
        suffix_coinbase = coinbase;
      }
            ∷ later
          ≡ replacements =
        cc in
      (
        rw (sym whole) (ap (◌∷◌ (row.view_height, row.view_header)) parts),
        rw (sym whole) (ap suc count),
      )

  -- what a replaced suffix leaves
  pub record Replaced (target : BackboneTip) (view : List CoreViewRow) (first : ℕ)
      (stats : SyncStats) (end : W) : Type 0 where
    pub input : SuffixInput
    pub same_rows : suffix_parts input.replacements ≡ view_parts (drop first view)
    pub committed_at : W
    pub committed : Committed lib calls target (last_tip lib target view) input committed_at
    pub drained : calls.drain_core_queue committed_at ≡ (ok tt, end)
    pub counted : stats.sync_completed ≡ length (drop first view)

  -- When `replace_planned_suffix` returns, the rows of the captured view from the planned one on were
  -- written and committed. The target of the repair and the tip of the view stood on Core's chain at
  -- the last looks before the write, and again at the last looks before the commit; the queue was
  -- drained behind it, and each row is counted.
  pub replace_planned_suffix_commits :
      (target : BackboneTip) (cursor : ℤ) (view : List CoreViewRow) (rows : List CanonicalRow)
      (first : ℕ) (w : W) (stats : SyncStats) (end : W)
      → replace_planned_suffix lib calls target cursor view rows first w ≡ (ok stats, end)
      → Replaced target view first stats end
  unfolding replace_planned_suffix
  replace_planned_suffix_commits target cursor view rows first w stats end e =
      let (replacements, w1, e1, later1) = after-eq _ _ e in
      let (_, w2, e2, later2) = after-eq _ _ later1 in
      let (_, w3, e3, later3) = after-eq _ _ later2 in
      let (_, w4, e4, later4) = after-eq _ _ later3 in
      let (_, w5, e5, later5) = after-eq _ _ later4 in
      let (parts, count) = fetch_replacements_parts (drop first view) w e1 in
      let (same_stats, at_end) = returned-eq later5 in
      let input : SuffixInput = record {
        expected_contiguous_height = cursor;
        common_ancestor_height = height_at (pos 0) (first - 1) view;
        expected_local = expected_local_rows rows;
        replacements = replacements;
        pending_sync_target = target;
      } in
      record {
        input = input;
        same_rows = parts;
        committed_at = w4;
        committed =
            in_transaction-Committed lib calls target (last_tip lib target view) input w3
              (persisted-eq lib calls target (last_tip lib target view) _ e4);
        drained = raised-eq (calls.drain_core_queue w4) e5 ∙ ap (λ s. (ok tt, s)) at_end;
        counted = ap (λ s. s.sync_completed) (sym same_stats) ∙ count;
      }

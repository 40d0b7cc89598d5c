-- ===== src/Backbone/Plan.antt =====
-- crates/mmm-producers/src/bitcoin_core_backbone/reorg.rs: what `plan_repair` replaces.
use mathlib.Core.Path.{subst}
use merge_mining_monitor.Backbone.{
  CanonicalRow, CoreViewRow, RepairPlan, RepairPlanError, any_other_hash, conflicts, first_height,
  height_at, is_anchor, last_height, last_position, no_hash_conflict, no_matching_anchor,
  plan_conflict, plan_from, plan_repair, position, replace_from, rows_at_height, unique_match,
}
use merge_mining_monitor.Backbone.Rows.{Anchors, Differs, conflicts-Differs, is_anchor-Anchors}
use merge_mining_monitor.Base.{
  All, Bool, Bool-cases, List, Result, [], ap, arith, bytes_eq, err, false, inl, inr, length, none,
  not, ok, refl, some, suc, sym, true, ℕ, ◌++◌, ◌+◌, ◌∙◌, ◌∷◌, ◌≡◌, ◌⊎◌,
}
use merge_mining_monitor.Base.Int.{pos, ℤ}

abbrev pub Fails : (CoreViewRow → Bool) → CoreViewRow → Type 0
Fails p core = p core ≡ false

module _ (p : CoreViewRow → Bool) where
  -- a list taken apart at its first row that passes
  record FirstOf (cs : List CoreViewRow) (i : ℕ) : Type 0 where
    pub before : List CoreViewRow
    pub row : CoreViewRow
    pub behind : List CoreViewRow
    pub parts : cs ≡ before ++ row ∷ behind
    pub index : i ≡ length before
    pub passes_test : p row ≡ true
    pub none_before : All (Fails p) before

  -- a list taken apart at its last row that passes
  record LastOf (cs : List CoreViewRow) (i : ℕ) : Type 0 where
    pub kept : List CoreViewRow
    pub anchor : CoreViewRow
    pub between : List CoreViewRow
    pub parts : cs ≡ kept ++ anchor ∷ between
    pub index : i ≡ length kept
    pub passes_test : p anchor ≡ true
    pub none_between : All (Fails p) between

  -- The counter of the search only shifts its result.
  position-shift :
      (i : ℕ) (cs : List CoreViewRow)
      → ((position p i cs ≡ none) × All (Fails p) cs)
        ⊎ ((j : ℕ) × (position p i cs ≡ some (i + j)) × FirstOf cs j)
  unfolding position
  position-shift i [] = inl (refl, tt)
  position-shift i (c ∷ cs) = elim (Bool-cases (p c)) [
    | inl holds ↦
        let e : i ≡ i + 0 = omega arith in
        inr (
          0,
          rw holds (ap some e),
          record {
            before = [];
            row = c;
            behind = cs;
            parts = refl;
            index = refl;
            passes_test = holds;
            none_before = tt;
          },
        )
    | inr misses ↦ elim (position-shift (i + 1) cs) [
      | inl (e, all) ↦ inl (rw misses e, (misses, all))
      | inr (j, e, first) ↦
          let e' : i + 1 + j ≡ i + suc j = omega arith in
          inr (
            suc j,
            rw misses (e ∙ ap some e'),
            record {
              before = c ∷ first.before;
              row = first.row;
              behind = first.behind;
              parts = ap (λ l. c ∷ l) first.parts;
              index = ap suc first.index;
              passes_test = first.passes_test;
              none_before = (misses, first.none_before);
            },
          )
    ]
  ]

  last_position-shift :
      (i : ℕ) (cs rest : List CoreViewRow)
      → ((last_position p i (length cs) (cs ++ rest) ≡ none) × All (Fails p) cs)
        ⊎ ((j : ℕ) × (last_position p i (length cs) (cs ++ rest) ≡ some (i + j)) × LastOf cs j)
  unfolding last_position
  last_position-shift i [] rest = inl (refl, tt)
  last_position-shift i (c ∷ cs) rest = elim (last_position-shift (i + 1) cs rest) [
    | inr (j, e, last) ↦
        let e' : i + 1 + j ≡ i + suc j = omega arith in
        inr (
          suc j,
          rw e (ap some e'),
          record {
            kept = c ∷ last.kept;
            anchor = last.anchor;
            between = last.between;
            parts = ap (λ l. c ∷ l) last.parts;
            index = ap suc last.index;
            passes_test = last.passes_test;
            none_between = last.none_between;
          },
        )
    | inl (e, all) ↦ elim (Bool-cases (p c)) [
      | inl holds ↦
          let e' : i ≡ i + 0 = omega arith in
          inr (
            0,
            rw (e, holds) (ap some e'),
            record {
              kept = [];
              anchor = c;
              between = cs;
              parts = refl;
              index = refl;
              passes_test = holds;
              none_between = all;
            },
          )
      | inr misses ↦ inl (rw (e, misses) refl, (misses, all))
    ]
  ]

abbrev pub lowest : List CoreViewRow → ℤ
lowest view = height_at (pos 0) 0 view

-- What a plan says of a view and of the local rows.
pub data PlanOf (view : List CoreViewRow) (rows : List CanonicalRow)
    : Result RepairPlanError RepairPlan → Type 0 where
  agrees : All (λ core. ¬ Differs rows core) view → PlanOf view rows (ok no_hash_conflict)
  replaces :
      (kept between behind : List CoreViewRow) (anchor conflict : CoreViewRow)
      → view ≡ (kept ++ anchor ∷ between) ++ conflict ∷ behind
      → Differs rows conflict
      → All (λ core. ¬ Differs rows core) (kept ++ anchor ∷ between)
      → Anchors rows anchor
      → All (λ core. ¬ Anchors rows core) between
      → PlanOf view rows (ok (replace_from (length kept + 1)))
  outside_view :
      (before behind : List CoreViewRow) (conflict : CoreViewRow)
      → view ≡ before ++ conflict ∷ behind
      → Differs rows conflict
      → All (λ core. ¬ Differs rows core) before
      → All (λ core. ¬ Anchors rows core) before
      → PlanOf view rows (
          err (
            no_matching_anchor
              (lowest view)
              conflict.view_height
              (lowest view)
              (last_height (lowest view) view)))

All-not {ℓ} :
    (p : CoreViewRow → Bool) (P : CoreViewRow → Type ℓ)
    → ((core : CoreViewRow) → P core → p core ≡ true)
    → (cs : List CoreViewRow) → All (Fails p) cs
    → All (λ core. ¬ P core) cs
All-not p P meets [] all = tt
All-not p P meets (c ∷ cs) all =
    (λ holds. let e = meets c holds in let e' = all.0 in cc, All-not p P meets cs all.1)

module _ (rows : List CanonicalRow) where
  none_differ :
      (cs : List CoreViewRow)
      → All (Fails (conflicts rows)) cs
      → All (λ core. ¬ Differs rows core) cs
  none_differ = All-not (conflicts rows) (Differs rows) (λ core. (conflicts-Differs rows core).1)

  none_anchor :
      (cs : List CoreViewRow)
      → All (Fails (is_anchor rows)) cs
      → All (λ core. ¬ Anchors rows core) cs
  none_anchor = All-not (is_anchor rows) (Anchors rows) (λ core. (is_anchor-Anchors rows core).1)

-- a row that conflicts is no anchor
conflict-anchor :
    (rows : List CanonicalRow) (core : CoreViewRow)
    → conflicts rows core ≡ true
    → is_anchor rows core ≡ false
unfolding conflicts is_anchor
conflict-anchor rows core h = by_rows core (rows_at_height rows core.view_height) h
  where
    by_rows :
        (core : CoreViewRow) (local : List CanonicalRow)
        → any_other_hash core.view_hash local ≡ true
        → unique_match core local ≡ false
    by_rows core [] h = refl
    by_rows core (r ∷ []) h = elim (Bool-cases (bytes_eq r.hash core.view_hash)) [
      | inl same ↦ let h' = rw same at h in cc
      | inr other ↦ rw other refl
    ]
    by_rows core (r ∷ r' ∷ rs) h = refl

height_at-length :
    (d : ℤ) (before behind : List CoreViewRow) (c : CoreViewRow)
    → height_at d (length before) (before ++ c ∷ behind) ≡ c.view_height
height_at-length d [] behind c = refl
height_at-length d (b ∷ before) behind c = height_at-length d before behind c

-- the first row that is no anchor is the first row of the view, as a conflict is no anchor
first_height-lowest :
    (rows : List CanonicalRow) (d d' : ℤ) (before behind : List CoreViewRow) (c : CoreViewRow)
    → conflicts rows c ≡ true
    → All (Fails (is_anchor rows)) before
    → first_height
        (λ core. not (is_anchor rows core))
        d
        (suc (length before))
        (before ++ c ∷ behind)
      ≡ height_at d' 0 (before ++ c ∷ behind)
first_height-lowest rows d d' [] behind c h all = rw (conflict-anchor rows c h) refl
first_height-lowest rows d d' (b ∷ before) behind c h all = rw all.0 refl

module _ (view : List CoreViewRow) (rows : List CanonicalRow) where
  diverges_lowest :
      (before behind : List CoreViewRow) (conflict : CoreViewRow)
      → view ≡ before ++ conflict ∷ behind
      → conflicts rows conflict ≡ true
      → All (Fails (is_anchor rows)) before
      → first_height (λ core. not (is_anchor rows core)) (lowest view) (suc (length before)) view
        ≡ lowest view
  diverges_lowest before behind conflict parts h all =
      subst
        (λ v.
          first_height (λ core. not (is_anchor rows core)) (lowest v) (suc (length before)) v
          ≡ lowest v)
        (sym parts) (first_height-lowest rows _ (pos 0) before behind conflict h all)

  planned :
      (before behind : List CoreViewRow) (conflict : CoreViewRow)
      → view ≡ before ++ conflict ∷ behind
      → conflicts rows conflict ≡ true
      → All (Fails (conflicts rows)) before
      → PlanOf view rows (plan_from view rows (some (length before)))
  unfolding plan_from plan_conflict
  planned before behind conflict parts h all =
      elim (last_position-shift (is_anchor rows) 0 before (conflict ∷ behind)) [
        | inl (e, no_anchor) ↦
            let none_at : last_position (is_anchor rows) 0 (length before) view ≡ none =
              rw parts e in
            let first_at : height_at (lowest view) (length before) view ≡ conflict.view_height =
              subst (λ v. height_at (lowest view) (length before) v ≡ conflict.view_height)
                (sym parts) (height_at-length (lowest view) before behind conflict) in
            let diverges = diverges_lowest before behind conflict parts h no_anchor in
            rw (none_at, first_at, diverges)
              (outside_view before behind conflict parts ((conflicts-Differs rows conflict).0 h)
                (none_differ rows before all) (none_anchor rows before no_anchor))
        | inr (i, e, last) ↦
            let one_at : last_position (is_anchor rows) 0 (length before) view ≡ some (0 + i) =
              rw parts e in
            let index : 0 + i + 1 ≡ length last.kept + 1 = omega (arith, last.index) in
            rw (one_at, index)
              (replaces last.kept last.between behind last.anchor conflict (rw (← last.parts) parts)
                ((conflicts-Differs rows conflict).0 h) (none_differ rows _ (rw (← last.parts) all))
                ((is_anchor-Anchors rows last.anchor).0 last.passes_test)
                (none_anchor rows last.between last.none_between))
      ]

  -- The plan replaces nothing when no local canonical row differs from Core's row at its height. When
  -- one does, the rows that are replaced are those above the nearest row below the first conflict that
  -- is the only local row of its height, is complete and is Core's; and a view without such a row gives
  -- an error that names the conflict and the ends of the view.
  pub plan_repair-PlanOf : PlanOf view rows (plan_repair view rows)
  unfolding plan_repair plan_from
  plan_repair-PlanOf = elim (position-shift (conflicts rows) 0 view) [
    | inl (e, all) ↦ rw e (agrees (none_differ rows view all))
    | inr (j, e, first) ↦
        let e' : 0 + j ≡ j = omega arith in
        rw (e, e', first.index)
          (planned first.before first.behind first.row first.parts first.passes_test
            first.none_before)
  ]

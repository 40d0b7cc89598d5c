-- ===== src/Backbone/Rows.antt =====
-- crates/mmm-producers/src/bitcoin_core_backbone: the rows that stand at a height.
use merge_mining_monitor.Backbone.{
  CanonicalRow, CoreViewRow, any_other_hash, conflicts, is_anchor, is_complete, rows_at_height,
  unique_match,
}
use merge_mining_monitor.Base.{
  All, Bool-cases, List, [], and-true, ap, arith, bytes_eq, bytes_eq_complete, bytes_eq_sound,
  false, inl, inr, refl, true, ◌++◌, ◌↔◌, ◌∙◌, ◌∷◌, ◌≡◌, ◌≢◌,
}
use merge_mining_monitor.Base.Int.{eqb_ℤ, ℤ}
use merge_mining_monitor.Base.Text.{same_text_iff}
use merge_mining_monitor.Classifier.Parent.{at_height}

abbrev pub Elsewhere : ℤ → CanonicalRow → Type 0
Elsewhere h r = r.height ≢ h

-- `row` is at `h`, and no other of the rows is.
pub record SoleRow (rows : List CanonicalRow) (h : ℤ) (row : CanonicalRow) : Type 0 where
  pub before : List CanonicalRow
  pub behind : List CanonicalRow
  pub parts : rows ≡ before ++ row ∷ behind
  pub at_height : row.height ≡ h
  pub none_before : All (Elsewhere h) before
  pub none_behind : All (Elsewhere h) behind

-- Some row at the height of Core's has another hash.
pub record Differs (rows : List CanonicalRow) (core : CoreViewRow) : Type 0 where
  pub before : List CanonicalRow
  pub row : CanonicalRow
  pub behind : List CanonicalRow
  pub parts : rows ≡ before ++ row ∷ behind
  pub at_height : row.height ≡ core.view_height
  pub other_hash : row.hash ≢ core.view_hash

height-eq : (a b : ℤ) → eqb_ℤ a b ≡ true → a ≡ b
height-eq a b e = ground arith

height-ne : (a b : ℤ) → eqb_ℤ a b ≡ false → a ≢ b
height-ne a b e same = let e' = rw same at e in let t : eqb_ℤ b b ≡ true = ground arith in cc

height-other : (a b : ℤ) → a ≢ b → eqb_ℤ a b ≡ false
height-other a b other = elim (Bool-cases (eqb_ℤ a b)) [
  | inl same ↦ absurd (other (height-eq a b same))
  | inr e ↦ e
]

rows_at_height-empty :
    (rows : List CanonicalRow) (h : ℤ) → (rows_at_height rows h ≡ []) ↔ All (Elsewhere h) rows
unfolding rows_at_height
rows_at_height-empty [] h = (λ e. tt, λ all. refl)
rows_at_height-empty (r ∷ rs) h = (
  λ e. elim (Bool-cases (eqb_ℤ r.height h)) [
    | inl same ↦ let e' = rw same at e in cc
    | inr other ↦ (height-ne r.height h other, (rows_at_height-empty rs h).0 (rw other at e))
  ],
  λ all. rw (height-other r.height h all.0) ((rows_at_height-empty rs h).1 all.1),
)

pub rows_at_height-SoleRow :
    (rows : List CanonicalRow) (h : ℤ) (row : CanonicalRow)
    → rows_at_height rows h ≡ row ∷ []
    → SoleRow rows h row
unfolding rows_at_height
rows_at_height-SoleRow [] h row e = cc
rows_at_height-SoleRow (r ∷ rs) h row e = elim (Bool-cases (eqb_ℤ r.height h)) [
  | inl same ↦
      let e' = rw same at e in
      let is_row : r ≡ row = cc in
      let rest : rows_at_height rs h ≡ [] = cc in
      record {
        before = [];
        behind = rs;
        parts = rw is_row refl;
        at_height = rw is_row at (height-eq r.height h same);
        none_before = tt;
        none_behind = (rows_at_height-empty rs h).0 rest;
      }
  | inr other ↦
      let later = rows_at_height-SoleRow rs h row (rw other at e) in
      record {
        before = r ∷ later.before;
        behind = later.behind;
        parts = ap (◌∷◌ r) later.parts;
        at_height = later.at_height;
        none_before = (height-ne r.height h other, later.none_before);
        none_behind = later.none_behind;
      }
]

at_height-append :
    (before : List CanonicalRow) (row : CanonicalRow) (behind : List CanonicalRow) (h : ℤ)
    → All (Elsewhere h) before
    → rows_at_height (before ++ row ∷ behind) h ≡ rows_at_height (row ∷ behind) h
unfolding rows_at_height
at_height-append [] row behind h all = refl
at_height-append (r ∷ before) row behind h all =
    rw (height-other r.height h all.0) (at_height-append before row behind h all.1)

pub SoleRow-rows_at_height :
    (rows : List CanonicalRow) (h : ℤ) (row : CanonicalRow)
    → SoleRow rows h row
    → rows_at_height rows h ≡ row ∷ []
unfolding rows_at_height
SoleRow-rows_at_height rows h row s =
    let same : eqb_ℤ row.height h ≡ true =
      rw s.at_height (let t : eqb_ℤ h h ≡ true = ground arith in t) in
    let none_left = (rows_at_height-empty s.behind h).1 s.none_behind in
    rw s.parts (at_height-append s.before row s.behind h s.none_before ∙ rw (same, none_left) refl)

-- Core's row is the only row at its height, and complete.
pub record Anchors (rows : List CanonicalRow) (core : CoreViewRow) : Type 0 where
  pub local : CanonicalRow
  pub sole : SoleRow rows core.view_height local
  pub same_hash : local.hash ≡ core.view_hash
  pub done : local.coinbase_status ≡ "complete"

Differs-cons :
    (r : CanonicalRow) (rs : List CanonicalRow) (core : CoreViewRow)
    → Differs rs core
    → Differs (r ∷ rs) core
Differs-cons r rs core d = record {
  before = r ∷ d.before;
  row = d.row;
  behind = d.behind;
  parts = ap (◌∷◌ r) d.parts;
  at_height = d.at_height;
  other_hash = d.other_hash;
}

Differs-of_rows :
    (rows : List CanonicalRow) (core : CoreViewRow)
    → any_other_hash core.view_hash (rows_at_height rows core.view_height) ≡ true
    → Differs rows core
unfolding rows_at_height any_other_hash
Differs-of_rows [] core e = cc
Differs-of_rows (r ∷ rs) core e = elim (Bool-cases (eqb_ℤ r.height core.view_height)) [
  | inr other ↦ Differs-cons r rs core (Differs-of_rows rs core (rw other at e))
  | inl same ↦
      let e' = rw same at e in
      elim (Bool-cases (bytes_eq r.hash core.view_hash)) [
        | inl equal ↦ Differs-cons r rs core (Differs-of_rows rs core (rw equal at e'))
        | inr differs ↦ record {
          before = [];
          row = r;
          behind = rs;
          parts = refl;
          at_height = height-eq r.height core.view_height same;
          other_hash = λ hash. let equal = bytes_eq_complete r.hash core.view_hash hash in cc;
        }
      ]
]

other_in :
    (before : List CanonicalRow) (row : CanonicalRow) (behind : List CanonicalRow)
    (core : CoreViewRow)
    → row.height ≡ core.view_height
    → row.hash ≢ core.view_hash
    → any_other_hash core.view_hash (rows_at_height (before ++ row ∷ behind) core.view_height)
      ≡ true
unfolding rows_at_height any_other_hash
other_in [] row behind core at_height other =
    let same : eqb_ℤ row.height core.view_height ≡ true =
      rw at_height (let h = core.view_height in let t : eqb_ℤ h h ≡ true = ground arith in t) in
    elim (Bool-cases (bytes_eq row.hash core.view_hash)) [
      | inl equal ↦ absurd (other (bytes_eq_sound row.hash core.view_hash equal))
      | inr differs ↦ rw (same, differs) refl
    ]
other_in (r ∷ before) row behind core at_height other =
    let later = other_in before row behind core at_height other in
    elim (Bool-cases (eqb_ℤ r.height core.view_height)) [
      | inr elsewhere ↦ rw (elsewhere, later) refl
      | inl here_too ↦ elim (Bool-cases (bytes_eq r.hash core.view_hash)) [
        | inl equal ↦ rw (here_too, equal, later) refl
        | inr differs ↦ rw (here_too, differs) refl
      ]
    ]

pub conflicts-Differs :
    (rows : List CanonicalRow) (core : CoreViewRow)
    → (conflicts rows core ≡ true) ↔ Differs rows core
unfolding conflicts
conflicts-Differs rows core = (
  Differs-of_rows rows core,
  λ d. rw d.parts (other_in d.before d.row d.behind core d.at_height d.other_hash),
)

pub is_anchor-Anchors :
    (rows : List CanonicalRow) (core : CoreViewRow)
    → (is_anchor rows core ≡ true) ↔ Anchors rows core
unfolding is_anchor unique_match is_complete
is_anchor-Anchors rows core = (
  by_rows (rows_at_height rows core.view_height) refl,
  λ a.
      rw
        (
          SoleRow-rows_at_height rows core.view_height a.local a.sole,
          bytes_eq_complete a.local.hash core.view_hash a.same_hash,
          (same_text_iff a.local.coinbase_status "complete").1 a.done,
        )
        refl,
)
  where
    by_rows :
        (local : List CanonicalRow)
        → rows_at_height rows core.view_height ≡ local
        → unique_match core local ≡ true
        → Anchors rows core
    by_rows [] e h = cc
    by_rows (r ∷ r' ∷ rs) e h = cc
    by_rows (r ∷ []) e h =
        let (same, complete) = and-true (bytes_eq r.hash core.view_hash) _ h in
        record {
          local = r;
          sole = rows_at_height-SoleRow rows core.view_height r e;
          same_hash = bytes_eq_sound r.hash core.view_hash same;
          done = (same_text_iff r.coinbase_status "complete").0 complete;
        }

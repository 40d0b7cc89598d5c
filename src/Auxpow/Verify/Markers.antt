-- ===== src/Auxpow/Verify/Markers.antt =====
-- The search for every marker: a script has exactly one when the first is the last.
use mathlib.Core.Option
use merge_mining_monitor.Auxpow.Verify.{auxpow_magic, find_all, find_subslice, single_marker}
use merge_mining_monitor.Auxpow.Verify.Footer.{IsOnly, IsOnly-first, IsOnly-of, IsOnly-rest}
use merge_mining_monitor.Base.{
  Bool-cases, List, Option, [], arith, bytes_eq, drop, inl, inr, length, map, none, ok, refl, some,
  suc, take, zero, ℕ, ◌+◌, ◌↔◌, ◌∷◌, ◌≡◌, ◌≢◌,
}
use merge_mining_monitor.Base.Words.{Bytes}

module _ (needle : Bytes) where
  -- what `find_all` returns, against the first position
  tail_nil : (ps : List ℕ) → (map suc ps ≡ []) ↔ (ps ≡ [])
  tail_nil [] = (λ e. refl, λ e. refl)
  tail_nil (x ∷ ps) = (λ e. cc, λ e. cc)

  map-none : (o : Option ℕ) → (Option.map suc o ≡ none) ↔ (o ≡ none)
  map-none none = (λ e. refl, λ e. refl)
  map-none (some x) = (λ e. cc, λ e. cc)

  find_all-nil :
      (haystack : Bytes) → (find_all haystack needle ≡ []) ↔ (find_subslice haystack needle ≡ none)
  unfolding find_all find_subslice
  find_all-nil [] = (λ e. refl, λ e. refl)
  find_all-nil (b ∷ bs) = elim (Bool-cases (bytes_eq (take (length needle) (b ∷ bs)) needle)) [
    | inl t ↦ rw t (λ e. cc, λ e. cc)
    | inr f ↦ rw f (
      λ e. (map-none _).1 ((find_all-nil bs).0 ((tail_nil _).0 e)),
      λ e. (tail_nil _).1 ((find_all-nil bs).1 ((map-none _).0 e)),
    )
  ]

  cons_nil : (p q : ℕ) (ps : List ℕ) → q ∷ ps ≡ p ∷ [] → (q ≡ p) × (ps ≡ [])
  cons_nil p q ps e = (cc, cc)

  map_single : (ps : List ℕ) (p : ℕ) → (map suc ps ≡ suc p ∷ []) ↔ (ps ≡ p ∷ [])
  map_single [] p = (λ e. cc, λ e. cc)
  map_single (x ∷ []) p = (λ e. cc, λ e. cc)
  map_single (x ∷ y ∷ ps) p = (λ e. cc, λ e. cc)

  map_single_zero : (ps : List ℕ) → map suc ps ≢ 0 ∷ []
  map_single_zero [] e = cc
  map_single_zero (x ∷ ps) e = grind arith

  map-some_zero : (o : Option ℕ) → Option.map suc o ≢ some 0
  map-some_zero none e = cc
  map-some_zero (some x) e = grind arith

  map-some : (o : Option ℕ) (p : ℕ) → (Option.map suc o ≡ some (suc p)) ↔ (o ≡ some p)
  map-some none p = (λ e. cc, λ e. cc)
  map-some (some x) p = (λ e. cc, λ e. cc)

  -- the first occurrence, and none behind it
  abbrev Single : Bytes → ℕ → Type 0
  Single haystack p =
      (find_subslice haystack needle ≡ some p)
      × (find_subslice (drop (suc p) haystack) needle ≡ none)

  find_all-Single :
      (haystack : Bytes) (p : ℕ) → (find_all haystack needle ≡ p ∷ []) ↔ Single haystack p
  unfolding find_all find_subslice
  find_all-Single [] p = (λ e. cc, λ e. cc e.0)
  find_all-Single (b ∷ bs) zero =
      elim (Bool-cases (bytes_eq (take (length needle) (b ∷ bs)) needle)) [
        | inl t ↦ rw t (
          λ e. (refl, (find_all-nil bs).0 ((tail_nil _).0 (cons_nil 0 0 _ e).1)),
          λ e. rw ((find_all-nil bs).1 e.1),
        )
        | inr f ↦ rw f (λ e. absurd (map_single_zero _ e), λ e. absurd (map-some_zero _ e.0))
      ]
  find_all-Single (b ∷ bs) (suc p) =
      elim (Bool-cases (bytes_eq (take (length needle) (b ∷ bs)) needle)) [
        | inl t ↦ rw t (λ e. absurd (omega (arith, (cons_nil (suc p) 0 _ e).0)), λ e. cc e.0)
        | inr f ↦ rw f (
          λ e.
              let (a, c) = (find_all-Single bs p).0 ((map_single _ p).0 e) in
              ((map-some _ p).1 a, c),
          λ e. (map_single _ p).1 ((find_all-Single bs p).1 ((map-some _ p).0 e.0, e.1)),
        )
      ]

single_marker-eq-ok : (ps : List ℕ) (p : ℕ) → (single_marker ps ≡ ok p) ↔ (ps ≡ p ∷ [])
unfolding single_marker
single_marker-eq-ok [] p = (λ e. cc, λ e. cc)
single_marker-eq-ok (x ∷ []) p = (λ e. cc, λ e. cc)
single_marker-eq-ok (x ∷ y ∷ ps) p = (λ e. cc, λ e. cc)

-- `verify_auxpow_commitment` goes on with a marker's position exactly when the marker stands there
-- and nowhere else in the script.
pub single_marker_iff :
    (script : Bytes) (p : ℕ)
    → (single_marker (find_all script auxpow_magic) ≡ ok p) ↔ IsOnly script auxpow_magic p
single_marker_iff script p =
    let z : p + 1 ≡ suc p = omega arith in
    let lists = find_all-Single auxpow_magic script p in
    let marks = single_marker-eq-ok (find_all script auxpow_magic) p in
    (
      λ h.
          let (first, rest) = lists.0 (marks.0 h) in
          IsOnly-of script auxpow_magic (omega arith) p first (rw z rest),
      λ h. marks.1 (
          lists.1 (
            IsOnly-first script auxpow_magic (omega arith) p h,
            rw z at (IsOnly-rest script auxpow_magic (omega arith) p h),
          )),
    )

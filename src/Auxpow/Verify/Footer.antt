-- ===== src/Auxpow/Verify/Footer.antt =====
-- Where the chain commitment stands in a coinbase script.
use merge_mining_monitor.Auxpow.Verify.{
  auxpow_magic, classic_markerless_root_window, find_subslice, marker_check, read_commitment_footer,
  slice,
}
use merge_mining_monitor.Auxpow.Verify.Subslice.{
  IsFirst, OccursAt, find_subslice-none, find_subslice-some,
}
use merge_mining_monitor.Base.{
  ==_iff, >>=-eq-ok, Bool-cases, Option, Option-cases, arith, drop, drop-drop, ensure-eq-ok, inl,
  inr, is_none, leb→le, length, le→leb, ltb, ltb→lt, none, ok, refl, some, true, ℕ, ◌+◌, ◌-◌, ◌<◌,
  ◌↔◌, ◌≡◌, ◌≤◌, ◌⊎◌,
}
use merge_mining_monitor.Base.Words.{Bytes, from_le}

-- The needle stands at `p` and nowhere else.
pub record IsOnly (haystack needle : Bytes) (p : ℕ) : Type 0 where
  pub occurs : OccursAt haystack needle p
  pub only : (j : ℕ) → OccursAt haystack needle j → j ≡ p

occurs_behind :
    (haystack needle : Bytes) (p j : ℕ)
    → OccursAt haystack needle (p + 1 + j)
    → OccursAt (drop (p + 1) haystack) needle j
occurs_behind haystack needle p j o = rw (drop-drop j (p + 1) haystack) o

occurs_ahead :
    (haystack needle : Bytes) (p j : ℕ)
    → OccursAt (drop (p + 1) haystack) needle j
    → OccursAt haystack needle (p + 1 + j)
occurs_ahead haystack needle p j o = rw (drop-drop j (p + 1) haystack) at o

module _ (haystack needle : Bytes) (nonempty : 0 < length needle) (p : ℕ) where
  pub IsOnly-of :
      find_subslice haystack needle ≡ some p
      → find_subslice (drop (p + 1) haystack) needle ≡ none
      → IsOnly haystack needle p
  IsOnly-of e n = record { occurs = first.occurs; only = only }
    where
      first : IsFirst haystack needle p
      first = (find_subslice-some haystack needle nonempty p).0 e

      nowhere : (j : ℕ) → ¬ OccursAt (drop (p + 1) haystack) needle j
      nowhere = (find_subslice-none (drop (p + 1) haystack) needle nonempty).0 n

      behind : (j : ℕ) → p < j → ¬ OccursAt haystack needle j
      behind j lt o =
          let e : p + 1 + (j - (p + 1)) ≡ j = omega arith in
          nowhere (j - (p + 1)) (occurs_behind haystack needle p (j - (p + 1)) (rw e o))

      only : (j : ℕ) → OccursAt haystack needle j → j ≡ p
      only j o = elim (Bool-cases (ltb j p)) [
        | inl lt ↦ absurd (first.least j (ltb→lt j p lt) o)
        | inr ge ↦ elim (Bool-cases (ltb p j)) [
          | inl lt ↦ absurd (behind j (ltb→lt p j lt) o)
          | inr le ↦ ground arith
        ]
      ]

  pub IsOnly-first : IsOnly haystack needle p → find_subslice haystack needle ≡ some p
  IsOnly-first h =
      (find_subslice-some haystack needle nonempty p).1
        (record { occurs = h.occurs; least = λ j lt o. absurd (omega (arith, h.only j o)) })

  pub IsOnly-rest : IsOnly haystack needle p → find_subslice (drop (p + 1) haystack) needle ≡ none
  IsOnly-rest h =
      (find_subslice-none (drop (p + 1) haystack) needle nonempty).1
        λ j o. absurd (omega (arith, h.only (p + 1 + j) (occurs_ahead haystack needle p j o)))

-- The placement rule: the only marker directly before the root, or no marker and an early root.
abbrev pub Placement : Bytes → ℕ → Type 0
Placement script root_pos =
    ((p : ℕ) × IsOnly script auxpow_magic p × (p + 4 ≡ root_pos))
    ⊎ (((j : ℕ) → ¬ OccursAt script auxpow_magic j) × (root_pos ≤ classic_markerless_root_window))

-- The root stands in the script under the placement rule, and behind its 32 bytes stand the size of
-- the tree and the nonce, four bytes each.
pub record IsFooter (script root : Bytes) (tree_size nonce : ℕ) : Type 0 where
  pub root_pos : ℕ
  pub first : IsFirst script root root_pos
  pub placed : Placement script root_pos
  pub fits : root_pos + 40 ≤ length script
  pub size_bytes : from_le (slice script (root_pos + 32) 4) ≡ tree_size
  pub nonce_bytes : from_le (slice script (root_pos + 36) 4) ≡ nonce

is_none-eq-true {ℓ} : {A : Type ℓ} (o : Option A) → is_none o ≡ true → o ≡ none
is_none-eq-true none h = refl
is_none-eq-true (some a) h = cc

marker_check-eq-ok :
    (script : Bytes) (root_pos : ℕ)
    → (marker_check script root_pos (find_subslice script auxpow_magic) ≡ ok tt)
      ↔ Placement script root_pos
unfolding marker_check
marker_check-eq-ok script root_pos = (sound, complete)
  where
    sound :
        marker_check script root_pos (find_subslice script auxpow_magic) ≡ ok tt
        → Placement script root_pos
    sound h = elim (Option-cases (find_subslice script auxpow_magic)) [
      | inl e ↦ inr (
        (find_subslice-none script auxpow_magic (omega arith)).0 e,
        leb→le _ _ (ensure-eq-ok _ _ (rw e at h)),
      )
      | inr (m, e) ↦
          let (_, first, second) = >>=-eq-ok _ _ (rw e at h) in
          inl (
            m,
            IsOnly-of script auxpow_magic (omega arith) m e
                (is_none-eq-true _ (ensure-eq-ok _ _ first)),
            (==_iff _ _).0 (ensure-eq-ok _ _ second),
          )
    ]

    complete :
        Placement script root_pos
        → marker_check script root_pos (find_subslice script auxpow_magic) ≡ ok tt
    complete (inl (p, only, e)) = rw (
      IsOnly-first script auxpow_magic (omega arith) p only,
      IsOnly-rest script auxpow_magic (omega arith) p only,
      (==_iff (p + 4) root_pos).1 e,
    )
    complete (inr (nowhere, early)) =
        rw ((find_subslice-none script auxpow_magic (omega arith)).1 nowhere, le→leb _ _ early)

module _ (script root : Bytes) (nonempty : 0 < length root) (tree_size nonce : ℕ) where
  IsFooter-sound :
      read_commitment_footer script root ≡ ok (tree_size, nonce)
      → IsFooter script root tree_size nonce
  unfolding read_commitment_footer
  IsFooter-sound h = elim (Option-cases (find_subslice script root)) [
    | inl e ↦ cc (rw e at h)
    | inr (root_pos, e) ↦
        let (_, placed, behind) = >>=-eq-ok _ _ (rw e at h) in
        let (_, fits, fields) = >>=-eq-ok _ _ behind in
        record {
          root_pos = root_pos;
          first = (find_subslice-some script root nonempty root_pos).0 e;
          placed = (marker_check-eq-ok script root_pos).0 placed;
          fits = leb→le _ _ (ensure-eq-ok _ _ fits);
          size_bytes = cc fields;
          nonce_bytes = cc fields;
        }
  ]

  footer_complete :
      IsFooter script root tree_size nonce
      → read_commitment_footer script root ≡ ok (tree_size, nonce)
  unfolding read_commitment_footer
  footer_complete f = rw (
    (find_subslice-some script root nonempty f.root_pos).1 f.first,
    (marker_check-eq-ok script f.root_pos).1 f.placed,
    le→leb _ _ f.fits,
    f.size_bytes,
    f.nonce_bytes,
  )

  -- For a root that is not empty, `read_commitment_footer` returns a tree size and a nonce exactly
  -- when the root stands first at a position that the placement rule allows (the only marker of the
  -- script directly before it, or no marker and a position of at most 20), the script holds 40
  -- bytes from there on, and the last eight of these are the tree size and the nonce.
  pub read_commitment_footer_iff :
      (read_commitment_footer script root ≡ ok (tree_size, nonce))
      ↔ IsFooter script root tree_size nonce
  read_commitment_footer_iff = (IsFooter-sound, footer_complete)

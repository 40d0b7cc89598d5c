-- ===== src/Auxpow/Verify/Subslice.antt =====
-- Searching a script for a byte string.
use mathlib.Core.Option
use mathlib.Core.Path.{subst}
use merge_mining_monitor.Auxpow.Verify.{find_subslice}
use merge_mining_monitor.Base.{
  Bool-cases, Option, [], ap, arith, bytes_eq, bytes_eq_complete, bytes_eq_sound, drop, inl, inr,
  length, ltb, ltb→lt, none, refl, some, suc, take, zero, ℕ, ◌<◌, ◌↔◌, ◌∷◌, ◌≡◌,
}
use merge_mining_monitor.Base.Words.{Bytes}

-- The needle stands in the haystack at position `i`.
abbrev pub OccursAt : Bytes → Bytes → ℕ → Type 0
OccursAt haystack needle i = take (length needle) (drop i haystack) ≡ needle

-- `i` is the first such position.
pub record IsFirst (haystack needle : Bytes) (i : ℕ) : Type 0 where
  pub occurs : OccursAt haystack needle i
  pub least : (j : ℕ) → j < i → ¬ OccursAt haystack needle j

not_in_empty : (needle : Bytes) (i : ℕ) → 0 < length needle → ¬ OccursAt [] needle i
not_in_empty [] i h o = absurd (omega arith)
not_in_empty (b ∷ bs) zero h o = cc
not_in_empty (b ∷ bs) (suc i) h o = cc

-- the two outcomes of the search
Found : Bytes → Bytes → Option ℕ → Type 0
Found haystack needle none = (j : ℕ) → ¬ OccursAt haystack needle j
Found haystack needle (some i) = IsFirst haystack needle i

IsFirst-suc :
    (b : ℕ) (bs needle : Bytes) (i : ℕ)
    → ¬ OccursAt (b ∷ bs) needle 0
    → IsFirst bs needle i
    → IsFirst (b ∷ bs) needle (suc i)
IsFirst-suc b bs needle i no_head f = record { occurs = f.occurs; least = earlier }
  where
    earlier : (j : ℕ) → j < suc i → ¬ OccursAt (b ∷ bs) needle j
    earlier zero h = no_head
    earlier (suc j) h = f.least j (omega arith)

not_in_cons :
    (b : ℕ) (bs needle : Bytes)
    → ¬ OccursAt (b ∷ bs) needle 0
    → ((j : ℕ) → ¬ OccursAt bs needle j)
    → (j : ℕ) → ¬ OccursAt (b ∷ bs) needle j
not_in_cons b bs needle no_head no_tail zero = no_head
not_in_cons b bs needle no_head no_tail (suc j) = no_tail j

Found-cons :
    (b : ℕ) (bs needle : Bytes) (o : Option ℕ)
    → ¬ OccursAt (b ∷ bs) needle 0
    → Found bs needle o
    → Found (b ∷ bs) needle (Option.map suc o)
unfolding Found
Found-cons b bs needle none no_head f = not_in_cons b bs needle no_head f
Found-cons b bs needle (some i) no_head f = IsFirst-suc b bs needle i no_head f

find_subslice-Found :
    (haystack needle : Bytes)
    → 0 < length needle
    → Found haystack needle (find_subslice haystack needle)
unfolding find_subslice Found
find_subslice-Found [] needle h = λ j. not_in_empty needle j h
find_subslice-Found (b ∷ bs) needle h =
    elim (Bool-cases (bytes_eq (take (length needle) (b ∷ bs)) needle)) [
      | inl e ↦
          rw e (record { occurs = bytes_eq_sound _ _ e; least = λ j lt. absurd (omega arith) })
      | inr e ↦ rw e (
          Found-cons b bs needle (find_subslice bs needle) (λ o. cc (e, bytes_eq_complete _ _ o))
            (find_subslice-Found bs needle h))
    ]

module _ (haystack needle : Bytes) (nonempty : 0 < length needle) where
  IsFirst-of_some :
      (o : Option ℕ) (i : ℕ) → Found haystack needle o → o ≡ some i → IsFirst haystack needle i
  unfolding Found
  IsFirst-of_some none i f e = cc
  IsFirst-of_some (some k) i f e = subst (IsFirst haystack needle) (ground arith) f

  nowhere_of_none :
      (o : Option ℕ) → Found haystack needle o → o ≡ none → (j : ℕ) → ¬ OccursAt haystack needle j
  unfolding Found
  nowhere_of_none none f e = f
  nowhere_of_none (some k) f e = cc

  first_unique : {i k : ℕ} → IsFirst haystack needle i → IsFirst haystack needle k → i ≡ k
  first_unique {i} {k} f g = elim (Bool-cases (ltb i k)) [
    | inl lt ↦ absurd (g.least i (ltb→lt i k lt) f.occurs)
    | inr ge ↦ elim (Bool-cases (ltb k i)) [
      | inl lt ↦ absurd (f.least k (ltb→lt k i lt) g.occurs)
      | inr le ↦ ground arith
    ]
  ]

  some_of_first :
      (o : Option ℕ) (i : ℕ) → Found haystack needle o → IsFirst haystack needle i → o ≡ some i
  unfolding Found
  some_of_first none i f g = absurd (f i g.occurs)
  some_of_first (some k) i f g = ap some (first_unique f g)

  none_of_nowhere :
      (o : Option ℕ) → Found haystack needle o → ((j : ℕ) → ¬ OccursAt haystack needle j) → o ≡ none
  unfolding Found
  none_of_nowhere none f h = refl
  none_of_nowhere (some k) f h = absurd (h k f.occurs)

  pub find_subslice-some :
      (i : ℕ) → (find_subslice haystack needle ≡ some i) ↔ IsFirst haystack needle i
  find_subslice-some i =
      let f = find_subslice-Found haystack needle nonempty in
      (IsFirst-of_some _ i f, some_of_first _ i f)

  pub find_subslice-none :
      (find_subslice haystack needle ≡ none) ↔ ((j : ℕ) → ¬ OccursAt haystack needle j)
  find_subslice-none =
      let f = find_subslice-Found haystack needle nonempty in
      (nowhere_of_none _ f, none_of_nowhere _ f)

  -- For every needle that is not empty, `find_subslice` returns a position exactly when it is the
  -- first at which the needle stands, and `none` exactly when the needle stands nowhere.
  pub find_subslice_lem :
      ((i : ℕ) → (find_subslice haystack needle ≡ some i) ↔ IsFirst haystack needle i)
      × ((find_subslice haystack needle ≡ none) ↔ ((j : ℕ) → ¬ OccursAt haystack needle j))
  find_subslice_lem = (find_subslice-some, find_subslice-none)
